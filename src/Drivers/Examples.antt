-- ===== src/Drivers/Examples.antt =====
-- Client libraries that answer nothing of use, to show that none is called. Tests and examples.
use dbabstract.Prelude.{◌≡◌, false, List, [], ◌∷◌, codes, none}
use dbabstract.Prelude.Int.{pos}
use dbabstract.Effects.{ok}
use dbabstract.Db.{serializable}
use dbabstract.Db.Closed.{
  Statement, execute, begin, commit, rollback, set_mode, run_script, all_false,
}
use dbabstract.Sqlite3
use dbabstract.Sqlite3.Driver.{sqlite3_connection}
use dbabstract.Mysql
use dbabstract.Mysql.Driver.{mysql_connection}
use dbabstract.Pq
use dbabstract.Pq.Driver.{pq_connection}
use dbabstract.Odbc
use dbabstract.Odbc.{start}
use dbabstract.Odbc.Driver.{odbc_connection}
use dbabstract.Odbc.Handles.{blank}
use dbabstract.Drivers.{run_script-refused}

abbrev pub no_sqlite3 : Sqlite3.Api
no_sqlite3 = record {
  on_open = λ log name. (1, 0);
  on_close = λ log h. 1;
  on_exec = λ log h sql. (1, 0);
  on_prepare = λ log h sql. (1, 0);
  on_step = λ log s. 1;
  column_count = λ s. 0;
  column_name = λ s i. none;
  on_column_text = λ log s i. none;
  mprintf_q = λ log s. none;
  last_insert_rowid = λ log h. pos 0;
  errcode = λ log h. 1;
  errmsg = λ log h. none;
  libversion = [];
  garbage = λ log i. 88;
}

abbrev pub no_mysql : Mysql.Api
no_mysql = record {
  on_init = λ log. 0;
  on_real_connect = λ log h target. false;
  on_select_db = λ log h db. 1;
  on_ping = λ log h. 1;
  on_query = λ log h sql. 1;
  on_use_result = λ log h. 0;
  on_list_tables = λ log h. 0;
  on_fetch_row = λ log res. none;
  num_rows = λ log res. 0;
  num_fields = λ res. 0;
  field_name = λ res j. none;
  escape_string = λ s. s;
  on_insert_id = λ log h. 0;
  errno = λ log h. 1;
  error = λ log h. none;
  client_info = [];
  garbage = λ log i. 88;
}

abbrev pub no_pq : Pq.Api
no_pq = record {
  on_connectdb = λ log source. 0;
  status = λ log h. 1;
  on_ping = λ log source. 1;
  on_exec = λ log h sql. 0;
  result_status = λ res. Pq.fatal_error;
  ntuples = λ res. 0;
  nfields = λ res. 0;
  fname = λ res j. none;
  getvalue = λ res row col. none;
  on_escape_literal = λ log h s. none;
  error_message = λ log h. none;
  garbage = λ log i. 88;
}

abbrev no_record : Odbc.Diagnostic
no_record = record { status = Odbc.failed; sqlstate = []; native_error = pos 0; message = [] }

abbrev pub no_odbc : Odbc.Api
no_odbc = record {
  on_alloc_handle = λ log kind parent. (Odbc.failed, 0);
  on_driver_connect = λ log h source. Odbc.failed;
  on_prepare = λ log h sql. Odbc.failed;
  on_execute = λ log h. Odbc.failed;
  on_more_results = λ log h. Odbc.failed;
  on_fetch_scroll = λ log h. Odbc.failed;
  on_fetch = λ log h. Odbc.failed;
  on_get_data = λ log h i. (Odbc.failed, none);
  on_tables = λ log h. Odbc.failed;
  on_get_diag_rec = λ log kind h i. no_record;
  row_count = λ log h. pos 0;
  num_result_cols = λ h. (Odbc.failed, 0);
  describe_col = λ h j. (Odbc.failed, []);
  garbage = λ log i. 88;
}

abbrev script : List Statement
script =
    begin ∷ execute (codes "DELETE FROM notes") ∷ set_mode serializable ∷ commit ∷ rollback ∷ []

run_script-refused_example :
    (run_script (sqlite3_connection no_sqlite3 1) script (record { db_ = 0 }) []
      ≡ ok (all_false script, []))
    × (run_script (mysql_connection no_mysql 1) script (record { mysql_ = 0 }) []
        ≡ ok (all_false script, []))
    × (run_script (pq_connection no_pq 1) script (record { pgconn_ = 0; database_ = [] }) []
        ≡ ok (all_false script, []))
    × (run_script (odbc_connection no_odbc 1) script blank start ≡ ok (all_false script, start))
run_script-refused_example =
    run_script-refused no_sqlite3 no_mysql no_pq no_odbc 1 script [] [] [] [] start
