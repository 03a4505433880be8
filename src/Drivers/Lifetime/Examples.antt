-- ===== src/Drivers/Lifetime/Examples.antt =====
-- Client libraries that connect, and whose queries find no row. Tests and examples.
use dbabstract.Prelude.{
  ℕ, ◌+◌, ◌≡◌, true, List, [], ◌∷◌, Bytes, codes, none, length, ◌==◌, if◌then◌else◌,
}
use dbabstract.Prelude.Int.{pos}
use dbabstract.Convert.{Machine}
use dbabstract.Db.{Target}
use dbabstract.Db.Closed.{begin, commit}
use dbabstract.Db.Client.{reopen, perform, query, step, drop_set}
use dbabstract.Db.References.{dup, rel}
use dbabstract.Db.Client.Sharing.{Move, on_object, on_count}
use dbabstract.Sqlite3
use dbabstract.Sqlite3.Connection as SqliteObject
use dbabstract.Mysql
use dbabstract.Mysql.Connection
use dbabstract.Pq
use dbabstract.Pq.Connection as PqObject
use dbabstract.Odbc
use dbabstract.Odbc.Connection as OdbcObject
use dbabstract.Drivers.Examples.{no_sqlite3, no_mysql, no_pq, no_odbc}

abbrev machine : Machine ℕ ℕ
machine = record {
  zone = λ t. pos 0;
  strtod = λ s. 0;
  zero_double = 0;
  atof_float = λ s. 0;
  zero_float = 0;
}

abbrev s_api : Sqlite3.Api
s_api = record no_sqlite3 {
  on_open = λ log name. (0, 7);
  on_close = λ log h. 0;
  on_exec = λ log h sql. (0, 0);
  on_prepare = λ log h sql. (0, 8);
  on_step = λ log s. Sqlite3.sqlite_done;
}

abbrev m_api : Mysql.Api
m_api = record no_mysql {
  on_init = λ log. 7;
  on_real_connect = λ log h target. true;
  on_select_db = λ log h db. 0;
  on_query = λ log h sql. 0;
  on_use_result = λ log h. 8;
}

-- A query has 8 bytes, and any other statement is a plain success.
abbrev p_api : Pq.Api
p_api = record no_pq {
  on_connectdb = λ log source. 7;
  status = λ log h. 0;
  on_exec = λ log h sql. if length sql == 8 then 8 else 9;
  result_status = λ res. if res == 8 then Pq.tuples_ok else Pq.command_ok;
}

abbrev o_api : Odbc.Api
o_api = record no_odbc {
  on_alloc_handle = λ log kind parent. (Odbc.success, length log + 1);
  on_driver_connect = λ log h source. Odbc.success;
  on_prepare = λ log h sql. Odbc.success;
  on_execute = λ log h. Odbc.success;
  on_more_results = λ log h. Odbc.no_data;
  on_fetch = λ log h. Odbc.no_data;
}

abbrev IsListing : Bytes → Type 0
IsListing sql = length sql ≡ 8

abbrev here : Target
here = record { database = codes "db"; host = none; port = 0; user = none; pass = none }

-- Two holders; the first gives up the object while a result set is open.
abbrev visit : List Move
visit =
    on_object (reopen here)
    ∷ on_count dup
    ∷ on_object (perform begin)
    ∷ on_object (query (codes "SELECT 1"))
    ∷ on_count rel
    ∷ on_object (step 0)
    ∷ on_object (drop_set 0)
    ∷ on_object (perform commit)
    ∷ on_count rel
    ∷ []
