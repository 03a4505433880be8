-- ===== src/Odbc/Driver.antt =====
-- The ODBC driver as an implementation of the interfaces of dbabstract/db.h
-- (dbabstract/odbc/odbc_db.h), and the laws of `Connection` that it meets.
use dbabstract.Prelude.{ℕ, ◌^◌, ◌<◌, ◌≡◌, refl, Bytes, length}
use dbabstract.Effects.{ok}
use dbabstract.C.Memory.{c_string, NoNul}
use dbabstract.Sql.{literal}
use dbabstract.Convert.{Machine, or_zero}
use dbabstract.Db
use dbabstract.Db.Times.{WritesTimes}
use dbabstract.Db.Getters.{ConvertsText}
use dbabstract.Db.Closed.{ClosedIsInert}
use dbabstract.Odbc.{Api, World}
use dbabstract.Odbc.ResultSet
use dbabstract.Odbc.ResultSet.{OdbcResultSet}
use dbabstract.Odbc.Connection
use dbabstract.Odbc.Errors.{OdbcConnection}
use dbabstract.Odbc.Handles.{blank}
use dbabstract.Odbc.Escape.{escape_block-literal}

module _ (api : Api) (fuel : ℕ) where
  abbrev pub odbc_result_set : {D F : Type 0} → Machine D F → Db.ResultSet World OdbcResultSet D F
  odbc_result_set machine = record {
    handle = λ rs. rs.hstmt;
    close = ResultSet.close api fuel;
    next = ResultSet.next api;
    find_column = ResultSet.find_column api;
    record_count = ResultSet.record_count api;
    get_string = ResultSet.get_string api;
    get_integer = ResultSet.get_integer api;
    get_bool = ResultSet.get_bool api;
    get_unix_time = ResultSet.get_unix_time api machine;
    get_double = ResultSet.get_double api machine;
    get_float = ResultSet.get_float api machine;
    get_long = ResultSet.get_long api;
    get_short = ResultSet.get_short api;
  }

  abbrev pub odbc_connection : Db.Connection World OdbcConnection OdbcResultSet
  odbc_connection = record {
    tables = Connection.tables api fuel;
    handle = λ c. c.hstmt;
    open_database = Connection.open_database api;
    close = Connection.close;
    is_connected = Connection.is_connected api;
    execute = Connection.execute api;
    execute_query = Connection.execute_query api;
    escape = Connection.escape api;
    unixtime_to_sql = Connection.unixtime_to_sql api;
    insert_id = Connection.insert_id api;
    begin_trans = Connection.begin_trans api;
    commit_trans = Connection.commit_trans api;
    rollback_trans = Connection.rollback_trans api;
    set_transaction_mode = Connection.set_transaction_mode api;
    errorno = Connection.errorno api;
    errormsg = Connection.errormsg api;
    version = Connection.version api;
  }

  pub odbc_blank-ClosedIsInert : ClosedIsInert odbc_connection blank
  unfolding Connection.execute Connection.execute_query Connection.begin_trans
      Connection.commit_trans Connection.rollback_trans Connection.set_transaction_mode
  odbc_blank-ClosedIsInert = record {
    execute_closed = λ sql w. refl;
    query_closed = λ sql w. refl;
    begin_closed = λ w. refl;
    commit_closed = λ w. refl;
    rollback_closed = λ w. refl;
    mode_closed = λ m w. refl;
  }

  -- Where an `int` can count the literal.
  pub odbc_escape-literal :
      (str : Bytes) (c : OdbcConnection) (w : World)
      → NoNul str
      → length (literal str) < 2 ^ 31
      → (buf : Bytes) × (odbc_connection.escape str c w ≡ ok (buf, w))
        × (c_string buf ≡ ok (literal str))
  unfolding Connection.escape
  odbc_escape-literal str c w nonul few =
      let (buf, written, size, text) = escape_block-literal (api.garbage w.log) str nonul few in
      (buf, rw written refl, text)

  pub odbc-WritesTimes : WritesTimes odbc_connection
  unfolding Connection.unixtime_to_sql
  odbc-WritesTimes = record { writes = λ t s w. (api.garbage w.log, refl) }

  pub odbc-ConvertsText :
      {D F : Type 0} (machine : Machine D F) → ConvertsText (odbc_result_set machine) machine.zone
  unfolding ResultSet.get_string ResultSet.get_integer ResultSet.get_long ResultSet.get_short
      ResultSet.get_bool ResultSet.get_unix_time or_zero
  odbc-ConvertsText machine = record {
    integer_is = λ idx r w w' v e. rw e;
    long_is = λ idx r w w' v e. rw e;
    short_is = λ idx r w w' v e. rw e;
    bool_is = λ idx r w w' v e. rw e;
    time_is = λ idx r w w' v e. rw e;
  }
