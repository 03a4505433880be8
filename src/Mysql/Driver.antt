-- ===== src/Mysql/Driver.antt =====
-- The MySQL driver as an implementation of the interfaces of dbabstract/db.h
-- (dbabstract/mysql/mysql_db.h), and the laws of `Connection` that it meets.
use dbabstract.Prelude.{ℕ, refl}
use dbabstract.Effects.{Log}
use dbabstract.Convert.{Machine, or_zero}
use dbabstract.Db
use dbabstract.Db.Times.{WritesTimes}
use dbabstract.Db.Getters.{ConvertsText}
use dbabstract.Db.Closed.{ClosedIsInert}
use dbabstract.Mysql.{Event, Api}
use dbabstract.Mysql.ResultSet
use dbabstract.Mysql.ResultSet.{MysqlResultSet}
use dbabstract.Mysql.Connection
use dbabstract.Mysql.Connection.{MysqlConnection}

module _ (api : Api) (fuel : ℕ) where
  abbrev pub mysql_result_set :
      {D F : Type 0} → Machine D F → Db.ResultSet (Log Event) MysqlResultSet D F
  mysql_result_set machine = record {
    handle = λ rs. rs.res_;
    close = ResultSet.close api fuel;
    next = ResultSet.next api;
    find_column = ResultSet.find_column api;
    record_count = ResultSet.record_count api;
    get_string = ResultSet.get_string;
    get_integer = ResultSet.get_integer;
    get_bool = ResultSet.get_bool;
    get_unix_time = ResultSet.get_unix_time machine;
    get_double = ResultSet.get_double machine;
    get_float = ResultSet.get_float machine;
    get_long = ResultSet.get_long;
    get_short = ResultSet.get_short;
  }

  abbrev pub mysql_connection : Db.Connection (Log Event) MysqlConnection MysqlResultSet
  mysql_connection = record {
    tables = Connection.tables api fuel;
    handle = λ c. c.mysql_;
    open_database = Connection.open_database api;
    close = Connection.close;
    is_connected = Connection.is_connected api;
    execute = Connection.execute api;
    execute_query = Connection.execute_query api;
    escape = Connection.escape api;
    unixtime_to_sql = Connection.unixtime_to_sql api;
    insert_id = Connection.insert_id api;
    begin_trans = Connection.begin_trans api;
    commit_trans = Connection.commit_trans api;
    rollback_trans = Connection.rollback_trans api;
    set_transaction_mode = Connection.set_transaction_mode api;
    errorno = Connection.errorno api;
    errormsg = Connection.errormsg api;
    version = Connection.version api;
  }

  -- An object that is not open refuses each statement, begins and ends no transaction, and calls
  -- nothing.
  pub mysql_closed-ClosedIsInert : ClosedIsInert mysql_connection (record { mysql_ = 0 })
  unfolding Connection.execute Connection.execute_query Connection.begin_trans
      Connection.commit_trans Connection.rollback_trans Connection.set_transaction_mode
  mysql_closed-ClosedIsInert = record {
    execute_closed = λ sql w. refl;
    query_closed = λ sql w. refl;
    begin_closed = λ w. refl;
    commit_closed = λ w. refl;
    rollback_closed = λ w. refl;
    mode_closed = λ m w. refl;
  }

  pub mysql-WritesTimes : WritesTimes mysql_connection
  unfolding Connection.unixtime_to_sql
  mysql-WritesTimes = record { writes = λ t s w. (api.garbage w, refl) }

  pub mysql-ConvertsText :
      {D F : Type 0} (machine : Machine D F) → ConvertsText (mysql_result_set machine) machine.zone
  unfolding ResultSet.get_string ResultSet.get_integer ResultSet.get_long ResultSet.get_short
      ResultSet.get_bool ResultSet.get_unix_time or_zero
  mysql-ConvertsText machine = record {
    integer_is = λ idx r w w' v e. rw e;
    long_is = λ idx r w w' v e. rw e;
    short_is = λ idx r w w' v e. rw e;
    bool_is = λ idx r w w' v e. rw e;
    time_is = λ idx r w w' v e. rw e;
  }
