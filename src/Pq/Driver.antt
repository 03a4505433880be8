-- ===== src/Pq/Driver.antt =====
-- The PostgreSQL driver as an implementation of the interfaces of dbabstract/db.h
-- (dbabstract/pq/pq_db.h), and the laws of `Connection` that it meets.
use dbabstract.Prelude.{ℕ, refl, Bytes}
use dbabstract.Effects.{Log}
use dbabstract.Convert.{Machine, or_zero}
use dbabstract.Db
use dbabstract.Db.Times.{WritesTimes}
use dbabstract.Db.Getters.{ConvertsText}
use dbabstract.Db.Closed.{ClosedIsInert}
use dbabstract.Pq.{Event, Api}
use dbabstract.Pq.ResultSet
use dbabstract.Pq.ResultSet.{PqResultSet}
use dbabstract.Pq.Connection
use dbabstract.Pq.Connection.{PqConnection}

module _ (api : Api) (fuel : ℕ) where
  abbrev pub pq_result_set : {D F : Type 0} → Machine D F → Db.ResultSet (Log Event) PqResultSet D F
  pq_result_set machine = record {
    handle = λ rs. rs.res_;
    close = ResultSet.close;
    next = ResultSet.next api;
    find_column = ResultSet.find_column api;
    record_count = ResultSet.record_count api;
    get_string = ResultSet.get_string api;
    get_integer = ResultSet.get_integer api;
    get_bool = ResultSet.get_bool api;
    get_unix_time = ResultSet.get_unix_time api machine;
    get_double = ResultSet.get_double api machine;
    get_float = ResultSet.get_float api machine;
    get_long = ResultSet.get_long api;
    get_short = ResultSet.get_short api;
  }

  abbrev pub pq_connection : Db.Connection (Log Event) PqConnection PqResultSet
  pq_connection = record {
    tables = Connection.tables api fuel;
    handle = λ c. c.pgconn_;
    open_database = Connection.open_database api;
    close = Connection.close;
    is_connected = Connection.is_connected api;
    execute = Connection.execute api;
    execute_query = Connection.execute_query api;
    escape = Connection.escape api;
    unixtime_to_sql = Connection.unixtime_to_sql api;
    insert_id = Connection.insert_id api;
    begin_trans = Connection.begin_trans api;
    commit_trans = Connection.commit_trans api;
    rollback_trans = Connection.rollback_trans api;
    set_transaction_mode = Connection.set_transaction_mode api;
    errorno = Connection.errorno api;
    errormsg = Connection.errormsg api;
    version = Connection.version api;
  }

  pub pq_closed-ClosedIsInert :
      (database : Bytes)
      → ClosedIsInert pq_connection (record { pgconn_ = 0; database_ = database })
  unfolding Connection.execute Connection.execute_query Connection.begin_trans
      Connection.commit_trans Connection.rollback_trans Connection.set_transaction_mode
  pq_closed-ClosedIsInert database = record {
    execute_closed = λ sql w. refl;
    query_closed = λ sql w. refl;
    begin_closed = λ w. refl;
    commit_closed = λ w. refl;
    rollback_closed = λ w. refl;
    mode_closed = λ m w. refl;
  }

  pub pq-WritesTimes : WritesTimes pq_connection
  unfolding Connection.unixtime_to_sql
  pq-WritesTimes = record { writes = λ t s w. (api.garbage w, refl) }

  pub pq-ConvertsText :
      {D F : Type 0} (machine : Machine D F) → ConvertsText (pq_result_set machine) machine.zone
  unfolding ResultSet.get_integer ResultSet.get_long ResultSet.get_short ResultSet.get_bool
      ResultSet.get_unix_time or_zero
  pq-ConvertsText machine = record {
    integer_is = λ idx r w w' v e. rw e;
    long_is = λ idx r w w' v e. rw e;
    short_is = λ idx r w w' v e. rw e;
    bool_is = λ idx r w w' v e. rw e;
    time_is = λ idx r w w' v e. rw e;
  }
