-- ===== src/Sqlite3/Driver.antt =====
-- The SQLite driver as an implementation of the interfaces of dbabstract/db.h
-- (dbabstract/sqlite3/sqlite3_db.h), and the laws of `Connection` that it meets.
use dbabstract.Prelude.{ℕ, ◌≡◌, refl, ◌∷◌, Bytes, some}
use dbabstract.Effects.{Log}
use dbabstract.C.Memory.{new_copy}
use dbabstract.Convert.{Machine, or_zero}
use dbabstract.Db
use dbabstract.Db.Times.{WritesTimes}
use dbabstract.Db.Getters.{ConvertsText}
use dbabstract.Db.Closed.{ClosedIsInert}
use dbabstract.Db.Streams.{EscapesToLiteral}
use dbabstract.Sql.{literal, literal-NoNul}
use dbabstract.Sqlite3.{Event, Api, sqlite3_mprintf, free_text}
use dbabstract.Sqlite3.ResultSet
use dbabstract.Sqlite3.ResultSet.{Sqlite3ResultSet}
use dbabstract.Sqlite3.Connection
use dbabstract.Sqlite3.Connection.{Sqlite3Connection}

module _ (api : Api) (fuel : ℕ) where
  abbrev pub sqlite3_result_set :
      {D F : Type 0} → Machine D F → Db.ResultSet (Log Event) Sqlite3ResultSet D F
  sqlite3_result_set machine = record {
    handle = λ rs. rs.res_;
    close = ResultSet.close api fuel;
    next = ResultSet.next api fuel;
    find_column = ResultSet.find_column api;
    record_count = ResultSet.record_count api;
    get_string = ResultSet.get_string api;
    get_integer = ResultSet.get_integer api;
    get_bool = ResultSet.get_bool api;
    get_unix_time = ResultSet.get_unix_time api machine;
    get_double = ResultSet.get_double api machine;
    get_float = ResultSet.get_float api machine;
    get_long = ResultSet.get_long api;
    get_short = ResultSet.get_short api;
  }

  abbrev pub sqlite3_connection : Db.Connection (Log Event) Sqlite3Connection Sqlite3ResultSet
  sqlite3_connection = record {
    tables = Connection.tables api fuel;
    handle = λ c. c.db_;
    open_database = Connection.open_database api;
    close = Connection.close api;
    is_connected = Connection.is_connected api;
    execute = Connection.execute api;
    execute_query = Connection.execute_query api;
    escape = Connection.escape api;
    unixtime_to_sql = Connection.unixtime_to_sql api;
    insert_id = Connection.insert_id api;
    begin_trans = Connection.begin_trans api;
    commit_trans = Connection.commit_trans api;
    rollback_trans = Connection.rollback_trans api;
    set_transaction_mode = Connection.set_transaction_mode api;
    errorno = Connection.errorno api;
    errormsg = Connection.errormsg api;
    version = Connection.version api;
  }

  pub sqlite3_closed-ClosedIsInert : ClosedIsInert sqlite3_connection (record { db_ = 0 })
  unfolding Connection.execute Connection.execute_query Connection.begin_trans
      Connection.commit_trans Connection.rollback_trans Connection.set_transaction_mode
  sqlite3_closed-ClosedIsInert = record {
    execute_closed = λ sql w. refl;
    query_closed = λ sql w. refl;
    begin_closed = λ w. refl;
    commit_closed = λ w. refl;
    rollback_closed = λ w. refl;
    mode_closed = λ m w. refl;
  }

  -- What SQLite documents of `sqlite3_mprintf("'%q'", s)`: quotes are doubled, between two quotes.
  abbrev pub MprintfDoublesQuotes : Type 0
  MprintfDoublesQuotes = (log : Log Event) (s : Bytes) → api.mprintf_q log s ≡ some (literal s)

  pub sqlite3_escape-EscapesToLiteral :
      MprintfDoublesQuotes → EscapesToLiteral sqlite3_connection (λ c. Unit {0})
  unfolding Connection.escape
  sqlite3_escape-EscapesToLiteral doubles = record {
    escaped = λ str c w nonul _.
        let log1 : Log Event = sqlite3_mprintf str (some (literal str)) ∷ w in
        let (buf, copied, text) =
          new_copy (api.garbage log1) (literal str) (literal-NoNul str nonul) in
        (buf, free_text (some (literal str)) ∷ log1, rw (doubles w str, copied), text);
  }

  pub sqlite3-WritesTimes : WritesTimes sqlite3_connection
  unfolding Connection.unixtime_to_sql
  sqlite3-WritesTimes = record { writes = λ t s w. (api.garbage w, refl) }

  pub sqlite3-ConvertsText :
      {D F : Type 0} (machine : Machine D F)
      → ConvertsText (sqlite3_result_set machine) machine.zone
  unfolding ResultSet.get_string ResultSet.get_integer ResultSet.get_long ResultSet.get_short
      ResultSet.get_bool ResultSet.get_unix_time or_zero
  sqlite3-ConvertsText machine = record {
    integer_is = λ idx r w w' v e. rw e;
    long_is = λ idx r w w' v e. rw e;
    short_is = λ idx r w w' v e. rw e;
    bool_is = λ idx r w w' v e. rw e;
    time_is = λ idx r w w' v e. rw e;
  }
