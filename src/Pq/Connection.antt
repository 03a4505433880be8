-- ===== src/Pq/Connection.antt =====
-- dbabstract/pq/pq_db.cpp: `PQ_Connection`. What `execute` prints is left out.
use dbabstract.Prelude.{
  ℕ, zero, suc, ◌+◌, Bool, true, false, List, [], ◌∷◌, ◌++◌, Bytes, codes, Option, none, some, ◌==◌,
  if◌then◌else◌, length,
}
use dbabstract.Prelude.Int.{ℤ}
use dbabstract.Effects.{
  Log, Program, Result, ok, spinning, pure, lift, call, deref, and_then, ◌>>=◌, ◌>>◌,
}
use dbabstract.C.Memory.{new_char, write, strcat}
use dbabstract.Convert.{time_literal}
use dbabstract.Db.{
  TransMode, read_uncommitted, read_committed, repeatable_read, serializable, Target,
}
use dbabstract.Pq.{
  Event, Api, is_command_ok, connectdb, finish, ping, exec, clear, escape_literal, free_mem,
  connection_ok, pqping_ok,
}
use dbabstract.Pq.ResultSet
use dbabstract.Pq.ResultSet.{PqResultSet, new_result_set}

pub record PqConnection : Type 0 where
  pub pgconn_ : ℕ
  pub database_ : Bytes

-- `new PQ_Connection`
unfoldable pub create_connection : PqConnection
create_connection = record { pgconn_ = 0; database_ = [] }

abbrev silent : Event → Program (Log Event) (Unit {0})
silent event = call (λ _. tt) (λ _. event)

unfoldable pub close : PqConnection → Program (Log Event) (Bool × PqConnection)
close c =
    if c.pgconn_ == 0
    then pure (false, c)
    else (do silent (finish c.pgconn_); pure (true, record c { pgconn_ = 0 }))

-- The block that `escape` fills from the text that libpq made.
unfoldable pub escape_block : (ℕ → ℕ) → Bytes → Result Bytes
escape_block garbage escaped =
    let len = length escaped in
    and_then (strcat (new_char garbage (len + 4)) escaped) (λ buf. write buf (len + 1) 0)

module _ (api : Api) where
  unfoldable pub open_database : Target → PqConnection → Program (Log Event) (Bool × PqConnection)
  open_database target c = do
    pgconn ← call (λ log. api.on_connectdb log target.database) (connectdb target.database)
    state ← (λ log. ok (api.status log pgconn, log))
    if state == connection_ok
        then pure (true, record { pgconn_ = pgconn; database_ = target.database })
        else (do
          (if pgconn == 0 then pure tt else silent (finish pgconn))
          pure (false, record { pgconn_ = 0; database_ = target.database }))

  unfoldable pub is_connected : PqConnection → Program (Log Event) Bool
  is_connected c = if c.pgconn_ == 0 then pure false else (do
    r ← call (λ log. api.on_ping log c.database_) (ping c.database_)
    pure (r == pqping_ok))

  unfoldable pub run_sql : Bytes → PqConnection → Program (Log Event) ℕ
  run_sql sql c = call (λ log. api.on_exec log c.pgconn_ sql) (exec c.pgconn_ sql)

  unfoldable pub execute : Bytes → PqConnection → Program (Log Event) Bool
  unfolding run_sql
  execute sql c = if c.pgconn_ == 0 then pure false else (do
    res ← run_sql sql c
    silent (clear res)
    pure (is_command_ok (api.result_status res)))

  unfoldable pub execute_query : Bytes → PqConnection → Program (Log Event) (Option PqResultSet)
  unfolding run_sql
  execute_query sql c = if c.pgconn_ == 0 then pure none else (do
    res ← run_sql sql c
    if is_command_ok (api.result_status res) then pure none else pure (some (new_result_set res)))

  unfoldable pub escape : Bytes → PqConnection → Program (Log Event) Bytes
  escape str c = do
    escaped ← call (λ log. api.on_escape_literal log c.pgconn_ str) (escape_literal c.pgconn_ str)
    text ← lift (deref escaped)
    garbage ← (λ log. ok (api.garbage log, log))
    buf ← lift (escape_block garbage text)
    silent (free_mem escaped)
    pure buf

  unfoldable pub unixtime_to_sql : ℤ → PqConnection → Program (Log Event) Bytes
  unixtime_to_sql val c log = lift (time_literal (api.garbage log) val) log

  unfoldable pub insert_id : PqConnection → Program (Log Event) ℕ
  insert_id c = pure 0

  -- The body that `beginTrans`, `commitTrans` and `rollbackTrans` share.
  unfoldable pub transact : Bytes → PqConnection → Program (Log Event) Bool
  unfolding run_sql
  transact sql c = if c.pgconn_ == 0 then pure false else (do
    res ← run_sql sql c
    silent (clear res)
    pure (is_command_ok (api.result_status res)))

  unfoldable pub begin_trans : PqConnection → Program (Log Event) Bool
  unfolding transact
  begin_trans = transact (codes "BEGIN")

  unfoldable pub commit_trans : PqConnection → Program (Log Event) Bool
  unfolding transact
  commit_trans = transact (codes "END")

  unfoldable pub rollback_trans : PqConnection → Program (Log Event) Bool
  unfolding transact
  rollback_trans = transact (codes "ROLLBACK")

  unfoldable pub mode_sql : TransMode → Bytes
  mode_sql read_uncommitted = codes "SET SESSION TRANSACTION ISOLATION LEVEL READ UNCOMMITTED"
  mode_sql read_committed = codes "SET SESSION TRANSACTION ISOLATION LEVEL READ COMMITTED"
  mode_sql repeatable_read = codes "SET SESSION TRANSACTION ISOLATION LEVEL REPEATABLE READ"
  mode_sql serializable = codes "SET SESSION TRANSACTION ISOLATION LEVEL SERIALIZABLE"

  unfoldable pub set_transaction_mode : TransMode → PqConnection → Program (Log Event) Bool
  unfolding mode_sql
  set_transaction_mode mode c = execute (mode_sql mode) c

  unfoldable pub errorno : PqConnection → Program (Log Event) ℕ
  errorno c log = ok (api.status log c.pgconn_, log)

  unfoldable pub errormsg : PqConnection → Program (Log Event) (Option Bytes)
  errormsg c log = ok (api.error_message log c.pgconn_, log)

  unfoldable pub version : PqConnection → Program (Log Event) Bytes
  version c = pure (codes "PostgreSQL Driver v0.1")

  -- The loop of `tables`. A NULL column is no `std::string`.
  unfoldable pub collect : ℕ → PqResultSet → List Bytes → Program (Log Event) (List Bytes)
  collect zero rs names log = lift spinning log
  collect (suc rounds) rs names log =
      (do
        r ← ResultSet.next api rs
        if r.0
            then (do
              idx ← ResultSet.find_column api (codes "tablename") r.1
              v ← ResultSet.get_string api idx r.1
              name ← lift (deref v)
              collect rounds r.1 (names ++ (name ∷ [])))
            else pure names)
        log

  unfoldable pub list_tables : ℕ → Option PqResultSet → Program (Log Event) (List Bytes)
  list_tables rounds none = pure []
  list_tables rounds (some rs) = do
    names ← collect rounds rs []
    ResultSet.close rs >>= λ _. pure names

  unfoldable pub tables : ℕ → PqConnection → Program (Log Event) (List Bytes)
  tables rounds c = do rs ← execute_query (codes "SELECT * from pg_tables") c; list_tables rounds rs
