-- ===== src/Sqlite3/Connection.antt =====
-- dbabstract/sqlite3/sqlite3_db.cpp: `Sqlite3_Connection`. Its members `errorno_` and `errormsg_` are
-- never used, and are left out.
use dbabstract.Prelude.{
  ℕ, zero, suc, ◌+◌, Bool, true, false, not, List, [], ◌∷◌, ◌++◌, Bytes, codes, Option, none, some,
  ◌==◌, if◌then◌else◌, length, take,
}
use dbabstract.Prelude.Int.{ℤ}
use dbabstract.Effects.{Log, Program, ok, spinning, pure, lift, call, deref, ◌>>=◌, ◌>>◌}
use dbabstract.C.Num.{to_ulong}
use dbabstract.C.Memory.{new_char, write_all}
use dbabstract.Convert.{time_literal}
use dbabstract.Db.{
  TransMode, read_uncommitted, read_committed, repeatable_read, serializable, Target,
}
use dbabstract.Sqlite3.{
  Event, Api, sqlite3_open, sqlite3_close, sqlite3_exec, sqlite3_free, sqlite3_prepare,
  sqlite3_mprintf, free_text, sqlite_ok,
}
use dbabstract.Sqlite3.ResultSet.{Sqlite3ResultSet}
use dbabstract.Sqlite3.ResultSet

pub record Sqlite3Connection : Type 0 where
  pub db_ : ℕ

-- `new Sqlite3_Connection`
unfoldable pub create_connection : Sqlite3Connection
create_connection = record { db_ = 0 }

module _ (api : Api) where
  unfoldable pub open_database :
      Target → Sqlite3Connection → Program (Log Event) (Bool × Sqlite3Connection)
  open_database target c = do
    r ← call (λ log. api.on_open log target.database) (sqlite3_open target.database)
    if r.0 == sqlite_ok then pure (true, record { db_ = r.1 }) else pure (false, record { db_ = 0 })

  unfoldable pub close : Sqlite3Connection → Program (Log Event) (Bool × Sqlite3Connection)
  close c = if c.db_ == 0 then pure (false, c) else (do
    rc ← call (λ log. api.on_close log c.db_) (sqlite3_close c.db_)
    if rc == sqlite_ok then pure (true, record { db_ = 0 }) else pure (false, c))

  unfoldable pub is_connected : Sqlite3Connection → Program (Log Event) Bool
  is_connected c = pure (not (c.db_ == 0))

  unfoldable pub execute : Bytes → Sqlite3Connection → Program (Log Event) Bool
  execute sql c = if c.db_ == 0 then pure false else (do
    r ← call (λ log. api.on_exec log c.db_ sql) (sqlite3_exec c.db_ sql)
    (if r.1 == 0 then pure tt else call (λ _. tt) (λ _. sqlite3_free r.1))
    pure (r.0 == sqlite_ok))

  unfoldable pub execute_query :
      Bytes → Sqlite3Connection → Program (Log Event) (Option Sqlite3ResultSet)
  execute_query sql c = if c.db_ == 0 then pure none else (do
    r ← call (λ log. api.on_prepare log c.db_ sql) (sqlite3_prepare c.db_ sql)
    if r.0 == sqlite_ok then pure (some (record { res_ = r.1 })) else pure none)

  -- The block that `escape` returns: a copy of what `sqlite3_mprintf` made.
  unfoldable pub escape : Bytes → Sqlite3Connection → Program (Log Event) Bytes
  escape str c = do
    esc ← call (λ log. api.mprintf_q log str) (sqlite3_mprintf str)
    text ← lift (deref esc)
    garbage ← (λ log. ok (api.garbage log, log))
    ret ← lift (write_all (new_char garbage (length text + 1)) 0 (text ++ (0 ∷ [])))
    call (λ _. tt) (λ _. free_text esc)
    pure ret

  unfoldable pub unixtime_to_sql : ℤ → Sqlite3Connection → Program (Log Event) Bytes
  unixtime_to_sql val c log = lift (time_literal (api.garbage log) val) log

  unfoldable pub insert_id : Sqlite3Connection → Program (Log Event) ℕ
  insert_id c log = ok (to_ulong (api.last_insert_rowid log c.db_), log)

  unfoldable pub begin_trans : Sqlite3Connection → Program (Log Event) Bool
  begin_trans c = if c.db_ == 0 then pure false else execute (codes "BEGIN TRANSACTION") c

  unfoldable pub commit_trans : Sqlite3Connection → Program (Log Event) Bool
  commit_trans c = if c.db_ == 0 then pure false else execute (codes "COMMIT TRANSACTION") c

  unfoldable pub rollback_trans : Sqlite3Connection → Program (Log Event) Bool
  rollback_trans c = if c.db_ == 0 then pure false else execute (codes "ROLLBACK TRANSACTION") c

  unfoldable pub mode_sql : TransMode → Bytes
  mode_sql read_uncommitted = codes "PRAGMA read_uncommitted = true"
  mode_sql read_committed = codes "PRAGMA read_uncommitted = true"
  mode_sql repeatable_read = codes "PRAGMA read_uncommitted = true"
  mode_sql serializable = codes "PRAGMA read_uncommitted = false"

  unfoldable pub set_transaction_mode : TransMode → Sqlite3Connection → Program (Log Event) Bool
  unfolding mode_sql
  set_transaction_mode mode c = execute (mode_sql mode) c

  unfoldable pub errorno : Sqlite3Connection → Program (Log Event) ℕ
  errorno c log = ok (api.errcode log c.db_, log)

  unfoldable pub errormsg : Sqlite3Connection → Program (Log Event) (Option Bytes)
  errormsg c log = ok (api.errmsg log c.db_, log)

  -- `snprintf` keeps 255 bytes.
  unfoldable pub version : Sqlite3Connection → Program (Log Event) Bytes
  version c = pure (take 255 (codes "Sqlite3 Driver v0.2 using " ++ api.libversion))

  -- The loop of `tables`. A NULL column is no `std::string`.
  unfoldable pub collect : ℕ → ℕ → Sqlite3ResultSet → List Bytes → Program (Log Event) (List Bytes)
  collect fuel zero rs names log = lift spinning log
  collect fuel (suc rounds) rs names log =
      (do
        r ← ResultSet.next api fuel rs
        if r.0
            then (do
              v ← ResultSet.get_string api 2 r.1
              name ← lift (deref v)
              collect fuel rounds r.1 (names ++ (name ∷ [])))
            else pure names)
        log

  unfoldable pub list_tables : ℕ → Option Sqlite3ResultSet → Program (Log Event) (List Bytes)
  list_tables fuel none = pure []
  list_tables fuel (some rs) = do
    names ← collect fuel fuel rs []
    ResultSet.close api fuel rs >>= λ _. pure names

  unfoldable pub tables : ℕ → Sqlite3Connection → Program (Log Event) (List Bytes)
  tables fuel c = do
    rs ← execute_query (codes "SELECT * FROM sqlite_master WHERE type='table'") c
    list_tables fuel rs
