-- ===== src/Sqlite3/Statements.antt =====
-- The statements of `Sqlite3_Connection` that are no queries, in dbabstract/sqlite3/sqlite3_db.cpp, and
-- their error messages.
use dbabstract.Prelude.{
  ℕ, suc, ◌+◌, ◌≡◌, refl, ap, false, List, [], ◌∷◌, Bytes, arith, ◌==◌, if◌then◌else◌, length,
  Bool-cases, inl, inr,
}
use dbabstract.Effects.{Log, ok}
use dbabstract.Effects.Post.{Returns, Returns-bind, count}
use dbabstract.Db.Closed.{Statement, execute, begin, commit, rollback, set_mode, issue, run_script}
use dbabstract.Sqlite3.{Event, Api, sqlite3_exec, sqlite3_free}
use dbabstract.Sqlite3.Connection
use dbabstract.Sqlite3.Connection.{Sqlite3Connection}
use dbabstract.Sqlite3.Driver.{sqlite3_connection}

-- The messages that SQLite allocated, and those that were freed.
abbrev pub messages : Event → ℕ
messages (sqlite3_exec h sql (rc, err)) = if err == 0 then 0 else 1
messages _ = 0

abbrev pub message_frees : Event → ℕ
message_frees (sqlite3_free err) = 1
message_frees _ = 0

-- As many messages are held as before.
abbrev pub SameMessages : Log Event → Log Event → Type 0
SameMessages log log' =
    count messages log' + count message_frees log ≡ count messages log + count message_frees log'

module _ (api : Api) (c : Sqlite3Connection) where
  execute-SameMessages :
      (sql : Bytes) (log : Log Event)
      → Returns (λ _ log'. SameMessages log log') (Connection.execute api sql c log)
  unfolding Connection.execute
  execute-SameMessages sql log = ground arith

  guarded-SameMessages :
      (sql : Bytes) (log : Log Event)
      → Returns
          (λ _ log'. SameMessages log log')
          ((if c.db_ == 0 then (λ w. ok (false, w)) else Connection.execute api sql c) log)
  guarded-SameMessages sql log = elim (Bool-cases (c.db_ == 0)) [
    | inl null ↦ rw null (omega arith)
    | inr live ↦ rw live (execute-SameMessages sql log)
  ]

  issue-SameMessages :
      (fuel : ℕ) (st : Statement) (log : Log Event)
      → Returns (λ _ log'. SameMessages log log') (issue (sqlite3_connection api fuel) st c log)
  unfolding issue Connection.begin_trans Connection.commit_trans Connection.rollback_trans
      Connection.set_transaction_mode
  issue-SameMessages fuel (execute sql) log = execute-SameMessages sql log
  issue-SameMessages fuel begin log = guarded-SameMessages _ log
  issue-SameMessages fuel commit log = guarded-SameMessages _ log
  issue-SameMessages fuel rollback log = guarded-SameMessages _ log
  issue-SameMessages fuel (set_mode m) log = execute-SameMessages _ log

  -- A script of statements of the SQLite driver runs to its end with one answer each, on any
  -- connection and whatever SQLite answers, and as many error messages are held behind it as
  -- before.
  pub run_script-SameMessages :
      (fuel : ℕ) (sts : List Statement) (log : Log Event)
      → Returns
          (λ answers log'. SameMessages log log' × (length answers ≡ length sts))
          (run_script (sqlite3_connection api fuel) sts c log)
  unfolding run_script
  run_script-SameMessages fuel [] log = (refl, refl)
  run_script-SameMessages fuel (st ∷ sts) log =
      Returns-bind _ _ (issue (sqlite3_connection api fuel) st c log) _
        (issue-SameMessages fuel st log)
        λ answer log1 h1.
          Returns-bind _ _ (run_script (sqlite3_connection api fuel) sts c log1) _
            (run_script-SameMessages fuel sts log1)
            λ answers log2 h2. (omega (arith, h1, h2.0), ap suc h2.1)
