-- ===== src/Pq/Transactions.antt =====
-- The statements of `PQ_Connection` (dbabstract/pq/pq_db.cpp) and the database of a PostgreSQL server
-- that they are sent to.
use dbabstract.Prelude.{
  ℕ, ◌≡◌, refl, Bool, true, false, [], ◌∷◌, Bytes, codes, ◌==◌, if◌then◌else◌, arith, Bool-cases,
  inl, inr,
}
use dbabstract.Effects.{Log}
use dbabstract.Effects.Post.{Returns}
use dbabstract.C.Str.{str_eq}
use dbabstract.Db.{read_uncommitted, read_committed, repeatable_read, serializable}
use dbabstract.Db.Closed.{Statement, execute, begin, commit, rollback, set_mode, issue}
use dbabstract.Db.Transactions.{Database, apply, IsPlain, Implements}
use dbabstract.Db.Transactions.Server.{Dialect, meaning, receive, IsChange, lookup, spoilt}
use dbabstract.Pq.{Event, Api, ExecStatus, command_ok, tuples_ok, fatal_error, is_command_ok, exec}
use dbabstract.Pq.Connection
use dbabstract.Pq.Connection.{PqConnection}
use dbabstract.Pq.Driver.{pq_connection}

-- PostgreSQL takes END and COMMIT alike, and a statement that fails aborts its transaction.
abbrev pub pq_dialect : Dialect
pq_dialect = record {
  texts =
      (codes "BEGIN", begin)
      ∷ (codes "END", commit)
      ∷ (codes "COMMIT", commit)
      ∷ (codes "ROLLBACK", rollback)
      ∷ (
        codes "SET SESSION TRANSACTION ISOLATION LEVEL READ UNCOMMITTED",
        set_mode read_uncommitted,
      )
      ∷ (codes "SET SESSION TRANSACTION ISOLATION LEVEL READ COMMITTED", set_mode read_committed)
      ∷ (codes "SET SESSION TRANSACTION ISOLATION LEVEL REPEATABLE READ", set_mode repeatable_read)
      ∷ (codes "SET SESSION TRANSACTION ISOLATION LEVEL SERIALIZABLE", set_mode serializable)
      ∷ [];
  failed = spoilt;
}

abbrev pub received : ExecStatus → Bytes → Database → Database
received command_ok sql db = receive pq_dialect sql true db
received tuples_ok sql db = receive pq_dialect sql true db
received fatal_error sql db = receive pq_dialect sql false db
received _ sql db = db

received_ok :
    (status : ExecStatus) (sql : Bytes) (db : Database)
    → is_command_ok status ≡ true
    → received status sql db ≡ apply (meaning pq_dialect sql) db
received_ok command_ok sql db e = refl
received_ok _ sql db e = cc

module _ (api : Api) (h : ℕ) (base : Database) where
  -- The database when the calls of the log have been made on the connection `h`.
  abbrev pub pq_database : Log Event → Database
  pq_database [] = base
  pq_database (exec h' sql res ∷ log) =
      if h' == h then received (api.result_status res) sql (pq_database log) else pq_database log
  pq_database (_ ∷ log) = pq_database log

module _ (api : Api) (c : PqConnection) (base : Database) where
  -- What is sent on the connection is done, if the answer is yes.
  abbrev IsDone : Statement → Log Event → Bool → Log Event → Type 0
  IsDone st log answer log' =
      answer ≡ true
      → pq_database api c.pgconn_ base log' ≡ apply st (pq_database api c.pgconn_ base log)

  execute-IsDone :
      (sql : Bytes) (log : Log Event)
      → Returns (IsDone (meaning pq_dialect sql) log) (Connection.execute api sql c log)
  unfolding Connection.execute Connection.run_sql
  execute-IsDone sql log = elim (Bool-cases (c.pgconn_ == 0)) [
    | inl null ↦ rw null (λ e. cc)
    | inr live ↦
        let same : (c.pgconn_ == c.pgconn_) ≡ true = ground arith in
        rw (live, same) (λ e. received_ok _ sql _ e)
  ]

  transact-IsDone :
      (sql : Bytes) (log : Log Event)
      → Returns (IsDone (meaning pq_dialect sql) log) (Connection.transact api sql c log)
  unfolding Connection.transact Connection.execute
  transact-IsDone = execute-IsDone

  issue-IsDone :
      (fuel : ℕ) (st : Statement) (log : Log Event)
      → IsPlain (IsChange pq_dialect) st
      → Returns (IsDone st log) (issue (pq_connection api fuel) st c log)
  unfolding issue lookup str_eq Connection.begin_trans Connection.commit_trans
      Connection.rollback_trans Connection.set_transaction_mode Connection.mode_sql
  issue-IsDone fuel (execute sql) log own = rw own at (execute-IsDone sql log)
  issue-IsDone fuel begin log own = transact-IsDone (codes "BEGIN") log
  issue-IsDone fuel commit log own = transact-IsDone (codes "END") log
  issue-IsDone fuel rollback log own = transact-IsDone (codes "ROLLBACK") log
  issue-IsDone fuel (set_mode read_uncommitted) log own = execute-IsDone _ log
  issue-IsDone fuel (set_mode read_committed) log own = execute-IsDone _ log
  issue-IsDone fuel (set_mode repeatable_read) log own = execute-IsDone _ log
  issue-IsDone fuel (set_mode serializable) log own = execute-IsDone _ log

  pub pq-Implements :
      (fuel : ℕ)
      → Implements
          (pq_connection api fuel)
          (pq_database api c.pgconn_ base)
          apply
          (IsChange pq_dialect)
          c
  pq-Implements fuel = record { issues = issue-IsDone fuel }
