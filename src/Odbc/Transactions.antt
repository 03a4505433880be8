-- ===== src/Odbc/Transactions.antt =====
-- The statements of `ODBC_Connection` (dbabstract/odbc/odbc_db.cpp) and the database of the server
-- behind the driver manager. A statement is prepared and then run on the connection's one handle.
use dbabstract.Prelude.{
  ℕ, ◌≡◌, refl, Bool, true, false, [], ◌∷◌, Bytes, codes, Option, none, some, ◌==◌, if◌then◌else◌,
  arith, Bool-cases, inl, inr,
}
use dbabstract.Effects.{Log, ok}
use dbabstract.Effects.Post.{Returns}
use dbabstract.C.Str.{str_eq}
use dbabstract.Db.{read_uncommitted, read_committed, repeatable_read, serializable}
use dbabstract.Db.Closed.{Statement, execute, begin, commit, rollback, set_mode, issue}
use dbabstract.Db.Transactions.{Transaction, Database, apply, IsPlain, Implements}
use dbabstract.Db.Transactions.Server.{Dialect, meaning, receive, IsChange, lookup}
use dbabstract.Odbc.{Event, Api, World, is_success, succeeded, prepare, run}
use dbabstract.Odbc.Connection
use dbabstract.Odbc.Errors.{OdbcConnection}
use dbabstract.Odbc.Driver.{odbc_connection}

-- The text that was prepared last on the handle `h`.
abbrev pub prepared : ℕ → Log Event → Option Bytes
prepared h [] = none
prepared h (prepare h' sql sts ∷ log) =
    let before = prepared h log in
    if h' == h then (if is_success sts then some sql else none) else before
prepared h (_ ∷ log) = prepared h log

module _ (failed : Transaction → Transaction) where
  -- The statements as MySQL and SQL Server take them too.
  abbrev pub odbc_dialect : Dialect
  odbc_dialect = record {
    texts =
        (codes "BEGIN", begin)
        ∷ (codes "COMMIT", commit)
        ∷ (codes "ROLLBACK", rollback)
        ∷ (
          codes "SET SESSION TRANSACTION ISOLATION LEVEL READ UNCOMMITTED",
          set_mode read_uncommitted,
        )
        ∷ (codes "SET SESSION TRANSACTION ISOLATION LEVEL READ COMMITTED", set_mode read_committed)
        ∷ (
          codes "SET SESSION TRANSACTION ISOLATION LEVEL REPEATABLE READ",
          set_mode repeatable_read,
        )
        ∷ (codes "SET SESSION TRANSACTION ISOLATION LEVEL SERIALIZABLE", set_mode serializable)
        ∷ [];
    failed = failed;
  }

  abbrev pub received : Option Bytes → Bool → Database → Database
  received none succeeds db = db
  received (some sql) succeeds db = receive odbc_dialect sql succeeds db

  module _ (h : ℕ) (base : Database) where
    -- The database when the calls of the log have been made on the handle `h`.
    abbrev database_after : Log Event → Database
    database_after [] = base
    database_after (run h' sts ∷ log) =
        let before = database_after log in
        if h' == h then received (prepared h log) (succeeded sts) before else before
    database_after (_ ∷ log) = database_after log

    abbrev pub odbc_database : World → Database
    odbc_database w = database_after w.log

  module _ (api : Api) (c : OdbcConnection) (base : Database) where
    abbrev IsDone : Statement → World → Bool → World → Type 0
    IsDone st w answer w' =
        answer ≡ true → odbc_database c.hstmt base w' ≡ apply st (odbc_database c.hstmt base w)

    execute-IsDone :
        (sql : Bytes) (w : World)
        → Returns (IsDone (meaning odbc_dialect sql) w) (Connection.execute api sql c w)
    unfolding Connection.execute Connection.sql_prepare Connection.sql_execute
    execute-IsDone sql w = elim (Bool-cases c.connected) [
      | inl live ↦
          let same : (c.hstmt == c.hstmt) ≡ true = ground arith in
          elim (Bool-cases (is_success (api.on_prepare w.log c.hstmt sql))) [
            | inl good ↦ simp (live, good, same) (λ e. rw e refl)
            | inr bad ↦ simp (live, bad) (λ e. cc)
          ]
      | inr shut ↦ simp shut (λ e. cc)
    ]

    guarded-IsDone :
        (sql : Bytes) (w : World)
        → Returns
            (IsDone (meaning odbc_dialect sql) w)
            ((if c.connected then Connection.execute api sql c else (λ w. ok (false, w))) w)
    guarded-IsDone sql w = elim (Bool-cases c.connected) [
      | inl live ↦ simp live (execute-IsDone sql w)
      | inr shut ↦ simp shut (λ e. cc)
    ]

    issue-IsDone :
        (fuel : ℕ) (st : Statement) (w : World)
        → IsPlain (IsChange odbc_dialect) st
        → Returns (IsDone st w) (issue (odbc_connection api fuel) st c w)
    unfolding issue lookup str_eq Connection.begin_trans Connection.commit_trans
        Connection.rollback_trans Connection.set_transaction_mode Connection.mode_sql
    issue-IsDone fuel (execute sql) w own = rw own at (execute-IsDone sql w)
    issue-IsDone fuel begin w own = guarded-IsDone (codes "BEGIN") w
    issue-IsDone fuel commit w own = guarded-IsDone (codes "COMMIT") w
    issue-IsDone fuel rollback w own = guarded-IsDone (codes "ROLLBACK") w
    issue-IsDone fuel (set_mode read_uncommitted) w own = execute-IsDone _ w
    issue-IsDone fuel (set_mode read_committed) w own = execute-IsDone _ w
    issue-IsDone fuel (set_mode repeatable_read) w own = execute-IsDone _ w
    issue-IsDone fuel (set_mode serializable) w own = execute-IsDone _ w

    pub odbc-Implements :
        (fuel : ℕ)
        → Implements
            (odbc_connection api fuel)
            (odbc_database c.hstmt base)
            apply
            (IsChange odbc_dialect)
            c
    odbc-Implements fuel = record { issues = issue-IsDone fuel }
