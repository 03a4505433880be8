-- ===== src/Sqlite3/Transactions.antt =====
-- The statements of `Sqlite3_Connection` (dbabstract/sqlite3/sqlite3_db.cpp) and the database that SQLite
-- keeps behind its handle.
use dbabstract.Prelude.{
  ℕ, ◌≡◌, ◌≢◌, ◌∙◌, refl, ap, length, List, Bool, true, false, [], ◌∷◌, Bytes, codes, ◌==◌,
  if◌then◌else◌, arith, Bool-cases, inl, inr,
}
use dbabstract.Effects.{Log, Result, ok}
use dbabstract.Effects.Post.{Returns, Returns-weaken}
use dbabstract.C.Str.{str_eq}
use dbabstract.Db.{TransMode, read_uncommitted, read_committed, repeatable_read, serializable}
use dbabstract.Db.Closed.{Statement, execute, begin, commit, rollback, set_mode, issue, run_script}
use dbabstract.Db.Transactions.{Transaction, Database, apply, IsPlain, ArePlain, Implements}
use dbabstract.Db.Transactions.Answers.{
  respond, respond-set_mode, each_answered, Follows, run_script-Follows,
}
use dbabstract.Db.Transactions.Server.{Dialect, meaning, receive, IsChange, lookup}
use dbabstract.Sqlite3.{Event, Api, sqlite3_exec, sqlite_ok}
use dbabstract.Sqlite3.Connection
use dbabstract.Sqlite3.Connection.{Sqlite3Connection}
use dbabstract.Sqlite3.Driver.{sqlite3_connection}

module _ (failed : Transaction → Transaction) where
  -- The two pragmas that the driver sends are about the mode. Whether an error ends the transaction
  -- depends on the error.
  abbrev pub sqlite3_dialect : Dialect
  sqlite3_dialect = record {
    texts =
        (codes "BEGIN TRANSACTION", begin)
        ∷ (codes "COMMIT TRANSACTION", commit)
        ∷ (codes "ROLLBACK TRANSACTION", rollback)
        ∷ (codes "PRAGMA read_uncommitted = true", set_mode read_uncommitted)
        ∷ (codes "PRAGMA read_uncommitted = false", set_mode serializable)
        ∷ [];
    failed = failed;
  }

  module _ (h : ℕ) (base : Database) where
    -- The database when the calls of the log have been made on the handle `h`.
    abbrev pub sqlite3_database : Log Event → Database
    sqlite3_database [] = base
    sqlite3_database (sqlite3_exec h' sql (rc, err) ∷ log) =
        if h' == h
        then receive sqlite3_dialect sql (rc == sqlite_ok) (sqlite3_database log)
        else sqlite3_database log
    sqlite3_database (_ ∷ log) = sqlite3_database log

  module _ (api : Api) (c : Sqlite3Connection) (base : Database) (opened : c.db_ ≢ 0) where
    abbrev Told : Statement → Log Event → Bool → Log Event → Type 0
    Told st log answer log' =
        sqlite3_database c.db_ base log'
        ≡ respond failed st answer (sqlite3_database c.db_ base log)

    live : (c.db_ == 0) ≡ false
    live = ground (arith, opened)

    execute-Told :
        (sql : Bytes) (log : Log Event)
        → Returns (Told (meaning sqlite3_dialect sql) log) (Connection.execute api sql c log)
    unfolding Connection.execute
    execute-Told sql log =
        let same : (c.db_ == c.db_) ≡ true = ground arith in
        elim (Bool-cases ((api.on_exec log c.db_ sql).1 == 0)) [
          | inl silent ↦ rw (live, silent, same) refl
          | inr message ↦ rw (live, message, same) refl
        ]

    guarded-Told :
        (sql : Bytes) (log : Log Event)
        → Returns
            (Told (meaning sqlite3_dialect sql) log)
            ((if c.db_ == 0 then (λ w. ok (false, w)) else Connection.execute api sql c) log)
    guarded-Told sql log = rw live (execute-Told sql log)

    mode-Told :
        (m m' : TransMode) (r : Result (Bool × Log Event)) (log : Log Event)
        → Returns (Told (set_mode m) log) r
        → Returns (Told (set_mode m') log) r
    mode-Told m m' r log h = Returns-weaken _ _ r h (λ answer log' told.
        told ∙ respond-set_mode failed m m' answer (sqlite3_database c.db_ base log))

    set_mode-Told :
        (m : TransMode) (log : Log Event)
        → Returns (Told (set_mode m) log) (Connection.set_transaction_mode api m c log)
    unfolding lookup str_eq Connection.set_transaction_mode Connection.mode_sql
    set_mode-Told read_uncommitted log = execute-Told _ log
    set_mode-Told read_committed log =
        mode-Told read_uncommitted read_committed _ log (execute-Told _ log)
    set_mode-Told repeatable_read log =
        mode-Told read_uncommitted repeatable_read _ log (execute-Told _ log)
    set_mode-Told serializable log = execute-Told _ log

    issue-Told :
        (fuel : ℕ) (st : Statement) (log : Log Event)
        → IsPlain (IsChange sqlite3_dialect) st
        → Returns (Told st log) (issue (sqlite3_connection api fuel) st c log)
    unfolding issue lookup str_eq Connection.begin_trans Connection.commit_trans
        Connection.rollback_trans
    issue-Told fuel (execute sql) log own = rw own at (execute-Told sql log)
    issue-Told fuel begin log own = guarded-Told (codes "BEGIN TRANSACTION") log
    issue-Told fuel commit log own = guarded-Told (codes "COMMIT TRANSACTION") log
    issue-Told fuel rollback log own = guarded-Told (codes "ROLLBACK TRANSACTION") log
    issue-Told fuel (set_mode m) log own = set_mode-Told m log

    sqlite3-Follows :
        (fuel : ℕ)
        → Follows
            (sqlite3_connection api fuel)
            (sqlite3_database c.db_ base)
            failed
            (IsChange sqlite3_dialect)
            c
    sqlite3-Follows fuel = record { issues = issue-Told fuel }

    -- On an open connection of the SQLite driver, with an SQLite that takes the driver's own
    -- texts as its documentation says, and whatever a failure does to a transaction: a script
    -- in which the client's texts are changes runs to its end with one answer each, whatever
    -- SQLite answers, and the database behind the connection is what the specification of
    -- transactions makes of the statements and their answers.
    pub run_script-answered :
        (fuel : ℕ) (sts : List Statement) (log : Log Event)
        → ArePlain (IsChange sqlite3_dialect) sts
        → Returns
            (λ answers log'.
              (length answers ≡ length sts)
              × (sqlite3_database c.db_ base log'
                  ≡ each_answered failed sts answers (sqlite3_database c.db_ base log)))
            (run_script (sqlite3_connection api fuel) sts c log)
    run_script-answered fuel sts log own =
        run_script-Follows (sqlite3_connection api fuel) (sqlite3_database c.db_ base) failed
          (IsChange sqlite3_dialect) c (sqlite3-Follows fuel) sts log own

  module _ (api : Api) (c : Sqlite3Connection) (base : Database) (fuel : ℕ) where
    issue_null :
        (st : Statement) (log : Log Event)
        → (c.db_ == 0) ≡ true
        → issue (sqlite3_connection api fuel) st c log ≡ ok (false, log)
    unfolding issue Connection.execute Connection.begin_trans Connection.commit_trans
        Connection.rollback_trans Connection.set_transaction_mode
    issue_null (execute sql) log null = rw null refl
    issue_null begin log null = rw null refl
    issue_null commit log null = rw null refl
    issue_null rollback log null = rw null refl
    issue_null (set_mode m) log null = rw null refl

    abbrev IsDone : Statement → Log Event → Bool → Log Event → Type 0
    IsDone st log answer log' =
        answer ≡ true
        → sqlite3_database c.db_ base log' ≡ apply st (sqlite3_database c.db_ base log)

    issue-IsDone :
        (st : Statement) (log : Log Event)
        → IsPlain (IsChange sqlite3_dialect) st
        → Returns (IsDone st log) (issue (sqlite3_connection api fuel) st c log)
    issue-IsDone st log own = elim (Bool-cases (c.db_ == 0)) [
      | inl null ↦ rw (issue_null st log null) (λ e. cc)
      | inr held ↦
          Returns-weaken
            (λ answer log'.
              sqlite3_database c.db_ base log'
              ≡ respond failed st answer (sqlite3_database c.db_ base log))
            (IsDone st log) (issue (sqlite3_connection api fuel) st c log)
            (issue-Told api c base (ground arith) fuel st log own)
            (λ answer log' told e.
              told ∙ ap (λ (a : Bool). respond failed st a (sqlite3_database c.db_ base log)) e)
    ]

    pub sqlite3-Implements :
        Implements
          (sqlite3_connection api fuel)
          (sqlite3_database c.db_ base)
          apply
          (IsChange sqlite3_dialect)
          c
    sqlite3-Implements = record { issues = issue-IsDone }
