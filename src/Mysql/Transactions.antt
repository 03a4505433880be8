-- ===== src/Mysql/Transactions.antt =====
-- The statements of `MySQL_Connection` (dbabstract/mysql/mysql_db.cpp) and the session of a MySQL server
-- that they are sent to, with its autocommit mode.
use dbabstract.Prelude.{
  ℕ, ◌≡◌, refl, Bool, true, false, not, ◌&&◌, List, [], ◌∷◌, ◌++◌, Bytes, codes, ◌==◌,
  if◌then◌else◌, arith, Bool-cases, inl, inr,
}
use dbabstract.Effects.{Log}
use dbabstract.Effects.Post.{Returns}
use dbabstract.C.Str.{str_eq}
use dbabstract.Db.{read_uncommitted, read_committed, repeatable_read, serializable}
use dbabstract.Db.Closed.{Statement, execute, begin, commit, rollback, set_mode, issue}
use dbabstract.Db.Transactions.{Implements, IsPlain}
use dbabstract.Mysql.{Event, Api, query, close_handle}
use dbabstract.Mysql.Connection
use dbabstract.Mysql.Connection.{MysqlConnection}
use dbabstract.Mysql.Driver.{mysql_connection}

-- What is kept, what the transaction that is open has done, the autocommit mode, and whether a BEGIN
-- holds it up.
pub record Session : Type 0 where
  pub durable : List Bytes
  pub pending : List Bytes
  pub autocommit : Bool
  pub begun : Bool

-- A new session has no transaction, and autocommit on.
abbrev pub new_session : List Bytes → Session
new_session kept = record { durable = kept; pending = []; autocommit = true; begun = false }

-- What a text means to the server.
pub data Command : Type 0 where
  autocommit_off : Command
  begin_work : Command
  commit_work : Command
  rollback_work : Command
  isolation : Command
  change : Bytes → Command

unfoldable pub command : Bytes → Command
command sql =
    if str_eq sql (codes "SET AUTOCOMMIT = 0")
    then autocommit_off
    else if str_eq sql (codes "BEGIN")
    then begin_work
    else if str_eq sql (codes "COMMIT")
    then commit_work
    else if str_eq sql (codes "ROLLBACK")
    then rollback_work
    else if str_eq sql (codes "SET SESSION TRANSACTION ISOLATION LEVEL READ UNCOMMITTED")
    then isolation
    else if str_eq sql (codes "SET SESSION TRANSACTION ISOLATION LEVEL READ COMMITTED")
    then isolation
    else if str_eq sql (codes "SET SESSION TRANSACTION ISOLATION LEVEL REPEATABLE READ")
    then isolation
    else if str_eq sql (codes "SET SESSION TRANSACTION ISOLATION LEVEL SERIALIZABLE")
    then isolation
    else change sql

abbrev pub keep_pending : Bool → Session → Session
keep_pending begun s = record s { durable = s.durable ++ s.pending; pending = []; begun = begun }

-- BEGIN commits what is open. A change is kept at once only in autocommit mode and behind no BEGIN.
abbrev pub obey : Command → Session → Session
obey autocommit_off s = record s { autocommit = false }
obey begin_work s = keep_pending true s
obey commit_work s = keep_pending false s
obey rollback_work s = record s { pending = []; begun = false }
obey isolation s = s
obey (change sql) s =
    if s.autocommit && not s.begun
    then record s { durable = s.durable ++ (sql ∷ []) }
    else record s { pending = s.pending ++ (sql ∷ []) }

abbrev pub IsChange : Bytes → Type 0
IsChange sql = command sql ≡ change sql

-- What the methods of the driver do to the session.
abbrev pub session_step : Statement → Session → Session
session_step (execute sql) s = obey (change sql) s
session_step begin s = obey begin_work (obey autocommit_off s)
session_step commit s = obey commit_work s
session_step rollback s = obey rollback_work s
session_step (set_mode m) s = s

module _ (h : ℕ) (base : Session) where
  -- The session when the calls of the log have been made on the handle `h`. Closing it rolls back.
  abbrev pub session : Log Event → Session
  session [] = base
  session (query h' sql rc ∷ log) =
      if (h' == h) && (rc == 0) then obey (command sql) (session log) else session log
  session (close_handle h' ∷ log) =
      if h' == h then obey rollback_work (session log) else session log
  session (_ ∷ log) = session log

module _ (api : Api) (c : MysqlConnection) (base : Session) where
  abbrev IsDone : (Session → Session) → Log Event → Bool → Log Event → Type 0
  IsDone f log answer log' =
      answer ≡ true → session c.mysql_ base log' ≡ f (session c.mysql_ base log)

  execute-IsDone :
      (sql : Bytes) (log : Log Event)
      → Returns (IsDone (obey (command sql)) log) (Connection.execute api sql c log)
  unfolding Connection.execute Connection.send
  execute-IsDone sql log = elim (Bool-cases (c.mysql_ == 0)) [
    | inl null ↦ rw null (λ e. cc)
    | inr live ↦
        let same : (c.mysql_ == c.mysql_) ≡ true = ground arith in rw (live, same) (λ e. rw e refl)
  ]

  begin-IsDone :
      (log : Log Event)
      → Returns (IsDone (session_step begin) log) (Connection.begin_trans api c log)
  unfolding Connection.begin_trans Connection.send command str_eq
  begin-IsDone log = elim (Bool-cases (c.mysql_ == 0)) [
    | inl null ↦ rw null (λ e. cc)
    | inr live ↦
        let same : (c.mysql_ == c.mysql_) ≡ true = ground arith in
        elim (Bool-cases (api.on_query log c.mysql_ (codes "SET AUTOCOMMIT = 0") == 0)) [
          | inl off ↦ rw (live, off, same) (λ e. rw (e, off) refl)
          | inr refused ↦ rw (live, refused) (λ e. cc)
        ]
  ]

  issue-IsDone :
      (fuel : ℕ) (st : Statement) (log : Log Event)
      → IsPlain IsChange st
      → Returns (IsDone (session_step st) log) (issue (mysql_connection api fuel) st c log)
  unfolding issue command str_eq Connection.commit_trans Connection.rollback_trans
      Connection.execute Connection.set_transaction_mode Connection.mode_sql
  issue-IsDone fuel (execute sql) log own = rw own at (execute-IsDone sql log)
  issue-IsDone fuel begin log own = begin-IsDone log
  issue-IsDone fuel commit log own = execute-IsDone (codes "COMMIT") log
  issue-IsDone fuel rollback log own = execute-IsDone (codes "ROLLBACK") log
  issue-IsDone fuel (set_mode read_uncommitted) log own = execute-IsDone _ log
  issue-IsDone fuel (set_mode read_committed) log own = execute-IsDone _ log
  issue-IsDone fuel (set_mode repeatable_read) log own = execute-IsDone _ log
  issue-IsDone fuel (set_mode serializable) log own = execute-IsDone _ log

  pub mysql-Implements :
      (fuel : ℕ)
      → Implements (mysql_connection api fuel) (session c.mysql_ base) session_step IsChange c
  mysql-Implements fuel = record { issues = issue-IsDone fuel }
