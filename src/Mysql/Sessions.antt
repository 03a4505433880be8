-- ===== src/Mysql/Sessions.antt =====
-- The transactions of `MySQL_Connection` in dbabstract/mysql/mysql_db.cpp, and the autocommit mode as a
-- server that follows the statements keeps it.
use dbabstract.Prelude.{
  ℕ, suc, ◌≡◌, refl, ap, Bool, true, false, List, [], ◌∷◌, Bytes, codes, arith, ◌==◌, if◌then◌else◌,
  ◌&&◌, length,
}
use dbabstract.Effects.{Log, ok}
use dbabstract.Effects.Post.{Returns, Returns-bind, Returns-at}
use dbabstract.C.Str.{str_eq}
use dbabstract.Db.{TransMode, read_uncommitted, read_committed, repeatable_read, serializable}
use dbabstract.Db.Closed.{Statement, execute, begin, commit, rollback, set_mode, issue, run_script}
use dbabstract.Mysql.{Event, Api, query}
use dbabstract.Mysql.Connection
use dbabstract.Mysql.Connection.{MysqlConnection}
use dbabstract.Mysql.Driver.{mysql_connection}

-- What a statement that succeeds does to the mode.
abbrev pub mode_after : Bytes → Bool → Bool
mode_after sql mode =
    if str_eq sql (codes "SET AUTOCOMMIT = 0")
    then false
    else (if str_eq sql (codes "SET AUTOCOMMIT = 1") then true else mode)

abbrev pub mode_step : ℕ → Event → Bool → Bool
mode_step h (query h' sql rc) mode = if (h' == h) && (rc == 0) then mode_after sql mode else mode
mode_step h _ mode = mode

-- A session begins with autocommit on.
abbrev pub autocommit : ℕ → Log Event → Bool
autocommit h [] = true
autocommit h (e ∷ log) = mode_step h e (autocommit h log)

-- Everything but a statement in the client's own words.
abbrev pub AreTransactional : List Statement → Type 0
AreTransactional [] = Unit
AreTransactional (execute sql ∷ sts) = ⊥
AreTransactional (_ ∷ sts) = AreTransactional sts

module _ (api : Api) (c : MysqlConnection) where
  -- A statement of the driver's own that leaves the mode as it is.
  send-off :
      (sql : Bytes) (log : Log Event)
      → mode_after sql false ≡ false
      → autocommit c.mysql_ log ≡ false
      → Returns (λ _ log'. autocommit c.mysql_ log' ≡ false) (Connection.execute api sql c log)
  unfolding Connection.execute Connection.send
  send-off sql log h off = ground (arith, h, off)

  begin-off :
      (log : Log Event)
      → Returns
          (λ begun log'. begun ≡ true → autocommit c.mysql_ log' ≡ false)
          (Connection.begin_trans api c log)
  unfolding Connection.begin_trans Connection.send str_eq
  begin-off log = ground arith

  begin-stays_off :
      (log : Log Event)
      → autocommit c.mysql_ log ≡ false
      → Returns (λ _ log'. autocommit c.mysql_ log' ≡ false) (Connection.begin_trans api c log)
  unfolding Connection.begin_trans Connection.send str_eq
  begin-stays_off log off = ground arith

  mode-off :
      (m : TransMode) (log : Log Event)
      → autocommit c.mysql_ log ≡ false
      → Returns
          (λ _ log'. autocommit c.mysql_ log' ≡ false)
          (Connection.set_transaction_mode api m c log)
  unfolding Connection.set_transaction_mode str_eq Connection.mode_sql
  mode-off read_uncommitted log off = send-off _ log refl off
  mode-off read_committed log off = send-off _ log refl off
  mode-off repeatable_read log off = send-off _ log refl off
  mode-off serializable log off = send-off _ log refl off

  commit-off :
      (log : Log Event)
      → autocommit c.mysql_ log ≡ false
      → Returns (λ _ log'. autocommit c.mysql_ log' ≡ false) (Connection.commit_trans api c log)
  unfolding Connection.commit_trans Connection.send str_eq
  commit-off log off = ground arith

  rollback-off :
      (log : Log Event)
      → autocommit c.mysql_ log ≡ false
      → Returns (λ _ log'. autocommit c.mysql_ log' ≡ false) (Connection.rollback_trans api c log)
  unfolding Connection.rollback_trans Connection.send str_eq
  rollback-off log off = ground arith

  issue-off :
      (fuel : ℕ) (st : Statement) (log : Log Event)
      → AreTransactional (st ∷ [])
      → autocommit c.mysql_ log ≡ false
      → Returns
          (λ _ log'. autocommit c.mysql_ log' ≡ false)
          (issue (mysql_connection api fuel) st c log)
  unfolding issue
  issue-off fuel (execute sql) log own off = absurd own
  issue-off fuel begin log own off = begin-stays_off log off
  issue-off fuel commit log own off = commit-off log off
  issue-off fuel rollback log own off = rollback-off log off
  issue-off fuel (set_mode m) log own off = mode-off m log off

  head_own :
      (st : Statement) (sts : List Statement)
      → AreTransactional (st ∷ sts)
      → AreTransactional (st ∷ [])
  head_own (execute sql) sts own = own
  head_own begin sts own = tt
  head_own commit sts own = tt
  head_own rollback sts own = tt
  head_own (set_mode m) sts own = tt

  tail_own :
      (st : Statement) (sts : List Statement) → AreTransactional (st ∷ sts) → AreTransactional sts
  tail_own (execute sql) sts own = absurd own
  tail_own begin sts own = own
  tail_own commit sts own = own
  tail_own rollback sts own = own
  tail_own (set_mode m) sts own = own

  script-off :
      (fuel : ℕ) (sts : List Statement) (log : Log Event)
      → AreTransactional sts
      → autocommit c.mysql_ log ≡ false
      → Returns
          (λ answers log'. (autocommit c.mysql_ log' ≡ false) × (length answers ≡ length sts))
          (run_script (mysql_connection api fuel) sts c log)
  unfolding run_script
  script-off fuel [] log own off = (off, refl)
  script-off fuel (st ∷ sts) log own off =
      Returns-bind _ _ (issue (mysql_connection api fuel) st c log) _
        (issue-off fuel st log (head_own st sts own) off)
        λ answer log1 off1.
          Returns-bind _ _ (run_script (mysql_connection api fuel) sts c log1) _
            (script-off fuel sts log1 (tail_own st sts own) off1)
            λ answers log2 h2. (h2.0, ap suc h2.1)

  -- Once `beginTrans` of the MySQL driver has answered true, a script of begins, commits,
  -- rollbacks and changes of the isolation level runs to its end with one answer each, and
  -- leaves the autocommit mode that the statements set in the session off, whatever the server
  -- answers.
  pub run_script-StaysOff :
      (fuel : ℕ) (sts : List Statement) (log log1 : Log Event)
      → Connection.begin_trans api c log ≡ ok (true, log1)
      → AreTransactional sts
      → Returns
          (λ answers log'. (autocommit c.mysql_ log' ≡ false) × (length answers ≡ length sts))
          (run_script (mysql_connection api fuel) sts c log1)
  run_script-StaysOff fuel sts log log1 begun own =
      script-off fuel sts log1 own (Returns-at _ _ (begin-off log) begun refl)
