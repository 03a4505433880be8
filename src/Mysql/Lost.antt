-- ===== src/Mysql/Lost.antt =====
-- `MySQL_Connection::commitTrans` (dbabstract/mysql/mysql_db.cpp), which leaves the autocommit mode off,
-- and what a client executes behind it.
use dbabstract.Prelude.{
  ℕ, ◌≡◌, ◌≢◌, refl, ap, ◌∙◌, true, false, List, [], ◌∷◌, ◌++◌, append_assoc, append-nil, Bytes,
  ◌==◌, arith,
}
use dbabstract.Effects.{Log, ok}
use dbabstract.Db.Closed.{Statement, execute, begin, commit, run_script}
use dbabstract.Db.Transactions.{each, all_true, run_script-each}
use dbabstract.Db.Transactions.Atomic.{executes_then, AllPlain, executes_then-ArePlain}
use dbabstract.Mysql.{Event, Api, close_handle}
use dbabstract.Mysql.Connection.{MysqlConnection, close}
use dbabstract.Mysql.Driver.{mysql_connection}
use dbabstract.Mysql.Transactions.{
  Session, session, new_session, session_step, IsChange, mysql-Implements,
}

-- A transaction, and a statement behind it.
abbrev pub then_one_more : List Bytes → Bytes → List Statement
then_one_more sqls sql = begin ∷ executes_then sqls (commit ∷ (execute sql ∷ []))

each-executes_then :
    (sqls : List Bytes) (rest : List Statement) (kept done : List Bytes)
    → each session_step
        (executes_then sqls rest)
        (record { durable = kept; pending = done; autocommit = false; begun = true })
      ≡ each session_step rest
          (record { durable = kept; pending = done ++ sqls; autocommit = false; begun = true })
each-executes_then [] rest kept done = rw append-nil refl
each-executes_then (sql ∷ sqls) rest kept done =
    each-executes_then sqls rest kept (done ++ (sql ∷ []))
    ∙ ap
        (λ (l : List Bytes).
          each session_step rest
            (record { durable = kept; pending = l; autocommit = false; begun = true }))
        (append_assoc done (sql ∷ []) sqls)

module _ (api : Api) (c : MysqlConnection) (base : Session) (fuel : ℕ) where
  -- On an open MySQL connection with a new session: if a begin, any number of changes, a commit
  -- and one change more are answered true throughout, the last change is pending in a
  -- transaction, and `close` answers true, and what the server then keeps is what it kept
  -- before and the changes before the commit.
  pub close-loses_change :
      (sqls : List Bytes) (sql : Bytes) (kept : List Bytes) (log log' : Log Event)
      → c.mysql_ ≢ 0
      → AllPlain IsChange sqls
      → IsChange sql
      → session c.mysql_ base log ≡ new_session kept
      → run_script (mysql_connection api fuel) (then_one_more sqls sql) c log
        ≡ ok (all_true (then_one_more sqls sql), log')
      → (log'' : Log Event) × (close c log' ≡ ok ((true, record { mysql_ = 0 }), log''))
        × ((session c.mysql_ base log').pending ≡ sql ∷ [])
        × ((session c.mysql_ base log'').durable ≡ kept ++ sqls)
  unfolding close
  close-loses_change sqls sql kept log log' opened all own before run =
      let live : (c.mysql_ == 0) ≡ false = ground arith in
      let same : (c.mysql_ == c.mysql_) ≡ true = ground arith in
      let after =
        run_script-each (mysql_connection api fuel) (session c.mysql_ base) session_step IsChange c
          (mysql-Implements api c base fuel) (then_one_more sqls sql) log log' (new_session kept)
          (
            tt,
            executes_then-ArePlain IsChange sqls (commit ∷ (execute sql ∷ [])) all (tt, (own, tt)),
          )
          before run
        ∙ each-executes_then sqls (commit ∷ (execute sql ∷ [])) (kept ++ []) [] in
      (
        close_handle c.mysql_ ∷ log',
        simp live,
        ap (λ (s : Session). s.pending) after,
        simp (same, after, append-nil),
      )
