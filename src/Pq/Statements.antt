-- ===== src/Pq/Statements.antt =====
-- The statements of `PQ_Connection` that are no queries, in dbabstract/pq/pq_db.cpp, and their results.
use dbabstract.Prelude.{ℕ, suc, ◌+◌, ◌≡◌, refl, List, [], ◌∷◌, Bytes, codes, arith, length, ap}
use dbabstract.Effects.{Log}
use dbabstract.Effects.Post.{Returns, Returns-bind, count}
use dbabstract.Db.Closed.{Statement, execute, begin, commit, rollback, set_mode, issue, run_script}
use dbabstract.Pq.{Event, Api}
use dbabstract.Pq.Connection
use dbabstract.Pq.Connection.{PqConnection}
use dbabstract.Pq.Driver.{pq_connection}
use dbabstract.Pq.Accounts.{results, clears}

-- As many results are held as before.
abbrev pub SameResults : Log Event → Log Event → Type 0
SameResults log log' = count results log' + count clears log ≡ count results log + count clears log'

module _ (api : Api) (c : PqConnection) where
  execute-SameResults :
      (sql : Bytes) (log : Log Event)
      → Returns (λ _ log'. SameResults log log') (Connection.execute api sql c log)
  unfolding Connection.execute
  execute-SameResults sql log = ground arith

  transact-SameResults :
      (sql : Bytes) (log : Log Event)
      → Returns (λ _ log'. SameResults log log') (Connection.transact api sql c log)
  unfolding Connection.transact
  transact-SameResults sql log = ground arith

  issue-SameResults :
      (fuel : ℕ) (st : Statement) (log : Log Event)
      → Returns (λ _ log'. SameResults log log') (issue (pq_connection api fuel) st c log)
  unfolding issue Connection.begin_trans Connection.commit_trans Connection.rollback_trans
      Connection.set_transaction_mode
  issue-SameResults fuel (execute sql) log = execute-SameResults sql log
  issue-SameResults fuel begin log = transact-SameResults (codes "BEGIN") log
  issue-SameResults fuel commit log = transact-SameResults (codes "END") log
  issue-SameResults fuel rollback log = transact-SameResults (codes "ROLLBACK") log
  issue-SameResults fuel (set_mode m) log = execute-SameResults _ log

  -- A script of statements of the PostgreSQL driver runs to its end with one answer each, on
  -- any connection and whatever the server answers, and as many results are held behind it as
  -- before.
  pub run_script-SameResults :
      (fuel : ℕ) (sts : List Statement) (log : Log Event)
      → Returns
          (λ answers log'. SameResults log log' × (length answers ≡ length sts))
          (run_script (pq_connection api fuel) sts c log)
  unfolding run_script
  run_script-SameResults fuel [] log = (refl, refl)
  run_script-SameResults fuel (st ∷ sts) log =
      Returns-bind _ _ (issue (pq_connection api fuel) st c log) _ (issue-SameResults fuel st log)
        λ answer log1 h1.
          Returns-bind _ _ (run_script (pq_connection api fuel) sts c log1) _
            (run_script-SameResults fuel sts log1)
            λ answers log2 h2. (omega (arith, h1, h2.0), ap suc h2.1)
