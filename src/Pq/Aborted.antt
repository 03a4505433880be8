-- ===== src/Pq/Aborted.antt =====
-- `PQ_Connection::commitTrans` (dbabstract/pq/pq_db.cpp) on a transaction in which a statement has failed.
use dbabstract.Prelude.{◌≡◌, ◌≢◌, true, false, List, ◌∷◌, Bytes, codes, ◌==◌, arith}
use dbabstract.Effects.{Log, ok}
use dbabstract.C.Str.{str_eq}
use dbabstract.Db.Transactions.{Database, working}
use dbabstract.Db.Transactions.Server.{lookup}
use dbabstract.Db.Transactions.Atomic.{no_transaction}
use dbabstract.Pq.{Event, Api, fatal_error, command_ok, exec, clear}
use dbabstract.Pq.Connection.{PqConnection, execute, transact, commit_trans, run_sql}
use dbabstract.Pq.Transactions.{pq_database}

-- The log when a statement was sent and its result given back.
abbrev pub sent : Api → PqConnection → Bytes → Log Event → Log Event
sent api c sql log =
    let res = api.on_exec log c.pgconn_ sql in clear res ∷ (exec c.pgconn_ sql res ∷ log)

module _ (api : Api) (c : PqConnection) (base : Database) where
  -- On an open PostgreSQL connection with a transaction open, if the result of a statement is a
  -- fatal error and the result of the END behind it a plain success: `execute` answers false,
  -- `commitTrans` behind it answers true, and the database keeps nothing of the transaction and
  -- has none open.
  pub commit-after_failure :
      (sql : Bytes) (kept done : List Bytes) (log : Log Event)
      → c.pgconn_ ≢ 0
      → pq_database api c.pgconn_ base log ≡ record { durable = kept; transaction = working done }
      → api.result_status (api.on_exec log c.pgconn_ sql) ≡ fatal_error
      → api.result_status (api.on_exec (sent api c sql log) c.pgconn_ (codes "END")) ≡ command_ok
      → (log1 : Log Event) × (log2 : Log Event) × (execute api sql c log ≡ ok (false, log1))
        × (commit_trans api c log1 ≡ ok (true, log2))
        × (pq_database api c.pgconn_ base log2 ≡ no_transaction kept)
  unfolding execute transact commit_trans run_sql lookup str_eq
  commit-after_failure sql kept done log opened before fails ends =
      let live : (c.pgconn_ == 0) ≡ false = ground arith in
      let same : (c.pgconn_ == c.pgconn_) ≡ true = ground arith in
      let log1 = sent api c sql log in
      (
        log1,
        sent api c (codes "END") log1,
        simp (live, fails),
        simp (live, ends),
        simp (same, ends, fails, before),
      )
