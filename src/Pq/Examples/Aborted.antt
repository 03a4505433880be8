-- ===== src/Pq/Examples/Aborted.antt =====
-- A PostgreSQL that refuses a statement in a transaction. Tests and examples.
use dbabstract.Prelude.{◌≡◌, refl, true, false, [], ◌∷◌, codes, if◌then◌else◌, length, ◌==◌, arith}
use dbabstract.Effects.{Log, ok}
use dbabstract.Db.Transactions.{working}
use dbabstract.Db.Transactions.Atomic.{no_transaction}
use dbabstract.Pq.{Event, Api, fatal_error, command_ok}
use dbabstract.Pq.Connection.{execute, commit_trans}
use dbabstract.Pq.Transactions.{pq_database}
use dbabstract.Pq.Examples.{toy, live}
use dbabstract.Pq.Aborted.{commit-after_failure}

-- The statement of four bytes is no SQL.
abbrev refusing : Api
refusing = record toy {
  on_exec = λ log h sql. if length sql == 4 then 6 else 9;
  result_status = λ res. if res == 6 then fatal_error else command_ok;
}

commit-after_failure_example :
    (log1 : Log Event) × (log2 : Log Event) × (execute refusing (codes "OOPS") live []
      ≡ ok (false, log1))
    × (commit_trans refusing live log1 ≡ ok (true, log2))
    × (pq_database refusing 7
          (record { durable = []; transaction = working (codes "DELETE FROM notes" ∷ []) })
          log2
        ≡ no_transaction [])
commit-after_failure_example =
    commit-after_failure refusing live
      (record { durable = []; transaction = working (codes "DELETE FROM notes" ∷ []) })
      (codes "OOPS") [] (codes "DELETE FROM notes" ∷ []) [] (omega arith) refl refl refl
