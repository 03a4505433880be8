-- ===== src/Pq/Lifetime.antt =====
-- A `PQ_Connection` that its holders share by `duplicate` and `release` (dbabstract/db.h); its
-- destructor calls `close` (dbabstract/pq/pq_db.h).
use dbabstract.Prelude.{ℕ, suc, ◌+◌, ◌≡◌, ◌≢◌, refl, false, List, Bytes, Option, none, some, arith}
use dbabstract.Prelude.Int.{pos}
use dbabstract.Effects.{Log, pure, ◌>>=◌}
use dbabstract.Effects.Post.{Returns, Returns-bind, Returns-both, Returns-weaken, count}
use dbabstract.Convert.{Machine}
use dbabstract.Db.References.{Shared, RefOp, run_refs, outcome, holders, run_refs-outcome}
use dbabstract.Db.Client.Balance.{Balances, total, nothing, total-nothing}
use dbabstract.Db.Client.Sharing.{
  Sharing, Move, held_by, run_moves, holders_left, AllAsk, run_moves-IsShared,
}
use dbabstract.Pq.{Event, Api, is_command_ok}
use dbabstract.Pq.ResultSet.{PqResultSet}
use dbabstract.Pq.Connection.{PqConnection, close}
use dbabstract.Pq.Driver.{pq_connection, pq_result_set}
use dbabstract.Pq.Accounts.{IsAccounted, connects, finishes, close-IsAccounted}
use dbabstract.Pq.Clients.{
  connects_of, finishes_of, execs_of, clears_of, connections, connection_is, connections_kept,
  results, result_is, results_kept,
}

-- The object is gone, and as many connections were finished as were made.
abbrev pub IsReleased : Option (Shared PqConnection) → Log Event → Type 0
IsReleased left log = (left ≡ none) × (count connects log ≡ count finishes log)

destroyed :
    (c : PqConnection) (log : Log Event)
    → IsAccounted c log
    → Returns IsReleased ((close c >>= λ _. pure none) log)
destroyed c log h =
    Returns-bind _ IsReleased (close c log) (λ _. pure none) (close-IsAccounted c log h)
      λ r log' after. (refl, omega (arith, rw after.1 at after.0))

-- If a PostgreSQL connection with n + 1 holders is accounted for, and a sequence of `duplicate`
-- and `release` leaves no holder and touches it no more: the object is gone behind it, and as
-- many connections have been finished as were made.
pub run_refs-IsReleased :
    (n : ℕ) (ops : List RefOp) (c : PqConnection) (log : Log Event)
    → IsAccounted c log
    → holders (suc n) ops ≡ some 0
    → Returns IsReleased (run_refs close ops (some (record { ref = pos (suc n); object = c })) log)
unfolding outcome
run_refs-IsReleased n ops c log h last =
    rw (run_refs-outcome close c n ops log, last) (destroyed c log h)

close-connections :
    (h : ℕ) (c : PqConnection) (log : Log Event)
    → h ≢ 0
    → Returns (λ _ log'. Balances (connections h) log log' (connection_is h c) 0) (close c log)
unfolding close
close-connections h c log real = ground arith

close-results :
    (r : ℕ) (c : PqConnection) (log : Log Event)
    → Returns (λ _ log'. Balances (results r) log log' 0 0) (close c log)
unfolding close
close-results r c log = ground arith

-- The object is gone, each connection was finished as often as it was made, and each result is held
-- by the result sets that are left.
abbrev pub IsFinished : ℕ → ℕ → Sharing PqConnection PqResultSet → Log Event → Type 0
IsFinished h r left log =
    (left.shared ≡ none)
    × (count (connects_of h) log ≡ count (finishes_of h) log)
    × (count (execs_of r) log ≡ count (clears_of r) log + total (result_is r) left.sets)

module _ {D F : Type 0} (api : Api) (fuel : ℕ) (machine : Machine D F) (asks : Bytes → Type 0)
    (rows : (sql : Bytes) (log : Log Event) (h : ℕ)
      → asks sql
      → is_command_ok (api.result_status (api.on_exec log h sql)) ≡ false) where
  -- Where the moves end with the last holder's release.
  pub run_moves-pq :
      (h r n : ℕ) (ms : List Move) (c : PqConnection) (sets : List PqResultSet) (log : Log Event)
      → h ≢ 0
      → AllAsk asks ms
      → holders_left (suc n) ms ≡ some 0
      → count (connects_of h) log ≡ count (finishes_of h) log + connection_is h c
      → count (execs_of r) log ≡ count (clears_of r) log + total (result_is r) sets
      → Returns (IsFinished h r) (
          run_moves
            (pq_connection api fuel)
            (pq_result_set api fuel machine)
            ms
            (held_by n c sets)
            log)
  run_moves-pq h r n ms c sets log real asked last held_h held_r =
      let conn = pq_connection api fuel in
      let rs = pq_result_set api fuel machine in
      Returns-weaken _ _ (run_moves conn rs ms (held_by n c sets) log)
        (Returns-both _ _ (run_moves conn rs ms (held_by n c sets) log)
          (run_moves-IsShared conn rs asks (connections h) (connection_is h) nothing
            (connections_kept api fuel machine asks rows h real)
            (λ s w. close-connections h s w real) (suc n) 0 ms (held_by n c sets) log asked last
            (c, refl, omega (arith, held_h, total-nothing sets)))
          (run_moves-IsShared conn rs asks (results r) nothing (result_is r)
            (results_kept api fuel machine asks rows r) (close-results r) (suc n) 0 ms
            (held_by n c sets) log asked last (c, refl, omega (arith, held_r))))
        λ left log' both.
          (both.0.0, omega (arith, both.0.1, total-nothing left.sets), omega (arith, both.1.1))
