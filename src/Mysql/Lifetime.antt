-- ===== src/Mysql/Lifetime.antt =====
-- A `MySQL_Connection` that several holders share; its destructor calls `close`
-- (dbabstract/mysql/mysql_db.h).
use dbabstract.Prelude.{ℕ, suc, ◌+◌, ◌≡◌, ◌≢◌, refl, List, none, some, arith}
use dbabstract.Effects.{Log}
use dbabstract.Effects.Post.{Returns, Returns-both, Returns-weaken, count}
use dbabstract.Convert.{Machine}
use dbabstract.Db.Client.Balance.{Balances, total, nothing, total-nothing}
use dbabstract.Db.Client.Sharing.{
  Sharing, Move, held_by, run_moves, holders_left, run_moves-IsShared, moves-AllAsk,
}
use dbabstract.Mysql.{Event, Api}
use dbabstract.Mysql.ResultSet.{MysqlResultSet}
use dbabstract.Mysql.Connection.{MysqlConnection, close}
use dbabstract.Mysql.Driver.{mysql_connection, mysql_result_set}
use dbabstract.Mysql.Loops.{RowsEnd}
use dbabstract.Mysql.Clients.{
  inits_of, closings_of, results_of, frees_of, handle_is, handles, handles_kept, results, result_is,
  results_kept,
}

close-handles :
    (h : ℕ) (c : MysqlConnection) (log : Log Event)
    → h ≢ 0
    → Returns (λ _ log'. Balances (handles h) log log' (handle_is h c) 0) (close c log)
unfolding close
close-handles h c log real = ground arith

close-results :
    (r : ℕ) (c : MysqlConnection) (log : Log Event)
    → Returns (λ _ log'. Balances (results r) log log' 0 0) (close c log)
unfolding close
close-results r c log = ground arith

-- The object is gone, each handle was closed as often as it was made, and each result is held by the
-- result sets that are left.
abbrev pub IsGivenBack : ℕ → ℕ → Sharing MysqlConnection MysqlResultSet → Log Event → Type 0
IsGivenBack h r left log =
    (left.shared ≡ none)
    × (count (inits_of h) log ≡ count (closings_of h) log)
    × (count (results_of r) log ≡ count (frees_of r) log + total (result_is r) left.sets)

module _ {D F : Type 0} (api : Api) (fuel : ℕ) (machine : Machine D F)
    (ends : RowsEnd api fuel) where
  -- Where the moves end with the last holder's release.
  pub run_moves-mysql :
      (h r n : ℕ) (ms : List Move) (c : MysqlConnection) (sets : List MysqlResultSet)
      (log : Log Event)
      → h ≢ 0
      → r ≢ 0
      → holders_left (suc n) ms ≡ some 0
      → count (inits_of h) log ≡ count (closings_of h) log + handle_is h c
      → count (results_of r) log ≡ count (frees_of r) log + total (result_is r) sets
      → Returns (IsGivenBack h r) (
          run_moves
            (mysql_connection api fuel)
            (mysql_result_set api fuel machine)
            ms
            (held_by n c sets)
            log)
  run_moves-mysql h r n ms c sets log real_h real_r last held_h held_r =
      let conn = mysql_connection api fuel in
      let rs = mysql_result_set api fuel machine in
      let asked = moves-AllAsk ms in
      Returns-weaken _ _ (run_moves conn rs ms (held_by n c sets) log)
        (Returns-both _ _ (run_moves conn rs ms (held_by n c sets) log)
          (run_moves-IsShared conn rs (λ sql. Unit) (handles h) (handle_is h) nothing
            (handles_kept api fuel machine ends h real_h) (λ s w. close-handles h s w real_h)
            (suc n) 0 ms (held_by n c sets) log asked last
            (c, refl, omega (arith, held_h, total-nothing sets)))
          (run_moves-IsShared conn rs (λ sql. Unit) (results r) nothing (result_is r)
            (results_kept api fuel machine ends r real_r) (close-results r) (suc n) 0 ms
            (held_by n c sets) log asked last (c, refl, omega (arith, held_r))))
        λ left log' both.
          (both.0.0, omega (arith, both.0.1, total-nothing left.sets), omega (arith, both.1.1))
