-- ===== src/Sqlite3/Lifetime.antt =====
-- A `Sqlite3_Connection` that several holders share; its destructor calls `close`
-- (dbabstract/sqlite3/sqlite3_db.h).
use dbabstract.Prelude.{ℕ, suc, ◌+◌, ◌≡◌, ◌≢◌, refl, List, none, some, arith}
use dbabstract.Effects.{Log}
use dbabstract.Effects.Post.{Returns, Returns-both, Returns-weaken, count}
use dbabstract.Convert.{Machine}
use dbabstract.Db.Client.Balance.{total, nothing, total-nothing}
use dbabstract.Db.Client.Sharing.{
  Sharing, Move, held_by, run_moves, holders_left, run_moves-IsShared, moves-AllAsk,
}
use dbabstract.Sqlite3.{Event, Api}
use dbabstract.Sqlite3.ResultSet.{Sqlite3ResultSet}
use dbabstract.Sqlite3.Connection.{Sqlite3Connection}
use dbabstract.Sqlite3.Loops.{StepsEnd}
use dbabstract.Sqlite3.Driver.{sqlite3_connection, sqlite3_result_set}
use dbabstract.Sqlite3.Clients.{
  prepares_of, finalizes_of, messages_of, frees_of, statements, statement_is, statements_kept,
  messages, messages_kept,
}

-- The object is gone, each statement is held by the result sets that are left, and each error message
-- was freed.
abbrev pub IsFinalized : ℕ → ℕ → Sharing Sqlite3Connection Sqlite3ResultSet → Log Event → Type 0
IsFinalized s m left log =
    (left.shared ≡ none)
    × (count (prepares_of s) log ≡ count (finalizes_of s) log + total (statement_is s) left.sets)
    × (count (messages_of m) log ≡ count (frees_of m) log)

module _ {D F : Type 0} (api : Api) (fuel : ℕ) (machine : Machine D F)
    (ends : StepsEnd api fuel) where
  -- Where the moves end with the last holder's release.
  pub run_moves-sqlite3 :
      (s m n : ℕ) (ms : List Move) (c : Sqlite3Connection) (sets : List Sqlite3ResultSet)
      (log : Log Event)
      → s ≢ 0
      → m ≢ 0
      → holders_left (suc n) ms ≡ some 0
      → count (prepares_of s) log ≡ count (finalizes_of s) log + total (statement_is s) sets
      → count (messages_of m) log ≡ count (frees_of m) log
      → Returns (IsFinalized s m) (
          run_moves
            (sqlite3_connection api fuel)
            (sqlite3_result_set api fuel machine)
            ms
            (held_by n c sets)
            log)
  run_moves-sqlite3 s m n ms c sets log real_s real_m last held_s held_m =
      let conn = sqlite3_connection api fuel in
      let rs = sqlite3_result_set api fuel machine in
      let kept_s = statements_kept api fuel machine ends s real_s in
      let kept_m = messages_kept api fuel machine ends m real_m in
      let asked = moves-AllAsk ms in
      Returns-weaken _ _ (run_moves conn rs ms (held_by n c sets) log)
        (Returns-both _ _ (run_moves conn rs ms (held_by n c sets) log)
          (run_moves-IsShared conn rs (λ sql. Unit) (statements s) nothing (statement_is s) kept_s
            (λ o w. kept_s.closes o w) (suc n) 0 ms (held_by n c sets) log asked last
            (c, refl, omega (arith, held_s)))
          (run_moves-IsShared conn rs (λ sql. Unit) (messages m) nothing nothing kept_m
            (λ o w. kept_m.closes o w) (suc n) 0 ms (held_by n c sets) log asked last
            (c, refl, omega (arith, held_m, total-nothing sets))))
        λ left log' both.
          (both.0.0, omega (arith, both.0.1), omega (arith, both.1.1, total-nothing left.sets))
