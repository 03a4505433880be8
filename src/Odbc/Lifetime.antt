-- ===== src/Odbc/Lifetime.antt =====
-- An `ODBC_Connection` that several holders share; its destructor calls `close`
-- (dbabstract/odbc/odbc_db.h).
use dbabstract.Prelude.{ℕ, zero, suc, ◌≡◌, refl, Bool, true, List, [], ◌∷◌, Option, none, some}
use dbabstract.Prelude.Int.{pos}
use dbabstract.Effects.{Program, pure, ◌>>=◌}
use dbabstract.Effects.Post.{Returns-Ends, Ends, Ends-bind}
use dbabstract.Convert.{Machine}
use dbabstract.Db.References.{
  Shared, dup, rel, step_ref, duplicate, up, release_shared, release_last,
}
use dbabstract.Db.Client.{Client, Action, act}
use dbabstract.Db.Client.Sharing.{Sharing, Move, on_object, on_count, move, run_moves, holders_left}
use dbabstract.Odbc.{Api, World}
use dbabstract.Odbc.ResultSet.{OdbcResultSet}
use dbabstract.Odbc.Connection.{close}
use dbabstract.Odbc.Errors.{OdbcConnection}
use dbabstract.Odbc.Handles.{IsAccounted, blank}
use dbabstract.Odbc.Unaffected.{ResultsEnd}
use dbabstract.Odbc.Accounts.{close-Returns}
use dbabstract.Odbc.Driver.{odbc_connection, odbc_result_set}
use dbabstract.Odbc.Clients.{Fits, HoldsAll, act-Ends}

-- The data source names fit the array of `open`.
abbrev MoveFits : Move → Type 0
MoveFits (on_object a) = Fits a
MoveFits (on_count op) = Unit

abbrev pub MovesFit : List Move → Type 0
MovesFit [] = Unit
MovesFit (m ∷ ms) = MoveFits m × MovesFit ms

-- The object has so many holders and what it holds is open, or it is gone and nothing is open.
abbrev pub IsKept : ℕ → Sharing OdbcConnection OdbcResultSet → World → Type 0
IsKept zero h w = (h.shared ≡ none) × IsAccounted blank w
IsKept (suc n) h w =
    (c : OdbcConnection) × (h.shared ≡ some (record { ref = pos (suc n); object = c }))
    × IsAccounted c w

module _ {D F : Type 0} (api : Api) (fuel : ℕ) (machine : Machine D F)
    (ends : ResultsEnd api fuel) where
  abbrev moved :
      Move
      → Shared OdbcConnection
      → List OdbcResultSet
      → Program World (Sharing OdbcConnection OdbcResultSet)
  moved m o = move (odbc_connection api fuel) (odbc_result_set api fuel machine) m (some o)

  abbrev Closed : Bool × OdbcConnection → World → Type 0
  Closed r w = IsAccounted blank w × (r ≡ (true, blank))

  act-IsKept :
      (n : ℕ) (a : Action) (c : OdbcConnection) (sets : List OdbcResultSet) (w : World)
      → Fits a
      → IsAccounted c w
      → Ends
          (IsKept (suc n))
          (moved (on_object a) (record { ref = pos (suc n); object = c }) sets w)
  unfolding move
  act-IsKept n a c sets w fits held =
      let cl : Client OdbcConnection OdbcResultSet = record { conn = c; sets = sets } in
      Ends-bind HoldsAll (IsKept (suc n))
        (act (odbc_connection api fuel) (odbc_result_set api fuel machine) a cl w) _
        (act-Ends api fuel machine ends a cl w fits held) λ cl1 w1 held1. (cl1.conn, refl, held1)

  dup-IsKept :
      (n : ℕ) (c : OdbcConnection) (sets : List OdbcResultSet) (w : World)
      → IsAccounted c w
      → Ends
          (IsKept (suc (suc n)))
          (moved (on_count dup) (record { ref = pos (suc n); object = c }) sets w)
  unfolding move step_ref duplicate
  dup-IsKept n c sets w held = (c, rw (up close c n) refl, held)

  rel-IsKept :
      (n : ℕ) (c : OdbcConnection) (sets : List OdbcResultSet) (w : World)
      → IsAccounted c w
      → Ends (IsKept n) (moved (on_count rel) (record { ref = pos (suc n); object = c }) sets w)
  unfolding move step_ref
  rel-IsKept zero c sets w held =
      let IsGone : Option (Shared OdbcConnection) → World → Type 0 =
        λ left w1. (left ≡ none) × IsAccounted blank w1 in
      rw (release_last close c) (
        Ends-bind IsGone (IsKept 0) ((close c >>= λ _. pure none) w) _
          (Ends-bind Closed IsGone (close c w) (λ _. pure none)
            (Returns-Ends Closed (close c w) (close-Returns c w held))
            λ r w1 closed. (refl, closed.0))
          λ gone w1 closed. (closed.0, closed.1))
  rel-IsKept (suc n) c sets w held = rw (release_shared close c n) (c, refl, held)

  -- A sequence of moves that does not use the object behind its end.
  pub run_moves-IsKept :
      (n k : ℕ) (ms : List Move) (h : Sharing OdbcConnection OdbcResultSet) (w : World)
      → MovesFit ms
      → holders_left n ms ≡ some k
      → IsKept n h w
      → Ends
          (IsKept k)
          (run_moves (odbc_connection api fuel) (odbc_result_set api fuel machine) ms h w)
  unfolding run_moves holders_left
  run_moves-IsKept n k [] h w fits left held = let same : n ≡ k = cc in rw same at held
  run_moves-IsKept zero k (m ∷ ms) h w fits left held = cc
  run_moves-IsKept (suc n) k (on_object a ∷ ms) h w fits left (c, e, held) = rw e (
      Ends-bind (IsKept (suc n)) (IsKept k) (moved (on_object a) _ h.sets w) _
        (act-IsKept n a c h.sets w fits.0 held)
        λ h1 w1 held1. run_moves-IsKept (suc n) k ms h1 w1 fits.1 left held1)
  run_moves-IsKept (suc n) k (on_count dup ∷ ms) h w fits left (c, e, held) = rw e (
      Ends-bind (IsKept (suc (suc n))) (IsKept k) (moved (on_count dup) _ h.sets w) _
        (dup-IsKept n c h.sets w held)
        λ h1 w1 held1. run_moves-IsKept (suc (suc n)) k ms h1 w1 fits.1 left held1)
  run_moves-IsKept (suc n) k (on_count rel ∷ ms) h w fits left (c, e, held) = rw e (
      Ends-bind (IsKept n) (IsKept k) (moved (on_count rel) _ h.sets w) _
        (rel-IsKept n c h.sets w held)
        λ h1 w1 held1. run_moves-IsKept n k ms h1 w1 fits.1 left held1)
