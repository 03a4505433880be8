-- ===== src/Db/Client/Sharing.antt =====
-- A client of dbabstract/db.h whose connection has several holders: they use it, `duplicate` it and
-- `release` it, and its destructor calls `close`.
use dbabstract.Prelude.{
  ℕ, zero, suc, ◌+◌, ◌≡◌, refl, List, [], ◌∷◌, Bytes, Option, none, some, arith,
}
use dbabstract.Prelude.Int.{pos}
use dbabstract.Effects.{Program, undefined, pure, lift, ◌>>=◌}
use dbabstract.Effects.Post.{Returns, Returns-bind}
use dbabstract.Db.{Connection, ResultSet}
use dbabstract.Db.References.{
  Shared, RefOp, dup, rel, step_ref, duplicate, up, release_shared, release_last,
}
use dbabstract.Db.Client.{Client, Action, act}
use dbabstract.Db.Client.Balance.{
  Ledger, Balances, Keeps, Asks, action-Asks, IsBalanced, total, act-IsBalanced,
}

-- The object, until it is destroyed, and the result sets.
pub record Sharing (S R : Type 0) : Type 0 where
  pub shared : Option (Shared S)
  pub sets : List R

pub data Move : Type 0 where
  on_object : Action → Move
  on_count : RefOp → Move

module _ {W S R D F : Type 0} (c : Connection W S R) (rs : ResultSet W R D F) where
  -- What uses a destroyed object is undefined.
  unfoldable pub move : Move → Option (Shared S) → List R → Program W (Sharing S R)
  move m none sets = lift undefined
  move (on_object a) (some o) sets = do
    cl ← act c rs a (record { conn = o.object; sets = sets })
    pure (record { shared = some (record o { object = cl.conn }); sets = cl.sets })
  move (on_count op) (some o) sets = do
    left ← step_ref c.close op o
    pure (record { shared = left; sets = sets })

  unfoldable pub run_moves : List Move → Sharing S R → Program W (Sharing S R)
  run_moves [] h = pure h
  run_moves (m ∷ ms) h = move m h.shared h.sets >>= λ h'. run_moves ms h'

-- How many holders are left, if no one uses the object behind the last `release`.
unfoldable pub holders_left : ℕ → List Move → Option ℕ
holders_left n [] = some n
holders_left zero (m ∷ ms) = none
holders_left (suc n) (on_object a ∷ ms) = holders_left (suc n) ms
holders_left (suc n) (on_count dup ∷ ms) = holders_left (suc (suc n)) ms
holders_left (suc n) (on_count rel ∷ ms) = holders_left n ms

module _ (asks : Bytes → Type 0) where
  abbrev MoveAsks : Move → Type 0
  MoveAsks (on_object a) = Asks asks a
  MoveAsks (on_count op) = Unit

  abbrev pub AllAsk : List Move → Type 0
  AllAsk [] = Unit
  AllAsk (m ∷ ms) = MoveAsks m × AllAsk ms

-- Where any text may be a query.
pub moves-AllAsk : (ms : List Move) → AllAsk (λ sql. Unit) ms
moves-AllAsk [] = tt
moves-AllAsk (on_object a ∷ ms) = (action-Asks a, moves-AllAsk ms)
moves-AllAsk (on_count op ∷ ms) = (tt, moves-AllAsk ms)

-- An object with n + 1 holders, and the result sets beside it.
abbrev pub held_by : {S R : Type 0} → ℕ → S → List R → Sharing S R
held_by n s sets = record { shared = some (record { ref = pos (suc n); object = s }); sets = sets }

module _ {W S R D F : Type 0} (c : Connection W S R) (rs : ResultSet W R D F)
    (asks : Bytes → Type 0) (l : Ledger W) (conn_holds : S → ℕ) (set_holds : R → ℕ)
    (keeps : Keeps c rs asks l conn_holds set_holds)
    (shuts : (s : S) (w : W)
      → Returns (λ _ w'. Balances l w w' (conn_holds s) 0) (c.close s w)) where
  -- The object has so many holders, or is gone without any, and what was given out is what was taken
  -- back and what is still held.
  abbrev pub IsShared : ℕ → Sharing S R → W → Type 0
  IsShared zero h w = (h.shared ≡ none) × (l.gained w ≡ l.lost w + total set_holds h.sets)
  IsShared (suc n) h w =
      (s : S) × (h.shared ≡ some (record { ref = pos (suc n); object = s }))
      × (l.gained w ≡ l.lost w + conn_holds s + total set_holds h.sets)

  move-IsShared :
      (n : ℕ) (a : Action) (s : S) (sets : List R) (w : W)
      → Asks asks a
      → l.gained w ≡ l.lost w + conn_holds s + total set_holds sets
      → Returns
          (IsShared (suc n))
          (move c rs (on_object a) (some (record { ref = pos (suc n); object = s })) sets w)
  unfolding move
  move-IsShared n a s sets w asked held =
      let cl : Client S R = record { conn = s; sets = sets } in
      Returns-bind (IsBalanced c rs asks l conn_holds set_holds) (IsShared (suc n))
        (act c rs a cl w) _
        (act-IsBalanced c rs asks l conn_holds set_holds keeps a cl w asked held)
        λ cl1 w1 held1. (cl1.conn, refl, held1)

  dup-IsShared :
      (n : ℕ) (s : S) (sets : List R) (w : W)
      → l.gained w ≡ l.lost w + conn_holds s + total set_holds sets
      → Returns
          (IsShared (suc (suc n)))
          (move c rs (on_count dup) (some (record { ref = pos (suc n); object = s })) sets w)
  unfolding move step_ref duplicate
  dup-IsShared n s sets w held = (s, rw (up c.close s n) refl, held)

  rel-IsShared :
      (n : ℕ) (s : S) (sets : List R) (w : W)
      → l.gained w ≡ l.lost w + conn_holds s + total set_holds sets
      → Returns
          (IsShared n)
          (move c rs (on_count rel) (some (record { ref = pos (suc n); object = s })) sets w)
  unfolding move step_ref
  rel-IsShared zero s sets w held =
      let IsGone : Option (Shared S) → W → Type 0 =
        λ left w1. (left ≡ none) × Balances l w w1 (conn_holds s) 0 in
      rw (release_last c.close s) (
        Returns-bind IsGone (IsShared 0) ((c.close s >>= λ _. pure none) w) _
          (Returns-bind (λ _ w1. Balances l w w1 (conn_holds s) 0) IsGone (c.close s w)
            (λ _. pure none) (shuts s w) λ r w1 shut. (refl, shut))
          λ gone w1 shut. (shut.0, omega (arith, held, shut.1)))
  rel-IsShared (suc n) s sets w held = rw (release_shared c.close s n) (s, refl, held)

  -- A sequence of moves that does not use the object behind its end.
  pub run_moves-IsShared :
      (n k : ℕ) (ms : List Move) (h : Sharing S R) (w : W)
      → AllAsk asks ms
      → holders_left n ms ≡ some k
      → IsShared n h w
      → Returns (IsShared k) (run_moves c rs ms h w)
  unfolding run_moves holders_left
  run_moves-IsShared n k [] h w asked left held = let same : n ≡ k = cc in rw same at held
  run_moves-IsShared zero k (m ∷ ms) h w asked left held = cc
  run_moves-IsShared (suc n) k (on_object a ∷ ms) h w asked left (s, e, held) = rw e (
      Returns-bind (IsShared (suc n)) (IsShared k) (move c rs (on_object a) (some _) h.sets w) _
        (move-IsShared n a s h.sets w asked.0 held)
        λ h1 w1 held1. run_moves-IsShared (suc n) k ms h1 w1 asked.1 left held1)
  run_moves-IsShared (suc n) k (on_count dup ∷ ms) h w asked left (s, e, held) = rw e (
      Returns-bind (IsShared (suc (suc n))) (IsShared k)
        (move c rs (on_count dup) (some _) h.sets w) _ (dup-IsShared n s h.sets w held)
        λ h1 w1 held1. run_moves-IsShared (suc (suc n)) k ms h1 w1 asked.1 left held1)
  run_moves-IsShared (suc n) k (on_count rel ∷ ms) h w asked left (s, e, held) = rw e (
      Returns-bind (IsShared n) (IsShared k) (move c rs (on_count rel) (some _) h.sets w) _
        (rel-IsShared n s h.sets w held)
        λ h1 w1 held1. run_moves-IsShared n k ms h1 w1 asked.1 left held1)
