-- ===== src/Db/References.antt =====
-- dbabstract/db.h: `duplicate`, `release` and the count `ref`.
use dbabstract.Prelude.{
  ℕ, zero, suc, ◌≡◌, refl, Bool, false, List, [], ◌∷◌, Option, none, some, arith, if◌then◌else◌,
}
use dbabstract.Prelude.Int.{ℤ, pos, ◌+ℤ◌, ◌-ℤ◌, eqb_ℤ, int_laws}
use dbabstract.Effects.{Program, undefined, pure, lift, ◌>>=◌}

-- An object with its count, which starts at 1.
pub record Shared (S : Type 0) : Type 0 where
  pub ref : ℤ
  pub object : S

module _ {S : Type 0} where
  unfoldable pub new_shared : S → Shared S
  new_shared s = record { ref = pos 1; object = s }

  unfoldable pub duplicate : Shared S → Shared S
  duplicate c = record c { ref = c.ref +ℤ pos 1 }

-- `destroy` is the destructor. A deleted object is gone.
module _ {W S : Type 0} (destroy : S → Program W (Bool × S)) where
  unfoldable pub release : Shared S → Program W (Option (Shared S))
  release c =
      let left = c.ref -ℤ pos 1 in
      if eqb_ℤ left (pos 0)
      then (destroy c.object >>= λ _. pure none)
      else pure (some (record c { ref = left }))

-- What the holders of an object do.
pub data RefOp : Type 0 where
  dup : RefOp
  rel : RefOp

module _ {W S : Type 0} (destroy : S → Program W (Bool × S)) where
  unfoldable pub step_ref : RefOp → Shared S → Program W (Option (Shared S))
  step_ref dup c = pure (some (duplicate c))
  step_ref rel c = release destroy c

  -- An operation on a deleted object is undefined.
  unfoldable pub run_refs : List RefOp → Option (Shared S) → Program W (Option (Shared S))
  run_refs [] c = pure c
  run_refs (op ∷ ops) none = lift undefined
  run_refs (op ∷ ops) (some c) = step_ref op c >>= λ c'. run_refs ops c'

-- How many holders are left, if no one holds on to a deleted object.
unfoldable pub holders : ℕ → List RefOp → Option ℕ
holders n [] = some n
holders zero (op ∷ ops) = none
holders (suc n) (dup ∷ ops) = holders (suc (suc n)) ops
holders (suc n) (rel ∷ ops) = holders n ops

-- What becomes of the object: alive and untouched, destroyed once, or used after that.
module _ {W S : Type 0} (destroy : S → Program W (Bool × S)) (s : S) where
  unfoldable pub outcome : Option ℕ → Program W (Option (Shared S))
  outcome none = destroy s >>= λ _. lift undefined
  outcome (some zero) = destroy s >>= λ _. pure none
  outcome (some (suc m)) = pure (some (record { ref = pos (suc m); object = s }))

  pub up : (n : ℕ) → pos (suc n) +ℤ pos 1 ≡ pos (suc (suc n))
  up n = omega int_laws

  down : (n : ℕ) → pos (suc (suc n)) -ℤ pos 1 ≡ pos (suc n)
  down n = omega int_laws

  not_zero : (n : ℕ) → eqb_ℤ (pos (suc n)) (pos 0) ≡ false
  not_zero n = ground arith

  -- A holder who is not the last gives up a share, and no more happens.
  pub release_shared :
      (n : ℕ)
      → release destroy (record { ref = pos (suc (suc n)); object = s })
        ≡ pure (some (record { ref = pos (suc n); object = s }))
  unfolding release
  release_shared n = rw (down n, not_zero n)

  -- The last holder destroys the object.
  pub release_last :
      release destroy (record { ref = pos 1; object = s }) ≡ (destroy s >>= λ _. pure none)
  unfolding release ◌-ℤ◌
  release_last = refl

  after_destroy :
      (ops : List RefOp) (w : W)
      → ((destroy s >>= λ _. pure none) >>= λ c. run_refs destroy ops c) w
        ≡ outcome (holders 0 ops) w
  unfolding run_refs outcome holders
  after_destroy [] w = ground arith
  after_destroy (op ∷ ops) w = ground arith

  -- Whatever its destructor does, an object with n + 1 holders goes through any sequence of
  -- `duplicate` and `release` as the number of its holders says: alive and untouched while
  -- there are some, destroyed once by the last, and undefined if it is used after that.
  pub run_refs-outcome :
      (n : ℕ) (ops : List RefOp) (w : W)
      → run_refs destroy ops (some (record { ref = pos (suc n); object = s })) w
        ≡ outcome (holders (suc n) ops) w
  unfolding run_refs outcome holders step_ref duplicate
  run_refs-outcome n [] w = refl
  run_refs-outcome n (dup ∷ ops) w = rw (up n) (run_refs-outcome (suc n) ops w)
  run_refs-outcome (suc n) (rel ∷ ops) w = rw (release_shared n) (run_refs-outcome n ops w)
  run_refs-outcome zero (rel ∷ ops) w = rw release_last (after_destroy ops w)
