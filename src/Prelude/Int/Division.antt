-- ===== src/Prelude/Int/Division.antt =====
-- Rounded-down division of integers by a positive number.
use dbabstract.Prelude.{ℕ, ◌+◌, ◌-◌, ◌*◌, ◌/◌, ◌%◌, ◌<◌, ◌≡◌, arith, ap}
use dbabstract.Prelude.Int.{ℤ, pos, negsuc, ◌+ℤ◌, ◌*ℤ◌, div_ℤ, mod_ℤ, int_laws}
use native.Mathlib.Nat.{div-add-mod, mod-lt}

div_unique : (q k r : ℕ) → r < k → (q * k + r) / k ≡ q
div_unique q k r h = grind arith

mod_unique : (q k r : ℕ) → r < k → (q * k + r) % k ≡ r
mod_unique q k r h = grind arith

pub mod_ℤ-lt : (a : ℤ) (k : ℕ) → 0 < k → mod_ℤ a k < k
unfolding mod_ℤ
mod_ℤ-lt (pos n) k h = grind arith
mod_ℤ-lt (negsuc n) k h = omega arith

pub div_ℤ-mod_ℤ : (a : ℤ) (k : ℕ) → 0 < k → div_ℤ a k *ℤ k +ℤ pos (mod_ℤ a k) ≡ a
unfolding div_ℤ mod_ℤ
div_ℤ-mod_ℤ (pos n) k h = omega (int_laws, div-add-mod n k)
div_ℤ-mod_ℤ (negsuc n) k h = omega (int_laws, div-add-mod n k, mod-lt n h)

pos_sum : (q k r : ℕ) → pos q *ℤ k +ℤ pos r ≡ pos (q * k + r)
pos_sum q k r = omega int_laws

negsuc_sum : (q k r : ℕ) → r < k → negsuc q *ℤ k +ℤ pos r ≡ negsuc (q * k + (k - 1 - r))
negsuc_sum q k r h = omega int_laws

pub div_ℤ_unique : (q : ℤ) (k r : ℕ) → r < k → div_ℤ (q *ℤ k +ℤ pos r) k ≡ q
unfolding div_ℤ
div_ℤ_unique (pos q) k r h = rw (pos_sum q k r) (ap pos (div_unique q k r h))
div_ℤ_unique (negsuc q) k r h =
    rw (negsuc_sum q k r h) (ap negsuc (div_unique q k (k - 1 - r) (omega arith)))

pub mod_ℤ_unique : (q : ℤ) (k r : ℕ) → r < k → mod_ℤ (q *ℤ k +ℤ pos r) k ≡ r
unfolding mod_ℤ
mod_ℤ_unique (pos q) k r h = rw (pos_sum q k r) (mod_unique q k r h)
mod_ℤ_unique (negsuc q) k r h =
    rw (negsuc_sum q k r h) (omega (arith, mod_unique q k (k - 1 - r) (omega arith)))
