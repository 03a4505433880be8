-- ===== src/Effects/Laws.antt =====
-- Inversion of a successful bind, for proofs that keep the parts shut.
use dbabstract.Prelude.{◌≡◌, refl}
use dbabstract.Effects.{Result, ok, undefined, exited, spinning, and_then}

pub and_then-eq-ok {ℓ κ} :
    {A : Type ℓ} {B : Type κ} (m : Result A) (f : A → Result B) {b : B}
    → and_then m f ≡ ok b
    → (a : A) × (m ≡ ok a) × (f a ≡ ok b)
and_then-eq-ok (ok a) f h = (a, refl, h)
and_then-eq-ok undefined f h = cc
and_then-eq-ok exited f h = cc
and_then-eq-ok spinning f h = cc

-- The value of a result is determined.
pub ok-injective {ℓ} : {A : Type ℓ} {a b : A} → ok a ≡ ok b → a ≡ b
ok-injective h = cc
