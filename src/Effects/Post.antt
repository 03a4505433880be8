-- ===== src/Effects/Post.antt =====
-- Postconditions of programs: `Returns` says that the program ends with a value for which the
-- condition holds, `Ends` that it does so or ends the process by `exit`.
use dbabstract.Prelude.{ℕ, ◌+◌, ◌≡◌, refl, List, [], ◌∷◌, ◌⊎◌, inl, inr}
use dbabstract.Effects.{Result, ok, undefined, exited, spinning, and_then, Program}

module _ {A W : Type 0} (P : A → W → Type 0) where
  abbrev pub Returns : Result (A × W) → Type 0
  Returns (ok r) = P r.0 r.1
  Returns undefined = ⊥
  Returns exited = ⊥
  Returns spinning = ⊥

  abbrev pub Ends : Result (A × W) → Type 0
  Ends (ok r) = P r.0 r.1
  Ends undefined = ⊥
  Ends exited = Unit
  Ends spinning = ⊥

module _ {A B W : Type 0} (P : A → W → Type 0) (Q : B → W → Type 0) where
  pub Returns-bind :
      (r : Result (A × W)) (f : A → Program W B)
      → Returns P r
      → ((a : A) (w : W) → P a w → Returns Q (f a w))
      → Returns Q (and_then r (λ x. f x.0 x.1))
  Returns-bind (ok r) f h k = k r.0 r.1 h
  Returns-bind undefined f h k = absurd h
  Returns-bind exited f h k = absurd h
  Returns-bind spinning f h k = absurd h

  pub Ends-bind :
      (r : Result (A × W)) (f : A → Program W B)
      → Ends P r
      → ((a : A) (w : W) → P a w → Ends Q (f a w))
      → Ends Q (and_then r (λ x. f x.0 x.1))
  Ends-bind (ok r) f h k = k r.0 r.1 h
  Ends-bind undefined f h k = absurd h
  Ends-bind exited f h k = tt
  Ends-bind spinning f h k = absurd h

-- A condition that follows from one that holds.
pub Returns-weaken :
    {A W : Type 0} (P Q : A → W → Type 0) (r : Result (A × W))
    → Returns P r
    → ((a : A) (w : W) → P a w → Q a w)
    → Returns Q r
Returns-weaken P Q (ok r) h k = k r.0 r.1 h
Returns-weaken P Q undefined h k = absurd h
Returns-weaken P Q exited h k = absurd h
Returns-weaken P Q spinning h k = absurd h

module _ {A W : Type 0} (P : A → W → Type 0) where
  pub Returns-ok : (r : Result (A × W)) → Returns P r → (a : A) × (w : W) × (r ≡ ok (a, w)) × P a w
  Returns-ok (ok r) h = (r.0, r.1, refl, h)
  Returns-ok undefined h = absurd h
  Returns-ok exited h = absurd h
  Returns-ok spinning h = absurd h

  pub Returns-at : (r : Result (A × W)) {a : A} {w : W} → Returns P r → r ≡ ok (a, w) → P a w
  Returns-at r h e = rw e at h

  pub Ends-cases :
      (r : Result (A × W)) → Ends P r → (r ≡ exited) ⊎ ((a : A) × (w : W) × (r ≡ ok (a, w)) × P a w)
  Ends-cases (ok r) h = inr (r.0, r.1, refl, h)
  Ends-cases undefined h = absurd h
  Ends-cases exited h = inl refl
  Ends-cases spinning h = absurd h

-- A program that returns ends.
pub Returns-Ends : {A W : Type 0} (P : A → W → Type 0) (r : Result (A × W)) → Returns P r → Ends P r
Returns-Ends P (ok r) h = h
Returns-Ends P undefined h = absurd h
Returns-Ends P exited h = absurd h
Returns-Ends P spinning h = absurd h

pub Returns-both :
    {A W : Type 0} (P Q : A → W → Type 0) (r : Result (A × W))
    → Returns P r
    → Returns Q r
    → Returns (λ a w. P a w × Q a w) r
Returns-both P Q (ok r) h k = (h, k)
Returns-both P Q undefined h k = absurd h
Returns-both P Q exited h k = absurd h
Returns-both P Q spinning h k = absurd h

-- A sum over the events of a log.
abbrev pub count {ℓ} : {E : Type ℓ} → (E → ℕ) → List E → ℕ
count p [] = 0
count p (e ∷ log) = p e + count p log
