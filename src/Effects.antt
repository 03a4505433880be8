-- ===== src/Effects.antt =====
-- How the methods of the drivers run. A method talks to a client library that is not part of the
-- repository: each call is an event with its answer, and the log of the events so far, newest
-- first, is the state that the method passes on. `Program (Log E) A` is such a method; a driver with
-- static variables of its own has a larger state `W`.
pub mod Laws
pub mod Checked
pub mod Post
use dbabstract.Prelude.{ℕ, ◌≡◌, refl, Bool, Option, none, some, List, ◌∷◌, arith}

-- How a piece of C++ ends: with a value, in undefined behaviour (a read past the end, a null
-- pointer followed), or in `exit`. `spinning` is a model loop that ran out of fuel.
pub data Result {ℓ} (A : Type ℓ) : Type ℓ where
  ok : A → Result A
  undefined : Result A
  exited : Result A
  spinning : Result A

abbrev pub and_then {ℓ κ} : {A : Type ℓ} {B : Type κ} → Result A → (A → Result B) → Result B
and_then (ok a) f = f a
and_then undefined f = undefined
and_then exited f = exited
and_then spinning f = spinning

abbrev pub map_result {ℓ κ} : {A : Type ℓ} {B : Type κ} → (A → B) → Result A → Result B
map_result f r = and_then r (λ a. ok (f a))

abbrev pub Log : Type 0 → Type 0
Log E = List E

abbrev pub Program : Type 0 → Type 0 → Type 0
Program W A = W → Result (A × W)

abbrev pub pure : {W A : Type 0} → A → Program W A
pure a w = ok (a, w)

infixl 5 ◌>>=◌ ◌>>◌
abbrev pub ◌>>=◌ : {W A B : Type 0} → Program W A → (A → Program W B) → Program W B
◌>>=◌ m f w = and_then (m w) (λ r. f r.0 r.1)

abbrev pub ◌>>◌ : {W B : Type 0} → Program W (Unit {0}) → Program W B → Program W B
m >> k = m >>= λ _. k

-- A computation that calls no library.
abbrev pub lift : {W A : Type 0} → Result A → Program W A
lift r w = and_then r (λ a. ok (a, w))

-- A library call: the answer depends on what was called before, and both are recorded.
abbrev pub call : {E A : Type 0} → (Log E → A) → (A → E) → Program (Log E) A
call answer event log = let a = answer log in ok (a, event a ∷ log)

-- Following a pointer that may be NULL.
abbrev pub deref {ℓ} : {A : Type ℓ} → Option A → Result A
deref none = undefined
deref (some a) = ok a
