-- ===== src/Effects/Checked.antt =====
-- `do` blocks over results alone, for code that calls no library.
use dbabstract.Effects.{Result, and_then}

infixl 5 ◌>>=◌
abbrev pub ◌>>=◌ {ℓ κ} : {A : Type ℓ} {B : Type κ} → Result A → (A → Result B) → Result B
m >>= f = and_then m f
