-- ===== src/C/Str.antt =====
-- `strcmp`, `strchr`, `strlen` and the bytes of a C string. A string is its bytes before the NUL.
use dbabstract.Prelude.{
  ℕ, zero, suc, ◌-◌, ◌<◌, ◌≤◌, ◌≡◌, refl, Bool, true, false, ◌&&◌, ◌||◌, [], ◌∷◌, ◌↔◌, arith, Bytes,
  length, ltb, ◌==◌, if◌then◌else◌,
}
use dbabstract.Prelude.Int.{ℤ, pos, negsuc}
use dbabstract.Effects.{Result, ok, undefined}

-- `s[i]`: the NUL may be read, and nothing behind it.
unfoldable pub byte_at : Bytes → ℕ → Result ℕ
byte_at [] zero = ok 0
byte_at [] (suc i) = undefined
byte_at (b ∷ s) zero = ok b
byte_at (b ∷ s) (suc i) = byte_at s i

-- `strcmp(s, t) == 0`
unfoldable pub str_eq : Bytes → Bytes → Bool
str_eq [] [] = true
str_eq [] (c ∷ t) = false
str_eq (b ∷ s) [] = false
str_eq (b ∷ s) (c ∷ t) = (b == c) && str_eq s t

-- `strchr(s, c) != NULL`
unfoldable pub contains_char : Bytes → ℕ → Bool
contains_char [] c = false
contains_char (b ∷ s) c = (b == c) || contains_char s c

-- The value of a `char`, which is signed.
unfoldable pub char_value : ℕ → ℤ
char_value b = if ltb b 128 then pos b else negsuc (255 - b)

pub str_eq_iff : (s t : Bytes) → (str_eq s t ≡ true) ↔ (s ≡ t)
unfolding str_eq
str_eq_iff [] [] = ground arith
str_eq_iff [] (c ∷ t) = ground arith
str_eq_iff (b ∷ s) [] = ground arith
str_eq_iff (b ∷ s) (c ∷ t) = ground (arith, str_eq_iff s t)

-- A read behind the NUL is undefined.
pub byte_at_past : (s : Bytes) (i : ℕ) → length s < i → byte_at s i ≡ undefined
unfolding byte_at
byte_at_past [] zero h = absurd (omega arith)
byte_at_past [] (suc i) h = refl
byte_at_past (b ∷ s) zero h = absurd (omega arith)
byte_at_past (b ∷ s) (suc i) h = byte_at_past s i (omega arith)

pub byte_at_within : (s : Bytes) (i : ℕ) → i ≤ length s → (b : ℕ) × (byte_at s i ≡ ok b)
unfolding byte_at
byte_at_within [] zero h = (0, refl)
byte_at_within [] (suc i) h = absurd (omega arith)
byte_at_within (b ∷ s) zero h = (b, refl)
byte_at_within (b ∷ s) (suc i) h = byte_at_within s i (omega arith)
