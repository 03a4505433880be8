-- ===== src/C/Num.antt =====
-- `atoi`, `atol` and the narrowing to `short`. A number that does not fit is undefined, as in C.
pub mod Decimal
use dbabstract.Prelude.{
  ℕ, ◌+◌, ◌-◌, ◌*◌, ◌^◌, Bool, ◌&&◌, ◌||◌, [], ◌∷◌, Bytes, ltb, leb, ◌==◌, if◌then◌else◌,
}
use dbabstract.Prelude.Int.{ℤ, pos, negsuc, sub_ℕ, mod_ℤ}
use dbabstract.Effects.{Result, ok, undefined}

abbrev is_digit : ℕ → Bool
is_digit c = leb b'0' c && leb c b'9'

abbrev is_space : ℕ → Bool
is_space c = (c == 32) || (leb 9 c && leb c 13)

-- the digits at the front, behind the number read so far
digits_value : ℕ → Bytes → ℕ
digits_value n [] = n
digits_value n (c ∷ s) =
    let rest = digits_value (n * 10 + (c - b'0')) s in if is_digit c then rest else n

after_sign : Bytes → ℤ
unfolding digits_value
after_sign [] = pos 0
after_sign (c ∷ s) =
    if c == b'-'
    then sub_ℕ 0 (digits_value 0 s)
    else if c == b'+'
    then pos (digits_value 0 s)
    else pos (digits_value 0 (c ∷ s))

-- White space, a sign, digits; the rest is ignored.
unfoldable pub leading_number : Bytes → ℤ
unfolding after_sign
leading_number [] = pos 0
leading_number (c ∷ s) =
    let rest = leading_number s in if is_space c then rest else after_sign (c ∷ s)

-- A value of a signed type of `w + 1` bits, or undefined.
unfoldable pub fit : ℕ → ℤ → Result ℤ
fit w (pos n) = if ltb n (2 ^ w) then ok (pos n) else undefined
fit w (negsuc n) = if ltb n (2 ^ w) then ok (negsuc n) else undefined

unfoldable pub atoi : Bytes → Result ℤ
unfolding leading_number fit
atoi s = fit 31 (leading_number s)

unfoldable pub atol : Bytes → Result ℤ
unfolding leading_number fit
atol s = fit 63 (leading_number s)

-- `(short) x`: modulo 2 ^ 16
unfoldable pub to_short : ℤ → ℤ
unfolding mod_ℤ
to_short x = let r = mod_ℤ x (2 ^ 16) in if ltb r (2 ^ 15) then pos r else sub_ℕ r (2 ^ 16)

-- `(unsigned long) x` of a 64-bit value
unfoldable pub to_ulong : ℤ → ℕ
unfolding mod_ℤ
to_ulong x = mod_ℤ x (2 ^ 64)

-- `(unsigned int) x`
unfoldable pub to_uint : ℤ → ℕ
unfolding mod_ℤ
to_uint x = mod_ℤ x (2 ^ 32)

-- `n++` of an `int` that is not negative.
unfoldable pub increment : ℕ → Result ℕ
increment n = if ltb (n + 1) (2 ^ 31) then ok (n + 1) else undefined
