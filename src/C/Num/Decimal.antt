-- ===== src/C/Num/Decimal.antt =====
-- A number written in decimal, and what `atoi`, `atol` and the narrowing to `short` make of it.
use dbabstract.Prelude.{
  ℕ, zero, suc, ◌+◌, ◌-◌, ◌*◌, ◌/◌, ◌%◌, ◌^◌, ◌<◌, ◌≤◌, ◌≡◌, refl, ap, true, false, [], ◌∷◌, ◌++◌,
  Bytes, ltb, ◌==◌, arith, Bool-cases, inl, inr, ◌∙◌,
}
use dbabstract.Prelude.Int.{ℤ, pos, negsuc, sub_ℕ, mod_ℤ}
use dbabstract.Effects.{ok}
use dbabstract.C.Time.{decimal}
use dbabstract.C.Num.{is_space, digits_value, after_sign, leading_number, fit, atoi, atol, to_short}

abbrev pub numeral : ℤ → Bytes
numeral (pos n) = decimal (n + 1) n
numeral (negsuc n) = b'-' ∷ decimal (n + 2) (n + 1)

-- A number of a signed type of `w + 1` bits.
abbrev pub IsSigned : ℕ → ℤ → Type 0
IsSigned w (pos n) = n < 2 ^ w
IsSigned w (negsuc n) = n < 2 ^ w

abbrev AllDigits : Bytes → Type 0
AllDigits [] = Unit
AllDigits (c ∷ s) = (b'0' ≤ c) × (c ≤ b'9') × AllDigits s

AllDigits-append : (s t : Bytes) → AllDigits s → AllDigits t → AllDigits (s ++ t)
AllDigits-append [] t hs ht = ht
AllDigits-append (c ∷ s) t hs ht = (hs.0, hs.1, AllDigits-append s t hs.2 ht)

digits_value-snoc :
    (s : Bytes) (n d : ℕ)
    → AllDigits s
    → d < 10
    → digits_value n (s ++ ((b'0' + d) ∷ [])) ≡ digits_value n s * 10 + d
unfolding digits_value
digits_value-snoc [] n d h small = ground arith
digits_value-snoc (c ∷ s) n d h small =
    ground (arith, digits_value-snoc s (n * 10 + (c - b'0')) d h.2 small)

-- Digits that stand for `n`, and at least one.
record Spells (n : ℕ) (s : Bytes) : Type 0 where
  first : ℕ
  others : Bytes
  text : s ≡ first ∷ others
  digits : AllDigits s
  value : digits_value 0 s ≡ n

decimal_last : (left n : ℕ) → ltb n 10 ≡ true → decimal (suc left) n ≡ (b'0' + n) ∷ []
unfolding decimal
decimal_last left n h = rw h

decimal_more :
    (left n : ℕ)
    → ltb n 10 ≡ false
    → decimal (suc left) n ≡ decimal left (n / 10) ++ ((b'0' + n % 10) ∷ [])
unfolding decimal
decimal_more left n h = rw h

decimal-Spells : (left n : ℕ) → n < left → Spells n (decimal left n)
decimal-Spells zero n h = absurd (omega arith)
decimal-Spells (suc left) n h = elim (Bool-cases (ltb n 10)) [
  | inl single ↦ rw (decimal_last left n single) (record {
    first = b'0' + n;
    others = [];
    text = refl;
    digits = ground arith;
    value = unfold digits_value in ground arith;
  })
  | inr more ↦
      let higher = decimal-Spells left (n / 10) (ground arith) in
      rw (decimal_more left n more) (record {
        first = higher.first;
        others = higher.others ++ ((b'0' + n % 10) ∷ []);
        text = ap (λ s. s ++ ((b'0' + n % 10) ∷ [])) higher.text;
        digits =
            AllDigits-append (decimal left (n / 10)) ((b'0' + n % 10) ∷ []) higher.digits
              (omega arith);
        value =
            digits_value-snoc (decimal left (n / 10)) 0 (n % 10) higher.digits (omega arith)
            ∙ omega (arith, higher.value);
      })
]

-- What is read of a text that begins with a digit.
front_digit :
    (c : ℕ) (s : Bytes)
    → b'0' ≤ c
    → c ≤ b'9'
    → leading_number (c ∷ s) ≡ pos (digits_value 0 (c ∷ s))
unfolding leading_number after_sign
front_digit c s lo hi =
    let not_space : is_space c ≡ false = ground arith in
    let no_minus : (c == b'-') ≡ false = ground arith in
    let no_plus : (c == b'+') ≡ false = ground arith in rw (not_space, no_minus, no_plus)

front_minus : (s : Bytes) → leading_number (b'-' ∷ s) ≡ sub_ℕ 0 (digits_value 0 s)
unfolding leading_number after_sign
front_minus s = refl

read_Spells : (n : ℕ) (s : Bytes) → Spells n s → leading_number s ≡ pos n
read_Spells n s spells =
    let digits : AllDigits (spells.first ∷ spells.others) = rw spells.text at spells.digits in
    let value : digits_value 0 (spells.first ∷ spells.others) ≡ n =
      rw spells.text at spells.value in
    rw spells.text (front_digit spells.first spells.others digits.0 digits.1 ∙ ap pos value)

pub leading_number-numeral : (z : ℤ) → leading_number (numeral z) ≡ z
leading_number-numeral (pos n) =
    read_Spells n (decimal (n + 1) n) (decimal-Spells (n + 1) n (omega arith))
leading_number-numeral (negsuc n) =
    let spells = decimal-Spells (n + 2) (n + 1) (omega arith) in
    front_minus (decimal (n + 2) (n + 1)) ∙ ap (sub_ℕ 0) spells.value ∙ ground arith

pub atoi-numeral : (z : ℤ) → IsSigned 31 z → atoi (numeral z) ≡ ok z
unfolding atoi fit
atoi-numeral (pos n) h = rw (leading_number-numeral (pos n)) (ground arith)
atoi-numeral (negsuc n) h = rw (leading_number-numeral (negsuc n)) (ground arith)

pub atol-numeral : (z : ℤ) → IsSigned 63 z → atol (numeral z) ≡ ok z
unfolding atol fit
atol-numeral (pos n) h = rw (leading_number-numeral (pos n)) (ground arith)
atol-numeral (negsuc n) h = rw (leading_number-numeral (negsuc n)) (ground arith)

pub to_short_signed : (z : ℤ) → IsSigned 15 z → to_short z ≡ z
unfolding to_short mod_ℤ
to_short_signed (pos n) h = ground arith
to_short_signed (negsuc n) h = ground arith
