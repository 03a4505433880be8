-- ===== src/Convert/Bounds.antt =====
-- The bytes of a text that `getUnixTime` looks at (dbabstract/*/*_db.cpp).
use dbabstract.Prelude.{
  ℕ, zero, suc, ◌+◌, ◌<◌, ◌≤◌, ◌≡◌, refl, Bool, true, false, [], ◌∷◌, Bytes, some, leb, length,
  arith, Bool-cases, inl, inr, ◌⊎◌, ◌↔◌,
}
use native.Mathlib.Decide.{dec_lt}
use dbabstract.Prelude.Int.{ℤ, pos, ◌+ℤ◌, ◌-ℤ◌, ◌*ℤ◌}
use dbabstract.Effects.{Result, ok, undefined, and_then}
use dbabstract.C.Str.{byte_at, contains_char, char_value, byte_at_within, byte_at_past}
use dbabstract.C.Time.{Tm, mktime}
use dbabstract.Convert.{digit, pair, year_at, positions, Positions, read_fields, parse_unix_time}

-- A read of memory has a value or is undefined.
abbrev Reads {ℓ} : {A : Type ℓ} → Result A → Type ℓ
Reads {A} r = (r ≡ undefined) ⊎ ((a : A) × (r ≡ ok a))

-- Whatever is read first, an undefined rest leaves the whole undefined.
undefined_after {ℓ κ} :
    {A : Type ℓ} {B : Type κ} (r : Result A) (f : A → Result B)
    → Reads r
    → ((a : A) → f a ≡ undefined)
    → and_then r f ≡ undefined
undefined_after r f (inl e) h = rw e
undefined_after r f (inr (a, e)) h = rw e (h a)

byte_at-Reads : (v : Bytes) (i : ℕ) → Reads (byte_at v i)
unfolding byte_at
byte_at-Reads [] zero = inr (0, refl)
byte_at-Reads [] (suc i) = inl refl
byte_at-Reads (b ∷ v) zero = inr (b, refl)
byte_at-Reads (b ∷ v) (suc i) = byte_at-Reads v i

digit-Reads : (v : Bytes) (i : ℕ) → Reads (digit v i)
unfolding digit
digit-Reads v i = elim (byte_at-Reads v i) [
  | inl e ↦ inl (rw e)
  | inr (b, e) ↦ inr (char_value b -ℤ pos b'0', rw e)
]

-- A read of one field behind another.
then-Reads {ℓ κ} :
    {A : Type ℓ} {B : Type κ} (r : Result A) (f : A → Result B)
    → Reads r
    → ((a : A) → Reads (f a))
    → Reads (and_then r f)
then-Reads r f (inl e) h = inl (rw e)
then-Reads r f (inr (a, e)) h = rw e (h a)

pair-Reads : (v : Bytes) (i : ℕ) → Reads (pair v i)
unfolding pair
pair-Reads v i =
    then-Reads (digit v i) _ (digit-Reads v i)
      λ a. then-Reads (digit v (i + 1)) _ (digit-Reads v (i + 1)) λ b. inr (a *ℤ 10 +ℤ b, refl)

year_at-Reads : (v : Bytes) → Reads (year_at v)
unfolding year_at
year_at-Reads v = then-Reads (digit v 0) _ (digit-Reads v 0) λ a.
    then-Reads (digit v 1) _ (digit-Reads v 1) λ b. then-Reads (digit v 2) _ (digit-Reads v 2) λ c.
      then-Reads (digit v 3) _ (digit-Reads v 3)
        λ d. inr (a *ℤ 1000 +ℤ b *ℤ 100 +ℤ c *ℤ 10 +ℤ d -ℤ pos 1900, refl)

pair_past : (v : Bytes) (i : ℕ) → length v ≤ i → pair v i ≡ undefined
unfolding pair digit
pair_past v i h =
    undefined_after (digit v i) _ (digit-Reads v i) λ a. rw (byte_at_past v (i + 1) (omega arith))

-- The seconds are read last.
read_fields_past :
    (v : Bytes) (p : Positions) → length v ≤ p.second_pos → read_fields v p ≡ undefined
unfolding read_fields
read_fields_past v p h = undefined_after (year_at v) _ (year_at-Reads v) λ _.
    undefined_after (pair v p.month_pos) _ (pair-Reads v p.month_pos) λ _.
      undefined_after (pair v p.day_pos) _ (pair-Reads v p.day_pos) λ _.
        undefined_after (pair v p.hour_pos) _ (pair-Reads v p.hour_pos) λ _.
          undefined_after (pair v p.minute_pos) _ (pair-Reads v p.minute_pos)
            λ _. rw (pair_past v p.second_pos h)

digit_within : (v : Bytes) (i : ℕ) → i ≤ length v → (a : ℤ) × (digit v i ≡ ok a)
unfolding digit
digit_within v i h = let (b, e) = byte_at_within v i h in (char_value b -ℤ pos b'0', rw e)

pair_within : (v : Bytes) (i : ℕ) → i < length v → (a : ℤ) × (pair v i ≡ ok a)
unfolding pair
pair_within v i h =
    let (a, ea) = digit_within v i (omega arith) in
    let (b, eb) = digit_within v (i + 1) (omega arith) in (a *ℤ 10 +ℤ b, rw (ea, eb))

year_within : (v : Bytes) → 3 ≤ length v → (a : ℤ) × (year_at v ≡ ok a)
unfolding year_at
year_within v h =
    let (a, ea) = digit_within v 0 (omega arith) in
    let (b, eb) = digit_within v 1 (omega arith) in
    let (c, ec) = digit_within v 2 (omega arith) in
    let (d, ed) = digit_within v 3 (omega arith) in
    (a *ℤ 1000 +ℤ b *ℤ 100 +ℤ c *ℤ 10 +ℤ d -ℤ pos 1900, rw (ea, eb, ec, ed))

module _ (v : Bytes) (p : Positions) where
  open p use {month_pos, day_pos, hour_pos, minute_pos, second_pos}

  read_fields_within :
      3 ≤ length v
      → month_pos < length v
      → day_pos < length v
      → hour_pos < length v
      → minute_pos < length v
      → second_pos < length v
      → (tm : Tm) × (read_fields v p ≡ ok tm)
  unfolding read_fields
  read_fields_within hy hm hd hh hn hs =
      let (y, ey) = year_within v hy in
      let (m, em) = pair_within v month_pos hm in
      let (d, ed) = pair_within v day_pos hd in
      let (h, eh) = pair_within v hour_pos hh in
      let (n, en) = pair_within v minute_pos hn in
      let (s, es) = pair_within v second_pos hs in
      (
        record {
          tm_year = y;
          tm_mon = m -ℤ pos 1;
          tm_mday = d;
          tm_hour = h;
          tm_min = n;
          tm_sec = s;
        },
        rw (ey, em, ed, eh, en, es),
      )

-- A text with a hyphen and of 14 to 17 bytes is read past its end by `getUnixTime`, which is
-- undefined.
pub parse_overrun :
    (zone : ℤ → ℤ) (v : Bytes)
    → contains_char v b'-' ≡ true
    → 14 ≤ length v
    → length v ≤ 17
    → parse_unix_time zone (some v) ≡ undefined
unfolding parse_unix_time positions
parse_overrun zone v dash lo hi =
    let long : leb 14 (length v) ≡ true = ground arith in
    rw (
      long,
      dash,
      read_fields_past v
          (record { month_pos = 5; day_pos = 8; hour_pos = 11; minute_pos = 14; second_pos = 17 })
          hi,
    )

fields_readable :
    (v : Bytes)
    → 14 ≤ length v
    → (contains_char v b'-' ≡ true → 18 ≤ length v)
    → (tm : Tm) × (read_fields v (positions v) ≡ ok tm)
unfolding positions
fields_readable v lo h = elim (Bool-cases (contains_char v b'-')) [
  | inl dash ↦ rw dash (
      let hi = h dash in
      read_fields_within v _ (omega arith) (omega arith) (omega arith) (omega arith) (omega arith)
        (omega arith))
  | inr bare ↦ rw bare (
      read_fields_within v _ (omega arith) (omega arith) (omega arith) (omega arith) (omega arith)
        (omega arith))
]

-- A text of which a hyphenated form of 14 bytes or more has at least 18 is read by `getUnixTime`
-- within its bounds, and gives a time.
pub parse_within :
    (zone : ℤ → ℤ) (v : Bytes)
    → (14 ≤ length v → contains_char v b'-' ≡ true → 18 ≤ length v)
    → (t : ℤ) × (parse_unix_time zone (some v) ≡ ok t)
unfolding parse_unix_time
parse_within zone v h = elim (Bool-cases (leb 14 (length v))) [
  | inl long ↦
      let (tm, e) = fields_readable v (ground arith) (h (ground arith)) in
      (mktime zone tm, rw (long, e))
  | inr short ↦ (pos 0, rw short)
]

outcome_of :
    (zone : ℤ → ℤ) (v : Bytes) (dash : Bool)
    → contains_char v b'-' ≡ dash
    → ((parse_unix_time zone (some v) ≡ undefined)
        × ((contains_char v b'-' ≡ true) × (14 ≤ length v) × (length v ≤ 17)))
      ⊎ ((t : ℤ) × (parse_unix_time zone (some v) ≡ ok t)
          × ¬ ((contains_char v b'-' ≡ true) × (14 ≤ length v) × (length v ≤ 17)))
outcome_of zone v false e =
    let (t, reads) = parse_within zone v (λ lo dash. cc) in inr (t, reads, λ h. cc)
outcome_of zone v true e = elim (dec_lt (length v) 14) [
  | yes short ↦
      let (t, reads) = parse_within zone v (λ lo dash. absurd (omega arith)) in
      inr (t, reads, λ h. omega (arith, h))
  | no long ↦ elim (dec_lt (length v) 18) [
    | yes cut ↦
        inl (parse_overrun zone v e (omega arith) (omega arith), (e, omega arith, omega arith))
    | no whole ↦
        let (t, reads) = parse_within zone v (λ lo dash. omega arith) in
        inr (t, reads, λ h. omega (arith, h))
  ]
]

-- `getUnixTime` is undefined on a text exactly when the text has a hyphen and 14 to 17 bytes, and
-- gives a time on every other.
pub parse_undefined_iff :
    (zone : ℤ → ℤ) (v : Bytes)
    → ((parse_unix_time zone (some v) ≡ undefined)
        ↔ ((contains_char v b'-' ≡ true) × (14 ≤ length v) × (length v ≤ 17)))
      × ((parse_unix_time zone (some v) ≡ undefined)
          ⊎ ((t : ℤ) × (parse_unix_time zone (some v) ≡ ok t)))
parse_undefined_iff zone v = elim (outcome_of zone v (contains_char v b'-') refl) [
  | inl (bad, long) ↦ ((λ e. long, λ h. bad), inl bad)
  | inr (t, reads, not_long) ↦ ((λ e. cc, λ h. absurd (not_long h)), inr (t, reads))
]
