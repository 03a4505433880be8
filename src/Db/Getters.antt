-- ===== src/Db/Getters.antt =====
-- dbabstract/db.h: the getters of `ResultSet`, on a column that is not NULL. A driver converts the text
-- that its `getString` answers.
use dbabstract.Prelude.{ℕ, ◌≡◌, ap, Bytes, some, ◌∙◌, arith}
use dbabstract.Prelude.Int.{ℤ, pos, negsuc, ◌-ℤ◌}
use dbabstract.Effects.{ok, lift, map_result}
use dbabstract.C.Num.{atoi, atol, to_short}
use dbabstract.C.Num.Decimal.{numeral, IsSigned, atoi-numeral, atol-numeral, to_short_signed}
use dbabstract.C.Time.{format_time, gmtime}
use dbabstract.Convert.{text_is_true, parse_unix_time}
use dbabstract.Convert.RoundTrip.{HasFourDigitYear, parse-format}
use dbabstract.Db.{ResultSet}

module _ {W R D F : Type 0} (rs : ResultSet W R D F) (zone : ℤ → ℤ) where
  -- The getters do what `getString` does, and convert its text.
  pub record ConvertsText : Type 0 where
    pub integer_is :
        (idx : ℕ) (r : R) (w w' : W) (v : Bytes)
        → rs.get_string idx r w ≡ ok (some v, w')
        → rs.get_integer idx r w ≡ lift (atoi v) w'
    pub long_is :
        (idx : ℕ) (r : R) (w w' : W) (v : Bytes)
        → rs.get_string idx r w ≡ ok (some v, w')
        → rs.get_long idx r w ≡ lift (atol v) w'
    pub short_is :
        (idx : ℕ) (r : R) (w w' : W) (v : Bytes)
        → rs.get_string idx r w ≡ ok (some v, w')
        → rs.get_short idx r w ≡ lift (map_result to_short (atoi v)) w'
    pub bool_is :
        (idx : ℕ) (r : R) (w w' : W) (v : Bytes)
        → rs.get_string idx r w ≡ ok (some v, w')
        → rs.get_bool idx r w ≡ ok (text_is_true (some v), w')
    pub time_is :
        (idx : ℕ) (r : R) (w w' : W) (v : Bytes)
        → rs.get_string idx r w ≡ ok (some v, w')
        → rs.get_unix_time idx r w ≡ lift (parse_unix_time zone (some v)) w'

-- A number of 16 bits is one of 32, and that one of 64.
wider : (z : ℤ) → IsSigned 15 z → IsSigned 31 z
wider (pos n) h = omega (arith, h)
wider (negsuc n) h = omega (arith, h)

widest : (z : ℤ) → IsSigned 31 z → IsSigned 63 z
widest (pos n) h = omega (arith, h)
widest (negsuc n) h = omega (arith, h)

module _ {W R D F : Type 0} (rs : ResultSet W R D F) (zone : ℤ → ℤ)
    (converts : ConvertsText rs zone) where
  pub get_integer-numeral :
      (z : ℤ) (idx : ℕ) (r : R) (w w' : W)
      → rs.get_string idx r w ≡ ok (some (numeral z), w')
      → IsSigned 31 z
      → (rs.get_integer idx r w ≡ ok (z, w'))
        × (rs.get_long idx r w ≡ ok (z, w'))
        × (rs.get_short idx r w ≡ ok (to_short z, w'))
  get_integer-numeral z idx r w w' e fits = (
    converts.integer_is idx r w w' (numeral z) e ∙ rw (atoi-numeral z fits),
    converts.long_is idx r w w' (numeral z) e ∙ rw (atol-numeral z (widest z fits)),
    converts.short_is idx r w w' (numeral z) e ∙ rw (atoi-numeral z fits),
  )

  -- With a driver whose getters convert the text of `getString`: where the text is a signed
  -- number of 16 bits in decimal, `getInteger`, `getLong` and `getShort` answer the number.
  pub get_short-numeral :
      (z : ℤ) (idx : ℕ) (r : R) (w w' : W)
      → rs.get_string idx r w ≡ ok (some (numeral z), w')
      → IsSigned 15 z
      → (rs.get_integer idx r w ≡ ok (z, w'))
        × (rs.get_long idx r w ≡ ok (z, w'))
        × (rs.get_short idx r w ≡ ok (z, w'))
  get_short-numeral z idx r w w' e fits =
      let (as_int, as_long, as_short) = get_integer-numeral z idx r w w' e (wider z fits) in
      (as_int, as_long, as_short ∙ ap (λ x. ok (x, w')) (to_short_signed z fits))

  -- With a driver whose getters convert the text of `getString`: where the text is what
  -- `strftime` makes of a time whose year has four digits, `getUnixTime` answers the time less
  -- the offset of the local zone at that time.
  pub get_unix_time-format :
      (t : ℤ) (idx : ℕ) (r : R) (w w' : W)
      → HasFourDigitYear t
      → rs.get_string idx r w ≡ ok (some (format_time (gmtime t)), w')
      → rs.get_unix_time idx r w ≡ ok (t -ℤ zone t, w')
  get_unix_time-format t idx r w w' h e =
      converts.time_is idx r w w' (format_time (gmtime t)) e ∙ rw (parse-format t h zone)
