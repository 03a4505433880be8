-- ===== src/Convert/Years.antt =====
-- `unixtimeToSql` (dbabstract/*/*_db.cpp) for a time whose year has not four digits.
use dbabstract.Prelude.{
  ℕ, zero, suc, ◌+◌, ◌-◌, ◌/◌, ◌%◌, ◌<◌, ◌≤◌, ◌≡◌, ◌≢◌, refl, ap, true, false, [], ◌∷◌, ◌++◌, Bytes,
  none, some, arith, length, length-append, length-drop, append_assoc, set, set-append, length-set,
  drop, ltb, if◌then◌else◌,
}
use dbabstract.Prelude.Int.{ℤ, pos, ◌+ℤ◌}
use dbabstract.Effects.{ok, and_then}
use dbabstract.C.Memory.{
  write, write_all, new_char, length-new_char, c_string, c_string-append, NoNul,
}
use dbabstract.C.Time.{Tm, gmtime, strftime, decimal, year_text, two_digits, format_time}
use dbabstract.Convert.{quote, time_literal, store_text}
use dbabstract.Convert.RoundTrip.{utc_year}
use dbabstract.Sql.{read_literal, IsUnquoted, IsUnquoted-append, read_literal-open}

-- Bytes of times: digits, and a few others.
abbrev AreOfTimes : Bytes → Type 0
AreOfTimes [] = Unit
AreOfTimes (b ∷ s) = (0 < b) × (b ≢ quote) × AreOfTimes s

times-append : (s t : Bytes) → AreOfTimes s → AreOfTimes t → AreOfTimes (s ++ t)
times-append [] t hs ht = ht
times-append (b ∷ s) t hs ht = (hs.0, hs.1, times-append s t hs.2 ht)

times-NoNul : (s : Bytes) → AreOfTimes s → NoNul s
times-NoNul [] h = tt
times-NoNul (b ∷ s) h = (h.0, times-NoNul s h.2)

times-IsUnquoted : (s : Bytes) → AreOfTimes s → IsUnquoted s
times-IsUnquoted [] h = tt
times-IsUnquoted (b ∷ s) h = (h.1, times-IsUnquoted s h.2)

decimal-AreOfTimes : (left n : ℕ) → AreOfTimes (decimal left n)
unfolding decimal
decimal-AreOfTimes zero n = tt
decimal-AreOfTimes (suc left) n =
    let last : AreOfTimes ((b'0' + n % 10) ∷ []) = (omega arith, omega arith, tt) in
    ground (
      arith,
      times-append (decimal left (n / 10)) ((b'0' + n % 10) ∷ []) (decimal-AreOfTimes left (n / 10))
          last,
    )

-- The numbers of digits.
length-decimal :
    (left n : ℕ)
    → length (decimal (suc left) n) ≡ (if ltb n 10 then 1 else length (decimal left (n / 10)) + 1)
unfolding decimal
length-decimal left n = ground (arith, length-append (decimal left (n / 10)) ((b'0' + n % 10) ∷ []))

pub length-decimal_few : (n : ℕ) → n ≤ 999 → length (decimal 11 n) ≤ 3
length-decimal_few n h =
    ground (arith, length-decimal 10 n, length-decimal 9 (n / 10), length-decimal 8 (n / 10 / 10))

pub length-decimal_many : (n : ℕ) → 10000 ≤ n → 5 ≤ length (decimal 11 n)
length-decimal_many n h = ground (
  arith,
  length-decimal 10 n,
  length-decimal 9 (n / 10),
  length-decimal 8 (n / 10 / 10),
  length-decimal 7 (n / 10 / 10 / 10),
  length-decimal 6 (n / 10 / 10 / 10 / 10),
)

-- The text behind the year has fifteen bytes, none of them a quote or a NUL.
length-format_time :
    (tm : Tm) → length (format_time tm) ≡ length (year_text (tm.tm_year +ℤ pos 1900)) + 15
unfolding format_time two_digits
length-format_time tm = omega (arith, length-append (year_text (tm.tm_year +ℤ pos 1900)))

format_time-AreOfTimes :
    (tm : Tm) (y : ℕ) → tm.tm_year +ℤ pos 1900 ≡ pos y → AreOfTimes (format_time tm)
unfolding format_time two_digits year_text
format_time-AreOfTimes tm y e =
    rw e (times-append (decimal 11 y) _ (decimal-AreOfTimes 11 y) (omega arith))

-- A write behind a first part of the block.
write-behind :
    (pre tail : Bytes) (j v : ℕ)
    → length pre ≤ j
    → j < length pre + length tail
    → write (pre ++ tail) j v ≡ ok (pre ++ set tail (j - length pre) v)
unfolding write
write-behind pre tail j v behind inside =
    let within : ltb j (length (pre ++ tail)) ≡ true = ground (arith, length-append pre tail) in
    rw within (ap ok (set-append pre tail (j - length pre) j v (omega arith)))

opened_block :
    (garbage : ℕ → ℕ)
    → write (new_char garbage 22) 0 quote ≡ ok (quote ∷ new_char (λ i. garbage (suc i)) 21)
unfolding write new_char
opened_block garbage = refl

-- A text that fits behind the opening quote.
store-behind :
    (left : ℕ → ℕ) (first : ℕ) (block text : Bytes)
    → length text ≤ length block
    → store_text left (first ∷ block) 1 20 (some text)
      ≡ ok ((first ∷ text) ++ drop (length text) block)
unfolding store_text write_all
store-behind left first block text fits =
    let room : ltb (length (first ∷ block)) (1 + length text) ≡ false = ground arith in
    let next : 1 + length text ≡ suc (length text) = omega arith in rw room (rw next refl)

-- The closing quote and the NUL, behind the NUL of the text.
close-behind :
    (pre tail : Bytes)
    → length pre ≤ 20
    → length pre + length tail ≡ 22
    → (tail' : Bytes) × (and_then (write (pre ++ tail) 20 quote) (λ b. write b 21 0)
        ≡ ok (pre ++ tail'))
close-behind pre tail short size =
    let tail1 = set tail (20 - length pre) quote in
    let same = length-set tail (20 - length pre) quote in
    (
      set tail1 (21 - length pre) 0,
      rw (write-behind pre tail 20 quote short (omega arith))
          (write-behind pre tail1 21 0 (omega arith) (omega (arith, same))),
    )

-- The block of a text that is too short.
short_block :
    (garbage : ℕ → ℕ) (t : ℤ)
    → length (format_time (gmtime t)) ≤ 18
    → (tail : Bytes) × (time_literal garbage t
        ≡ ok ((quote ∷ (format_time (gmtime t) ++ (0 ∷ []))) ++ tail))
unfolding time_literal strftime
short_block garbage t short =
    let stored = format_time (gmtime t) ++ (0 ∷ []) in
    let size = length-append (format_time (gmtime t)) (0 ∷ []) in
    let g = new_char (λ i. garbage (suc i)) 21 in
    let room = length-new_char (λ i. garbage (suc i)) 21 in
    let opened : write (new_char garbage 22) 0 quote ≡ ok (quote ∷ g) = opened_block garbage in
    let fits : ltb (length (format_time (gmtime t))) 20 ≡ true = ground arith in
    let copied = store-behind (λ i. garbage (22 + i)) quote g stored (omega (arith, size, room)) in
    let (tail, closed) =
      close-behind (quote ∷ stored) (drop (length stored) g) (omega (arith, size))
        (omega (arith, size, room, length-drop (length stored) g)) in
    (tail, rw (opened, fits, copied) closed)

-- For a time of a year from 0 to 999, whatever a new block holds: the body of `unixtimeToSql`
-- returns a block, the C string in it is an opening quote and a text, and with a rest of a
-- statement that holds no quote behind it, it is no string literal.
pub time_literal-unclosed :
    (garbage : ℕ → ℕ) (t : ℤ) (y : ℕ) (rest : Bytes)
    → utc_year t ≡ pos y
    → y ≤ 999
    → IsUnquoted rest
    → (block text : Bytes) × (time_literal garbage t ≡ ok block)
      × (c_string block ≡ ok (quote ∷ text))
      × (read_literal ((quote ∷ text) ++ rest) ≡ none)
unfolding year_text
time_literal-unclosed garbage t y rest e early plain =
    let text = format_time (gmtime t) in
    let ours = format_time-AreOfTimes (gmtime t) y e in
    let digits : length (year_text ((gmtime t).tm_year +ℤ pos 1900)) ≤ 3 =
      rw e (length-decimal_few y early) in
    let (tail, written) =
      short_block garbage t (omega (arith, digits, length-format_time (gmtime t))) in
    (
      (quote ∷ (text ++ (0 ∷ []))) ++ tail,
      text,
      written,
      rw append_assoc (c_string-append (quote ∷ text) tail (omega arith, times-NoNul text ours)),
      read_literal-open (text ++ rest)
          (IsUnquoted-append text rest (times-IsUnquoted text ours) plain),
    )
