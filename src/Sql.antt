-- ===== src/Sql.antt =====
-- The specification of an SQL string literal: a quote, the text with its quotes doubled, a quote.
use dbabstract.Prelude.{
  ℕ, ◌*◌, ◌≤◌, ◌≡◌, ◌≢◌, refl, Bool, true, false, [], ◌∷◌, ◌++◌, Bytes, Option, none, some, ◌==◌,
  if◌then◌else◌, arith, length, append_assoc,
}
use dbabstract.C.Memory.{NoNul, NoNul-append}
use dbabstract.Convert.{quote}

-- What one byte becomes inside a literal.
abbrev pub doubled_byte : ℕ → Bytes
doubled_byte c = if c == quote then quote ∷ quote ∷ [] else c ∷ []

abbrev pub doubled : Bytes → Bytes
doubled [] = []
doubled (c ∷ s) = doubled_byte c ++ doubled s

abbrev pub literal : Bytes → Bytes
literal s = quote ∷ (doubled s ++ (quote ∷ []))

abbrev prepend : ℕ → Option (Bytes × Bytes) → Option (Bytes × Bytes)
prepend c none = none
prepend c (some (s, rest)) = some (c ∷ s, rest)

-- A reader of literals: the text of the literal, and what follows it. Behind a quote (`true`) the
-- next byte decides whether the literal has ended.
pub read_body : Bool → Bytes → Option (Bytes × Bytes)
read_body true [] = some ([], [])
read_body true (c ∷ s) = if c == quote then prepend quote (read_body false s) else some ([], c ∷ s)
read_body false [] = none
read_body false (c ∷ s) =
    let ended = read_body true s in
    let more = prepend c (read_body false s) in if c == quote then ended else more

pub read_literal : Bytes → Option (Bytes × Bytes)
read_literal [] = none
read_literal (c ∷ s) = if c == quote then read_body false s else none

-- What follows a literal does not begin with another quote.
abbrev pub NotQuoted : Bytes → Type 0
NotQuoted [] = Unit
NotQuoted (c ∷ s) = c ≢ quote

read_end : (rest : Bytes) → NotQuoted rest → read_body true rest ≡ some ([], rest)
unfolding read_body
read_end [] h = refl
read_end (c ∷ rest) h = ground arith

read-doubled :
    (s rest : Bytes)
    → NotQuoted rest
    → read_body false (doubled s ++ (quote ∷ rest)) ≡ some (s, rest)
unfolding read_body
read-doubled [] rest h = read_end rest h
read-doubled (c ∷ s) rest h = ground (arith, read-doubled s rest h)

-- A literal is read back to the text, and nothing of the text leaks out of it.
pub read-literal :
    (s rest : Bytes) → NotQuoted rest → read_literal (literal s ++ rest) ≡ some (s, rest)
unfolding read_literal
read-literal s rest h = rw append_assoc (read-doubled s rest h)

pub doubled-NoNul : (s : Bytes) → NoNul s → NoNul (doubled s)
doubled-NoNul [] h = tt
doubled-NoNul (c ∷ s) h = ground (arith, doubled-NoNul s h.1)

pub literal-NoNul : (s : Bytes) → NoNul s → NoNul (literal s)
literal-NoNul s h =
    (omega arith, NoNul-append (doubled s) (quote ∷ []) (doubled-NoNul s h) (omega arith))

pub length-doubled : (s : Bytes) → length (doubled s) ≤ 2 * length s
length-doubled [] = omega arith
length-doubled (c ∷ s) = ground (arith, length-doubled s)

-- No byte of a text closes a literal.
abbrev pub IsUnquoted : Bytes → Type 0
IsUnquoted [] = Unit
IsUnquoted (b ∷ s) = (b ≢ quote) × IsUnquoted s

pub IsUnquoted-append : (s t : Bytes) → IsUnquoted s → IsUnquoted t → IsUnquoted (s ++ t)
IsUnquoted-append [] t hs ht = ht
IsUnquoted-append (b ∷ s) t hs ht = (hs.0, IsUnquoted-append s t hs.1 ht)

read_open : (s : Bytes) → IsUnquoted s → read_body false s ≡ none
unfolding read_body
read_open [] h = refl
read_open (b ∷ s) h = ground (arith, read_open s h.1)

-- A literal that no quote closes is none.
pub read_literal-open : (s : Bytes) → IsUnquoted s → read_literal (quote ∷ s) ≡ none
unfolding read_literal
read_literal-open s h = read_open s h
