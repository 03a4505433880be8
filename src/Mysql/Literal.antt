-- ===== src/Mysql/Literal.antt =====
-- String literals as MySQL reads them by default, and what its library documents of
-- `mysql_escape_string`, which `MySQL_Connection::escape` (dbabstract/mysql/mysql_db.cpp) calls.
use dbabstract.Prelude.{
  ℕ, ◌*◌, ◌≤◌, ◌≡◌, refl, [], ◌∷◌, ◌++◌, Bytes, Option, none, some, arith, length, append_assoc,
  length-append, ◌==◌, if◌then◌else◌,
}
use dbabstract.Effects.{Log, ok}
use dbabstract.C.Memory.{c_string, NoNul, NoNul-append}
use dbabstract.Convert.{quote}
use dbabstract.Sql.{NotQuoted}
use dbabstract.Mysql.{Event, Api}
use dbabstract.Mysql.Connection.{MysqlConnection, escape}
use dbabstract.Mysql.Escape.{escape_block-quotes}

abbrev pub backslash : ℕ
backslash = 92

-- What a byte becomes: NUL, newline, return, control-Z, both quotes and the backslash are written as a
-- backslash and a letter.
abbrev pub backslashed_byte : ℕ → Bytes
backslashed_byte c =
    if c == 0
    then backslash ∷ b'0' ∷ []
    else if c == 10
    then backslash ∷ b'n' ∷ []
    else if c == 13
    then backslash ∷ b'r' ∷ []
    else if c == 26
    then backslash ∷ b'Z' ∷ []
    else if c == quote
    then backslash ∷ quote ∷ []
    else if c == b'"'
    then backslash ∷ b'"' ∷ []
    else if c == backslash
    then backslash ∷ backslash ∷ []
    else c ∷ []

abbrev pub backslashed : Bytes → Bytes
backslashed [] = []
backslashed (c ∷ s) = backslashed_byte c ++ backslashed s

-- What a letter behind a backslash stands for.
abbrev meaning : ℕ → ℕ
meaning l =
    if l == b'0'
    then 0
    else if l == b'n'
    then 10
    else if l == b'r'
    then 13
    else if l == b'Z'
    then 26
    else l

-- Inside a literal, behind a backslash in it, and behind a quote in it.
pub data Place : Type 0 where
  inside : Place
  behind_backslash : Place
  behind_quote : Place

abbrev prepend : ℕ → Option (Bytes × Bytes) → Option (Bytes × Bytes)
prepend c none = none
prepend c (some (s, rest)) = some (c ∷ s, rest)

-- The text of a literal, and what follows it.
unfoldable pub read_from : Place → Bytes → Option (Bytes × Bytes)
read_from behind_backslash [] = none
read_from behind_backslash (l ∷ s) = prepend (meaning l) (read_from inside s)
read_from behind_quote [] = some ([], [])
read_from behind_quote (c ∷ s) =
    let more = read_from inside s in if c == quote then prepend quote more else some ([], c ∷ s)
read_from inside [] = none
read_from inside (c ∷ s) =
    let slashed = read_from behind_backslash s in
    let quoted = read_from behind_quote s in
    let more = read_from inside s in
    if c == backslash then slashed else if c == quote then quoted else prepend c more

unfoldable pub read_text : Bytes → Option (Bytes × Bytes)
read_text [] = none
read_text (c ∷ s) = if c == quote then read_from inside s else none

read-backslashed_byte :
    (c : ℕ) (t : Bytes)
    → read_from inside (backslashed_byte c ++ t) ≡ prepend c (read_from inside t)
unfolding read_from
read-backslashed_byte c t = ground arith

read_end : (rest : Bytes) → NotQuoted rest → read_from behind_quote rest ≡ some ([], rest)
unfolding read_from
read_end [] h = refl
read_end (c ∷ rest) h = ground arith

read-backslashed :
    (s rest : Bytes)
    → NotQuoted rest
    → read_from inside (backslashed s ++ (quote ∷ rest)) ≡ some (s, rest)
read-backslashed [] rest h = unfold read_from in read_end rest h
read-backslashed (c ∷ s) rest h = rw (
  append_assoc,
  read-backslashed_byte c (backslashed s ++ (quote ∷ rest)),
  read-backslashed s rest h,
)

backslashed_byte-NoNul : (c : ℕ) → NoNul (backslashed_byte c)
backslashed_byte-NoNul c = ground arith

backslashed-NoNul : (s : Bytes) → NoNul (backslashed s)
backslashed-NoNul [] = tt
backslashed-NoNul (c ∷ s) =
    NoNul-append (backslashed_byte c) (backslashed s) (backslashed_byte-NoNul c)
      (backslashed-NoNul s)

length-backslashed_byte : (c : ℕ) → length (backslashed_byte c) ≤ 2
length-backslashed_byte c = ground arith

length-backslashed : (s : Bytes) → length (backslashed s) ≤ 2 * length s
length-backslashed [] = omega arith
length-backslashed (c ∷ s) = omega (
  arith,
  length-append (backslashed_byte c) (backslashed s),
  length-backslashed_byte c,
  length-backslashed s,
)

module _ (api : Api) where
  -- What the library documents of `mysql_escape_string`.
  abbrev pub EscapesByBackslash : Type 0
  EscapesByBackslash = (s : Bytes) → api.escape_string s ≡ backslashed s

  -- With a library that escapes by backslashes as it documents, whatever a new block holds: the
  -- MySQL `escape` returns a block whose C string is read as one string literal of that very
  -- text, whatever follows it in the statement, if that does not begin with a quote.
  pub escape-contained :
      EscapesByBackslash
      → (str rest : Bytes) (c : MysqlConnection) (log : Log Event) → NotQuoted rest
      → (buf text : Bytes) × (escape api str c log ≡ ok (buf, log))
        × (c_string buf ≡ ok text)
        × (read_text (text ++ rest) ≡ some (str, rest))
  unfolding escape read_text
  escape-contained documented str rest c log open_end =
      let (buf, written, text) =
        escape_block-quotes (api.garbage log) str (backslashed str) (length-backslashed str)
          (backslashed-NoNul str) in
      (
        buf,
        quote ∷ (backslashed str ++ (quote ∷ [])),
        rw (documented str, written),
        text,
        rw append_assoc (read-backslashed str rest open_end),
      )
