-- ===== src/Odbc/Escape.antt =====
-- `ODBC_Connection::escape` in dbabstract/odbc/odbc_db.cpp: its loop, and the block that it fills.
use dbabstract.Prelude.{
  ℕ, ◌+◌, ◌*◌, ◌%◌, ◌^◌, ◌≤◌, ◌<◌, ◌≡◌, refl, sym, ap, ap₂, [], ◌∷◌, ◌++◌, Bytes, arith, length,
  ◌==◌, append_assoc, append-nil, length-append, Bool-cases, inl, inr, ◌∙◌,
}
use dbabstract.Effects.{Result, ok, undefined, exited, spinning, and_then}
use dbabstract.C.Memory.{write, new_char, c_string, NoNul, length-new_char, write-append}
use dbabstract.C.Num.{increment}
use dbabstract.Convert.{quote}
use dbabstract.Convert.Closing.{write_next, length_next, end_block}
use dbabstract.Sql.{doubled, doubled_byte, literal, doubled-NoNul, length-doubled}
use dbabstract.Odbc.Connection.{put, escape_byte, escape_loop, escape_block}

increment_fits : (n : ℕ) → n + 1 < 2 ^ 31 → increment n ≡ ok (n + 1)
unfolding increment
increment_fits n h = ground arith

-- One more byte.
put_next :
    (done : Bytes) (b : ℕ) (rest : Bytes) (v : ℕ)
    → length done + 1 < 2 ^ 31
    → put (done ++ (b ∷ rest), length done) v
      ≡ ok ((done ++ (v ∷ [])) ++ rest, length (done ++ (v ∷ [])))
unfolding put
put_next done b rest v h =
    rw (write_next done b rest v, increment_fits (length done) h, length_next done v) refl

-- What the loop leaves behind the bytes `done` that are written already.
record Written (done str rest : Bytes) (r : Result (Bytes × ℕ)) : Type 0 where
  tail : Bytes
  returns : r ≡ ok (done ++ (doubled str ++ tail), length (done ++ doubled str))
  room : length tail + length (doubled str) ≡ length rest

-- What it writes for one byte.
record ByteWritten (done : Bytes) (c : ℕ) (rest : Bytes) (r : Result (Bytes × ℕ)) : Type 0 where
  tail : Bytes
  returns : r ≡ ok ((done ++ doubled_byte c) ++ tail, length (done ++ doubled_byte c))
  room : length tail + length (doubled_byte c) ≡ length rest

escape_byte-ByteWritten :
    (done : Bytes) (c : ℕ) (rest : Bytes)
    → 2 ≤ length rest
    → length done + length (doubled_byte c) < 2 ^ 31
    → ByteWritten done c rest (escape_byte (done ++ rest, length done) c)
unfolding escape_byte
escape_byte-ByteWritten done c [] h fits = absurd (omega arith)
escape_byte-ByteWritten done c (b ∷ []) h fits = absurd (omega arith)
escape_byte-ByteWritten done c (b ∷ (b' ∷ rest)) h fits = elim (Bool-cases (c == quote)) [
  | inl is_quote ↦
      let two : length done + 2 < 2 ^ 31 = omega (arith, rw is_quote at fits) in
      record {
        tail = rest;
        returns =
            rw
              (
                is_quote,
                put_next done b (b' ∷ rest) quote (omega arith),
                put_next (done ++ (quote ∷ [])) b' rest quote
                    (omega (arith, length-append done (quote ∷ []))),
                append_assoc done (quote ∷ []) (quote ∷ []),
              )
              refl;
        room = rw is_quote (omega arith);
      }
  | inr other ↦
      let one : length done + 1 < 2 ^ 31 = omega (arith, rw other at fits) in
      record {
        tail = b' ∷ rest;
        returns = rw (other, put_next done b (b' ∷ rest) c one) refl;
        room = rw other (omega arith);
      }
]

-- One byte more: what the loop writes for `c`, and then for the rest of the text.
extend :
    (c : ℕ) (str done rest rest0 : Bytes) (r : Result (Bytes × ℕ))
    → length rest + length (doubled_byte c) ≡ length rest0
    → Written (done ++ doubled_byte c) str rest r
    → Written done (c ∷ str) rest0 r
extend c str done rest rest0 r e w = record {
  tail = w.tail;
  returns =
      w.returns
      ∙ ap₂ (λ block n. ok (block, n))
          (append_assoc done (doubled_byte c) _
            ∙ ap (λ l. done ++ l) (sym (append_assoc (doubled_byte c) (doubled str) w.tail)))
          (ap length (append_assoc done (doubled_byte c) (doubled str)));
  room = omega (arith, w.room, length-append (doubled_byte c) (doubled str));
}

length-doubled_byte : (c : ℕ) → length (doubled_byte c) ≤ 2
length-doubled_byte c = ground arith

escape_loop-Written :
    (str : Bytes) (i : ℕ) (done rest : Bytes)
    → 2 * length str ≤ length rest
    → length done + length (doubled str) < 2 ^ 31
    → i + length str < 2 ^ 31
    → Written done str rest (escape_loop str i (done ++ rest, length done))
unfolding escape_loop
escape_loop-Written [] i done rest h fits few = record {
  tail = rest;
  returns = ap (λ l. ok (done ++ rest, length l)) (sym (append-nil done));
  room = omega arith;
}
escape_loop-Written (c ∷ str) i done rest h fits few =
    let size = length-append (doubled_byte c) (doubled str) in
    let one = escape_byte-ByteWritten done c rest (omega arith) (omega (arith, size)) in
    rw (one.returns, increment_fits i (omega arith))
      (extend c str done one.tail rest _ one.room (
        escape_loop-Written str (i + 1) (done ++ doubled_byte c) one.tail
          (omega (arith, one.room, length-doubled_byte c))
          (omega (arith, size, length-append done (doubled_byte c))) (omega arith)))

length-doubled_least : (str : Bytes) → length str ≤ length (doubled str)
length-doubled_least [] = omega arith
length-doubled_least (c ∷ str) = ground (arith, length-doubled_least str)

-- How long the literal is.
pub length-literal : (str : Bytes) → length (literal str) ≡ length (doubled str) + 2
length-literal str = omega (arith, length-append (doubled str) (quote ∷ []))

then_end :
    (r : Result Bytes) (p : ℕ)
    → and_then (and_then {B = Bytes × ℕ} r (λ buf. ok (buf, p))) (λ r1. write r1.0 r1.1 0)
      ≡ and_then r (λ buf. write buf p 0)
then_end (ok buf) p = refl
then_end undefined p = refl
then_end exited p = refl
then_end spinning p = refl

put_end :
    (block : Bytes) (p : ℕ)
    → p + 1 < 2 ^ 31
    → and_then (put (block, p) quote) (λ r1. write r1.0 r1.1 0)
      ≡ and_then (write block p quote) (λ buf. write buf (p + 1) 0)
unfolding put
put_end block p h = rw (increment_fits p h) (then_end (write block p quote) (p + 1))

-- The steps of `escape` on a block of that size.
escape_in :
    (block str : Bytes)
    → NoNul str
    → length block ≡ length str * 2 + 4
    → length (literal str) < 2 ^ 31
    → (buf : Bytes) × (and_then (write block 0 quote) (λ b0.
          and_then
            (escape_loop str 0 (b0, 1))
            (λ r. and_then (put r quote) (λ r1. write r1.0 r1.1 0)))
        ≡ ok buf)
      × (length buf ≡ length str * 2 + 4)
      × (c_string buf ≡ ok (literal str))
escape_in [] str h e few = absurd (omega arith)
escape_in (b ∷ rest) str h e few =
    let size = length-literal str in
    let w =
      escape_loop-Written str 0 (quote ∷ []) rest (omega arith) (omega (arith, size))
        (omega (arith, size, length-doubled_least str)) in
    let e2 = end_block (quote ∷ doubled str) w.tail (omega (arith, w.room, length-doubled str)) in
    (
      e2.block,
      rw
          (
            write-append [] b rest quote,
            w.returns,
            put_end (quote ∷ (doubled str ++ w.tail)) (length (quote ∷ doubled str))
                (omega (arith, size)),
          )
          e2.returns,
      omega (arith, e2.same_length, w.room),
      e2.text (omega arith, doubled-NoNul str h),
    )

-- For a text that holds no NUL and whose SQL literal has less than 2 ^ 31 bytes, whatever a new
-- block holds: every write of `escape` is inside its block of 2 n + 4 bytes, its counters do not
-- overflow, and the C string that it returns is the SQL literal of the text, with each quote
-- doubled between two quotes.
pub escape_block-literal :
    (garbage : ℕ → ℕ) (str : Bytes)
    → NoNul str
    → length (literal str) < 2 ^ 31
    → (buf : Bytes) × (escape_block garbage str ≡ ok buf)
      × (length buf ≡ length str * 2 + 4)
      × (c_string buf ≡ ok (literal str))
unfolding escape_block
escape_block-literal garbage str h few =
    let size = length-literal str in
    let least = length-doubled_least str in
    let whole : (length str * 2 + 4) % 2 ^ 64 ≡ length str * 2 + 4 =
      omega (arith, size, least, few) in
    rw whole (
      escape_in (new_char garbage (length str * 2 + 4)) str h
        (length-new_char garbage (length str * 2 + 4)) few)
