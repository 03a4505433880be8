-- ===== src/Odbc/Overflow.antt =====
-- `ODBC_Connection::escape` in dbabstract/odbc/odbc_db.cpp for a text whose literal is too long for the
-- `int` that counts its bytes.
use dbabstract.Prelude.{
  ℕ, ◌+◌, ◌*◌, ◌%◌, ◌^◌, ◌≤◌, ◌<◌, ◌≡◌, refl, [], ◌∷◌, Bytes, arith, length, ◌==◌, length-append,
  Bool-cases, inl, inr,
}
use dbabstract.Effects.{Result, ok, undefined, exited, spinning, and_then}
use dbabstract.C.Memory.{write, new_char}
use dbabstract.C.Num.{increment}
use dbabstract.Convert.{quote}
use dbabstract.Sql.{doubled, doubled_byte, literal}
use dbabstract.Odbc.Connection.{put, escape_byte, escape_loop, escape_block}
use dbabstract.Odbc.Escape.{length-literal}

-- The result is undefined, or has the property.
abbrev Safe : {A : Type 0} → (A → Type 0) → Result A → Type 0
Safe P (ok a) = P a
Safe P undefined = Unit
Safe P exited = ⊥
Safe P spinning = ⊥

Safe-bind :
    {A B : Type 0} (P : A → Type 0) (Q : B → Type 0) (r : Result A) (f : A → Result B)
    → Safe P r
    → ((a : A) → P a → Safe Q (f a))
    → Safe Q (and_then r f)
Safe-bind P Q (ok a) f h k = k a h
Safe-bind P Q undefined f h k = tt
Safe-bind P Q exited f h k = absurd h
Safe-bind P Q spinning f h k = absurd h

Safe-weaken :
    {A : Type 0} (P Q : A → Type 0) (r : Result A) → Safe P r → ((a : A) → P a → Q a) → Safe Q r
Safe-weaken P Q (ok a) h k = k a h
Safe-weaken P Q undefined h k = tt
Safe-weaken P Q exited h k = h
Safe-weaken P Q spinning h k = h

write-Safe : (buf : Bytes) (i v : ℕ) → Safe (λ b. Unit) (write buf i v)
unfolding write
write-Safe buf i v = ground arith

increment-Safe : (n : ℕ) → Safe (λ m. (m ≡ n + 1) × (m < 2 ^ 31)) (increment n)
unfolding increment
increment-Safe n = ground arith

-- So many bytes further, and no further than an `int` counts.
abbrev Moves : ℕ → Bytes × ℕ → Bytes × ℕ → Type 0
Moves n r r1 = (r1.1 ≡ r.1 + n) × (r.1 < 2 ^ 31 → r1.1 < 2 ^ 31)

put-Safe : (r : Bytes × ℕ) (v : ℕ) → Safe (Moves 1 r) (put r v)
unfolding put
put-Safe r v =
    Safe-bind _ _ (write r.0 r.1 v) _ (write-Safe r.0 r.1 v) λ buf h.
      Safe-bind _ _ (increment r.1) _ (increment-Safe r.1) λ pos fits. (fits.0, λ e. fits.1)

escape_byte-Safe :
    (r : Bytes × ℕ) (c : ℕ) → Safe (Moves (length (doubled_byte c)) r) (escape_byte r c)
unfolding escape_byte
escape_byte-Safe r c = elim (Bool-cases (c == quote)) [
  | inl is_quote ↦ rw is_quote (
      Safe-bind (Moves 1 r) (Moves 2 r) (put r quote) _ (put-Safe r quote) λ r1 first.
        Safe-weaken (Moves 1 r1) (Moves 2 r) (put r1 quote) (put-Safe r1 quote)
          λ r2 second. (omega (arith, first.0, second.0), λ e. second.1 (first.1 e)))
  | inr other ↦ rw other (put-Safe r c)
]

escape_loop-Safe :
    (str : Bytes) (i : ℕ) (r : Bytes × ℕ)
    → Safe (Moves (length (doubled str)) r) (escape_loop str i r)
unfolding escape_loop
escape_loop-Safe [] i r = (omega arith, λ e. e)
escape_loop-Safe (c ∷ str) i r =
    Safe-bind (Moves (length (doubled_byte c)) r) (Moves (length (doubled (c ∷ str))) r)
      (escape_byte r c) _ (escape_byte-Safe r c)
      λ r1 one.
        Safe-bind _ (Moves (length (doubled (c ∷ str))) r) (increment i) _ (increment-Safe i)
          λ j next.
            Safe-weaken (Moves (length (doubled str)) r1) (Moves (length (doubled (c ∷ str))) r)
              (escape_loop str j r1) (escape_loop-Safe str j r1)
              λ r2 rest. (
                omega (arith, one.0, rest.0, length-append (doubled_byte c) (doubled str)),
                λ e. rest.1 (one.1 e),
              )

Safe-never : {A : Type 0} (r : Result A) → Safe (λ a. ⊥) r → r ≡ undefined
Safe-never (ok a) h = absurd h
Safe-never undefined h = refl
Safe-never exited h = absurd h
Safe-never spinning h = absurd h

-- If the SQL literal of a text has 2 ^ 31 bytes or more, `escape` of the ODBC driver is
-- undefined, whatever a new block holds.
pub escape_block_overflows :
    (garbage : ℕ → ℕ) (str : Bytes)
    → 2 ^ 31 ≤ length (literal str)
    → escape_block garbage str ≡ undefined
unfolding escape_block
escape_block_overflows garbage str long =
    let block = new_char garbage ((length str * 2 + 4) % 2 ^ 64) in
    Safe-never _ (
      Safe-bind (λ b. Unit) (λ b. ⊥) (write block 0 quote) _ (write-Safe block 0 quote)
        λ b0 opened.
          Safe-bind (Moves (length (doubled str)) (b0, 1)) (λ b. ⊥) (escape_loop str 0 (b0, 1)) _
            (escape_loop-Safe str 0 (b0, 1))
            λ r written.
              Safe-bind (Moves 1 r) (λ b. ⊥) (put r quote) _ (put-Safe r quote)
                λ r1 closed.
                  let inside = closed.1 (written.1 (omega arith)) in
                  absurd (omega (arith, inside, closed.0, written.0, length-literal str, long)))
