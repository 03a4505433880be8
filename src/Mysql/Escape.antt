-- ===== src/Mysql/Escape.antt =====
-- `MySQL_Connection::escape` in dbabstract/mysql/mysql_db.cpp: the block that it fills.
use dbabstract.Prelude.{
  ℕ, ◌+◌, ◌*◌, ◌≤◌, ◌<◌, ◌≡◌, false, [], ◌∷◌, ◌++◌, Bytes, arith, length, ltb, drop, append_assoc,
  length-append, length-drop,
}
use dbabstract.Effects.{ok, and_then}
use dbabstract.C.Memory.{write, write_all, new_char, c_string, NoNul, length-new_char, write-append}
use dbabstract.Convert.{quote}
use dbabstract.Convert.Closing.{end_block}
use dbabstract.Mysql.Connection.{escape_block}

-- Behind the opening quote: the text and its NUL, then the closing quote over the NUL, and a NUL.
close_literal :
    (b : ℕ) (rest escaped : Bytes)
    → length escaped + 2 ≤ length rest
    → NoNul escaped
    → 0 < b
    → (buf : Bytes) × (and_then (write_all (b ∷ rest) 1 (escaped ++ (0 ∷ []))) (λ b1.
          and_then (write b1 (length escaped + 1) quote) (λ b2. write b2 (length escaped + 2) 0))
        ≡ ok buf)
      × (c_string buf ≡ ok (b ∷ (escaped ++ (quote ∷ []))))
unfolding write_all
close_literal b rest escaped h nonul front =
    let text = escaped ++ (0 ∷ []) in
    let left = drop (1 + length text) (b ∷ rest) in
    let size : length text ≡ length escaped + 1 = omega (arith, length-append escaped (0 ∷ [])) in
    let fits : ltb (length (b ∷ rest)) (1 + length text) ≡ false = ground (arith, size) in
    let e =
      end_block (b ∷ escaped) (0 ∷ left)
        (omega (arith, length-drop (1 + length text) (b ∷ rest), size)) in
    let one : length escaped + 1 ≡ length (b ∷ escaped) = omega arith in
    let two : length escaped + 2 ≡ length (b ∷ escaped) + 1 = omega arith in
    (e.block, rw (fits, append_assoc, one, two) e.returns, e.text (front, nonul))

-- The steps of `escape` on a block of that size.
escape_in :
    (block escaped : Bytes)
    → NoNul escaped
    → length escaped + 3 ≤ length block
    → (buf : Bytes) × (and_then (write block 0 quote) (λ b0.
          and_then (write_all b0 1 (escaped ++ (0 ∷ []))) (λ b1.
            and_then (write b1 (length escaped + 1) quote) (λ b2. write b2 (length escaped + 2) 0)))
        ≡ ok buf)
      × (c_string buf ≡ ok (quote ∷ (escaped ++ (quote ∷ []))))
escape_in [] escaped nonul h = absurd (omega arith)
escape_in (b ∷ rest) escaped nonul h =
    rw (write-append [] b rest quote)
      (close_literal quote rest escaped (omega arith) nonul (omega arith))

-- If the text that `mysql_escape_string` makes is at most twice as long as its argument and holds
-- no NUL, whatever a new block holds: `escape` writes within its block, and the C string that it
-- returns is the library's text between two quotes.
pub escape_block-quotes :
    (garbage : ℕ → ℕ) (str escaped : Bytes)
    → length escaped ≤ 2 * length str
    → NoNul escaped
    → (buf : Bytes) × (escape_block garbage str escaped ≡ ok buf)
      × (c_string buf ≡ ok (quote ∷ (escaped ++ (quote ∷ []))))
unfolding escape_block
escape_block-quotes garbage str escaped h nonul =
    escape_in (new_char garbage (length str * 2 + 4)) escaped nonul
      (omega (arith, length-new_char garbage (length str * 2 + 4)))
