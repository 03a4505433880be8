-- ===== src/Pq/Escape.antt =====
-- `PQ_Connection::escape` in dbabstract/pq/pq_db.cpp, which appends to a block that is not initialised.
use dbabstract.Prelude.{
  ℕ, zero, suc, ◌+◌, ◌<◌, ◌≡◌, ◌≢◌, refl, ap, true, false, [], ◌∷◌, ◌++◌, Bytes, arith, length, ltb,
  set, drop, append_assoc, length-append, length-drop, set-append, ◌==◌, ◌∙◌,
}
use dbabstract.Effects.{ok, undefined, and_then}
use dbabstract.C.Memory.{
  write, write_all, new_char, c_string, strcat, NoNul, length-new_char, c_string-append,
}
use dbabstract.Pq.Connection.{escape_block}

c_string_none :
    (garbage : ℕ → ℕ) (n : ℕ)
    → ((i : ℕ) → garbage i ≢ 0)
    → c_string (new_char garbage n) ≡ undefined
unfolding c_string new_char
c_string_none garbage zero h = refl
c_string_none garbage (suc n) h =
    let filled : (garbage 0 == 0) ≡ false = ground (arith, h 0) in
    rw (filled, c_string_none (λ i. garbage (suc i)) n (λ i. h (suc i)))

-- If no byte of the new block happens to be a NUL, the `escape` of the PostgreSQL driver reads
-- past the end of the block, for every text.
pub escape_block_undefined :
    (garbage : ℕ → ℕ) (escaped : Bytes)
    → ((i : ℕ) → garbage i ≢ 0)
    → escape_block garbage escaped ≡ undefined
unfolding escape_block strcat
escape_block_undefined garbage escaped h = rw (c_string_none garbage (length escaped + 4) h)

c_string_empty :
    (garbage : ℕ → ℕ) (n : ℕ) → garbage 0 ≡ 0 → 0 < n → c_string (new_char garbage n) ≡ ok []
unfolding c_string new_char
c_string_empty garbage zero h pos_n = absurd (omega arith)
c_string_empty garbage (suc n) h pos_n = rw h

-- The two writes of `escape`, once `strcat` starts at the front.
over_block :
    (block escaped : Bytes)
    → length block ≡ length escaped + 4
    → NoNul escaped
    → (buf : Bytes) × (and_then
          (write_all block 0 (escaped ++ (0 ∷ [])))
          (λ b. write b (length escaped + 1) 0)
        ≡ ok buf)
      × (c_string buf ≡ ok escaped)
unfolding write_all write
over_block block escaped e nonul =
    let text = escaped ++ (0 ∷ []) in
    let rest = drop (0 + length text) block in
    let size : length text ≡ length escaped + 1 = omega (arith, length-append escaped (0 ∷ [])) in
    let fits : ltb (length block) (0 + length text) ≡ false = ground (arith, size, e) in
    let inside : ltb (length escaped + 1) (length (text ++ rest)) ≡ true =
      ground (arith, length-append text rest, length-drop (0 + length text) block, size, e) in
    (
      escaped ++ (0 ∷ set rest 0 0),
      rw (fits, inside)
          (ap (λ b. ok (set b (length escaped + 1) 0)) (append_assoc escaped (0 ∷ []) rest)
            ∙ ap ok (set-append escaped (0 ∷ rest) 1 (length escaped + 1) 0 refl)),
      c_string-append escaped (set rest 0 0) nonul,
    )

-- If the new block happens to begin with a NUL, and libpq's text holds none: the `escape` of the
-- PostgreSQL driver stays inside the block, and the C string in it is libpq's text.
pub escape_block_copies :
    (garbage : ℕ → ℕ) (escaped : Bytes)
    → garbage 0 ≡ 0
    → NoNul escaped
    → (buf : Bytes) × (escape_block garbage escaped ≡ ok buf) × (c_string buf ≡ ok escaped)
unfolding escape_block strcat
escape_block_copies garbage escaped h nonul =
    rw (c_string_empty garbage (length escaped + 4) h (omega arith)) (
      over_block (new_char garbage (length escaped + 4)) escaped
        (length-new_char garbage (length escaped + 4)) nonul)
