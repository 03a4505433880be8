-- ===== src/Convert/Closing.antt =====
-- The end of a block that becomes a literal: `buf[n] = '\''; buf[n + 1] = 0;`.
use dbabstract.Prelude.{
  ℕ, ◌+◌, ◌≤◌, ◌≡◌, sym, ap, [], ◌∷◌, ◌++◌, Bytes, arith, length, append_assoc, length-append, ◌∙◌,
}
use dbabstract.Effects.{Result, ok, and_then}
use dbabstract.C.Memory.{write, c_string, NoNul, NoNul-append, c_string-append, write-append}
use dbabstract.Convert.{quote}

pub write_next :
    (done : Bytes) (b : ℕ) (rest : Bytes) (v : ℕ)
    → write (done ++ (b ∷ rest)) (length done) v ≡ ok ((done ++ (v ∷ [])) ++ rest)
write_next done b rest v =
    write-append done b rest v ∙ ap ok (sym (append_assoc done (v ∷ []) rest))

pub length_next : (done : Bytes) (v : ℕ) → length done + 1 ≡ length (done ++ (v ∷ []))
length_next done v = omega (arith, length-append done (v ∷ []))

-- The closing quote and the NUL.
pub record Ended (done tail : Bytes) (r : Result Bytes) : Type 0 where
  pub block : Bytes
  pub returns : r ≡ ok block
  pub same_length : length block ≡ length done + length tail
  pub text : NoNul done → c_string block ≡ ok (done ++ (quote ∷ []))

pub end_block :
    (done tail : Bytes)
    → 2 ≤ length tail
    → Ended done tail
        (and_then (write (done ++ tail) (length done) quote) (λ b. write b (length done + 1) 0))
end_block done [] h = absurd (omega arith)
end_block done (a ∷ []) h = absurd (omega arith)
end_block done (a ∷ (b ∷ tail)) h = record {
  block = (done ++ (quote ∷ [])) ++ (0 ∷ tail);
  returns =
      rw (write_next done a (b ∷ tail) quote, length_next done quote)
        (write-append (done ++ (quote ∷ [])) b tail 0);
  same_length =
      omega
        (arith, length-append (done ++ (quote ∷ [])) (0 ∷ tail), length-append done (quote ∷ []));
  text = λ h.
      c_string-append (done ++ (quote ∷ [])) tail (NoNul-append done (quote ∷ []) h (omega arith));
}
