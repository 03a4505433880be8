-- ===== src/C/Memory.antt =====
-- A block of `char` from `new char[n]`. It holds arbitrary bytes until it is written, and a read or
-- write past its end is undefined.
use dbabstract.Prelude.{
  ℕ, zero, suc, false, append_assoc, length-append, ap, ◌+◌, ◌<◌, ◌≡◌, refl, [], ◌∷◌, ◌++◌, arith,
  Bytes, length, set, take, drop, ltb, ◌==◌, if◌then◌else◌,
}
use dbabstract.Effects.{Result, ok, undefined, map_result, and_then}

-- `buf[i] = v`
unfoldable pub write : Bytes → ℕ → ℕ → Result Bytes
write buf i v = if ltb i (length buf) then ok (set buf i v) else undefined

-- Bytes from `i` on are overwritten, as by `strcpy` with no terminator.
unfoldable pub write_all : Bytes → ℕ → Bytes → Result Bytes
write_all buf i vs =
    if ltb (length buf) (i + length vs)
    then undefined
    else ok (take i buf ++ (vs ++ drop (i + length vs) buf))

-- The C string that starts in a block: the bytes before the first NUL. There must be one.
unfoldable pub c_string : Bytes → Result Bytes
c_string [] = undefined
c_string (b ∷ buf) =
    let rest = map_result (λ s. b ∷ s) (c_string buf) in if b == 0 then ok [] else rest

-- A text holds no NUL.
abbrev pub NoNul : Bytes → Type 0
NoNul [] = Unit
NoNul (b ∷ s) = (0 < b) × NoNul s

pub write-append :
    (done : Bytes) (b : ℕ) (rest : Bytes) (v : ℕ)
    → write (done ++ (b ∷ rest)) (length done) v ≡ ok (done ++ (v ∷ rest))
unfolding write
write-append [] b rest v = ground arith
write-append (d ∷ done) b rest v = ground (arith, write-append done b rest v)

pub c_string-append : (s : Bytes) (rest : Bytes) → NoNul s → c_string (s ++ (0 ∷ rest)) ≡ ok s
unfolding c_string
c_string-append [] rest h = refl
c_string-append (b ∷ s) rest h = ground (arith, c_string-append s rest h.1)

pub NoNul-append : (s t : Bytes) → NoNul s → NoNul t → NoNul (s ++ t)
NoNul-append [] t hs ht = ht
NoNul-append (b ∷ s) t hs ht = (hs.0, NoNul-append s t hs.1 ht)

-- `new char[n]`: `garbage` gives the bytes that happen to be there.
unfoldable pub new_char : (ℕ → ℕ) → ℕ → Bytes
new_char garbage zero = []
new_char garbage (suc n) = garbage 0 ∷ new_char (λ i. garbage (suc i)) n

pub length-new_char : (garbage : ℕ → ℕ) (n : ℕ) → length (new_char garbage n) ≡ n
unfolding new_char
length-new_char garbage zero = refl
length-new_char garbage (suc n) = ap suc (length-new_char (λ i. garbage (suc i)) n)

-- `strcpy` into a new block that the text and its NUL fill: the block holds the text.
pub new_copy :
    (garbage : ℕ → ℕ) (s : Bytes)
    → NoNul s
    → (buf : Bytes) × (write_all (new_char garbage (length s + 1)) 0 (s ++ (0 ∷ [])) ≡ ok buf)
      × (c_string buf ≡ ok s)
unfolding write_all
new_copy garbage s h =
    let block = new_char garbage (length s + 1) in
    let text = s ++ (0 ∷ []) in
    let fits : ltb (length block) (0 + length text) ≡ false =
      ground (arith, length-new_char garbage (length s + 1), length-append s (0 ∷ [])) in
    (
      text ++ drop (0 + length text) block,
      rw fits,
      rw append_assoc (c_string-append s (drop (0 + length text) block) h),
    )

-- `strcat(buf, s)`: `s` and a NUL go where the first NUL of the block is.
unfoldable pub strcat : Bytes → Bytes → Result Bytes
strcat buf s = and_then (c_string buf) (λ before. write_all buf (length before) (s ++ (0 ∷ [])))
