-- ===== src/Convert/Columns.antt =====
-- The loop of `findColumn` (dbabstract/mysql, dbabstract/pq and dbabstract/sqlite3).
use dbabstract.Prelude.{
  ℕ, zero, suc, ◌+◌, ◌<◌, ◌≤◌, ◌≡◌, ◌≢◌, refl, ap, ◌==◌, false, Bytes, Option, some, arith,
  Bool-cases, inl, inr, ◌⊎◌, ◌∙◌,
}
use dbabstract.Effects.{ok}
use dbabstract.C.Str.{str_eq, str_eq_iff}
use dbabstract.Convert.{find_column_from}

-- `r` is the first column from `i` on with the name `fld`, or `end` if there is none.
pub record IsFirstColumn (name : ℕ → Option Bytes) (fld : Bytes) (i end r : ℕ) : Type 0 where
  pub from : i ≤ r
  pub to : r ≤ end
  pub earlier : (j : ℕ) → i ≤ j → j < r → name j ≢ some fld
  pub found : (r ≡ end) ⊎ (name r ≡ some fld)

abbrev pub Named : (ℕ → Option Bytes) → ℕ → Type 0
Named name n = (j : ℕ) → j < n → (s : Bytes) × (name j ≡ some s)

-- Column `i` has another name, and the search behind it is right.
passed :
    (name : ℕ → Option Bytes) (fld : Bytes) (i left r : ℕ) (s : Bytes)
    → name i ≡ some s
    → str_eq s fld ≡ false
    → IsFirstColumn name fld (i + 1) (i + 1 + left) r
    → IsFirstColumn name fld i (i + suc left) r
passed name fld i left r s e other first = record {
  from = omega (arith, first.from);
  to = omega (arith, first.to);
  earlier = λ j lo hi. elim (Bool-cases (i == j)) [
    | inl same ↦ λ named.
        let j_is : i ≡ j = ground arith in
        let text : s ≡ fld = cc (e, named, j_is) in cc (other, (str_eq_iff s fld).1 text)
    | inr different ↦ first.earlier j (ground arith) hi
  ];
  found = elim first.found [ inl end ↦ inl (omega arith) | inr named ↦ inr named ];
}

-- If the library names every column up to the end of the search: the loop of `findColumn` answers
-- the first column of the name searched, or the number behind the last one if there is none.
pub find_column-IsFirstColumn :
    (name : ℕ → Option Bytes) (fld : Bytes) (left i : ℕ)
    → Named name (i + left)
    → (r : ℕ) × (find_column_from name fld left i ≡ ok r) × IsFirstColumn name fld i (i + left) r
unfolding find_column_from
find_column-IsFirstColumn name fld zero i h = (
  i,
  refl,
  record {
    from = omega arith;
    to = omega arith;
    earlier = λ j lo hi. absurd (omega arith);
    found = inl (omega arith);
  },
)
find_column-IsFirstColumn name fld (suc left) i h =
    let (s, e) = h i (omega arith) in
    elim (Bool-cases (str_eq s fld)) [
      | inl same ↦ (
        i,
        rw (e, same),
        record {
          from = omega arith;
          to = omega arith;
          earlier = λ j lo hi. absurd (omega arith);
          found = inr (e ∙ ap some ((str_eq_iff s fld).0 same));
        },
      )
      | inr other ↦
          let (r, re, first) =
            find_column-IsFirstColumn name fld left (i + 1) (λ j lt. h j (omega arith)) in
          (r, rw (e, other) re, passed name fld i left r s e other first)
    ]
