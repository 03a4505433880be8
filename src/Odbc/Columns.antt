-- ===== src/Odbc/Columns.antt =====
-- `ODBC_ResultSet::findColumn` in dbabstract/odbc/odbc_db.cpp.
use dbabstract.Prelude.{
  ℕ, zero, suc, ◌+◌, ◌<◌, ◌≤◌, ◌≡◌, ◌≢◌, ◌⊎◌, inl, inr, ap, true, false, Bytes, arith, ◌==◌,
  Bool-cases, ◌∙◌,
}
use dbabstract.Effects.{ok}
use dbabstract.C.Str.{str_eq, str_eq_iff}
use dbabstract.Odbc.{Api, World, success}
use dbabstract.Odbc.ResultSet.{OdbcResultSet, find_column, find_from}

module _ (api : Api) (hstmt : ℕ) (fld : Bytes) where
  -- Columns `i` up to `end` can be described, and have the names `name`.
  abbrev pub Described : (ℕ → Bytes) → ℕ → ℕ → Type 0
  Described name i end = (j : ℕ) → i ≤ j → j < end → api.describe_col hstmt j ≡ (success, name j)

  pub record IsFirst (name : ℕ → Bytes) (i end r : ℕ) : Type 0 where
    pub from : i ≤ r
    pub to : r ≤ end
    pub earlier : (j : ℕ) → i ≤ j → j < r → name j ≢ fld
    pub found : (r ≡ end) ⊎ (name r ≡ fld)

  find_here :
      (name : ℕ → Bytes) (left i : ℕ)
      → api.describe_col hstmt i ≡ (success, name i)
      → str_eq (name i) fld ≡ true
      → find_from api hstmt fld (suc left) i ≡ i
  unfolding find_from
  find_here name left i e same = rw (e, same)

  find_later :
      (name : ℕ → Bytes) (left i : ℕ)
      → api.describe_col hstmt i ≡ (success, name i)
      → str_eq (name i) fld ≡ false
      → find_from api hstmt fld (suc left) i ≡ find_from api hstmt fld left (i + 1)
  unfolding find_from
  find_later name left i e other = rw (e, other)

  later-IsFirst :
      (name : ℕ → Bytes) (i end r : ℕ)
      → str_eq (name i) fld ≡ false
      → IsFirst name (i + 1) end r
      → IsFirst name i end r
  later-IsFirst name i end r other first = record {
    from = omega (arith, first.from);
    to = first.to;
    earlier = λ j lo hi. elim (Bool-cases (i == j)) [
      | inl same ↦ λ named.
          let j_is : i ≡ j = ground arith in
          let text : name i ≡ fld = ap name j_is ∙ named in
          cc (other, (str_eq_iff (name i) fld).1 text)
      | inr different ↦ first.earlier j (ground arith) hi
    ];
    found = first.found;
  }

  find_from-IsFirst :
      (name : ℕ → Bytes) (left i end : ℕ)
      → i + left ≡ end
      → Described name i end
      → IsFirst name i end (find_from api hstmt fld left i)
  find_from-IsFirst name zero i end e h = record {
    from = unfold find_from in omega arith;
    to = unfold find_from in omega arith;
    earlier = unfold find_from in λ j lo hi. absurd (omega arith);
    found = unfold find_from in inl (omega arith);
  }
  find_from-IsFirst name (suc left) i end e h = elim (Bool-cases (str_eq (name i) fld)) [
    | inl same ↦ rw (find_here name left i (h i (omega arith) (omega arith)) same) (record {
      from = omega arith;
      to = omega arith;
      earlier = λ j lo hi. absurd (omega arith);
      found = inr ((str_eq_iff (name i) fld).0 same);
    })
    | inr other ↦ rw (find_later name left i (h i (omega arith) (omega arith)) other) (
        later-IsFirst name i end (find_from api hstmt fld left (i + 1)) other
          (find_from-IsFirst name left (i + 1) end (omega arith) (λ j lo hi. h j (omega arith) hi)))
  ]

-- If the number of columns is known and every column can be described: the ODBC `findColumn`
-- answers the first column of the name counted from 1, or one more than the number of columns if
-- there is none, and changes nothing.
pub find_column-IsFirst :
    (api : Api) (fld : Bytes) (rs : OdbcResultSet) (cols : ℕ) (name : ℕ → Bytes) (w : World)
    → api.num_result_cols rs.hstmt ≡ (success, cols)
    → Described api rs.hstmt fld name 1 (cols + 1)
    → (r : ℕ) × (find_column api fld rs w ≡ ok (r, w))
      × IsFirst api rs.hstmt fld name 1 (cols + 1) r
unfolding find_column
find_column-IsFirst api fld rs cols name w e h = (
  find_from api rs.hstmt fld cols 1,
  rw e,
  find_from-IsFirst api rs.hstmt fld name cols 1 (cols + 1) (omega arith) h,
)
