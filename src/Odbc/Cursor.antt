-- ===== src/Odbc/Cursor.antt =====
-- `ODBC_ResultSet` in dbabstract/odbc/odbc_db.cpp: the rows that `next` reaches, and the text that
-- `getString` answers.
use dbabstract.Prelude.{
  ℕ, zero, suc, ◌+◌, ◌^◌, ◌≡◌, refl, sym, Bool, false, ◌∷◌, Bytes, Option, some, arith, ◌==◌,
  if◌then◌else◌, ==_iff, Bool-cases, inl, inr, ap, ◌∙◌,
}
use dbabstract.Effects.{Log, Program, ok, spinning, lift, pure, ◌>>=◌}
use dbabstract.Effects.Post.{Returns}
use dbabstract.Effects.Laws.{ok-injective}
use dbabstract.Odbc.{Event, Api, World, no_data, is_success, more_results, fetch_scroll, get_data}
use dbabstract.Odbc.ResultSet.{
  OdbcResultSet, new_result_set, next, advance, next_result, get_string, stored,
}

-- The loop of a client that counts the rows of a result set: `while (rs->next()) n++`.
unfoldable pub count_rows : Api → ℕ → OdbcResultSet → Program World ℕ
count_rows api zero rs w = lift spinning w
count_rows api (suc rounds) rs w =
    (do r ← next api rs; if r.0 then (do n ← count_rows api rounds r.1; pure (n + 1)) else pure 0) w

module _ (api : Api) where
  next_first :
      (statement : ℕ) (w : World)
      → next api (new_result_set statement) w
        ≡ ok (
          (
            is_success (api.on_fetch_scroll w.log statement),
            record { hstmt = statement; record_ = 1 },
          ),
          record w { log = fetch_scroll statement (api.on_fetch_scroll w.log statement) ∷ w.log },
        )
  unfolding next advance
  next_first statement w = refl

  next_again :
      (statement : ℕ) (w : World)
      → api.on_more_results w.log statement ≡ no_data
      → next api (record { hstmt = statement; record_ = 1 }) w
        ≡ ok (
          (false, record { hstmt = statement; record_ = 1 }),
          record w { log = more_results statement no_data ∷ w.log },
        )
  unfolding next advance next_result
  next_again statement w e = rw e

  -- Of a statement whose `SQLMoreResults` always answers SQL_NO_DATA, a client that loops over
  -- `next` counts one row if the first SQLFetchScroll succeeds, and none otherwise, and its
  -- loop ends in two rounds.
  pub count_rows-one :
      (statement rounds : ℕ) (w : World)
      → ((log : Log Event) → api.on_more_results log statement ≡ no_data)
      → Returns
          (λ n w'. n ≡ (if is_success (api.on_fetch_scroll w.log statement) then 1 else 0))
          (count_rows api (suc (suc rounds)) (new_result_set statement) w)
  unfolding count_rows
  count_rows-one statement rounds w single =
      let w1 : World = record w {
        log = fetch_scroll statement (api.on_fetch_scroll w.log statement) ∷ w.log;
      } in
      elim (Bool-cases (is_success (api.on_fetch_scroll w.log statement))) [
        | inl there ↦
            rw (next_first statement w, there, next_again statement w1 (single w1.log)) refl
        | inr none_there ↦ rw (next_first statement w, none_there) refl
      ]

  -- What a call of `getString` leaves in the static variables.
  get_string_fills :
      (idx : ℕ) (rs : OdbcResultSet) (w : World)
      → (text : Bytes) × (w1 : World) × (get_string api idx rs w ≡ ok (some text, w1))
        × (w1.index ≡ idx)
        × (w1.fetch_buffer ≡ text)
  unfolding get_string
  get_string_fills idx rs w = elim (Bool-cases (w.index == idx)) [
    | inl again ↦ (w.fetch_buffer, w, rw again, (==_iff w.index idx).0 again, refl)
    | inr fresh ↦
        let answer = api.on_get_data w.log rs.hstmt idx in
        let text = stored (2 ^ 20) answer.1 in
        (
          text,
          record { log = get_data rs.hstmt idx answer ∷ w.log; index = idx; fetch_buffer = text },
          rw fresh,
          refl,
          refl,
        )
  ]

  get_string_cached :
      (idx : ℕ) (rs : OdbcResultSet) (w : World)
      → w.index ≡ idx
      → get_string api idx rs w ≡ ok (some w.fetch_buffer, w)
  unfolding get_string
  get_string_cached idx rs w e = rw ((==_iff w.index idx).1 e)

  -- `next` moves on without touching them.
  next_keeps :
      (rs moved : OdbcResultSet) (b : Bool) (w w2 : World)
      → next api rs w ≡ ok ((b, moved), w2)
      → (w2.index ≡ w.index) × (w2.fetch_buffer ≡ w.fetch_buffer)
  unfolding next advance next_result
  next_keeps rs moved b w w2 e = ground arith

  -- A column that is asked for twice, with one `next` of the same result set in between, is
  -- fetched the first time alone: whatever `next` answered, and on any result set, the second
  -- text is the first one.
  pub get_string_stale :
      (idx : ℕ) (rs rs' moved : OdbcResultSet) (w w1 w2 : World) (text : Option Bytes) (b : Bool)
      → get_string api idx rs w ≡ ok (text, w1)
      → next api rs w1 ≡ ok ((b, moved), w2)
      → get_string api idx rs' w2 ≡ ok (text, w2)
  get_string_stale idx rs rs' moved w w1 w2 text b got stepped =
      let (text', w1', first, at_idx, held) = get_string_fills idx rs w in
      let same : (some text', w1') ≡ (text, w1) = ok-injective (sym first ∙ got) in
      let (same_index, same_text) = next_keeps rs moved b w1 w2 stepped in
      get_string_cached idx rs' w2 (same_index ∙ ap (λ r. r.1.index) (sym same) ∙ at_idx)
      ∙ ap (λ t. ok (t, w2))
          (ap some (same_text ∙ ap (λ r. r.1.fetch_buffer) (sym same) ∙ held) ∙ ap (λ r. r.0) same)
