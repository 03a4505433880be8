-- ===== src/Odbc/Draining.antt =====
-- `ODBC_ResultSet::close` in dbabstract/odbc/odbc_db.cpp: the result sets that it passes over.
use dbabstract.Prelude.{ℕ, zero, suc, ◌<◌, ◌≡◌, true, false, ◌∷◌, none, arith}
use dbabstract.Effects.{Log, ok}
use dbabstract.Odbc.{Event, Api, World, Status, success, is_success, more_results, close_cursor}
use dbabstract.Odbc.ResultSet.{close, drain, next_result}

-- The log when so many more result sets have been found.
abbrev pub passed : ℕ → ℕ → Log Event → Log Event
passed h zero log = log
passed h (suc k) log = passed h k (more_results h success ∷ log)

module _ (api : Api) (h : ℕ) (last : Status) where
  -- From this log on, the statement has so many more result sets, and then `SQLMoreResults` answers
  -- `last`.
  abbrev pub HasMore : ℕ → Log Event → Type 0
  HasMore zero log = api.on_more_results log h ≡ last
  HasMore (suc k) log =
      (api.on_more_results log h ≡ success) × HasMore k (more_results h success ∷ log)

  drain-ends :
      (k fuel : ℕ) (w : World)
      → is_success last ≡ false
      → HasMore k w.log
      → k < fuel
      → drain api fuel h w ≡ ok (tt, record w { log = more_results h last ∷ passed h k w.log })
  unfolding drain next_result
  drain-ends k zero w ends more enough = absurd (omega arith)
  drain-ends zero (suc fuel) w ends more enough = rw (more, ends)
  drain-ends (suc k) (suc fuel) w ends more enough = rw more.0 (
      drain-ends k fuel (record w { log = more_results h success ∷ w.log }) ends more.1
        (omega arith))

  -- If a statement has k more result sets, and `SQLMoreResults` then answers another code than
  -- SQL_SUCCESS: `close` of an ODBC result set passes over them in k + 1 rounds, closes the
  -- cursor, and returns true with the object deleted.
  pub close-ends :
      (k fuel record_no : ℕ) (w : World)
      → is_success last ≡ false
      → HasMore k w.log
      → k < fuel
      → close api fuel (record { hstmt = h; record_ = record_no }) w
        ≡ ok (
          (true, none),
          record w { log = close_cursor h ∷ more_results h last ∷ passed h k w.log },
        )
  unfolding close
  close-ends k fuel record_no w ends more enough = rw (drain-ends k fuel w ends more enough)
