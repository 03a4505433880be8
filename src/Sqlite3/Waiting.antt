-- ===== src/Sqlite3/Waiting.antt =====
-- `Sqlite3_ResultSet::next` in dbabstract/sqlite3/sqlite3_db.cpp: the loop around `sqlite3_step`.
use dbabstract.Prelude.{
  ℕ, zero, suc, ◌<◌, ◌≡◌, true, false, ◌∷◌, ◌||◌, arith, ◌==◌, Bool-cases, inl, inr,
}
use dbabstract.Effects.{Log, ok}
use dbabstract.Sqlite3.{Event, Api, sqlite3_step, sleep, sqlite_busy, sqlite_row, is_final}
use dbabstract.Sqlite3.ResultSet.{next, fetch, step}

-- The log when the database has been busy so many times.
abbrev pub waited : ℕ → ℕ → Log Event → Log Event
waited res zero log = log
waited res (suc k) log = waited res k (sleep 1 ∷ sqlite3_step res sqlite_busy ∷ log)

module _ (api : Api) (res rc : ℕ) where
  -- From this log on, the database is busy so many times, and then `sqlite3_step` answers `rc`.
  abbrev pub IsBusyFor : ℕ → Log Event → Type 0
  IsBusyFor zero log = api.on_step log res ≡ rc
  IsBusyFor (suc k) log =
      (api.on_step log res ≡ sqlite_busy)
      × IsBusyFor k (sleep 1 ∷ sqlite3_step res sqlite_busy ∷ log)

  fetch-waits :
      (k fuel : ℕ) (log : Log Event)
      → (rc == sqlite_busy) ≡ false
      → ((rc == sqlite_row) || is_final rc) ≡ true
      → IsBusyFor k log
      → k < fuel
      → fetch api fuel res log ≡ ok (rc == sqlite_row, sqlite3_step res rc ∷ waited res k log)
  unfolding fetch step
  fetch-waits k zero log free stops busy enough = absurd (omega arith)
  fetch-waits zero (suc fuel) log free stops busy enough = elim (Bool-cases (rc == sqlite_row)) [
    | inl row ↦ rw (busy, free, row)
    | inr other ↦
        let final : is_final rc ≡ true = rw other at stops in rw (busy, free, other, final)
  ]
  fetch-waits (suc k) (suc fuel) log free stops busy enough = rw busy.0 (
      fetch-waits k fuel (sleep 1 ∷ sqlite3_step res sqlite_busy ∷ log) free stops busy.1
        (omega arith))

  -- If the database is busy k times, and `sqlite3_step` then answers a row or a code that ends
  -- the rows: the SQLite `next` sleeps k times and returns in k + 1 rounds, with true exactly
  -- on a row.
  pub next-waits :
      (k fuel : ℕ) (log : Log Event)
      → (rc == sqlite_busy) ≡ false
      → ((rc == sqlite_row) || is_final rc) ≡ true
      → IsBusyFor k log
      → k < fuel
      → next api fuel (record { res_ = res }) log
        ≡ ok ((rc == sqlite_row, record { res_ = res }), sqlite3_step res rc ∷ waited res k log)
  unfolding next
  next-waits k fuel log free stops busy enough = rw (fetch-waits k fuel log free stops busy enough)
