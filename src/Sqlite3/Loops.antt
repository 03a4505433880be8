-- ===== src/Sqlite3/Loops.antt =====
-- The loops over `sqlite3_step` in dbabstract/sqlite3/sqlite3_db.cpp: when they end, and what a ledger that
-- counts no steps sees of them.
use dbabstract.Prelude.{
  ℕ, zero, suc, ◌<◌, ◌≤◌, ◌≡◌, Bool, true, false, ◌∷◌, arith, ◌==◌, Bool-cases, inl, inr,
}
use dbabstract.Effects.{Log, Result}
use dbabstract.Effects.Post.{Returns, Returns-bind, Returns-weaken}
use dbabstract.Db.Client.Balance.{Ledger, Balances, part}
use dbabstract.Sqlite3.{
  Event, Api, sqlite3_step, sqlite3_finalize, sleep, is_final, sqlite_busy, sqlite_row,
}
use dbabstract.Sqlite3.ResultSet.{Sqlite3ResultSet, drain, fetch, step, next, close}

-- A statement ends in fewer than `fuel` steps, however often the database is busy: each that does not
-- end it leaves one fewer, also behind a pause.
pub record StepsEnd (api : Api) (fuel : ℕ) : Type 0 where
  pub left : Log Event → ℕ → ℕ
  pub bounded : (log : Log Event) (res : ℕ) → left log res < fuel
  pub fewer :
      (log : Log Event) (res : ℕ)
      → is_final (api.on_step log res) ≡ false
      → left (sqlite3_step res (api.on_step log res) ∷ log) res < left log res
  pub paused : (log : Log Event) (res n : ℕ) → left (sleep n ∷ log) res ≡ left log res

-- Steps and pauses are no part of a ledger.
pub record Ignores (l : Ledger (Log Event)) : Type 0 where
  pub stepped : (log : Log Event) (res rc : ℕ) → Balances l log (sqlite3_step res rc ∷ log) 0 0
  pub slept : (log : Log Event) (n : ℕ) → Balances l log (sleep n ∷ log) 0 0

module _ (api : Api) (fuel : ℕ) (ends : StepsEnd api fuel) (l : Ledger (Log Event))
    (ignores : Ignores l) where
  abbrev pub Even : Log Event → Log Event → Type 0
  Even log log' = Balances l log log' 0 0

  after :
      {A : Type 0} (r : Result (A × Log Event)) (log log1 : Log Event)
      → Even log log1
      → Returns (λ _ log'. Even log1 log') r
      → Returns (λ _ log'. Even log log') r
  after r log log1 first rest = Returns-weaken _ _ r rest (λ a log' h. omega (arith, first, h))

  drain-Even :
      (res rounds : ℕ) (log : Log Event)
      → ends.left log res < rounds
      → Returns (λ _ log'. Even log log') (drain api rounds res log)
  unfolding drain step
  drain-Even res zero log enough = absurd (omega arith)
  drain-Even res (suc rounds) log enough = elim (Bool-cases (is_final (api.on_step log res))) [
    | inl final ↦ rw final (ignores.stepped log res (api.on_step log res))
    | inr more ↦ rw more (
        after (drain api rounds res (sqlite3_step res (api.on_step log res) ∷ log)) log
          (sqlite3_step res (api.on_step log res) ∷ log)
          (ignores.stepped log res (api.on_step log res))
          (drain-Even res rounds (sqlite3_step res (api.on_step log res) ∷ log)
            (omega (arith, ends.fewer log res more))))
  ]

  -- A row that `next` finds is one fewer.
  abbrev pub Takes : ℕ → Log Event → Bool → Log Event → Type 0
  Takes res log found log' = Even log log' × (found ≡ true → ends.left log' res < ends.left log res)

  goes_on :
      (res : ℕ) (r : Result (Bool × Log Event)) (log log1 : Log Event)
      → Even log log1
      → ends.left log1 res ≤ ends.left log res
      → Returns (Takes res log1) r
      → Returns (Takes res log) r
  goes_on res r log log1 first fewer rest =
      Returns-weaken (Takes res log1) (Takes res log) r rest
        (λ found log' h. (omega (arith, first, h.0), λ row. omega (arith, fewer, h.1 row)))

  fetch-Takes :
      (res rounds : ℕ) (log : Log Event)
      → ends.left log res < rounds
      → Returns (Takes res log) (fetch api rounds res log)
  unfolding fetch step
  fetch-Takes res zero log enough = absurd (omega arith)
  fetch-Takes res (suc rounds) log enough =
      let rc = api.on_step log res in
      let log1 : Log Event = sqlite3_step res rc ∷ log in
      let first = ignores.stepped log res rc in
      elim (Bool-cases (rc == sqlite_busy)) [
        | inl busy ↦
            let unfinished : is_final rc ≡ false = ground arith in
            let fewer = ends.fewer log res unfinished in
            let same = ends.paused log1 res 1 in
            rw busy (
              goes_on res (fetch api rounds res (sleep 1 ∷ log1)) log (sleep 1 ∷ log1)
                (omega (arith, first, ignores.slept log1 1)) (omega (arith, fewer, same))
                (fetch-Takes res rounds (sleep 1 ∷ log1) (omega (arith, fewer, same))))
        | inr free ↦ elim (Bool-cases (rc == sqlite_row)) [
          | inl row ↦
              let unfinished : is_final rc ≡ false = ground arith in
              rw (free, row) (first, λ e. ends.fewer log res unfinished)
          | inr other ↦ elim (Bool-cases (is_final rc)) [
            | inl final ↦ rw (free, other, final) (first, λ e. cc)
            | inr more ↦
                rw (free, other, more)
                  (goes_on res (fetch api rounds res log1) log log1 first
                    (omega (arith, ends.fewer log res more))
                    (fetch-Takes res rounds log1 (omega (arith, ends.fewer log res more))))
          ]
        ]
      ]

  pub next-Takes :
      (n : Sqlite3ResultSet → ℕ) (rs : Sqlite3ResultSet) (log : Log Event)
      → Returns
          (λ m log'.
            Balances l log log' (n rs) (n m.1)
            × (m.0 ≡ true → ends.left log' m.1.res_ < ends.left log rs.res_))
          (next api fuel rs log)
  unfolding next
  next-Takes n rs log =
      Returns-bind (Takes rs.res_ log) _ (fetch api fuel rs.res_ log) _
        (fetch-Takes rs.res_ fuel log (ends.bounded log rs.res_))
        λ found log1 h. (omega (arith, h.0), h.1)

  pub next-Balances :
      (n : Sqlite3ResultSet → ℕ) (rs : Sqlite3ResultSet) (log : Log Event)
      → Returns (λ m log'. Balances l log log' (n rs) (n m.1)) (next api fuel rs log)
  next-Balances n rs log =
      Returns-weaken _ _ (next api fuel rs log) (next-Takes n rs log) (λ m log' h. h.0)

  pub close-given_back :
      (n : Sqlite3ResultSet → ℕ) (rs : Sqlite3ResultSet) (log : Log Event)
      → ((rs.res_ == 0) ≡ true → n rs ≡ 0)
      → ((log0 : Log Event)
          → (rs.res_ == 0) ≡ false
          → Balances l log0 (sqlite3_finalize rs.res_ ∷ log0) (n rs) 0)
      → Returns (λ m log'. Balances l log log' (n rs) 0) (close api fuel rs log)
  unfolding close
  close-given_back n rs log none_held finalizes = elim (Bool-cases (rs.res_ == 0)) [
    | inl null ↦ rw null (omega (arith, none_held null))
    | inr live ↦ rw live (
        Returns-bind _ _ (drain api fuel rs.res_ log) _
          (drain-Even rs.res_ fuel log (ends.bounded log rs.res_))
          λ u log1 h. omega (arith, h, finalizes log1 live))
  ]

  pub close-Balances :
      (n : Sqlite3ResultSet → ℕ) (rs : Sqlite3ResultSet) (log : Log Event)
      → ((log0 : Log Event)
          → (rs.res_ == 0) ≡ false
          → Balances l log0 (sqlite3_finalize rs.res_ ∷ log0) (n rs) 0)
      → Returns (λ m log'. Balances l log log' (n rs) (part n m.1)) (close api fuel rs log)
  unfolding close
  close-Balances n rs log finalizes = elim (Bool-cases (rs.res_ == 0)) [
    | inl null ↦ rw null (omega arith)
    | inr live ↦ rw live (
        Returns-bind _ _ (drain api fuel rs.res_ log) _
          (drain-Even rs.res_ fuel log (ends.bounded log rs.res_))
          λ u log1 h. omega (arith, h, finalizes log1 live))
  ]
