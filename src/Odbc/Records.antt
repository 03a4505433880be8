-- ===== src/Odbc/Records.antt =====
-- The diagnostic records of the driver manager behind dbabstract/odbc/odbc_db.cpp, and how a reader takes
-- those of one handle.
use dbabstract.Prelude.{
  ℕ, suc, ◌+◌, ◌≤◌, ◌≡◌, ◌≢◌, refl, ap, true, false, List, [], ◌∷◌, arith, length,
}
use dbabstract.Effects.{Log}
use dbabstract.Odbc.{Event, Api, Diagnostic, HandleKind, succeeded, get_diag_rec}

module _ (api : Api) (kind : HandleKind) (handle : ℕ) where
  abbrev pub answer_for : Log Event → ℕ → Diagnostic
  answer_for log i = api.on_get_diag_rec log kind handle (i + 1)

  -- The records of one handle behind the first `i`, at most `left` of them, that a reader takes from
  -- the driver manager between two logs: of a null handle none, and otherwise one after the other
  -- until the driver manager has none.
  pub data Records : ℕ → ℕ → Log Event → List Diagnostic → Log Event → Type 0 where
    enough : (i : ℕ) (log : Log Event) → Records i 0 log [] log
    no_handle : (i left : ℕ) (log : Log Event) → handle ≡ 0 → Records i left log [] log
    no_more :
        (i left : ℕ) (log : Log Event)
        → handle ≢ 0
        → succeeded (answer_for log i).status ≡ false
        → Records i (suc left) log [] (get_diag_rec kind handle (i + 1) (answer_for log i) ∷ log)
    one_more :
        (i left : ℕ) (log log' : Log Event) (ds : List Diagnostic)
        → handle ≢ 0
        → succeeded (answer_for log i).status ≡ true
        → Records (i + 1) left (get_diag_rec kind handle (i + 1) (answer_for log i) ∷ log) ds log'
        → Records i (suc left) log (answer_for log i ∷ ds) log'

  pub Records-bounded :
      {i left : ℕ} {log log' : Log Event} {ds : List Diagnostic}
      → Records i left log ds log'
      → (length ds ≤ left) × (length log' ≤ length log + left)
  Records-bounded (enough i log) = (omega arith, omega arith)
  Records-bounded (no_handle i left log null) = (omega arith, omega arith)
  Records-bounded (no_more i left log live last) = (omega arith, omega arith)
  Records-bounded (one_more i left log log' ds live there rest) =
      let b = Records-bounded rest in (omega (arith, b.0), omega (arith, b.1))

  -- The driver manager decides which records are read, and with which requests.
  pub Records-unique :
      {i left : ℕ} {log log1 log2 : Log Event} {ds es : List Diagnostic}
      → Records i left log ds log1
      → Records i left log es log2
      → (ds ≡ es) × (log1 ≡ log2)
  Records-unique (enough i log) (enough _ _) = (refl, refl)
  Records-unique (enough i log) (no_handle _ _ _ null) = (refl, refl)
  Records-unique (no_handle i left log null) (no_handle _ _ _ null') = (refl, refl)
  Records-unique (no_handle i left log null) (enough _ _) = (refl, refl)
  Records-unique (no_handle i left log null) (no_more _ _ _ live last) = absurd (live null)
  Records-unique (no_handle i left log null) (one_more _ _ _ _ _ live there rest) =
      absurd (live null)
  Records-unique (no_more i left log live last) (no_handle _ _ _ null) = absurd (live null)
  Records-unique (no_more i left log live last) (no_more _ _ _ live' last') = (refl, refl)
  Records-unique (no_more i left log live last) (one_more _ _ _ _ _ live' there rest) =
      cc (there, last)
  Records-unique (one_more i left log log' ds live there rest) (no_handle _ _ _ null) =
      absurd (live null)
  Records-unique (one_more i left log log' ds live there rest) (no_more _ _ _ live' last) =
      cc (there, last)
  Records-unique (one_more i left log log' ds live there rest)
        (one_more _ _ _ log2 es live' there' rest') =
      let same = Records-unique rest rest' in (ap (λ l. answer_for log i ∷ l) same.0, same.1)
