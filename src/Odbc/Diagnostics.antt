-- ===== src/Odbc/Diagnostics.antt =====
-- `ODBC_Errors` and `errorno` in dbabstract/odbc/odbc_db.cpp: the diagnostic records that they ask for.
use dbabstract.Prelude.{ℕ, ◌≡◌, Bool, false, ◌||◌, List, [], ◌∷◌}
use dbabstract.Effects.{Log, ok}
use dbabstract.C.Str.{str_eq}
use dbabstract.Odbc.{Event, Api, World, Diagnostic, HandleKind, stmt, failed, get_diag_rec}
use dbabstract.Odbc.Errors.{OdbcConnection, not_loaded, read_diagnostics}
use dbabstract.Odbc.Connection.{errorno, last_diagnostic}
use dbabstract.Odbc.Records.{Records}

-- One of the records says that the database driver could not be loaded.
abbrev pub names_missing : List Diagnostic → Bool
names_missing [] = false
names_missing (d ∷ ds) = str_eq d.sqlstate not_loaded || names_missing ds

module _ (api : Api) (kind : HandleKind) (handle : ℕ) where
  -- One of the loops reads such records.
  record HasRead (i left : ℕ) (force : Bool) (w : World) : Type 0 where
    read : List Diagnostic
    log' : Log Event
    records : Records api kind handle i left w.log read log'
    returns :
        read_diagnostics api kind handle left i force w
        ≡ ok (force || names_missing read, record w { log = log' })

module _ (api : Api) where
  -- What SQLGetDiagRec documents: records are counted from 1, and a smaller number is an error.
  abbrev pub CountsFromOne : Type 0
  CountsFromOne =
      (log : Log Event) (kind : HandleKind) (h : ℕ)
      → (api.on_get_diag_rec log kind h 0).status ≡ failed

  -- With a driver manager that counts its records from 1 and refuses record 0, `errorno`
  -- returns 0, on any object and whatever went wrong before.
  pub errorno-zero :
      CountsFromOne
      → (c : OdbcConnection) (w : World) → (w' : World) × (errorno api c w ≡ ok (0, w'))
  unfolding errorno last_diagnostic
  errorno-zero counts c w = (
    record w {
      log = get_diag_rec stmt c.hstmt 0 (api.on_get_diag_rec w.log stmt c.hstmt 0) ∷ w.log;
    },
    rw (counts w.log stmt c.hstmt),
  )
