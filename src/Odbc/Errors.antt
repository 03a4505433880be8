-- ===== src/Odbc/Errors.antt =====
-- dbabstract/odbc/odbc_db.cpp: `ODBC_Connection::ODBC_Errors`, and the object that it is called on.
-- What it prints is left out.
use dbabstract.Prelude.{ℕ, zero, suc, ◌+◌, Bool, false, ◌||◌, Bytes, codes, ◌==◌, if◌then◌else◌}
use dbabstract.Effects.{Program, exited, pure, lift, ◌>>=◌}
use dbabstract.C.Str.{str_eq}
use dbabstract.Odbc.{Api, World, HandleKind, env, dbc, stmt, succeeded, ask, get_diag_rec}

pub record OdbcConnection : Type 0 where
  pub henv : ℕ
  pub hdbc : ℕ
  pub hstmt : ℕ
  pub connected : Bool

-- The state that says that the database driver could not be loaded.
abbrev pub not_loaded : Bytes
not_loaded = codes "IM003"

module _ (api : Api) where
  -- One of the three loops, with `left` rounds to go behind record `i`; `force` is `force_exit`.
  unfoldable pub read_diagnostics : HandleKind → ℕ → ℕ → ℕ → Bool → Program World Bool
  read_diagnostics kind handle zero i force w = pure force w
  read_diagnostics kind handle (suc left) i force w =
      (if handle == 0 then pure force else (do
        d ←
            ask (λ log. api.on_get_diag_rec log kind handle (i + 1))
              (get_diag_rec kind handle (i + 1))
        if succeeded d.status
            then read_diagnostics kind handle left (i + 1) (force || str_eq d.sqlstate not_loaded)
            else pure force))
        w

  unfoldable pub read_all : OdbcConnection → Program World Bool
  read_all c = do
    a ← read_diagnostics stmt c.hstmt 5 0 false
    b ← read_diagnostics dbc c.hdbc 5 0 a
    read_diagnostics env c.henv 5 0 b

  unfoldable pub odbc_errors : OdbcConnection → Program World (Unit {0})
  odbc_errors c = do force_exit ← read_all c; if force_exit then lift exited else pure tt
