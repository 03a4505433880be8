-- ===== src/Odbc/Opening.antt =====
-- `ODBC_Connection::open` in dbabstract/odbc/odbc_db.cpp: the handles that are obtained.
use dbabstract.Prelude.{
  ℕ, zero, suc, ◌+◌, ◌<◌, ◌≡◌, refl, Bool, true, false, ◌∷◌, Bytes, arith, ◌==◌, if◌then◌else◌,
  ◌||◌, length, ltb, Bool-cases, inl, inr,
}
use dbabstract.Effects.{exited, pure, lift, exited}
use dbabstract.Effects.Post.{Ends, Ends-bind}
use dbabstract.Db.{Target}
use dbabstract.Odbc.{
  Api, World, HandleKind, env, dbc, stmt, is_success, succeeded, alloc_handle, driver_connect,
  get_diag_rec, set_env_attr,
}
use dbabstract.Odbc.Errors.{OdbcConnection, odbc_errors, read_all, read_diagnostics, not_loaded}
use dbabstract.C.Str.{str_eq}
use dbabstract.Odbc.Connection.{allocate, open_statement, connect, open_connection, open_database}
use dbabstract.Odbc.Handles.{IsAccounted, Kept, blank}

module _ (api : Api) (c : OdbcConnection) where
  -- Reading diagnostics opens and frees nothing.
  diagnostics-Ends :
      (kind : HandleKind) (handle left i : ℕ) (force : Bool) (w : World)
      → IsAccounted c w
      → Ends (λ _ w'. IsAccounted c w') (read_diagnostics api kind handle left i force w)
  unfolding read_diagnostics
  diagnostics-Ends kind handle zero i force w h = h
  diagnostics-Ends kind handle (suc left) i force w h = elim (Bool-cases (handle == 0)) [
    | inl null ↦ rw null h
    | inr live ↦
        let d = api.on_get_diag_rec w.log kind handle (i + 1) in
        let w1 : World = record w { log = get_diag_rec kind handle (i + 1) d ∷ w.log } in
        let h1 : IsAccounted c w1 = omega (arith, h) in
        elim (Bool-cases (succeeded d.status)) [
          | inl there ↦
              rw (live, there)
                (diagnostics-Ends kind handle left (i + 1) (force || str_eq d.sqlstate not_loaded)
                  w1 h1)
          | inr last ↦ rw (live, last) h1
        ]
  ]

  errors-Ends :
      (w : World) → IsAccounted c w → Ends (λ _ w'. IsAccounted c w') (odbc_errors api c w)
  unfolding odbc_errors read_all
  errors-Ends w h =
      Ends-bind keeps keeps (read_all api c w) _
        (Ends-bind keeps keeps _ _ (diagnostics-Ends stmt c.hstmt 5 0 false w h) (λ a wa ha.
          Ends-bind keeps keeps _ _ (diagnostics-Ends dbc c.hdbc 5 0 a wa ha)
            (λ b wb hb. diagnostics-Ends env c.henv 5 0 b wb hb)))
        (λ force w' h'. exit_or_go force w' h')
    where
      keeps : {A : Type 0} → A → World → Type 0
      keeps _ w' = IsAccounted c w'

      exit_or_go :
          (force : Bool) (w' : World)
          → IsAccounted c w'
          → Ends keeps ((if force then lift exited else pure tt) w')
      exit_or_go true w' h' = tt
      exit_or_go false w' h' = h'

module _ (api : Api) where
  open_statement-Ends :
      (c : OdbcConnection) (w : World)
      → c.hstmt ≡ 0
      → IsAccounted c w
      → Ends Kept (open_statement api c w)
  unfolding open_statement allocate
  open_statement-Ends c w free h = ground arith

  connect-Ends :
      (source : Bytes) (c : OdbcConnection) (w : World)
      → c.hstmt ≡ 0
      → c.connected ≡ false
      → IsAccounted c w
      → Ends Kept (connect api source c w)
  unfolding connect
  connect-Ends source c w free apart h =
      let status = api.on_driver_connect w.log c.hdbc source in
      let w1 : World = record w { log = driver_connect c.hdbc source status ∷ w.log } in
      elim (Bool-cases (succeeded status)) [
        | inl joined ↦
            rw joined
              (open_statement-Ends (record c { connected = true }) w1 free (ground (arith, h)))
        | inr refused ↦ rw refused (
            Ends-bind (λ _ w'. IsAccounted c w') Kept (odbc_errors api c w1) _
              (errors-Ends api c w1 (ground (arith, h))) (λ _ w' h'. h'))
      ]

  open_connection-Ends :
      (source : Bytes) (c : OdbcConnection) (w : World)
      → c.hstmt ≡ 0
      → c.hdbc ≡ 0
      → c.connected ≡ false
      → IsAccounted c w
      → Ends Kept (open_connection api source c w)
  unfolding open_connection allocate
  open_connection-Ends source c w free bare apart h =
      let w0 : World = record w { log = set_env_attr c.henv ∷ w.log } in
      let r = api.on_alloc_handle w0.log dbc c.henv in
      let w1 : World = record w0 { log = alloc_handle dbc c.henv r ∷ w0.log } in
      let h1 : IsAccounted (record c { hdbc = r.1 }) w1 = ground (arith, h) in
      elim (Bool-cases (is_success r.0)) [
        | inl made ↦ rw made (connect-Ends source (record c { hdbc = r.1 }) w1 free apart h1)
        | inr refused ↦ rw refused h1
      ]

  -- From an object that holds nothing, `open` accounts for every handle, on each of its returns.
  pub open_database-Ends :
      (target : Target) (w : World)
      → length target.database < 1024
      → IsAccounted blank w
      → Ends Kept (open_database api target blank w)
  unfolding open_database allocate
  open_database-Ends target w short h = elim (Bool-cases (ltb (length target.database) 1024)) [
    | inl fits ↦
        let r = api.on_alloc_handle w.log env 0 in
        let w1 : World = record w { log = alloc_handle env 0 r ∷ w.log } in
        let h1 : IsAccounted (record blank { henv = r.1 }) w1 = ground (arith, h) in
        elim (Bool-cases (is_success r.0)) [
          | inl made ↦
              rw (fits, made)
                (open_connection-Ends target.database (record blank { henv = r.1 }) w1 refl refl
                  refl h1)
          | inr refused ↦ rw (fits, refused) h1
        ]
    | inr long ↦ absurd (ground arith)
  ]
