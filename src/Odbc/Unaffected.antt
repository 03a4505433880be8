-- ===== src/Odbc/Unaffected.antt =====
-- The methods of the ODBC driver (dbabstract/odbc/odbc_db.cpp) that obtain and free no handle.
use dbabstract.Prelude.{
  ℕ, zero, suc, ◌<◌, ◌≡◌, true, false, ◌∷◌, Bytes, arith, if◌then◌else◌, Bool-cases, inl, inr,
}
use dbabstract.Effects.{Log, ok}
use dbabstract.Effects.Post.{Returns, Returns-bind}
use dbabstract.Db.Closed.{Statement, execute, begin, commit, rollback, set_mode, issue}
use dbabstract.Odbc.{Event, Api, World, is_success, more_results}
use dbabstract.Odbc.ResultSet
use dbabstract.Odbc.ResultSet.{OdbcResultSet}
use dbabstract.Odbc.Connection
use dbabstract.Odbc.Errors.{OdbcConnection}
use dbabstract.Odbc.Handles.{IsAccounted}
use dbabstract.Odbc.Driver.{odbc_connection}

-- A statement has fewer than `fuel` result sets left, and each that is passed over is one fewer.
pub record ResultsEnd (api : Api) (fuel : ℕ) : Type 0 where
  pub left : Log Event → ℕ → ℕ
  pub bounded : (log : Log Event) (h : ℕ) → left log h < fuel
  pub fewer :
      (log : Log Event) (h : ℕ)
      → is_success (api.on_more_results log h) ≡ true
      → left (more_results h (api.on_more_results log h) ∷ log) h < left log h

module _ (api : Api) (fuel : ℕ) (ends : ResultsEnd api fuel) where
  -- Whatever a method of a result set or a statement does, the connection's handles are as they were.
  abbrev pub Stays : OdbcConnection → {A : Type 0} → A → World → Type 0
  Stays c a w = IsAccounted c w

  drain-Stays :
      (c : OdbcConnection) (h rounds : ℕ) (w : World)
      → ends.left w.log h < rounds
      → IsAccounted c w
      → Returns (Stays c) (ResultSet.drain api rounds h w)
  unfolding ResultSet.drain ResultSet.next_result
  drain-Stays c h zero w enough held = absurd (omega arith)
  drain-Stays c h (suc rounds) w enough held =
      let sts = api.on_more_results w.log h in
      let w1 : World = record w { log = more_results h sts ∷ w.log } in
      let held1 : IsAccounted c w1 = omega (arith, held) in
      elim (Bool-cases (is_success sts)) [
        | inl more ↦
            rw more (drain-Stays c h rounds w1 (omega (arith, ends.fewer w.log h more)) held1)
        | inr last ↦ rw last held1
      ]

  pub close-Stays :
      (c : OdbcConnection) (rs : OdbcResultSet) (w : World)
      → IsAccounted c w
      → Returns (Stays c) (ResultSet.close api fuel rs w)
  unfolding ResultSet.close
  close-Stays c rs w held =
      Returns-bind _ _ (ResultSet.drain api fuel rs.hstmt w) _
        (drain-Stays c rs.hstmt fuel w (ends.bounded w.log rs.hstmt) held)
        λ u w1 held1. omega (arith, held1)

  pub next-Stays :
      (c : OdbcConnection) (rs : OdbcResultSet) (w : World)
      → IsAccounted c w
      → Returns (Stays c) (ResultSet.next api rs w)
  unfolding ResultSet.next ResultSet.advance ResultSet.next_result
  next-Stays c rs w held = ground (arith, held)

  execute-Stays :
      (sql : Bytes) (c : OdbcConnection) (w : World)
      → IsAccounted c w
      → Returns (Stays c) (Connection.execute api sql c w)
  unfolding Connection.execute Connection.sql_prepare Connection.sql_execute
  execute-Stays sql c w held = ground (arith, held)

  pub query-Stays :
      (sql : Bytes) (c : OdbcConnection) (w : World)
      → IsAccounted c w
      → Returns (Stays c) (Connection.execute_query api sql c w)
  unfolding Connection.execute_query Connection.sql_prepare Connection.sql_execute
  query-Stays sql c w held = ground (arith, held)

  guarded-Stays :
      (sql : Bytes) (c : OdbcConnection) (w : World)
      → IsAccounted c w
      → Returns
          (Stays c)
          ((if c.connected then Connection.execute api sql c else (λ w0. ok (false, w0))) w)
  guarded-Stays sql c w held = elim (Bool-cases c.connected) [
    | inl live ↦ simp live (execute-Stays sql c w held)
    | inr apart ↦ simp apart held
  ]

  pub issue-Stays :
      (st : Statement) (c : OdbcConnection) (w : World)
      → IsAccounted c w
      → Returns (Stays c) (issue (odbc_connection api fuel) st c w)
  unfolding issue Connection.begin_trans Connection.commit_trans Connection.rollback_trans
      Connection.set_transaction_mode
  issue-Stays (execute sql) c w held = execute-Stays sql c w held
  issue-Stays begin c w held = guarded-Stays _ c w held
  issue-Stays commit c w held = guarded-Stays _ c w held
  issue-Stays rollback c w held = guarded-Stays _ c w held
  issue-Stays (set_mode m) c w held = execute-Stays _ c w held
