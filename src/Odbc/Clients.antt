-- ===== src/Odbc/Clients.antt =====
-- A client of the ODBC driver (dbabstract/odbc/odbc_db.cpp): the handles and sessions behind all that it
-- does.
use dbabstract.Prelude.{
  ℕ, ◌<◌, ◌≡◌, Bool, true, List, [], ◌∷◌, length, get_elem?, Option-cases, inl, inr,
}
use dbabstract.Effects.{Result, ok, undefined, exited, spinning, and_then}
use dbabstract.Effects.Post.{Returns, Returns-bind, Returns-Ends, Ends, Ends-bind}
use dbabstract.Convert.{Machine}
use dbabstract.Db.{Target}
use dbabstract.Db.Closed.{issue}
use dbabstract.Db.Client.{
  Client, Action, reopen, shut, perform, query, step, drop_set, open_again, step_set, close_set,
  act, joined,
}
use dbabstract.Odbc.{Api, World}
use dbabstract.Odbc.ResultSet
use dbabstract.Odbc.ResultSet.{OdbcResultSet}
use dbabstract.Odbc.Connection
use dbabstract.Odbc.Errors.{OdbcConnection}
use dbabstract.Odbc.Handles.{IsAccounted, blank}
use dbabstract.Odbc.Unaffected.{
  ResultsEnd, Stays, close-Stays, next-Stays, query-Stays, issue-Stays,
}
use dbabstract.Odbc.Opening.{open_database-Ends}
use dbabstract.Odbc.Accounts.{close-Returns}
use dbabstract.Odbc.Driver.{odbc_connection, odbc_result_set}

-- The data source names fit the array of `open`.
abbrev pub Fits : Action → Type 0
Fits (reopen target) = length target.database < 1024
Fits _ = Unit

abbrev pub AllFit : List Action → Type 0
AllFit [] = Unit
AllFit (a ∷ rest) = Fits a × AllFit rest

-- What the client's connection holds is open, and nothing else is.
abbrev pub HoldsAll : Client OdbcConnection OdbcResultSet → World → Type 0
HoldsAll cl w = IsAccounted cl.conn w

module _ {D F : Type 0} (api : Api) (fuel : ℕ) (machine : Machine D F)
    (ends : ResultsEnd api fuel) where
  abbrev Closed : Bool × OdbcConnection → World → Type 0
  Closed r w = IsAccounted blank w × (r ≡ (true, blank))

  open_again-Ends :
      (target : Target) (c : OdbcConnection) (w : World)
      → length target.database < 1024
      → IsAccounted c w
      → Ends
          (λ c' w'. IsAccounted c' w')
          (open_again (odbc_connection api fuel) (odbc_result_set api fuel machine) target c w)
  unfolding open_again
  open_again-Ends target c w fits held =
      Ends-bind Closed _ (Connection.close c w) _ (Returns-Ends Closed _ (close-Returns c w held))
        λ r w1 closed. rw closed.1 (
          Ends-bind _ _ (Connection.open_database api target blank w1) _
            (open_database-Ends api target w1 fits closed.0) λ opened w2 held2. held2)

  step_set-Stays :
      (c : OdbcConnection) (i : ℕ) (sets : List OdbcResultSet) (w : World)
      → IsAccounted c w
      → Returns (Stays api fuel ends c) (
          step_set
            (odbc_connection api fuel)
            (odbc_result_set api fuel machine)
            i
            (get_elem? sets i)
            sets
            w)
  unfolding step_set
  step_set-Stays c i sets w held = elim (Option-cases (get_elem? sets i)) [
    | inl missing ↦ rw missing held
    | inr (r, e) ↦ rw e (
        Returns-bind _ _ (ResultSet.next api r w) _ (next-Stays api fuel ends c r w held)
          λ moved w1 held1. held1)
  ]

  close_set-Stays :
      (c : OdbcConnection) (i : ℕ) (sets : List OdbcResultSet) (w : World)
      → IsAccounted c w
      → Returns (Stays api fuel ends c) (
          close_set
            (odbc_connection api fuel)
            (odbc_result_set api fuel machine)
            i
            (get_elem? sets i)
            sets
            w)
  unfolding close_set
  close_set-Stays c i sets w held = elim (Option-cases (get_elem? sets i)) [
    | inl missing ↦ rw missing held
    | inr (r, e) ↦ rw e (
        Returns-bind _ _ (ResultSet.close api fuel r w) _ (close-Stays api fuel ends c r w held)
          λ gone w1 held1. held1)
  ]

  -- A part of an action that leaves the connection as it is.
  goes_on :
      {A : Type 0} (cl : Client OdbcConnection OdbcResultSet) (r : Result (A × World))
      (g : A → List OdbcResultSet)
      → Returns (Stays api fuel ends cl.conn) r
      → Ends HoldsAll (and_then r (λ x. ok (record cl { sets = g x.0 }, x.1)))
  goes_on cl (ok r) g h = h
  goes_on cl undefined g h = absurd h
  goes_on cl exited g h = absurd h
  goes_on cl spinning g h = absurd h

  -- An action of the client.
  pub act-Ends :
      (a : Action) (cl : Client OdbcConnection OdbcResultSet) (w : World)
      → Fits a
      → HoldsAll cl w
      → Ends HoldsAll (act (odbc_connection api fuel) (odbc_result_set api fuel machine) a cl w)
  unfolding act
  act-Ends (reopen target) cl w fits held =
      Ends-bind (λ c' w'. IsAccounted c' w') HoldsAll
        (open_again (odbc_connection api fuel) (odbc_result_set api fuel machine) target cl.conn w)
        _ (open_again-Ends target cl.conn w fits held) λ c w1 held1. held1
  act-Ends shut cl w fits held =
      Ends-bind Closed HoldsAll (Connection.close cl.conn w) _
        (Returns-Ends Closed _ (close-Returns cl.conn w held)) λ r w1 closed. rw closed.1 closed.0
  act-Ends (perform st) cl w fits held =
      goes_on cl (issue (odbc_connection api fuel) st cl.conn w) (λ answer. cl.sets)
        (issue-Stays api fuel ends st cl.conn w held)
  act-Ends (query sql) cl w fits held =
      goes_on cl (Connection.execute_query api sql cl.conn w) (λ found. joined found cl.sets)
        (query-Stays api fuel ends sql cl.conn w held)
  act-Ends (step i) cl w fits held =
      goes_on cl
        (step_set (odbc_connection api fuel) (odbc_result_set api fuel machine) i
          (get_elem? cl.sets i) cl.sets w)
        (λ sets. sets) (step_set-Stays cl.conn i cl.sets w held)
  act-Ends (drop_set i) cl w fits held =
      goes_on cl
        (close_set (odbc_connection api fuel) (odbc_result_set api fuel machine) i
          (get_elem? cl.sets i) cl.sets w)
        (λ sets. sets) (close_set-Stays cl.conn i cl.sets w held)
