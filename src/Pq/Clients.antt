-- ===== src/Pq/Clients.antt =====
-- A client of the PostgreSQL driver (dbabstract/pq/pq_db.cpp): each connection and each result of libpq, by
-- its address.
use dbabstract.Prelude.{
  ℕ, ◌+◌, ◌≡◌, ◌≢◌, false, List, ◌∷◌, Bytes, codes, arith, ◌==◌, Bool-cases, inl, inr,
}
use dbabstract.Effects.{Log}
use dbabstract.Effects.Post.{Returns, Returns-both, Returns-weaken, count}
use dbabstract.Convert.{Machine}
use dbabstract.Db.Closed.{Statement, execute, begin, commit, rollback, set_mode, issue}
use dbabstract.Db.Client.{Client, Action, run_client}
use dbabstract.Db.Client.Balance.{
  Ledger, Balances, Keeps, AllAsk, total, run_client-IsBalanced, same, nothing, total-nothing,
}
use dbabstract.Pq.{Event, Api, is_command_ok, connectdb, finish, exec, clear}
use dbabstract.Pq.ResultSet
use dbabstract.Pq.ResultSet.{PqResultSet}
use dbabstract.Pq.Connection
use dbabstract.Pq.Connection.{PqConnection}
use dbabstract.Pq.Driver.{pq_connection, pq_result_set}

abbrev pub connects_of : ℕ → Event → ℕ
connects_of h (connectdb source h') = same h' h
connects_of h _ = 0

abbrev pub finishes_of : ℕ → Event → ℕ
finishes_of h (finish h') = same h' h
finishes_of h _ = 0

abbrev pub execs_of : ℕ → Event → ℕ
execs_of r (exec h sql r') = same r' r
execs_of r _ = 0

abbrev pub clears_of : ℕ → Event → ℕ
clears_of r (clear r') = same r' r
clears_of r _ = 0

abbrev pub connections : ℕ → Ledger (Log Event)
connections h = record { gained = count (connects_of h); lost = count (finishes_of h) }

abbrev pub results : ℕ → Ledger (Log Event)
results r = record { gained = count (execs_of r); lost = count (clears_of r) }

abbrev pub connection_is : ℕ → PqConnection → ℕ
connection_is h c = same c.pgconn_ h

abbrev pub result_is : ℕ → PqResultSet → ℕ
result_is r rs = same rs.res_ r

module _ {D F : Type 0} (api : Api) (fuel : ℕ) (machine : Machine D F) where
  execute-Balances :
      (l : Ledger (Log Event)) (sql : Bytes) (c : PqConnection) (log : Log Event)
      → ((log0 : Log Event) (r : ℕ) → Balances l log0 (clear r ∷ (exec c.pgconn_ sql r ∷ log0)) 0 0)
      → Returns (λ _ log'. Balances l log log' 0 0) (Connection.execute api sql c log)
  unfolding Connection.execute Connection.run_sql
  execute-Balances l sql c log pair = elim (Bool-cases (c.pgconn_ == 0)) [
    | inl null ↦ rw null (omega arith)
    | inr live ↦ rw live (pair log (api.on_exec log c.pgconn_ sql))
  ]

  issue-Balances :
      (l : Ledger (Log Event)) (st : Statement) (c : PqConnection) (log : Log Event)
      → ((sql : Bytes) (log0 : Log Event) (r : ℕ)
          → Balances l log0 (clear r ∷ (exec c.pgconn_ sql r ∷ log0)) 0 0)
      → Returns (λ _ log'. Balances l log log' 0 0) (issue (pq_connection api fuel) st c log)
  unfolding issue Connection.begin_trans Connection.commit_trans Connection.rollback_trans
      Connection.transact Connection.execute Connection.set_transaction_mode
  issue-Balances l (execute sql) c log pair = execute-Balances l sql c log (pair sql)
  issue-Balances l begin c log pair =
      execute-Balances l (codes "BEGIN") c log (pair (codes "BEGIN"))
  issue-Balances l commit c log pair = execute-Balances l (codes "END") c log (pair (codes "END"))
  issue-Balances l rollback c log pair =
      execute-Balances l (codes "ROLLBACK") c log (pair (codes "ROLLBACK"))
  issue-Balances l (set_mode m) c log pair =
      execute-Balances l (Connection.mode_sql api m) c log (pair (Connection.mode_sql api m))

  -- The texts that yield rows, or an error, but never a plain success.
  module _ (asks : Bytes → Type 0)
      (rows : (sql : Bytes) (log : Log Event) (h : ℕ)
        → asks sql
        → is_command_ok (api.result_status (api.on_exec log h sql)) ≡ false) where
    pub connections_kept :
        (h : ℕ)
        → h ≢ 0
        → Keeps
            (pq_connection api fuel)
            (pq_result_set api fuel machine)
            asks
            (connections h)
            (connection_is h)
            nothing
    unfolding Connection.open_database Connection.close Connection.execute_query Connection.run_sql
        ResultSet.next ResultSet.close
    connections_kept h real = record {
      opens = λ target c log null. ground arith;
      closes = λ c log. ground arith;
      issues = λ st c log. issue-Balances (connections h) st c log (λ sql log0 r. omega arith);
      queries = λ sql c log asked. ground arith;
      steps = λ rs log. omega arith;
      set_closes = λ rs log. ground arith;
    }

    pub results_kept :
        (r : ℕ)
        → Keeps
            (pq_connection api fuel)
            (pq_result_set api fuel machine)
            asks
            (results r)
            nothing
            (result_is r)
    unfolding Connection.open_database Connection.close Connection.execute_query Connection.run_sql
        ResultSet.next ResultSet.close
    results_kept r = record {
      opens = λ target c log null. ground arith;
      closes = λ c log. ground arith;
      issues = λ st c log. issue-Balances (results r) st c log (λ sql log0 r'. omega arith);
      queries = λ sql c log asked. ground (arith, rows sql log c.pgconn_ asked);
      steps = λ rs log. omega arith;
      set_closes = λ rs log. ground arith;
    }

    -- If the texts that the client takes as queries never yield a plain success: a client of
    -- the PostgreSQL driver that opens the connection while it is closed, closes it, issues
    -- statements and queries, and steps through and closes its result sets, in any order,
    -- runs to its end whatever libpq answers, and any connection but NULL and any result of
    -- libpq is then accounted for, if it was before: given out as often as it was given back,
    -- and once more for each object of the client's that holds it.
    pub run_client-IsAccounted :
        (h r : ℕ) (actions : List Action) (cl : Client PqConnection PqResultSet) (log : Log Event)
        → h ≢ 0
        → AllAsk asks actions
        → count (connects_of h) log ≡ count (finishes_of h) log + connection_is h cl.conn
        → count (execs_of r) log ≡ count (clears_of r) log + total (result_is r) cl.sets
        → Returns
            (λ cl' log'.
              (count (connects_of h) log' ≡ count (finishes_of h) log' + connection_is h cl'.conn)
              × (count (execs_of r) log' ≡ count (clears_of r) log' + total (result_is r) cl'.sets))
            (run_client (pq_connection api fuel) (pq_result_set api fuel machine) actions cl log)
    run_client-IsAccounted h r actions cl log real asked held_h held_r =
        let c = pq_connection api fuel in
        let rs = pq_result_set api fuel machine in
        Returns-weaken _ _ (run_client c rs actions cl log)
          (Returns-both _ _ (run_client c rs actions cl log)
            (run_client-IsBalanced c rs asks (connections h) (connection_is h) nothing
              (connections_kept h real) actions cl log asked
              (omega (arith, held_h, total-nothing cl.sets)))
            (run_client-IsBalanced c rs asks (results r) nothing (result_is r) (results_kept r)
              actions cl log asked (omega (arith, held_r))))
          λ cl' log' both. (omega (arith, both.0, total-nothing cl'.sets), omega (arith, both.1))
