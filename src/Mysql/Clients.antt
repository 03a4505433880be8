-- ===== src/Mysql/Clients.antt =====
-- A client of the MySQL driver (dbabstract/mysql/mysql_db.cpp): each handle and each result of the client
-- library, by its address.
use dbabstract.Prelude.{ℕ, ◌+◌, ◌≡◌, ◌≢◌, List, arith}
use dbabstract.Effects.{Log}
use dbabstract.Effects.Post.{Returns, Returns-both, Returns-weaken, count}
use dbabstract.Convert.{Machine}
use dbabstract.Db.Client.{Client, Action, run_client}
use dbabstract.Db.Client.Balance.{
  Ledger, Keeps, total, run_client-IsBalanced, same, nothing, total-nothing, actions-AllAsk,
}
use dbabstract.Mysql.{Event, Api, init, close_handle, use_result, list_tables, free_result}
use dbabstract.Mysql.ResultSet
use dbabstract.Mysql.ResultSet.{MysqlResultSet}
use dbabstract.Mysql.Connection
use dbabstract.Mysql.Connection.{MysqlConnection}
use dbabstract.Mysql.Loops.{RowsEnd, Ignores, issue-Balances, close-Balances}
use dbabstract.Mysql.Driver.{mysql_connection, mysql_result_set}

abbrev pub inits_of : ℕ → Event → ℕ
inits_of h (init h') = same h' h
inits_of h _ = 0

abbrev pub closings_of : ℕ → Event → ℕ
closings_of h (close_handle h') = same h' h
closings_of h _ = 0

abbrev pub results_of : ℕ → Event → ℕ
results_of r (use_result h r') = same r' r
results_of r (list_tables h r') = same r' r
results_of r _ = 0

abbrev pub frees_of : ℕ → Event → ℕ
frees_of r (free_result r') = same r' r
frees_of r _ = 0

abbrev pub handles : ℕ → Ledger (Log Event)
handles h = record { gained = count (inits_of h); lost = count (closings_of h) }

abbrev pub results : ℕ → Ledger (Log Event)
results r = record { gained = count (results_of r); lost = count (frees_of r) }

abbrev pub handle_is : ℕ → MysqlConnection → ℕ
handle_is h c = same c.mysql_ h

abbrev pub result_is : ℕ → MysqlResultSet → ℕ
result_is r rs = same rs.res_ r

module _ {D F : Type 0} (api : Api) (fuel : ℕ) (machine : Machine D F)
    (ends : RowsEnd api fuel) where
  handles-Ignores : (h : ℕ) → Ignores (handles h)
  handles-Ignores h = record {
    queries = λ log h' sql rc. omega arith;
    fetches = λ log r row. omega arith;
  }

  results-Ignores : (r : ℕ) → Ignores (results r)
  results-Ignores r = record {
    queries = λ log h' sql rc. omega arith;
    fetches = λ log r' row. omega arith;
  }

  pub handles_kept :
      (h : ℕ)
      → h ≢ 0
      → Keeps
          (mysql_connection api fuel)
          (mysql_result_set api fuel machine)
          (λ sql. Unit)
          (handles h)
          (handle_is h)
          nothing
  unfolding Connection.open_database Connection.open_handle Connection.close
      Connection.execute_query Connection.send ResultSet.next ResultSet.fetch
  handles_kept h real = record {
    opens = λ target c log null. ground arith;
    closes = λ c log. ground arith;
    issues = λ st c log. issue-Balances api fuel ends (handles h) st c log (handles-Ignores h);
    queries = λ sql c log asked. ground arith;
    steps = λ rs log. omega arith;
    set_closes = λ rs log.
        close-Balances api fuel ends (handles h) rs log nothing (handles-Ignores h)
          (λ log0 live. omega arith);
  }

  pub results_kept :
      (r : ℕ)
      → r ≢ 0
      → Keeps
          (mysql_connection api fuel)
          (mysql_result_set api fuel machine)
          (λ sql. Unit)
          (results r)
          nothing
          (result_is r)
  unfolding Connection.open_database Connection.open_handle Connection.close
      Connection.execute_query Connection.send ResultSet.next ResultSet.fetch
  results_kept r real = record {
    opens = λ target c log null. ground arith;
    closes = λ c log. ground arith;
    issues = λ st c log. issue-Balances api fuel ends (results r) st c log (results-Ignores r);
    queries = λ sql c log asked. ground arith;
    steps = λ rs log. omega arith;
    set_closes = λ rs log.
        close-Balances api fuel ends (results r) rs log (result_is r) (results-Ignores r)
          (λ log0 live. omega arith);
  }

  -- If a result of the library has fewer rows than the loop of `close` may make rounds: a
  -- client of the MySQL driver that opens the connection while it is closed, closes it, issues
  -- statements and queries, and steps through and closes its result sets, in any order, runs to
  -- its end, and any handle and any result but NULL is then accounted for, if it was before:
  -- given out as often as it was given back, and once more for each object of the client's that
  -- holds it.
  pub run_client-IsHeld :
      (h r : ℕ) (actions : List Action) (cl : Client MysqlConnection MysqlResultSet)
      (log : Log Event)
      → h ≢ 0
      → r ≢ 0
      → count (inits_of h) log ≡ count (closings_of h) log + handle_is h cl.conn
      → count (results_of r) log ≡ count (frees_of r) log + total (result_is r) cl.sets
      → Returns
          (λ cl' log'.
            (count (inits_of h) log' ≡ count (closings_of h) log' + handle_is h cl'.conn)
            × (count (results_of r) log' ≡ count (frees_of r) log' + total (result_is r) cl'.sets))
          (run_client
            (mysql_connection api fuel)
            (mysql_result_set api fuel machine)
            actions
            cl
            log)
  run_client-IsHeld h r actions cl log real_h real_r held_h held_r =
      let c = mysql_connection api fuel in
      let rs = mysql_result_set api fuel machine in
      let asked = actions-AllAsk actions in
      Returns-weaken _ _ (run_client c rs actions cl log)
        (Returns-both _ _ (run_client c rs actions cl log)
          (run_client-IsBalanced c rs (λ sql. Unit) (handles h) (handle_is h) nothing
            (handles_kept h real_h) actions cl log asked
            (omega (arith, held_h, total-nothing cl.sets)))
          (run_client-IsBalanced c rs (λ sql. Unit) (results r) nothing (result_is r)
            (results_kept r real_r) actions cl log asked (omega (arith, held_r))))
        λ cl' log' both. (omega (arith, both.0, total-nothing cl'.sets), omega (arith, both.1))
