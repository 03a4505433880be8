-- ===== src/Sqlite3/Clients.antt =====
-- A client of the SQLite driver (dbabstract/sqlite3/sqlite3_db.cpp): each prepared statement and each error
-- message, by its address.
use dbabstract.Prelude.{
  ℕ, ◌+◌, ◌≡◌, ◌≢◌, false, List, Bytes, arith, ◌==◌, if◌then◌else◌, Bool-cases, inl, inr,
}
use dbabstract.Effects.{Log, ok}
use dbabstract.Effects.Post.{Returns, Returns-both, Returns-weaken, count}
use dbabstract.Convert.{Machine}
use dbabstract.Db.Closed.{Statement, execute, begin, commit, rollback, set_mode, issue}
use dbabstract.Db.Client.{Client, Action, run_client}
use dbabstract.Db.Client.Balance.{
  Ledger, Balances, Keeps, total, run_client-IsBalanced, same, nothing, total-nothing,
  actions-AllAsk,
}
use dbabstract.Sqlite3.{
  Event, Api, sqlite3_prepare, sqlite3_finalize, sqlite3_exec, sqlite3_free, sqlite_ok,
}
use dbabstract.Sqlite3.Loops.{StepsEnd, Ignores, next-Balances, close-Balances}
use dbabstract.Sqlite3.ResultSet.{Sqlite3ResultSet}
use dbabstract.Sqlite3.Connection
use dbabstract.Sqlite3.Connection.{Sqlite3Connection}
use dbabstract.Sqlite3.Driver.{sqlite3_connection, sqlite3_result_set}

-- SQLite stores no statement where it fails.
abbrev pub prepares_of : ℕ → Event → ℕ
prepares_of s (sqlite3_prepare h sql (rc, s')) = if rc == sqlite_ok then same s' s else 0
prepares_of s _ = 0

abbrev pub finalizes_of : ℕ → Event → ℕ
finalizes_of s (sqlite3_finalize s') = same s' s
finalizes_of s _ = 0

abbrev pub statements : ℕ → Ledger (Log Event)
statements s = record { gained = count (prepares_of s); lost = count (finalizes_of s) }

abbrev pub statement_is : ℕ → Sqlite3ResultSet → ℕ
statement_is s rs = same rs.res_ s

abbrev pub messages_of : ℕ → Event → ℕ
messages_of m (sqlite3_exec h sql (rc, err)) = same err m
messages_of m _ = 0

abbrev pub frees_of : ℕ → Event → ℕ
frees_of m (sqlite3_free err) = same err m
frees_of m _ = 0

abbrev pub messages : ℕ → Ledger (Log Event)
messages m = record { gained = count (messages_of m); lost = count (frees_of m) }

module _ {D F : Type 0} (api : Api) (fuel : ℕ) (machine : Machine D F)
    (ends : StepsEnd api fuel) where
  module _ (l : Ledger (Log Event))
      (executes : (sql : Bytes) (c : Sqlite3Connection) (log : Log Event)
        → Returns (λ _ log'. Balances l log log' 0 0) (Connection.execute api sql c log)) where
    guarded-Balances :
        (sql : Bytes) (c : Sqlite3Connection) (log : Log Event)
        → Returns
            (λ _ log'. Balances l log log' 0 0)
            ((if c.db_ == 0 then (λ w. ok (false, w)) else Connection.execute api sql c) log)
    guarded-Balances sql c log = elim (Bool-cases (c.db_ == 0)) [
      | inl null ↦ rw null (omega arith)
      | inr live ↦ rw live (executes sql c log)
    ]

    issue-Balances :
        (st : Statement) (c : Sqlite3Connection) (log : Log Event)
        → Returns (λ _ log'. Balances l log log' 0 0) (issue (sqlite3_connection api fuel) st c log)
    unfolding issue Connection.begin_trans Connection.commit_trans Connection.rollback_trans
        Connection.set_transaction_mode
    issue-Balances (execute sql) c log = executes sql c log
    issue-Balances begin c log = guarded-Balances _ c log
    issue-Balances commit c log = guarded-Balances _ c log
    issue-Balances rollback c log = guarded-Balances _ c log
    issue-Balances (set_mode m) c log = executes _ c log

  pub statements-Ignores : (s : ℕ) → Ignores (statements s)
  statements-Ignores s = record {
    stepped = λ log res rc. omega arith;
    slept = λ log n. omega arith;
  }

  messages-Ignores : (m : ℕ) → Ignores (messages m)
  messages-Ignores m = record { stepped = λ log res rc. omega arith; slept = λ log n. omega arith }

  statements-execute :
      (s : ℕ) (sql : Bytes) (c : Sqlite3Connection) (log : Log Event)
      → Returns (λ _ log'. Balances (statements s) log log' 0 0) (Connection.execute api sql c log)
  unfolding Connection.execute
  statements-execute s sql c log = ground arith

  messages-execute :
      (m : ℕ)
      → m ≢ 0
      → (sql : Bytes) (c : Sqlite3Connection) (log : Log Event)
      → Returns (λ _ log'. Balances (messages m) log log' 0 0) (Connection.execute api sql c log)
  unfolding Connection.execute
  messages-execute m real sql c log = ground arith

  pub statements_kept :
      (s : ℕ)
      → s ≢ 0
      → Keeps
          (sqlite3_connection api fuel)
          (sqlite3_result_set api fuel machine)
          (λ sql. Unit)
          (statements s)
          nothing
          (statement_is s)
  unfolding Connection.open_database Connection.close Connection.execute_query
  statements_kept s real = record {
    opens = λ target c log null. ground arith;
    closes = λ c log. ground arith;
    issues = λ st c log. issue-Balances (statements s) (statements-execute s) st c log;
    queries = λ sql c log asked. ground arith;
    steps = next-Balances api fuel ends (statements s) (statements-Ignores s) (statement_is s);
    set_closes = λ rs log.
        close-Balances api fuel ends (statements s) (statements-Ignores s) (statement_is s) rs log
          (λ log0 live. omega arith);
  }

  pub messages_kept :
      (m : ℕ)
      → m ≢ 0
      → Keeps
          (sqlite3_connection api fuel)
          (sqlite3_result_set api fuel machine)
          (λ sql. Unit)
          (messages m)
          nothing
          nothing
  unfolding Connection.open_database Connection.close Connection.execute_query
  messages_kept m real = record {
    opens = λ target c log null. ground arith;
    closes = λ c log. ground arith;
    issues = λ st c log. issue-Balances (messages m) (messages-execute m real) st c log;
    queries = λ sql c log asked. ground arith;
    steps = next-Balances api fuel ends (messages m) (messages-Ignores m) nothing;
    set_closes = λ rs log.
        close-Balances api fuel ends (messages m) (messages-Ignores m) nothing rs log
          (λ log0 live. omega arith);
  }

  -- If a statement of SQLite ends in fewer steps than the loops may make rounds: a client of
  -- the SQLite driver that opens the connection while it is closed, closes it, issues
  -- statements and queries, and steps through and closes its result sets, in any order, runs to
  -- its end; any prepared statement but NULL has then been given out as often as it was
  -- finalized, and once more for each result set of the client's that holds it, and any error
  -- message but NULL has been freed as often as it was given out, if both were so before.
  pub run_client-IsPrepared :
      (s m : ℕ) (actions : List Action) (cl : Client Sqlite3Connection Sqlite3ResultSet)
      (log : Log Event)
      → s ≢ 0
      → m ≢ 0
      → count (prepares_of s) log ≡ count (finalizes_of s) log + total (statement_is s) cl.sets
      → count (messages_of m) log ≡ count (frees_of m) log
      → Returns
          (λ cl' log'.
            (count (prepares_of s) log'
              ≡ count (finalizes_of s) log' + total (statement_is s) cl'.sets)
            × (count (messages_of m) log' ≡ count (frees_of m) log'))
          (run_client
            (sqlite3_connection api fuel)
            (sqlite3_result_set api fuel machine)
            actions
            cl
            log)
  run_client-IsPrepared s m actions cl log real_s real_m held_s held_m =
      let c = sqlite3_connection api fuel in
      let rs = sqlite3_result_set api fuel machine in
      let asked = actions-AllAsk actions in
      Returns-weaken _ _ (run_client c rs actions cl log)
        (Returns-both _ _ (run_client c rs actions cl log)
          (run_client-IsBalanced c rs (λ sql. Unit) (statements s) nothing (statement_is s)
            (statements_kept s real_s) actions cl log asked (omega (arith, held_s)))
          (run_client-IsBalanced c rs (λ sql. Unit) (messages m) nothing nothing
            (messages_kept m real_m) actions cl log asked
            (omega (arith, held_m, total-nothing cl.sets))))
        λ cl' log' both. (omega (arith, both.0), omega (arith, both.1, total-nothing cl'.sets))
