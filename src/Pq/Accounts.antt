-- ===== src/Pq/Accounts.antt =====
-- `PQ_Connection` in dbabstract/pq/pq_db.cpp: the connections and results that the driver obtains from
-- libpq and gives back.
use dbabstract.Prelude.{
  ℕ, ◌+◌, ◌≡◌, ◌≢◌, Bool, true, false, ◌∷◌, Bytes, none, arith, ◌==◌, if◌then◌else◌,
}
use dbabstract.Effects.{Log, ok}
use dbabstract.Effects.Post.{Returns, Returns-ok, count}
use dbabstract.Db.{Target}
use dbabstract.Pq.{Event, Api, is_command_ok, connectdb, finish, exec, clear}
use dbabstract.Pq.Connection.{PqConnection, open_database, close, execute_query, run_sql}

abbrev pub held : ℕ → ℕ
held h = if h == 0 then 0 else 1

abbrev pub connects : Event → ℕ
connects (connectdb source h) = held h
connects _ = 0

abbrev pub finishes : Event → ℕ
finishes (finish h) = 1
finishes _ = 0

abbrev pub results : Event → ℕ
results (exec h sql res) = 1
results _ = 0

abbrev pub clears : Event → ℕ
clears (clear res) = 1
clears _ = 0

-- The object holds the one connection that libpq has open, or none is.
abbrev pub IsAccounted : PqConnection → Log Event → Type 0
IsAccounted c log = count connects log ≡ count finishes log + held c.pgconn_

pub close-IsAccounted :
    (c : PqConnection) (log : Log Event)
    → IsAccounted c log
    → Returns (λ r log'. IsAccounted r.1 log' × (r.1.pgconn_ ≡ 0)) (close c log)
unfolding close
close-IsAccounted c log h = ground arith

module _ (api : Api) where
  -- `open` on an object that holds nothing accounts for the connection that libpq made, both where
  -- it succeeds and where it fails.
  open_database-IsAccounted :
      (target : Target) (c : PqConnection) (log : Log Event)
      → c.pgconn_ ≡ 0
      → IsAccounted c log
      → Returns (λ r log'. IsAccounted r.1 log') (open_database api target c log)
  unfolding open_database
  open_database-IsAccounted target c log free h = ground arith

  -- On an object that holds nothing and with every connection accounted for: `open` returns,
  -- `close` behind it returns, whatever `open` answered, and as many connections have then been
  -- finished as were made.
  pub open-close_connections :
      (target : Target) (c : PqConnection) (log : Log Event)
      → c.pgconn_ ≡ 0
      → IsAccounted c log
      → (opened : Bool × PqConnection) × (log1 : Log Event) × (open_database api target c log
          ≡ ok (opened, log1))
        × ((shut : Bool × PqConnection) × (log2 : Log Event) × (close opened.1 log1
              ≡ ok (shut, log2))
            × (count connects log2 ≡ count finishes log2))
  open-close_connections target c log free h =
      let (opened, log1, e1, h1) = Returns-ok _ _ (open_database-IsAccounted target c log free h) in
      let (shut, log2, e2, h2) = Returns-ok _ _ (close-IsAccounted opened.1 log1 h1) in
      (opened, log1, e1, (shut, log2, e2, omega (arith, rw h2.1 at h2.0)))

  -- On an open connection, a query whose result is a plain success hands out no result set, and
  -- its result is held without being cleared.
  pub execute_query_leaks :
      (sql : Bytes) (c : PqConnection) (log : Log Event)
      → c.pgconn_ ≢ 0
      → is_command_ok (api.result_status (api.on_exec log c.pgconn_ sql)) ≡ true
      → (log' : Log Event) × (execute_query api sql c log ≡ ok (none, log'))
        × (count results log' ≡ count results log + 1)
        × (count clears log' ≡ count clears log)
  unfolding execute_query run_sql
  execute_query_leaks sql c log opened plain =
      let open_test : (c.pgconn_ == 0) ≡ false = ground arith in
      (
        exec c.pgconn_ sql (api.on_exec log c.pgconn_ sql) ∷ log,
        rw (open_test, plain),
        omega arith,
        omega arith,
      )
