-- ===== src/Mysql/Accounts.antt =====
-- `MySQL_Connection::open` and `close` in dbabstract/mysql/mysql_db.cpp: the handles that the driver
-- obtains from the library and gives back.
use dbabstract.Prelude.{ℕ, ◌+◌, ◌≡◌, Bool, arith, ◌==◌, if◌then◌else◌}
use dbabstract.Effects.{Log, ok}
use dbabstract.Effects.Post.{Returns, Returns-ok, count}
use dbabstract.Db.{Target}
use dbabstract.Mysql.{Event, Api, init, close_handle}
use dbabstract.Mysql.Connection.{MysqlConnection, open_database, open_handle, close}

abbrev pub held : ℕ → ℕ
held h = if h == 0 then 0 else 1

abbrev pub inits : Event → ℕ
inits (init h) = held h
inits _ = 0

abbrev pub closings : Event → ℕ
closings (close_handle h) = 1
closings _ = 0

-- The object holds the one handle that the library has open, or none is.
abbrev pub IsAccounted : MysqlConnection → Log Event → Type 0
IsAccounted c log = count inits log ≡ count closings log + held c.mysql_

module _ (api : Api) where
  open_database-IsAccounted :
      (target : Target) (c : MysqlConnection) (log : Log Event)
      → c.mysql_ ≡ 0
      → IsAccounted c log
      → Returns (λ r log'. IsAccounted r.1 log') (open_database api target c log)
  unfolding open_database open_handle
  open_database-IsAccounted target c log free h = ground arith

  close-IsAccounted :
      (c : MysqlConnection) (log : Log Event)
      → IsAccounted c log
      → Returns (λ r log'. IsAccounted r.1 log' × (r.1.mysql_ ≡ 0)) (close c log)
  unfolding close
  close-IsAccounted c log h = ground arith

  -- On an object that holds nothing and with every handle accounted for: `open` returns,
  -- `close` behind it returns, whatever `open` answered, and as many handles have then been
  -- closed as were made.
  pub open-close_handles :
      (target : Target) (c : MysqlConnection) (log : Log Event)
      → c.mysql_ ≡ 0
      → IsAccounted c log
      → (opened : Bool × MysqlConnection) × (log1 : Log Event) × (open_database api target c log
          ≡ ok (opened, log1))
        × ((shut : Bool × MysqlConnection) × (log2 : Log Event) × (close opened.1 log1
              ≡ ok (shut, log2))
            × (count inits log2 ≡ count closings log2))
  open-close_handles target c log free h =
      let (opened, log1, e1, h1) = Returns-ok _ _ (open_database-IsAccounted target c log free h) in
      let (shut, log2, e2, h2) = Returns-ok _ _ (close-IsAccounted opened.1 log1 h1) in
      (opened, log1, e1, (shut, log2, e2, omega (arith, rw h2.1 at h2.0)))
