-- ===== src/Mysql/Retries.antt =====
-- `MySQL_Connection::open` (dbabstract/mysql/mysql_db.cpp) twice on one object, the first time in vain.
use dbabstract.Prelude.{ℕ, ◌+◌, ◌≡◌, ◌≢◌, Bool, false, ◌∷◌, arith, ◌==◌, if◌then◌else◌}
use dbabstract.Effects.{Log, Program, ok, ◌>>=◌}
use dbabstract.Effects.Post.{Returns, count}
use dbabstract.Db.{Target}
use dbabstract.Mysql.{Event, Api, init, real_connect}
use dbabstract.Mysql.Connection.{MysqlConnection, open_database, open_handle, close}
use dbabstract.Mysql.Clients.{inits_of, closings_of}

module _ (api : Api) where
  -- A client that opens, and where that fails opens again, and closes in the end.
  abbrev pub retry_once :
      Target → Target → MysqlConnection → Program (Log Event) (Bool × MysqlConnection)
  retry_once first second c = do
    r ← open_database api first c
    r' ← if r.0 then (λ log. ok (r, log)) else open_database api second r.1
    close r'.1

  -- If `open` of the MySQL driver cannot connect with the handle that it made, and the second
  -- `open` of the same object makes another handle or none: after a `close` behind that, the
  -- first handle has been made once more, and not closed once more, than before.
  pub retry-leaks_handle :
      (first second : Target) (c : MysqlConnection) (log : Log Event) (h h' : ℕ)
      → api.on_init log ≡ h
      → h ≢ 0
      → api.on_real_connect (init h ∷ log) h first ≡ false
      → api.on_init (real_connect h first false ∷ (init h ∷ log)) ≡ h'
      → h' ≢ h
      → Returns
          (λ r log'.
            count (inits_of h) log' + count (closings_of h) log
            ≡ count (inits_of h) log + count (closings_of h) log' + 1)
          (retry_once first second c log)
  unfolding open_database open_handle close
  retry-leaks_handle first second c log h h' made real refused again other =
      let null : (h == 0) ≡ false = ground arith in
      rw (made, null, refused, again) (ground (arith, null))
