-- ===== src/Mysql/Connection.antt =====
-- dbabstract/mysql/mysql_db.cpp: `MySQL_Connection`.
use dbabstract.Prelude.{
  ℕ, zero, suc, ◌+◌, ◌*◌, Bool, true, false, List, [], ◌∷◌, ◌++◌, Bytes, codes, Option, none, some,
  ◌==◌, if◌then◌else◌, length, take,
}
use dbabstract.Prelude.Int.{ℤ}
use dbabstract.Effects.{
  Log, Program, Result, ok, spinning, pure, lift, call, deref, and_then, ◌>>=◌, ◌>>◌,
}
use dbabstract.C.Memory.{new_char, write, write_all}
use dbabstract.Convert.{time_literal, quote}
use dbabstract.Db.{
  TransMode, read_uncommitted, read_committed, repeatable_read, serializable, Target,
}
use dbabstract.Mysql.{
  Event, Api, init, real_connect, select_db, close_handle, ping, query, use_result, list_tables,
}
use dbabstract.Mysql.ResultSet
use dbabstract.Mysql.ResultSet.{MysqlResultSet, new_result_set}

pub record MysqlConnection : Type 0 where
  pub mysql_ : ℕ

-- `new MySQL_Connection`
unfoldable pub create_connection : MysqlConnection
create_connection = record { mysql_ = 0 }

abbrev silent : Event → Program (Log Event) (Unit {0})
silent event = call (λ _. tt) (λ _. event)

unfoldable pub close : MysqlConnection → Program (Log Event) (Bool × MysqlConnection)
close c =
    if c.mysql_ == 0
    then pure (false, c)
    else (do silent (close_handle c.mysql_); pure (true, record { mysql_ = 0 }))

-- The block that `escape` returns. `escaped` is what the library writes into it, with a NUL.
unfoldable pub escape_block : (ℕ → ℕ) → Bytes → Bytes → Result Bytes
escape_block garbage str escaped =
    let len = length escaped in
    and_then (write (new_char garbage (length str * 2 + 4)) 0 quote) (λ b0.
      and_then (write_all b0 1 (escaped ++ (0 ∷ [])))
        (λ b1. and_then (write b1 (len + 1) quote) (λ b2. write b2 (len + 2) 0)))

module _ (api : Api) where
  unfoldable pub send : ℕ → Bytes → Program (Log Event) ℕ
  send mysql sql = call (λ log. api.on_query log mysql sql) (query mysql sql)

  -- `open` behind `mysql_init`: on a failure the handle stays in the object.
  unfoldable pub open_handle : Target → ℕ → Program (Log Event) (Bool × MysqlConnection)
  open_handle target mysql = do
    joined ← call (λ log. api.on_real_connect log mysql target) (real_connect mysql target)
    if joined
        then (do
          rc ←
              call (λ log. api.on_select_db log mysql target.database)
                (select_db mysql target.database)
          pure (rc == 0, record { mysql_ = mysql }))
        else pure (false, record { mysql_ = mysql })

  unfoldable pub open_database :
      Target → MysqlConnection → Program (Log Event) (Bool × MysqlConnection)
  unfolding open_handle
  open_database target c = do
    mysql ← call api.on_init init
    if mysql == 0 then pure (false, record { mysql_ = 0 }) else open_handle target mysql

  unfoldable pub is_connected : MysqlConnection → Program (Log Event) Bool
  is_connected c =
      if c.mysql_ == 0
      then pure false
      else (do rc ← call (λ log. api.on_ping log c.mysql_) (ping c.mysql_); pure (rc == 0))

  unfoldable pub execute : Bytes → MysqlConnection → Program (Log Event) Bool
  unfolding send
  execute sql c = if c.mysql_ == 0 then pure false else (do rc ← send c.mysql_ sql; pure (rc == 0))

  unfoldable pub execute_query :
      Bytes → MysqlConnection → Program (Log Event) (Option MysqlResultSet)
  unfolding send
  execute_query sql c = if c.mysql_ == 0 then pure none else (do
    rc ← send c.mysql_ sql
    if rc == 0
        then (do
          res ← call (λ log. api.on_use_result log c.mysql_) (use_result c.mysql_)
          pure (if res == 0 then none else some (new_result_set res)))
        else pure none)

  unfoldable pub escape : Bytes → MysqlConnection → Program (Log Event) Bytes
  escape str c log = lift (escape_block (api.garbage log) str (api.escape_string str)) log

  unfoldable pub unixtime_to_sql : ℤ → MysqlConnection → Program (Log Event) Bytes
  unixtime_to_sql val c log = lift (time_literal (api.garbage log) val) log

  unfoldable pub insert_id : MysqlConnection → Program (Log Event) ℕ
  insert_id c log = ok (api.on_insert_id log c.mysql_, log)

  unfoldable pub begin_trans : MysqlConnection → Program (Log Event) Bool
  unfolding send
  begin_trans c = if c.mysql_ == 0 then pure false else (do
    rc ← send c.mysql_ (codes "SET AUTOCOMMIT = 0")
    if rc == 0 then (do rc' ← send c.mysql_ (codes "BEGIN"); pure (rc' == 0)) else pure false)

  unfoldable pub commit_trans : MysqlConnection → Program (Log Event) Bool
  unfolding send
  commit_trans c =
      if c.mysql_ == 0 then pure false else (do rc ← send c.mysql_ (codes "COMMIT"); pure (rc == 0))

  unfoldable pub rollback_trans : MysqlConnection → Program (Log Event) Bool
  unfolding send
  rollback_trans c =
      if c.mysql_ == 0
      then pure false
      else (do rc ← send c.mysql_ (codes "ROLLBACK"); pure (rc == 0))

  unfoldable pub mode_sql : TransMode → Bytes
  mode_sql read_uncommitted = codes "SET SESSION TRANSACTION ISOLATION LEVEL READ UNCOMMITTED"
  mode_sql read_committed = codes "SET SESSION TRANSACTION ISOLATION LEVEL READ COMMITTED"
  mode_sql repeatable_read = codes "SET SESSION TRANSACTION ISOLATION LEVEL REPEATABLE READ"
  mode_sql serializable = codes "SET SESSION TRANSACTION ISOLATION LEVEL SERIALIZABLE"

  unfoldable pub set_transaction_mode : TransMode → MysqlConnection → Program (Log Event) Bool
  unfolding mode_sql
  set_transaction_mode mode c = execute (mode_sql mode) c

  unfoldable pub errorno : MysqlConnection → Program (Log Event) ℕ
  errorno c log = ok (api.errno log c.mysql_, log)

  unfoldable pub errormsg : MysqlConnection → Program (Log Event) (Option Bytes)
  errormsg c log = ok (api.error log c.mysql_, log)

  -- `snprintf` keeps 255 bytes.
  unfoldable pub version : MysqlConnection → Program (Log Event) Bytes
  version c =
      pure (take 255 (codes "MySQL Driver v0.2 using MySQL client library v" ++ api.client_info))

  -- The loop of `tables`. A NULL column is no `std::string`.
  unfoldable pub collect : ℕ → MysqlResultSet → List Bytes → Program (Log Event) (List Bytes)
  collect zero rs names log = lift spinning log
  collect (suc rounds) rs names log =
      (do
        r ← ResultSet.next api rs
        if r.0
            then (do
              v ← ResultSet.get_string 0 r.1
              name ← lift (deref v)
              collect rounds r.1 (names ++ (name ∷ [])))
            else pure names)
        log

  unfoldable pub tables : ℕ → MysqlConnection → Program (Log Event) (List Bytes)
  tables fuel c = do
    res ← call (λ log. api.on_list_tables log c.mysql_) (list_tables c.mysql_)
    names ← collect fuel (new_result_set res) []
    ResultSet.close api fuel (new_result_set res) >>= λ _. pure names
