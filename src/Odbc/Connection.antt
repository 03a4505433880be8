-- ===== src/Odbc/Connection.antt =====
-- dbabstract/odbc/odbc_db.cpp: `ODBC_Connection`, but for `ODBC_Errors`. A `strcpy` past the end of a
-- local array is undefined. The local and global blocks that only receive text are left out.
use dbabstract.Prelude.{
  ℕ, zero, suc, ◌+◌, ◌*◌, ◌%◌, ◌^◌, Bool, true, false, List, [], ◌∷◌, ◌++◌, Bytes, codes, Option,
  none, some, ◌==◌, if◌then◌else◌, length, take, ltb,
}
use dbabstract.Prelude.Int.{ℤ}
use dbabstract.Effects.{Program, Result, ok, undefined, spinning, pure, lift, and_then, ◌>>=◌, ◌>>◌}
use dbabstract.C.Num.{to_uint, increment}
use dbabstract.C.Memory.{new_char, write_all, write, c_string}
use dbabstract.Convert.{time_literal, quote}
use dbabstract.Db.{
  TransMode, read_uncommitted, read_committed, repeatable_read, serializable, Target,
}
use dbabstract.Odbc.{
  Api, World, Status, HandleKind, env, dbc, stmt, Diagnostic, is_success, succeeded, ask, tell,
  alloc_handle, free_handle, set_env_attr, driver_connect, disconnect, close_cursor, prepare, run,
  fetch, get_data, list_tables, get_diag_rec,
}
use dbabstract.Odbc.ResultSet.{OdbcResultSet, new_result_set}
use dbabstract.Odbc.Errors.{OdbcConnection, odbc_errors}

-- `new ODBC_Connection`
unfoldable pub create_connection : OdbcConnection
create_connection = record { henv = 0; hdbc = 0; hstmt = 0; connected = false }

-- `buf[pos++] = v`: the block, and how far it is written.
unfoldable pub put : Bytes × ℕ → ℕ → Result (Bytes × ℕ)
put r v = and_then (write r.0 r.1 v) (λ buf. and_then (increment r.1) (λ pos. ok (buf, pos)))

unfoldable pub escape_byte : Bytes × ℕ → ℕ → Result (Bytes × ℕ)
escape_byte r c = if c == quote then and_then (put r quote) (λ r1. put r1 quote) else put r c

-- The loop of `escape`, with its `i`.
unfoldable pub escape_loop : Bytes → ℕ → Bytes × ℕ → Result (Bytes × ℕ)
escape_loop [] i r = ok r
escape_loop (c ∷ str) i r =
    and_then (escape_byte r c) (λ r1. and_then (increment i) (λ j. escape_loop str j r1))

-- The block that `escape` returns.
unfoldable pub escape_block : (ℕ → ℕ) → Bytes → Result Bytes
escape_block garbage str =
    and_then (write (new_char garbage ((length str * 2 + 4) % 2 ^ 64)) 0 quote) (λ b0.
      and_then (escape_loop str 0 (b0, 1)) (λ r. and_then (put r quote) (λ r1. write r1.0 r1.1 0)))

-- The four steps of `close`.
unfoldable pub close_statement : OdbcConnection → Program World OdbcConnection
close_statement c = if c.hstmt == 0 then pure c else (do
  tell (close_cursor c.hstmt)
  tell (free_handle stmt c.hstmt)
  pure (record c { hstmt = 0 }))

unfoldable pub close_session : OdbcConnection → Program World OdbcConnection
close_session c =
    if c.connected
    then (do tell (disconnect c.hdbc); pure (record c { connected = false }))
    else pure c

unfoldable pub close_connection : OdbcConnection → Program World OdbcConnection
close_connection c =
    if c.hdbc == 0 then pure c else (do tell (free_handle dbc c.hdbc); pure (record c { hdbc = 0 }))

unfoldable pub close_environment : OdbcConnection → Program World OdbcConnection
close_environment c =
    if c.henv == 0 then pure c else (do tell (free_handle env c.henv); pure (record c { henv = 0 }))

unfoldable pub close : OdbcConnection → Program World (Bool × OdbcConnection)
close c = do
  c1 ← close_statement c
  c2 ← close_session c1
  c3 ← close_connection c2
  c4 ← close_environment c3
  pure (true, c4)

module _ (api : Api) where
  -- `SQLAllocHandle`: the status, and the handle that it stores.
  unfoldable pub allocate : HandleKind → ℕ → Program World (Status × ℕ)
  allocate kind parent = ask (λ log. api.on_alloc_handle log kind parent) (alloc_handle kind parent)

  -- `open` behind the connect: the statement handle.
  unfoldable pub open_statement : OdbcConnection → Program World (Bool × OdbcConnection)
  unfolding allocate
  open_statement c = do r ← allocate stmt c.hdbc; pure (is_success r.0, record c { hstmt = r.1 })

  unfoldable pub connect : Bytes → OdbcConnection → Program World (Bool × OdbcConnection)
  connect source c = do
    status ← ask (λ log. api.on_driver_connect log c.hdbc source) (driver_connect c.hdbc source)
    if succeeded status
        then open_statement (record c { connected = true })
        else (do odbc_errors api c; pure (false, c))

  unfoldable pub open_connection : Bytes → OdbcConnection → Program World (Bool × OdbcConnection)
  unfolding allocate
  open_connection source c = do
    tell (set_env_attr c.henv)
    r ← allocate dbc c.henv
    if is_success r.0
        then connect source (record c { hdbc = r.1 })
        else pure (false, record c { hdbc = r.1 })

  unfoldable pub open_database : Target → OdbcConnection → Program World (Bool × OdbcConnection)
  unfolding allocate
  open_database target c =
      if ltb (length target.database) 1024
      then (do
        r ← allocate env 0
        if is_success r.0
            then open_connection target.database (record c { henv = r.1 })
            else pure (false, record c { henv = r.1 }))
      else lift undefined

  unfoldable pub is_connected : OdbcConnection → Program World Bool
  is_connected c = pure true

  unfoldable pub sql_prepare : Bytes → OdbcConnection → Program World Status
  sql_prepare sql c = ask (λ log. api.on_prepare log c.hstmt sql) (prepare c.hstmt sql)

  unfoldable pub sql_execute : OdbcConnection → Program World Status
  sql_execute c = ask (λ log. api.on_execute log c.hstmt) (run c.hstmt)

  unfoldable pub execute : Bytes → OdbcConnection → Program World Bool
  unfolding sql_prepare sql_execute
  execute sql c =
      if c.connected
      then (do
        prepared ← sql_prepare sql c
        if is_success prepared then (do sts ← sql_execute c; pure (succeeded sts)) else pure false)
      else pure false

  unfoldable pub execute_query : Bytes → OdbcConnection → Program World (Option OdbcResultSet)
  unfolding sql_prepare sql_execute
  execute_query sql c =
      if c.connected
      then (do
        prepared ← sql_prepare sql c
        if is_success prepared
            then (do
              sts ← sql_execute c
              if is_success sts then pure (some (new_result_set c.hstmt)) else pure none)
            else pure none)
      else pure none

  unfoldable pub escape : Bytes → OdbcConnection → Program World Bytes
  escape str c w = lift (escape_block (api.garbage w.log) str) w

  unfoldable pub unixtime_to_sql : ℤ → OdbcConnection → Program World Bytes
  unixtime_to_sql val c w = lift (time_literal (api.garbage w.log) val) w

  unfoldable pub insert_id : OdbcConnection → Program World ℕ
  insert_id c = pure 0

  unfoldable pub begin_trans : OdbcConnection → Program World Bool
  begin_trans c = if c.connected then execute (codes "BEGIN") c else pure false

  unfoldable pub commit_trans : OdbcConnection → Program World Bool
  commit_trans c = if c.connected then execute (codes "COMMIT") c else pure false

  unfoldable pub rollback_trans : OdbcConnection → Program World Bool
  rollback_trans c = if c.connected then execute (codes "ROLLBACK") c else pure false

  unfoldable pub mode_sql : TransMode → Bytes
  mode_sql read_uncommitted = codes "SET SESSION TRANSACTION ISOLATION LEVEL READ UNCOMMITTED"
  mode_sql read_committed = codes "SET SESSION TRANSACTION ISOLATION LEVEL READ COMMITTED"
  mode_sql repeatable_read = codes "SET SESSION TRANSACTION ISOLATION LEVEL REPEATABLE READ"
  mode_sql serializable = codes "SET SESSION TRANSACTION ISOLATION LEVEL SERIALIZABLE"

  unfoldable pub set_transaction_mode : TransMode → OdbcConnection → Program World Bool
  unfolding mode_sql
  set_transaction_mode mode c = execute (mode_sql mode) c

  -- The record that `errorno` and `errormsg` ask for has the number 0.
  unfoldable pub last_diagnostic : OdbcConnection → Program World Diagnostic
  last_diagnostic c =
      ask (λ log. api.on_get_diag_rec log stmt c.hstmt 0) (get_diag_rec stmt c.hstmt 0)

  -- `(unsigned int)` of the native error
  unfoldable pub errorno : OdbcConnection → Program World ℕ
  errorno c = do
    d ← last_diagnostic c
    pure (if succeeded d.status then to_uint d.native_error else 0)

  unfoldable pub errormsg : OdbcConnection → Program World (Option Bytes)
  errormsg c = do
    odbc_errors api c
    d ← last_diagnostic c
    pure (if succeeded d.status then some (take 511 d.message) else none)

  unfoldable pub version : OdbcConnection → Program World Bytes
  version c = pure (codes "ODBC Driver v0.1")

  -- What `SQLGetData` does to the local buffer of `tables`: no text leaves the bytes as they are.
  unfoldable pub store_name : Bytes → Option Bytes → Result Bytes
  store_name buf none = ok buf
  store_name buf (some text) = write_all buf 0 (take 1023 text ++ (0 ∷ []))

  -- The loop of `tables`.
  unfoldable pub collect : ℕ → Bytes → List Bytes → OdbcConnection → Program World (List Bytes)
  collect zero buf names c w = lift spinning w
  collect (suc rounds) buf names c w =
      (do
        sts ← ask (λ log. api.on_fetch log c.hstmt) (fetch c.hstmt)
        if succeeded sts
            then (do
              answer ← ask (λ log. api.on_get_data log c.hstmt 1) (get_data c.hstmt 1)
              buf' ← lift (store_name buf answer.1)
              name ← lift (c_string buf')
              collect rounds buf' (names ++ (name ∷ [])) c)
            else pure names)
        w

  unfoldable pub tables : ℕ → OdbcConnection → Program World (List Bytes)
  tables rounds c = do
    ask (λ log. api.on_tables log c.hstmt) (list_tables c.hstmt) >>= λ _.
        λ w. collect rounds (new_char (api.garbage w.log) 1024) [] c w
