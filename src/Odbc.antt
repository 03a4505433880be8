-- ===== src/Odbc.antt =====
-- dbabstract/odbc: the driver for ODBC, as it is built without UNICODE and with ODBCVER 0x0300 or
-- later, against a driver manager that does not define SQL_APPLICATION_NAME. The driver manager is a
-- parameter, `Api`. A handle is an address, 0 for NULL.
pub mod ResultSet
pub mod Errors
pub mod Connection
pub mod Cursor
pub mod Columns
pub mod Tables
pub mod Escape
pub mod Overflow
pub mod Handles
pub mod Opening
pub mod Accounts
pub mod Records
pub mod Diagnostics
pub mod Driver
pub mod Draining
pub mod Unaffected
pub mod Clients
pub mod Lifetime
pub mod Transactions
mod Examples
use dbabstract.Prelude.{ℕ, suc, Bool, true, false, Bytes, Option, List, [], ◌∷◌}
use dbabstract.Prelude.Int.{ℤ}
use dbabstract.Effects.{Log, Program, ok, call, Result}

-- `SQLRETURN`: the codes that the driver tells apart, and all others.
pub data Status : Type 0 where
  success : Status
  success_with_info : Status
  no_data : Status
  failed : Status

abbrev pub is_success : Status → Bool
is_success success = true
is_success _ = false

-- `SQL_SUCCEEDED`
abbrev pub succeeded : Status → Bool
succeeded success = true
succeeded success_with_info = true
succeeded _ = false

pub data HandleKind : Type 0 where
  env : HandleKind
  dbc : HandleKind
  stmt : HandleKind

-- A diagnostic record: the state, the native error and the message.
pub record Diagnostic : Type 0 where
  pub status : Status
  pub sqlstate : Bytes
  pub native_error : ℤ
  pub message : Bytes

pub data Event : Type 0 where
  alloc_handle : HandleKind → ℕ → Status × ℕ → Event
  free_handle : HandleKind → ℕ → Event
  set_env_attr : ℕ → Event
  driver_connect : ℕ → Bytes → Status → Event
  disconnect : ℕ → Event
  close_cursor : ℕ → Event
  prepare : ℕ → Bytes → Status → Event
  run : ℕ → Status → Event
  more_results : ℕ → Status → Event
  fetch_scroll : ℕ → Status → Event
  fetch : ℕ → Status → Event
  get_data : ℕ → ℕ → Status × Option Bytes → Event
  list_tables : ℕ → Status → Event
  get_diag_rec : HandleKind → ℕ → ℕ → Diagnostic → Event

-- What the driver manager answers. `get_data` gives the status and the column's text, if it is
-- stored; `row_count` is what the call stores, 0 if it stores nothing. The number and the names of
-- the columns belong to a prepared statement and do not depend on the log.
pub record Api : Type 0 where
  pub on_alloc_handle : Log Event → HandleKind → ℕ → Status × ℕ
  pub on_driver_connect : Log Event → ℕ → Bytes → Status
  pub on_prepare : Log Event → ℕ → Bytes → Status
  pub on_execute : Log Event → ℕ → Status
  pub on_more_results : Log Event → ℕ → Status
  pub on_fetch_scroll : Log Event → ℕ → Status
  pub on_fetch : Log Event → ℕ → Status
  pub on_get_data : Log Event → ℕ → ℕ → Status × Option Bytes
  pub on_tables : Log Event → ℕ → Status
  pub on_get_diag_rec : Log Event → HandleKind → ℕ → ℕ → Diagnostic
  pub row_count : Log Event → ℕ → ℤ
  pub num_result_cols : ℕ → Status × ℕ
  pub describe_col : ℕ → ℕ → Status × Bytes
  pub garbage : Log Event → ℕ → ℕ

-- The log, and the static variables of `getString`, which all result sets share: the column that was
-- fetched last, and the text in the buffer.
pub record World : Type 0 where
  pub log : Log Event
  pub index : ℕ
  pub fetch_buffer : Bytes

abbrev pub start : World
start = record { log = []; index = 0; fetch_buffer = [] }

abbrev pub ask : {A : Type 0} → (Log Event → A) → (A → Event) → Program World A
ask answer event w = let a = answer w.log in ok (a, record w { log = event a ∷ w.log })

-- A call whose answer is not looked at.
abbrev pub tell : Event → Program World (Unit {0})
tell event w = ok (tt, record w { log = event ∷ w.log })
