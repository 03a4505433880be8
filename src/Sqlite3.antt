-- ===== src/Sqlite3.antt =====
-- dbabstract/sqlite3: the driver for SQLite. The client library is a parameter: `Api` answers each
-- call from the calls made before it, and the log records calls with their answers. A handle is an
-- address, 0 for NULL.
pub mod ResultSet
pub mod Connection
pub mod Rows
pub mod Driver
pub mod Handles
pub mod Statements
pub mod Waiting
pub mod Transactions
pub mod Loops
pub mod Clients
pub mod Lifetime
mod Examples
use dbabstract.Prelude.{ℕ, Bytes, Option, Bool, ◌==◌, ◌||◌}
use dbabstract.Prelude.Int.{ℤ}
use dbabstract.Effects.{Log}

pub data Event : Type 0 where
  sqlite3_open : Bytes → ℕ × ℕ → Event
  sqlite3_close : ℕ → ℕ → Event
  sqlite3_exec : ℕ → Bytes → ℕ × ℕ → Event
  sqlite3_free : ℕ → Event
  sqlite3_prepare : ℕ → Bytes → ℕ × ℕ → Event
  sqlite3_step : ℕ → ℕ → Event
  sqlite3_finalize : ℕ → Event
  sqlite3_column_text : ℕ → ℕ → Option Bytes → Event
  sqlite3_mprintf : Bytes → Option Bytes → Event
  free_text : Option Bytes → Event
  sleep : ℕ → Event

-- What the client library answers. A pair is a result code with the pointer that the call stores.
-- `column_count` and `column_name` describe a prepared statement and do not depend on the log.
-- `mprintf_q` is `sqlite3_mprintf("'%q'", s)`; `garbage` is what a new block of memory holds.
pub record Api : Type 0 where
  pub on_open : Log Event → Bytes → ℕ × ℕ
  pub on_close : Log Event → ℕ → ℕ
  pub on_exec : Log Event → ℕ → Bytes → ℕ × ℕ
  pub on_prepare : Log Event → ℕ → Bytes → ℕ × ℕ
  pub on_step : Log Event → ℕ → ℕ
  pub column_count : ℕ → ℕ
  pub column_name : ℕ → ℕ → Option Bytes
  pub on_column_text : Log Event → ℕ → ℕ → Option Bytes
  pub mprintf_q : Log Event → Bytes → Option Bytes
  pub last_insert_rowid : Log Event → ℕ → ℤ
  pub errcode : Log Event → ℕ → ℕ
  pub errmsg : Log Event → ℕ → Option Bytes
  pub libversion : Bytes
  pub garbage : Log Event → ℕ → ℕ

abbrev pub sqlite_ok : ℕ
sqlite_ok = 0

abbrev pub sqlite_error : ℕ
sqlite_error = 1

abbrev pub sqlite_busy : ℕ
sqlite_busy = 5

abbrev pub sqlite_misuse : ℕ
sqlite_misuse = 21

abbrev pub sqlite_row : ℕ
sqlite_row = 100

abbrev pub sqlite_done : ℕ
sqlite_done = 101

-- The codes at which the loops over `sqlite3_step` stop.
abbrev pub is_final : ℕ → Bool
is_final rc = (rc == sqlite_done) || (rc == sqlite_error) || (rc == sqlite_misuse)
