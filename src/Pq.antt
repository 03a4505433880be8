-- ===== src/Pq.antt =====
-- dbabstract/pq: the driver for PostgreSQL. libpq is a parameter, `Api`. A handle is an address, 0 for
-- NULL.
pub mod ResultSet
pub mod Connection
pub mod Rows
pub mod Escape
pub mod Accounts
pub mod Driver
pub mod Transactions
pub mod Statements
pub mod Lifetime
pub mod Aborted
pub mod Clients
mod Examples
use dbabstract.Prelude.{ℕ, Bool, true, false, Bytes, Option, ◌==◌}
use dbabstract.Prelude.Int.{ℤ}
use dbabstract.Effects.{Log}

-- `ExecStatusType`: the one code that the driver tests for, and all others.
pub data ExecStatus : Type 0 where
  command_ok : ExecStatus
  tuples_ok : ExecStatus
  fatal_error : ExecStatus
  other_status : ExecStatus

abbrev pub is_command_ok : ExecStatus → Bool
is_command_ok command_ok = true
is_command_ok _ = false

pub data Event : Type 0 where
  connectdb : Bytes → ℕ → Event
  finish : ℕ → Event
  ping : Bytes → ℕ → Event
  exec : ℕ → Bytes → ℕ → Event
  clear : ℕ → Event
  escape_literal : ℕ → Bytes → Option Bytes → Event
  free_mem : Option Bytes → Event

-- What libpq answers. A result does not change once it is made, so what the driver asks of one does
-- not depend on the log.
pub record Api : Type 0 where
  pub on_connectdb : Log Event → Bytes → ℕ
  pub status : Log Event → ℕ → ℕ
  pub on_ping : Log Event → Bytes → ℕ
  pub on_exec : Log Event → ℕ → Bytes → ℕ
  pub result_status : ℕ → ExecStatus
  pub ntuples : ℕ → ℕ
  pub nfields : ℕ → ℕ
  pub fname : ℕ → ℕ → Option Bytes
  pub getvalue : ℕ → ℤ → ℕ → Option Bytes
  pub on_escape_literal : Log Event → ℕ → Bytes → Option Bytes
  pub error_message : Log Event → ℕ → Option Bytes
  pub garbage : Log Event → ℕ → ℕ

abbrev pub connection_ok : ℕ
connection_ok = 0

abbrev pub pqping_ok : ℕ
pqping_ok = 0
