-- ===== src/Mysql.antt =====
-- dbabstract/mysql: the driver for MySQL. The client library is a parameter, `Api`. A handle is an
-- address, 0 for NULL.
pub mod ResultSet
pub mod Connection
pub mod Rows
pub mod Escape
pub mod Accounts
pub mod Sessions
pub mod Driver
pub mod Literal
pub mod Transactions
pub mod Lost
pub mod Loops
pub mod Clients
pub mod Retries
pub mod Lifetime
mod Examples
use dbabstract.Prelude.{ℕ, Bool, Bytes, Option, List}
use dbabstract.Effects.{Log}
use dbabstract.Db.{Target}

-- `MYSQL_ROW`: the texts of a row's columns, each of which may be NULL.
abbrev pub Row : Type 0
Row = List (Option Bytes)

pub data Event : Type 0 where
  init : ℕ → Event
  real_connect : ℕ → Target → Bool → Event
  select_db : ℕ → Bytes → ℕ → Event
  close_handle : ℕ → Event
  ping : ℕ → ℕ → Event
  query : ℕ → Bytes → ℕ → Event
  use_result : ℕ → ℕ → Event
  list_tables : ℕ → ℕ → Event
  fetch_row : ℕ → Option Row → Event
  free_result : ℕ → Event

-- What the client library answers. The number and the names of the fields belong to a result and
-- do not depend on the log. `escape_string` is the text that `mysql_escape_string` writes.
pub record Api : Type 0 where
  pub on_init : Log Event → ℕ
  pub on_real_connect : Log Event → ℕ → Target → Bool
  pub on_select_db : Log Event → ℕ → Bytes → ℕ
  pub on_ping : Log Event → ℕ → ℕ
  pub on_query : Log Event → ℕ → Bytes → ℕ
  pub on_use_result : Log Event → ℕ → ℕ
  pub on_list_tables : Log Event → ℕ → ℕ
  pub on_fetch_row : Log Event → ℕ → Option Row
  pub num_rows : Log Event → ℕ → ℕ
  pub num_fields : ℕ → ℕ
  pub field_name : ℕ → ℕ → Option Bytes
  pub escape_string : Bytes → Bytes
  pub on_insert_id : Log Event → ℕ → ℕ
  pub errno : Log Event → ℕ → ℕ
  pub error : Log Event → ℕ → Option Bytes
  pub client_info : Bytes
  pub garbage : Log Event → ℕ → ℕ
