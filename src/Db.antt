-- ===== src/Db.antt =====
-- dbabstract/db.h: the interfaces `ResultSet` and `Connection`, the stream manipulators `qstr` and
-- `unixtime`, and the reference count. A virtual method is a field; a driver's object is a value of
-- the driver's state type, and a method that changes the object returns it anew.
pub mod Closed
pub mod References
pub mod Streams
pub mod Factory
pub mod Times
pub mod Transactions
pub mod Client
pub mod Getters
mod Examples
use dbabstract.Prelude.{ℕ, Bool, false, List, [], ◌∷◌, ◌++◌, Bytes, Option, none, some}
use dbabstract.Prelude.Int.{ℤ, pos, ◌+ℤ◌, ◌-ℤ◌, eqb_ℤ}
use dbabstract.Effects.{Program}

-- `enum TRANS_MODE`
pub data TransMode : Type 0 where
  read_uncommitted : TransMode
  read_committed : TransMode
  repeatable_read : TransMode
  serializable : TransMode

-- `class ResultSet`, of objects `R` in a world `W`. `D` and `F` stand for `double` and `float`.
-- `close` returns no object where it deletes it. Columns are counted by `ℕ`.
pub record ResultSet (W R D F : Type 0) : Type 0 where
  pub handle : R → ℕ
  pub close : R → Program W (Bool × Option R)
  pub next : R → Program W (Bool × R)
  pub find_column : Bytes → R → Program W ℕ
  pub record_count : R → Program W ℕ
  pub get_string : ℕ → R → Program W (Option Bytes)
  pub get_integer : ℕ → R → Program W ℤ
  pub get_bool : ℕ → R → Program W Bool
  pub get_unix_time : ℕ → R → Program W ℤ
  pub get_double : ℕ → R → Program W D
  pub get_float : ℕ → R → Program W F
  pub get_long : ℕ → R → Program W ℤ
  pub get_short : ℕ → R → Program W ℤ

-- The arguments of `Connection::open`; a text that the caller leaves out is NULL.
pub record Target : Type 0 where
  pub database : Bytes
  pub host : Option Bytes
  pub port : ℕ
  pub user : Option Bytes
  pub pass : Option Bytes

-- `class Connection`, of objects `S` with result sets `R`. `escape` and `unixtime_to_sql` return a
-- block of memory, in which the caller reads a C string.
pub record Connection (W S R : Type 0) : Type 0 where
  pub tables : S → Program W (List Bytes)
  pub handle : S → ℕ
  pub open_database : Target → S → Program W (Bool × S)
  pub close : S → Program W (Bool × S)
  pub is_connected : S → Program W Bool
  pub execute : Bytes → S → Program W Bool
  pub execute_query : Bytes → S → Program W (Option R)
  pub escape : Bytes → S → Program W Bytes
  pub unixtime_to_sql : ℤ → S → Program W Bytes
  pub insert_id : S → Program W ℕ
  pub begin_trans : S → Program W Bool
  pub commit_trans : S → Program W Bool
  pub rollback_trans : S → Program W Bool
  pub set_transaction_mode : TransMode → S → Program W Bool
  pub errorno : S → Program W ℕ
  pub errormsg : S → Program W (Option Bytes)
  pub version : S → Program W Bytes
