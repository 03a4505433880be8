-- ===== src/Odbc/Handles.antt =====
-- The handles and sessions of `ODBC_Connection` (dbabstract/odbc/odbc_db.cpp), counted over the log.
use dbabstract.Prelude.{ℕ, ◌+◌, ◌≡◌, Bool, true, false, ◌==◌, if◌then◌else◌}
use dbabstract.Effects.Post.{count}
use dbabstract.Odbc.{
  Event, World, HandleKind, env, dbc, stmt, succeeded, alloc_handle, free_handle, driver_connect,
  disconnect,
}
use dbabstract.Odbc.Errors.{OdbcConnection}

abbrev pub held : ℕ → ℕ
held h = if h == 0 then 0 else 1

abbrev pub same_kind : HandleKind → HandleKind → Bool
same_kind env env = true
same_kind dbc dbc = true
same_kind stmt stmt = true
same_kind _ _ = false

-- Handles of a kind that a call stored, and that were freed.
abbrev pub allocs : HandleKind → Event → ℕ
allocs kind (alloc_handle k parent r) = if same_kind kind k then held r.1 else 0
allocs kind _ = 0

abbrev pub frees : HandleKind → Event → ℕ
frees kind (free_handle k h) = if same_kind kind k then 1 else 0
frees kind _ = 0

abbrev pub connects : Event → ℕ
connects (driver_connect h source sts) = if succeeded sts then 1 else 0
connects _ = 0

abbrev pub disconnects : Event → ℕ
disconnects (disconnect h) = 1
disconnects _ = 0

-- The object holds what is open: no handle is lost, and none is held that was freed.
pub record IsAccounted (c : OdbcConnection) (w : World) : Type 0 where
  pub env_held : count (allocs env) w.log ≡ count (frees env) w.log + held c.henv
  pub dbc_held : count (allocs dbc) w.log ≡ count (frees dbc) w.log + held c.hdbc
  pub stmt_held : count (allocs stmt) w.log ≡ count (frees stmt) w.log + held c.hstmt
  pub session_held : count connects w.log ≡ count disconnects w.log + (if c.connected then 1 else 0)

abbrev pub Kept : Bool × OdbcConnection → World → Type 0
Kept r w = IsAccounted r.1 w

abbrev pub blank : OdbcConnection
blank = record { henv = 0; hdbc = 0; hstmt = 0; connected = false }
