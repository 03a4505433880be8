-- ===== src/Sqlite3/Handles.antt =====
-- `Sqlite3_Connection::open` and `close` in dbabstract/sqlite3/sqlite3_db.cpp: the database handles.
use dbabstract.Prelude.{
  ℕ, ◌+◌, ◌≡◌, ◌≢◌, refl, Bool, true, false, [], ◌∷◌, arith, ◌==◌, if◌then◌else◌, ◌&&◌, not,
  Bool-cases, inl, inr,
}
use dbabstract.Effects.{Log, ok}
use dbabstract.Db.{Target}
use dbabstract.Sqlite3.{Event, Api, sqlite3_open, sqlite3_close, sqlite_ok}
use dbabstract.Sqlite3.Connection.{Sqlite3Connection, open_database, close}

-- The handles that `sqlite3_open` stored, in any outcome, less those that were closed.
abbrev pub event_opens : Event → ℕ
event_opens (sqlite3_open name (rc, h)) = if h == 0 then 0 else 1
event_opens _ = 0

abbrev pub event_closes : Event → ℕ
event_closes (sqlite3_close h rc) = if rc == sqlite_ok then 1 else 0
event_closes _ = 0

unfoldable pub opened : Log Event → ℕ
opened [] = 0
opened (e ∷ log) = event_opens e + opened log

unfoldable pub closed : Log Event → ℕ
closed [] = 0
closed (e ∷ log) = event_closes e + closed log

-- The object holds the one handle that is open, or none is.
abbrev pub IsAccounted : Sqlite3Connection → Log Event → Type 0
IsAccounted c log = opened log ≡ closed log + (if c.db_ == 0 then 0 else 1)

module _ (api : Api) where
  -- On a connection whose handle is accounted for, `close` returns with the handle still
  -- accounted for, and answers true exactly when there was a handle and SQLite closed it.
  pub sqlite3_close-IsAccounted :
      (c : Sqlite3Connection) (log : Log Event)
      → IsAccounted c log
      → (r : Bool) × (c' : Sqlite3Connection) × (log' : Log Event) × (close api c log
          ≡ ok ((r, c'), log'))
        × IsAccounted c' log'
        × (r ≡ not (c.db_ == 0) && (api.on_close log c.db_ == sqlite_ok))
  unfolding close opened closed
  sqlite3_close-IsAccounted c log h = elim (Bool-cases (c.db_ == 0)) [
    | inl null ↦ (false, c, log, rw null, h, rw null)
    | inr live ↦ elim (Bool-cases (api.on_close log c.db_ == sqlite_ok)) [
      | inl shut ↦ (
        true,
        record { db_ = 0 },
        sqlite3_close c.db_ (api.on_close log c.db_) ∷ log,
        rw (live, shut),
        rw shut (omega (arith, rw live at h)),
        rw (live, shut),
      )
      | inr refused ↦ (
        false,
        c,
        sqlite3_close c.db_ (api.on_close log c.db_) ∷ log,
        rw (live, refused),
        rw refused (omega (arith, h)),
        rw (live, refused),
      )
    ]
  ]

  -- An `open` that fails although SQLite stored a handle loses the handle: one more is open
  -- than before, none more is closed, and `close` on the object does nothing.
  pub open_failure_leaks :
      (target : Target) (c : Sqlite3Connection) (log : Log Event) (rc h : ℕ)
      → api.on_open log target.database ≡ (rc, h)
      → rc ≢ sqlite_ok
      → h ≢ 0
      → (log' : Log Event) × (open_database api target c log
          ≡ ok ((false, record { db_ = 0 }), log'))
        × (opened log' ≡ opened log + 1)
        × (closed log' ≡ closed log)
        × (close api (record { db_ = 0 }) log' ≡ ok ((false, record { db_ = 0 }), log'))
  unfolding open_database close opened closed
  open_failure_leaks target c log rc h e failed stored =
      let test : (rc == sqlite_ok) ≡ false = ground arith in
      let kept : (h == 0) ≡ false = ground arith in
      (
        sqlite3_open target.database (rc, h) ∷ log,
        rw (e, test),
        rw kept (omega arith),
        omega arith,
        refl,
      )
