-- ===== src/Sqlite3/Examples.antt =====
-- A small SQLite to run the driver on: two tables, and one open handle. Tests and examples.
mod Clients
mod Transactions
use dbabstract.Prelude.{
  ℕ, ◌+◌, ◌≡◌, refl, Bool, false, not, ◌&&◌, List, [], ◌∷◌, ◌++◌, Bytes, codes, Option, none, some,
  arith, ◌==◌, if◌then◌else◌, length, suc,
}
use dbabstract.Prelude.Int.{pos, ℤ, ◌-ℤ◌}
use dbabstract.Effects.{Log, ok}
use dbabstract.Effects.Post.{Returns}
use dbabstract.Sqlite3.Statements.{SameMessages, run_script-SameMessages}
use dbabstract.Db.{Target}
use dbabstract.Sql.{literal, read_literal}
use dbabstract.Db.Closed.{execute, begin, commit, run_script, run_script-closed}
use dbabstract.Db.Streams.{put_qstr, put_qstr-literal, put_unixtime, put_qstr-contained}
use dbabstract.C.Time.{calendar}
use dbabstract.Convert.{quote, parse_unix_time}
use dbabstract.Convert.RoundTrip.{HasFourDigitYear}
use dbabstract.Db.Times.{put_unixtime-reads_back}
use dbabstract.Sqlite3.{
  sleep, sqlite_busy, Event, Api, sqlite3_open, sqlite3_step, sqlite3_finalize, sqlite_row,
  sqlite_done, sqlite_ok,
}
use dbabstract.Sqlite3.Driver.{
  sqlite3-WritesTimes, sqlite3_connection, sqlite3_closed-ClosedIsInert,
  sqlite3_escape-EscapesToLiteral,
}
use dbabstract.Sqlite3.ResultSet
use dbabstract.Sqlite3.Waiting.{waited, next-waits}
use dbabstract.Sqlite3.Connection
use dbabstract.Sqlite3.Connection.{Sqlite3Connection, create_connection, tables}
use dbabstract.Sqlite3.Rows.{Cursor, tables-names}
use dbabstract.Sqlite3.Handles.{
  open_failure_leaks, opened, closed, sqlite3_close-IsAccounted, IsAccounted,
}

abbrev pub two_tables : List Bytes
two_tables = codes "notes" ∷ codes "users" ∷ []

abbrev pub rest_of : List Bytes → List Bytes
rest_of [] = []
rest_of (x ∷ xs) = xs

abbrev first_of_rows : List Bytes → Option Bytes
first_of_rows [] = none
first_of_rows (x ∷ xs) = some x

-- the rows that are left, and the row that was handed out last
abbrev pub toy_rows : Log Event → List Bytes
toy_rows [] = two_tables
toy_rows (sqlite3_step s rc ∷ log) = if rc == sqlite_row then rest_of (toy_rows log) else two_tables
toy_rows (_ ∷ log) = toy_rows log

abbrev toy_current : Log Event → Option Bytes
toy_current [] = none
toy_current (sqlite3_step s rc ∷ log) = first_of_rows (toy_rows log)
toy_current (_ ∷ log) = toy_current log

abbrev pub step_code : List Bytes → ℕ
step_code [] = sqlite_done
step_code (x ∷ xs) = sqlite_row

abbrev pub toy : Api
toy = record {
  on_open = λ log name. if length name == 1 then (14, 9) else (0, 7);
  on_close = λ log h. 0;
  on_exec = λ log h sql. if length sql == 3 then (1, 44) else (0, 0);
  on_prepare = λ log h sql. (0, 8);
  on_step = λ log s. step_code (toy_rows log);
  column_count = λ s. 5;
  column_name = λ s i. some (codes "name");
  on_column_text = λ log s i. toy_current log;
  mprintf_q = λ log s. some (literal s);
  last_insert_rowid = λ log h. pos 1;
  errcode = λ log h. 0;
  errmsg = λ log h. some (codes "not an error");
  libversion = codes "3.8.7";
  garbage = λ log i. 99;
}

abbrev pub here : Target
here = record { database = codes "test.db"; host = none; port = 0; user = none; pass = none }

abbrev nowhere : Target
nowhere = record { database = codes "."; host = none; port = 0; user = none; pass = none }

abbrev pub live : Sqlite3Connection
live = record { db_ = 7 }

toy_row_code :
    (log : Log Event) (x : Bytes) (xs : List Bytes)
    → toy_rows log ≡ x ∷ xs
    → toy.on_step log 8 ≡ sqlite_row
toy_row_code log x xs e = rw e

abbrev toy_cursor : Cursor toy 8 two_tables
toy_cursor = record {
  rows = toy_rows;
  row_code = toy_row_code;
  row_taken = λ log x xs e. rw e;
  row_text = λ log x xs e. rw e;
  text_keeps = λ log v. refl;
  end_code = λ log e. rw e;
  restarts = λ log e. refl;
}

-- Column 2 of each row of the query holds a table's name.
tables-names_example :
    (log' : Log Event) × (tables toy 3 live [] ≡ ok (two_tables, sqlite3_finalize 8 ∷ log'))
tables-names_example =
    tables-names toy live 8 two_tables toy_cursor 3 [] (omega arith) (omega arith) refl refl
      (omega arith)

bad_open_leaks :
    (log' : Log Event) × (Connection.open_database toy nowhere create_connection []
      ≡ ok ((false, record { db_ = 0 }), log'))
    × (opened log' ≡ opened [] + 1)
    × (closed log' ≡ closed [])
    × (Connection.close toy (record { db_ = 0 }) log' ≡ ok ((false, record { db_ = 0 }), log'))
bad_open_leaks =
    open_failure_leaks toy nowhere create_connection [] 14 9 refl (omega arith) (omega arith)

messages_freed :
    Returns
      (λ answers log'. SameMessages [] log' × (length answers ≡ 3))
      (run_script (sqlite3_connection toy 1) (begin ∷ execute (codes "BYE") ∷ commit ∷ []) live [])
messages_freed = run_script-SameMessages toy live 1 (begin ∷ execute (codes "BYE") ∷ commit ∷ []) []

abbrev opened_log : Log Event
opened_log = sqlite3_open (codes "test.db") (0, 7) ∷ []

live-IsAccounted : IsAccounted live opened_log
unfolding opened closed
live-IsAccounted = refl

closed_once :
    (r : Bool) × (c' : Sqlite3Connection) × (log' : Log Event) × (Connection.close toy live
        opened_log
      ≡ ok ((r, c'), log'))
    × IsAccounted c' log'
    × (r ≡ not (7 == 0) && (0 == sqlite_ok))
closed_once = sqlite3_close-IsAccounted toy live opened_log live-IsAccounted

closed_refuses :
    run_script
      (sqlite3_connection toy 1)
      (begin ∷ execute (codes "BYE") ∷ commit ∷ [])
      (record { db_ = 0 })
      []
    ≡ ok (false ∷ false ∷ false ∷ [], [])
closed_refuses =
    run_script-closed (sqlite3_connection toy 1) (sqlite3_closed-ClosedIsInert toy 1)
      (begin ∷ execute (codes "BYE") ∷ commit ∷ []) []

quoted_text :
    (w' : Log Event) × (put_qstr (sqlite3_connection toy 1) (codes "x=") live (codes "a'b") []
      ≡ ok (codes "x=" ++ literal (codes "a'b"), w'))
quoted_text =
    put_qstr-literal (sqlite3_connection toy 1) (λ c. Unit {0})
      (sqlite3_escape-EscapesToLiteral toy 1 (λ log s. refl)) (codes "x=") (codes "a'b") live []
      (omega arith) tt

put_qstr-contained_example :
    (text : Bytes) × (w' : Log Event) × (put_qstr
        (sqlite3_connection toy 1)
        (codes "x=")
        live
        (codes "a'b")
        []
      ≡ ok (codes "x=" ++ text, w'))
    × (read_literal (text ++ codes ";") ≡ some (codes "a'b", codes ";"))
put_qstr-contained_example =
    put_qstr-contained (sqlite3_connection toy 1) (λ c. Unit {0})
      (sqlite3_escape-EscapesToLiteral toy 1 (λ log s. refl)) (codes "x=") (codes "a'b") (codes ";")
      live [] (omega arith) tt (omega arith)

-- 2014-11-02 22:00:31 UTC, for a client an hour east of Greenwich.
abbrev sunday : ℤ
sunday = pos 1414965631

sunday-HasFourDigitYear : HasFourDigitYear sunday
unfolding calendar
sunday-HasFourDigitYear = record {
  year = 2014;
  year_is = refl;
  year_from = omega arith;
  year_to = omega arith;
}

put_unixtime-reads_back_example :
    (text : Bytes) × (put_unixtime (sqlite3_connection toy 1) (codes "t=") live sunday []
      ≡ ok (codes "t=" ++ (quote ∷ (text ++ (quote ∷ []))), []))
    × (parse_unix_time (λ t. pos 3600) (some text) ≡ ok (sunday -ℤ pos 3600))
put_unixtime-reads_back_example =
    put_unixtime-reads_back (sqlite3_connection toy 1) (sqlite3-WritesTimes toy 1) (codes "t=") live
      sunday [] (λ t. pos 3600) sunday-HasFourDigitYear

-- A database that is busy twice, and then hands out a row.
abbrev naps : Log Event → ℕ
naps [] = 0
naps (sleep n ∷ log) = suc (naps log)
naps (_ ∷ log) = naps log

abbrev sleepy : Api
sleepy = record toy { on_step = λ log s. if naps log == 2 then sqlite_row else sqlite_busy }

next-waits_example :
    ResultSet.next sleepy 3 (record { res_ = 8 }) []
    ≡ ok
        ((sqlite_row == sqlite_row, record { res_ = 8 }), sqlite3_step 8 sqlite_row ∷ waited 8 2 [])
next-waits_example =
    next-waits sleepy 8 sqlite_row 2 3 [] refl refl (refl, (refl, refl)) (omega arith)
