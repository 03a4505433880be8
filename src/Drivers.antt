-- ===== src/Drivers.antt =====
-- The four drivers side by side, on the statements of dbabstract/db.h.
pub mod Transactions
pub mod Lifetime
mod Examples
use dbabstract.Prelude.{ℕ, ◌≡◌, List, Bytes}
use dbabstract.Effects.{Log, ok}
use dbabstract.Db.Closed.{Statement, run_script, all_false, run_script-closed}
use dbabstract.Sqlite3
use dbabstract.Sqlite3.Driver.{sqlite3_connection, sqlite3_closed-ClosedIsInert}
use dbabstract.Mysql
use dbabstract.Mysql.Driver.{mysql_connection, mysql_closed-ClosedIsInert}
use dbabstract.Pq
use dbabstract.Pq.Driver.{pq_connection, pq_closed-ClosedIsInert}
use dbabstract.Odbc
use dbabstract.Odbc.Driver.{odbc_connection, odbc_blank-ClosedIsInert}
use dbabstract.Odbc.Handles.{blank}

module _ (sqlite3_api : Sqlite3.Api) (mysql_api : Mysql.Api) (pq_api : Pq.Api) (odbc_api : Odbc.Api)
    (fuel : ℕ) where
  -- With each of the four drivers, on an object that was never opened or has been closed: a
  -- script of statements answers false to every one, and calls nothing of the client library.
  pub run_script-refused :
      (sts : List Statement) (database : Bytes) (sqlite3_log : Log Sqlite3.Event)
      (mysql_log : Log Mysql.Event) (pq_log : Log Pq.Event) (w : Odbc.World)
      → (run_script (sqlite3_connection sqlite3_api fuel) sts (record { db_ = 0 }) sqlite3_log
          ≡ ok (all_false sts, sqlite3_log))
        × (run_script (mysql_connection mysql_api fuel) sts (record { mysql_ = 0 }) mysql_log
            ≡ ok (all_false sts, mysql_log))
        × (run_script
              (pq_connection pq_api fuel)
              sts
              (record { pgconn_ = 0; database_ = database })
              pq_log
            ≡ ok (all_false sts, pq_log))
        × (run_script (odbc_connection odbc_api fuel) sts blank w ≡ ok (all_false sts, w))
  run_script-refused sts database sqlite3_log mysql_log pq_log w = (
    run_script-closed (sqlite3_connection sqlite3_api fuel)
        (sqlite3_closed-ClosedIsInert sqlite3_api fuel) sts sqlite3_log,
    run_script-closed (mysql_connection mysql_api fuel) (mysql_closed-ClosedIsInert mysql_api fuel)
        sts mysql_log,
    run_script-closed (pq_connection pq_api fuel) (pq_closed-ClosedIsInert pq_api fuel database) sts
        pq_log,
    run_script-closed (odbc_connection odbc_api fuel) (odbc_blank-ClosedIsInert odbc_api fuel) sts
        w,
  )
