-- ===== src/Drivers/Transactions.antt =====
-- The statements of dbabstract/db.h with the drivers for SQLite, PostgreSQL and ODBC, and the databases
-- that they are sent to. MySQL's are in Mysql/Transactions.
mod Examples
use dbabstract.Prelude.{ℕ, ◌≡◌, List, Bytes}
use dbabstract.Effects.{Log, ok}
use dbabstract.Db.Closed.{Statement, rollback, run_script}
use dbabstract.Db.Transactions.{
  Transaction, Database, all_true, apply_all, ArePlain, run_script-each,
}
use dbabstract.Db.Transactions.Server.{IsChange}
use dbabstract.Db.Transactions.Atomic.{run_script-whole, no_transaction, whole, AllPlain}
use dbabstract.Sqlite3
use dbabstract.Sqlite3.Driver.{sqlite3_connection}
use dbabstract.Sqlite3.Connection.{Sqlite3Connection}
use dbabstract.Sqlite3.Transactions.{sqlite3_dialect, sqlite3_database, sqlite3-Implements}
use dbabstract.Pq
use dbabstract.Pq.Driver.{pq_connection}
use dbabstract.Pq.Connection.{PqConnection}
use dbabstract.Pq.Transactions.{pq_dialect, pq_database, pq-Implements}
use dbabstract.Odbc
use dbabstract.Odbc.Driver.{odbc_connection}
use dbabstract.Odbc.Errors.{OdbcConnection}
use dbabstract.Odbc.Transactions.{odbc_dialect, odbc_database, odbc-Implements}

-- `failed` is what a statement that fails does to a transaction of SQLite, or of the server behind ODBC.
module _ (failed : Transaction → Transaction) (sqlite3_api : Sqlite3.Api) (pq_api : Pq.Api)
    (odbc_api : Odbc.Api) (fuel : ℕ) (s : Sqlite3Connection) (p : PqConnection) (o : OdbcConnection)
    (base db : Database) where
  -- With the drivers for SQLite, PostgreSQL and ODBC, on connections behind which the database
  -- is the same, and servers that take the drivers' own texts as their documentation says: if a
  -- script in which the client's texts are changes is answered true throughout, the database
  -- behind each of the three connections is what the specification of transactions makes of the
  -- script.
  pub scripts-apply_all :
      (sts : List Statement) (s_log s_log' : Log Sqlite3.Event) (p_log p_log' : Log Pq.Event)
      (w w' : Odbc.World)
      → ArePlain (IsChange (sqlite3_dialect failed)) sts
      → ArePlain (IsChange pq_dialect) sts
      → ArePlain (IsChange (odbc_dialect failed)) sts
      → sqlite3_database failed s.db_ base s_log ≡ db
      → pq_database pq_api p.pgconn_ base p_log ≡ db
      → odbc_database failed o.hstmt base w ≡ db
      → run_script (sqlite3_connection sqlite3_api fuel) sts s s_log ≡ ok (all_true sts, s_log')
      → run_script (pq_connection pq_api fuel) sts p p_log ≡ ok (all_true sts, p_log')
      → run_script (odbc_connection odbc_api fuel) sts o w ≡ ok (all_true sts, w')
      → (sqlite3_database failed s.db_ base s_log' ≡ apply_all sts db)
        × (pq_database pq_api p.pgconn_ base p_log' ≡ apply_all sts db)
        × (odbc_database failed o.hstmt base w' ≡ apply_all sts db)
  scripts-apply_all sts s_log s_log' p_log p_log' w w' own_s own_p own_o at_s at_p at_o run_s run_p
        run_o =
      (
        run_script-each _ _ _ _ s (sqlite3-Implements failed sqlite3_api s base fuel) sts s_log
            s_log' db own_s at_s run_s,
        run_script-each _ _ _ _ p (pq-Implements pq_api p base fuel) sts p_log p_log' db own_p at_p
            run_p,
        run_script-each _ _ _ _ o (odbc-Implements failed odbc_api o base fuel) sts w w' db own_o
            at_o run_o,
      )
