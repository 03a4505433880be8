-- ===== src/Drivers/Transactions/Examples.antt =====
-- Client libraries that do whatever they are told. Tests and examples.
use dbabstract.Prelude.{◌≡◌, refl, true, List, [], ◌∷◌, Bytes, codes}
use dbabstract.Effects.{Log}
use dbabstract.C.Str.{str_eq}
use dbabstract.Db.{serializable}
use dbabstract.Db.Closed.{Statement, execute, begin, commit, set_mode, run_script, issue}
use dbabstract.Db.Transactions.{apply_all}
use dbabstract.Db.Transactions.Server.{lookup, undisturbed}
use dbabstract.Db.Transactions.Atomic.{no_transaction}
use dbabstract.Sqlite3
use dbabstract.Sqlite3.{sqlite3_exec}
use dbabstract.Sqlite3.Connection.{Sqlite3Connection}
use dbabstract.Sqlite3.Transactions.{sqlite3_database}
use dbabstract.Pq
use dbabstract.Pq.{exec, clear}
use dbabstract.Pq.Connection.{PqConnection}
use dbabstract.Pq.Transactions.{pq_database}
use dbabstract.Odbc
use dbabstract.Odbc.{prepare, run}
use dbabstract.Odbc.Errors.{OdbcConnection}
use dbabstract.Odbc.Transactions.{odbc_database}
use dbabstract.Drivers.Examples.{no_sqlite3, no_pq, no_odbc}
use dbabstract.Drivers.Transactions.{scripts-apply_all}

abbrev sqlite3_api : Sqlite3.Api
sqlite3_api = record no_sqlite3 { on_exec = λ log h sql. (0, 0) }

abbrev pq_api : Pq.Api
pq_api = record no_pq { on_exec = λ log h sql. 9; result_status = λ res. Pq.command_ok }

abbrev odbc_api : Odbc.Api
odbc_api = record no_odbc {
  on_prepare = λ log h sql. Odbc.success;
  on_execute = λ log h. Odbc.success;
}

abbrev s : Sqlite3Connection
s = record { db_ = 7 }

abbrev p : PqConnection
p = record { pgconn_ = 7; database_ = codes "db" }

abbrev o : OdbcConnection
o = record { henv = 11; hdbc = 12; hstmt = 13; connected = true }

-- The calls that such texts make, oldest text last.
abbrev sqlite3_calls : List Bytes → Log Sqlite3.Event
sqlite3_calls [] = []
sqlite3_calls (sql ∷ sqls) = sqlite3_exec 7 sql (0, 0) ∷ sqlite3_calls sqls

abbrev pq_calls : List Bytes → Log Pq.Event
pq_calls [] = []
pq_calls (sql ∷ sqls) = clear 9 ∷ (exec 7 sql 9 ∷ pq_calls sqls)

abbrev odbc_calls : List Bytes → Log Odbc.Event
odbc_calls [] = []
odbc_calls (sql ∷ sqls) = run 13 Odbc.success ∷ (prepare 13 sql Odbc.success ∷ odbc_calls sqls)

abbrev world : List Bytes → Odbc.World
world sqls = record Odbc.start { log = odbc_calls sqls }

abbrev change : Bytes
change = codes "DELETE FROM notes"

abbrev script : List Statement
script = begin ∷ execute change ∷ commit ∷ set_mode serializable ∷ []

abbrev isolation : Bytes
isolation = codes "SET SESSION TRANSACTION ISOLATION LEVEL SERIALIZABLE"

abbrev sqlite3_texts : List Bytes
sqlite3_texts =
    codes "PRAGMA read_uncommitted = false"
    ∷ codes "COMMIT TRANSACTION"
    ∷ change
    ∷ codes "BEGIN TRANSACTION"
    ∷ []

abbrev pq_texts : List Bytes
pq_texts = isolation ∷ codes "END" ∷ change ∷ codes "BEGIN" ∷ []

abbrev odbc_texts : List Bytes
odbc_texts = isolation ∷ codes "COMMIT" ∷ change ∷ codes "BEGIN" ∷ []

scripts-apply_all_example :
    (sqlite3_database undisturbed 7 (no_transaction []) (sqlite3_calls sqlite3_texts)
      ≡ apply_all script (no_transaction []))
    × (pq_database pq_api 7 (no_transaction []) (pq_calls pq_texts)
        ≡ apply_all script (no_transaction []))
    × (odbc_database undisturbed 13 (no_transaction []) (world odbc_texts)
        ≡ apply_all script (no_transaction []))
unfolding lookup str_eq run_script issue Sqlite3.Connection.execute Sqlite3.Connection.begin_trans
    Sqlite3.Connection.commit_trans Sqlite3.Connection.set_transaction_mode
    Sqlite3.Connection.mode_sql Pq.Connection.execute Pq.Connection.begin_trans
    Pq.Connection.commit_trans Pq.Connection.transact Pq.Connection.run_sql
    Pq.Connection.set_transaction_mode Pq.Connection.mode_sql Odbc.Connection.execute
    Odbc.Connection.begin_trans Odbc.Connection.commit_trans Odbc.Connection.sql_prepare
    Odbc.Connection.sql_execute Odbc.Connection.set_transaction_mode Odbc.Connection.mode_sql
scripts-apply_all_example =
    scripts-apply_all undisturbed sqlite3_api pq_api odbc_api 1 s p o (no_transaction [])
      (no_transaction []) script [] (sqlite3_calls sqlite3_texts) [] (pq_calls pq_texts) Odbc.start
      (world odbc_texts) (tt, (refl, (tt, (tt, tt)))) (tt, (refl, (tt, (tt, tt))))
      (tt, (refl, (tt, (tt, tt)))) refl refl refl refl refl refl
