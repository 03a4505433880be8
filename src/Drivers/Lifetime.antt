-- ===== src/Drivers/Lifetime.antt =====
-- The connections of the four drivers from `create_connection` to the last
-- `release`, side by side.
mod Examples
use dbabstract.Prelude.{[], some}
use dbabstract.Db.References.{new_shared}
use dbabstract.Db.Client.Sharing.{Sharing}
use dbabstract.Sqlite3
use dbabstract.Sqlite3.Connection as SqliteObject
use dbabstract.Mysql
use dbabstract.Mysql.Connection
use dbabstract.Pq
use dbabstract.Pq.Connection as PqObject
use dbabstract.Odbc
use dbabstract.Odbc.Connection as OdbcObject

-- A new object, and no result set.
abbrev pub created : {S R : Type 0} → S → Sharing S R
created s = record { shared = some (new_shared s); sets = [] }
