-- ===== src/Lib.antt =====
-- dbabstract: a database abstraction for C++. `Connection` and `ResultSet` (dbabstract/db.h) are two
-- virtual classes. Four drivers implement them over a client library each: dbabstract/sqlite3,
-- dbabstract/mysql, dbabstract/pq and dbabstract/odbc. A client loads a driver with
-- `Connection::factory`, opens a connection, sends statements and walks the rows of its queries, and
-- writes texts and times into statements with the stream manipulators `qstr` and `unixtime`.
--
-- How a method is modelled. A driver's object is a record of its fields; a method takes the object
-- and returns it anew where it changes it. The client library of a driver is not part of the
-- repository: it is a parameter, the record `Api`, which answers each call from the log of the calls
-- that were made before. The log is the state that a method passes on (`Program`, in Effects). A
-- method ends in a value, in undefined behaviour (a read past the end, a null pointer followed, a
-- number that does not fit), or in `exit` (`Result`). A handle is an address, 0 for NULL. A block from
-- `new char[n]` holds arbitrary bytes until it is written.
--
-- The files:
--   Prelude       numbers, tests, lists and integers under the library's names
--   Effects       results, logs and programs; `Effects.Post` has the postconditions
--   C             blocks of memory, C strings, `atoi`, `gmtime_r`, `mktime` and `strftime`
--   Convert       what the drivers write alike: the bodies of `getBool`, `getUnixTime`,
--                 `unixtimeToSql` and `findColumn`, in dbabstract/*/*_db.cpp
--   Sql           the specification of an SQL string literal, and a reader of it
--   Db            dbabstract/db.h: the classes as records of operations, `qstr` and `unixtime`
--                 (Db.Streams, Db.Times), `duplicate` and `release` (Db.References), `factory`
--                 (Db.Factory), the getters of a result set (Db.Getters), and the statements that
--                 a client may issue on a connection (Db.Closed); Db.Transactions specifies
--                 what a script of statements leaves in a database, Db.Client runs a client
--                 that opens and closes connections and result sets, and Db.Client.Sharing
--                 one whose connection has several holders
--   Sqlite3       dbabstract/sqlite3/sqlite3_db.cpp and sqlite3_db.h
--   Mysql         dbabstract/mysql/mysql_db.cpp and mysql_db.h
--   Pq            dbabstract/pq/pq_db.cpp and pq_db.h
--   Odbc          dbabstract/odbc/odbc_db.cpp and odbc_db.h
--   Drivers       the four drivers side by side: on closed objects, on scripts of statements
--                 (Drivers.Transactions), and from the
--                 creation of a connection to its last release (Drivers.Lifetime)
--   TestDb        test/test_db.cpp: the program that tries each driver, a client of db.h; what a
--                 block gives back (TestDb.Ledger, TestDb.Columns, TestDb.Finalizes)
-- Each driver has a module Transactions, which says how a server that is told the driver's statements
-- keeps its database, a module Clients, which counts what the library has given out to a client
-- (Odbc.Unaffected has the methods that leave its handles as they are), and a module Lifetime, in
-- which several holders share a connection.
-- In each driver, ResultSet and Connection hold the methods under their names in the source, spelled
-- with underscores (`executeQuery` is `execute_query`, `open` is `open_database`), and Driver puts
-- them together as the records of Db. `ODBC_Errors` is `odbc_errors` in Odbc.Errors. Tests and
-- examples stand in the Examples modules.
--
-- Bounds and fuel. The loops over the rows of a result end when the client library says so, so they
-- take fuel, and `spinning` is a loop that ran out of it; the theorems about them say how much is
-- enough: one round more than there are rows. The loops over the columns, over the bytes of a text and
-- over the diagnostic records are bounded by what they run over. Integers that the C types narrow wrap
-- around or are undefined as in C, `int` has 32 bits and `long` 64.
--
-- Not modelled: `operator new` and `operator delete`, and running out of memory; what is printed; the
-- builds with UNICODE, with ODBCVER below 0x0300, with SQL_APPLICATION_NAME or with STATIC. `double`
-- and `float` and what C reads of a text as one are parameters, and so is the offset of the local time
-- zone. Of test/test_db.cpp the choice between the factory and the static creators is left out, and
-- so are the unit tests beside it. Columns are counted by numbers, so a negative index is left out,
-- and a text is shorter than the 2 ^ 62 bytes near which the lengths in `escape` of the drivers for
-- MySQL and PostgreSQL would wrap around. A `time_t` has no bound here. The number of holders of an
-- object fits a `long`. To the servers of the Transactions modules every text that is not about transactions is a change; statements that end a
-- transaction by themselves, as some of MySQL's do, are left out, and so is what other sessions do.
pub mod Prelude
pub mod Effects
pub mod C
pub mod Convert
pub mod Sql
pub mod Db
pub mod Sqlite3
pub mod Mysql
pub mod Pq
pub mod Odbc
pub mod Drivers
pub mod TestDb
