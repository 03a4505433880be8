-- ===== src/TestDb.antt =====
-- test/test_db.cpp: the program that tries each driver in turn, in a block of its own. The texts of a
-- block are data; what it prints is left out, but for the rows that it reads. `rounds` bounds the loops
-- over `next`.
pub mod Ledger
pub mod Columns
pub mod Finalizes
mod Examples
use dbabstract.Prelude.{
  ℕ, zero, suc, Bool, true, false, ◌&&◌, List, [], ◌∷◌, ◌++◌, Bytes, codes, Option, none, some,
  if◌then◌else◌,
}
use dbabstract.Prelude.Int.{ℤ}
use dbabstract.Effects.{Program, Log, spinning, pure, lift, deref, ◌>>=◌}
use dbabstract.Convert.{Machine}
use dbabstract.Db.{Connection, ResultSet, Target}
use dbabstract.Db.Streams.{put_qstr, put_unixtime}
use dbabstract.Sqlite3
use dbabstract.Sqlite3.Connection.{Sqlite3Connection}
use dbabstract.Sqlite3.Driver.{sqlite3_connection, sqlite3_result_set}
use dbabstract.Mysql
use dbabstract.Mysql.Connection.{MysqlConnection}
use dbabstract.Mysql.Driver.{mysql_connection, mysql_result_set}
use dbabstract.Pq
use dbabstract.Pq.Connection.{PqConnection}
use dbabstract.Pq.Driver.{pq_connection, pq_result_set}
use dbabstract.Odbc
use dbabstract.Odbc.Errors.{OdbcConnection}
use dbabstract.Odbc.Driver.{odbc_connection, odbc_result_set}

-- What differs between the blocks.
pub record Texts : Type 0 where
  pub target : Target
  pub create_table : Bytes
  pub insert_joe : Bytes
  pub insert_benden : Bytes

abbrev pub select_pairs : Bytes
select_pairs = codes "SELECT id, data FROM testing"

abbrev pub select_all : Bytes
select_all = codes "SELECT id, data, added, cost FROM testing"

module _ {W R D F : Type 0} (rs : ResultSet W R D F) where
  -- `getInteger(0)` and `getString(1)`, which is printed and must not be NULL.
  unfoldable pub read_pair : R → Program W (ℤ × Bytes)
  read_pair r = do
    id ← rs.get_integer 0 r
    v ← rs.get_string 1 r
    text ← lift (deref v)
    pure (id, text)

  -- The time is read twice.
  unfoldable pub read_all : R → Program W (ℤ × Bytes)
  unfolding read_pair
  read_all r = do
    pair ← read_pair r
    added ← rs.get_unix_time 2 r
    cost ← rs.get_double 3 r
    again ← rs.get_unix_time 2 r
    pure pair

module _ {W S R D F : Type 0} (c : Connection W S R) (rs : ResultSet W R D F) (rounds : ℕ) where
  -- `while (rs->next())`
  unfoldable pub print_rows : (R → Program W (ℤ × Bytes)) → ℕ → R → Program W (List (ℤ × Bytes) × R)
  print_rows row zero r w = lift spinning w
  print_rows row (suc left) r w =
      (do
        m ← rs.next r
        if m.0
            then (do pair ← row m.1; rest ← print_rows row left m.1; pure (pair ∷ rest.0, rest.1))
            else pure ([], m.1))
        w

  unfoldable pub print_found : (R → Program W (ℤ × Bytes)) → Option R → Program W (List (ℤ × Bytes))
  print_found row none = pure []
  print_found row (some r) = do rows ← print_rows row rounds r; rs.close rows.1 >>= λ _. pure rows.0

  unfoldable pub print_query :
      (R → Program W (ℤ × Bytes)) → Bytes → S → Program W (List (ℤ × Bytes))
  print_query row sql s = do found ← c.execute_query sql s; print_found row found

  -- The block behind the table's creation: its result is 0 or 1.
  unfoldable pub use_table : Texts → S → Program W ℕ
  use_table texts s = do
    nothing ← print_query (read_pair rs) select_pairs s
    joe ← c.execute texts.insert_joe s
    one ← print_query (read_all rs) select_all s
    benden ← c.execute texts.insert_benden s
    two ← print_query (read_pair rs) select_pairs s
    dropped ← c.execute (codes "DROP TABLE testing") s
    pure (if joe && (benden && dropped) then 0 else 1)

  -- The statement that is written to show `qstr` and `unixtime`.
  unfoldable pub show_statement : ℤ → S → Program W Bytes
  show_statement now s = do
    q ← put_qstr c (codes "SELECT id, data FROM testing WHERE data=") s (codes "ben'den")
    put_unixtime c (q ++ codes " and 1=1 and added=") s now

  unfoldable pub on_connected : Texts → ℤ → S → Program W ℕ
  on_connected texts now s = do
    q ← show_statement now s
    created ← c.execute texts.create_table s
    if created then use_table texts s else pure 1

  -- A block, with the object that it makes and leaves behind.
  unfoldable pub block : Texts → ℤ → S → Program W (ℕ × S)
  block texts now s = do
    version ← c.version s
    opened ← c.open_database texts.target s
    if opened.0
        then (do result ← on_connected texts now opened.1; pure (result, opened.1))
        else pure (1, opened.1)

-- The four blocks.
abbrev pub mysql_texts : Texts
mysql_texts = record {
  target = record {
    database = codes "test";
    host = some (codes "127.0.0.1");
    port = 3306;
    user = some (codes "root");
    pass = some [];
  };
  create_table =
      codes
        "CREATE TABLE testing (id int unsigned not null auto_increment primary key, data varchar(255) not null, added datetime, cost decimal(10,2)) ENGINE=MyISAM";
  insert_joe = codes "INSERT INTO testing SET data='joe', added=now(), cost=1.99";
  insert_benden = codes "INSERT INTO testing SET data='benden'";
}

abbrev pub sqlite3_texts : Texts
sqlite3_texts = record {
  target = record {
    database = codes "sqlite3_test";
    host = none;
    port = 0;
    user = none;
    pass = none;
  };
  create_table =
      codes
        "CREATE TABLE testing (id integer not null primary key autoincrement, data text not null, added integer, cost real)";
  insert_joe = codes "INSERT INTO testing VALUES (NULL,'joe',datetime('now'),1.99)";
  insert_benden = codes "INSERT INTO testing VALUES (NULL,'benden',0,0)";
}

abbrev pub pq_texts : Texts
pq_texts = record {
  target = record {
    database = codes "host = localhost dbname = postgres";
    host = none;
    port = 0;
    user = none;
    pass = none;
  };
  create_table =
      codes "CREATE TABLE testing (id serial, data text not null, added timestamp, cost real)";
  insert_joe = codes "INSERT INTO testing (data,added,cost) VALUES ('joe',NOW(),1.99)";
  insert_benden = codes "INSERT INTO testing (data,added,cost) VALUES ('benden',NOW(),0)";
}

abbrev pub odbc_texts : Texts
odbc_texts = record mysql_texts {
  target = record {
    database = codes "DSN=test_db";
    host = some [];
    port = 0;
    user = some [];
    pass = some [];
  };
}

module _ {D F : Type 0} (machine : Machine D F) (rounds : ℕ) (now : ℤ) where
  unfoldable pub sqlite3_block :
      Sqlite3.Api → Sqlite3Connection → Program (Log Sqlite3.Event) (ℕ × Sqlite3Connection)
  unfolding block
  sqlite3_block api =
      block (sqlite3_connection api rounds) (sqlite3_result_set api rounds machine) rounds
        sqlite3_texts now

  unfoldable pub mysql_block :
      Mysql.Api → MysqlConnection → Program (Log Mysql.Event) (ℕ × MysqlConnection)
  unfolding block
  mysql_block api =
      block (mysql_connection api rounds) (mysql_result_set api rounds machine) rounds mysql_texts
        now

  unfoldable pub pq_block : Pq.Api → PqConnection → Program (Log Pq.Event) (ℕ × PqConnection)
  unfolding block
  pq_block api =
      block (pq_connection api rounds) (pq_result_set api rounds machine) rounds pq_texts now

  unfoldable pub odbc_block : Odbc.Api → OdbcConnection → Program Odbc.World (ℕ × OdbcConnection)
  unfolding block
  odbc_block api =
      block (odbc_connection api rounds) (odbc_result_set api rounds machine) rounds odbc_texts now
