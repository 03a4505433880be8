-- ===== src/Mysql/Examples.antt =====
-- A small MySQL to run the driver on: two tables. Tests and examples.
mod Lost
mod Clients
use dbabstract.Prelude.{
  ◌≡◌, refl, Bool, true, false, List, [], ◌∷◌, ◌++◌, Bytes, codes, Option, none, some, ◌==◌,
  if◌then◌else◌, length, arith,
}
use dbabstract.Effects.{Log, ok}
use dbabstract.Effects.Post.{Returns, count}
use dbabstract.C.Memory.{c_string}
use dbabstract.Convert.{quote}
use dbabstract.Db.{Target, serializable}
use dbabstract.Db.Closed.{Statement, begin, commit, rollback, set_mode, run_script}
use dbabstract.Sql.{doubled}
use dbabstract.Mysql.{Event, Api, Row, query, list_tables, fetch_row, free_result}
use dbabstract.Mysql.Connection
use dbabstract.Mysql.Connection.{MysqlConnection, tables, open_database, close, escape_block}
use dbabstract.Mysql.Driver.{mysql_connection}
use dbabstract.Mysql.Literal.{backslashed, read_text, escape-contained}
use dbabstract.Mysql.Rows.{row_of, fetched, tables-first_columns}
use dbabstract.Mysql.Escape.{escape_block-quotes}
use dbabstract.Mysql.Accounts.{inits, closings, open-close_handles}
use dbabstract.Mysql.Sessions.{autocommit, run_script-StaysOff}

abbrev pub two_names : List Bytes
two_names = codes "notes" ∷ codes "users" ∷ []

-- The rows that are left of the result.
abbrev pub rest_of : List Bytes → List Bytes
rest_of [] = []
rest_of (x ∷ xs) = xs

abbrev pub left_names : Log Event → List Bytes
left_names [] = two_names
left_names (fetch_row res row ∷ log) = rest_of (left_names log)
left_names (_ ∷ log) = left_names log

abbrev pub first_row : List Bytes → Option Row
first_row [] = none
first_row (x ∷ xs) = some (row_of x)

-- A server without the database "nodb".
abbrev pub toy : Api
toy = record {
  on_init = λ log. 7;
  on_real_connect = λ log h target. true;
  on_select_db = λ log h db. if length db == 4 then 1 else 0;
  on_ping = λ log h. 0;
  on_query = λ log h sql. 0;
  on_use_result = λ log h. 8;
  on_list_tables = λ log h. 8;
  on_fetch_row = λ log res. first_row (left_names log);
  num_rows = λ log res. 2;
  num_fields = λ res. 1;
  field_name = λ res j. some (codes "name");
  escape_string = doubled;
  on_insert_id = λ log h. 1;
  errno = λ log h. 0;
  error = λ log h. some [];
  client_info = codes "5.5.40";
  garbage = λ log i. 88;
}

abbrev pub live : MysqlConnection
live = record { mysql_ = 7 }

abbrev pub shut : MysqlConnection
shut = record { mysql_ = 0 }

abbrev pub nodb : Target
nodb = record { database = codes "nodb"; host = none; port = 0; user = none; pass = none }

tables-first_columns_example :
    tables toy 4 live []
    ≡ ok (
      two_names,
      free_result 8
          ∷ fetch_row 8 none
          ∷ fetch_row 8 none
          ∷ fetched 8 two_names (list_tables 7 8 ∷ []),
    )
tables-first_columns_example =
    tables-first_columns toy 8 live two_names 4 [] (omega arith) refl (refl, (refl, (refl, refl)))
      (omega arith)

backslashed_block :
    (buf : Bytes) × (escape_block (λ i. 88) (codes "a'b") (codes "a\\'b") ≡ ok buf)
    × (c_string buf ≡ ok (quote ∷ (codes "a\\'b" ++ (quote ∷ []))))
backslashed_block =
    escape_block-quotes (λ i. 88) (codes "a'b") (codes "a\\'b") (omega arith) (omega arith)

handle_closed :
    (opened : Bool × MysqlConnection) × (log1 : Log Event) × (open_database toy nodb shut []
      ≡ ok (opened, log1))
    × ((again : Bool × MysqlConnection) × (log2 : Log Event) × (close opened.1 log1
          ≡ ok (again, log2))
        × (count inits log2 ≡ count closings log2))
handle_closed = open-close_handles toy nodb shut [] refl refl

abbrev begun_log : Log Event
begun_log = query 7 (codes "BEGIN") 0 ∷ query 7 (codes "SET AUTOCOMMIT = 0") 0 ∷ []

live_begins : Connection.begin_trans toy live [] ≡ ok (true, begun_log)
unfolding Connection.begin_trans Connection.send
live_begins = refl

abbrev one_transaction : List Statement
one_transaction = commit ∷ set_mode serializable ∷ begin ∷ rollback ∷ []

run_script-StaysOff_example :
    Returns
      (λ answers log'. (autocommit 7 log' ≡ false) × (length answers ≡ 4))
      (run_script (mysql_connection toy 3) one_transaction live begun_log)
run_script-StaysOff_example =
    run_script-StaysOff toy live 3 one_transaction [] begun_log live_begins tt

-- The library as it is documented.
abbrev documented : Api
documented = record toy { escape_string = backslashed }

escape-contained_example :
    (buf text : Bytes) × (Connection.escape documented (codes "a'; DROP") live [] ≡ ok (buf, []))
    × (c_string buf ≡ ok text)
    × (read_text (text ++ codes " AND 1") ≡ some (codes "a'; DROP", codes " AND 1"))
escape-contained_example =
    escape-contained documented (λ s. refl) (codes "a'; DROP") (codes " AND 1") live []
      (omega arith)
