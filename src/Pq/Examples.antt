-- ===== src/Pq/Examples.antt =====
-- A small PostgreSQL to run the driver on. Tests and examples.
mod Aborted
mod Clients
use dbabstract.Prelude.{
  ℕ, ◌+◌, ◌≡◌, refl, Bool, List, [], ◌∷◌, Bytes, codes, Option, none, some, ◌==◌, if◌then◌else◌,
  length, arith,
}
use dbabstract.Prelude.Int.{ℤ, pos, negsuc, mod_ℤ}
use dbabstract.C.Num.{to_short}
use dbabstract.C.Num.Decimal.{numeral}
use dbabstract.Pq.ResultSet.{PqResultSet, get_string, get_integer, get_long, get_short}
use dbabstract.Db.Getters.{get_short-numeral}
use dbabstract.Effects.{Log, ok, undefined}
use dbabstract.Effects.Post.{Returns, count}
use dbabstract.C.Memory.{c_string}
use dbabstract.Convert.{find_column_from, Machine}
use dbabstract.Db.{Target, serializable}
use dbabstract.Db.Closed.{Statement, execute, begin, commit, set_mode, run_script}
use dbabstract.Sql.{literal}
use dbabstract.C.Str.{str_eq}
use dbabstract.Pq.{Event, Api, command_ok, tuples_ok, exec, clear, connectdb}
use dbabstract.Pq.Connection.{
  PqConnection, tables, open_database, close, execute_query, escape_block,
}
use dbabstract.Pq.Driver.{pq_connection, pq_result_set, pq-ConvertsText}
use dbabstract.Db.References.{rel, holders, run_refs}
use dbabstract.Pq.Lifetime.{IsReleased, run_refs-IsReleased}
use dbabstract.Pq.Rows.{texts, tables_sql, IsTableList, tables-texts}
use dbabstract.Pq.Escape.{escape_block_undefined, escape_block_copies}
use dbabstract.Pq.Accounts.{
  connects, finishes, results, clears, open-close_connections, execute_query_leaks,
}
use dbabstract.Pq.Statements.{SameResults, run_script-SameResults}

abbrev columns : ℕ → Bytes
columns j = if j == 1 then codes "tablename" else codes "schemaname"

abbrev names : ℕ → Bytes
names i = if i == 0 then codes "notes" else codes "users"

abbrev value_at : ℤ → ℕ → Option Bytes
value_at (pos i) col = some (if col == 1 then names i else codes "public")
value_at (negsuc i) col = none

-- Result 8 holds the tables, and every other statement is a plain success with result 9.
abbrev pub toy : Api
toy = record {
  on_connectdb = λ log source. 7;
  status = λ log h. if h == 7 then 1 else 0;
  on_ping = λ log source. 0;
  on_exec = λ log h sql. if length sql == 23 then 8 else 9;
  result_status = λ res. if res == 8 then tuples_ok else command_ok;
  ntuples = λ res. 2;
  nfields = λ res. 3;
  fname = λ res j. some (columns j);
  getvalue = λ res. value_at;
  on_escape_literal = λ log h s. some (literal s);
  error_message = λ log h. some [];
  garbage = λ log i. 88;
}

abbrev pub live : PqConnection
live = record { pgconn_ = 7; database_ = codes "db" }

abbrev pub shut : PqConnection
shut = record { pgconn_ = 0; database_ = [] }

abbrev pub here : Target
here = record { database = codes "db"; host = none; port = 0; user = none; pass = none }

toy-IsTableList : IsTableList toy 8 1 names
unfolding find_column_from str_eq
toy-IsTableList = record { column_is = refl; row_is = λ i h. refl }

tables-texts_example :
    tables toy 3 live [] ≡ ok (texts names 2 0, clear 8 ∷ exec 7 tables_sql 8 ∷ [])
tables-texts_example =
    tables-texts toy 8 1 names toy-IsTableList live 3 [] (omega arith) (omega arith) refl refl
      (omega arith)

escape_block_undefined_example : escape_block (λ i. 88) (codes "'a'") ≡ undefined
escape_block_undefined_example = escape_block_undefined (λ i. 88) (codes "'a'") (λ i. omega arith)

zeroed_block_copied :
    (buf : Bytes) × (escape_block (λ i. i) (codes "'a'") ≡ ok buf)
    × (c_string buf ≡ ok (codes "'a'"))
zeroed_block_copied = escape_block_copies (λ i. i) (codes "'a'") refl (omega arith)

connection_finished :
    (opened : Bool × PqConnection) × (log1 : Log Event) × (open_database toy here shut []
      ≡ ok (opened, log1))
    × ((again : Bool × PqConnection) × (log2 : Log Event) × (close opened.1 log1 ≡ ok (again, log2))
        × (count connects log2 ≡ count finishes log2))
connection_finished = open-close_connections toy here shut [] refl refl

vacuum_leaks :
    (log' : Log Event) × (execute_query toy (codes "VACUUM") live [] ≡ ok (none, log'))
    × (count results log' ≡ count results [] + 1)
    × (count clears log' ≡ count clears [])
vacuum_leaks = execute_query_leaks toy (codes "VACUUM") live [] (omega arith) refl

abbrev script : List Statement
script = begin ∷ execute (codes "DELETE FROM notes") ∷ set_mode serializable ∷ commit ∷ []

results_cleared :
    Returns
      (λ answers log'. SameResults [] log' × (length answers ≡ 4))
      (run_script (pq_connection toy 3) script live [])
results_cleared = run_script-SameResults toy live 3 script []

-- Every column of this server holds the number -42, or 40000.
abbrev minus_42 : Api
minus_42 = record toy { getvalue = λ res row col. some (numeral (negsuc 41)) }

abbrev forty_thousand : Api
forty_thousand = record toy { getvalue = λ res row col. some (numeral (pos 40000)) }

abbrev at_row : PqResultSet
at_row = record { res_ = 8; row_ = pos 0 }

abbrev pub machine : Machine ℕ ℕ
machine = record {
  zone = λ t. pos 3600;
  strtod = λ s. 0;
  zero_double = 0;
  atof_float = λ s. 0;
  zero_float = 0;
}

minus_42_text : get_string minus_42 0 at_row [] ≡ ok (some (numeral (negsuc 41)), [])
unfolding get_string
minus_42_text = refl

minus_42_read :
    (get_integer minus_42 0 at_row [] ≡ ok (negsuc 41, []))
    × (get_long minus_42 0 at_row [] ≡ ok (negsuc 41, []))
    × (get_short minus_42 0 at_row [] ≡ ok (negsuc 41, []))
minus_42_read =
    get_short-numeral (pq_result_set minus_42 1 machine) machine.zone
      (pq-ConvertsText minus_42 1 machine) (negsuc 41) 0 at_row [] [] minus_42_text (omega arith)

wraps : to_short (pos 40000) ≡ negsuc 25535
unfolding to_short mod_ℤ
wraps = refl

two_give_up : holders 2 (rel ∷ rel ∷ []) ≡ some 0
unfolding holders
two_give_up = refl

-- Two holders of one open connection, who both give it up.
two_holders : Returns IsReleased (
    run_refs close
      (rel ∷ rel ∷ [])
      (some (record { ref = pos 2; object = live }))
      (connectdb (codes "db") 7 ∷ []))
two_holders =
    run_refs-IsReleased 1 (rel ∷ rel ∷ []) live (connectdb (codes "db") 7 ∷ []) refl two_give_up
