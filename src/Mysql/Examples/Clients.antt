-- ===== src/Mysql/Examples/Clients.antt =====
-- Clients of a small MySQL. Tests and examples.
use dbabstract.Prelude.{
  ◌+◌, ◌≡◌, ◌<◌, ◌≤◌, refl, false, List, [], ◌∷◌, Bytes, codes, length, arith, ℕ, some,
}
use dbabstract.Prelude.Int.{pos}
use dbabstract.Effects.{Log}
use dbabstract.Effects.Post.{Returns, count}
use dbabstract.Convert.{Machine}
use dbabstract.Db.Closed.{begin, commit}
use dbabstract.Db.Client.{Client, Action, reopen, shut, perform, query, step, drop_set, run_client}
use dbabstract.Db.Client.Balance.{total}
use dbabstract.Mysql.{Event, Api, Row, fetch_row}
use dbabstract.Mysql.ResultSet.{MysqlResultSet}
use dbabstract.Mysql.Connection.{MysqlConnection}
use dbabstract.Mysql.Driver.{mysql_connection, mysql_result_set}
use dbabstract.Mysql.Examples.{toy, two_names, left_names, rest_of, first_row}
use dbabstract.Mysql.Examples
use dbabstract.Mysql.Loops.{RowsEnd}
use dbabstract.Mysql.Clients.{
  inits_of, closings_of, results_of, frees_of, handle_is, result_is, run_client-IsHeld,
}
use dbabstract.Mysql.Retries.{retry_once, retry-leaks_handle}

abbrev machine : Machine ℕ ℕ
machine = record {
  zone = λ t. pos 0;
  strtod = λ s. 0;
  zero_double = 0;
  atof_float = λ s. 0;
  zero_float = 0;
}

shorter :
    (names : List Bytes) (row : Row)
    → first_row names ≡ some row
    → length (rest_of names) < length names
shorter [] row e = cc
shorter (x ∷ xs) row e = omega arith

length-rest_of : (names : List Bytes) → length (rest_of names) ≤ length names
length-rest_of [] = omega arith
length-rest_of (x ∷ xs) = omega arith

few_left : (log : Log Event) → length (left_names log) < 3
few_left [] = omega arith
few_left (fetch_row res row ∷ log) = omega (arith, few_left log, length-rest_of (left_names log))
few_left (_ ∷ log) = few_left log

toy-RowsEnd : RowsEnd toy 3
toy-RowsEnd = record {
  left = λ log res. length (left_names log);
  bounded = λ log res. few_left log;
  fewer = λ log res row e. shorter (left_names log) row e;
}

abbrev outside : Client MysqlConnection MysqlResultSet
outside = record { conn = Examples.shut; sets = [] }

abbrev visit : List Action
visit =
    reopen Examples.nodb
    ∷ perform begin
    ∷ query (codes "SELECT name FROM notes")
    ∷ step 0
    ∷ drop_set 0
    ∷ perform commit
    ∷ shut
    ∷ []

run_client-IsHeld_example :
    Returns
      (λ cl' log'.
        (count (inits_of 7) log' ≡ count (closings_of 7) log' + handle_is 7 cl'.conn)
        × (count (results_of 8) log' ≡ count (frees_of 8) log' + total (result_is 8) cl'.sets))
      (run_client (mysql_connection toy 3) (mysql_result_set toy 3 machine) visit outside [])
run_client-IsHeld_example =
    run_client-IsHeld toy 3 machine toy-RowsEnd 7 8 visit outside [] (omega arith) (omega arith)
      refl refl

-- A server that is not there, and a library whose handles are numbered.
abbrev unreachable : Api
unreachable = record toy {
  on_init = λ log. 7 + length log;
  on_real_connect = λ log h target. false;
}

retry-leaks_handle_example :
    Returns
      (λ r log'.
        count (inits_of 7) log' + count (closings_of 7) []
        ≡ count (inits_of 7) [] + count (closings_of 7) log' + 1)
      (retry_once unreachable Examples.nodb Examples.nodb Examples.shut [])
retry-leaks_handle_example =
    retry-leaks_handle unreachable Examples.nodb Examples.nodb Examples.shut [] 7 9 refl
      (omega arith) refl refl (omega arith)
