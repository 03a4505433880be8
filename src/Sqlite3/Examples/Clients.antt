-- ===== src/Sqlite3/Examples/Clients.antt =====
-- A client of a small SQLite. Tests and examples.
use dbabstract.Prelude.{
  ◌+◌, ◌≡◌, ◌<◌, ◌≤◌, refl, false, List, [], ◌∷◌, Bytes, codes, length, arith, ◌==◌, ℕ, Bool-cases,
  inl, inr,
}
use dbabstract.Prelude.Int.{pos}
use dbabstract.Effects.{Log}
use dbabstract.Effects.Post.{Returns, count}
use dbabstract.Convert.{Machine}
use dbabstract.Db.Closed.{execute, begin}
use dbabstract.Db.Client.{Client, Action, reopen, shut, perform, query, step, drop_set, run_client}
use dbabstract.Db.Client.Balance.{total}
use dbabstract.Sqlite3.{Event, sqlite3_step, sqlite_row, is_final}
use dbabstract.Sqlite3.ResultSet.{Sqlite3ResultSet}
use dbabstract.Sqlite3.Connection.{Sqlite3Connection}
use dbabstract.Sqlite3.Driver.{sqlite3_connection, sqlite3_result_set}
use dbabstract.Sqlite3.Examples.{toy, toy_rows, rest_of, step_code, here}
use dbabstract.Sqlite3.Loops.{StepsEnd}
use dbabstract.Sqlite3.Clients.{
  prepares_of, finalizes_of, messages_of, frees_of, statement_is, run_client-IsPrepared,
}

abbrev machine : Machine ℕ ℕ
machine = record {
  zone = λ t. pos 0;
  strtod = λ s. 0;
  zero_double = 0;
  atof_float = λ s. 0;
  zero_float = 0;
}

length-rest_of : (names : List Bytes) → length (rest_of names) ≤ length names
length-rest_of [] = omega arith
length-rest_of (x ∷ xs) = omega arith

few_left : (log : Log Event) → length (toy_rows log) < 3
few_left [] = omega arith
few_left (sqlite3_step s rc ∷ log) = elim (Bool-cases (rc == sqlite_row)) [
  | inl row ↦ rw row (omega (arith, few_left log, length-rest_of (toy_rows log)))
  | inr other ↦ rw other (omega arith)
]
few_left (_ ∷ log) = few_left log

shorter :
    (log : Log Event) (res : ℕ) (rows : List Bytes)
    → toy_rows log ≡ rows
    → is_final (step_code rows) ≡ false
    → length (toy_rows (sqlite3_step res (step_code rows) ∷ log)) < length rows
shorter log res [] e more = cc
shorter log res (x ∷ xs) e more = rw e (omega arith)

toy-StepsEnd : StepsEnd toy 3
toy-StepsEnd = record {
  left = λ log res. length (toy_rows log);
  bounded = λ log res. few_left log;
  fewer = λ log res more. shorter log res (toy_rows log) refl more;
  paused = λ log res n. refl;
}

abbrev outside : Client Sqlite3Connection Sqlite3ResultSet
outside = record { conn = record { db_ = 0 }; sets = [] }

abbrev visit : List Action
visit =
    reopen here
    ∷ perform begin
    ∷ perform (execute (codes "BYE"))
    ∷ query (codes "SELECT name FROM notes")
    ∷ step 0
    ∷ shut
    ∷ drop_set 0
    ∷ shut
    ∷ []

run_client-IsPrepared_example :
    Returns
      (λ cl' log'.
        (count (prepares_of 8) log' ≡ count (finalizes_of 8) log' + total (statement_is 8) cl'.sets)
        × (count (messages_of 44) log' ≡ count (frees_of 44) log'))
      (run_client (sqlite3_connection toy 3) (sqlite3_result_set toy 3 machine) visit outside [])
run_client-IsPrepared_example =
    run_client-IsPrepared toy 3 machine toy-StepsEnd 8 44 visit outside [] (omega arith)
      (omega arith) refl refl
