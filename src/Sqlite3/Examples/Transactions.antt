-- ===== src/Sqlite3/Examples/Transactions.antt =====
-- A transaction on a small SQLite that refuses one statement. Tests and examples.
use dbabstract.Prelude.{◌≡◌, refl, List, [], ◌∷◌, codes, length, arith}
use dbabstract.Effects.Post.{Returns}
use dbabstract.C.Str.{str_eq}
use dbabstract.Db.Closed.{Statement, execute, begin, commit, run_script}
use dbabstract.Db.Transactions.Answers.{each_answered}
use dbabstract.Db.Transactions.Atomic.{no_transaction}
use dbabstract.Db.Transactions.Server.{lookup, undisturbed}
use dbabstract.Sqlite3.Driver.{sqlite3_connection}
use dbabstract.Sqlite3.Examples.{toy, live}
use dbabstract.Sqlite3.Transactions.{sqlite3_database, run_script-answered}

abbrev script : List Statement
script = begin ∷ execute (codes "DELETE FROM notes") ∷ execute (codes "BYE") ∷ commit ∷ []

run_script-answered_example :
    Returns
      (λ answers log'.
        (length answers ≡ 4)
        × (sqlite3_database undisturbed 7 (no_transaction []) log'
            ≡ each_answered undisturbed script answers (no_transaction [])))
      (run_script (sqlite3_connection toy 1) script live [])
unfolding lookup str_eq
run_script-answered_example =
    run_script-answered undisturbed toy live (no_transaction []) (omega arith) 1 script []
      (tt, (refl, (refl, (tt, tt))))
