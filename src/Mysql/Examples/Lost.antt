-- ===== src/Mysql/Examples/Lost.antt =====
-- A client that deletes two tables' rows, one of them behind the commit. Tests and examples.
use dbabstract.Prelude.{◌≡◌, refl, true, [], ◌∷◌, ◌++◌, Bytes, codes, arith}
use dbabstract.Effects.{Log, ok}
use dbabstract.C.Str.{str_eq}
use dbabstract.Db.Closed.{run_script, issue}
use dbabstract.Mysql.{Event, query}
use dbabstract.Mysql.Connection
use dbabstract.Mysql.Connection.{MysqlConnection, close}
use dbabstract.Mysql.Transactions.{session, new_session, command}
use dbabstract.Mysql.Examples.{toy, live}
use dbabstract.Mysql.Lost.{close-loses_change}

abbrev notes : Bytes
notes = codes "DELETE FROM notes"

abbrev users : Bytes
users = codes "DELETE FROM users"

abbrev calls : Log Event
calls =
    query 7 users 0
    ∷ query 7 (codes "COMMIT") 0
    ∷ query 7 notes 0
    ∷ query 7 (codes "BEGIN") 0
    ∷ query 7 (codes "SET AUTOCOMMIT = 0") 0
    ∷ []

close-loses_change_example :
    (log'' : Log Event) × (close live calls ≡ ok ((true, record { mysql_ = 0 }), log''))
    × ((session 7 (new_session []) calls).pending ≡ users ∷ [])
    × ((session 7 (new_session []) log'').durable ≡ [] ++ (notes ∷ []))
unfolding command str_eq run_script issue Connection.begin_trans Connection.execute
    Connection.commit_trans Connection.send
close-loses_change_example =
    close-loses_change toy live (new_session []) 1 (notes ∷ []) users [] [] calls (omega arith)
      (refl, tt) refl refl refl
