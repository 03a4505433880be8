-- ===== src/Pq/Examples/Clients.antt =====
-- A client that lists the tables of a small PostgreSQL. Tests and examples.
use dbabstract.Prelude.{◌+◌, ◌≡◌, refl, false, List, [], ◌∷◌, Bytes, length, arith, ℕ}
use dbabstract.Effects.{Log}
use dbabstract.Effects.Post.{Returns, count}
use dbabstract.Db.Closed.{begin, commit}
use dbabstract.Db.Client.{Client, Action, reopen, shut, perform, query, step, drop_set, run_client}
use dbabstract.Db.Client.Balance.{total}
use dbabstract.Pq.{Event, Api, is_command_ok}
use dbabstract.Pq.ResultSet.{PqResultSet}
use dbabstract.Pq.Connection.{PqConnection}
use dbabstract.Pq.Driver.{pq_connection, pq_result_set}
use dbabstract.Pq.Examples.{toy, here, machine}
use dbabstract.Pq.Examples
use dbabstract.Pq.Rows.{tables_sql}
use dbabstract.Pq.Clients.{
  connects_of, finishes_of, execs_of, clears_of, connection_is, result_is, run_client-IsAccounted,
}

-- A server that connects; its queries have 23 bytes.
abbrev server : Api
server = record toy { status = λ log h. 0 }

abbrev IsListing : Bytes → Type 0
IsListing sql = length sql ≡ 23

listing_yields_rows :
    (sql : Bytes) (log : Log Event) (h : ℕ)
    → IsListing sql
    → is_command_ok (server.result_status (server.on_exec log h sql)) ≡ false
listing_yields_rows sql log h e = rw e refl

abbrev outside : Client PqConnection PqResultSet
outside = record { conn = Examples.shut; sets = [] }

abbrev visit : List Action
visit =
    reopen here
    ∷ perform begin
    ∷ query tables_sql
    ∷ step 0
    ∷ query tables_sql
    ∷ drop_set 1
    ∷ perform commit
    ∷ shut
    ∷ []

run_client-IsAccounted_example :
    Returns
      (λ cl' log'.
        (count (connects_of 7) log' ≡ count (finishes_of 7) log' + connection_is 7 cl'.conn)
        × (count (execs_of 8) log' ≡ count (clears_of 8) log' + total (result_is 8) cl'.sets))
      (run_client (pq_connection server 3) (pq_result_set server 3 machine) visit outside [])
run_client-IsAccounted_example =
    run_client-IsAccounted server 3 machine IsListing listing_yields_rows 7 8 visit outside []
      (omega arith) (omega arith) refl refl
