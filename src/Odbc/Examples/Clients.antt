-- ===== src/Odbc/Examples/Clients.antt =====
-- A client that tries a database that is not there, and then one that is. Tests and examples.
use dbabstract.Prelude.{ℕ, List, [], ◌∷◌, codes, none}
use dbabstract.Prelude.Int.{pos}
use dbabstract.Convert.{Machine}
use dbabstract.Db.{Target}
use dbabstract.Db.Closed.{begin, commit}
use dbabstract.Db.Client.{Client, Action, reopen, shut, perform, query, step, drop_set}
use dbabstract.Odbc.ResultSet.{OdbcResultSet}
use dbabstract.Odbc.Errors.{OdbcConnection}
use dbabstract.Odbc.Handles.{blank}
use dbabstract.Odbc.Examples.{elsewhere}

abbrev machine : Machine ℕ ℕ
machine = record {
  zone = λ t. pos 0;
  strtod = λ s. 0;
  zero_double = 0;
  atof_float = λ s. 0;
  zero_float = 0;
}

abbrev here : Target
here = record { database = codes "db"; host = none; port = 0; user = none; pass = none }

abbrev outside : Client OdbcConnection OdbcResultSet
outside = record { conn = blank; sets = [] }

abbrev visit : List Action
visit =
    reopen elsewhere
    ∷ reopen here
    ∷ perform begin
    ∷ query (codes "SELECT name FROM notes")
    ∷ step 0
    ∷ drop_set 0
    ∷ perform commit
    ∷ shut
    ∷ []
