-- ===== src/Mysql/Rows.antt =====
-- `MySQL_Connection::tables` in dbabstract/mysql/mysql_db.cpp: the rows that the library hands out.
use dbabstract.Prelude.{
  ℕ, zero, suc, ◌<◌, ◌≡◌, ◌≢◌, false, List, [], ◌∷◌, ◌++◌, Bytes, Option, none, some, arith, length,
  append_assoc, append-nil, ◌==◌,
}
use dbabstract.Effects.{Log, ok}
use dbabstract.Mysql.{Event, Api, Row, list_tables, fetch_row, free_result}
use dbabstract.Mysql.ResultSet.{fetch, column, next, get_string, drain, close}
use dbabstract.Mysql.Connection.{MysqlConnection, collect, tables}

-- A row whose first column has the text.
abbrev pub row_of : Bytes → Row
row_of name = some name ∷ []

-- The log when the rows of these names have been fetched.
abbrev pub fetched : ℕ → List Bytes → Log Event → Log Event
fetched res [] log = log
fetched res (name ∷ names) log = fetched res names (fetch_row res (some (row_of name)) ∷ log)

module _ (api : Api) (res : ℕ) where
  -- From this log on, the library hands out a row for each name, and then no row, asked any number
  -- of times.
  abbrev pub Hands : List Bytes → Log Event → Type 0
  Hands [] log =
      (api.on_fetch_row log res ≡ none) × (api.on_fetch_row (fetch_row res none ∷ log) res ≡ none)
  Hands (name ∷ names) log =
      (api.on_fetch_row log res ≡ some (row_of name))
      × Hands names (fetch_row res (some (row_of name)) ∷ log)

  collect_names :
      (rounds : ℕ) (left : List Bytes) (row : Option Row) (names : List Bytes) (log : Log Event)
      → Hands left log
      → length left < rounds
      → (collect api rounds (record { res_ = res; row_ = row }) names log
          ≡ ok (names ++ left, fetch_row res none ∷ fetched res left log))
        × (api.on_fetch_row (fetch_row res none ∷ fetched res left log) res ≡ none)
  unfolding collect next get_string fetch column
  collect_names zero left row names log hands enough = absurd (omega arith)
  collect_names (suc rounds) [] row names log hands enough = (rw (hands.0, append-nil), hands.1)
  collect_names (suc rounds) (name ∷ left) row names log hands enough =
      let rest =
        collect_names rounds left (some (row_of name)) (names ++ (name ∷ []))
          (fetch_row res (some (row_of name)) ∷ log) hands.1 (omega arith) in
      (rw hands.0 (rw append_assoc at rest.0), rest.1)

  -- If `mysql_list_tables` makes a result, and the library hands out a row for each of the
  -- names and then no row twice: `tables` answers the first column of each row, in order, asks
  -- for one row more in each of its two loops, and frees the result, if the loops may make one
  -- round more than there are rows.
  pub tables-first_columns :
      (c : MysqlConnection) (names : List Bytes) (fuel : ℕ) (log : Log Event)
      → res ≢ 0
      → api.on_list_tables log c.mysql_ ≡ res
      → Hands names (list_tables c.mysql_ res ∷ log)
      → length names < fuel
      → tables api fuel c log
        ≡ ok (
          names,
          free_result res
              ∷ fetch_row res none
              ∷ fetch_row res none
              ∷ fetched res names (list_tables c.mysql_ res ∷ log),
        )
  unfolding tables close drain fetch
  tables-first_columns c names zero log there listed hands enough = absurd (omega arith)
  tables-first_columns c names (suc rest) log there listed hands enough =
      let res_test : (res == 0) ≡ false = ground arith in
      let walk =
        collect_names (suc rest) names none [] (list_tables c.mysql_ res ∷ log) hands enough in
      rw (listed, walk.0, res_test, walk.1)
