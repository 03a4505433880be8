-- ===== src/Sqlite3/Rows.antt =====
-- The loops over `sqlite3_step`: what `next`, `close` and `tables` do on a statement that hands out
-- its rows one by one.
use dbabstract.Prelude.{
  ℕ, zero, suc, ◌<◌, ◌≡◌, ◌≢◌, true, false, List, [], ◌∷◌, ◌++◌, Bytes, codes, Option, some, arith,
  length, append_assoc, append-nil, ◌==◌, ◌∙◌,
}
use dbabstract.Effects.{Log, ok}
use dbabstract.Sqlite3.{
  Event, Api, sqlite3_step, sqlite3_finalize, sqlite3_column_text, sqlite3_prepare, sqlite_row,
  sqlite_done, sqlite_ok,
}
use dbabstract.Sqlite3.ResultSet.{drain, fetch, next, close, get_string, column_text}
use dbabstract.Sqlite3.Connection.{Sqlite3Connection, collect, tables, list_tables, execute_query}

-- What SQLite documents of a statement whose column 2 holds the texts `all`: it answers a row for
-- each, then `SQLITE_DONE`, and starts again after that. `rows` is what is left.
pub record Cursor (api : Api) (res : ℕ) (all : List Bytes) : Type 0 where
  pub rows : Log Event → List Bytes
  pub row_code :
      (log : Log Event) (x : Bytes) (xs : List Bytes)
      → rows log ≡ x ∷ xs
      → api.on_step log res ≡ sqlite_row
  pub row_taken :
      (log : Log Event) (x : Bytes) (xs : List Bytes)
      → rows log ≡ x ∷ xs
      → rows (sqlite3_step res sqlite_row ∷ log) ≡ xs
  pub row_text :
      (log : Log Event) (x : Bytes) (xs : List Bytes)
      → rows log ≡ x ∷ xs
      → api.on_column_text (sqlite3_step res sqlite_row ∷ log) res 2 ≡ some x
  pub text_keeps :
      (log : Log Event) (v : Option Bytes) → rows (sqlite3_column_text res 2 v ∷ log) ≡ rows log
  pub end_code : (log : Log Event) → rows log ≡ [] → api.on_step log res ≡ sqlite_done
  pub restarts : (log : Log Event) → rows log ≡ [] → rows (sqlite3_step res sqlite_done ∷ log) ≡ all

module _ (api : Api) (res : ℕ) (all : List Bytes) (cur : Cursor api res all) where
  open cur use {rows, row_code, row_taken, row_text, text_keeps, end_code, restarts}

  fetch_row :
      (fuel : ℕ) (log : Log Event) (x : Bytes) (xs : List Bytes)
      → rows log ≡ x ∷ xs
      → fetch api (suc fuel) res log ≡ ok (true, sqlite3_step res sqlite_row ∷ log)
  unfolding fetch
  fetch_row fuel log x xs e = rw (row_code log x xs e)

  fetch_end :
      (fuel : ℕ) (log : Log Event)
      → rows log ≡ []
      → fetch api (suc fuel) res log ≡ ok (false, sqlite3_step res sqlite_done ∷ log)
  unfolding fetch
  fetch_end fuel log e = rw (end_code log e)

  drain_ends :
      (fuel : ℕ) (log : Log Event) (l : List Bytes)
      → rows log ≡ l
      → length l < fuel
      → (log' : Log Event) × (drain api fuel res log ≡ ok (tt, log'))
  unfolding drain
  drain_ends zero log l e h = absurd (omega arith)
  drain_ends (suc fuel) log [] e h = (sqlite3_step res sqlite_done ∷ log, rw (end_code log e))
  drain_ends (suc fuel) log (x ∷ xs) e h =
      let (log', ends) =
        drain_ends fuel (sqlite3_step res sqlite_row ∷ log) xs (row_taken log x xs e)
          (omega arith) in
      (log', rw (row_code log x xs e) ends)

  -- The client's loop gathers the rows that are left, in order.
  collect_rows :
      (fuel rounds : ℕ) (log : Log Event) (names l : List Bytes)
      → rows log ≡ l
      → length l < rounds
      → (log' : Log Event) × (collect api (suc fuel) rounds (record { res_ = res }) names log
          ≡ ok (names ++ l, log'))
        × (rows log' ≡ all)
  unfolding collect next get_string column_text
  collect_rows fuel zero log names l e h = absurd (omega arith)
  collect_rows fuel (suc rounds) log names [] e h =
      (sqlite3_step res sqlite_done ∷ log, rw (fetch_end fuel log e, append-nil), restarts log e)
  collect_rows fuel (suc rounds) log names (x ∷ xs) e h =
      let log1 = sqlite3_step res sqlite_row ∷ log in
      let log2 = sqlite3_column_text res 2 (some x) ∷ log1 in
      let (log', rest, again) =
        collect_rows fuel rounds log2 (names ++ (x ∷ [])) xs
          (text_keeps log1 (some x) ∙ row_taken log x xs e) (omega arith) in
      (log', rw (fetch_row fuel log x xs e, row_text log x xs e) (rw append_assoc at rest), again)

-- The text of the query that `tables` makes.
abbrev tables_sql : Bytes
tables_sql = codes "SELECT * FROM sqlite_master WHERE type='table'"

module _ (api : Api) (c : Sqlite3Connection) (res : ℕ) (all : List Bytes) where
  -- On an open connection whose query is prepared and hands out its rows as SQLite documents,
  -- `tables` answers the names in column 2 of every row, in order, and finalizes the statement,
  -- if the loops may make one round more than there are rows.
  pub tables-names :
      (cur : Cursor api res all)
      → (fuel : ℕ) (log : Log Event) → c.db_ ≢ 0
      → res ≢ 0
      → api.on_prepare log c.db_ tables_sql ≡ (sqlite_ok, res)
      → cur.rows (sqlite3_prepare c.db_ tables_sql (sqlite_ok, res) ∷ log) ≡ all
      → length all < fuel
      → (log' : Log Event) × (tables api fuel c log ≡ ok (all, sqlite3_finalize res ∷ log'))
  unfolding tables list_tables execute_query close
  tables-names cur zero log opened stmt prepared fresh enough = absurd (omega arith)
  tables-names cur (suc fuel) log opened stmt prepared fresh enough =
      let open_test : (c.db_ == 0) ≡ false = ground arith in
      let stmt_test : (res == 0) ≡ false = ground arith in
      let (log1, gathered, again) =
        collect_rows api res all cur fuel (suc fuel)
          (sqlite3_prepare c.db_ tables_sql (sqlite_ok, res) ∷ log) [] all fresh enough in
      let (log2, drained) = drain_ends api res all cur (suc fuel) log1 all again enough in
      (log2, rw (open_test, prepared, gathered, stmt_test, drained))
