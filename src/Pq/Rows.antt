-- ===== src/Pq/Rows.antt =====
-- `PQ_ResultSet::next` and `PQ_Connection::tables` in dbabstract/pq/pq_db.cpp: the rows of a result.
use dbabstract.Prelude.{
  ℕ, zero, suc, ◌+◌, ◌<◌, ◌≡◌, ◌≢◌, true, false, List, [], ◌∷◌, ◌++◌, Bytes, codes, some, arith,
  append_assoc, append-nil, ◌==◌,
}
use dbabstract.Prelude.Int.{ℤ, pos, negsuc, ◌+ℤ◌, ltb_ℤ, int_laws}
use dbabstract.Effects.{Log, ok}
use dbabstract.Convert.{find_column_from}
use dbabstract.Pq.{Event, Api, is_command_ok, exec, clear}
use dbabstract.Pq.ResultSet.{next, get_string, find_column, close}
use dbabstract.Pq.Connection.{PqConnection, collect, tables, list_tables, execute_query, run_sql}

-- The texts of `left` rows from row `i` on.
abbrev pub texts : (ℕ → Bytes) → ℕ → ℕ → List Bytes
texts text zero i = []
texts text (suc left) i = text i ∷ texts text left (i + 1)

-- The text of the query that `tables` makes.
abbrev pub tables_sql : Bytes
tables_sql = codes "SELECT * from pg_tables"

module _ (api : Api) (res col : ℕ) (text : ℕ → Bytes) where
  -- Column `col` is the one named "tablename", and row `i` has the text `text i` in it.
  pub record IsTableList : Type 0 where
    pub column_is :
        find_column_from (api.fname res) (codes "tablename") (api.nfields res) 0 ≡ ok col
    pub row_is : (i : ℕ) → i < api.ntuples res → api.getvalue res (pos i) col ≡ some (text i)

  next_row : (i : ℕ) → pos i +ℤ pos 1 ≡ pos (i + 1)
  next_row i = omega int_laws

  first_row : negsuc 0 +ℤ pos 1 ≡ pos 0
  first_row = omega int_laws

  collect_rows :
      IsTableList
      → (rounds left i : ℕ) (row : ℤ) (names : List Bytes) (log : Log Event) → row +ℤ pos 1 ≡ pos i
      → i + left ≡ api.ntuples res
      → left < rounds
      → collect api rounds (record { res_ = res; row_ = row }) names log
        ≡ ok (names ++ texts text left i, log)
  unfolding collect next get_string find_column
  collect_rows listed zero left i row names log at fits more = absurd (omega arith)
  collect_rows listed (suc rounds) zero i row names log at fits more =
      let past : ltb_ℤ (pos i) (pos (api.ntuples res)) ≡ false = ground arith in
      rw (at, past, append-nil)
  collect_rows listed (suc rounds) (suc left) i row names log at fits more =
      let within : ltb_ℤ (pos i) (pos (api.ntuples res)) ≡ true = ground arith in
      rw (at, within, listed.column_is, listed.row_is i (omega arith))
        (rw append_assoc at (
          collect_rows listed rounds left (i + 1) (pos i) (names ++ (text i ∷ [])) log (next_row i)
            (omega arith) (omega arith)))

  -- On an open connection whose query yields a result that is no plain success and has a column
  -- "tablename" with a text in each row: `tables` answers that text of every row, from the
  -- first to the last, and clears the result, if the loop may make one round more than there
  -- are rows.
  pub tables-texts :
      IsTableList
      → (c : PqConnection) (rounds : ℕ) (log : Log Event) → c.pgconn_ ≢ 0
      → res ≢ 0
      → api.on_exec log c.pgconn_ tables_sql ≡ res
      → is_command_ok (api.result_status res) ≡ false
      → api.ntuples res < rounds
      → tables api rounds c log
        ≡ ok (texts text (api.ntuples res) 0, clear res ∷ exec c.pgconn_ tables_sql res ∷ log)
  unfolding tables list_tables execute_query run_sql close
  tables-texts listed c rounds log opened there e yields enough =
      let open_test : (c.pgconn_ == 0) ≡ false = ground arith in
      let res_test : (res == 0) ≡ false = ground arith in
      rw (
        open_test,
        e,
        yields,
        collect_rows listed rounds (api.ntuples res) 0 (negsuc 0) []
            (exec c.pgconn_ tables_sql res ∷ log) first_row (omega arith) enough,
        res_test,
      )
