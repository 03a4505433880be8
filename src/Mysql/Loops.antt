-- ===== src/Mysql/Loops.antt =====
-- What a ledger sees of the methods of dbabstract/mysql/mysql_db.cpp that give out no handle, and when the
-- loop over the rows of a result ends.
use dbabstract.Prelude.{
  ℕ, zero, suc, ◌<◌, ◌≡◌, false, ◌∷◌, Bytes, codes, Option, none, some, arith, ◌==◌, Bool-cases,
  Option-cases, inl, inr,
}
use dbabstract.Effects.{Log}
use dbabstract.Effects.Post.{Returns, Returns-bind, Returns-weaken}
use dbabstract.Db.Closed.{Statement, execute, begin, commit, rollback, set_mode, issue}
use dbabstract.Db.Client.Balance.{Ledger, Balances, part}
use dbabstract.Mysql.{Event, Api, Row, query, fetch_row, free_result}
use dbabstract.Mysql.ResultSet
use dbabstract.Mysql.ResultSet.{MysqlResultSet}
use dbabstract.Mysql.Connection
use dbabstract.Mysql.Connection.{MysqlConnection}
use dbabstract.Mysql.Driver.{mysql_connection}

-- A result has fewer than `fuel` rows left, and each that is fetched is one fewer.
pub record RowsEnd (api : Api) (fuel : ℕ) : Type 0 where
  pub left : Log Event → ℕ → ℕ
  pub bounded : (log : Log Event) (res : ℕ) → left log res < fuel
  pub fewer :
      (log : Log Event) (res : ℕ) (row : Row)
      → api.on_fetch_row log res ≡ some row
      → left (fetch_row res (some row) ∷ log) res < left log res

-- The calls that are no part of a ledger.
pub record Ignores (l : Ledger (Log Event)) : Type 0 where
  pub queries :
      (log : Log Event) (h : ℕ) (sql : Bytes) (rc : ℕ) → Balances l log (query h sql rc ∷ log) 0 0
  pub fetches :
      (log : Log Event) (r : ℕ) (row : Option Row) → Balances l log (fetch_row r row ∷ log) 0 0

module _ (api : Api) (fuel : ℕ) (ends : RowsEnd api fuel) where
  drain-Balances :
      (l : Ledger (Log Event)) (res : ℕ) (rounds : ℕ) (log : Log Event)
      → Ignores l
      → ends.left log res < rounds
      → Returns (λ _ log'. Balances l log log' 0 0) (ResultSet.drain api rounds res log)
  unfolding ResultSet.drain ResultSet.fetch
  drain-Balances l res zero log ignores enough = absurd (omega arith)
  drain-Balances l res (suc rounds) log ignores enough =
      elim (Option-cases (api.on_fetch_row log res)) [
        | inl last ↦ rw last (ignores.fetches log res none)
        | inr (row, e) ↦ rw e (
            Returns-weaken _ _ (ResultSet.drain api rounds res (fetch_row res (some row) ∷ log))
              (drain-Balances l res rounds (fetch_row res (some row) ∷ log) ignores
                (omega (arith, ends.fewer log res row e)))
              λ u log' h. omega (arith, h, ignores.fetches log res (some row)))
      ]

  execute-Balances :
      (l : Ledger (Log Event)) (sql : Bytes) (c : MysqlConnection) (log : Log Event)
      → Ignores l
      → Returns (λ _ log'. Balances l log log' 0 0) (Connection.execute api sql c log)
  unfolding Connection.execute Connection.send
  execute-Balances l sql c log ignores = elim (Bool-cases (c.mysql_ == 0)) [
    | inl null ↦ rw null (omega arith)
    | inr live ↦ rw live (ignores.queries log c.mysql_ sql (api.on_query log c.mysql_ sql))
  ]

  begin-Balances :
      (l : Ledger (Log Event)) (c : MysqlConnection) (log : Log Event)
      → Ignores l
      → Returns (λ _ log'. Balances l log log' 0 0) (Connection.begin_trans api c log)
  unfolding Connection.begin_trans Connection.send
  begin-Balances l c log ignores =
      let off = codes "SET AUTOCOMMIT = 0" in
      let rc = api.on_query log c.mysql_ off in
      let log1 : Log Event = query c.mysql_ off rc ∷ log in
      let first = ignores.queries log c.mysql_ off rc in
      let second =
        ignores.queries log1 c.mysql_ (codes "BEGIN")
          (api.on_query log1 c.mysql_ (codes "BEGIN")) in
      elim (Bool-cases (c.mysql_ == 0)) [
        | inl null ↦ rw null (omega arith)
        | inr live ↦ elim (Bool-cases (rc == 0)) [
          | inl sent ↦ rw (live, sent) (omega (arith, first, second))
          | inr refused ↦ rw (live, refused) first
        ]
      ]

  pub issue-Balances :
      (l : Ledger (Log Event)) (st : Statement) (c : MysqlConnection) (log : Log Event)
      → Ignores l
      → Returns (λ _ log'. Balances l log log' 0 0) (issue (mysql_connection api fuel) st c log)
  unfolding issue Connection.commit_trans Connection.rollback_trans Connection.execute
      Connection.set_transaction_mode
  issue-Balances l (execute sql) c log ignores = execute-Balances l sql c log ignores
  issue-Balances l begin c log ignores = begin-Balances l c log ignores
  issue-Balances l commit c log ignores = execute-Balances l (codes "COMMIT") c log ignores
  issue-Balances l rollback c log ignores = execute-Balances l (codes "ROLLBACK") c log ignores
  issue-Balances l (set_mode m) c log ignores =
      execute-Balances l (Connection.mode_sql api m) c log ignores

  pub close-Balances :
      (l : Ledger (Log Event)) (rs : MysqlResultSet) (log : Log Event) (n : MysqlResultSet → ℕ)
      → Ignores l
      → ((log0 : Log Event)
          → (rs.res_ == 0) ≡ false
          → Balances l log0 (free_result rs.res_ ∷ log0) (n rs) 0)
      → Returns
          (λ m log'. Balances l log log' (n rs) (part n m.1))
          (ResultSet.close api fuel rs log)
  unfolding ResultSet.close
  close-Balances l rs log n ignores frees = elim (Bool-cases (rs.res_ == 0)) [
    | inl null ↦ rw null (omega arith)
    | inr live ↦ rw live (
        Returns-bind _ _ (ResultSet.drain api fuel rs.res_ log) _
          (drain-Balances l rs.res_ fuel log ignores (ends.bounded log rs.res_))
          λ u log1 h. omega (arith, h, frees log1 live))
  ]
