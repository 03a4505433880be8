-- ===== src/TestDb/Columns.antt =====
-- How test/test_db.cpp reads a row of the SQLite driver.
use dbabstract.Prelude.{ℕ, ◌≤◌, ◌≡◌, refl, ◌∷◌, Bytes, Option, some, arith}
use dbabstract.Prelude.Int.{ℤ}
use dbabstract.Effects.{Log, ok}
use dbabstract.Effects.Post.{Returns}
use dbabstract.C.Num.Decimal.{numeral, IsSigned, atoi-numeral}
use dbabstract.Convert.{Machine, parse_unix_time}
use dbabstract.Db.Client.Balance.{Balances}
use dbabstract.Sqlite3.{Event, Api, sqlite3_column_text}
use dbabstract.Sqlite3.ResultSet
use dbabstract.Sqlite3.ResultSet.{Sqlite3ResultSet}
use dbabstract.Sqlite3.Loops.{StepsEnd}
use dbabstract.Sqlite3.Clients.{statements}
use dbabstract.Sqlite3.Driver.{sqlite3_result_set}
use dbabstract.TestDb.{read_pair, read_all}

-- What is in the columns of the table: an identifier, a text, a time and a number.
pub record HasColumns {D F : Type 0} (api : Api) (machine : Machine D F) : Type 0 where
  pub id_at : Log Event → ℕ → ℤ
  pub id_is :
      (log : Log Event) (res : ℕ) → api.on_column_text log res 0 ≡ some (numeral (id_at log res))
  pub id_fits : (log : Log Event) (res : ℕ) → IsSigned 31 (id_at log res)
  pub data_at : Log Event → ℕ → Bytes
  pub data_is : (log : Log Event) (res : ℕ) → api.on_column_text log res 1 ≡ some (data_at log res)
  pub added_at : Log Event → ℕ → ℤ
  pub added_is :
      (log : Log Event) (res : ℕ)
      → parse_unix_time machine.zone (api.on_column_text log res 2) ≡ ok (added_at log res)
  pub cost_at : Log Event → ℕ → Bytes
  pub cost_is : (log : Log Event) (res : ℕ) → api.on_column_text log res 3 ≡ some (cost_at log res)

module _ {D F : Type 0} (api : Api) (rounds : ℕ) (machine : Machine D F)
    (ends : StepsEnd api rounds)
    (untouched : (log : Log Event) (res i : ℕ) (v : Option Bytes)
      → ends.left (sqlite3_column_text res i v ∷ log) res ≡ ends.left log res)
    (columns : HasColumns api machine) (s : ℕ) where
  abbrev pub Read : Sqlite3ResultSet → Log Event → Log Event → Type 0
  Read r log log' =
      Balances (statements s) log log' 0 0 × (ends.left log' r.res_ ≤ ends.left log r.res_)

  -- A column that is fetched.
  fetched : Sqlite3ResultSet → ℕ → Log Event → Log Event
  fetched r i log = sqlite3_column_text r.res_ i (api.on_column_text log r.res_ i) ∷ log

  fetched-Read : (r : Sqlite3ResultSet) (i : ℕ) (log : Log Event) → Read r log (fetched r i log)
  unfolding fetched
  fetched-Read r i log =
      (omega arith, omega (arith, untouched log r.res_ i (api.on_column_text log r.res_ i)))

  read_pair-fetched :
      (r : Sqlite3ResultSet) (log : Log Event)
      → read_pair (sqlite3_result_set api rounds machine) r log
        ≡ ok (
          (columns.id_at log r.res_, columns.data_at (fetched r 0 log) r.res_),
          fetched r 1 (fetched r 0 log),
        )
  unfolding fetched read_pair ResultSet.get_integer ResultSet.get_string ResultSet.column_text
  read_pair-fetched r log = rw (columns.id_is log r.res_) (
      rw (atoi-numeral (columns.id_at log r.res_) (columns.id_fits log r.res_)) (
        rw
          (columns.data_is
            (sqlite3_column_text r.res_ 0 (some (numeral (columns.id_at log r.res_))) ∷ log) r.res_)
          refl))

  fetched_all : Sqlite3ResultSet → Log Event → Log Event
  fetched_all r log = fetched r 2 (fetched r 3 (fetched r 2 (fetched r 1 (fetched r 0 log))))

  read_all-fetched :
      (r : Sqlite3ResultSet) (log : Log Event)
      → read_all (sqlite3_result_set api rounds machine) r log
        ≡ ok (
          (columns.id_at log r.res_, columns.data_at (fetched r 0 log) r.res_),
          fetched_all r log,
        )
  unfolding fetched_all fetched read_all ResultSet.get_unix_time ResultSet.get_double
      ResultSet.column_text
  read_all-fetched r log =
      let log2 = fetched r 1 (fetched r 0 log) in
      let log3 = fetched r 2 log2 in
      rw (read_pair-fetched r log) (
        rw (columns.added_is log2 r.res_) (
          rw (columns.cost_is log3 r.res_) (
            rw
              (columns.added_is
                (sqlite3_column_text r.res_ 3 (some (columns.cost_at log3 r.res_)) ∷ log3) r.res_)
              refl)))

  fetched_all-Read : (r : Sqlite3ResultSet) (log : Log Event) → Read r log (fetched_all r log)
  unfolding fetched_all
  fetched_all-Read r log =
      let log1 = fetched r 0 log in
      let log2 = fetched r 1 log1 in
      let log3 = fetched r 2 log2 in
      let log4 = fetched r 3 log3 in
      let a = fetched-Read r 0 log in
      let b = fetched-Read r 1 log1 in
      let c = fetched-Read r 2 log2 in
      let d = fetched-Read r 3 log3 in
      let e = fetched-Read r 2 log4 in
      (omega (arith, a.0, b.0, c.0, d.0, e.0), omega (arith, a.1, b.1, c.1, d.1, e.1))

  pub reads_pair :
      (r : Sqlite3ResultSet) (log : Log Event)
      → Returns
          (λ _ log'. Read r log log')
          (read_pair (sqlite3_result_set api rounds machine) r log)
  reads_pair r log =
      let a = fetched-Read r 0 log in
      let b = fetched-Read r 1 (fetched r 0 log) in
      rw (read_pair-fetched r log) (omega (arith, a.0, b.0), omega (arith, a.1, b.1))

  pub reads_all :
      (r : Sqlite3ResultSet) (log : Log Event)
      → Returns (λ _ log'. Read r log log') (read_all (sqlite3_result_set api rounds machine) r log)
  reads_all r log = rw (read_all-fetched r log) (fetched_all-Read r log)
