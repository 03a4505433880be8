-- ===== src/Mysql/ResultSet.antt =====
-- dbabstract/mysql/mysql_db.cpp: `MySQL_ResultSet`. `fuel` bounds the loop of `close`, which the
-- library alone can end.
use dbabstract.Prelude.{
  ℕ, zero, suc, Bool, true, false, Bytes, Option, none, some, ◌==◌, if◌then◌else◌, get_elem?,
}
use dbabstract.Prelude.Int.{ℤ}
use dbabstract.Effects.{
  Log, Program, Result, ok, spinning, pure, lift, call, deref, map_result, and_then, ◌>>=◌, ◌>>◌,
}
use dbabstract.C.Num.{atoi, atol, to_short}
use dbabstract.Convert.{Machine, text_is_true, parse_unix_time, find_column_from, or_zero, text_or}
use dbabstract.Mysql.{Event, Api, Row, fetch_row, free_result}

-- `row_` is not initialised: `none` stands for that as well as for NULL, since it may not be followed
-- either way.
pub record MysqlResultSet : Type 0 where
  pub res_ : ℕ
  pub row_ : Option Row

-- `new MySQL_ResultSet(res)`
abbrev pub new_result_set : ℕ → MysqlResultSet
new_result_set res = record { res_ = res; row_ = none }

-- `row_[idx]`
unfoldable pub column : ℕ → MysqlResultSet → Result (Option Bytes)
column idx rs = and_then (deref rs.row_) (λ row. deref (get_elem? row idx))

abbrev pub is_some {ℓ} : {A : Type ℓ} → Option A → Bool
is_some none = false
is_some (some a) = true

module _ (api : Api) where
  unfoldable pub fetch : ℕ → Program (Log Event) (Option Row)
  fetch res = call (λ log. api.on_fetch_row log res) (fetch_row res)

  -- The loop of `close`: the rows that are left.
  unfoldable pub drain : ℕ → ℕ → Program (Log Event) (Unit {0})
  unfolding fetch
  drain zero res log = lift spinning log
  drain (suc fuel) res log =
      (do row ← fetch res; if is_some row then drain fuel res else pure tt) log

  unfoldable pub close : ℕ → MysqlResultSet → Program (Log Event) (Bool × Option MysqlResultSet)
  close fuel rs =
      if rs.res_ == 0
      then pure (false, some rs)
      else (do drain fuel rs.res_; call (λ _. tt) (λ _. free_result rs.res_); pure (true, none))

  unfoldable pub next : MysqlResultSet → Program (Log Event) (Bool × MysqlResultSet)
  unfolding fetch
  next rs = do row ← fetch rs.res_; pure (is_some row, record rs { row_ = row })

  unfoldable pub record_count : MysqlResultSet → Program (Log Event) ℕ
  record_count rs log = ok (api.num_rows log rs.res_, log)

  unfoldable pub find_column : Bytes → MysqlResultSet → Program (Log Event) ℕ
  find_column fld rs =
      lift (find_column_from (api.field_name rs.res_) fld (api.num_fields rs.res_) 0)

unfoldable pub get_string : ℕ → MysqlResultSet → Program (Log Event) (Option Bytes)
unfolding column
get_string idx rs = lift (column idx rs)

unfoldable pub get_integer : ℕ → MysqlResultSet → Program (Log Event) ℤ
unfolding column
get_integer idx rs = do v ← lift (column idx rs); text ← lift (deref v); lift (atoi text)

unfoldable pub get_bool : ℕ → MysqlResultSet → Program (Log Event) Bool
unfolding column
get_bool idx rs = do v ← lift (column idx rs); pure (text_is_true v)

unfoldable pub get_long : ℕ → MysqlResultSet → Program (Log Event) ℤ
unfolding column
get_long idx rs = do v ← lift (column idx rs); lift (or_zero atol v)

unfoldable pub get_short : ℕ → MysqlResultSet → Program (Log Event) ℤ
unfolding column
get_short idx rs = do v ← lift (column idx rs); lift (map_result to_short (or_zero atoi v))

module _ {D F : Type 0} (machine : Machine D F) where
  unfoldable pub get_unix_time : ℕ → MysqlResultSet → Program (Log Event) ℤ
  unfolding column
  get_unix_time idx rs = do v ← lift (column idx rs); lift (parse_unix_time machine.zone v)

  unfoldable pub get_double : ℕ → MysqlResultSet → Program (Log Event) D
  unfolding column
  get_double idx rs = do
    v ← lift (column idx rs)
    pure (text_or machine.strtod machine.zero_double v)

  unfoldable pub get_float : ℕ → MysqlResultSet → Program (Log Event) F
  unfolding column
  get_float idx rs = do
    v ← lift (column idx rs)
    pure (text_or machine.atof_float machine.zero_float v)
