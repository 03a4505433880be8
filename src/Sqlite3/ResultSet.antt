-- ===== src/Sqlite3/ResultSet.antt =====
-- dbabstract/sqlite3/sqlite3_db.cpp: `Sqlite3_ResultSet`. `fuel` bounds the rounds of a loop over
-- `sqlite3_step`, which the library alone can end.
use dbabstract.Prelude.{
  ℕ, zero, suc, Bool, true, false, Bytes, Option, none, some, ◌==◌, if◌then◌else◌,
}
use dbabstract.Prelude.Int.{ℤ}
use dbabstract.Effects.{Log, Program, spinning, pure, lift, call, deref, map_result, ◌>>=◌, ◌>>◌}
use dbabstract.C.Num.{atoi, atol, to_short}
use dbabstract.Convert.{Machine, text_is_true, parse_unix_time, find_column_from}
use dbabstract.Sqlite3.{
  Event, Api, sqlite3_step, sqlite3_finalize, sqlite3_column_text, sleep, sqlite_busy, sqlite_row,
  is_final,
}

pub record Sqlite3ResultSet : Type 0 where
  pub res_ : ℕ

module _ (api : Api) where
  unfoldable pub step : ℕ → Program (Log Event) ℕ
  step res = call (λ log. api.on_step log res) (sqlite3_step res)

  unfoldable pub column_text : ℕ → ℕ → Program (Log Event) (Option Bytes)
  column_text res idx = call (λ log. api.on_column_text log res idx) (sqlite3_column_text res idx)

  -- The loop of `close`: the rows that are left.
  unfoldable pub drain : ℕ → ℕ → Program (Log Event) (Unit {0})
  unfolding step
  drain zero res log = lift spinning log
  drain (suc fuel) res log = (do rc ← step res; if is_final rc then pure tt else drain fuel res) log

  unfoldable pub close : ℕ → Sqlite3ResultSet → Program (Log Event) (Bool × Option Sqlite3ResultSet)
  close fuel rs = if rs.res_ == 0 then pure (false, some rs) else (do
    drain fuel rs.res_
    call (λ _. tt) (λ _. sqlite3_finalize rs.res_)
    pure (true, none))

  -- The loop of `next`. `continue` goes to the loop's test, which a busy database passes.
  unfoldable pub fetch : ℕ → ℕ → Program (Log Event) Bool
  unfolding step
  fetch zero res log = lift spinning log
  fetch (suc fuel) res log =
      (do
        rc ← step res
        if rc == sqlite_busy
            then (do call (λ _. tt) (λ _. sleep 1); fetch fuel res)
            else if rc == sqlite_row
            then pure true
            else if is_final rc
            then pure false
            else fetch fuel res)
        log

  unfoldable pub next : ℕ → Sqlite3ResultSet → Program (Log Event) (Bool × Sqlite3ResultSet)
  next fuel rs = do found ← fetch fuel rs.res_; pure (found, rs)

  unfoldable pub record_count : Sqlite3ResultSet → Program (Log Event) ℕ
  record_count rs = pure 0

  unfoldable pub find_column : Bytes → Sqlite3ResultSet → Program (Log Event) ℕ
  find_column fld rs =
      lift (find_column_from (api.column_name rs.res_) fld (api.column_count rs.res_) 0)

  unfoldable pub get_string : ℕ → Sqlite3ResultSet → Program (Log Event) (Option Bytes)
  get_string idx rs = column_text rs.res_ idx

  unfoldable pub get_integer : ℕ → Sqlite3ResultSet → Program (Log Event) ℤ
  get_integer idx rs = do v ← column_text rs.res_ idx; text ← lift (deref v); lift (atoi text)

  unfoldable pub get_bool : ℕ → Sqlite3ResultSet → Program (Log Event) Bool
  get_bool idx rs = do v ← column_text rs.res_ idx; pure (text_is_true v)

  unfoldable pub get_long : ℕ → Sqlite3ResultSet → Program (Log Event) ℤ
  get_long idx rs = do v ← column_text rs.res_ idx; text ← lift (deref v); lift (atol text)

  unfoldable pub get_short : ℕ → Sqlite3ResultSet → Program (Log Event) ℤ
  get_short idx rs = do
    v ← column_text rs.res_ idx
    text ← lift (deref v)
    lift (map_result to_short (atoi text))

  module _ {D F : Type 0} (machine : Machine D F) where
    unfoldable pub get_unix_time : ℕ → Sqlite3ResultSet → Program (Log Event) ℤ
    get_unix_time idx rs = do v ← column_text rs.res_ idx; lift (parse_unix_time machine.zone v)

    unfoldable pub get_double : ℕ → Sqlite3ResultSet → Program (Log Event) D
    get_double idx rs = do
      v ← column_text rs.res_ idx
      text ← lift (deref v)
      pure (machine.strtod text)

    unfoldable pub get_float : ℕ → Sqlite3ResultSet → Program (Log Event) F
    get_float idx rs = do
      v ← column_text rs.res_ idx
      text ← lift (deref v)
      pure (machine.atof_float text)
