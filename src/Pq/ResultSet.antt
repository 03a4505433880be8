-- ===== src/Pq/ResultSet.antt =====
-- dbabstract/pq/pq_db.cpp: `PQ_ResultSet`.
use dbabstract.Prelude.{ℕ, Bool, true, false, Bytes, Option, none, some, ◌==◌, if◌then◌else◌}
use dbabstract.Prelude.Int.{ℤ, pos, negsuc, ◌+ℤ◌, ltb_ℤ}
use dbabstract.Effects.{Log, Program, pure, lift, call, deref, map_result, ◌>>=◌, ◌>>◌}
use dbabstract.C.Num.{atoi, atol, to_short, to_ulong}
use dbabstract.Convert.{Machine, text_is_true, parse_unix_time, find_column_from, or_zero, text_or}
use dbabstract.Pq.{Event, Api, clear}

pub record PqResultSet : Type 0 where
  pub res_ : ℕ
  pub row_ : ℤ

-- `new PQ_ResultSet(res)`
abbrev pub new_result_set : ℕ → PqResultSet
new_result_set res = record { res_ = res; row_ = negsuc 0 }

unfoldable pub close : PqResultSet → Program (Log Event) (Bool × Option PqResultSet)
close rs =
    if rs.res_ == 0
    then pure (false, some rs)
    else (do call (λ _. tt) (λ _. clear rs.res_); pure (true, none))

module _ (api : Api) where
  unfoldable pub next : PqResultSet → Program (Log Event) (Bool × PqResultSet)
  next rs =
      let row = rs.row_ +ℤ pos 1 in
      pure (ltb_ℤ row (pos (api.ntuples rs.res_)), record rs { row_ = row })

  unfoldable pub record_count : PqResultSet → Program (Log Event) ℕ
  record_count rs = pure (to_ulong (pos (api.ntuples rs.res_)))

  unfoldable pub find_column : Bytes → PqResultSet → Program (Log Event) ℕ
  find_column fld rs = lift (find_column_from (api.fname rs.res_) fld (api.nfields rs.res_) 0)

  unfoldable pub get_string : ℕ → PqResultSet → Program (Log Event) (Option Bytes)
  get_string idx rs = pure (api.getvalue rs.res_ rs.row_ idx)

  unfoldable pub get_integer : ℕ → PqResultSet → Program (Log Event) ℤ
  get_integer idx rs = do v ← get_string idx rs; text ← lift (deref v); lift (atoi text)

  unfoldable pub get_bool : ℕ → PqResultSet → Program (Log Event) Bool
  get_bool idx rs = do v ← get_string idx rs; pure (text_is_true v)

  unfoldable pub get_long : ℕ → PqResultSet → Program (Log Event) ℤ
  get_long idx rs = do v ← get_string idx rs; lift (or_zero atol v)

  unfoldable pub get_short : ℕ → PqResultSet → Program (Log Event) ℤ
  get_short idx rs = do
    v ← get_string idx rs
    lift (or_zero (λ text. map_result to_short (atoi text)) v)

  module _ {D F : Type 0} (machine : Machine D F) where
    unfoldable pub get_unix_time : ℕ → PqResultSet → Program (Log Event) ℤ
    get_unix_time idx rs = do v ← get_string idx rs; lift (parse_unix_time machine.zone v)

    unfoldable pub get_double : ℕ → PqResultSet → Program (Log Event) D
    get_double idx rs = do
      v ← get_string idx rs
      pure (text_or machine.strtod machine.zero_double v)

    unfoldable pub get_float : ℕ → PqResultSet → Program (Log Event) F
    get_float idx rs = do
      v ← get_string idx rs
      pure (text_or machine.atof_float machine.zero_float v)
