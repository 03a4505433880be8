-- ===== src/Odbc/ResultSet.antt =====
-- dbabstract/odbc/odbc_db.cpp: `ODBC_ResultSet`. `fuel` bounds the loop of `close`, which the driver
-- manager alone can end. A column's number is compared with the `static int` as a number.
use dbabstract.Prelude.{
  ℕ, zero, suc, ◌+◌, ◌-◌, ◌^◌, Bool, true, false, not, Bytes, Option, none, some, ◌==◌,
  if◌then◌else◌, ltb, take, [], ◌∷◌,
}
use dbabstract.Prelude.Int.{ℤ}
use dbabstract.Effects.{Program, ok, spinning, pure, lift, deref, map_result, ◌>>=◌, ◌>>◌}
use dbabstract.C.Num.{atoi, atol, to_short, to_ulong}
use dbabstract.C.Str.{str_eq}
use dbabstract.Convert.{Machine, text_is_true, parse_unix_time, or_zero, text_or}
use dbabstract.Odbc.{
  Api, World, Status, is_success, ask, tell, more_results, fetch_scroll, close_cursor, get_data,
}

pub record OdbcResultSet : Type 0 where
  pub hstmt : ℕ
  pub record_ : ℕ

-- `new ODBC_ResultSet(stmt)`
abbrev pub new_result_set : ℕ → OdbcResultSet
new_result_set statement = record { hstmt = statement; record_ = 0 }

-- The text that `SQLGetData` leaves in a cleared buffer of `size` bytes.
abbrev pub stored : ℕ → Option Bytes → Bytes
stored size none = []
stored size (some text) = take (size - 1) text

module _ (api : Api) where
  unfoldable pub next_result : ℕ → Program World Status
  next_result hstmt = ask (λ log. api.on_more_results log hstmt) (more_results hstmt)

  unfoldable pub drain : ℕ → ℕ → Program World (Unit {0})
  unfolding next_result
  drain zero hstmt w = lift spinning w
  drain (suc fuel) hstmt w =
      (do sts ← next_result hstmt; if is_success sts then drain fuel hstmt else pure tt) w

  unfoldable pub close : ℕ → OdbcResultSet → Program World (Bool × Option OdbcResultSet)
  close fuel rs = do drain fuel rs.hstmt; tell (close_cursor rs.hstmt); pure (true, none)

  -- The status that `next` begins with: nothing is asked before the first row.
  unfoldable pub advance : OdbcResultSet → Program World Bool
  unfolding next_result
  advance rs =
      if ltb 0 rs.record_ then (do sts ← next_result rs.hstmt; pure (is_success sts)) else pure true

  unfoldable pub next : OdbcResultSet → Program World (Bool × OdbcResultSet)
  next rs = do
    ready ← advance rs
    let rs' = record rs { record_ = 1 }
    if ready
        then (do
          sts ← ask (λ log. api.on_fetch_scroll log rs.hstmt) (fetch_scroll rs.hstmt)
          pure (is_success sts, rs'))
        else pure (false, rs')

  unfoldable pub record_count : OdbcResultSet → Program World ℕ
  record_count rs w = ok (to_ulong (api.row_count w.log rs.hstmt), w)

  -- The loop of `findColumn` from column `i` on.
  unfoldable pub find_from : ℕ → Bytes → ℕ → ℕ → ℕ
  find_from hstmt fld zero i = i
  find_from hstmt fld (suc left) i =
      let rest = find_from hstmt fld left (i + 1) in
      let (sts, name) = api.describe_col hstmt i in
      if not (is_success sts) then 0 else if str_eq name fld then i else rest

  unfoldable pub find_column : Bytes → OdbcResultSet → Program World ℕ
  find_column fld rs =
      let (sts, cols) = api.num_result_cols rs.hstmt in
      if is_success sts then pure (find_from rs.hstmt fld cols 1) else pure 0

  unfoldable pub get_string : ℕ → OdbcResultSet → Program World (Option Bytes)
  get_string idx rs w =
      if w.index == idx
      then ok (some w.fetch_buffer, w)
      else (let answer = api.on_get_data w.log rs.hstmt idx in
          let text = stored (2 ^ 20) answer.1 in
          ok (
            some text,
            record { log = get_data rs.hstmt idx answer ∷ w.log; index = idx; fetch_buffer = text },
          ))

  unfoldable pub get_integer : ℕ → OdbcResultSet → Program World ℤ
  get_integer idx rs = do buf ← get_string idx rs; text ← lift (deref buf); lift (atoi text)

  unfoldable pub get_bool : ℕ → OdbcResultSet → Program World Bool
  get_bool idx rs = do buf ← get_string idx rs; pure (text_is_true buf)

  unfoldable pub get_long : ℕ → OdbcResultSet → Program World ℤ
  get_long idx rs = do buf ← get_string idx rs; lift (or_zero atol buf)

  unfoldable pub get_short : ℕ → OdbcResultSet → Program World ℤ
  get_short idx rs = do buf ← get_string idx rs; lift (map_result to_short (or_zero atoi buf))

  module _ {D F : Type 0} (machine : Machine D F) where
    unfoldable pub get_unix_time : ℕ → OdbcResultSet → Program World ℤ
    get_unix_time idx rs = do buf ← get_string idx rs; lift (parse_unix_time machine.zone buf)

    unfoldable pub get_double : ℕ → OdbcResultSet → Program World D
    get_double idx rs = do
      buf ← get_string idx rs
      pure (text_or machine.strtod machine.zero_double buf)

    unfoldable pub get_float : ℕ → OdbcResultSet → Program World F
    get_float idx rs = do
      buf ← get_string idx rs
      pure (text_or machine.atof_float machine.zero_float buf)
