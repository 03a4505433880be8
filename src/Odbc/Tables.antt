-- ===== src/Odbc/Tables.antt =====
-- `ODBC_Connection::tables` in dbabstract/odbc/odbc_db.cpp: the column that is read of the rows of
-- `SQLTables`.
use dbabstract.Prelude.{
  ℕ, zero, suc, ◌+◌, ◌≤◌, ◌<◌, ◌≡◌, refl, ap, false, List, [], ◌∷◌, ◌++◌, Bytes, some, arith,
  length, ltb, take, drop, append_assoc, append-nil, length-append, length-drop,
}
use dbabstract.Effects.{Log, ok}
use dbabstract.C.Memory.{write_all, c_string, c_string-append, new_char, length-new_char, NoNul}
use dbabstract.Odbc.{Event, Api, World, success, no_data, fetch, get_data, list_tables}
use dbabstract.Odbc.Errors.{OdbcConnection}
use dbabstract.Odbc.Connection.{store_name, collect, tables}

take_all {ℓ} : {A : Type ℓ} (n : ℕ) (xs : List A) → length xs ≤ n → take n xs ≡ xs
take_all zero [] h = refl
take_all zero (x ∷ xs) h = absurd (omega arith)
take_all (suc n) [] h = refl
take_all (suc n) (x ∷ xs) h = ap (λ l. x ∷ l) (take_all n xs (omega arith))

not_over : (a b : ℕ) → b ≤ a → ltb a b ≡ false
not_over a b h = ground arith

-- A text that fits the local array, with its NUL.
abbrev pub FitsArray : Bytes → Type 0
FitsArray text = NoNul text × (length text < 1024)

abbrev pub AllFit : List Bytes → Type 0
AllFit [] = Unit
AllFit (name ∷ names) = FitsArray name × AllFit names

store_name-reads :
    (api : Api) (buf text : Bytes)
    → length buf ≡ 1024
    → FitsArray text
    → (buf' : Bytes) × (store_name api buf (some text) ≡ ok buf')
      × (length buf' ≡ 1024)
      × (c_string buf' ≡ ok text)
unfolding store_name write_all
store_name-reads api buf text e h =
    let whole : take 1023 text ≡ text = take_all 1023 text (omega (arith, h)) in
    let size : length (text ++ (0 ∷ [])) ≡ length text + 1 =
      omega (arith, length-append text (0 ∷ [])) in
    let rest = drop (0 + length (text ++ (0 ∷ []))) buf in
    let fits : ltb (length buf) (0 + length (text ++ (0 ∷ []))) ≡ false =
      not_over (length buf) (0 + length (text ++ (0 ∷ []))) (omega (arith, size, e, h.1)) in
    (
      (text ++ (0 ∷ [])) ++ rest,
      rw (whole, fits) refl,
      omega (
        arith,
        h,
        e,
        size,
        length-append (text ++ (0 ∷ [])) rest,
        length-drop (0 + length (text ++ (0 ∷ []))) buf,
      ),
      rw append_assoc (c_string-append text rest h.0),
    )

-- The log when the rows of these names have been read.
abbrev pub read_rows : ℕ → List Bytes → Log Event → Log Event
read_rows h [] log = log
read_rows h (name ∷ names) log =
    read_rows h names (get_data h 1 (success, some name) ∷ fetch h success ∷ log)

module _ (api : Api) (c : OdbcConnection) where
  -- From this log on, the driver manager hands out a row for each name, with the name in column 1,
  -- and then no row.
  abbrev pub Hands : List Bytes → Log Event → Type 0
  Hands [] log = api.on_fetch log c.hstmt ≡ no_data
  Hands (name ∷ names) log =
      (api.on_fetch log c.hstmt ≡ success)
      × (api.on_get_data (fetch c.hstmt success ∷ log) c.hstmt 1 ≡ (success, some name))
      × Hands names (get_data c.hstmt 1 (success, some name) ∷ fetch c.hstmt success ∷ log)

  collect_names :
      (rounds : ℕ) (left : List Bytes) (buf : Bytes) (names : List Bytes) (w : World)
      → length buf ≡ 1024
      → AllFit left
      → Hands left w.log
      → length left < rounds
      → collect api rounds buf names c w
        ≡ ok
            (names ++ left, record w { log = fetch c.hstmt no_data ∷ read_rows c.hstmt left w.log })
  unfolding collect
  collect_names zero left buf names w e fit hands enough = absurd (omega arith)
  collect_names (suc rounds) [] buf names w e fit hands enough = rw (hands, append-nil)
  collect_names (suc rounds) (name ∷ left) buf names w e fit hands enough =
      let (buf', stores, e', reads) = store_name-reads api buf name e fit.0 in
      let w' : World = record w {
        log = get_data c.hstmt 1 (success, some name) ∷ fetch c.hstmt success ∷ w.log;
      } in
      rw (hands.0, hands.1, stores, reads)
        (rw append_assoc at
          (collect_names rounds left buf' (names ++ (name ∷ [])) w' e' fit.1 hands.2 (omega arith)))

  -- If the driver manager hands out a row for each of the texts, with the text in column 1, and
  -- then no row, and each text fits the local array: the ODBC `tables` answers these texts of
  -- column 1, in order, whatever the array holds at first and whatever `SQLTables` answered, if
  -- the loop may make one round more than there are rows.
  pub tables-column_one :
      (names : List Bytes) (rounds : ℕ) (w : World)
      → AllFit names
      → Hands names (list_tables c.hstmt (api.on_tables w.log c.hstmt) ∷ w.log)
      → length names < rounds
      → tables api rounds c w
        ≡ ok (
          names,
          record w {
            log =
                fetch c.hstmt no_data
                ∷ read_rows c.hstmt names
                    (list_tables c.hstmt (api.on_tables w.log c.hstmt) ∷ w.log);
          },
        )
  unfolding tables
  tables-column_one names rounds w fit hands enough =
      let w1 : World = record w {
        log = list_tables c.hstmt (api.on_tables w.log c.hstmt) ∷ w.log;
      } in
      collect_names rounds names (new_char (api.garbage w1.log) 1024) [] w1
        (length-new_char (api.garbage w1.log) 1024) fit hands enough
