-- ===== src/Db/Streams.antt =====
-- dbabstract/db.h: `unixtime`, `qstr` and the functions behind their `<<`. A stream is the text
-- written to it so far.
use dbabstract.Prelude.{◌≡◌, refl, some, [], ◌∷◌, ◌++◌, Bytes, ◌==◌, if◌then◌else◌, arith}
use dbabstract.Prelude.Int.{ℤ}
use dbabstract.Effects.{Program, ok, pure, lift, ◌>>=◌}
use dbabstract.C.Memory.{c_string, NoNul}
use dbabstract.Db.{Connection}
use dbabstract.Sql.{literal, read_literal, read-literal, NotQuoted}

-- `s.c_str()`, read as a C string: a `std::string` may hold a NUL, and the reader stops there.
unfoldable pub c_str : Bytes → Bytes
c_str [] = []
c_str (b ∷ s) = let rest = b ∷ c_str s in if b == 0 then [] else rest

module _ {W S R : Type 0} (c : Connection W S R) where
  unfoldable pub unixtime_impl : Bytes → S → ℤ → Program W Bytes
  unixtime_impl out s ut = do
    buf ← c.unixtime_to_sql ut s
    text ← lift (c_string buf)
    pure (out ++ text)

  unfoldable pub qstr_impl : Bytes → S → Bytes → Program W Bytes
  qstr_impl out s str = do buf ← c.escape str s; text ← lift (c_string buf); pure (out ++ text)

  -- `Out << unixtime(conn, t)`
  unfoldable pub put_unixtime : Bytes → S → ℤ → Program W Bytes
  put_unixtime = unixtime_impl

  -- `Out << qstr(conn, str)`
  unfoldable pub put_qstr : Bytes → S → Bytes → Program W Bytes
  put_qstr out s str = qstr_impl out s (c_str str)

  -- A driver's `escape` makes an SQL literal of each text, on the connections `good`.
  pub record EscapesToLiteral (good : S → Type 0) : Type 0 where
    pub escaped :
        (str : Bytes) (s : S) (w : W)
        → NoNul str
        → good s
        → (buf : Bytes) × (w' : W) × (c.escape str s w ≡ ok (buf, w'))
          × (c_string buf ≡ ok (literal str))

  c_str-NoNul : (s : Bytes) → NoNul s → c_str s ≡ s
  unfolding c_str
  c_str-NoNul [] h = refl
  c_str-NoNul (b ∷ s) h = ground (arith, c_str-NoNul s h.1)

  -- With a driver whose `escape` makes an SQL literal of each text on the connections `good`,
  -- on such a connection: `Out << qstr(conn, str)`, for a text that holds no NUL, appends the
  -- literal of the text to the stream, and nothing else.
  pub put_qstr-literal :
      (good : S → Type 0)
      → EscapesToLiteral good
      → (out str : Bytes) (s : S) (w : W) → NoNul str
      → good s
      → (w' : W) × (put_qstr out s str w ≡ ok (out ++ literal str, w'))
  unfolding put_qstr qstr_impl
  put_qstr-literal good esc out str s w h g =
      let (buf, w', e, text) = esc.escaped str s w h g in (w', rw (c_str-NoNul str h, e, text))

  -- With a driver whose `escape` makes an SQL literal of each text on the connections `good`,
  -- on such a connection and for a text that holds no NUL: what `Out << qstr(conn, str)`
  -- appends to the stream is read as one SQL literal of that very text, whatever follows it in
  -- the statement, if that does not begin with a quote.
  pub put_qstr-contained :
      (good : S → Type 0)
      → EscapesToLiteral good
      → (out str rest : Bytes) (s : S) (w : W) → NoNul str
      → good s
      → NotQuoted rest
      → (text : Bytes) × (w' : W) × (put_qstr out s str w ≡ ok (out ++ text, w'))
        × (read_literal (text ++ rest) ≡ some (str, rest))
  put_qstr-contained good esc out str rest s w h g open_end =
      let (w', e) = put_qstr-literal good esc out str s w h g in
      (literal str, w', e, read-literal str rest open_end)
