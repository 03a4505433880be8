-- ===== src/Db/Times.antt =====
-- dbabstract/db.h: `Out << unixtime(conn, t)` on any driver that writes times by the shared literal.
use dbabstract.Prelude.{ℕ, ◌≡◌, [], ◌∷◌, ◌++◌, Bytes, some}
use dbabstract.Prelude.Int.{ℤ, ◌-ℤ◌}
use dbabstract.Effects.{ok, lift}
use dbabstract.Convert.{quote, time_literal, parse_unix_time}
use dbabstract.Convert.RoundTrip.{HasFourDigitYear, unixtime-round_trip}
use dbabstract.Db.{Connection}
use dbabstract.Db.Streams.{put_unixtime, unixtime_impl}

module _ {W S R : Type 0} (c : Connection W S R) where
  -- A driver's `unixtimeToSql` is the shared one, on a new block.
  pub record WritesTimes : Type 0 where
    pub writes :
        (t : ℤ) (s : S) (w : W)
        → (garbage : ℕ → ℕ) × (c.unixtime_to_sql t s w ≡ lift (time_literal garbage t) w)

  -- With a driver whose `unixtimeToSql` is the shared one, for a time whose year has four
  -- digits: `Out << unixtime(conn, t)` appends a text between two quotes to the stream and
  -- calls nothing, and the body of `getUnixTime`, given that text, answers the time less the
  -- offset of the local zone at that time.
  pub put_unixtime-reads_back :
      WritesTimes
      → (out : Bytes) (s : S) (t : ℤ) (w : W) (zone : ℤ → ℤ) → HasFourDigitYear t
      → (text : Bytes) × (put_unixtime c out s t w
          ≡ ok (out ++ (quote ∷ (text ++ (quote ∷ []))), w))
        × (parse_unix_time zone (some text) ≡ ok (t -ℤ zone t))
  unfolding put_unixtime unixtime_impl
  put_unixtime-reads_back law out s t w zone h =
      let (garbage, e) = law.writes t s w in
      let (block, text, written, read, back) = unixtime-round_trip t h garbage zone in
      (text, rw (e, written, read), back)
