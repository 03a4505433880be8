-- ===== src/Odbc/Accounts.antt =====
-- `ODBC_Connection::open` and `close` in dbabstract/odbc/odbc_db.cpp: the handles that are obtained and
-- given back.
use dbabstract.Prelude.{◌<◌, ◌≡◌, Bool, true, false, arith, ap, length, ◌⊎◌, inl, inr, ◌∙◌}
use dbabstract.Effects.{exited, ok, exited}
use dbabstract.Effects.Post.{Returns, Returns-bind, Returns-ok, Ends-cases}
use dbabstract.Db.{Target}
use dbabstract.Odbc.{Api, World}
use dbabstract.Odbc.Errors.{OdbcConnection}
use dbabstract.Odbc.Connection.{
  open_database, close_statement, close_session, close_connection, close_environment, close,
}
use dbabstract.Odbc.Handles.{IsAccounted, Kept, blank}
use dbabstract.Odbc.Opening.{open_database-Ends}

-- One step of `close`: it leaves the object accounted for, with what `P` says of the fields.
abbrev Closing : (OdbcConnection → Type 0) → OdbcConnection → World → Type 0
Closing P c w = IsAccounted c w × P c

close_statement-Returns :
    (c : OdbcConnection) (w : World)
    → IsAccounted c w
    → Returns (Closing (λ c'. c'.hstmt ≡ 0)) (close_statement c w)
unfolding close_statement
close_statement-Returns c w h = ground arith

close_session-Returns :
    (c : OdbcConnection) (w : World)
    → IsAccounted c w
    → c.hstmt ≡ 0
    → Returns (Closing (λ c'. (c'.hstmt ≡ 0) × (c'.connected ≡ false))) (close_session c w)
unfolding close_session
close_session-Returns c w h a = ground arith

close_connection-Returns :
    (c : OdbcConnection) (w : World)
    → IsAccounted c w
    → (c.hstmt ≡ 0) × (c.connected ≡ false)
    → Returns
        (Closing (λ c'. (c'.hstmt ≡ 0) × (c'.connected ≡ false) × (c'.hdbc ≡ 0)))
        (close_connection c w)
unfolding close_connection
close_connection-Returns c w h a = ground arith

close_environment-Returns :
    (c : OdbcConnection) (w : World)
    → IsAccounted c w
    → (c.hstmt ≡ 0) × (c.connected ≡ false) × (c.hdbc ≡ 0)
    → Returns (Closing (λ c'. c' ≡ blank)) (close_environment c w)
unfolding close_environment
close_environment-Returns c w h a = ground arith

-- `close` always returns true, with an object that holds nothing, and nothing is left open.
pub close-Returns :
    (c : OdbcConnection) (w : World)
    → IsAccounted c w
    → Returns (λ r w'. IsAccounted blank w' × (r ≡ (true, blank))) (close c w)
unfolding close
close-Returns c w h =
    Returns-bind _ _ (close_statement c w) _ (close_statement-Returns c w h) λ c1 w1 h1.
      Returns-bind _ _ (close_session c1 w1) _ (close_session-Returns c1 w1 h1.0 h1.1) λ c2 w2 h2.
        Returns-bind _ _ (close_connection c2 w2) _ (close_connection-Returns c2 w2 h2.0 h2.1)
          λ c3 w3 h3.
            Returns-bind _ _ (close_environment c3 w3) _ (close_environment-Returns c3 w3 h3.0 h3.1)
              λ c4 w4 h4. (rw h4.1 at h4.0, ap (λ c'. (true, c')) h4.1)

-- For a data source name of less than 1024 bytes, on an object that holds nothing and with every
-- handle accounted for: `open` ends the process, or it returns, and then `close` returns true and
-- leaves an object that holds nothing, with each handle and each session that was obtained given
-- back.
pub open-close :
    (api : Api) (target : Target) (w : World)
    → length target.database < 1024
    → IsAccounted blank w
    → (open_database api target blank w ≡ exited)
      ⊎ ((opened : Bool × OdbcConnection) × (w1 : World) × (open_database api target blank w
            ≡ ok (opened, w1))
          × ((w2 : World) × (close opened.1 w1 ≡ ok ((true, blank), w2)) × IsAccounted blank w2))
open-close api target w short h =
    elim (Ends-cases Kept _ (open_database-Ends api target w short h)) [
      | inl gone ↦ inl gone
      | inr (opened, w1, e, h1) ↦
          let (a, w2, returns, facts) =
            Returns-ok _ (close opened.1 w1) (close-Returns opened.1 w1 h1) in
          inr (opened, w1, e, (w2, returns ∙ ap (λ x. ok (x, w2)) facts.1, facts.0))
    ]
