-- ===== src/TestDb/Finalizes.antt =====
-- The SQLite block of test/test_db.cpp: the statements that it prepares.
use dbabstract.Prelude.{ℕ, ◌≡◌, ◌≢◌, refl, ◌∷◌, ◌++◌, Bytes, codes, Option, some, arith}
use dbabstract.Prelude.Int.{ℤ}
use dbabstract.Effects.{Log, ok}
use dbabstract.Effects.Post.{Returns, Returns-weaken, count}
use dbabstract.C.Memory.{NoNul, new_copy}
use dbabstract.Sql.{literal, literal-NoNul}
use dbabstract.Convert.{Machine}
use dbabstract.Convert.RoundTrip.{HasFourDigitYear}
use dbabstract.Db.Times.{put_unixtime-reads_back}
use dbabstract.Db.Streams.{put_qstr, qstr_impl, c_str}
use dbabstract.Db.Client.Balance.{Balances, nothing}
use dbabstract.Sqlite3.{Event, Api, sqlite3_column_text, sqlite3_mprintf, free_text}
use dbabstract.Sqlite3.ResultSet
use dbabstract.Sqlite3.ResultSet.{Sqlite3ResultSet}
use dbabstract.Sqlite3.Connection
use dbabstract.Sqlite3.Connection.{Sqlite3Connection}
use dbabstract.Sqlite3.Loops.{StepsEnd, next-Takes, close-given_back}
use dbabstract.Sqlite3.Clients.{
  prepares_of, finalizes_of, statements, statement_is, statements_kept, statements-Ignores,
}
use dbabstract.Sqlite3.Driver.{
  sqlite3_connection, sqlite3_result_set, MprintfDoublesQuotes, sqlite3-WritesTimes,
}
use dbabstract.TestDb.{show_statement, sqlite3_block, block, sqlite3_texts}
use dbabstract.TestDb.Ledger.{Serves, block-Balances}
use dbabstract.TestDb.Columns.{HasColumns, reads_pair, reads_all}

module _ {D F : Type 0} (api : Api) (rounds : ℕ) (machine : Machine D F)
    (ends : StepsEnd api rounds)
    (untouched : (log : Log Event) (res i : ℕ) (v : Option Bytes)
      → ends.left (sqlite3_column_text res i v ∷ log) res ≡ ends.left log res)
    (columns : HasColumns api machine) (doubles : MprintfDoublesQuotes api rounds) (now : ℤ)
    (dated : HasFourDigitYear now) (s : ℕ) (real : s ≢ 0) where
  -- What `qstr` calls.
  quoted : Sqlite3Connection → Bytes → Bytes → Log Event → Log Event
  quoted c out str log =
      free_text (some (literal str)) ∷ (sqlite3_mprintf str (some (literal str)) ∷ log)

  put_qstr-quoted :
      (c : Sqlite3Connection) (out : Bytes) (log : Log Event)
      → put_qstr (sqlite3_connection api rounds) out c (codes "ben'den") log
        ≡ ok (out ++ literal (codes "ben'den"), quoted c out (codes "ben'den") log)
  unfolding put_qstr qstr_impl c_str Connection.escape quoted
  put_qstr-quoted c out log =
      let str = codes "ben'den" in
      let nonul : NoNul str = omega arith in
      let log1 : Log Event = sqlite3_mprintf str (some (literal str)) ∷ log in
      let (buf, copied, text) =
        new_copy (api.garbage log1) (literal str) (literal-NoNul str nonul) in
      rw (doubles log str) (rw copied (rw text refl))

  shows :
      (c : Sqlite3Connection) (log : Log Event)
      → Returns
          (λ _ log'. Balances (statements s) log log' 0 0)
          (show_statement
            (sqlite3_connection api rounds)
            (sqlite3_result_set api rounds machine)
            rounds
            now
            c
            log)
  unfolding show_statement quoted
  shows c log =
      let out = codes "SELECT id, data FROM testing WHERE data=" in
      let str = codes "ben'den" in
      let (text, written, back) =
        put_unixtime-reads_back (sqlite3_connection api rounds) (sqlite3-WritesTimes api rounds)
          ((out ++ literal str) ++ codes " and 1=1 and added=") c now (quoted c out str log)
          machine.zone dated in
      rw (put_qstr-quoted c out log) (rw written (omega arith))

  gives_back :
      (r : Sqlite3ResultSet) (log : Log Event)
      → Returns
          (λ _ log'. Balances (statements s) log log' (statement_is s r) 0)
          (ResultSet.close api rounds r log)
  gives_back r log =
      close-given_back api rounds ends (statements s) (statements-Ignores api rounds machine ends s)
        (statement_is s) r log (λ null. ground arith) (λ log0 live. omega arith)

  serves :
      Serves
        (sqlite3_connection api rounds)
        (sqlite3_result_set api rounds machine)
        rounds
        now
        (λ sql. Unit)
        (statements s)
        nothing
        (statement_is s)
  unfolding Connection.version
  serves = record {
    keeps = statements_kept api rounds machine ends s real;
    asks_pairs = tt;
    asks_all = tt;
    left = λ log r. ends.left log r.res_;
    bounded = λ log r. ends.bounded log r.res_;
    taken = λ r log.
        next-Takes api rounds ends (statements s) (statements-Ignores api rounds machine ends s)
          (statement_is s) r log;
    given_back = gives_back;
    reads_pair = reads_pair api rounds machine ends untouched columns s;
    reads_all = reads_all api rounds machine ends untouched columns s;
    shows = shows;
    versions = λ c log. omega arith;
  }

  -- If `sqlite3_step` ends a statement in fewer steps than the loops may make rounds, also
  -- where columns are read in between, the four columns of every row hold the numeral of an
  -- `int`, a text, a time that `getUnixTime` reads and a text, `sqlite3_mprintf` doubles the
  -- quotes, and the time now has a year of four digits: the SQLite block of the test program,
  -- begun on an object that is not connected, returns, and any prepared statement but NULL has
  -- then been finalized as often as it was prepared, if it was so before.
  pub sqlite3_block-finalizes :
      (c : Sqlite3Connection) (log : Log Event)
      → c.db_ ≡ 0
      → count (prepares_of s) log ≡ count (finalizes_of s) log
      → Returns
          (λ r log'. count (prepares_of s) log' ≡ count (finalizes_of s) log')
          (sqlite3_block machine rounds now api c log)
  unfolding sqlite3_block
  sqlite3_block-finalizes c log free even =
      Returns-weaken (λ r log'. Balances (statements s) log log' 0 0)
        (λ r log'. count (prepares_of s) log' ≡ count (finalizes_of s) log')
        (block (sqlite3_connection api rounds) (sqlite3_result_set api rounds machine) rounds
          sqlite3_texts now c log)
        (block-Balances (sqlite3_connection api rounds) (sqlite3_result_set api rounds machine)
          rounds now (λ sql. Unit) (statements s) nothing (statement_is s) serves sqlite3_texts c
          log free)
        λ r log' h. omega (arith, even, h)
