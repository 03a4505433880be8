-- ===== src/TestDb/Ledger.antt =====
-- What a block of test/test_db.cpp gives back of what it obtains, with a driver whose methods keep a ledger.
use dbabstract.Prelude.{
  ℕ, zero, suc, ◌≤◌, ◌<◌, ◌≡◌, true, Bytes, codes, Option, none, some, arith, Bool-cases, inl, inr,
}
use dbabstract.Prelude.Int.{ℤ}
use dbabstract.Effects.{Program}
use dbabstract.Effects.Post.{Returns, Returns-bind, Returns-weaken}
use dbabstract.Db.{Connection, ResultSet}
use dbabstract.Db.Closed.{execute, issue}
use dbabstract.Db.Client.Balance.{Ledger, Balances, Keeps, part}
use dbabstract.TestDb.{
  Texts, select_pairs, select_all, read_pair, read_all, print_rows, print_found, print_query,
  use_table, show_statement, on_connected, block,
}

module _ {W S R D F : Type 0} (c : Connection W S R) (rs : ResultSet W R D F) (rounds : ℕ) (now : ℤ)
    (asks : Bytes → Type 0) (l : Ledger W) (conn_holds : S → ℕ) (set_holds : R → ℕ) where
  -- What else the program relies on: its two queries are such, a result has fewer rows left than
  -- `rounds` and each `next` that finds one takes it, `close` gives a result back, reading a row
  -- takes none, and the statement can be
  -- written.
  pub record Serves : Type 0 where
    pub keeps : Keeps c rs asks l conn_holds set_holds
    pub asks_pairs : asks select_pairs
    pub asks_all : asks select_all
    pub left : W → R → ℕ
    pub bounded : (w : W) (r : R) → left w r < rounds
    pub taken :
        (r : R) (w : W)
        → Returns
            (λ m w'.
              Balances l w w' (set_holds r) (set_holds m.1) × (m.0 ≡ true → left w' m.1 < left w r))
            (rs.next r w)
    pub given_back :
        (r : R) (w : W) → Returns (λ _ w'. Balances l w w' (set_holds r) 0) (rs.close r w)
    pub reads_pair :
        (r : R) (w : W)
        → Returns (λ _ w'. Balances l w w' 0 0 × (left w' r ≤ left w r)) (read_pair rs r w)
    pub reads_all :
        (r : R) (w : W)
        → Returns (λ _ w'. Balances l w w' 0 0 × (left w' r ≤ left w r)) (read_all rs r w)
    pub shows :
        (s : S) (w : W) → Returns (λ _ w'. Balances l w w' 0 0) (show_statement c rs rounds now s w)
    pub versions : (s : S) (w : W) → Returns (λ _ w'. Balances l w w' 0 0) (c.version s w)

  module _ (serves : Serves) where
    Reads : (R → Program W (ℤ × Bytes)) → Type 0
    Reads row =
        (r : R) (w : W)
        → Returns (λ _ w'. Balances l w w' 0 0 × (serves.left w' r ≤ serves.left w r)) (row r w)

    print_rows-Balances :
        (row : R → Program W (ℤ × Bytes)) (n : ℕ) (r : R) (w : W)
        → Reads row
        → serves.left w r < n
        → Returns
            (λ m w'. Balances l w w' (set_holds r) (set_holds m.1))
            (print_rows c rs rounds row n r w)
    unfolding print_rows Reads
    print_rows-Balances row zero r w reads enough = absurd (omega arith)
    print_rows-Balances row (suc n) r w reads enough =
        Returns-bind _ _ (rs.next r w) _ (serves.taken r w) λ m w1 h1. elim (Bool-cases m.0) [
          | inl found ↦ rw found (
              Returns-bind _ _ (row m.1 w1) _ (reads m.1 w1) λ pair w2 h2.
                let fewer = h1.1 found in
                Returns-bind _ _ (print_rows c rs rounds row n m.1 w2) _
                  (print_rows-Balances row n m.1 w2 reads (omega (arith, fewer, h2.1)))
                  λ rest w3 h3. omega (arith, h1.0, h2.0, h3))
          | inr last ↦ rw last (h1.0)
        ]

    print_found-Balances :
        (row : R → Program W (ℤ × Bytes)) (found : Option R) (w : W)
        → Reads row
        → Returns
            (λ _ w'. Balances l w w' (part set_holds found) 0)
            (print_found c rs rounds row found w)
    unfolding print_found
    print_found-Balances row none w reads = omega arith
    print_found-Balances row (some r) w reads =
        Returns-bind _ _ (print_rows c rs rounds row rounds r w) _
          (print_rows-Balances row rounds r w reads (serves.bounded w r))
          λ rows w1 h1.
            Returns-bind _ _ (rs.close rows.1 w1) _ (serves.given_back rows.1 w1)
              λ shut w2 h2. omega (arith, h1, h2)

    print_query-Balances :
        (row : R → Program W (ℤ × Bytes)) (sql : Bytes) (s : S) (w : W)
        → Reads row
        → asks sql
        → Returns (λ _ w'. Balances l w w' 0 0) (print_query c rs rounds row sql s w)
    unfolding print_query
    print_query-Balances row sql s w reads asked =
        Returns-bind (λ o w'. Balances l w w' 0 (part set_holds o)) (λ _ w'. Balances l w w' 0 0)
          (c.execute_query sql s w) _ (serves.keeps.queries sql s w asked)
          λ found w1 h1.
            Returns-weaken (λ _ w'. Balances l w1 w' (part set_holds found) 0)
              (λ _ w'. Balances l w w' 0 0) (print_found c rs rounds row found w1)
              (print_found-Balances row found w1 reads) λ rows w2 h2. omega (arith, h1, h2)

    execute-Balances :
        (sql : Bytes) (s : S) (w : W) → Returns (λ _ w'. Balances l w w' 0 0) (c.execute sql s w)
    unfolding issue
    execute-Balances sql s w = serves.keeps.issues (execute sql) s w

    use_table-Balances :
        (texts : Texts) (s : S) (w : W)
        → Returns (λ _ w'. Balances l w w' 0 0) (use_table c rs rounds texts s w)
    unfolding use_table Reads
    use_table-Balances texts s w =
        Returns-bind _ _ (print_query c rs rounds (read_pair rs) select_pairs s w) _
          (print_query-Balances (read_pair rs) select_pairs s w serves.reads_pair serves.asks_pairs)
          λ nothing w1 h1.
            Returns-bind _ _ (c.execute texts.insert_joe s w1) _
              (execute-Balances texts.insert_joe s w1)
              λ joe w2 h2.
                Returns-bind _ _ (print_query c rs rounds (read_all rs) select_all s w2) _
                  (print_query-Balances (read_all rs) select_all s w2 serves.reads_all
                    serves.asks_all)
                  λ one w3 h3.
                    Returns-bind _ _ (c.execute texts.insert_benden s w3) _
                      (execute-Balances texts.insert_benden s w3)
                      λ benden w4 h4.
                        Returns-bind _ _ (print_query c rs rounds (read_pair rs) select_pairs s w4)
                          _
                          (print_query-Balances (read_pair rs) select_pairs s w4 serves.reads_pair
                            serves.asks_pairs)
                          λ two w5 h5.
                            Returns-bind _ _ (c.execute (codes "DROP TABLE testing") s w5) _
                              (execute-Balances (codes "DROP TABLE testing") s w5)
                              λ dropped w6 h6. omega (arith, h1, h2, h3, h4, h5, h6)

    on_connected-Balances :
        (texts : Texts) (s : S) (w : W)
        → Returns (λ _ w'. Balances l w w' 0 0) (on_connected c rs rounds texts now s w)
    unfolding on_connected
    on_connected-Balances texts s w =
        Returns-bind _ _ (show_statement c rs rounds now s w) _ (serves.shows s w) λ q w1 h1.
          Returns-bind _ _ (c.execute texts.create_table s w1) _
            (execute-Balances texts.create_table s w1)
            λ created w2 h2. elim (Bool-cases created) [
              | inl made ↦ rw made (
                  Returns-weaken (λ _ w'. Balances l w2 w' 0 0) (λ _ w'. Balances l w w' 0 0)
                    (use_table c rs rounds texts s w2) (use_table-Balances texts s w2)
                    λ code w3 h3. omega (arith, h1, h2, h3))
              | inr missing ↦ rw missing (omega (arith, h1, h2))
            ]

    -- On an object that is closed, a block returns, and holds what the object that it leaves holds.
    pub block-Balances :
        (texts : Texts) (s : S) (w : W)
        → c.handle s ≡ 0
        → Returns
            (λ r w'. Balances l w w' (conn_holds s) (conn_holds r.1))
            (block c rs rounds texts now s w)
    unfolding block
    block-Balances texts s w free =
        Returns-bind _ _ (c.version s w) _ (serves.versions s w) λ version w1 h1.
          Returns-bind _ _ (c.open_database texts.target s w1) _
            (serves.keeps.opens texts.target s w1 free)
            λ opened w2 h2. elim (Bool-cases opened.0) [
              | inl yes_open ↦ rw yes_open (
                  Returns-bind _ _ (on_connected c rs rounds texts now opened.1 w2) _
                    (on_connected-Balances texts opened.1 w2)
                    λ code w3 h3. omega (arith, h1, h2, h3))
              | inr refused ↦ rw refused (omega (arith, h1, h2))
            ]
