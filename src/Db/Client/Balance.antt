-- ===== src/Db/Client/Balance.antt =====
-- What a client of dbabstract/db.h holds of the client library, and what its actions do to that.
use dbabstract.Prelude.{
  ℕ, zero, suc, ◌+◌, ◌≡◌, refl, List, [], ◌∷◌, Bytes, Option, none, some, get_elem?, set, ◌==◌,
  if◌then◌else◌, arith, Bool-cases, Option-cases, inl, inr,
}
use dbabstract.Effects.Post.{Returns, Returns-bind}
use dbabstract.Db.{Connection, ResultSet, Target}
use dbabstract.Db.Closed.{Statement, issue}
use dbabstract.Db.Client.{
  Client, Action, reopen, shut, perform, query, step, drop_set, replace, joined, open_again,
  step_set, close_set, act, run_client,
}

-- Counted over the result sets that a client holds.
abbrev pub total : {R : Type 0} → (R → ℕ) → List R → ℕ
total f [] = 0
total f (r ∷ rs) = f r + total f rs

abbrev pub part : {R : Type 0} → (R → ℕ) → Option R → ℕ
part f none = 0
part f (some r) = f r

total-set :
    {R : Type 0} (f : R → ℕ) (rs : List R) (i : ℕ) (r r' : R)
    → get_elem? rs i ≡ some r
    → total f (set rs i r') + f r ≡ total f rs + f r'
total-set f [] i r r' e = cc
total-set f (x ∷ rs) zero r r' e = let same : f x ≡ f r = cc in omega (arith, same)
total-set f (x ∷ rs) (suc i) r r' e = omega (arith, total-set f rs i r r' e)

total-replace :
    {R : Type 0} (f : R → ℕ) (rs : List R) (i : ℕ) (r : R) (o : Option R)
    → get_elem? rs i ≡ some r
    → total f (replace rs i o) + f r ≡ total f rs + part f o
total-replace f rs i r (some r') e = total-set f rs i r r' e
total-replace f [] i r none e = cc
total-replace f (x ∷ rs) zero r none e = let same : f x ≡ f r = cc in omega (arith, same)
total-replace f (x ∷ rs) (suc i) r none e = omega (arith, total-replace f rs i r none e)

total-joined :
    {R : Type 0} (f : R → ℕ) (o : Option R) (rs : List R)
    → total f (joined o rs) ≡ part f o + total f rs
total-joined f none rs = omega arith
total-joined f (some r) rs = omega arith

-- One thing that is, or is not, the one counted; and a holder of nothing.
abbrev pub same : ℕ → ℕ → ℕ
same a b = if a == b then 1 else 0

abbrev pub nothing : {A : Type 0} → A → ℕ
nothing a = 0

pub total-nothing : {A : Type 0} (xs : List A) → total nothing xs ≡ 0
total-nothing [] = refl
total-nothing (x ∷ xs) = omega (arith, total-nothing xs)

-- Something of which the library gave out so many, and took back so many.
pub record Ledger (W : Type 0) : Type 0 where
  pub gained : W → ℕ
  pub lost : W → ℕ

-- Between two worlds, so many fewer and so many more are held.
abbrev pub Balances : {W : Type 0} → Ledger W → W → W → ℕ → ℕ → Type 0
Balances l w w' before after = l.gained w' + l.lost w + before ≡ l.gained w + l.lost w' + after

module _ (asks : Bytes → Type 0) where
  -- The client's queries are of the texts `asks`.
  abbrev pub Asks : Action → Type 0
  Asks (query sql) = asks sql
  Asks _ = Unit

  abbrev pub AllAsk : List Action → Type 0
  AllAsk [] = Unit
  AllAsk (a ∷ rest) = Asks a × AllAsk rest

-- Where any text may be a query.
pub action-Asks : (a : Action) → Asks (λ sql. Unit) a
action-Asks (query sql) = tt
action-Asks (reopen target) = tt
action-Asks shut = tt
action-Asks (perform st) = tt
action-Asks (step i) = tt
action-Asks (drop_set i) = tt

pub actions-AllAsk : (actions : List Action) → AllAsk (λ sql. Unit) actions
actions-AllAsk [] = tt
actions-AllAsk (a ∷ rest) = (action-Asks a, actions-AllAsk rest)

module _ {W S R D F : Type 0} (c : Connection W S R) (rs : ResultSet W R D F)
    (asks : Bytes → Type 0) (l : Ledger W) (conn_holds : S → ℕ) (set_holds : R → ℕ) where
  -- How each method of a driver keeps a ledger. `asks` are the texts that the client takes as queries.
  pub record Keeps : Type 0 where
    pub opens :
        (target : Target) (s : S) (w : W)
        → c.handle s ≡ 0
        → Returns
            (λ r w'. Balances l w w' (conn_holds s) (conn_holds r.1))
            (c.open_database target s w)
    pub closes :
        (s : S) (w : W)
        → Returns (λ r w'. Balances l w w' (conn_holds s) (conn_holds r.1)) (c.close s w)
    pub issues :
        (st : Statement) (s : S) (w : W) → Returns (λ _ w'. Balances l w w' 0 0) (issue c st s w)
    pub queries :
        (sql : Bytes) (s : S) (w : W)
        → asks sql
        → Returns (λ o w'. Balances l w w' 0 (part set_holds o)) (c.execute_query sql s w)
    pub steps :
        (r : R) (w : W)
        → Returns (λ m w'. Balances l w w' (set_holds r) (set_holds m.1)) (rs.next r w)
    pub set_closes :
        (r : R) (w : W)
        → Returns (λ m w'. Balances l w w' (set_holds r) (part set_holds m.1)) (rs.close r w)

  -- What was given out is what was taken back and what the client holds.
  abbrev pub IsBalanced : Client S R → W → Type 0
  IsBalanced cl w = l.gained w ≡ l.lost w + conn_holds cl.conn + total set_holds cl.sets

  module _ (keeps : Keeps) where
    open_again-Balances :
        (target : Target) (s : S) (w : W)
        → Returns
            (λ s' w'. Balances l w w' (conn_holds s) (conn_holds s'))
            (open_again c rs target s w)
    unfolding open_again
    open_again-Balances target s w = Returns-bind _ _ (c.close s w) _ (keeps.closes s w) λ r w1 h1.
        elim (Bool-cases (c.handle r.1 == 0)) [
          | inl free ↦
              let null : c.handle r.1 ≡ 0 = ground arith in
              rw free (
                Returns-bind _ _ (c.open_database target r.1 w1) _ (keeps.opens target r.1 w1 null)
                  λ opened w2 h2. omega (arith, h1, h2))
          | inr taken ↦ rw taken h1
        ]

    step_set-Balances :
        (i : ℕ) (sets : List R) (w : W)
        → Returns
            (λ sets' w'. Balances l w w' (total set_holds sets) (total set_holds sets'))
            (step_set c rs i (get_elem? sets i) sets w)
    unfolding step_set
    step_set-Balances i sets w = elim (Option-cases (get_elem? sets i)) [
      | inl missing ↦ rw missing (omega arith)
      | inr (r, e) ↦ rw e (
          Returns-bind _ _ (rs.next r w) _ (keeps.steps r w)
            λ moved w1 h. omega (arith, h, total-set set_holds sets i r moved.1 e))
    ]

    close_set-Balances :
        (i : ℕ) (sets : List R) (w : W)
        → Returns
            (λ sets' w'. Balances l w w' (total set_holds sets) (total set_holds sets'))
            (close_set c rs i (get_elem? sets i) sets w)
    unfolding close_set
    close_set-Balances i sets w = elim (Option-cases (get_elem? sets i)) [
      | inl missing ↦ rw missing (omega arith)
      | inr (r, e) ↦ rw e (
          Returns-bind _ _ (rs.close r w) _ (keeps.set_closes r w)
            λ closed w1 h. omega (arith, h, total-replace set_holds sets i r closed.1 e))
    ]

    -- An action keeps the balance.
    pub act-IsBalanced :
        (a : Action) (cl : Client S R) (w : W)
        → Asks asks a
        → IsBalanced cl w
        → Returns IsBalanced (act c rs a cl w)
    unfolding act
    act-IsBalanced (reopen target) cl w asked h =
        Returns-bind _ _ (open_again c rs target cl.conn w) _ (open_again-Balances target cl.conn w)
          λ s w1 h1. omega (arith, h, h1)
    act-IsBalanced shut cl w asked h =
        Returns-bind _ _ (c.close cl.conn w) _ (keeps.closes cl.conn w)
          λ r w1 h1. omega (arith, h, h1)
    act-IsBalanced (perform st) cl w asked h =
        Returns-bind _ _ (issue c st cl.conn w) _ (keeps.issues st cl.conn w)
          λ r w1 h1. omega (arith, h, h1)
    act-IsBalanced (query sql) cl w asked h =
        Returns-bind _ _ (c.execute_query sql cl.conn w) _ (keeps.queries sql cl.conn w asked)
          λ found w1 h1. omega (arith, h, h1, total-joined set_holds found cl.sets)
    act-IsBalanced (step i) cl w asked h =
        Returns-bind _ _ (step_set c rs i (get_elem? cl.sets i) cl.sets w) _
          (step_set-Balances i cl.sets w) λ sets w1 h1. omega (arith, h, h1)
    act-IsBalanced (drop_set i) cl w asked h =
        Returns-bind _ _ (close_set c rs i (get_elem? cl.sets i) cl.sets w) _
          (close_set-Balances i cl.sets w) λ sets w1 h1. omega (arith, h, h1)

    -- A client that begins in balance stays in balance.
    pub run_client-IsBalanced :
        (actions : List Action) (cl : Client S R) (w : W)
        → AllAsk asks actions
        → IsBalanced cl w
        → Returns IsBalanced (run_client c rs actions cl w)
    unfolding run_client
    run_client-IsBalanced [] cl w asked h = h
    run_client-IsBalanced (a ∷ rest) cl w asked h =
        Returns-bind _ _ (act c rs a cl w) _ (act-IsBalanced a cl w asked.0 h)
          λ cl1 w1 h1. run_client-IsBalanced rest cl1 w1 asked.1 h1
