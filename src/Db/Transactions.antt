-- ===== src/Db/Transactions.antt =====
-- The transactions that dbabstract/db.h promises: a specification of the database behind a connection,
-- and how a server that is told the driver's statements keeps one.
pub mod Server
pub mod Atomic
pub mod Answers
use dbabstract.Prelude.{
  ◌≡◌, refl, ap, Bool, true, false, List, [], ◌∷◌, ◌++◌, Bytes, Option, none, some, ◌∙◌,
}
use dbabstract.Effects.{ok}
use dbabstract.Effects.Post.{Returns, Returns-bind, Returns-at}
use dbabstract.Db.{Connection, TransMode}
use dbabstract.Db.Closed.{Statement, execute, begin, commit, rollback, set_mode, issue, run_script}

-- No transaction is open; one has done these statements; or one has failed, and waits for its end.
pub data Transaction : Type 0 where
  idle : Transaction
  working : List Bytes → Transaction
  aborted : Transaction

-- The statements that the database has kept, in order.
pub record Database : Type 0 where
  pub durable : List Bytes
  pub transaction : Transaction

-- What a statement that succeeds does.
abbrev pub apply_to : Transaction → List Bytes → Statement → Database
apply_to idle kept (execute sql) = record { durable = kept ++ (sql ∷ []); transaction = idle }
apply_to idle kept begin = record { durable = kept; transaction = working [] }
apply_to idle kept commit = record { durable = kept; transaction = idle }
apply_to idle kept rollback = record { durable = kept; transaction = idle }
apply_to idle kept (set_mode m) = record { durable = kept; transaction = idle }
apply_to (working done) kept (execute sql) = record {
  durable = kept;
  transaction = working (done ++ (sql ∷ []));
}
apply_to (working done) kept begin = record { durable = kept; transaction = working done }
apply_to (working done) kept commit = record { durable = kept ++ done; transaction = idle }
apply_to (working done) kept rollback = record { durable = kept; transaction = idle }
apply_to (working done) kept (set_mode m) = record { durable = kept; transaction = working done }
apply_to aborted kept (execute sql) = record { durable = kept; transaction = aborted }
apply_to aborted kept begin = record { durable = kept; transaction = aborted }
apply_to aborted kept commit = record { durable = kept; transaction = idle }
apply_to aborted kept rollback = record { durable = kept; transaction = idle }
apply_to aborted kept (set_mode m) = record { durable = kept; transaction = aborted }

abbrev pub apply : Statement → Database → Database
apply st db = apply_to db.transaction db.durable st

-- One statement after the other.
abbrev pub each : {D : Type 0} → (Statement → D → D) → List Statement → D → D
each f [] db = db
each f (st ∷ sts) db = each f sts (f st db)

abbrev pub apply_all : List Statement → Database → Database
apply_all = each apply

apply_to-set_mode :
    (t : Transaction) (kept : List Bytes) (m m' : TransMode)
    → apply_to t kept (set_mode m) ≡ apply_to t kept (set_mode m')
apply_to-set_mode idle kept m m' = refl
apply_to-set_mode (working done) kept m m' = refl
apply_to-set_mode aborted kept m m' = refl

-- Which mode is set is nothing to what the database keeps.
pub apply-set_mode :
    (m m' : TransMode) (db : Database) → apply (set_mode m) db ≡ apply (set_mode m') db
apply-set_mode m m' db = apply_to-set_mode db.transaction db.durable m m'

abbrev pub all_true : List Statement → List Bool
all_true [] = []
all_true (st ∷ sts) = true ∷ all_true sts

module _ (plain : Bytes → Type 0) where
  -- The client's own statements are no statements of the driver's.
  abbrev pub IsPlain : Statement → Type 0
  IsPlain (execute sql) = plain sql
  IsPlain _ = Unit

  abbrev pub ArePlain : List Statement → Type 0
  ArePlain [] = Unit
  ArePlain (st ∷ sts) = IsPlain st × ArePlain sts

-- `f` says what a statement does to the data `D` that a client sees behind a connection.
module _ {W S R D : Type 0} (c : Connection W S R) (view : W → D) (f : Statement → D → D)
    (plain : Bytes → Type 0) where
  -- On the object `s`, a statement that is answered true does what `f` says.
  pub record Implements (s : S) : Type 0 where
    pub issues :
        (st : Statement) (w : W)
        → IsPlain plain st
        → Returns (λ answer w'. answer ≡ true → view w' ≡ f st (view w)) (issue c st s w)

  heads : {a b : Bool} {l m : List Bool} → a ∷ l ≡ b ∷ m → a ≡ b
  heads e = cc

  tails : {a b : Bool} {l m : List Bool} → a ∷ l ≡ b ∷ m → l ≡ m
  tails e = cc

  run_script-Implements :
      (s : S)
      → Implements s
      → (sts : List Statement) (w : W) → ArePlain plain sts
      → Returns
          (λ answers w'. answers ≡ all_true sts → view w' ≡ each f sts (view w))
          (run_script c sts s w)
  unfolding run_script
  run_script-Implements s law [] w own = λ _. refl
  run_script-Implements s law (st ∷ sts) w own =
      Returns-bind _ _ (issue c st s w) _ (law.issues st w own.0) λ answer w1 first.
        Returns-bind _ _ (run_script c sts s w1) _ (run_script-Implements s law sts w1 own.1)
          λ answers w2 rest h. rest (tails h) ∙ ap (each f sts) (first (heads h))

  -- A script that is answered true throughout does what `f` says of its statements.
  pub run_script-each :
      (s : S)
      → Implements s
      → (sts : List Statement) (w w' : W) (db : D) → ArePlain plain sts
      → view w ≡ db
      → run_script c sts s w ≡ ok (all_true sts, w')
      → view w' ≡ each f sts db
  run_script-each s law sts w w' db own before e =
      Returns-at _ _ (run_script-Implements s law sts w own) e refl ∙ ap (each f sts) before
