-- ===== src/Db/Transactions/Server.antt =====
-- A server as its documentation describes it: it takes some texts as statements about transactions, and
-- any other text as a change.
use dbabstract.Prelude.{◌≡◌, Bool, List, [], ◌∷◌, Bytes, Option, none, some, if◌then◌else◌}
use dbabstract.C.Str.{str_eq}
use dbabstract.Db.Closed.{Statement, execute}
use dbabstract.Db.Transactions.{Transaction, idle, working, aborted, Database, apply}

-- The texts that are about transactions, and what a statement that fails does to a transaction.
pub record Dialect : Type 0 where
  pub texts : List (Bytes × Statement)
  pub failed : Transaction → Transaction

unfoldable pub lookup : Bytes → List (Bytes × Statement) → Option Statement
lookup sql [] = none
lookup sql ((text, st) ∷ texts) =
    let rest = lookup sql texts in if str_eq sql text then some st else rest

abbrev pub or_change : Bytes → Option Statement → Statement
or_change sql none = execute sql
or_change sql (some st) = st

-- A server that keeps the changes before a statement that fails, and one that gives them up.
abbrev pub undisturbed : Transaction → Transaction
undisturbed t = t

abbrev pub spoilt : Transaction → Transaction
spoilt idle = idle
spoilt (working done) = aborted
spoilt aborted = aborted

module _ (dialect : Dialect) where
  -- The statement that the server takes the text for.
  abbrev pub meaning : Bytes → Statement
  meaning sql = or_change sql (lookup sql dialect.texts)

  abbrev pub IsChange : Bytes → Type 0
  IsChange sql = lookup sql dialect.texts ≡ none

  -- What the server does with a text, and whether it succeeds.
  abbrev pub receive : Bytes → Bool → Database → Database
  receive sql succeeds db =
      if succeeds
      then apply (meaning sql) db
      else record { durable = db.durable; transaction = dialect.failed db.transaction }
