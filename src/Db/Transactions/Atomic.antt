-- ===== src/Db/Transactions/Atomic.antt =====
-- A transaction of several statements under the specification of dbabstract/db.h's transactions.
use dbabstract.Prelude.{◌≡◌, refl, ap, ◌∙◌, List, [], ◌∷◌, ◌++◌, append_assoc, append-nil, Bytes}
use dbabstract.Effects.{ok}
use dbabstract.Db.{Connection}
use dbabstract.Db.Closed.{Statement, execute, begin, run_script}
use dbabstract.Db.Transactions.{
  idle, working, Database, apply, apply_all, ArePlain, IsPlain, Implements, all_true,
  run_script-each,
}

abbrev pub no_transaction : List Bytes → Database
no_transaction kept = record { durable = kept; transaction = idle }

-- The statements one by one, and then the rest of the script.
abbrev pub executes_then : List Bytes → List Statement → List Statement
executes_then [] rest = rest
executes_then (sql ∷ sqls) rest = execute sql ∷ executes_then sqls rest

abbrev pub whole : List Bytes → Statement → List Statement
whole sqls last = begin ∷ executes_then sqls (last ∷ [])

-- A transaction does all of its statements, when it is committed, and none, when it is rolled back.
pub apply_all-executes_then :
    (sqls : List Bytes) (rest : List Statement) (kept done : List Bytes)
    → apply_all (executes_then sqls rest) (record { durable = kept; transaction = working done })
      ≡ apply_all rest (record { durable = kept; transaction = working (done ++ sqls) })
apply_all-executes_then [] rest kept done = rw append-nil refl
apply_all-executes_then (sql ∷ sqls) rest kept done =
    apply_all-executes_then sqls rest kept (done ++ (sql ∷ []))
    ∙ ap (λ (l : List Bytes). apply_all rest (record { durable = kept; transaction = working l }))
        (append_assoc done (sql ∷ []) sqls)

-- Texts that are plain, before the rest of a script that is plain, make one that is.
abbrev pub AllPlain : (Bytes → Type 0) → List Bytes → Type 0
AllPlain plain [] = Unit
AllPlain plain (sql ∷ sqls) = plain sql × AllPlain plain sqls

pub executes_then-ArePlain :
    (plain : Bytes → Type 0) (sqls : List Bytes) (rest : List Statement)
    → AllPlain plain sqls
    → ArePlain plain rest
    → ArePlain plain (executes_then sqls rest)
executes_then-ArePlain plain [] rest all own = own
executes_then-ArePlain plain (sql ∷ sqls) rest all own =
    (all.0, executes_then-ArePlain plain sqls rest all.1 own)

module _ {W S R : Type 0} (c : Connection W S R) (view : W → Database) (plain : Bytes → Type 0)
    (s : S) (law : Implements c view apply plain s) where
  pub run_script-whole :
      (sqls : List Bytes) (last : Statement) (w w' : W) (kept : List Bytes)
      → IsPlain plain last
      → AllPlain plain sqls
      → view w ≡ no_transaction kept
      → run_script c (whole sqls last) s w ≡ ok (all_true (whole sqls last), w')
      → view w' ≡ apply last (record { durable = kept; transaction = working sqls })
  run_script-whole sqls last w w' kept own all before e =
      run_script-each c view apply plain s law (whole sqls last) w w' _
        (tt, executes_then-ArePlain plain sqls (last ∷ []) all (own, tt)) before e
      ∙ apply_all-executes_then sqls (last ∷ []) kept []
