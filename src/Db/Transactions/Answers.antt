-- ===== src/Db/Transactions/Answers.antt =====
-- Scripts of which some statements fail, under the specification of dbabstract/db.h's transactions.
use dbabstract.Prelude.{
  ◌≡◌, refl, ap, ◌∙◌, Bool, true, false, List, [], ◌∷◌, Bytes, if◌then◌else◌, length, suc,
}
use dbabstract.Effects.Post.{Returns, Returns-bind}
use dbabstract.Db.{Connection, TransMode}
use dbabstract.Db.Closed.{Statement, set_mode, issue, run_script}
use dbabstract.Db.Transactions.{Transaction, Database, apply, apply-set_mode, IsPlain, ArePlain}

-- What a statement does that succeeds, or fails.
abbrev pub respond : (Transaction → Transaction) → Statement → Bool → Database → Database
respond failed st succeeds db =
    if succeeds
    then apply st db
    else record { durable = db.durable; transaction = failed db.transaction }

pub respond-set_mode :
    (failed : Transaction → Transaction) (m m' : TransMode) (succeeds : Bool) (db : Database)
    → respond failed (set_mode m) succeeds db ≡ respond failed (set_mode m') succeeds db
respond-set_mode failed m m' true db = apply-set_mode m m' db
respond-set_mode failed m m' false db = refl

-- One statement after the other, with the answers.
abbrev pub each_answered :
    (Transaction → Transaction) → List Statement → List Bool → Database → Database
each_answered failed [] answers db = db
each_answered failed (st ∷ sts) [] db = db
each_answered failed (st ∷ sts) (a ∷ answers) db =
    each_answered failed sts answers (respond failed st a db)

module _ {W S R : Type 0} (c : Connection W S R) (view : W → Database)
    (failed : Transaction → Transaction) (plain : Bytes → Type 0) where
  -- On the object `s`, each answer tells whether the statement did what the specification says.
  pub record Follows (s : S) : Type 0 where
    pub issues :
        (st : Statement) (w : W)
        → IsPlain plain st
        → Returns (λ answer w'. view w' ≡ respond failed st answer (view w)) (issue c st s w)

  pub run_script-Follows :
      (s : S)
      → Follows s
      → (sts : List Statement) (w : W) → ArePlain plain sts
      → Returns
          (λ answers w'.
            (length answers ≡ length sts) × (view w' ≡ each_answered failed sts answers (view w)))
          (run_script c sts s w)
  unfolding run_script
  run_script-Follows s law [] w own = (refl, refl)
  run_script-Follows s law (st ∷ sts) w own =
      Returns-bind _ _ (issue c st s w) _ (law.issues st w own.0) λ answer w1 first.
        Returns-bind _ _ (run_script c sts s w1) _ (run_script-Follows s law sts w1 own.1)
          λ answers w2 rest. (ap suc rest.0, rest.1 ∙ ap (each_answered failed sts answers) first)
