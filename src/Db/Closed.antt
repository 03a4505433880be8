-- ===== src/Db/Closed.antt =====
-- The statements of dbabstract/db.h on a connection that is not open, and scripts of them.
use dbabstract.Prelude.{◌≡◌, refl, Bool, false, List, [], ◌∷◌, Bytes, none}
use dbabstract.Effects.{Program, ok, pure, ◌>>=◌}
use dbabstract.Db.{Connection, TransMode}

-- A connection object that is closed refuses each statement and touches nothing.
pub record ClosedIsInert {W S R : Type 0} (c : Connection W S R) (closed : S) : Type 0 where
  pub execute_closed : (sql : Bytes) (w : W) → c.execute sql closed w ≡ ok (false, w)
  pub query_closed : (sql : Bytes) (w : W) → c.execute_query sql closed w ≡ ok (none, w)
  pub begin_closed : (w : W) → c.begin_trans closed w ≡ ok (false, w)
  pub commit_closed : (w : W) → c.commit_trans closed w ≡ ok (false, w)
  pub rollback_closed : (w : W) → c.rollback_trans closed w ≡ ok (false, w)
  pub mode_closed : (m : TransMode) (w : W) → c.set_transaction_mode m closed w ≡ ok (false, w)

-- A statement that a client may issue.
pub data Statement : Type 0 where
  execute : Bytes → Statement
  begin : Statement
  commit : Statement
  rollback : Statement
  set_mode : TransMode → Statement

-- An answer for each statement: no.
abbrev pub all_false : List Statement → List Bool
all_false [] = []
all_false (st ∷ sts) = false ∷ all_false sts

module _ {W S R : Type 0} (c : Connection W S R) where
  unfoldable pub issue : Statement → S → Program W Bool
  issue (execute sql) s = c.execute sql s
  issue begin s = c.begin_trans s
  issue commit s = c.commit_trans s
  issue rollback s = c.rollback_trans s
  issue (set_mode m) s = c.set_transaction_mode m s

  unfoldable pub run_script : List Statement → S → Program W (List Bool)
  run_script [] s = pure []
  run_script (st ∷ sts) s = do r ← issue st s; rs ← run_script sts s; pure (r ∷ rs)

  module _ {closed : S} (inert : ClosedIsInert c closed) where
    issue-closed : (st : Statement) (w : W) → issue st closed w ≡ ok (false, w)
    unfolding issue
    issue-closed (execute sql) w = inert.execute_closed sql w
    issue-closed begin w = inert.begin_closed w
    issue-closed commit w = inert.commit_closed w
    issue-closed rollback w = inert.rollback_closed w
    issue-closed (set_mode m) w = inert.mode_closed m w

    -- With a driver whose closed object refuses each statement and calls nothing, a script of
    -- statements on the closed object answers false to every one, and calls nothing.
    pub run_script-closed :
        (sts : List Statement) (w : W) → run_script sts closed w ≡ ok (all_false sts, w)
    unfolding run_script
    run_script-closed [] w = refl
    run_script-closed (st ∷ sts) w = rw (issue-closed st w, run_script-closed sts w)
