-- ===== src/Db/Client.antt =====
-- A client of dbabstract/db.h: it opens and closes a connection, issues statements and queries on it, and
-- steps through and closes the result sets that it holds.
pub mod Balance
pub mod Sharing
use dbabstract.Prelude.{
  ℕ, zero, suc, Bool, List, [], ◌∷◌, Bytes, Option, none, some, get_elem?, set, ◌==◌, if◌then◌else◌,
}
use dbabstract.Effects.{Program, pure, ◌>>=◌}
use dbabstract.Db.{Connection, ResultSet, Target}
use dbabstract.Db.Closed.{Statement, issue}

pub record Client (S R : Type 0) : Type 0 where
  pub conn : S
  pub sets : List R

-- What the client does. A number is the place of a result set among those it holds.
pub data Action : Type 0 where
  reopen : Target → Action
  shut : Action
  perform : Statement → Action
  query : Bytes → Action
  step : ℕ → Action
  drop_set : ℕ → Action

abbrev pub remove : {A : Type 0} → List A → ℕ → List A
remove [] i = []
remove (x ∷ xs) zero = xs
remove (x ∷ xs) (suc i) = x ∷ remove xs i

-- A result set that `close` has deleted is gone.
abbrev pub replace : {A : Type 0} → List A → ℕ → Option A → List A
replace xs i none = remove xs i
replace xs i (some x) = set xs i x

abbrev pub joined : {A : Type 0} → Option A → List A → List A
joined none xs = xs
joined (some x) xs = x ∷ xs

module _ {W S R D F : Type 0} (c : Connection W S R) (rs : ResultSet W R D F) where
  -- A client opens an object that is closed: it looks at the handle.
  unfoldable pub open_again : Target → S → Program W S
  open_again target s = do
    r ← c.close s
    if c.handle r.1 == 0 then (do opened ← c.open_database target r.1; pure opened.1) else pure r.1

  unfoldable pub step_set : ℕ → Option R → List R → Program W (List R)
  step_set i none sets = pure sets
  step_set i (some r) sets = do moved ← rs.next r; pure (set sets i moved.1)

  unfoldable pub close_set : ℕ → Option R → List R → Program W (List R)
  close_set i none sets = pure sets
  close_set i (some r) sets = do closed ← rs.close r; pure (replace sets i closed.1)

  unfoldable pub act : Action → Client S R → Program W (Client S R)
  act (reopen target) cl = do s ← open_again target cl.conn; pure (record cl { conn = s })
  act shut cl = do r ← c.close cl.conn; pure (record cl { conn = r.1 })
  act (perform st) cl = do answer ← issue c st cl.conn; pure cl
  act (query sql) cl = do
    found ← c.execute_query sql cl.conn
    pure (record cl { sets = joined found cl.sets })
  act (step i) cl = do
    sets ← step_set i (get_elem? cl.sets i) cl.sets
    pure (record cl { sets = sets })
  act (drop_set i) cl = do
    sets ← close_set i (get_elem? cl.sets i) cl.sets
    pure (record cl { sets = sets })

  unfoldable pub run_client : List Action → Client S R → Program W (Client S R)
  run_client [] cl = pure cl
  run_client (a ∷ rest) cl = act a cl >>= λ cl'. run_client rest cl'
