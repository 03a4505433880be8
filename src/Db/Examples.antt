-- ===== src/Db/Examples.antt =====
-- The loader and the reference count at concrete inputs. Tests and examples.
use dbabstract.Prelude.{
  ℕ, ◌≡◌, refl, Bool, true, List, [], ◌∷◌, codes, none, some, ◌==◌, if◌then◌else◌, length,
}
use dbabstract.Prelude.Int.{pos, ◌-ℤ◌, ◌+ℤ◌}
use dbabstract.Effects.{Log, Program, ok, call}
use dbabstract.Db.References.{
  new_shared, RefOp, dup, rel, step_ref, duplicate, release, run_refs, outcome, holders,
  run_refs-outcome,
}
use dbabstract.Db.Factory.{
  made, thrown, returned, threw_exception, Loader, dlopen, dlsym, create, factory, make, caught,
  creator_name,
}

-- One library is there, and it makes the object 5.
abbrev one_library : Loader ℕ
one_library = record {
  on_dlopen = λ log name. if length name == 3 then 70 else 0;
  on_dlsym = λ log h symbol. 71;
  on_create = λ log cc. returned (some 5);
}

no_library : factory one_library (codes "none") [] ≡ ok (thrown, dlopen (codes "none") 0 ∷ [])
unfolding factory
no_library = refl

-- Its creating function throws.
abbrev broken_library : Loader ℕ
broken_library = record one_library { on_create = λ log cc. threw_exception }

nothing_made :
    factory broken_library (codes "sql") []
    ≡ ok (made none, create 71 ∷ dlsym 70 creator_name 71 ∷ dlopen (codes "sql") 70 ∷ [])
unfolding factory make caught
nothing_made = refl

-- The destructor notes what it destroys.
abbrev destroy : ℕ → Program (Log ℕ) (Bool × ℕ)
destroy s = call (λ log. (true, 0)) (λ _. s)

abbrev lifetime : List RefOp
lifetime = dup ∷ rel ∷ rel ∷ []

lifetime_runs : run_refs destroy lifetime (some (new_shared 9)) [] ≡ ok (none, 9 ∷ [])
unfolding new_shared run_refs step_ref duplicate release ◌-ℤ◌ ◌+ℤ◌
lifetime_runs = refl

run_refs-outcome_example :
    run_refs destroy lifetime (some (record { ref = pos 1; object = 9 })) []
    ≡ outcome destroy 9 (holders 1 lifetime) []
run_refs-outcome_example = run_refs-outcome destroy 9 0 lifetime []
