-- ===== src/Db/Factory.antt =====
-- dbabstract/db.h: `Connection::factory`, over `dlopen`, `dlsym` and the function that a library has
-- for `create_connection` as parameters. The `dlclose` behind the returns is never reached.
use dbabstract.Prelude.{ℕ, ◌≡◌, ◌≢◌, ◌∷◌, Bytes, codes, Option, none, ◌==◌, if◌then◌else◌, ◌⊎◌}
use dbabstract.Effects.{Program, Log, pure, call, ◌>>=◌}

-- A handle and a symbol are addresses, 0 for NULL.
pub data Event : Type 0 where
  dlopen : Bytes → ℕ → Event
  dlsym : ℕ → Bytes → ℕ → Event
  create : ℕ → Event

-- How a creating function ends: with an object or NULL, with a `std::exception`, or with another
-- exception.
pub data Creation (S : Type 0) : Type 0 where
  returned : Option S → Creation S
  threw_exception : Creation S
  threw_other : Creation S

-- `factory` returns an object or NULL, throws its own exception, or lets one of the creating function
-- pass.
pub data Made (S : Type 0) : Type 0 where
  made : Option S → Made S
  thrown : Made S
  escaped : Made S

-- The dynamic loader, and the functions in the libraries.
pub record Loader (S : Type 0) : Type 0 where
  pub on_dlopen : Log Event → Bytes → ℕ
  pub on_dlsym : Log Event → ℕ → Bytes → ℕ
  pub on_create : Log Event → ℕ → Creation S

abbrev pub creator_name : Bytes
creator_name = codes "create_connection"

-- `catch (std::exception &ex)`
unfoldable pub caught : {S : Type 0} → Creation S → Made S
caught (returned o) = made o
caught threw_exception = made none
caught threw_other = escaped

module _ {S : Type 0} (loader : Loader S) where
  open loader use {on_dlopen, on_dlsym, on_create}

  -- The `try` block behind `dlsym`.
  unfoldable pub make : ℕ → Program (Log Event) (Made S)
  unfolding caught
  make cc =
      if cc == 0
      then pure (made none)
      else (do outcome ← call (λ log. on_create log cc) (λ _. create cc); pure (caught outcome))

  unfoldable pub factory : Bytes → Program (Log Event) (Made S)
  unfolding make
  factory name = do
    handle ← call (λ log. on_dlopen log name) (dlopen name)
    if handle == 0 then pure thrown else (do
      cc ← call (λ log. on_dlsym log handle creator_name) (dlsym handle creator_name)
      make cc)

  -- What the loader and the library have for a name.
  module _ (name : Bytes) (log : Log Event) where
    abbrev pub handle_of : ℕ
    handle_of = on_dlopen log name

    abbrev pub loaded_log : Log Event
    loaded_log = dlopen name handle_of ∷ log

    abbrev pub symbol_of : ℕ
    symbol_of = on_dlsym loaded_log handle_of creator_name

    abbrev pub found_log : Log Event
    found_log = dlsym handle_of creator_name symbol_of ∷ loaded_log

    abbrev pub creation_of : Creation S
    creation_of = on_create found_log symbol_of

    -- There is a library with such a function.
    abbrev pub IsFound : Type 0
    IsFound = (handle_of ≢ 0) × (symbol_of ≢ 0)

    -- What makes `factory` answer NULL behind a library that loads.
    abbrev pub MakesNone : Type 0
    MakesNone =
        (symbol_of ≡ 0)
        ⊎ ((symbol_of ≢ 0) × ((creation_of ≡ returned none) ⊎ (creation_of ≡ threw_exception)))
