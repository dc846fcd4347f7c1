-- ===== src/Prelude/Choice.antt =====
-- `null` and `undefined` are `none`: the operators of the language on such values.
use mathlib.Core.Bool.{Bool, true, false}
use mathlib.Core.Option.{Option, none, some}

module _ {ℓ} {A : Type ℓ} where
  -- `o ?? d`
  abbrev pub or_else : Option A → A → A
  or_else none d = d
  or_else (some a) d = a

  -- `o ?? p` where `p` may be null too
  abbrev pub or_maybe : Option A → Option A → Option A
  or_maybe none p = p
  or_maybe (some a) p = some a

  -- `o != null`
  abbrev pub is_some : Option A → Bool
  is_some none = false
  is_some (some a) = true

-- `o?.f` for a field that is never null
abbrev pub field_of {ℓ κ} : {A : Type ℓ} {B : Type κ} → (A → B) → Option A → Option B
field_of f none = none
field_of f (some a) = some (f a)

-- `o?.f` for a field that may be null
abbrev pub maybe_field {ℓ κ} : {A : Type ℓ} {B : Type κ} → (A → Option B) → Option A → Option B
maybe_field f none = none
maybe_field f (some a) = f a

-- A test that `none` fails
abbrev pub holds {ℓ} : {A : Type ℓ} → (A → Bool) → Option A → Bool
holds f none = false
holds f (some a) = f a
