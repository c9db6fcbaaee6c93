-- ===== src/Prelude/Options.antt =====
-- Optional values: a missing key, or `None`.
use Prim.Native.String.{String}
use mathlib.Core.Bool.{Bool, true, false}
use mathlib.Core.Option.{Option, none, some}
use codex_remote_runner.Prelude.Equality.{◌==◌, nat_eq, string_eq}

module _ {ℓ} {A : Type ℓ} where
  -- `a if o is None else o`
  abbrev pub get_or : Option A → A → A
  get_or none a = a
  get_or (some b) a = b

  abbrev pub is_none : Option A → Bool
  is_none none = true
  is_none (some a) = false

abbrev pub is_some_text : String → Option String → Bool
is_some_text s none = false
is_some_text s (some t) = t == s
