-- ===== src/Values.antt =====
-- The values that a YAML or JSON field can hold, as far as the code tells them apart.
use codex_remote_runner.Prelude.{◌==◌, nat_eq, string_eq, String, Bool, false}
use codex_remote_runner.Prelude.Int.{ℤ}

-- `other` is a value of any further type: a float, a list, a mapping.
pub data Value : Type 0 where
  null other : Value
  boolean : Bool → Value
  integer : ℤ → Value
  text : String → Value

-- `value == "..."`
abbrev pub is_text : String → Value → Bool
is_text s (text t) = t == s
is_text s null = false
is_text s other = false
is_text s (boolean b) = false
is_text s (integer n) = false
