-- ===== src/Machines.antt =====
-- src/remote_runner/_internal/machine_identity.py and the machine registry of
-- src/remote_runner/_internal/controller/registry.py: which machine a server name or id stands for.
pub mod Identity
pub mod Canonical
pub mod Inventory
pub mod Enroll
use codex_remote_runner.Prelude.{
  if◌then◌else◌, contains, Eq, ◌==◌, nat_eq, string_eq, Error, value_error, Result, ok, err, ◌>>=◌,
  ◌>>◌, raise_if, Dict, has, get_or, is_some_text, ℕ, String, ◌<>◌, Bool, false, not, ◌&&◌, ◌||◌,
  Option, none, some, List, [], ◌∷◌,
}
use codex_remote_runner.Text.{is_project_id}
use Identity.{IdentitySource}

-- One entry of the machine registry; the key of the entry is its machine id.
pub record Machine : Type 0 where
  pub machine_fingerprint : Option String
  pub configured_cores : ℕ
  pub configured_memory_gb : Option ℕ
  pub aliases : List String
  pub identity_source : IdentitySource
  pub legacy_machine_ids : List String
  pub updated_at : String

abbrev pub Machines : Type 0
Machines = Dict String Machine

-- An alias is the text `project/server`; the two names hold no `/`, so the pair is the text.
unfoldable pub machine_alias : (project_id server : String) → Result String
machine_alias project_id server = do
  raise_if (not (is_project_id project_id) || not (is_project_id server))
      (value_error "machine alias contains an invalid project or server name")
  ok (project_id <> ("/" <> server))

-- The ids of the machines that pass a test, in the registry's order.
abbrev pub ids_where : (Machine → Bool) → Machines → List String
ids_where p [] = []
ids_where p ((id, m) ∷ ms) = if p m then id ∷ ids_where p ms else ids_where p ms

-- The one match, or nothing; two matches are an error.
abbrev pub sole : List String → Error → Result (Option String)
sole [] e = ok none
sole (x ∷ []) e = ok (some x)
sole (x ∷ y ∷ xs) e = err e

unfoldable pub machine_alias_owner : Machines → String → Result (Option String)
machine_alias_owner machines alias =
    sole (ids_where (λ m. contains m.aliases alias) machines)
      (value_error "machine alias is bound to multiple machine IDs")

unfoldable pub machine_fingerprint_owner : Machines → Option String → Result (Option String)
machine_fingerprint_owner machines none = ok none
machine_fingerprint_owner machines (some fingerprint) =
    sole (ids_where (λ m. is_some_text fingerprint m.machine_fingerprint) machines)
      (value_error "one physical machine fingerprint is bound to multiple machine IDs")

unfoldable pub canonical_machine_id : Machines → String → Result String
canonical_machine_id machines machine_id = if has machines machine_id then ok machine_id else do
  owner ←
      sole (ids_where (λ m. contains m.legacy_machine_ids machine_id) machines)
        (value_error "legacy machine_id is ambiguous")
  ok (get_or owner machine_id)

-- The owner of the alias decides, and must be the machine asked for, if one was.
unfoldable pub choose_owner : (server machine_id canonical : String) → Option String → Result String
choose_owner server machine_id canonical none = ok canonical
choose_owner server machine_id canonical (some alias_owner) =
    if not (canonical == alias_owner) && not (machine_id == server)
    then err (value_error "machine_id does not match server alias")
    else ok alias_owner

unfoldable pub resolve_machine_request :
    Machines → (project_id server machine_id : String) → Result String
unfolding machine_alias machine_alias_owner canonical_machine_id choose_owner
resolve_machine_request machines project_id server machine_id = do
  canonical ← canonical_machine_id machines machine_id
  alias ← machine_alias project_id server
  owner ← machine_alias_owner machines alias
  choose_owner server machine_id canonical owner

-- The two values are known and differ.
abbrev pub conflicting {ℓ} : {A : Type ℓ} ⦃e : Eq A⦄ → Option A → Option A → Bool
conflicting (some a) (some b) = not (a == b)
conflicting (some a) none = false
conflicting none o = false

unfoldable pub validate_machine_inventory :
    Machine → Option String → ℕ → Option ℕ → Result (Unit {0})
validate_machine_inventory current fingerprint cores memory_gb = do
  raise_if (conflicting current.machine_fingerprint fingerprint)
      (value_error "machine_id resolved to a different physical fingerprint")
  raise_if (not (current.configured_cores == cores))
      (value_error "machine_id has conflicting configured core inventory")
  raise_if (conflicting current.configured_memory_gb memory_gb)
      (value_error "machine_id has conflicting configured memory inventory")
