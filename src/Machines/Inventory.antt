-- ===== src/Machines/Inventory.antt =====
-- registry.py: `_load_machine_identities_unlocked`, the check of the machine registry's file.
-- The file is a mapping whose values have the types of their fields.
pub mod Laws
pub mod Keys
use codex_remote_runner.Prelude.{
  eqb, if◌then◌else◌, is_empty, all, any, distinct, string_eq, ◌==◌, nat_eq, value_error, Result,
  ok, ◌>>=◌, ◌>>◌, raise_if, Dict, get, has, put, get_or, ℕ, String, Bool, true, false, not, ◌&&◌,
  ◌||◌, Option, none, some, List, [], ◌∷◌, map,
}
use codex_remote_runner.Text.{codes, name_codes, is_machine_id, str_le}
use codex_remote_runner.Sort.{sort_by}
use codex_remote_runner.Machines.{Machine, Machines}
use codex_remote_runner.Machines.Identity.{
  IdentitySource, explicit, legacy_name, normalize_machine_fingerprint,
}

-- A machine as the file has it; an old file has no identity source.
pub record StoredMachine : Type 0 where
  pub machine_fingerprint : Option String
  pub configured_cores : ℕ
  pub configured_memory_gb : Option ℕ
  pub aliases : List String
  pub identity_source : Option IdentitySource
  pub legacy_machine_ids : List String
  pub updated_at : Option String

-- The file that a registry is written to, but for the order of its keys.
abbrev pub stored : Machine → StoredMachine
stored machine = record {
  machine_fingerprint = machine.machine_fingerprint;
  configured_cores = machine.configured_cores;
  configured_memory_gb = machine.configured_memory_gb;
  aliases = machine.aliases;
  identity_source = some machine.identity_source;
  legacy_machine_ids = machine.legacy_machine_ids;
  updated_at = some machine.updated_at;
}

abbrev pub machines_file : Machines → Dict String StoredMachine
machines_file = map λ entry. (entry.0, stored entry.1)

-- The codes before and behind the first `/`.
abbrev pub split_slash : List ℕ → Option (List ℕ × List ℕ)
split_slash [] = none
split_slash (c ∷ cs) =
    if eqb c b'/'
    then some ([], cs)
    else elim (split_slash cs) [ none ↦ none | some (before, behind) ↦ some (c ∷ before, behind) ]

-- project/server: the two names hold no `/`.
unfoldable pub is_alias : String → Bool
unfolding name_codes
is_alias alias = elim (split_slash (codes alias)) [
  | none ↦ false
  | some (project, server) ↦ name_codes project && name_codes server
]

abbrev pub same_codes : List ℕ → List ℕ → Bool
same_codes [] [] = true
same_codes (x ∷ xs) (y ∷ ys) = eqb x y && same_codes xs ys
same_codes _ _ = false

-- `alias.rsplit("/", 1)[-1] == machine_id`
abbrev pub names_server : (machine_id alias : String) → Bool
names_server machine_id alias = elim (split_slash (codes alias)) [
  | none ↦ same_codes (codes alias) (codes machine_id)
  | some (project, server) ↦ same_codes server (codes machine_id)
]

-- The source of an old entry follows from its aliases.
abbrev pub inferred_source : String → StoredMachine → IdentitySource
inferred_source machine_id raw =
    get_or raw.identity_source
      (if all (names_server machine_id) raw.aliases then legacy_name else explicit)

-- Which machine each alias, each fingerprint, and each legacy id was first seen on.
pub record Seen : Type 0 where
  pub aliases : Dict String String
  pub fingerprints : Dict String String
  pub legacy_ids : Dict String String

-- `setdefault` of each name, which must not belong to another machine.
unfoldable pub bind_names :
    (message machine_id : String) → List String → Dict String String → Result (Dict String String)
bind_names message machine_id [] seen = ok seen
bind_names message machine_id (name ∷ names) seen = do
  raise_if (not (get_or (get seen name) machine_id == machine_id)) (value_error message)
  bind_names message machine_id names (if has seen name then seen else put seen name machine_id)

abbrev pub fingerprint_names : Option String → List String
fingerprint_names none = []
fingerprint_names (some fingerprint) = fingerprint ∷ []

unfoldable pub check_stored : (machine_id : String) → StoredMachine → Result (Unit {0})
unfolding normalize_machine_fingerprint is_alias
check_stored machine_id raw = do
  raise_if (not (is_machine_id machine_id))
      (value_error "machine-identity registry contains an invalid machine_id")
  _ ← normalize_machine_fingerprint raw.machine_fingerprint false
  raise_if (raw.configured_cores == 0) (value_error "machine identity has invalid configured_cores")
  raise_if (get_or raw.configured_memory_gb 1 == 0)
      (value_error "machine identity has invalid configured_memory_gb")
  raise_if (is_empty raw.aliases || (not (all is_alias raw.aliases) || not (distinct raw.aliases)))
      (value_error "machine identity has invalid aliases")

abbrev pub check_legacy : (machine_id : String) → List String → Result (Unit {0})
check_legacy machine_id legacy =
    raise_if
      (not (all (λ id. is_machine_id id && not (id == machine_id)) legacy) || not (distinct legacy))
      (value_error "machine identity has invalid legacy_machine_ids")

abbrev pub loaded : String → StoredMachine → Machine
loaded machine_id raw = record {
  machine_fingerprint = raw.machine_fingerprint;
  configured_cores = raw.configured_cores;
  configured_memory_gb = raw.configured_memory_gb;
  aliases = sort_by str_le raw.aliases;
  identity_source = inferred_source machine_id raw;
  legacy_machine_ids = sort_by str_le raw.legacy_machine_ids;
  updated_at = get_or raw.updated_at "unknown";
}

-- One turn of the loop.
unfoldable pub see_machine : (machine_id : String) → StoredMachine → Seen → Result Seen
unfolding check_stored bind_names
see_machine machine_id raw seen = do
  check_stored machine_id raw
  aliases ←
      bind_names "machine alias is bound to multiple machine IDs" machine_id raw.aliases
        seen.aliases
  check_legacy machine_id raw.legacy_machine_ids
  legacy_ids ←
      bind_names "legacy machine_id maps to multiple machine IDs" machine_id raw.legacy_machine_ids
        seen.legacy_ids
  fingerprints ←
      bind_names "one physical machine fingerprint is bound to multiple machine IDs" machine_id
        (fingerprint_names raw.machine_fingerprint) seen.fingerprints
  ok (record { aliases = aliases; fingerprints = fingerprints; legacy_ids = legacy_ids })

unfoldable pub load_entries : Dict String StoredMachine → Seen → Result (Machines × Seen)
unfolding see_machine
load_entries [] seen = ok ([], seen)
load_entries ((machine_id, raw) ∷ entries) seen = do
  seen' ← see_machine machine_id raw seen
  (machines, last) ← load_entries entries seen'
  ok ((machine_id, loaded machine_id raw) ∷ machines, last)

abbrev pub nothing_seen : Seen
nothing_seen = record { aliases = []; fingerprints = []; legacy_ids = [] }

unfoldable pub load_machine_identities : Dict String StoredMachine → Result Machines
unfolding load_entries
load_machine_identities file = do
  (machines, seen) ← load_entries file nothing_seen
  raise_if (any (λ entry. has machines entry.0) seen.legacy_ids)
      (value_error "machine-identity registry reuses canonical IDs as legacy IDs")
  ok machines
