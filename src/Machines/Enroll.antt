-- ===== src/Machines/Enroll.antt =====
-- registry.py: `_merge_legacy_machine` and `_ensure_machine_identities_unlocked`, which enter the
-- servers of a project in the machine registry. `now` is the text of `utc_now()`.
pub mod Laws
pub mod Merge
use codex_remote_runner.Prelude.{
  if◌then◌else◌, is_empty, unique, Eq, string_eq, ◌==◌, nat_eq, value_error, key_error, Result, err,
  ok, ◌>>=◌, ◌>>◌, raise_if, Dict, get, put, remove, get_or, ℕ, String, Bool, true, false, not,
  ◌&&◌, ◌||◌, Option, none, some, List, [], ◌∷◌, ◌++◌,
}
use codex_remote_runner.Text.{str_le}
use codex_remote_runner.Sort.{sort_by}
use codex_remote_runner.Machines.{
  Machine, Machines, machine_alias, machine_alias_owner, machine_fingerprint_owner,
  validate_machine_inventory,
}
use codex_remote_runner.Machines.Identity.{
  IdentitySource, explicit, legacy_name, Server, normalize_server_identity,
}
use codex_remote_runner.Machines.Inventory.{StoredMachine, machines_file, load_machine_identities}

abbrev pub is_explicit : IdentitySource → Bool
is_explicit explicit = true
is_explicit legacy_name = false

-- `a or b` of optional values that are never empty.
abbrev pub or_else {ℓ} : {A : Type ℓ} → Option A → Option A → Option A
or_else none o = o
or_else (some a) o = some a

-- `sorted(set(xs))`
abbrev pub sorted_set : List String → List String
sorted_set xs = sort_by str_le (unique xs)

-- The target that takes over the entry of a legacy machine.
unfoldable pub merged_target :
    (now legacy_id : String)
    → (legacy : Machine) → Option Machine
    → Option String
    → ℕ
    → Option ℕ
    → Result Machine
unfolding validate_machine_inventory
merged_target now legacy_id legacy none fingerprint cores memory_gb = ok (record legacy {
  identity_source = explicit;
  legacy_machine_ids = sorted_set (legacy.legacy_machine_ids ++ (legacy_id ∷ []));
  updated_at = now;
})
merged_target now legacy_id legacy (some target) fingerprint cores memory_gb = do
  validate_machine_inventory target (or_else fingerprint legacy.machine_fingerprint) cores
      (or_else memory_gb legacy.configured_memory_gb)
  ok (record target {
    machine_fingerprint =
        or_else target.machine_fingerprint (or_else legacy.machine_fingerprint fingerprint);
    configured_memory_gb =
        or_else target.configured_memory_gb (or_else legacy.configured_memory_gb memory_gb);
    aliases = sorted_set (target.aliases ++ legacy.aliases);
    identity_source = explicit;
    legacy_machine_ids =
        sorted_set (target.legacy_machine_ids ++ (legacy.legacy_machine_ids ++ (legacy_id ∷ [])));
    updated_at = now;
  })

unfoldable pub merge_legacy_machine :
    (now : String)
    → Machines
    → (legacy_id target_id : String) → Option String
    → ℕ
    → Option ℕ
    → Result Machines
unfolding validate_machine_inventory merged_target
merge_legacy_machine now machines legacy_id target_id fingerprint cores memory_gb =
    elim (get machines legacy_id) [
      | none ↦ err (key_error legacy_id)
      | some legacy ↦ do
        raise_if (is_explicit legacy.identity_source)
            (value_error "machine identity is explicit and cannot be reassigned")
        validate_machine_inventory legacy fingerprint cores memory_gb
        target ←
            merged_target now legacy_id legacy (get machines target_id) fingerprint cores memory_gb
        let written = put machines target_id target
        ok (if legacy_id == target_id then written else remove written legacy_id)
    ]

-- The owners of the alias and of the fingerprint that are other machines than the one asked for.
abbrev pub merge_ids : (requested : String) → List (Option String) → List String
merge_ids requested [] = []
merge_ids requested (none ∷ owners) = merge_ids requested owners
merge_ids requested (some owner ∷ owners) =
    if owner == requested then merge_ids requested owners else owner ∷ merge_ids requested owners

unfoldable pub merge_all :
    (now : String)
    → List String
    → Machines
    → (target_id : String) → Option String
    → ℕ
    → Option ℕ
    → Result Machines
unfolding merge_legacy_machine
merge_all now [] machines target_id fingerprint cores memory_gb = ok machines
merge_all now (legacy_id ∷ ids) machines target_id fingerprint cores memory_gb = do
  merged ← merge_legacy_machine now machines legacy_id target_id fingerprint cores memory_gb
  merge_all now ids merged target_id fingerprint cores memory_gb

-- What the owner of the fingerprint says of a server that asks for no machine and has no alias.
unfoldable pub fingerprint_machine_id :
    Machines → (requested : String) → Option String → Result String
fingerprint_machine_id machines requested none = ok requested
fingerprint_machine_id machines requested (some owner) = elim (get machines owner) [
  | none ↦ err (key_error owner)
  | some machine ↦ do
    raise_if (not (is_explicit machine.identity_source))
        (value_error "machine fingerprint is already bound to legacy machine_id")
    ok owner
]

-- The machine that the server is, and the registry after the merges; `changed` starts the flag.
unfoldable pub choose_machine :
    (now : String)
    → Machines
    → (requested : String) → IdentitySource
    → (alias_owner fingerprint_owner : Option String) → Option String
    → ℕ
    → Option ℕ
    → Result (String × Machines × Bool)
unfolding merge_all fingerprint_machine_id
choose_machine now machines requested explicit alias_owner fingerprint_owner fingerprint cores
      memory_gb =
    let ids = sorted_set (merge_ids requested (alias_owner ∷ fingerprint_owner ∷ [])) in
    do
      merged ← merge_all now ids machines requested fingerprint cores memory_gb
      ok (requested, merged, not (is_empty ids))
choose_machine now machines requested legacy_name (some owner) fingerprint_owner fingerprint cores
      memory_gb =
    ok (owner, machines, false)
choose_machine now machines requested legacy_name none fingerprint_owner fingerprint cores
      memory_gb =
    do id ← fingerprint_machine_id machines requested fingerprint_owner; ok (id, machines, false)

abbrev pub same {ℓ} : {A : Type ℓ} ⦃e : Eq A⦄ → Option A → Option A → Bool
same none none = true
same (some a) (some b) = a == b
same _ _ = false

abbrev pub same_list {ℓ} : {A : Type ℓ} ⦃e : Eq A⦄ → List A → List A → Bool
same_list [] [] = true
same_list (x ∷ xs) (y ∷ ys) = x == y && same_list xs ys
same_list _ _ = false

abbrev pub same_source : IdentitySource → IdentitySource → Bool
same_source a b = if is_explicit a then is_explicit b else not (is_explicit b)

-- `updated != current`, for the fields that an update can change.
abbrev pub differs : Machine → Machine → Bool
differs a b = not (
    same a.machine_fingerprint b.machine_fingerprint
    && (same a.configured_memory_gb b.configured_memory_gb
        && (same_list a.aliases b.aliases && same_source a.identity_source b.identity_source)))

abbrev pub joined_source : IdentitySource → IdentitySource → IdentitySource
joined_source requested current =
    if is_explicit requested || is_explicit current then explicit else legacy_name

-- The entry of the machine after the server was entered, and whether it is a change.
unfoldable pub entered :
    (now alias : String)
    → IdentitySource
    → Option Machine
    → Option String
    → ℕ
    → Option ℕ
    → Result (Machine × Bool)
unfolding validate_machine_inventory
entered now alias source none fingerprint cores memory_gb = ok (
  record {
    machine_fingerprint = fingerprint;
    configured_cores = cores;
    configured_memory_gb = memory_gb;
    aliases = alias ∷ [];
    identity_source = source;
    legacy_machine_ids = [];
    updated_at = now;
  },
  true,
)
entered now alias source (some current) fingerprint cores memory_gb = do
  validate_machine_inventory current fingerprint cores memory_gb
  let updated = record current {
    machine_fingerprint = or_else current.machine_fingerprint fingerprint;
    configured_memory_gb = or_else current.configured_memory_gb memory_gb;
    aliases = sorted_set (current.aliases ++ (alias ∷ []));
    identity_source = joined_source source current.identity_source;
  }
  ok (
      if differs updated current
      then (record updated { updated_at = now }, true)
      else (current, false))

-- What the caller's entry of the server is told.
abbrev pub told : Server → (machine_id : String) → Machine → Option String → Server
told raw machine_id machine fingerprint = record raw {
  machine_id = some machine_id;
  machine_id_source = some (
      if machine_id == raw.name && not (is_explicit machine.identity_source)
      then legacy_name
      else explicit);
  machine_fingerprint = or_else machine.machine_fingerprint fingerprint;
}

abbrev pub is_zero_memory : Option ℕ → Bool
is_zero_memory none = false
is_zero_memory (some n) = n == 0

-- One turn of the loop: the registry, the server, and whether the registry changed.
unfoldable pub enter_server :
    (now project_id : String) → Server → Machines → Result (Machines × Server × Bool)
unfolding normalize_server_identity machine_alias machine_alias_owner machine_fingerprint_owner
    choose_machine entered
enter_server now project_id raw machines = do
  server ← normalize_server_identity raw
  let requested = get_or server.machine_id server.name
  let source = get_or server.machine_id_source explicit
  let fingerprint = server.machine_fingerprint
  alias ← machine_alias project_id server.name
  raise_if (server.configured_cores == 0) (value_error "configured cores must be positive")
  raise_if (is_zero_memory server.configured_memory_gb)
      (value_error "configured memory must be positive")
  alias_owner ← machine_alias_owner machines alias
  fingerprint_owner ← machine_fingerprint_owner machines fingerprint
  (machine_id, merged, moved) ←
      choose_machine now machines requested source alias_owner fingerprint_owner fingerprint
        server.configured_cores server.configured_memory_gb
  (machine, changed) ←
      entered now alias source (get merged machine_id) fingerprint server.configured_cores
        server.configured_memory_gb
  let written = if changed then put merged machine_id machine else merged
  ok (written, told raw machine_id machine fingerprint, moved || changed)

unfoldable pub enter_servers :
    (now project_id : String) → List Server → Machines → Result (Machines × List Server × Bool)
unfolding enter_server
enter_servers now project_id [] machines = ok (machines, [], false)
enter_servers now project_id (raw ∷ servers) machines = do
  (next, server, changed) ← enter_server now project_id raw machines
  (last, others, changed') ← enter_servers now project_id servers next
  ok (last, server ∷ others, changed || changed')

-- `dict(sorted(machines.items()))`
abbrev pub by_id {ℓ} : {A : Type ℓ} → String × A → String × A → Bool
by_id a b = str_le a.0 b.0

-- The file is written at the end, and only if an entry changed.
unfoldable pub ensure_machine_identities :
    (now project_id : String)
    → List Server
    → (file : Dict String StoredMachine)
    → Result (Machines × List Server × Dict String StoredMachine)
unfolding load_machine_identities enter_servers
ensure_machine_identities now project_id servers file = do
  machines ← load_machine_identities file
  (last, told_servers, changed) ← enter_servers now project_id servers machines
  ok (last, told_servers, if changed then machines_file (sort_by by_id last) else file)

-- The server as the registry knows it.
unfoldable pub resolve_server_identity :
    (now project_id : String)
    → Server
    → (file : Dict String StoredMachine) → Result (Server × Dict String StoredMachine)
unfolding ensure_machine_identities normalize_server_identity
resolve_server_identity now project_id server file = do
  (_, servers, file') ← ensure_machine_identities now project_id (server ∷ []) file
  resolved ← elim servers [
    | [] ↦ err (key_error "server")
    | resolved ∷ _ ↦ normalize_server_identity resolved
  ]
  ok (resolved, file')
