-- ===== src/Capacities.antt =====
-- registry.py: the server capacities, `_capacity_slots` to `update_server_capacity`.
-- A server whose configured cores are missing or not a positive number has none: 0.
pub mod Canonical
pub mod Found
pub mod Updated
pub mod Laws
pub mod Defaults
use codex_remote_runner.Prelude.{
  ltb, if◌then◌else◌, is_empty, filter, string_eq, ◌==◌, nat_eq, value_error, runtime_error,
  file_not_found, Result, err, ok, ◌>>=◌, ◌>>◌, raise_if, Dict, get, has, put, get_or, ℕ, ◌+◌,
  String, Bool, true, false, not, ◌&&◌, ◌||◌, Option, none, some, List, [], ◌∷◌,
}
use codex_remote_runner.Text.{codes, is_project_id, is_machine_id}
use codex_remote_runner.Sort.{sort_by}
use codex_remote_runner.Machines.{Machines, canonical_machine_id, resolve_machine_request}
use codex_remote_runner.Machines.Identity.{Server, normalize_server_identity}
use codex_remote_runner.Machines.Inventory.{StoredMachine, load_machine_identities}
use codex_remote_runner.Machines.Enroll.{by_id, ensure_machine_identities}

pub record Capacity : Type 0 where
  pub standard_slots : ℕ
  pub test_slots : ℕ
  pub revision : ℕ
  pub customized : Bool
  pub updated_at : String
  pub updated_by_project : Option String

abbrev pub Capacities : Type 0
Capacities = Dict String Capacity

-- The two files of the scheduler that an operation reads and writes under its lock.
pub record CapacityFiles : Type 0 where
  pub machines_path : Dict String StoredMachine
  pub capacities_path : Capacities

unfoldable pub capacity_slots : ℕ → Result ℕ
capacity_slots value =
    if ltb 1024 value
    then err (value_error "slots must be an integer between 0 and 1024")
    else ok value

-- The machine, the server's name, and its slots.
unfoldable pub capacity_defaults : Server → Result (String × String × ℕ × ℕ)
unfolding normalize_server_identity capacity_slots
capacity_defaults server = do
  normalized ← normalize_server_identity server
  raise_if (not (is_project_id normalized.name))
      (value_error "server capacity default contains an invalid server name")
  standard_slots ← capacity_slots (get_or server.standard_slots 1)
  test_slots ← capacity_slots (get_or server.test_slots 0)
  ok (get_or normalized.machine_id normalized.name, normalized.name, standard_slots, test_slots)

unfoldable pub check_values : Capacity → Result (Unit {0})
unfolding capacity_slots
check_values capacity = do
  raise_if (is_empty (codes capacity.updated_at))
      (value_error "server-capacity entry lacks updated_at")
  _ ← capacity_slots capacity.standard_slots
  _ ← capacity_slots capacity.test_slots
  ok tt

unfoldable pub check_capacity : String → Capacity → Result (Unit {0})
unfolding check_values
check_capacity name capacity = do
  raise_if (not (is_project_id name))
      (value_error "server-capacity registry contains an invalid server name")
  check_values capacity

-- The entries as they are, if each is one.
unfoldable pub load_server_capacities : Capacities → Result Capacities
unfolding check_capacity
load_server_capacities [] = ok []
load_server_capacities ((name, capacity) ∷ entries) = do
  check_capacity name capacity
  rest ← load_server_capacities entries
  ok ((name, capacity) ∷ rest)

abbrev pub same_flag : Bool → Bool → Bool
same_flag a b = if a then b else not b

-- Which of two entries of one machine stands.
abbrev pub selected : (current capacity : Capacity) → Capacity
selected current capacity =
    if capacity.customized && not current.customized
    then capacity
    else if same_flag capacity.customized current.customized
        && ltb current.revision capacity.revision
    then capacity
    else current

-- An entry joins the one of the same machine, if there is one.
unfoldable pub merged_capacity : Option Capacity → Capacity → Result Capacity
merged_capacity none capacity = ok capacity
merged_capacity (some current) capacity = do
  raise_if
      (not (current.standard_slots == capacity.standard_slots)
        || not (current.test_slots == capacity.test_slots))
      (value_error "legacy and canonical capacity entries conflict")
  ok (selected current capacity)

-- The loop over the stored entries, with the entries and the flag so far.
unfoldable pub canonicalize :
    Machines → Capacities → (canonical : Capacities) (changed : Bool) → Result (Capacities × Bool)
unfolding canonical_machine_id merged_capacity
canonicalize machines [] canonical changed = ok (canonical, changed)
canonicalize machines ((stored_id, capacity) ∷ servers) canonical changed = do
  machine_id ← canonical_machine_id machines stored_id
  entry ← merged_capacity (get canonical machine_id) capacity
  canonicalize machines servers (put canonical machine_id entry)
      (changed || (not (machine_id == stored_id) || has canonical machine_id))

unfoldable pub canonicalize_capacities : Machines → Capacities → Result (Capacities × Bool)
unfolding canonicalize
canonicalize_capacities machines servers = canonicalize machines servers [] false

abbrev pub default_capacity : (now : String) (standard_slots test_slots : ℕ) → Capacity
default_capacity now standard_slots test_slots = record {
  standard_slots = standard_slots;
  test_slots = test_slots;
  revision = 0;
  customized = false;
  updated_at = now;
  updated_by_project = none;
}

-- One turn of the loop over the defaults: the entries, and whether they changed.
unfoldable pub apply_default :
    (now : String) → String × String × ℕ × ℕ → Capacities → Capacities × Bool
apply_default now (machine_id, name, standard_slots, test_slots) servers =
    elim (get servers machine_id) [
      | none ↦ (put servers machine_id (default_capacity now standard_slots test_slots), true)
      | some current ↦
          if not current.customized
            && (not (current.standard_slots == standard_slots)
                || not (current.test_slots == test_slots))
          then (
            put servers machine_id (record current {
              standard_slots = standard_slots;
              test_slots = test_slots;
              revision = current.revision + 1;
              updated_at = now;
            }),
            true,
          )
          else (servers, false)
    ]

unfoldable pub apply_defaults :
    (now : String) → List (String × String × ℕ × ℕ) → Capacities → Capacities × Bool
unfolding apply_default
apply_defaults now [] servers = (servers, false)
apply_defaults now (parsed ∷ rest) servers =
    let (next, changed) = apply_default now parsed servers in
    let (last, changed') = apply_defaults now rest next in (last, changed || changed')

-- The identities are told to the servers themselves, which the defaults are read from afterwards.
abbrev pub with_told : List Server → (told_servers : List Server) → List Server
with_told [] told_servers = []
with_told (server ∷ servers) [] = server ∷ servers
with_told (server ∷ servers) (now_known ∷ told_servers) =
    if server.configured_cores == 0
    then server ∷ with_told servers (now_known ∷ told_servers)
    else now_known ∷ with_told servers told_servers

unfoldable pub map_defaults : List Server → Result (List (String × String × ℕ × ℕ))
unfolding capacity_defaults
map_defaults [] = ok []
map_defaults (server ∷ servers) = do
  parsed ← capacity_defaults server
  rest ← map_defaults servers
  ok (parsed ∷ rest)

-- The defaults, and the stored entries in their canonical form.
unfoldable pub read_defaults :
    Machines
    → List Server
    → Capacities
    → Result (List (String × String × ℕ × ℕ) × Capacities × Bool)
unfolding map_defaults load_server_capacities canonicalize_capacities
read_defaults machines defaults capacities_path = do
  parsed ← map_defaults defaults
  stored_servers ← load_server_capacities capacities_path
  (servers, changed) ← canonicalize_capacities machines stored_servers
  ok (parsed, servers, changed)

-- The entries, and the files, of which the machines' may be written before an error.
unfoldable pub ensure_server_capacities :
    (now project_id : String) → List Server → CapacityFiles → Result Capacities × CapacityFiles
unfolding ensure_machine_identities read_defaults apply_defaults
ensure_server_capacities now project_id defaults files =
    elim (ensure_machine_identities now project_id
      (filter (λ server. not (server.configured_cores == 0)) defaults) files.machines_path) [
        | err e ↦ (err e, files)
        | ok (machines, told_servers, machines_path') ↦
            let files' = record files { machines_path = machines_path' } in
            elim (read_defaults machines (with_told defaults told_servers) files.capacities_path) [
              | err e ↦ (err e, files')
              | ok (parsed, servers, changed) ↦
                  let (last, changed') = apply_defaults now parsed servers in
                  (
                    ok last,
                    if changed || changed'
                        then record files' { capacities_path = sort_by by_id last }
                        else files',
                  )
            ]
      ]

unfoldable pub list_server_capacities : CapacityFiles → Result Capacities
unfolding load_machine_identities load_server_capacities canonicalize_capacities
list_server_capacities files = do
  machines ← load_machine_identities files.machines_path
  stored_servers ← load_server_capacities files.capacities_path
  (servers, _) ← canonicalize_capacities machines stored_servers
  ok servers

-- The arguments of an update.
pub record CapacityUpdate : Type 0 where
  pub server : String
  pub machine_id : Option String
  pub expected_revision : ℕ
  pub standard_slots : ℕ
  pub test_slots : ℕ

pub record CapacityReply : Type 0 where
  pub changed : Bool
  pub server : String
  pub capacity : Capacity

abbrev pub present_capacity : Option Capacity → Result Capacity
present_capacity none = err (file_not_found "server capacity does not exist")
present_capacity (some current) = ok current

-- The checks of an update before it writes: the machine, the entries, and the machine's entry.
unfoldable pub find_capacity :
    (project_id : String) → CapacityUpdate → CapacityFiles → Result (String × Capacities × Capacity)
unfolding capacity_slots load_machine_identities resolve_machine_request load_server_capacities
    canonicalize_capacities
find_capacity project_id update files = do
  raise_if (not (is_project_id update.server)) (value_error "invalid server name")
  raise_if (not (is_machine_id (get_or update.machine_id update.server)))
      (value_error "invalid machine_id")
  _ ← capacity_slots update.standard_slots
  _ ← capacity_slots update.test_slots
  machines ← load_machine_identities files.machines_path
  capacity_key ←
      resolve_machine_request machines project_id update.server
        (get_or update.machine_id update.server)
  stored_servers ← load_server_capacities files.capacities_path
  (servers, _) ← canonicalize_capacities machines stored_servers
  current ← present_capacity (get servers capacity_key)
  raise_if (not (current.revision == update.expected_revision))
      (runtime_error "server capacity revision conflict")
  ok (capacity_key, servers, current)

-- The entry that an update writes.
abbrev pub updated_capacity : (now project_id : String) → CapacityUpdate → Capacity
updated_capacity now project_id update = record {
  standard_slots = update.standard_slots;
  test_slots = update.test_slots;
  revision = update.expected_revision + 1;
  customized = true;
  updated_at = now;
  updated_by_project = some project_id;
}

abbrev pub is_update : CapacityUpdate → Capacity → Bool
is_update update current =
    not (current.standard_slots == update.standard_slots)
    || (not (current.test_slots == update.test_slots) || not current.customized)

unfoldable pub update_server_capacity :
    (now project_id : String)
    → CapacityUpdate
    → CapacityFiles
    → Result (CapacityReply × CapacityFiles)
unfolding find_capacity
update_server_capacity now project_id update files = do
  (capacity_key, servers, current) ← find_capacity project_id update files
  let updated = updated_capacity now project_id update
  ok (
      if is_update update current
      then (
        record { changed = true; server = update.server; capacity = updated },
        record files { capacities_path = sort_by by_id (put servers capacity_key updated) },
      )
      else (record { changed = false; server = update.server; capacity = current }, files))
