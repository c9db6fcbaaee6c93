-- ===== src/Examples/Registry.antt =====
-- The machine registry and the capacities of its machines.
use codex_remote_runner.Text.{is_project_id, is_machine_id, str_le}
use codex_remote_runner.Prelude.{
  string_eq, nat_eq, ne_of_beq, runtime_error, err, ok, Dict, get, String, ◌≡◌, refl, ◌≢◌, true,
  false, none, some, [], ◌∷◌, arith,
}
use codex_remote_runner.Machines.{
  Machine, Machines, machine_alias, machine_alias_owner, machine_fingerprint_owner,
  resolve_machine_request,
}
use codex_remote_runner.Machines.Identity.{explicit, legacy_name, Server, normalize_server_identity}
use codex_remote_runner.Machines.Inventory.{StoredMachine, machines_file, load_machine_identities}
use codex_remote_runner.Machines.Inventory.Laws.{
  IsUnambiguous, load_machine_identities-IsUnambiguous,
}
use codex_remote_runner.Machines.Enroll.{merge_legacy_machine, ensure_machine_identities}
use codex_remote_runner.Machines.Enroll.Laws.{IsUnowned, ensure_machine_identities-former_id}
use codex_remote_runner.Machines.Enroll.Merge.{IsMerged, merge_legacy_machine-IsMerged}
use codex_remote_runner.Capacities.{
  Capacity, Capacities, CapacityFiles, canonicalize_capacities, ensure_server_capacities,
  list_server_capacities, CapacityUpdate, CapacityReply, updated_capacity, update_server_capacity,
}
use codex_remote_runner.Capacities.Laws.{
  IsRequest, update_server_capacity-list_server_capacities, update_server_capacity-conflict,
}
use codex_remote_runner.Capacities.Defaults.{IsKept, ensure_server_capacities-customized}
use codex_remote_runner.Capacities.Updated.{IsUpdated}
use codex_remote_runner.Examples.Data.{server_a, machine_a, machines_a}

abbrev file_a : Dict String StoredMachine
file_a = machines_file machines_a

load_machine_identities-IsUnambiguous_example : IsUnambiguous machines_a
unfolding load_machine_identities is_machine_id
load_machine_identities-IsUnambiguous_example =
    load_machine_identities-IsUnambiguous file_a machines_a refl refl

-- A server of another project whose name is a former id of the machine.
abbrev server_old : Server
server_old = record server_a { name = "old-a"; machine_id = none; machine_id_source = none }

abbrev normal_old : Server
normal_old = record server_a {
  name = "old-a";
  machine_id = some "old-a";
  machine_id_source = some legacy_name;
}

abbrev machine_old : Machine
machine_old = record machine_a {
  aliases = "other/old-a" ∷ [];
  identity_source = legacy_name;
  legacy_machine_ids = [];
  updated_at = "2026-01-02";
}

abbrev machines_old : Machines
machines_old = ("m-a", machine_a) ∷ ("old-a", machine_old) ∷ []

server_old-IsUnowned : IsUnowned "other" server_old normal_old "old-a" machines_a
unfolding normalize_server_identity machine_alias machine_alias_owner machine_fingerprint_owner
    is_machine_id is_project_id
server_old-IsUnowned = record {
  normalized = refl;
  asks_for = refl;
  alias = "other/old-a";
  has_alias = refl;
  alias_owner = refl;
  fingerprint_owner = refl;
  unknown = refl;
}

ensure_machine_identities-former_id_example :
    load_machine_identities (machines_file machines_old) ≢ ok machines_old
unfolding ensure_machine_identities is_machine_id is_project_id str_le
ensure_machine_identities-former_id_example =
    ensure_machine_identities-former_id "2026-01-02" "other" "old-a" server_old normal_old file_a
      (machines_file machines_old) machines_a machines_old machines_old (normal_old ∷ []) refl
      server_old-IsUnowned refl refl

abbrev machine_l : Machine
machine_l = record machine_a { identity_source = legacy_name; legacy_machine_ids = [] }

merge_legacy_machine-IsMerged_example :
    IsMerged
      (("alpha", machine_l) ∷ [])
      ((
        "big",
        record machine_l {
          identity_source = explicit;
          legacy_machine_ids = "alpha" ∷ [];
          updated_at = "2026-01-02";
        },
      )
        ∷ [])
      "alpha"
      "big"
unfolding merge_legacy_machine
merge_legacy_machine-IsMerged_example =
    merge_legacy_machine-IsMerged "2026-01-02" (("alpha", machine_l) ∷ []) _ "alpha" "big" none 8
      none (ne_of_beq "alpha" "big" refl) refl

abbrev capacity_a : Capacity
capacity_a = record {
  standard_slots = 1;
  test_slots = 0;
  revision = 0;
  customized = false;
  updated_at = "2026-01-01";
  updated_by_project = none;
}

abbrev paths_a : CapacityFiles
paths_a = record { machines_path = file_a; capacities_path = ("m-a", capacity_a) ∷ [] }

abbrev update_a : CapacityUpdate
update_a = record {
  server = "alpha";
  machine_id = none;
  expected_revision = 0;
  standard_slots = 2;
  test_slots = 1;
}

abbrev capacity_a' : Capacity
capacity_a' = updated_capacity "2026-01-02" "proj" update_a

abbrev paths_a' : CapacityFiles
paths_a' = record paths_a { capacities_path = ("m-a", capacity_a') ∷ [] }

abbrev reply_a : CapacityReply
reply_a = record { changed = true; server = "alpha"; capacity = capacity_a' }

update_server_capacity-list_server_capacities_example :
    IsUpdated "proj" update_a paths_a paths_a' reply_a
unfolding update_server_capacity is_project_id is_machine_id
update_server_capacity-list_server_capacities_example =
    update_server_capacity-list_server_capacities "2026-01-02" "proj" update_a paths_a paths_a'
      reply_a refl refl

update_server_capacity-conflict_example :
    update_server_capacity "2026-01-03" "proj" (record update_a { standard_slots = 3 }) paths_a'
    ≡ err (runtime_error "server capacity revision conflict")
unfolding update_server_capacity is_project_id is_machine_id
update_server_capacity-conflict_example =
    update_server_capacity-conflict "2026-01-02" "2026-01-03" "proj" update_a
      (record update_a { standard_slots = 3 }) paths_a paths_a' reply_a refl refl refl refl refl
      refl (omega arith) (omega arith)

abbrev only_a : Capacities
only_a = ("m-a", capacity_a') ∷ []

ensure_server_capacities-customized_example :
    (get only_a "m-a" ≡ some capacity_a') × IsKept paths_a' paths_a' file_a only_a only_a false
unfolding ensure_server_capacities ensure_machine_identities canonicalize_capacities is_machine_id
    is_project_id
ensure_server_capacities-customized_example =
    ensure_server_capacities-customized "2026-01-03" "proj" (server_a ∷ []) paths_a' paths_a' only_a
      machines_a (server_a ∷ []) file_a only_a false "m-a" capacity_a' refl refl refl refl refl

update_a-IsRequest : IsRequest "proj" update_a paths_a "m-a" (("m-a", capacity_a) ∷ [])
unfolding load_machine_identities resolve_machine_request list_server_capacities is_project_id
    is_machine_id
update_a-IsRequest = record {
  server_named = refl;
  machine_named = refl;
  standard_fits = omega arith;
  test_fits = omega arith;
  machines = machines_a;
  read = refl;
  resolved = refl;
  listed = refl;
}
