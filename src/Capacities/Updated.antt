-- ===== src/Capacities/Updated.antt =====
-- registry.py: what `update_server_capacity` writes.
use codex_remote_runner.Prelude.{
  is_empty, string_eq, nat_eq, beq_of_ne, ok, >>=-ok, get, put, get-put, get-put_self, get-All,
  get_or, ◌+◌, String, ◌≡◌, refl, sym, ◌∙◌, ◌≢◌, true, false, some, arith,
}
use codex_remote_runner.Text.{codes, is_project_id, is_machine_id}
use codex_remote_runner.Machines.{Machines, resolve_machine_request}
use codex_remote_runner.Sort.{sort_by, sort_by-get}
use codex_remote_runner.Machines.Enroll.{by_id}
use codex_remote_runner.Machines.Inventory.{load_machine_identities}
use codex_remote_runner.Capacities.{
  Capacity, Capacities, CapacityFiles, capacity_slots, check_values, list_server_capacities,
  CapacityUpdate, CapacityReply, updated_capacity, is_update,
}
use codex_remote_runner.Capacities.Found.{IsFound}
use codex_remote_runner.Capacities.Canonical.{
  IsOwn, IsValid, IsWellFormed, load_server_capacities-readable, put-IsWellFormed,
  canonicalize_capacities-fixed, IsWellFormed-sorted,
}

-- The entries after a write: the new one is valid.
updated-IsValid :
    (now project_id : String) (update : CapacityUpdate)
    → is_empty (codes now) ≡ false
    → capacity_slots update.standard_slots ≡ ok update.standard_slots
    → capacity_slots update.test_slots ≡ ok update.test_slots
    → IsValid (updated_capacity now project_id update)
unfolding check_values
updated-IsValid now project_id update n a b = rw (n, a, b) refl

-- What a later call reads.
written-listed :
    (paths : CapacityFiles) (machines : Machines) (written : Capacities)
    → load_machine_identities paths.machines_path ≡ ok machines
    → IsWellFormed machines written
    → list_server_capacities (record paths { capacities_path = sort_by by_id written })
      ≡ ok (sort_by by_id written)
unfolding list_server_capacities
written-listed paths machines written read w =
    let (well, readable) = IsWellFormed-sorted machines written w in
    >>=-ok _ read
    ∙ >>=-ok _ (load_server_capacities-readable (sort_by by_id written) readable)
    ∙ >>=-ok _ (canonicalize_capacities-fixed machines (sort_by by_id written) well)

-- What an update leaves for those who read the capacities after it.
pub record IsUpdated (project_id : String) (update : CapacityUpdate) (paths paths' : CapacityFiles)
    (reply : CapacityReply) : Type 0 where
  pub machines : Machines
  pub key : String
  pub servers : Capacities
  pub servers' : Capacities
  pub resolved :
      resolve_machine_request machines project_id update.server
        (get_or update.machine_id update.server)
      ≡ ok key
  pub read : load_machine_identities paths'.machines_path ≡ ok machines
  pub server_named : is_project_id update.server ≡ true
  pub machine_named : is_machine_id (get_or update.machine_id update.server) ≡ true
  pub revision : reply.changed ≡ true → reply.capacity.revision ≡ update.expected_revision + 1
  pub listed : list_server_capacities paths ≡ ok servers
  pub listed' : list_server_capacities paths' ≡ ok servers'
  pub there_now : get servers' key ≡ some reply.capacity
  pub slots :
      (reply.capacity.standard_slots ≡ update.standard_slots)
      × (reply.capacity.test_slots ≡ update.test_slots)
      × (reply.capacity.customized ≡ true)
  pub others : (other : String) → other ≢ key → get servers' other ≡ get servers other

-- The write of an update that changes the entry.
pub changed-IsUpdated :
    (now project_id : String) (update : CapacityUpdate) (paths : CapacityFiles) (key : String)
    (servers : Capacities) (current : Capacity)
    → is_empty (codes now) ≡ false
    → IsFound project_id update paths key servers current
    → IsUpdated project_id update paths
        (record paths {
          capacities_path =
              sort_by by_id (put servers key (updated_capacity now project_id update));
        })
        (record {
          changed = true;
          server = update.server;
          capacity = updated_capacity now project_id update;
        })
changed-IsUpdated now project_id update paths key servers current n f =
    let updated = updated_capacity now project_id update in
    let written = put servers key updated in
    let own =
      (get-All (λ x. IsOwn f.machines x.0 × IsValid x.1) servers key current f.well_formed.1
        f.stored_entry).0 in
    let w =
      put-IsWellFormed f.machines servers key updated own
        (updated-IsValid now project_id update n f.standard_fits f.test_fits) f.well_formed in
    record {
      machines = f.machines;
      key = key;
      servers = servers;
      servers' = sort_by by_id written;
      resolved = f.resolved;
      read = f.read;
      server_named = f.server_named;
      machine_named = f.machine_named;
      revision = λ h. refl;
      listed = f.listed;
      listed' = written-listed paths f.machines written f.read w;
      there_now = sort_by-get by_id written key w.0 ∙ get-put_self servers key updated;
      slots = (refl, refl, refl);
      others = λ other ne.
          sort_by-get by_id written other w.0
          ∙ get-put servers key other updated
          ∙ rw (beq_of_ne key other (λ q. ne (sym q))) refl;
    }

pub unchanged-IsUpdated :
    (project_id : String) (update : CapacityUpdate) (paths : CapacityFiles) (key : String)
    (servers : Capacities) (current : Capacity)
    → is_update update current ≡ false
    → IsFound project_id update paths key servers current
    → IsUpdated project_id update paths paths
        (record { changed = false; server = update.server; capacity = current })
unchanged-IsUpdated project_id update paths key servers current unchanged f = record {
  machines = f.machines;
  key = key;
  servers = servers;
  servers' = servers;
  resolved = f.resolved;
  read = f.read;
  server_named = f.server_named;
  machine_named = f.machine_named;
  revision = λ h. cc;
  listed = f.listed;
  listed' = f.listed;
  there_now = f.stored_entry;
  slots = (ground (arith, unchanged), ground (arith, unchanged), ground (arith, unchanged));
  others = λ other ne. refl;
}
