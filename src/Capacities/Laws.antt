-- ===== src/Capacities/Laws.antt =====
-- registry.py: `update_server_capacity` and `list_server_capacities` in sequence.
use codex_remote_runner.Prelude.{
  if◌then◌else◌, Bool-cases, is_empty, string_eq, ◌==◌, nat_eq, beq_of_ne, value_error,
  runtime_error, Result, err, ok, ◌>>=◌, ◌>>◌, raise_if, >>=-eq-ok, >>=-ok, ok_injective, get, put,
  get_or, ℕ, ◌≤◌, String, ◌≡◌, refl, sym, ap, ◌∙◌, subst, ◌≢◌, inl, inr, true, false, not, Option,
  some, arith,
}
use codex_remote_runner.Text.{codes, is_project_id, is_machine_id}
use codex_remote_runner.Machines.{Machines, resolve_machine_request}
use codex_remote_runner.Sort.{sort_by}
use codex_remote_runner.Machines.Enroll.{by_id}
use codex_remote_runner.Machines.Inventory.{load_machine_identities}
use codex_remote_runner.Capacities.{
  Capacity, Capacities, CapacityFiles, capacity_slots, load_server_capacities,
  canonicalize_capacities, list_server_capacities, CapacityUpdate, CapacityReply, present_capacity,
  find_capacity, updated_capacity, is_update, update_server_capacity,
}
use codex_remote_runner.Capacities.Found.{find_capacity-IsFound}
use codex_remote_runner.Capacities.Updated.{IsUpdated, changed-IsUpdated, unchanged-IsUpdated}

capacity_slots-fits : (value : ℕ) → value ≤ 1024 → capacity_slots value ≡ ok value
unfolding capacity_slots
capacity_slots-fits value h = ground arith

-- A request with valid names and slots, and what it is about.
pub record IsRequest (project_id : String) (update : CapacityUpdate) (paths : CapacityFiles)
    (key : String) (servers : Capacities) : Type 0 where
  pub server_named : is_project_id update.server ≡ true
  pub machine_named : is_machine_id (get_or update.machine_id update.server) ≡ true
  pub standard_fits : update.standard_slots ≤ 1024
  pub test_fits : update.test_slots ≤ 1024
  pub machines : Machines
  pub read : load_machine_identities paths.machines_path ≡ ok machines
  pub resolved :
      resolve_machine_request machines project_id update.server
        (get_or update.machine_id update.server)
      ≡ ok key
  pub listed : list_server_capacities paths ≡ ok servers

-- What is left to check once the entries are read.
abbrev pub found_capacity :
    CapacityUpdate
    → (key : String) (servers : Capacities) → Option Capacity
    → Result (String × Capacities × Capacity)
found_capacity update key servers entry = do
  current ← present_capacity entry
  raise_if (not (current.revision == update.expected_revision))
      (runtime_error "server capacity revision conflict")
  ok (key, servers, current)

pub find_capacity-known :
    (project_id : String) (update : CapacityUpdate) (paths : CapacityFiles) (key : String)
    (servers : Capacities)
    → IsRequest project_id update paths key servers
    → find_capacity project_id update paths ≡ found_capacity update key servers (get servers key)
unfolding find_capacity list_server_capacities
find_capacity-known project_id update paths key servers q =
    let (machines', read', e1) =
      >>=-eq-ok (load_machine_identities paths.machines_path) _ q.listed in
    let (entries, l, e2) = >>=-eq-ok (load_server_capacities paths.capacities_path) _ e1 in
    let (answer, k, e3) = >>=-eq-ok (canonicalize_capacities machines' entries) _ e2 in
    let k' =
      subst (λ m. canonicalize_capacities m entries ≡ ok answer)
        (ok_injective machines' q.machines (sym read' ∙ q.read)) k in
    >>=-ok _ (ap (λ b. raise_if (not b) (value_error "invalid server name")) q.server_named)
    ∙ >>=-ok _ (ap (λ b. raise_if (not b) (value_error "invalid machine_id")) q.machine_named)
    ∙ >>=-ok _ (capacity_slots-fits update.standard_slots q.standard_fits)
    ∙ >>=-ok _ (capacity_slots-fits update.test_slots q.test_fits)
    ∙ >>=-ok _ q.read
    ∙ >>=-ok _ q.resolved
    ∙ >>=-ok _ l
    ∙ >>=-ok _ k'
    ∙ ap (λ s. found_capacity update key s (get s key)) (ok_injective _ _ e3)

-- An update that expects another revision than the one that is listed.
find_capacity-stale :
    (project_id : String) (update : CapacityUpdate) (paths : CapacityFiles) (key : String)
    (servers : Capacities) (current : Capacity)
    → IsRequest project_id update paths key servers
    → get servers key ≡ some current
    → current.revision ≢ update.expected_revision
    → find_capacity project_id update paths
      ≡ err (runtime_error "server capacity revision conflict")
find_capacity-stale project_id update paths key servers current q held stale =
    find_capacity-known project_id update paths key servers q
    ∙ ap (found_capacity update key servers) held
    ∙ rw (beq_of_ne current.revision update.expected_revision stale) refl

-- After an update the capacities can be listed, and the list holds the capacity of the reply for the
-- machine that was asked for. The capacity has the slots that were asked for, and is customized. The
-- entries of all other machines are as they were listed before. This holds as well for an update
-- that changes nothing.
pub update_server_capacity-list_server_capacities :
    (now project_id : String) (update : CapacityUpdate) (paths paths' : CapacityFiles)
    (reply : CapacityReply)
    → is_empty (codes now) ≡ false
    → update_server_capacity now project_id update paths ≡ ok (reply, paths')
    → IsUpdated project_id update paths paths' reply
unfolding update_server_capacity
update_server_capacity-list_server_capacities now project_id update paths paths' reply n e =
    let ((key, servers, current), found, e1) =
      >>=-eq-ok (find_capacity project_id update paths) _ e in
    let f = find_capacity-IsFound project_id update paths key servers current found in
    elim (Bool-cases (is_update update current)) [
      | inl changed ↦
          subst (λ x. IsUpdated project_id update paths x.1 x.0)
            (ok_injective _ _ (rw changed at e1))
            (changed-IsUpdated now project_id update paths key servers current n f)
      | inr unchanged ↦
          subst (λ x. IsUpdated project_id update paths x.1 x.0)
            (ok_injective _ _ (rw unchanged at e1))
            (unchanged-IsUpdated project_id update paths key servers current unchanged f)
    ]

-- Once an update has changed a capacity, another one of the same server that expects the same
-- revision is refused, whatever slots it asks for, as long as they are in bounds.
pub update_server_capacity-conflict :
    (now now' project_id : String) (update update' : CapacityUpdate) (paths paths' : CapacityFiles)
    (reply : CapacityReply)
    → is_empty (codes now) ≡ false
    → update_server_capacity now project_id update paths ≡ ok (reply, paths')
    → reply.changed ≡ true
    → update'.server ≡ update.server
    → update'.machine_id ≡ update.machine_id
    → update'.expected_revision ≡ update.expected_revision
    → update'.standard_slots ≤ 1024
    → update'.test_slots ≤ 1024
    → update_server_capacity now' project_id update' paths'
      ≡ err (runtime_error "server capacity revision conflict")
unfolding update_server_capacity
update_server_capacity-conflict now now' project_id update update' paths paths' reply n e changed
      same_server same_id same_revision standard_fits test_fits =
    let u =
      update_server_capacity-list_server_capacities now project_id update paths paths' reply n e in
    ap
      (λ (c : Result (String × Capacities × Capacity)). c >>= λ x.
        (ok (
          if is_update update' x.2
          then (
            record {
              changed = true;
              server = update'.server;
              capacity = updated_capacity now' project_id update';
            },
            record paths' {
              capacities_path =
                  sort_by by_id (put x.1 x.0 (updated_capacity now' project_id update'));
            },
          )
          else (record { changed = false; server = update'.server; capacity = x.2 }, paths'))))
      (find_capacity-stale project_id update' paths' u.key u.servers' reply.capacity
        (record {
          server_named = rw same_server u.server_named;
          machine_named = rw (same_server, same_id) u.machine_named;
          standard_fits = standard_fits;
          test_fits = test_fits;
          machines = u.machines;
          read = u.read;
          resolved = rw (same_server, same_id) u.resolved;
          listed = u.listed';
        })
        u.there_now (omega (arith, u.revision changed, same_revision)))
