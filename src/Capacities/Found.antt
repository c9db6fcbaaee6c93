-- ===== src/Capacities/Found.antt =====
-- registry.py: what the checks of `update_server_capacity` find.
use codex_remote_runner.Prelude.{
  ltb, Bool-cases, string_eq, ◌==◌, nat_eq, eq_of_beq, ok, >>=-eq-ok, >>=-ok, ok_injective, passed,
  get, get_or, ℕ, String, ◌≡◌, refl, sym, ap, ◌∙◌, subst, inl, inr, true, not, Option, none, some,
  arith,
}
use codex_remote_runner.Text.{is_project_id, is_machine_id}
use codex_remote_runner.Machines.{Machines, resolve_machine_request}
use codex_remote_runner.Machines.Inventory.{load_machine_identities}
use codex_remote_runner.Capacities.{
  Capacity, Capacities, CapacityFiles, capacity_slots, load_server_capacities,
  canonicalize_capacities, list_server_capacities, CapacityUpdate, present_capacity, find_capacity,
}
use codex_remote_runner.Capacities.Canonical.{
  IsWellFormed, IsReadable, load_server_capacities-ok, canonicalize_capacities-IsWellFormed,
}

-- What the checks of an update have found.
pub record IsFound (project_id : String) (update : CapacityUpdate) (paths : CapacityFiles)
    (key : String) (servers : Capacities) (current : Capacity) : Type 0 where
  pub server_named : is_project_id update.server ≡ true
  pub machine_named : is_machine_id (get_or update.machine_id update.server) ≡ true
  pub standard_fits : capacity_slots update.standard_slots ≡ ok update.standard_slots
  pub test_fits : capacity_slots update.test_slots ≡ ok update.test_slots
  pub machines : Machines
  pub read : load_machine_identities paths.machines_path ≡ ok machines
  pub resolved :
      resolve_machine_request machines project_id update.server
        (get_or update.machine_id update.server)
      ≡ ok key
  pub listed : list_server_capacities paths ≡ ok servers
  pub well_formed : IsWellFormed machines servers
  pub stored_entry : get servers key ≡ some current
  pub expected : current.revision ≡ update.expected_revision

capacity_slots-ok :
    (value answer : ℕ) → capacity_slots value ≡ ok answer → capacity_slots value ≡ ok value
unfolding capacity_slots
capacity_slots-ok value answer e = elim (Bool-cases (ltb 1024 value)) [
  | inl large ↦ cc (rw large at e)
  | inr fits ↦ rw fits refl
]

present_entry :
    (o : Option Capacity) (current : Capacity) → present_capacity o ≡ ok current → o ≡ some current
present_entry none current e = cc
present_entry (some c) current e = ap some (ok_injective c current e)

pub find_capacity-IsFound :
    (project_id : String) (update : CapacityUpdate) (paths : CapacityFiles) (key : String)
    (servers : Capacities) (current : Capacity)
    → find_capacity project_id update paths ≡ ok (key, servers, current)
    → IsFound project_id update paths key servers current
unfolding find_capacity list_server_capacities
find_capacity-IsFound project_id update paths key servers current e =
    let (a, e1) = passed (not (is_project_id update.server)) _ _ e in
    let (b, e2) = passed (not (is_machine_id (get_or update.machine_id update.server))) _ _ e1 in
    let (x, c, e3) = >>=-eq-ok (capacity_slots update.standard_slots) _ e2 in
    let (y, d, e4) = >>=-eq-ok (capacity_slots update.test_slots) _ e3 in
    let (machines, read, e5) = >>=-eq-ok (load_machine_identities paths.machines_path) _ e4 in
    let (id, r, e6) =
      >>=-eq-ok
        (resolve_machine_request machines project_id update.server
          (get_or update.machine_id update.server))
        _ e5 in
    let (entries, l, e7) = >>=-eq-ok (load_server_capacities paths.capacities_path) _ e6 in
    let (answer, k, e8) = >>=-eq-ok (canonicalize_capacities machines entries) _ e7 in
    let (now_current, g, e9) = >>=-eq-ok (present_capacity (get answer.0 id)) _ e8 in
    let (v, e10) = passed (not (now_current.revision == update.expected_revision)) _ _ e9 in
    let (same_entries, readable) = load_server_capacities-ok paths.capacities_path entries l in
    subst (λ x. IsFound project_id update paths x.0 x.1 x.2) (ok_injective _ _ e10)
      (record {
        server_named = ground (arith, a);
        machine_named = ground (arith, b);
        standard_fits = capacity_slots-ok update.standard_slots x c;
        test_fits = capacity_slots-ok update.test_slots y d;
        machines = machines;
        read = read;
        resolved = r;
        listed = >>=-ok _ read ∙ >>=-ok _ l ∙ >>=-ok _ k;
        well_formed =
            canonicalize_capacities-IsWellFormed paths.machines_path machines entries answer read
              (subst IsReadable (sym same_entries) readable) k;
        stored_entry = present_entry (get answer.0 id) now_current g;
        expected = eq_of_beq now_current.revision update.expected_revision (ground (arith, v));
      })
