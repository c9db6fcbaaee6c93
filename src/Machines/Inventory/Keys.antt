-- ===== src/Machines/Inventory/Keys.antt =====
-- registry.py: the ids that `_load_machine_identities_unlocked` accepts.
use codex_remote_runner.Prelude.{
  any, All, string_eq, nat_eq, ok, >>=-eq-ok, ok_injective, passed, Dict, has, get-present, get-All,
  String, ◌≡◌, subst, true, not, [], ◌∷◌, arith,
}
use codex_remote_runner.Text.{is_project_id, is_machine_id}
use codex_remote_runner.Machines.{Machines}
use codex_remote_runner.Machines.Inventory.{
  StoredMachine, Seen, check_stored, see_machine, load_entries, nothing_seen,
  load_machine_identities,
}

is_machine_id-is_project_id : (id : String) → is_machine_id id ≡ true → is_project_id id ≡ true
unfolding is_machine_id is_project_id
is_machine_id-is_project_id id h = ground (arith, h)

see_machine-valid :
    (machine_id : String) (raw : StoredMachine) (seen seen' : Seen)
    → see_machine machine_id raw seen ≡ ok seen'
    → is_machine_id machine_id ≡ true
unfolding see_machine check_stored
see_machine-valid machine_id raw seen seen' e =
    let (_, valid, _) = >>=-eq-ok (check_stored machine_id raw) _ e in
    let (named, _) = passed (not (is_machine_id machine_id)) _ _ valid in ground (arith, named)

load_entries-valid :
    (entries : Dict String StoredMachine) (seen : Seen) (answer : Machines × Seen)
    → load_entries entries seen ≡ ok answer
    → All (λ entry. is_project_id entry.0 ≡ true) answer.0
unfolding load_entries
load_entries-valid [] seen answer e =
    subst (λ a. All (λ entry. is_project_id entry.0 ≡ true) a.0) (ok_injective _ _ e) tt
load_entries-valid ((machine_id, raw) ∷ entries) seen answer e =
    let (seen', seen_one, e1) = >>=-eq-ok (see_machine machine_id raw seen) _ e in
    let (later, others, e2) = >>=-eq-ok (load_entries entries seen') _ e1 in
    subst (λ a. All (λ entry. is_project_id entry.0 ≡ true) a.0) (ok_injective _ _ e2)
      (
        is_machine_id-is_project_id machine_id
            (see_machine-valid machine_id raw seen seen' seen_one),
        load_entries-valid entries seen' later others,
      )

-- The id of a machine in a registry that loads is a name.
pub load_machine_identities-valid :
    (file : Dict String StoredMachine) (machines : Machines) (id : String)
    → load_machine_identities file ≡ ok machines
    → has machines id ≡ true
    → is_project_id id ≡ true
unfolding load_machine_identities
load_machine_identities-valid file machines id e h =
    let (answer, read, e1) = >>=-eq-ok (load_entries file nothing_seen) _ e in
    let (quiet, e2) = passed (any (λ entry. has answer.0 entry.0) answer.1.legacy_ids) _ _ e1 in
    let (m, found) = get-present machines id h in
    get-All (λ entry. is_project_id entry.0 ≡ true) machines id m
      (subst (All (λ entry. is_project_id entry.0 ≡ true)) (ok_injective _ _ e2)
        (load_entries-valid file nothing_seen answer read))
      found
