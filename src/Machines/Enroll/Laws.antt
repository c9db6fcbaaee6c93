-- ===== src/Machines/Enroll/Laws.antt =====
-- registry.py: what entering a server does to the machine registry.
use codex_remote_runner.Prelude.{
  if◌then◌else◌, any, contains, string_eq, ◌==◌, nat_eq, ok, ◌>>=◌, >>=-eq-ok, ok_injective, passed,
  Dict, has, put, get-absent, has-any, has-put_self, any-put, get_or, ℕ, String, ◌≡◌, refl, sym, ap,
  ◌∙◌, subst, ◌≢◌, Bool, true, false, ◌||◌, Option, none, List, [], ◌∷◌,
}
use codex_remote_runner.Sort.{sort_by, sort_by-any}
use codex_remote_runner.Machines.{
  Machine, Machines, machine_alias, machine_alias_owner, machine_fingerprint_owner,
}
use codex_remote_runner.Machines.Identity.{
  IdentitySource, explicit, legacy_name, Server, normalize_server_identity,
}
use codex_remote_runner.Machines.Inventory.{StoredMachine, machines_file, load_machine_identities}
use codex_remote_runner.Machines.Inventory.Laws.{former_in, load_machine_identities-apart}
use codex_remote_runner.Machines.Enroll.{
  merge_all, fingerprint_machine_id, choose_machine, entered, is_zero_memory, enter_server,
  enter_servers, by_id, ensure_machine_identities,
}

-- A former id of one of the machines.
abbrev pub is_former : String → Machines → Bool
is_former id = any λ entry. contains entry.1.legacy_machine_ids id

former_in-file :
    (id : String) (machines : Machines)
    → former_in id (machines_file machines) ≡ is_former id machines
former_in-file id [] = refl
former_in-file id ((other, m) ∷ machines) =
    ap (λ rest. contains m.legacy_machine_ids id || rest) (former_in-file id machines)

has-file : (id : String) (machines : Machines) → has (machines_file machines) id ≡ has machines id
has-file id [] = refl
has-file id ((other, m) ∷ machines) =
    ap (λ rest. if other == id then true else rest) (has-file id machines)

-- A written file cannot be read if one of its ids is a former id.
written_unreadable :
    (machines : Machines) (id : String) (r : Machines)
    → has machines id ≡ true
    → is_former id machines ≡ true
    → load_machine_identities (machines_file (sort_by by_id machines)) ≢ ok r
written_unreadable machines id r present former e =
    let file = machines_file (sort_by by_id machines) in
    let there =
      has-file id (sort_by by_id machines)
      ∙ has-any (sort_by by_id machines) id
      ∙ sort_by-any by_id (λ entry. entry.0 == id) machines
      ∙ sym (has-any machines id)
      ∙ present in
    let former' =
      former_in-file id (sort_by by_id machines)
      ∙ sort_by-any by_id (λ entry. contains entry.1.legacy_machine_ids id) machines
      ∙ former in
    cc (load_machine_identities-apart file r id e former', there)

-- The machine asked for, where neither the alias nor the fingerprint has an owner.
choose_machine-unowned :
    (now : String) (machines : Machines) (requested : String) (source : IdentitySource)
    (fingerprint : Option String) (cores : ℕ) (memory_gb : Option ℕ)
    → choose_machine now machines requested source none none fingerprint cores memory_gb
      ≡ ok (requested, machines, false)
unfolding choose_machine merge_all fingerprint_machine_id
choose_machine-unowned now machines requested explicit fingerprint cores memory_gb = refl
choose_machine-unowned now machines requested legacy_name fingerprint cores memory_gb = refl

-- A server whose names no machine owns, before it is entered.
pub record IsUnowned (project_id : String) (raw server : Server) (id : String) (machines : Machines)
    : Type 0 where
  pub normalized : normalize_server_identity raw ≡ ok server
  pub asks_for : get_or server.machine_id server.name ≡ id
  pub alias : String
  pub has_alias : machine_alias project_id server.name ≡ ok alias
  pub alias_owner : machine_alias_owner machines alias ≡ ok none
  pub fingerprint_owner : machine_fingerprint_owner machines server.machine_fingerprint ≡ ok none
  pub unknown : has machines id ≡ false

enter_server-unowned :
    (now project_id : String) (raw server : Server) (id : String) (machines last : Machines)
    (told_server : Server) (changed : Bool)
    → IsUnowned project_id raw server id machines
    → enter_server now project_id raw machines ≡ ok (last, told_server, changed)
    → (machine : Machine) × (last ≡ put machines id machine) × (changed ≡ true)
unfolding enter_server entered
enter_server-unowned now project_id raw server id machines last told_server changed u e =
    let e1 = rw (u.normalized, u.has_alias) at e in
    let (_, e2) = passed (server.configured_cores == 0) _ _ e1 in
    let (_, e3) = passed (is_zero_memory server.configured_memory_gb) _ _ e2 in
    let e4 =
      rw
        (
          u.alias_owner,
          u.fingerprint_owner,
          choose_machine-unowned now machines (get_or server.machine_id server.name)
              (get_or server.machine_id_source explicit) server.machine_fingerprint
              server.configured_cores server.configured_memory_gb,
          u.asks_for,
          get-absent machines id u.unknown,
        )
        at e3 in
    let same_answer = ok_injective _ _ e4 in
    (_, sym (ap (λ answer. answer.0) same_answer), sym (ap (λ answer. answer.2) same_answer))

-- A server that is entered under an id which is a former id of a machine, because neither its alias
-- nor its fingerprint has an owner, leaves a registry file that no later call can read.
pub ensure_machine_identities-former_id :
    (now project_id id : String) (raw server : Server) (file file' : Dict String StoredMachine)
    (machines last r : Machines) (told_servers : List Server)
    → load_machine_identities file ≡ ok machines
    → IsUnowned project_id raw server id machines
    → is_former id machines ≡ true
    → ensure_machine_identities now project_id (raw ∷ []) file ≡ ok (last, told_servers, file')
    → load_machine_identities file' ≢ ok r
unfolding ensure_machine_identities enter_servers
ensure_machine_identities-former_id now project_id id raw server file file' machines last r
      told_servers read u former e =
    let e1 = rw read at e in
    let (answer, enrolled, e2) =
      >>=-eq-ok (enter_server now project_id raw machines >>= λ x. ok (x.0, x.1 ∷ [], x.2 || false))
        _ e1 in
    let (turn, one, e3) = >>=-eq-ok (enter_server now project_id raw machines) _ enrolled in
    let (machine, same_machines, same_flag) =
      enter_server-unowned now project_id raw server id machines turn.0 turn.1 turn.2 u one in
    let written = put machines id machine in
    let same_file : file' ≡ machines_file (sort_by by_id written) =
      sym (ap (λ x. x.2) (ok_injective _ _ e2))
      ∙ sym (
          ap
            (λ (x : Machines × List Server × Bool).
              if x.2 then machines_file (sort_by by_id x.0) else file)
            (ok_injective _ _ e3))
      ∙ ap (λ flag. if flag || false then machines_file (sort_by by_id turn.0) else file) same_flag
      ∙ ap (λ ms. machines_file (sort_by by_id ms)) same_machines in
    λ loads.
      written_unreadable written id r (has-put_self machines id machine)
        (any-put (λ entry. contains entry.1.legacy_machine_ids id) machines id machine u.unknown
          ∙ ap (λ b. b || contains machine.legacy_machine_ids id) former)
        (subst (λ f. load_machine_identities f ≡ ok r) same_file loads)
