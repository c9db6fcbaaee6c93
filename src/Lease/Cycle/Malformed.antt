-- ===== src/Lease/Cycle/Malformed.antt =====
-- registry.py: `_acquire_server_lease` for a run id that `load_server_lease` refuses.
use codex_remote_runner.Prelude.{
  is_empty, string_eq, ◌==◌, nat_eq, beq_self, Error, value_error, malformed_lease, Result, err, ok,
  ◌>>=◌, raise_if, >>=-ok, Dict, get, get_or, ℕ, String, ◌≡◌, refl, ap, ◌∙◌, Bool, true, false,
  some, List, ◌∷◌,
}
use codex_remote_runner.Text.{codes, is_project_id, is_machine_id}
use codex_remote_runner.Machines.{resolve_machine_request}
use codex_remote_runner.Machines.Canonical.{resolve_machine_request-canonical}
use codex_remote_runner.Lease.Record.{Lease, Scheduler, load_server_lease, lease_paths_for_machine}
use codex_remote_runner.Lease.Acquire.{
  LeaseOwnership, Authority, stale_paths, Claim, new_lease, acquire_server_lease,
}
use codex_remote_runner.Lease.Acquire.Grants.{
  read_drained, acquire_server_lease-Granted, new_lease-stored,
}
use codex_remote_runner.Lease.Release.{releases, matching_paths, release_dispatch_lease}
use codex_remote_runner.Lease.Cycle.{lease_paths-IsOwnFirst, lease_path-valid}
use codex_remote_runner.Lease.Cycle.Laws.{drained_after}

refused_lease :
    (claim : Claim) (id token : String) (now : ℕ)
    → is_machine_id id ≡ true
    → is_project_id claim.server ≡ true
    → is_project_id claim.project_id ≡ true
    → is_empty (codes claim.run_id) ≡ true
    → load_server_lease id (new_lease claim id token now) ≡ err (malformed_lease "invalid run_id")
unfolding load_server_lease new_lease
refused_lease claim id token now valid server project empty =
    rw (server, valid, beq_self id, project, empty) refl

>>=-err :
    {R S : Type 0} (call : Result R) (next : R → Result S) (e : Error)
    → call ≡ err e
    → (call >>= next) ≡ err e
>>=-err call next e h = ap (λ c. c >>= next) h

matching_paths-refused :
    (wanted : Lease → Bool) (leases : Dict String Lease) (id : String) (rest : List String)
    (file : Lease) (e : Error)
    → get leases id ≡ some file
    → load_server_lease id file ≡ err e
    → matching_paths wanted leases (id ∷ rest) ≡ err e
unfolding matching_paths
matching_paths-refused wanted leases id rest file e stored refused =
    rw (stored, matching_paths) (>>=-err _ _ e refused)

stale_paths-refused :
    (authority : Authority) (project_id run_id : String) (now : ℕ) (leases : Dict String Lease)
    (id : String) (rest : List String) (file : Lease) (e : Error)
    → get leases id ≡ some file
    → load_server_lease id file ≡ err e
    → stale_paths authority project_id run_id now leases (id ∷ rest) ≡ err e
unfolding stale_paths
stale_paths-refused authority project_id run_id now leases id rest file e stored refused =
    rw (stored, stale_paths) (>>=-err _ _ e refused)

-- An acquisition does not look at the run id. If it is empty, the lease that is acquired cannot be
-- read: giving it back raises, and so does every later acquisition of a positive duration that is
-- resolved to the machine, unless the machine is drained. The server and the project of the claim
-- have valid names.
pub acquire_server_lease-malformed :
    (authority authority' : Authority) (s s' : Scheduler) (claim claim' : Claim) (now later : ℕ)
    (token token' : String) (o : LeaseOwnership)
    → is_project_id claim.server ≡ true
    → is_project_id claim.project_id ≡ true
    → is_empty (codes claim.run_id) ≡ true
    → acquire_server_lease authority s claim now token ≡ ok (s', some o)
    → (claim'.ttl_seconds == 0) ≡ false
    → resolve_machine_request s.machines claim'.project_id claim'.server
        (get_or claim'.machine_id claim'.server)
      ≡ ok o.machine_id
    → read_drained s claim'.allow_drained o.machine_id ≡ ok false
    → (release_dispatch_lease s' claim.project_id claim.server claim.run_id claim.machine_id
          (some token)
        ≡ err (malformed_lease "invalid run_id"))
      × (acquire_server_lease authority' s' claim' later token'
          ≡ err (malformed_lease "invalid run_id"))
unfolding release_dispatch_lease acquire_server_lease matching_paths stale_paths
acquire_server_lease-malformed authority authority' s s' claim claim' now later token token' o
      server project empty e positive resolved drained =
    let g = acquire_server_lease-Granted authority s s' claim now token o e in
    let id = o.machine_id in
    let canon =
      resolve_machine_request-canonical s.machines claim.project_id claim.server
        (get_or claim.machine_id claim.server) id g.resolved in
    let f = lease_paths-IsOwnFirst s.machines id g.paths canon g.files in
    let stored = new_lease-stored authority s s' claim now token o g in
    let unreadable =
      refused_lease claim id token now (lease_path-valid id f.has_path) server project empty in
    let same_machines = ap (λ x. x.machines) g.writes in
    let files : lease_paths_for_machine s'.machines id ≡ ok (id ∷ f.rest) =
      ap (λ m. lease_paths_for_machine m id) same_machines ∙ g.files ∙ ap ok f.own_first in
    (
      >>=-ok _ (
            ap
              (λ m.
                resolve_machine_request m claim.project_id claim.server
                  (get_or claim.machine_id claim.server))
              same_machines
            ∙ g.resolved)
          ∙ >>=-ok _ files
          ∙ >>=-err _ _ _ (
              matching_paths-refused (releases claim.project_id claim.run_id (some token)) s'.leases
                id f.rest (new_lease claim id token now) _ stored unreadable),
      >>=-ok _ (ap (λ b. raise_if b (value_error "dispatch lease TTL must be positive")) positive)
          ∙ >>=-ok _ (
              ap
                (λ m.
                  resolve_machine_request m claim'.project_id claim'.server
                    (get_or claim'.machine_id claim'.server))
                same_machines
              ∙ resolved)
          ∙ >>=-ok _ f.has_path
          ∙ >>=-ok _ (
              drained_after s' s claim'.allow_drained id same_machines (ap (λ x. x.drains) g.writes)
                drained)
          ∙ >>=-ok _ files
          ∙ >>=-err _ _ _ (
              stale_paths-refused authority' claim'.project_id claim'.run_id later s'.leases id
                f.rest (new_lease claim id token now) _ stored unreadable),
    )
