-- ===== src/Lease/Exclusion.antt =====
-- registry.py: a second acquisition of a machine by `_acquire_server_lease`.
pub mod Fencing
use codex_remote_runner.Prelude.{
  filter, unique, string_eq, ◌==◌, nat_eq, ok, >>=-eq-ok, ok_injective, Dict, get, get_or, ℕ, ◌+◌,
  ◌*◌, ◌<◌, String, ◌≡◌, refl, sym, ap, ◌∙◌, subst, ◌≢◌, false, not, some, List, ◌∷◌, arith,
}
use codex_remote_runner.Machines.{Machines, canonical_machine_id, resolve_machine_request}
use codex_remote_runner.Machines.Canonical.{resolve_machine_request-canonical}
use codex_remote_runner.Lease.Record.{
  Lease, Scheduler, load_server_lease, lease_path, legacy_ids, paths_of, lease_paths_for_machine,
}
use codex_remote_runner.Lease.Acquire.{
  LeaseOwnership, Authority, is_stale, stale_paths, Claim, second, new_lease, acquire_server_lease,
}
use codex_remote_runner.Lease.Acquire.Grants.{acquire_server_lease-Granted, new_lease-stored}

pub lease_path-eq : (id path : String) → lease_path id ≡ ok path → path ≡ id
unfolding lease_path
lease_path-eq id path h = ground arith

-- The machine's own file is the first that an acquisition looks at.
own_path_first :
    (machines : Machines) (id : String) (paths : List String)
    → canonical_machine_id machines id ≡ ok id
    → lease_paths_for_machine machines id ≡ ok paths
    → (rest : List String) × (paths ≡ id ∷ rest)
unfolding lease_paths_for_machine
own_path_first machines id paths c h =
    let (canonical, c', h1) = >>=-eq-ok (canonical_machine_id machines id) _ h in
    let (path, own, h2) = >>=-eq-ok (lease_path canonical) _ h1 in
    let (others, _, h3) =
      >>=-eq-ok
        (paths_of
          (filter (λ y. not (y == canonical)) (unique (legacy_ids (get machines canonical)))))
        _ h2 in
    (
      others,
      sym (ok_injective _ _ h3)
          ∙ ap (λ x. x ∷ others)
              (lease_path-eq canonical path own ∙ ok_injective canonical id (sym c' ∙ c)),
    )

pub load-schema2 :
    (stem : String) (file lease : Lease)
    → file.schema_version ≡ 2
    → load_server_lease stem file ≡ ok lease
    → lease ≡ file
unfolding load_server_lease
load-schema2 stem file lease two h = ground arith

live-is_stale :
    (authority : Authority) (project_id run_id : String) (now : ℕ) (lease : Lease)
    → now < lease.expires_at
    → is_stale authority project_id run_id now lease ≡ false
unfolding is_stale
live-is_stale authority project_id run_id now lease live = ground arith

-- A live lease in the first file blocks.
live_blocks :
    (authority : Authority) (project_id run_id : String) (now : ℕ) (leases : Dict String Lease)
    (path : String) (rest : List String) (file : Lease) (found : List String)
    → get leases path ≡ some file
    → file.schema_version ≡ 2
    → now < file.expires_at
    → stale_paths authority project_id run_id now leases (path ∷ rest) ≢ ok (some found)
unfolding stale_paths
live_blocks authority project_id run_id now leases path rest file found at two live h =
    let (existing, loaded, h1) =
      >>=-eq-ok (load_server_lease path file) _ (rw (at, stale_paths) at h) in
    let same = load-schema2 path file existing two loaded in
    let fresh = live-is_stale authority project_id run_id now existing (rw same live) in
    cc (rw fresh at h1)

pub new_lease-schema :
    (claim : Claim) (id token : String) (now : ℕ)
    → (new_lease claim id token now).schema_version ≡ 2
unfolding new_lease
new_lease-schema claim id token now = refl

new_lease-expiry :
    (claim : Claim) (id token : String) (now : ℕ)
    → (new_lease claim id token now).expires_at ≡ now + claim.ttl_seconds * second
unfolding new_lease
new_lease-expiry claim id token now = refl

-- Directly after an acquisition that gave a lease on a machine, no acquisition that is resolved to
-- the same machine gives a lease before the first one runs out, whatever the second one's project,
-- run, kind and alias are, and whatever it finds of the first run's records.
pub acquire_server_lease-excludes :
    (authority authority' : Authority) (s s' : Scheduler) (claim claim' : Claim) (now later : ℕ)
    (token token' : String) (o o' : LeaseOwnership) (s'' : Scheduler)
    → acquire_server_lease authority s claim now token ≡ ok (s', some o)
    → resolve_machine_request s.machines claim'.project_id claim'.server
        (get_or claim'.machine_id claim'.server)
      ≡ ok o.machine_id
    → later < o.expires_at
    → acquire_server_lease authority' s' claim' later token' ≢ ok (s'', some o')
acquire_server_lease-excludes authority authority' s s' claim claim' now later token token' o o' s''
      h r lt k =
    let g = acquire_server_lease-Granted authority s s' claim now token o h in
    let g' = acquire_server_lease-Granted authority' s' s'' claim' later token' o' k in
    let machines : s'.machines ≡ s.machines = ap (λ x. x.machines) g.writes in
    let resolved' =
      subst
        (λ m.
          resolve_machine_request m claim'.project_id claim'.server
            (get_or claim'.machine_id claim'.server)
          ≡ ok o'.machine_id)
        machines g'.resolved in
    let same : o.machine_id ≡ o'.machine_id = ok_injective _ _ (sym r ∙ resolved') in
    let stored =
      subst (λ x. get s'.leases x ≡ some (new_lease claim o.machine_id token now)) same
        (new_lease-stored authority s s' claim now token o g) in
    let (rest, first) =
      own_path_first s'.machines o'.machine_id g'.paths
        (resolve_machine_request-canonical s'.machines _ _ _ _ g'.resolved) g'.files in
    live_blocks authority' claim'.project_id claim'.run_id later s'.leases o'.machine_id rest
      (new_lease claim o.machine_id token now) g'.stale stored
      (new_lease-schema claim o.machine_id token now)
      (omega (arith, g.expiry, new_lease-expiry claim o.machine_id token now))
      (subst
        (λ x.
          stale_paths authority' claim'.project_id claim'.run_id later s'.leases x
          ≡ ok (some g'.stale))
        first g'.replaces)
