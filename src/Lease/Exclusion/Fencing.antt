-- ===== src/Lease/Exclusion/Fencing.antt =====
-- registry.py: renewals after another acquisition.
use codex_remote_runner.Prelude.{
  Bool-cases, ◌==◌, nat_eq, string_eq, beq_of_ne, ok, >>=-eq-ok, ok_injective, passed, get, ℕ,
  String, ◌≡◌, refl, sym, ap, ◌∙◌, subst, ◌≢◌, inl, inr, true, false, Option, none, some, arith,
}
use codex_remote_runner.Lease.Acquire.Grants.{acquire_server_lease-Granted, new_lease-stored}
use codex_remote_runner.Lease.Exclusion.{lease_path-eq, load-schema2, new_lease-schema}
use codex_remote_runner.Lease.Record.{Lease, Scheduler, load_server_lease, lease_path}
use codex_remote_runner.Lease.Acquire.{
  LeaseOwnership, Authority, Claim, new_lease, acquire_server_lease,
}
use codex_remote_runner.Lease.Release.{is_owned, renew_dispatch_lease}

renew-owned :
    (s s' : Scheduler) (project_id : String) (o o' : LeaseOwnership) (ttl now : ℕ) (file : Lease)
    → get s.leases o.machine_id ≡ some file
    → renew_dispatch_lease s project_id o ttl now ≡ ok (s', some o')
    → (lease : Lease) × (load_server_lease o.machine_id file ≡ ok lease)
      × (is_owned project_id o lease ≡ true)
unfolding renew_dispatch_lease
renew-owned s s' project_id o o' ttl now file stored h =
    let (_, h1) = passed (ttl == 0) _ _ h in
    let (path, own, h2) = >>=-eq-ok (lease_path o.machine_id) _ h1 in
    let same = lease_path-eq o.machine_id path own in
    let (lease, loaded, h3) =
      >>=-eq-ok (load_server_lease path file) _
        (rw (ap (λ x. get s.leases x) same ∙ stored) at h2) in
    (
      lease,
      subst (λ x. load_server_lease x file ≡ ok lease) same loaded,
      elim (Bool-cases (is_owned project_id o lease)) [
        | inl held ↦ held
        | inr not_held ↦ absurd (nothing (ok_injective _ _ (rw not_held at h3)))
      ],
    )
  where
    nothing : ◌≡◌ {A = Scheduler × Option LeaseOwnership} (s, none) (s', some o') → ⊥
    nothing e = cc

foreign_token :
    (project_id : String) (o : LeaseOwnership) (lease : Lease) (token : String)
    → lease.owner_token ≡ some token
    → token ≢ o.token
    → is_owned project_id o lease ≡ false
unfolding is_owned
foreign_token project_id o lease token e ne = ground (arith, beq_of_ne token o.token ne)

new_lease-token :
    (claim : Claim) (id token : String) (now : ℕ)
    → (new_lease claim id token now).owner_token ≡ some token
unfolding new_lease
new_lease-token claim id token now = refl

-- Directly after an acquisition of a machine, an ownership of the same machine with another token
-- cannot be renewed.
pub renew_dispatch_lease-fenced :
    (authority : Authority) (s s' s'' : Scheduler) (claim : Claim) (now later ttl : ℕ)
    (token project_id : String) (o old old' : LeaseOwnership)
    → acquire_server_lease authority s claim now token ≡ ok (s', some o)
    → old.machine_id ≡ o.machine_id
    → token ≢ old.token
    → renew_dispatch_lease s' project_id old ttl later ≢ ok (s'', some old')
renew_dispatch_lease-fenced authority s s' s'' claim now later ttl token project_id o old old' h
      same ne k =
    let g = acquire_server_lease-Granted authority s s' claim now token o h in
    let stored =
      subst (λ x. get s'.leases x ≡ some (new_lease claim o.machine_id token now)) (sym same)
        (new_lease-stored authority s s' claim now token o g) in
    let (lease, loaded, owned) =
      renew-owned s' s'' project_id old old' ttl later (new_lease claim o.machine_id token now)
        stored k in
    let same_lease =
      load-schema2 old.machine_id (new_lease claim o.machine_id token now) lease
        (new_lease-schema claim o.machine_id token now) loaded in
    let foreign =
      foreign_token project_id old lease token
        (ap (λ x. x.owner_token) same_lease ∙ new_lease-token claim o.machine_id token now) ne in
    cc
