-- ===== src/Lease/Acquire/Grants.antt =====
-- registry.py: `_acquire_server_lease`, when it gives a lease.
use codex_remote_runner.Prelude.{
  if◌then◌else◌, ◌==◌, nat_eq, string_eq, Result, ok, ◌>>=◌, >>=-eq-ok, ok_injective, passed, Dict,
  get, has, put, get-put_self, get_or, ℕ, ◌+◌, ◌*◌, String, ◌≡◌, refl, sym, ap, ◌∙◌, subst, Bool,
  true, false, Option, none, some, List, [], arith,
}
use codex_remote_runner.Machines.{resolve_machine_request}
use codex_remote_runner.Lease.Record.{DrainMark, Scheduler, lease_path, lease_paths_for_machine}
use codex_remote_runner.Lease.Drain.{canonicalize_drains}
use codex_remote_runner.Lease.Acquire.{
  LeaseOwnership, Authority, stale_paths, unlink_all, Claim, second, new_lease, grant,
  acquire_server_lease,
}

-- The parts of an acquisition that gave a lease.
pub record Granted (authority : Authority) (s s' : Scheduler) (claim : Claim) (now : ℕ)
    (token : String) (o : LeaseOwnership) : Type 0 where
  pub positive : (claim.ttl_seconds == 0) ≡ false
  pub resolved :
      resolve_machine_request s.machines claim.project_id claim.server
        (get_or claim.machine_id claim.server)
      ≡ ok o.machine_id
  pub paths : List String
  pub files : lease_paths_for_machine s.machines o.machine_id ≡ ok paths
  pub stale : List String
  pub replaces :
      stale_paths authority claim.project_id claim.run_id now s.leases paths ≡ ok (some stale)
  pub writes : s' ≡ record s {
    leases = put (unlink_all s.leases stale) o.machine_id (new_lease claim o.machine_id token now);
  }
  pub same_token : o.token ≡ token
  pub expiry : o.expires_at ≡ now + claim.ttl_seconds * second
  pub not_drained :
      claim.allow_drained ≡ false
      → (drains : Dict String DrainMark) (changed : Bool)
      → canonicalize_drains s.machines s.drains [] false ≡ ok (drains, changed)
      → has drains o.machine_id ≡ false

granted :
    (claim : Claim) (id token : String) (now : ℕ) (s s' : Scheduler) (stale : Option (List String))
    (o : LeaseOwnership)
    → ok (grant claim id token now s stale) ≡ ok (s', some o)
    → (found : List String) × (stale ≡ some found)
      × (o.machine_id ≡ id)
      × (s'
          ≡ record s { leases = put (unlink_all s.leases found) id (new_lease claim id token now) })
      × (o.token ≡ token)
      × (o.expires_at ≡ now + claim.ttl_seconds * second)
unfolding grant
granted claim id token now s s' none o h = absurd (none_granted (ok_injective _ _ h))
  where
    none_granted : ◌≡◌ {A = Scheduler × Option LeaseOwnership} (s, none) (s', some o) → ⊥
    none_granted e = cc
granted claim id token now s s' (some found) o h =
    (found, refl, ground arith, ground arith, ground arith, ground arith)

-- The drains that an acquisition reads.
abbrev pub read_drained : Scheduler → Bool → String → Result Bool
read_drained s allowed id =
    if allowed
    then ok false
    else (canonicalize_drains s.machines s.drains [] false >>= λ read. ok (has read.0 id))

read_drained-false :
    (s : Scheduler) (allowed : Bool) (id : String)
    → read_drained s allowed id ≡ ok false
    → allowed ≡ false
    → (drains : Dict String DrainMark) (changed : Bool)
    → canonicalize_drains s.machines s.drains [] false ≡ ok (drains, changed)
    → has drains id ≡ false
read_drained-false s allowed id h e drains changed c = ok_injective _ _ (rw (e, c) at h)

undrained :
    (authority : Authority) (s s' : Scheduler) (claim : Claim) (now : ℕ) (id token : String)
    (o : LeaseOwnership) (drained : Bool)
    → (if drained then ok (s, none) else (do
      paths ← lease_paths_for_machine s.machines id
      stale ← stale_paths authority claim.project_id claim.run_id now s.leases paths
      ok (grant claim id token now s stale)))
      ≡ ok (s', some o)
    → (drained ≡ false)
      × (paths : List String) × (lease_paths_for_machine s.machines id ≡ ok paths)
      × (stale : Option (List String)) × (stale_paths authority claim.project_id claim.run_id now
            s.leases paths
          ≡ ok stale)
      × (ok (grant claim id token now s stale) ≡ ok (s', some o))
undrained authority s s' claim now id token o true h = absurd (nothing (ok_injective _ _ h))
  where
    nothing : ◌≡◌ {A = Scheduler × Option LeaseOwnership} (s, none) (s', some o) → ⊥
    nothing e = cc
undrained authority s s' claim now id token o false h =
    let (paths, files, h1) = >>=-eq-ok (lease_paths_for_machine s.machines id) _ h in
    let (stale, replaces, h2) =
      >>=-eq-ok (stale_paths authority claim.project_id claim.run_id now s.leases paths) _ h1 in
    (refl, paths, files, stale, replaces, h2)

pub acquire_server_lease-Granted :
    (authority : Authority) (s s' : Scheduler) (claim : Claim) (now : ℕ) (token : String)
    (o : LeaseOwnership)
    → acquire_server_lease authority s claim now token ≡ ok (s', some o)
    → Granted authority s s' claim now token o
unfolding acquire_server_lease
acquire_server_lease-Granted authority s s' claim now token o h =
    let (positive, h1) = passed (claim.ttl_seconds == 0) _ _ h in
    let (id, resolved, h2) =
      >>=-eq-ok
        (resolve_machine_request s.machines claim.project_id claim.server
          (get_or claim.machine_id claim.server))
        _ h1 in
    let (path, _, h3) = >>=-eq-ok (lease_path id) _ h2 in
    let (drained, read, h4) = >>=-eq-ok (read_drained s claim.allow_drained id) _ h3 in
    let (live, paths, files, found, replaces, h5) =
      undrained authority s s' claim now id token o drained h4 in
    let (stale, some_stale, same, writes, same_token, expiry) =
      granted claim id token now s s' found o h5 in
    record {
      positive = positive;
      resolved = resolved ∙ ap ok (sym same);
      paths = paths;
      files = subst (λ x. lease_paths_for_machine s.machines x ≡ ok paths) (sym same) files;
      stale = stale;
      replaces = replaces ∙ ap ok some_stale;
      writes =
          subst
            (λ x. s' ≡ record s {
              leases = put (unlink_all s.leases stale) x (new_lease claim x token now);
            })
            (sym same) writes;
      same_token = same_token;
      expiry = expiry;
      not_drained =
          subst
            (λ x.
              claim.allow_drained ≡ false
              → (drains : Dict String DrainMark) (changed : Bool)
              → canonicalize_drains s.machines s.drains [] false ≡ ok (drains, changed)
              → has drains x ≡ false)
            (sym same) (read_drained-false s claim.allow_drained id (read ∙ ap ok live));
    }

-- The new lease is in the machine's own file.
pub new_lease-stored :
    (authority : Authority) (s s' : Scheduler) (claim : Claim) (now : ℕ) (token : String)
    (o : LeaseOwnership)
    → Granted authority s s' claim now token o
    → get s'.leases o.machine_id ≡ some (new_lease claim o.machine_id token now)
new_lease-stored authority s s' claim now token o g =
    ap (λ x. get x.leases o.machine_id) g.writes
    ∙ get-put_self (unlink_all s.leases g.stale) o.machine_id
        (new_lease claim o.machine_id token now)
