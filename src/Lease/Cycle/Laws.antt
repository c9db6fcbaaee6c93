-- ===== src/Lease/Cycle/Laws.antt =====
-- registry.py: `_acquire_server_lease` and `release_dispatch_lease` in sequence.
use codex_remote_runner.Lease.Drain.{canonicalize_drains}
use codex_remote_runner.Prelude.{
  All, All-imp, contains, string_eq, ◌==◌, nat_eq, beq_self, value_error, ok, ◌>>=◌, raise_if,
  >>=-ok, Dict, get, has, remove, get-put, get-remove, get_or, ℕ, String, ◌≡◌, refl, sym, ap, ◌∙◌,
  subst, Bool, true, false, none, some, List, [], ◌∷◌, arith,
}
use codex_remote_runner.Machines.{resolve_machine_request}
use codex_remote_runner.Machines.Canonical.{resolve_machine_request-canonical}
use codex_remote_runner.Lease.Record.{
  Lease, Scheduler, load_server_lease, lease_path, lease_paths_for_machine,
}
use codex_remote_runner.Lease.Acquire.{
  LeaseOwnership, Authority, stale_paths, unlink_all, Claim, new_lease, grant, acquire_server_lease,
}
use codex_remote_runner.Lease.Acquire.Grants.{
  read_drained, acquire_server_lease-Granted, new_lease-stored,
}
use codex_remote_runner.Lease.Release.{releases, matching_paths, release_dispatch_lease}
use codex_remote_runner.Lease.Cycle.{
  get-unlink_all, lease_paths-IsOwnFirst, IsCleared, stale_paths-IsCleared, IsClaim,
  lease_path-valid, new_lease-loads, matching_paths-none, new_lease-releases, others_gone,
}

-- What a release of the lease that was just acquired leaves.
pub record IsReturned (s s' : Scheduler) (claim : Claim) (token : String) (id : String)
    : Type 0 where
  pub after : Scheduler
  pub paths : List String
  pub released :
      release_dispatch_lease s' claim.project_id claim.server claim.run_id claim.machine_id
        (some token)
      ≡ ok (after, true)
  pub files : lease_paths_for_machine s.machines id ≡ ok paths
  pub gone : All (λ path. get after.leases path ≡ none) paths
  pub others :
      (other : String) → contains paths other ≡ false → get after.leases other ≡ get s.leases other
  pub same_machines : after.machines ≡ s.machines
  pub same_drains : after.drains ≡ s.drains

matching_paths-own :
    (claim : Claim) (id token : String) (now : ℕ) (leases : Dict String Lease) (rest : List String)
    → get leases id ≡ some (new_lease claim id token now)
    → load_server_lease id (new_lease claim id token now) ≡ ok (new_lease claim id token now)
    → All (λ path. get leases path ≡ none) rest
    → matching_paths (releases claim.project_id claim.run_id (some token)) leases (id ∷ rest)
      ≡ ok (id ∷ [])
unfolding matching_paths
matching_paths-own claim id token now leases rest stored loads gone =
    let wanted = releases claim.project_id claim.run_id (some token) in
    rw (stored, matching_paths)
      (>>=-ok _ loads
        ∙ >>=-ok _ (matching_paths-none wanted leases rest gone)
        ∙ rw (new_lease-releases claim id token now) refl)

-- Let the server and the project of a claim have valid names, its run id be neither empty nor hold
-- a NUL, its token be 64 hexadecimal digits, and the clock not be at 0. Then a lease that is acquired
-- for it can be given back with its token: the release returns, and says that it
-- did. The machine's own file is then gone, and so are the files of its former ids; every other
-- lease file is as it was before the acquisition, and so are the machines and the drains.
pub acquire_server_lease-release_dispatch_lease :
    (authority : Authority) (s s' : Scheduler) (claim : Claim) (now : ℕ) (token : String)
    (o : LeaseOwnership)
    → IsClaim claim token now
    → acquire_server_lease authority s claim now token ≡ ok (s', some o)
    → IsReturned s s' claim token o.machine_id
unfolding release_dispatch_lease
acquire_server_lease-release_dispatch_lease authority s s' claim now token o c e =
    let g = acquire_server_lease-Granted authority s s' claim now token o e in
    let id = o.machine_id in
    let canon =
      resolve_machine_request-canonical s.machines claim.project_id claim.server
        (get_or claim.machine_id claim.server) id g.resolved in
    let f = lease_paths-IsOwnFirst s.machines id g.paths canon g.files in
    let (cleared, only) =
      stale_paths-IsCleared authority claim.project_id claim.run_id now s.leases g.paths g.stale
        g.replaces in
    let own_cleared = subst (All (IsCleared s.leases g.stale)) f.own_first cleared in
    let gone =
      others_gone authority s s' claim now token o g f.rest own_cleared.1 f.others_differ in
    let loads = new_lease-loads claim id token now c (lease_path-valid id f.has_path) g.positive in
    let stored = new_lease-stored authority s s' claim now token o g in
    let same_machines = ap (λ x. x.machines) g.writes in
    record {
      after = record s' { leases = remove s'.leases id };
      paths = g.paths;
      released =
          >>=-ok _ (
            ap
              (λ m.
                resolve_machine_request m claim.project_id claim.server
                  (get_or claim.machine_id claim.server))
              same_machines
            ∙ g.resolved)
          ∙ >>=-ok _
              (ap (λ m. lease_paths_for_machine m id) same_machines ∙ g.files ∙ ap ok f.own_first)
          ∙ >>=-ok _ (matching_paths-own claim id token now s'.leases f.rest stored loads gone);
      files = g.files;
      gone = subst (All (λ path. get (remove s'.leases id) path ≡ none)) (sym f.own_first) (
        get-remove s'.leases id id ∙ rw (beq_self id) refl,
        All-imp (λ path. get s'.leases path ≡ none) (λ path. get (remove s'.leases id) path ≡ none)
            (λ path q. get-remove s'.leases id path ∙ ground (arith, q)) f.rest gone,
      );
      others = λ other absent.
          let apart : (id == other) ≡ false =
            ground (arith, subst (λ p. contains p other ≡ false) f.own_first absent) in
          get-remove s'.leases id other
          ∙ rw apart (
              ap (λ x. get x.leases other) g.writes
              ∙ get-put (unlink_all s.leases g.stale) id other (new_lease claim id token now)
              ∙ rw apart (get-unlink_all s.leases g.stale other ∙ rw (only other absent) refl));
      same_machines = same_machines;
      same_drains = ap (λ x. x.drains) g.writes;
    }

stale_paths-none :
    (authority : Authority) (project_id run_id : String) (now : ℕ) (leases : Dict String Lease)
    (paths : List String)
    → All (λ path. get leases path ≡ none) paths
    → stale_paths authority project_id run_id now leases paths ≡ ok (some [])
unfolding stale_paths
stale_paths-none authority project_id run_id now leases [] h = refl
stale_paths-none authority project_id run_id now leases (path ∷ paths) (gone, h) =
    rw (gone, stale_paths) (stale_paths-none authority project_id run_id now leases paths h)

-- A machine that nothing holds is given to whoever asks.
free_machine :
    (authority : Authority) (s : Scheduler) (claim : Claim) (now : ℕ) (token id : String)
    (paths : List String)
    → (claim.ttl_seconds == 0) ≡ false
    → resolve_machine_request s.machines claim.project_id claim.server
        (get_or claim.machine_id claim.server)
      ≡ ok id
    → lease_path id ≡ ok id
    → read_drained s claim.allow_drained id ≡ ok false
    → lease_paths_for_machine s.machines id ≡ ok paths
    → All (λ path. get s.leases path ≡ none) paths
    → (s' : Scheduler) × (o : LeaseOwnership) × (acquire_server_lease authority s claim now token
        ≡ ok (s', some o))
      × (o.machine_id ≡ id)
      × (o.token ≡ token)
unfolding acquire_server_lease grant
free_machine authority s claim now token id paths positive resolved path drained files gone = (
  _,
  _,
  >>=-ok _ (ap (λ b. raise_if b (value_error "dispatch lease TTL must be positive")) positive)
      ∙ >>=-ok _ resolved
      ∙ >>=-ok _ path
      ∙ >>=-ok _ drained
      ∙ >>=-ok _ files
      ∙ >>=-ok _ (stale_paths-none authority claim.project_id claim.run_id now s.leases paths gone),
  refl,
  refl,
)

-- The drains are read from the machines and the drains only.
pub drained_after :
    (after s : Scheduler) (allowed : Bool) (id : String)
    → after.machines ≡ s.machines
    → after.drains ≡ s.drains
    → read_drained s allowed id ≡ ok false
    → read_drained after allowed id ≡ ok false
drained_after after s true id m d h = h
drained_after after s false id m d h =
    ap (λ ms. canonicalize_drains ms after.drains [] false >>= λ found. ok (has found.0 id)) m
    ∙ ap (λ ds. canonicalize_drains s.machines ds [] false >>= λ found. ok (has found.0 id)) d
    ∙ h

-- For a claim with valid names of the server and the project, a run id that is neither empty nor holds
-- a NUL, a token of 64 hexadecimal digits and a clock that is not at 0, no machine is lost to its
-- lease: once it is given back, any other claim of a positive duration that is resolved to the machine
-- is granted, at any time and whatever is known of the first run, unless the machine is drained.
pub acquire_server_lease-again :
    (authority authority' : Authority) (s s' : Scheduler) (claim claim' : Claim) (now later : ℕ)
    (token token' : String) (o : LeaseOwnership)
    → IsClaim claim token now
    → acquire_server_lease authority s claim now token ≡ ok (s', some o)
    → (claim'.ttl_seconds == 0) ≡ false
    → resolve_machine_request s.machines claim'.project_id claim'.server
        (get_or claim'.machine_id claim'.server)
      ≡ ok o.machine_id
    → read_drained s claim'.allow_drained o.machine_id ≡ ok false
    → (after last : Scheduler) × (o' : LeaseOwnership) × (release_dispatch_lease s' claim.project_id
          claim.server claim.run_id claim.machine_id
          (some token)
        ≡ ok (after, true))
      × (acquire_server_lease authority' after claim' later token' ≡ ok (last, some o'))
      × (o'.machine_id ≡ o.machine_id)
      × (o'.token ≡ token')
acquire_server_lease-again authority authority' s s' claim claim' now later token token' o c e
      positive resolved drained =
    let g = acquire_server_lease-Granted authority s s' claim now token o e in
    let r = acquire_server_lease-release_dispatch_lease authority s s' claim now token o c e in
    let id = o.machine_id in
    let canon =
      resolve_machine_request-canonical s.machines claim.project_id claim.server
        (get_or claim.machine_id claim.server) id g.resolved in
    let f = lease_paths-IsOwnFirst s.machines id g.paths canon g.files in
    let (last, o', acquired, same_id, same_token) =
      free_machine authority' r.after claim' later token' id r.paths positive
        (ap
            (λ m.
              resolve_machine_request m claim'.project_id claim'.server
                (get_or claim'.machine_id claim'.server))
            r.same_machines
          ∙ resolved)
        f.has_path
        (drained_after r.after s claim'.allow_drained id r.same_machines r.same_drains drained)
        (ap (λ m. lease_paths_for_machine m id) r.same_machines ∙ r.files) r.gone in
    (r.after, last, o', r.released, acquired, same_id, same_token)
