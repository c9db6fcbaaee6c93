-- ===== src/Lease/Acquire.antt =====
-- registry.py: `_acquire_server_lease`, `acquire_dispatch_lease` and `acquire_maintenance_lease`.
pub mod Grants
use mathlib.Core.Option
use codex_remote_runner.Prelude.{
  ltb, if◌then◌else◌, ◌==◌, nat_eq, string_eq, value_error, Result, ok, ◌>>=◌, ◌>>◌, raise_if, Dict,
  get, has, put, remove, get_or, ℕ, ◌+◌, ◌*◌, String, Bool, true, false, not, ◌&&◌, Option, none,
  some, List, [], ◌∷◌, map,
}
use codex_remote_runner.Text.{is_project_id}
use codex_remote_runner.Machines.{resolve_machine_request}
use codex_remote_runner.Lease.Record.{
  Kind, dispatch, maintenance, is_dispatch, Lease, Scheduler, load_server_lease, lease_path,
  lease_paths_for_machine,
}
use codex_remote_runner.Lease.Drain.{canonicalize_drains}

pub record LeaseOwnership : Type 0 where
  pub machine_id : String
  pub server : String
  pub project_id : String
  pub run_id : String
  pub token : String
  pub expires_at : ℕ

-- What is known of the records that own a lease: `queue_gone` if the run has no queue entry in the
-- project, `has_config` if the project has a configuration, `registry_gone` if no execution record
-- is there. `none` stands for a read that fails.
pub record Authority : Type 0 where
  pub queue_gone : (project_id run_id : String) → Option Bool
  pub has_config : (project_id : String) → Bool
  pub registry_gone : (project_id run_id : String) → Option Bool

-- Any failure to read counts as authority that is still there.
unfoldable pub dispatch_lease_authority_gone :
    Authority → (project_id run_id : String) → Kind → Bool
dispatch_lease_authority_gone authority project_id run_id maintenance = false
dispatch_lease_authority_gone authority project_id run_id dispatch =
    if not (is_project_id project_id)
    then false
    else if not (get_or (authority.queue_gone project_id run_id) false)
    then false
    else if not (authority.has_config project_id)
    then true
    else get_or (authority.registry_gone project_id run_id) false

-- A lease that a new one may replace: it has run out, and if it is for a dispatch it is the same
-- run's, or nothing is left of the run that had it.
unfoldable pub is_stale : Authority → (project_id run_id : String) (now : ℕ) → Lease → Bool
unfolding dispatch_lease_authority_gone
is_stale authority project_id run_id now existing =
    if ltb now existing.expires_at
    then false
    else not (
        is_dispatch existing.kind
        && (not (existing.project_id == project_id && existing.run_id == run_id)
            && not (
                dispatch_lease_authority_gone authority existing.project_id existing.run_id
                  existing.kind)))

-- The loop over the machine's files: the stale ones, or nothing if one of them blocks.
unfoldable pub stale_paths :
    Authority
    → (project_id run_id : String) (now : ℕ) → Dict String Lease
    → List String
    → Result (Option (List String))
unfolding is_stale load_server_lease
stale_paths authority project_id run_id now leases [] = ok (some [])
stale_paths authority project_id run_id now leases (path ∷ paths) =
    let rest = stale_paths authority project_id run_id now leases paths in
    elim (get leases path) [
      | none ↦ rest
      | some file ↦ do
        existing ← load_server_lease path file
        if is_stale authority project_id run_id now existing
            then (do others ← rest; ok (Option.map (λ found. path ∷ found) others))
            else ok none
    ]

-- unlink of each path
abbrev pub unlink_all : Dict String Lease → List String → Dict String Lease
unlink_all leases [] = leases
unlink_all leases (path ∷ paths) = unlink_all (remove leases path) paths

-- The arguments of an acquisition.
pub record Claim : Type 0 where
  pub project_id : String
  pub server : String
  pub machine_id : Option String
  pub run_id : String
  pub ttl_seconds : ℕ
  pub kind : Kind
  pub allow_drained : Bool

abbrev pub second : ℕ
second = 1000000

-- The lease that is written.
unfoldable pub new_lease : Claim → (lease_machine_id token : String) (now : ℕ) → Lease
new_lease claim lease_machine_id token now = record {
  schema_version = 2;
  server = claim.server;
  machine_id = lease_machine_id;
  project_id = claim.project_id;
  run_id = claim.run_id;
  kind = claim.kind;
  owner_token = some token;
  created_at = now;
  heartbeat_at = some now;
  expires_at = now + claim.ttl_seconds * second;
}

-- The write of the lease, once nothing blocks.
unfoldable pub grant :
    Claim
    → (lease_machine_id token : String) (now : ℕ) → Scheduler
    → Option (List String)
    → Scheduler × Option LeaseOwnership
unfolding new_lease
grant claim lease_machine_id token now scheduler none = (scheduler, none)
grant claim lease_machine_id token now scheduler (some stale) = (
  record scheduler {
    leases =
        put (unlink_all scheduler.leases stale) lease_machine_id
          (new_lease claim lease_machine_id token now);
  },
  some (record {
    machine_id = lease_machine_id;
    server = claim.server;
    project_id = claim.project_id;
    run_id = claim.run_id;
    token = token;
    expires_at = now + claim.ttl_seconds * second;
  }),
)

unfoldable pub acquire_server_lease :
    Authority
    → Scheduler
    → Claim
    → (now : ℕ) (token : String) → Result (Scheduler × Option LeaseOwnership)
unfolding resolve_machine_request lease_path canonicalize_drains lease_paths_for_machine stale_paths
    grant
acquire_server_lease authority scheduler claim now token = do
  raise_if (claim.ttl_seconds == 0) (value_error "dispatch lease TTL must be positive")
  lease_machine_id ←
      resolve_machine_request scheduler.machines claim.project_id claim.server
        (get_or claim.machine_id claim.server)
  path ← lease_path lease_machine_id
  drained ←
      (if claim.allow_drained then ok false else (do
        (drains, _) ← canonicalize_drains scheduler.machines scheduler.drains [] false
        ok (has drains lease_machine_id)))
  if drained then ok (scheduler, none) else do
    paths ← lease_paths_for_machine scheduler.machines lease_machine_id
    stale ← stale_paths authority claim.project_id claim.run_id now scheduler.leases paths
    ok (grant claim lease_machine_id token now scheduler stale)

unfoldable pub acquire_dispatch_lease :
    Authority
    → Scheduler
    → (project_id server : String) (machine_id : Option String) (run_id : String)
      (ttl_seconds now : ℕ) (token : String)
    → Result (Scheduler × Option LeaseOwnership)
unfolding acquire_server_lease
acquire_dispatch_lease authority scheduler project_id server machine_id run_id ttl_seconds now
      token =
    acquire_server_lease authority scheduler
      (record {
        project_id = project_id;
        server = server;
        machine_id = machine_id;
        run_id = run_id;
        ttl_seconds = ttl_seconds;
        kind = dispatch;
        allow_drained = false;
      })
      now token

unfoldable pub acquire_maintenance_lease :
    Authority
    → Scheduler
    → (project_id server : String) (machine_id : Option String) (run_id : String)
      (ttl_seconds now : ℕ) (token : String)
    → Result (Scheduler × Option LeaseOwnership)
unfolding acquire_server_lease
acquire_maintenance_lease authority scheduler project_id server machine_id run_id ttl_seconds now
      token =
    acquire_server_lease authority scheduler
      (record {
        project_id = project_id;
        server = server;
        machine_id = machine_id;
        run_id = run_id;
        ttl_seconds = ttl_seconds;
        kind = maintenance;
        allow_drained = true;
      })
      now token
