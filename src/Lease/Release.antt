-- ===== src/Lease/Release.antt =====
-- registry.py: `renew_dispatch_lease`, `release_dispatch_lease` and the lists of leases.
use codex_remote_runner.Prelude.{
  ltb, if◌then◌else◌, ◌==◌, nat_eq, string_eq, value_error, runtime_error, Result, ok, err, ◌>>=◌,
  ◌>>◌, raise_if, Dict, get, put, remove, get_or, is_none, is_some_text, ℕ, ◌+◌, ◌*◌, String, Bool,
  true, false, not, ◌&&◌, ◌||◌, Option, none, some, List, [], ◌∷◌,
}
use codex_remote_runner.Text.{str_le}
use codex_remote_runner.Machines.{Machines, resolve_machine_request}
use codex_remote_runner.Sort.{sort_by}
use codex_remote_runner.Lease.Record.{
  is_dispatch, Lease, Scheduler, load_server_lease, lease_path, lease_paths_for_machine,
}
use codex_remote_runner.Lease.Acquire.{LeaseOwnership, second}

-- The lease is the one that the ownership was given for.
unfoldable pub is_owned : (project_id : String) → LeaseOwnership → Lease → Bool
is_owned project_id ownership lease =
    lease.schema_version == 2
    && (is_dispatch lease.kind
        && (lease.project_id == project_id
            && (lease.run_id == ownership.run_id
                && (is_some_text ownership.token lease.owner_token
                    && lease.machine_id == ownership.machine_id))))

unfoldable pub renew_dispatch_lease :
    Scheduler
    → (project_id : String) → LeaseOwnership
    → (ttl_seconds now : ℕ) → Result (Scheduler × Option LeaseOwnership)
unfolding lease_path load_server_lease is_owned
renew_dispatch_lease scheduler project_id ownership ttl_seconds now = do
  raise_if (ttl_seconds == 0) (value_error "dispatch lease TTL must be positive")
  path ← lease_path ownership.machine_id
  elim (get scheduler.leases path) [
    | none ↦ ok (scheduler, none)
    | some file ↦ do
      lease ← load_server_lease path file
      if not (is_owned project_id ownership lease)
          then ok (scheduler, none)
          else ok (
            record scheduler {
              leases = put scheduler.leases path (record lease {
                heartbeat_at = some now;
                expires_at = now + ttl_seconds * second;
              });
            },
            some (record ownership { expires_at = now + ttl_seconds * second }),
          )
  ]

-- The lease is the run's, under the token that its schema asks for.
unfoldable pub releases : (project_id run_id : String) (owner_token : Option String) → Lease → Bool
releases project_id run_id owner_token lease =
    lease.project_id == project_id
    && (lease.run_id == run_id && fits (lease.schema_version == 2) owner_token lease.owner_token)
  where
    fits : Bool → Option String → Option String → Bool
    fits true none held = false
    fits true (some token) held = is_some_text token held
    fits false token held = is_none token

unfoldable pub matching_paths :
    (Lease → Bool) → Dict String Lease → List String → Result (List String)
unfolding load_server_lease
matching_paths wanted leases [] = ok []
matching_paths wanted leases (path ∷ paths) =
    let rest = matching_paths wanted leases paths in
    elim (get leases path) [
      | none ↦ rest
      | some file ↦ do
        lease ← load_server_lease path file
        found ← rest
        ok (if wanted lease then path ∷ found else found)
    ]

-- The Boolean says whether a lease was given back.
unfoldable pub release_dispatch_lease :
    Scheduler
    → (project_id server run_id : String) (machine_id owner_token : Option String)
    → Result (Scheduler × Bool)
unfolding resolve_machine_request lease_paths_for_machine matching_paths releases
release_dispatch_lease scheduler project_id server run_id machine_id owner_token = do
  canonical ←
      resolve_machine_request scheduler.machines project_id server (get_or machine_id server)
  paths ← lease_paths_for_machine scheduler.machines canonical
  found ← matching_paths (releases project_id run_id owner_token) scheduler.leases paths
  unlink_sole found
  where
    unlink_sole : List String → Result (Scheduler × Bool)
    unlink_sole [] = ok (scheduler, false)
    unlink_sole (path ∷ []) = ok (record scheduler { leases = remove scheduler.leases path }, true)
    unlink_sole (path ∷ next ∷ paths) =
        err (runtime_error "multiple matching leases exist for machine_id")

-- sorted(leases_dir.glob("*.yaml")), each loaded
unfoldable pub load_leases : List (String × Lease) → Result (List Lease)
unfolding load_server_lease
load_leases [] = ok []
load_leases ((stem, file) ∷ files) = do
  lease ← load_server_lease stem file
  rest ← load_leases files
  ok (lease ∷ rest)

-- The dispatch leases of a project, under the machines' present ids.
unfoldable pub owned_leases : Machines → (project_id : String) → List Lease → Result (List Lease)
unfolding resolve_machine_request
owned_leases machines project_id [] = ok []
owned_leases machines project_id (lease ∷ leases) =
    let rest = owned_leases machines project_id leases in
    if not (is_dispatch lease.kind) || not (lease.project_id == project_id) then rest else (do
      canonical ← resolve_machine_request machines project_id lease.server lease.machine_id
      others ← rest
      ok (record lease { machine_id = canonical } ∷ others))

unfoldable pub list_owned_dispatch_leases : Scheduler → (project_id : String) → Result (List Lease)
unfolding load_leases owned_leases
list_owned_dispatch_leases scheduler project_id = do
  leases ← load_leases (sort_by (λ a b. str_le a.0 b.0) scheduler.leases)
  owned_leases scheduler.machines project_id leases

-- The loop stops at the first live lease of the run.
unfoldable pub any_unexpired :
    (project_id run_id : String) (now : ℕ) → List (String × Lease) → Result Bool
unfolding load_server_lease
any_unexpired project_id run_id now [] = ok false
any_unexpired project_id run_id now ((stem, file) ∷ files) =
    let rest = any_unexpired project_id run_id now files in
    do
      lease ← load_server_lease stem file
      if lease.project_id == project_id && (lease.run_id == run_id && ltb now lease.expires_at)
          then ok true
          else rest

unfoldable pub has_unexpired_dispatch_lease :
    Scheduler → (project_id run_id : String) (now : ℕ) → Result Bool
unfolding any_unexpired
has_unexpired_dispatch_lease scheduler project_id run_id now =
    any_unexpired project_id run_id now scheduler.leases
