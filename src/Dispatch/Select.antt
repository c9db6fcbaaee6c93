-- ===== src/Dispatch/Select.antt =====
-- dispatcher.py: `_select_from_snapshot`, the machines that a job can get from one round of probes.
-- A failure of a probe is the server's name and the rest of the message.
pub mod Laws
use codex_remote_runner.Prelude.{
  if◌then◌else◌, is_empty, filter, contains, subset, ◌==◌, nat_eq, string_eq, Result, ok, ◌>>=◌,
  ◌>>◌, get_or, ℕ, String, Bool, true, false, not, ◌&&◌, Option, none, some, List, [], ◌∷◌, map,
}
use codex_remote_runner.Machines.Identity.{Server, normalize_server_identity}
use codex_remote_runner.Queue.Job.{Job, workload_eq, priority_eq, eligible_prepared_servers}
use codex_remote_runner.Dispatch.Capacity.{
  ProbedServer, Message, all_drained, no_server, unreachable, standard_slots, test_slots,
  capacity_message, rank_for_workload,
}

-- What tells the probed machines apart.
pub record SnapshotKey : Type 0 where
  pub machine_id : String
  pub machine_fingerprint : Option String
  pub configured_cores : ℕ

pub record CapacitySnapshot : Type 0 where
  pub reachable : List (SnapshotKey × ProbedServer)
  pub failures : List (String × String)
  pub drained_servers : List String

-- The machine of a server whose identity is normalized.
abbrev pub machine_of : Server → String
machine_of identity = get_or identity.machine_id identity.name

unfoldable pub identified : List Server → Result (List (Server × Server))
unfolding normalize_server_identity
identified [] = ok []
identified (server ∷ servers) = do
  identity ← normalize_server_identity server
  rest ← identified servers
  ok ((server, identity) ∷ rest)

abbrev pub server_snapshot_key : Server → SnapshotKey
server_snapshot_key identity = record {
  machine_id = machine_of identity;
  machine_fingerprint = identity.machine_fingerprint;
  configured_cores = identity.configured_cores;
}

abbrev pub same_text? : Option String → Option String → Bool
same_text? none none = true
same_text? (some a) (some b) = a == b
same_text? _ _ = false

abbrev pub same_key : SnapshotKey → SnapshotKey → Bool
same_key a b =
    a.machine_id == b.machine_id
    && (same_text? a.machine_fingerprint b.machine_fingerprint
        && a.configured_cores == b.configured_cores)

-- `snapshot.reachable.get(key)`
abbrev pub probed_at : List (SnapshotKey × ProbedServer) → SnapshotKey → Option ProbedServer
probed_at [] key = none
probed_at ((k, probed) ∷ entries) key =
    if same_key k key then some probed else probed_at entries key

abbrev pub permits : Option (List String) → String → Bool
permits none name = true
permits (some names) name = contains names name

-- The test of the first comprehension: not drained, not reserved, and allowed.
abbrev pub usable :
    CapacitySnapshot
    → (reserved : List String) (allowed : Option (List String)) → Server × Server
    → Bool
usable probes reserved allowed entry =
    not (contains probes.drained_servers (machine_of entry.1))
    && (not (contains reserved (machine_of entry.1)) && permits allowed entry.0.name)

-- The job's own server with the capacity that the probe found.
abbrev pub with_probe : Server → ProbedServer → ProbedServer
with_probe server probed = record probed {
  server = record server {
    standard_slots = some (standard_slots probed);
    test_slots = some (test_slots probed);
  };
}

abbrev pub reached : CapacitySnapshot → List (Server × Server) → List ProbedServer
reached probes [] = []
reached probes ((server, identity) ∷ entries) =
    elim (probed_at probes.reachable (server_snapshot_key identity)) [
      | none ↦ reached probes entries
      | some probed ↦ with_probe server probed ∷ reached probes entries
    ]

-- Why no machine of the job is there at all.
abbrev pub unreached_message : CapacitySnapshot → List (Server × Server) → Message
unreached_message probes prepared =
    let machines = map (λ entry. machine_of entry.1) prepared in
    let names = map (λ entry. entry.0.name) prepared in
    let failures = filter (λ failure. contains names failure.0) probes.failures in
    if not (is_empty machines) && subset machines probes.drained_servers
    then all_drained
    else if is_empty failures
    then no_server
    else unreachable failures

abbrev pub capacity_answer :
    Job → (candidates found : List ProbedServer) → Result (List ProbedServer × Option Message)
capacity_answer job candidates [] = do
  message ← capacity_message job candidates
  ok ([], some message)
capacity_answer job candidates (c ∷ cs) = ok (c ∷ cs, none)

unfoldable pub select_from_snapshot :
    Job
    → CapacitySnapshot
    → (reserved : List String) (allowed : Option (List String))
    → Result (List ProbedServer × Option Message)
unfolding eligible_prepared_servers identified rank_for_workload capacity_message
select_from_snapshot job probes reserved allowed = do
  prepared ← identified (eligible_prepared_servers job)
  let candidates = reached probes (filter (usable probes reserved allowed) prepared)
  if is_empty candidates
      then ok ([], some (unreached_message probes prepared))
      else do found ← rank_for_workload job candidates; capacity_answer job candidates found
