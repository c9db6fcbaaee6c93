-- ===== src/Examples/Data.antt =====
-- Records that the examples share: one machine, one server on it, jobs and states.
use codex_remote_runner.Prelude.{nat_eq, string_eq, String, false, none, some, [], ◌∷◌}
use codex_remote_runner.Prelude.Int.{pos}
use codex_remote_runner.Scheduling.{normal, standard}
use codex_remote_runner.Machines.{Machine, Machines}
use codex_remote_runner.Machines.Identity.{explicit, Server}
use codex_remote_runner.Queue.Job.{snapshot, Job, workload_eq, priority_eq}
use codex_remote_runner.Queue.State.{queued, status_eq, QueueState}
use codex_remote_runner.Queue.Store.{Queue}

abbrev pub sha : String → String
sha text = "sha256:0123456789abcdef0123456789abcdef0123456789abcdef0123456789abcdef"

abbrev pub server_a : Server
server_a = record {
  name = "alpha";
  machine_id = some "m-a";
  machine_id_source = some explicit;
  machine_fingerprint = none;
  configured_cores = 8;
  configured_memory_gb = none;
  priority = pos 1;
  standard_slots = some 1;
  test_slots = some 1;
  output_root = none;
  ssh = "a";
  ssh_profile = "p";
  bare_repo = "/b";
  worktree_root = "/w";
  python = "python3";
}

abbrev pub server_b : Server
server_b = record server_a { name = "beta"; machine_id = some "m-b" }

abbrev pub job_1 : Job
job_1 = record {
  schema_version = 5;
  derivation = none;
  run_id = "rr-0000000000000001";
  project_id = "proj";
  revision = "0123456789012345678901234567890123456789";
  label = "l";
  task_id = "t";
  submitted_command = "make";
  submitted_command_sha256 = sha "make";
  created_at = "2026-01-01";
  queue_priority = normal;
  queue_position = 1;
  workload_class = standard;
  minimum_cores = 1;
  requested_cores = some 2;
  server_scope = snapshot;
  prepared_servers = server_a ∷ server_b ∷ [];
  eligible_servers = "alpha" ∷ "beta" ∷ [];
  eligible_servers_locked = false;
  output_relpath = none;
  output_path = none;
  privacy = none;
  lease_seconds = none;
}

abbrev pub job_2 : Job
job_2 = record job_1 { run_id = "rr-0000000000000002"; queue_position = 2 }

abbrev pub state_1 : QueueState
state_1 = record {
  state_schema_version = 1;
  run_id = "rr-0000000000000001";
  revision = 0;
  status = queued;
  created_at = "2026-01-01";
  updated_at = "2026-01-01";
  error = none;
  placement_update = none;
}

abbrev pub state_2 : QueueState
state_2 = record state_1 { run_id = "rr-0000000000000002" }

abbrev pub queue_2 : Queue
queue_2 = ("rr-0000000000000001", (job_1, state_1)) ∷ ("rr-0000000000000002", (job_2, state_2)) ∷ []

abbrev pub machine_a : Machine
machine_a = record {
  machine_fingerprint = none;
  configured_cores = 8;
  configured_memory_gb = none;
  aliases = "proj/alpha" ∷ [];
  identity_source = explicit;
  legacy_machine_ids = "old-a" ∷ [];
  updated_at = "2026-01-01";
}

abbrev pub machines_a : Machines
machines_a = ("m-a", machine_a) ∷ []
