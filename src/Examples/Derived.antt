-- ===== src/Examples/Derived.antt =====
-- A validation run that is submitted twice.
use codex_remote_runner.Prelude.{string_eq, nat_eq, String, some, List, [], ◌∷◌}
use codex_remote_runner.Scheduling.{test}
use codex_remote_runner.Derivation.{Relation, Spec}
use codex_remote_runner.Queue.Job.{Job, workload_eq, priority_eq}
use codex_remote_runner.Queue.State.{status_eq}
use codex_remote_runner.Queue.Purge.{QueueTree, new_state}
use codex_remote_runner.Examples.Data.{sha, server_a, job_1}

abbrev digits : List String → String
digits texts = "0123456789abcdef0123456789abcdef0123456789abcdef0123456789abcdef"

abbrev spec_sha : Spec → String
spec_sha spec = sha "spec"

abbrev derived_id : String
derived_id = "rr-0123456789abcdef"

abbrev relation_1 : Relation
relation_1 = record {
  schema_version = 1;
  kind = "validation";
  source_run_id = "rr-0000000000000001";
  source_revision = "0123456789012345678901234567890123456789";
  source_server = "alpha";
  target_server = "beta";
  target_path = "/data/out";
  receipt_sha256 = sha "receipt";
  validator_key = "check/1";
  result_relpath = "result.json";
  spec_sha256 = sha "spec";
}

abbrev validator : Job
validator = record job_1 {
  derivation = some relation_1;
  workload_class = test;
  prepared_servers = record server_a { output_root = some "/data" } ∷ [];
  eligible_servers = "alpha" ∷ [];
  output_relpath = some "validated";
}

abbrev no_runs : QueueTree
no_runs = record {
  queue_dir = [];
  run_tombstones_dir = [];
  run_purges_dir = [];
  task_purges_dir = [];
}

abbrev accepted_validator : Job
accepted_validator = record validator {
  schema_version = 6;
  run_id = derived_id;
  project_id = "proj";
  created_at = "2026-01-03";
  queue_position = 7;
}

abbrev with_validator : QueueTree
with_validator = record no_runs {
  queue_dir = (derived_id, (accepted_validator, new_state derived_id "2026-01-03")) ∷ [];
}
