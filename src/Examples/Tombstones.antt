-- ===== src/Examples/Tombstones.antt =====
-- A run that was purged, and a submission after it.
use codex_remote_runner.Machines.Identity.{normalize_server_identity}
use codex_remote_runner.Text.{is_project_id, is_machine_id, is_run_id}
use codex_remote_runner.Prelude.{
  string_eq, nat_eq, file_not_found, err, ok, get, none, put, String, ◌≡◌, refl, some, [], ◌∷◌,
}
use codex_remote_runner.Queue.Job.{Job, validate_job, workload_eq, priority_eq}
use codex_remote_runner.Queue.State.{status_eq}
use codex_remote_runner.Queue.Store.{load_job}
use codex_remote_runner.Queue.Purge.{
  purged, Tombstone, QueueTree, new_tombstone, new_state, stamped, submit_job,
}
use codex_remote_runner.Queue.Purge.Submit.{submit_job-load_job}
use codex_remote_runner.Examples.Data.{sha, job_1, queue_2}

abbrev run_3 : String
run_3 = "rr-0000000000000003"

abbrev run_4 : String
run_4 = "rr-0000000000000004"

abbrev tombstone_3 : Tombstone
tombstone_3 = record (new_tombstone run_3 "2026-01-01") {
  status = purged;
  completed_at = some "2026-01-02";
}

abbrev tree_2 : QueueTree
tree_2 = record {
  queue_dir = queue_2;
  run_tombstones_dir = (run_3, tombstone_3) ∷ [];
  run_purges_dir = [];
  task_purges_dir = [];
}

abbrev job_4 : Job
job_4 = record job_1 { run_id = run_4; created_at = "2026-01-03"; queue_position = 7 }

abbrev tree_3 : QueueTree
tree_3 = record tree_2 { queue_dir = put queue_2 run_4 (job_4, new_state run_4 "2026-01-03") }

submit_job-load_job_example :
    (load_job sha queue_2 run_4 ≡ err (file_not_found "queued run does not exist"))
    × (get tree_2.run_tombstones_dir run_4 ≡ none)
    × (accepted : Job) × (validate_job sha (stamped "proj" run_4 "2026-01-03" 7 job_4)
        ≡ ok accepted)
    × (load_job sha tree_3.queue_dir run_4 ≡ ok (accepted, new_state run_4 "2026-01-03"))
unfolding submit_job is_run_id is_project_id normalize_server_identity is_machine_id
submit_job-load_job_example =
    submit_job-load_job sha tree_2 tree_3 "proj" run_4 "2026-01-03" 7 job_4 run_4 refl
