-- ===== src/Queue/Store.antt =====
-- registry.py: reading the queue's directory. An entry holds a job and its state; an operation runs
-- under the queue's lock, so it is one step from one directory to the next. Entries stand under the
-- run id of their job and hold both files, as they are submitted.
use codex_remote_runner.Prelude.{
  if◌then◌else◌, filter, ◌==◌, nat_eq, string_eq, file_not_found, Result, ok, err, ◌>>=◌, Dict, get,
  String, Bool, none, some, List, [], ◌∷◌,
}
use codex_remote_runner.Text.{str_le, text_then, number_then}
use codex_remote_runner.Sort.{sort_by}
use codex_remote_runner.Scheduling.{priority_rank}
use codex_remote_runner.Queue.Job.{Job, workload_eq, priority_eq, validate_job}
use codex_remote_runner.Queue.State.{QueueStatus, queued, status_eq, QueueState, validate_state}

abbrev pub Row : Type 0
Row = Job × QueueState

abbrev pub Queue : Type 0
Queue = Dict String Row

-- (created_at, run_id)
abbrev pub older : Row → Row → Bool
older a b = text_then a.0.created_at b.0.created_at (str_le a.0.run_id b.0.run_id)

-- (-rank, position, created_at, run_id)
abbrev pub served_before : Row → Row → Bool
served_before a b =
    number_then (priority_rank b.0.queue_priority) (priority_rank a.0.queue_priority)
      (number_then a.0.queue_position b.0.queue_position (older a b))

module _ (sha256 : String → String) where
  unfoldable pub load_job : Queue → String → Result Row
  unfolding validate_job validate_state
  load_job queue run_id = elim (get queue run_id) [
    | none ↦ err (file_not_found "queued run does not exist")
    | some (job, state) ↦ do
      job' ← validate_job sha256 job
      state' ← validate_state state run_id
      ok (job', state')
  ]

  -- The rows that load, of the entries left; one that does not is passed over.
  unfoldable pub load_rows : (QueueStatus → Bool) → Queue → List (String × Row) → List Row
  unfolding load_job
  load_rows wanted queue [] = []
  load_rows wanted queue ((run_id, _) ∷ entries) =
      let rest = load_rows wanted queue entries in
      elim (load_job queue run_id) [
        | err e ↦ rest
        | ok row ↦ if wanted row.1.status then row ∷ rest else rest
      ]

  unfoldable pub list_jobs : (QueueStatus → Bool) → Queue → List Row
  unfolding load_rows
  list_jobs wanted queue = sort_by older (load_rows wanted queue queue)

  unfoldable pub list_queued : Queue → List Row
  unfolding list_jobs
  list_queued queue =
      sort_by served_before
        (filter (λ row. row.1.status == queued) (list_jobs (λ s. s == queued) queue))
