-- ===== src/Queue/Purge.antt =====
-- registry.py: run tombstones, `submit_job`, and the staging of queue entries for a purge. The
-- directories of the queue are one store; an operation runs under the queue's lock.
pub mod Keys
pub mod Derive
pub mod Edits
pub mod Steps
pub mod Laws
pub mod Barred
pub mod Submit
pub mod Trace
use codex_remote_runner.Prelude.{
  if◌then◌else◌, is_empty, contains, string_eq, ◌==◌, nat_eq, Error, value_error, file_not_found,
  file_exists, Result, err, ok, ◌>>=◌, ◌>>◌, raise_if, Dict, get, has, put, remove, get_or, ℕ,
  String, Bool, true, false, not, ◌||◌, Option, none, some, [],
}
use codex_remote_runner.Text.{codes, is_run_id}
use codex_remote_runner.Queue.Job.{Job, queue_schema, workload_eq, priority_eq, validate_job}
use codex_remote_runner.Queue.State.{queued, dispatched, failed, status_eq, QueueState, is_terminal}
use codex_remote_runner.Queue.Store.{Row, Queue, load_job}

pub data TombstoneStatus : Type 0 where
  purging purged : TombstoneStatus

abbrev pub is_purged : TombstoneStatus → Bool
is_purged purging = false
is_purged purged = true

pub record Tombstone : Type 0 where
  pub schema_version : ℕ
  pub run_id : String
  pub status : TombstoneStatus
  pub created_at : String
  pub completed_at : Option String

-- The queue, the tombstones, and the entries that were moved away: by run, and by the digest of
-- their task and by run.
pub record QueueTree : Type 0 where
  pub queue_dir : Queue
  pub run_tombstones_dir : Dict String Tombstone
  pub run_purges_dir : Dict String Row
  pub task_purges_dir : Dict String (Dict String Row)

unfoldable pub validate_current_run_id : String → Result String
validate_current_run_id run_id =
    if is_run_id run_id
    then ok run_id
    else err (value_error "current run_id must match rr-<16 lowercase hex>")

-- Codes 0, 10 and 13: NUL and the ends of a line.
unfoldable pub validate_task_identity : String → Result String
validate_task_identity value =
    if is_empty (codes value)
      || (contains (codes value) 0 || (contains (codes value) 10 || contains (codes value) 13))
    then err (value_error "task identity must be a non-empty single-line string")
    else ok value

unfoldable pub check_tombstone : String → Option Tombstone → Result (Option Tombstone)
check_tombstone run_id none = ok none
check_tombstone run_id (some tombstone) = do
  raise_if (not (tombstone.schema_version == 1 || tombstone.schema_version == 2))
      (value_error "unsupported run tombstone schema")
  raise_if (not (tombstone.run_id == run_id)) (value_error "run tombstone identity mismatch")
  ok (some tombstone)

unfoldable pub load_run_tombstone : QueueTree → String → Result (Option Tombstone)
unfolding validate_current_run_id check_tombstone
load_run_tombstone tree run_id = do
  validated ← validate_current_run_id run_id
  check_tombstone validated (get tree.run_tombstones_dir validated)

abbrev pub new_tombstone : (run_id now : String) → Tombstone
new_tombstone run_id now = record {
  schema_version = 2;
  run_id = run_id;
  status = purging;
  created_at = now;
  completed_at = none;
}

abbrev pub put_tombstone : QueueTree → String → Tombstone → QueueTree
put_tombstone tree run_id tombstone = record tree {
  run_tombstones_dir = put tree.run_tombstones_dir run_id tombstone;
}

abbrev pub created : QueueTree → (run_id now : String) → Option Tombstone → QueueTree × Tombstone
created tree run_id now (some existing) = (tree, existing)
created tree run_id now none =
    (put_tombstone tree run_id (new_tombstone run_id now), new_tombstone run_id now)

unfoldable pub create_run_tombstone :
    QueueTree → (run_id now : String) → Result (QueueTree × Tombstone)
unfolding load_run_tombstone
create_run_tombstone tree run_id now = do
  existing ← load_run_tombstone tree run_id
  ok (created tree run_id now existing)

abbrev pub completed :
    QueueTree → (run_id now : String) → Option Tombstone → Result (QueueTree × Tombstone)
completed tree run_id now none = err (file_not_found "run tombstone does not exist")
completed tree run_id now (some tombstone) =
    let updated = record tombstone { status = purged; completed_at = some now } in
    if is_purged tombstone.status
    then ok (tree, tombstone)
    else ok (put_tombstone tree run_id updated, updated)

unfoldable pub complete_run_tombstone :
    QueueTree → (run_id now : String) → Result (QueueTree × Tombstone)
unfolding load_run_tombstone
complete_run_tombstone tree run_id now = do
  tombstone ← load_run_tombstone tree run_id
  completed tree run_id now tombstone

-- The state of an entry that is new.
abbrev pub new_state : (run_id created_at : String) → QueueState
new_state run_id created_at = record {
  state_schema_version = 1;
  run_id = run_id;
  revision = 0;
  status = queued;
  created_at = created_at;
  updated_at = created_at;
  error = none;
  placement_update = none;
}

-- What a job is given when it is submitted; a job without a run id gets the generated one.
abbrev pub stamped : (project_id generated now : String) (time_ns : ℕ) → Job → Job
stamped project_id generated now time_ns job = record job {
  schema_version = queue_schema;
  run_id = if is_empty (codes job.run_id) then generated else job.run_id;
  project_id = project_id;
  created_at = now;
  queue_position = time_ns;
}

-- An optional entry that must not be there.
abbrev pub must_be_absent {ℓ} : {A : Type ℓ} → Option A → Error → Result (Unit {0})
must_be_absent none e = ok tt
must_be_absent (some a) e = err e

abbrev pub is_purging : Option Tombstone → Bool
is_purging none = false
is_purging (some tombstone) = not (is_purged tombstone.status)

module _ (sha256 : String → String) where
  -- The run id of the new entry.
  unfoldable pub submit_job :
      QueueTree
      → (project_id generated now : String) (time_ns : ℕ) → Job
      → Result (QueueTree × String)
  unfolding validate_job load_run_tombstone
  submit_job tree project_id generated now time_ns submitted = do
    job ← validate_job sha256 (stamped project_id generated now time_ns submitted)
    let run_id = (stamped project_id generated now time_ns submitted).run_id
    tombstone ← load_run_tombstone tree run_id
    must_be_absent tombstone (value_error "run id has been purged and cannot be reused")
    raise_if (has tree.queue_dir run_id) (file_exists "queued run already exists")
    ok (record tree { queue_dir = put tree.queue_dir run_id (job, new_state run_id now) }, run_id)

-- The entries that were moved away for a task.
abbrev pub staged_for : QueueTree → String → Dict String Row
staged_for tree digest = get_or (get tree.task_purges_dir digest) []

module _ (sha256 task_digest : String → String) where
  -- Moves an entry that has ended; an entry that was moved before is not an error.
  unfoldable pub stage_terminal_queue_entry :
      QueueTree → (run_id task_id : String) → Result QueueTree
  unfolding validate_task_identity load_job
  stage_terminal_queue_entry tree run_id task_id = do
    identity ← validate_task_identity task_id
    let staged = staged_for tree (task_digest identity)
    elim (get tree.queue_dir run_id) [
      | none ↦
          if has staged run_id then ok tree else err (file_not_found "queue run does not exist")
      | some source ↦ do
        (job, state) ← load_job sha256 tree.queue_dir run_id
        raise_if (not (job.task_id == identity)) (value_error "queue run belongs to another task")
        raise_if (not (is_terminal state.status))
            (value_error "queue run is not terminal for task purge")
        raise_if (has staged run_id) (file_exists "queue purge destination already exists")
        ok (record tree {
          queue_dir = remove tree.queue_dir run_id;
          task_purges_dir =
              put tree.task_purges_dir (task_digest identity) (put staged run_id source);
        })
    ]

  -- Moves an entry whose run is being purged.
  unfoldable pub stage_failed_queue_entry : QueueTree → (run_id task_id : String) → Result QueueTree
  unfolding validate_current_run_id validate_task_identity load_job load_run_tombstone
  stage_failed_queue_entry tree run_id task_id = do
    validated ← validate_current_run_id run_id
    identity ← validate_task_identity task_id
    elim (get tree.queue_dir validated) [
      | none ↦
          if has tree.run_purges_dir validated
          then ok tree
          else err (file_not_found "queue run does not exist")
      | some source ↦ do
        (job, state) ← load_job sha256 tree.queue_dir validated
        raise_if (not (job.task_id == identity)) (value_error "queue run belongs to another task")
        raise_if (not (state.status == dispatched || state.status == failed))
            (value_error "queue run is not failed for run purge")
        tombstone ← load_run_tombstone tree validated
        raise_if (not (is_purging tombstone)) (value_error "queue run has no active run purge")
        raise_if (has tree.run_purges_dir validated)
            (file_exists "run purge queue destination already exists")
        ok (record tree {
          queue_dir = remove tree.queue_dir validated;
          run_purges_dir = put tree.run_purges_dir validated source;
        })
    ]
