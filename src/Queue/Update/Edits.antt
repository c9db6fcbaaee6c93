-- ===== src/Queue/Update/Edits.antt =====
-- registry.py: the edits of `update_queued_job` that change the job itself.
use codex_remote_runner.Prelude.{
  if◌then◌else◌, is_empty, any, filter, contains, distinct, subset, ◌==◌, nat_eq, string_eq,
  value_error, Result, ok, ◌>>◌, raise_if, Dict, ℕ, ◌+◌, max, String, Bool, true, false, not, ◌&&◌,
  Option, none, some, List, [], ◌∷◌,
}
use codex_remote_runner.Text.{codes}
use codex_remote_runner.Scheduling.{QueuePriority, WorkloadClass}
use codex_remote_runner.Queue.Job.{Job, server_names, workload_eq, priority_eq}
use codex_remote_runner.Queue.State.{status_eq}
use codex_remote_runner.Queue.Store.{Row}

-- The local variables of the function: `updated_job`, the two flags and `jobs_to_write`.
pub record Edit : Type 0 where
  pub job : Job
  pub changed : Bool
  pub ordering_changed : Bool
  pub to_write : Dict String Job

unfoldable pub check_eligible_edit : List String → Job → Result (Unit {0})
check_eligible_edit names job = do
  raise_if (is_empty names) (value_error "queued job eligible_servers must be a non-empty list")
  raise_if (any (λ s. is_empty (codes s)) names)
      (value_error "queued job eligible server names must be non-empty strings")
  raise_if (not (distinct names))
      (value_error "queued job eligible_servers must not contain duplicates")
  raise_if (not (subset names (server_names job.prepared_servers)))
      (value_error "queued job eligible_servers contains an unprepared server")

-- `names` in the order in which the servers were prepared.
abbrev pub in_prepared_order : List String → Job → List String
in_prepared_order names job = filter (contains names) (server_names job.prepared_servers)

-- `xs == ys` on lists of texts.
abbrev pub same_texts : List String → List String → Bool
same_texts [] [] = true
same_texts [] (y ∷ ys) = false
same_texts (x ∷ xs) [] = false
same_texts (x ∷ xs) (y ∷ ys) = x == y && same_texts xs ys

unfoldable pub edit_eligible : Option (List String) → Job → Edit → Result Edit
unfolding check_eligible_edit
edit_eligible none job edit = ok edit
edit_eligible (some names) job edit = do
  check_eligible_edit names job
  let ordered = in_prepared_order names job
  if same_texts ordered job.eligible_servers && job.eligible_servers_locked
      then ok edit
      else ok (record edit {
        job = record edit.job { eligible_servers = ordered; eligible_servers_locked = true };
        changed = true;
      })

-- The largest position of the other runs in a lane, or 0.
abbrev pub last_position : (Job → Bool) → List Row → ℕ
last_position p [] = 0
last_position p (row ∷ rows) =
    if p row.0 then max row.0.queue_position (last_position p rows) else last_position p rows

-- The jobs of one class and priority.
abbrev pub lane_of : WorkloadClass → QueuePriority → Job → Bool
lane_of class priority job = job.workload_class == class && job.queue_priority == priority

unfoldable pub edit_class : Option WorkloadClass → List Row → (run_id : String) → Job → Edit → Edit
edit_class none rows run_id job edit = edit
edit_class (some class) rows run_id job edit =
    if class == job.workload_class then edit else record edit {
      job = record edit.job {
        workload_class = class;
        queue_position =
            last_position
              (λ other. not (other.run_id == run_id) && lane_of class edit.job.queue_priority other)
              rows
            + 1024;
      };
      changed = true;
      ordering_changed = true;
    }

unfoldable pub edit_priority :
    Option QueuePriority → List Row → (run_id : String) → Job → Edit → Edit
edit_priority none rows run_id job edit = edit
edit_priority (some priority) rows run_id job edit =
    if priority == job.queue_priority then edit else record edit {
      job = record edit.job {
        queue_priority = priority;
        queue_position =
            last_position
              (λ other.
                not (other.run_id == run_id) && lane_of edit.job.workload_class priority other)
              rows
            + 1024;
      };
      changed = true;
      ordering_changed = true;
    }
