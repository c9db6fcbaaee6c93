-- ===== src/Queue/Update/Moves.antt =====
-- registry.py: the moves of `update_queued_job` inside a lane.
pub mod Positions
use codex_remote_runner.Prelude.{
  if◌then◌else◌, filter, ◌==◌, nat_eq, string_eq, value_error, stop_iteration, Result, ok, err,
  Dict, get, put, ℕ, ◌+◌, min, String, Bool, true, Option, none, some, List, [], ◌∷◌, ◌++◌, map,
}
use codex_remote_runner.Text.{str_le, text_then, number_then}
use codex_remote_runner.Sort.{sort_by}
use codex_remote_runner.Queue.Job.{Job, workload_eq, priority_eq}
use codex_remote_runner.Queue.State.{status_eq}
use codex_remote_runner.Queue.Store.{Row}
use codex_remote_runner.Queue.Update.Edits.{Edit, lane_of}

pub data Move : Type 0 where
  first up down : Move

-- (queue_position, created_at, run_id)
abbrev pub ahead : Job → Job → Bool
ahead a b =
    number_then a.queue_position b.queue_position
      (text_then a.created_at b.created_at (str_le a.run_id b.run_id))

-- The lane of the edited job, with its edits so far.
unfoldable pub current_lane : List Row → (run_id : String) → Job → List Job
current_lane rows run_id updated =
    sort_by ahead
      (filter (lane_of updated.workload_class updated.queue_priority) (map current rows))
  where
    current : Row → Job
    current row = if row.0.run_id == run_id then updated else row.0

-- The lane before the run, the run, and the lane after it.
abbrev pub split_at : String → List Job → Option (List Job × Job × List Job)
split_at run_id [] = none
split_at run_id (job ∷ jobs) =
    if job.run_id == run_id then some ([], job, jobs) else elim (split_at run_id jobs) [
      | none ↦ none
      | some (before, found, after) ↦ some (job ∷ before, found, after)
    ]

-- min(position of the lane)
abbrev pub base_position : List Job → ℕ
base_position [] = 0
base_position (job ∷ []) = job.queue_position
base_position (job ∷ jobs) = min job.queue_position (base_position jobs)

-- base, base + 2, base + 4, ...
abbrev pub renumber : ℕ → List Job → List Job
renumber base [] = []
renumber base (job ∷ jobs) = record job { queue_position = base } ∷ renumber (base + 2) jobs

abbrev pub by_run : List Job → Dict String Job
by_run [] = []
by_run (job ∷ jobs) = (job.run_id, job) ∷ by_run jobs

-- The run goes to the head, and the lane gets new positions.
unfoldable pub move_first : List Job → Job → List Job → Edit → Edit
move_first [] job after edit = edit
move_first (b ∷ before) job after edit =
    let base = base_position ((b ∷ before) ++ job ∷ after) in
    record edit {
      job = record job { queue_position = base };
      changed = true;
      ordering_changed = true;
      to_write = by_run (renumber base (job ∷ (b ∷ before) ++ after));
    }

-- Two neighbours change places; a lane in which they share one gets new positions first.
unfoldable pub swap_with : (lane : List Job) (job neighbor : Job) → Edit → Result Edit
swap_with lane job neighbor edit =
    if edit.job.queue_position == neighbor.queue_position
    then (let renumbered = by_run (renumber (base_position lane) lane) in
        elim (get renumbered job.run_id) [
          | none ↦ err (value_error "KeyError")
          | some target ↦ elim (get renumbered neighbor.run_id) [
            | none ↦ err (value_error "KeyError")
            | some other ↦ ok (swapped renumbered target other)
          ]
        ])
    else ok (swapped [] edit.job neighbor)
  where
    swapped : Dict String Job → Job → Job → Edit
    swapped to_write target other = record edit {
      job = record target { queue_position = other.queue_position };
      changed = true;
      ordering_changed = true;
      to_write =
          put to_write other.run_id (record other { queue_position = target.queue_position });
    }

abbrev pub last? : List Job → Option Job
last? [] = none
last? (job ∷ []) = some job
last? (job ∷ next ∷ jobs) = last? (next ∷ jobs)

abbrev pub head? : List Job → Option Job
head? [] = none
head? (job ∷ jobs) = some job

unfoldable pub swap_if : Option Job → (lane : List Job) (job : Job) → Edit → Result Edit
unfolding swap_with
swap_if none lane job edit = ok edit
swap_if (some neighbor) lane job edit = swap_with lane job neighbor edit

unfoldable pub apply_move : Move → List Job → Job → List Job → Edit → Result Edit
unfolding move_first swap_if
apply_move first before job after edit = ok (move_first before job after edit)
apply_move up before job after edit = swap_if (last? before) (before ++ job ∷ after) job edit
apply_move down before job after edit = swap_if (head? after) (before ++ job ∷ after) job edit

unfoldable pub edit_move : Option Move → List Row → (run_id : String) → Edit → Result Edit
unfolding current_lane apply_move
edit_move none rows run_id edit = ok edit
edit_move (some move) rows run_id edit =
    elim (split_at run_id (current_lane rows run_id edit.job)) [
      | none ↦ err (stop_iteration "")
      | some (before, job, after) ↦ apply_move move before job after edit
    ]
