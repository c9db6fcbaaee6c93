-- ===== src/Queue/Update.antt =====
-- registry.py: `update_queued_job`, the edit of a queued job's lane, priority, servers and place.
-- `edit` computes the new jobs as the branches of the source do, in their order; `commit` writes.
pub mod Edits
pub mod Moves
pub mod Laws
use codex_remote_runner.Prelude.{
  if◌then◌else◌, find?, ◌==◌, nat_eq, string_eq, value_error, runtime_error, Result, ok, err, ◌>>=◌,
  ◌>>◌, raise_if, continue, Dict, put, is_none, ℕ, ◌+◌, String, Bool, true, false, not, ◌&&◌,
  Option, none, some, List, [], ◌∷◌, map,
}
use codex_remote_runner.Text.{is_run_id}
use codex_remote_runner.Scheduling.{QueuePriority, WorkloadClass}
use codex_remote_runner.Queue.Job.{Job, workload_eq, priority_eq, validate_job}
use codex_remote_runner.Queue.State.{
  queued, status_eq, QueueState, validate_state, placement_update_active, placement_token_matches,
}
use codex_remote_runner.Queue.Store.{Row, Queue, load_job, list_jobs}
use codex_remote_runner.Queue.Transition.{write_state, write_job}
use Edits.{Edit, edit_eligible, edit_class, edit_priority, lane_of}
use Moves.{Move, edit_move}

-- The arguments of a call.
pub record Request : Type 0 where
  pub expected_revision : ℕ
  pub queue_priority : Option QueuePriority
  pub workload_class : Option WorkloadClass
  pub eligible_servers : Option (List String)
  pub move : Option Move
  pub placement_token : Option String

pub record Reply : Type 0 where
  pub changed : Bool
  pub job : Job
  pub state : QueueState

unfoldable pub check_request : String → Request → Result (Unit {0})
check_request run_id request = do
  raise_if (not (is_run_id run_id)) (value_error "current run_id must match rr-<16 lowercase hex>")
  raise_if
      (is_none request.queue_priority
        && (is_none request.workload_class
            && (is_none request.eligible_servers && is_none request.move)))
      (value_error "queued job update does not contain any changes")

-- The edits in the order of the source; the first one sees whether a reservation was used.
unfoldable pub apply_edits :
    List Row → (run_id : String) → Job → Request → (reserved : Bool) → Result Edit
unfolding edit_eligible edit_class edit_priority edit_move
apply_edits rows run_id job request reserved = do
  placed ←
      edit_eligible request.eligible_servers job
        (record { job = job; changed = reserved; ordering_changed = false; to_write = [] })
  edit_move request.move rows run_id (
      edit_priority request.queue_priority rows run_id job
        (edit_class request.workload_class rows run_id job placed))

module _ (sha256 : String → String) where
  token_fits : QueueState → Option String → Bool
  unfolding placement_token_matches
  token_fits state none = false
  token_fits state (some token) = placement_token_matches sha256 state token

  unfoldable pub check_editable : QueueState → Request → ℕ → Result (Unit {0})
  unfolding placement_update_active token_fits
  check_editable state request now = do
    raise_if (not (state.status == queued)) (value_error "queued run is not editable")
    raise_if (not (state.revision == request.expected_revision))
        (runtime_error "queued state revision conflict")
    raise_if (placement_update_active state now && not (token_fits state request.placement_token))
        (runtime_error "queued run has a placement update in progress")
    raise_if (not (is_none request.placement_token) && not (placement_update_active state now))
        (runtime_error "queue update reservation expired")

  -- The jobs are written one after the other, each validated first.
  unfoldable pub write_jobs : Dict String Job → Queue → Result (Unit {0}) × Queue
  unfolding write_job
  write_jobs [] queue = (ok tt, queue)
  write_jobs ((run_id, job) ∷ jobs) queue = elim (validate_job sha256 job) [
    | err e ↦ (err e, queue)
    | ok job' ↦ write_jobs jobs (write_job queue run_id job')
  ]

-- A state that is counted up; the reservation of the edited run is used up with it.
unfoldable pub bumped : (run_id at : String) (reserved : Bool) → String → QueueState → QueueState
bumped run_id at reserved changed_run_id state = record state {
  revision = state.revision + 1;
  updated_at = at;
  placement_update = if changed_run_id == run_id && reserved then none else state.placement_update;
}

-- The loop over the runs whose state is counted up.
unfoldable pub bump_states :
    (run_id at : String) (reserved : Bool)
    → List Row
    → List String
    → Queue
    → Result (Unit {0}) × Queue
unfolding bumped validate_state write_state
bump_states run_id at reserved rows [] queue = (ok tt, queue)
bump_states run_id at reserved rows (changed ∷ rest) queue =
    let next = λ (q : Queue). bump_states run_id at reserved rows rest q in
    elim (find? (λ row. row.0.run_id == changed) rows) [
      | none ↦ (err (value_error "KeyError"), queue)
      | some (_, state) ↦ elim (validate_state (bumped run_id at reserved changed state) changed) [
        | err e ↦ (err e, queue)
        | ok state' ↦ next (write_state queue changed state')
      ]
    ]

-- The runs whose revision counts up: all that are queued if the order changed, and else the edited.
unfoldable pub bumped_runs : List Row → Edit → List String
bumped_runs rows edit =
    if edit.ordering_changed
    then map (λ row. row.0.run_id) rows
    else map (λ entry. entry.0) edit.to_write

module _ (sha256 : String → String) where
  unfoldable pub commit :
      (run_id at : String) (reserved : Bool)
      → List Row
      → Edit
      → QueueState
      → Queue
      → Result Reply × Queue
  unfolding write_jobs bump_states bumped_runs bumped
  commit run_id at reserved rows edited state queue =
      let all_jobs = put edited.to_write run_id edited.job in
      let runs = bumped_runs rows (record edited { to_write = all_jobs }) in
      elim (validate_job sha256 edited.job) [
        | err e ↦ (err e, queue)
        | ok job ↦ continue (write_jobs sha256 all_jobs queue) λ q.
            continue (bump_states run_id at reserved rows runs q) λ q'. (
              ok (record {
                changed = true;
                job = job;
                state = bumped run_id at reserved run_id state;
              }),
              q',
            )
      ]

  -- What comes before the writes: the edit to commit, with the state that was read.
  unfoldable pub plan_update :
      Queue → (run_id : String) → Request → (now : ℕ) → Result (Job × QueueState × Edit)
  unfolding check_request check_editable apply_edits
  plan_update queue run_id request now = do
    check_request run_id request
    (job, state) ← load_job sha256 queue run_id
    check_editable sha256 state request now
    edited ←
        apply_edits (list_jobs sha256 (λ s. s == queued) queue) run_id job request
          (placement_update_active state now)
    ok (job, state, edited)

  unfoldable pub update_queued_job :
      Queue → (run_id : String) → Request → (now : ℕ) (at : String) → Result Reply × Queue
  unfolding plan_update commit
  update_queued_job queue run_id request now at = elim (plan_update queue run_id request now) [
    | err e ↦ (err e, queue)
    | ok (job, state, edited) ↦
        if not edited.changed
        then (ok (record { changed = false; job = job; state = state }), queue)
        else commit run_id at (placement_update_active state now)
            (list_jobs sha256 (λ s. s == queued) queue) edited state queue
  ]
