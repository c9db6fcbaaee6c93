-- ===== src/Queue/Transition.antt =====
-- registry.py: `transition_queued_state`, `recover_dispatching_state` and the terminal purges.
pub mod Laws
use codex_remote_runner.Prelude.{
  if◌then◌else◌, is_empty, all, contains, ◌==◌, nat_eq, string_eq, value_error, runtime_error,
  Result, ok, ◌>>=◌, ◌>>◌, raise_if, remove, ℕ, ◌+◌, String, Bool, not, ◌||◌, Option, some, List,
  [], ◌∷◌,
}
use codex_remote_runner.Queue.Job.{Job, workload_eq, priority_eq}
use codex_remote_runner.Queue.State.{
  QueueStatus, queued, dispatching, dispatched, failed, stopped, status_eq, QueueState, is_terminal,
  validate_state,
}
use codex_remote_runner.Queue.Store.{Queue, load_job}

-- The `allowed` table; staying in a status is allowed too.
unfoldable pub is_allowed : QueueStatus → QueueStatus → Bool
is_allowed queued new = new == queued || (new == dispatching || (new == failed || new == stopped))
is_allowed dispatching new =
    new == dispatching || (new == dispatched || (new == failed || new == stopped))
is_allowed current new = new == current

-- `write_yaml` of one file of an entry that was read; the other file stays.
unfoldable pub write_state : Queue → String → QueueState → Queue
write_state [] run_id state = []
write_state ((id, (job, old)) ∷ queue) run_id state =
    if id == run_id
    then (id, (job, state)) ∷ queue
    else (id, (job, old)) ∷ write_state queue run_id state

unfoldable pub write_job : Queue → String → Job → Queue
write_job [] run_id job = []
write_job ((id, (old, state)) ∷ queue) run_id job =
    if id == run_id
    then (id, (job, state)) ∷ queue
    else (id, (old, state)) ∷ write_job queue run_id job

-- What `transition_queued_state` makes of the state that it reads.
unfoldable pub transitioned :
    (expected_revision : ℕ) (status : QueueStatus) (error : Option String) (at : String)
    → QueueState
    → Result QueueState
unfolding is_allowed
transitioned expected_revision status error at state = do
  raise_if (not (state.revision == expected_revision))
      (runtime_error "queued state revision conflict")
  raise_if (not (is_allowed state.status status)) (value_error "illegal queued state transition")
  ok (record state {
    revision = expected_revision + 1;
    status = status;
    updated_at = at;
    error = error;
  })

-- What `recover_dispatching_state` makes of it.
unfoldable pub recovered : (expected_revision : ℕ) (at : String) → QueueState → Result QueueState
recovered expected_revision at state = do
  raise_if (not (state.revision == expected_revision))
      (runtime_error "queued state revision conflict")
  raise_if (not (state.status == dispatching))
      (value_error "only an interrupted dispatching job can be recovered")
  ok (record state {
    revision = expected_revision + 1;
    status = queued;
    updated_at = at;
    error = some "recovered after interrupted dispatch";
  })

module _ (sha256 : String → String) where
  -- The frame of the operations on one state: load the entry, make the new state, validate, write.
  unfoldable pub edit_state :
      (QueueState → Result QueueState) → Queue → (run_id : String) → Result (Queue × QueueState)
  edit_state edit queue run_id = do
    (_, state) ← load_job sha256 queue run_id
    edited ← edit state
    updated ← validate_state edited run_id
    ok (write_state queue run_id updated, updated)

  unfoldable pub transition_queued_state :
      Queue
      → (run_id : String) (expected_revision : ℕ) (status : QueueStatus) (error : Option String)
        (at : String)
      → Result (Queue × QueueState)
  unfolding transitioned edit_state
  transition_queued_state queue run_id expected_revision status error at =
      edit_state (transitioned expected_revision status error at) queue run_id

  unfoldable pub recover_dispatching_state :
      Queue → (run_id : String) (expected_revision : ℕ) (at : String) → Result (Queue × QueueState)
  unfolding recovered edit_state
  recover_dispatching_state queue run_id expected_revision at =
      edit_state (recovered expected_revision at) queue run_id

  -- `allowed` are the statuses that may be purged; the entry's directory is taken for a plain one.
  unfoldable pub purge_queue_entry :
      Queue → (run_id : String) (allowed_statuses : List QueueStatus) → Result Queue
  purge_queue_entry queue run_id allowed_statuses = do
    raise_if (is_empty allowed_statuses || not (all is_terminal allowed_statuses))
        (value_error "queue purge statuses must be terminal")
    (_, state) ← load_job sha256 queue run_id
    raise_if (not (contains allowed_statuses state.status))
        (value_error "queue run is not eligible for purge")
    ok (remove queue run_id)
