-- ===== src/Queue/Extend.antt =====
-- registry.py: `extend_queued_job` and `extend_queued_all`, which add prepared servers to jobs.
pub mod Laws
use codex_remote_runner.Prelude.{
  if◌then◌else◌, length, is_empty, contains, ◌==◌, nat_eq, string_eq, value_error, runtime_error,
  Result, ok, err, ◌>>=◌, ◌>>◌, raise_if, has, is_none, ℕ, ◌-◌, String, Bool, true, false, not,
  ◌&&◌, ◌||◌, Option, none, some, List, [], ◌∷◌, ◌++◌,
}
use codex_remote_runner.Text.{codes, is_hex_text, is_run_id}
use codex_remote_runner.Machines.Identity.{Server}
use codex_remote_runner.Queue.Job.{
  ServerScope, snapshot, all_servers, Job, server_names, workload_eq, priority_eq, validate_job,
}
use codex_remote_runner.Queue.State.{
  QueueStatus, queued, dispatching, dispatched, failed, stopped, status_eq, QueueState,
  placement_update_active, placement_token_matches,
}
use codex_remote_runner.Queue.Store.{Queue, load_job}
use codex_remote_runner.Queue.Transition.{write_job}

-- The servers so far, followed by those of the additions whose name is new.
abbrev pub merge_servers : List Server → List Server → List Server
merge_servers merged [] = merged
merge_servers merged (server ∷ additions) =
    merge_servers
      (if contains (server_names merged) server.name then merged else merged ++ (server ∷ []))
      additions

-- The job with the merged servers; a job whose servers nobody chose may run on all of them.
unfoldable pub extended : List Server → Job → Job
extended merged job = record job {
  prepared_servers = merged;
  eligible_servers =
      if job.eligible_servers_locked then job.eligible_servers else server_names merged;
}

pub record Extension : Type 0 where
  pub added_servers : ℕ
  pub prepared_servers : List String

pub data Outcome : Type 0 where
  skipped : String → Outcome
  unchanged : Outcome
  is_extended : ℕ → Outcome

-- One entry of the updates of `extend_queued_all`.
pub record PoolUpdate : Type 0 where
  pub run_id : String
  pub revision : String
  pub prepared_servers : List Server

abbrev pub is_all : ServerScope → Bool
is_all snapshot = false
is_all all_servers = true

abbrev pub status_text : QueueStatus → String
status_text queued = "queued"
status_text dispatching = "dispatching"
status_text dispatched = "dispatched"
status_text failed = "failed"
status_text stopped = "stopped"

abbrev pub add_outcome :
    String × Outcome
    → Result (List (String × Outcome)) × Queue
    → Result (List (String × Outcome)) × Queue
add_outcome outcome (ok outcomes, queue) = (ok (outcome ∷ outcomes), queue)
add_outcome outcome (err e, queue) = (err e, queue)

module _ (sha256 : String → String) where
  -- The reservation that is active, if any, must be the caller's.
  unfoldable pub check_extension : QueueState → Option String → ℕ → Result (Unit {0})
  unfolding placement_update_active placement_token_matches
  check_extension state placement_token now = do
    raise_if (not (state.status == queued)) (value_error "queued run is not eligible for extension")
    raise_if (placement_update_active state now && not (fits placement_token))
        (runtime_error "queued run has a placement update in progress")
    raise_if (not (is_none placement_token) && not (placement_update_active state now))
        (runtime_error "queue update reservation expired")
    where
      fits : Option String → Bool
      fits none = false
      fits (some token) = placement_token_matches sha256 state token

  unfoldable pub extend_queued_job :
      Queue
      → (run_id revision : String) (prepared_servers : List Server)
        (placement_token : Option String) (now : ℕ)
      → Result (Queue × Extension)
  unfolding check_extension extended
  extend_queued_job queue run_id revision prepared_servers placement_token now = do
    raise_if (not (is_run_id run_id))
        (value_error "current run_id must match rr-<16 lowercase hex>")
    raise_if (not (is_hex_text 40 (codes revision)))
        (value_error "queued job extension revision is invalid")
    raise_if (is_empty prepared_servers)
        (value_error "queued job extension requires prepared servers")
    (job, state) ← load_job sha256 queue run_id
    check_extension state placement_token now
    raise_if (not (job.revision == revision)) (value_error "queued run revision changed")
    let merged = merge_servers job.prepared_servers prepared_servers
    if length merged == length job.prepared_servers
        then ok (
          queue,
          record { added_servers = 0; prepared_servers = server_names job.prepared_servers },
        )
        else do
          updated ← validate_job sha256 (extended merged job)
          ok (
            write_job queue run_id updated,
            record {
              added_servers = length merged - length job.prepared_servers;
              prepared_servers = server_names merged;
            },
          )

  -- What an update does to a job that was loaded.
  unfoldable pub extend_loaded :
      PoolUpdate → Queue → (now : ℕ) → Job → QueueState → Result Outcome × Queue
  unfolding extended placement_update_active
  extend_loaded update queue now job state =
      if not (state.status == queued)
      then (ok (skipped (status_text state.status)), queue)
      else if placement_update_active state now
      then (ok (skipped "updating"), queue)
      else if not (is_all job.server_scope) || not (job.revision == update.revision)
      then (ok (skipped "job changed"), queue)
      else if length (merge_servers job.prepared_servers update.prepared_servers)
          == length job.prepared_servers
      then (ok unchanged, queue)
      else elim (validate_job sha256
          (extended (merge_servers job.prepared_servers update.prepared_servers) job)) [
            | err e ↦ (err e, queue)
            | ok updated ↦ (
              ok (
                  is_extended (
                    length (merge_servers job.prepared_servers update.prepared_servers)
                    - length job.prepared_servers)),
              write_job queue update.run_id updated,
            )
          ]

  -- A run that is not there is passed over; a record that does not load raises.
  unfoldable pub extend_one : PoolUpdate → Queue → (now : ℕ) → Result Outcome × Queue
  unfolding extend_loaded load_job
  extend_one update queue now =
      if not (is_run_id update.run_id)
      then (err (value_error "pool update run_id is invalid"), queue)
      else if not (is_hex_text 40 (codes update.revision))
      then (err (value_error "pool update revision is invalid"), queue)
      else if not (has queue update.run_id)
      then (ok (skipped "missing"), queue)
      else elim (load_job sha256 queue update.run_id) [
        | err e ↦ (err e, queue)
        | ok (job, state) ↦ extend_loaded update queue now job state
      ]

  -- The updates before one that raises stay written.
  unfoldable pub extend_queued_all :
      List PoolUpdate → Queue → (now : ℕ) → Result (List (String × Outcome)) × Queue
  unfolding extend_one
  extend_queued_all [] queue now = (ok [], queue)
  extend_queued_all (update ∷ updates) queue now =
      let rest = λ (q : Queue). extend_queued_all updates q now in
      let (r, q) = extend_one update queue now in
      elim r [ err e ↦ (err e, q) | ok outcome ↦ add_outcome (update.run_id, outcome) (rest q) ]
