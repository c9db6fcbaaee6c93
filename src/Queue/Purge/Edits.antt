-- ===== src/Queue/Purge/Edits.antt =====
-- registry.py: the entries that `update_queued_job` can make.
use codex_remote_runner.Prelude.{
  if◌then◌else◌, find?, string_eq, ◌==◌, nat_eq, value_error, Result, err, ok, continue, Dict, put,
  ℕ, String, Bool, true, false, not, Option, none, some, List, [], ◌∷◌,
}
use codex_remote_runner.Queue.Job.{Job, workload_eq, priority_eq, validate_job}
use codex_remote_runner.Queue.State.{
  queued, status_eq, QueueState, validate_state, placement_update_active,
}
use codex_remote_runner.Queue.Store.{Row, Queue, list_jobs}
use codex_remote_runner.Queue.Transition.{write_state}
use codex_remote_runner.Queue.Update.{
  Request, Reply, write_jobs, bumped, bump_states, bumped_runs, commit, plan_update,
  update_queued_job,
}
use codex_remote_runner.Queue.Update.Edits.{Edit}
use codex_remote_runner.Queue.Purge.Keys.{
  write_state-AddsNothing, Leaves, either, same_queue, other_answer, written, Leaves-trans,
  write_jobs-AddsNothing,
}

pub bump_states-Leaves :
    (run_id at : String) (reserved : Bool) (rows : List Row) (runs : List String) (queue : Queue)
    → Leaves queue (bump_states run_id at reserved rows runs queue)
unfolding bump_states
bump_states-Leaves run_id at reserved rows [] queue = same_queue queue _
bump_states-Leaves run_id at reserved rows (changed ∷ runs) queue =
    found_or_not (find? (λ row. row.0.run_id == changed) rows)
      (λ q. bump_states-Leaves run_id at reserved rows runs q)
  where
    written_or_not :
        (valid : Result QueueState)
        → ((q : Queue) → Leaves q (bump_states run_id at reserved rows runs q))
        → Leaves queue (elim valid as (λ _. Result (Unit {0}) × Queue) [
          | err e ↦ (err e, queue)
          | ok state' ↦ bump_states run_id at reserved rows runs (write_state queue changed state')
        ])
    written_or_not (err e) rest = same_queue queue _
    written_or_not (ok state') rest =
        Leaves-trans queue (write_state queue changed state') tt _
          (written queue (write_state queue changed state')
            (write_state-AddsNothing queue changed state'))
          (rest (write_state queue changed state'))

    found_or_not :
        (row : Option Row)
        → ((q : Queue) → Leaves q (bump_states run_id at reserved rows runs q))
        → Leaves queue (elim row as (λ _. Result (Unit {0}) × Queue) [
          | none ↦ (err (value_error "KeyError"), queue)
          | some (_, state) ↦
              elim (validate_state (bumped run_id at reserved changed state) changed)
                as (λ _. Result (Unit {0}) × Queue) [
                  | err e ↦ (err e, queue)
                  | ok state' ↦
                      bump_states run_id at reserved rows runs (write_state queue changed state')
                ]
        ])
    found_or_not none rest = same_queue queue _
    found_or_not (some (_, state)) rest =
        written_or_not (validate_state (bumped run_id at reserved changed state) changed) rest

continue-Leaves :
    {A B : Type 0} (queue : Queue) (first_call : Result A × Queue) (next : Queue → Result B × Queue)
    → Leaves queue first_call
    → ((q : Queue) → Leaves q (next q))
    → Leaves queue (continue first_call next)
continue-Leaves queue (ok a, q) next f g = Leaves-trans queue q _ _ f (g q)
continue-Leaves queue (err e, q) next f g = other_answer queue q _ _ f

module _ (sha256 : String → String) where
  write_jobs-Leaves :
      (jobs : Dict String Job) (queue : Queue) → Leaves queue (write_jobs sha256 jobs queue)
  unfolding Leaves
  write_jobs-Leaves jobs queue = write_jobs-AddsNothing sha256 jobs queue

  commit-Leaves :
      (run_id at : String) (used : Bool) (rows : List Row) (edited : Edit) (state : QueueState)
      (queue : Queue)
      → Leaves queue (commit sha256 run_id at used rows edited state queue)
  unfolding commit
  commit-Leaves run_id at used rows edited state queue =
      valid_or_not (validate_job sha256 edited.job)
    where
      all_jobs : Dict String Job
      all_jobs = put edited.to_write run_id edited.job

      runs : List String
      runs = bumped_runs rows (record edited { to_write = all_jobs })

      valid_or_not :
          (valid : Result Job)
          → Leaves queue (elim valid as (λ _. Result Reply × Queue) [
            | err e ↦ (err e, queue)
            | ok job ↦ continue (write_jobs sha256 all_jobs queue) λ q.
                continue (bump_states run_id at used rows runs q) λ q'. (
                  ok (record {
                    changed = true;
                    job = job;
                    state = bumped run_id at used run_id state;
                  }),
                  q',
                )
          ])
      valid_or_not (err e) = same_queue queue _
      valid_or_not (ok job) =
          continue-Leaves queue (write_jobs sha256 all_jobs queue) _
            (write_jobs-Leaves all_jobs queue)
            λ q.
              continue-Leaves q (bump_states run_id at used rows runs q) _
                (bump_states-Leaves run_id at used rows runs q) λ q'. same_queue q' _

  -- An update of a queued job, with all that it writes before it returns or raises.
  pub update_queued_job-Leaves :
      (queue : Queue) (run_id : String) (request : Request) (now : ℕ) (at : String)
      → Leaves queue (update_queued_job sha256 queue run_id request now at)
  unfolding update_queued_job
  update_queued_job-Leaves queue run_id request now at =
      planned_or_not (plan_update sha256 queue run_id request now)
    where
      rows : List Row
      rows = list_jobs sha256 (λ s. s == queued) queue

      planned_or_not :
          (plan : Result (Job × QueueState × Edit))
          → Leaves queue (elim plan as (λ _. Result Reply × Queue) [
            | err e ↦ (err e, queue)
            | ok (job, state, edited) ↦
                if not edited.changed
                then (ok (record { changed = false; job = job; state = state }), queue)
                else commit sha256 run_id at
                    (placement_update_active state now)
                    rows
                    edited
                    state
                    queue
          ])
      planned_or_not (err e) = same_queue queue _
      planned_or_not (ok (job, state, edited)) =
          either queue (not edited.changed) _ _ (same_queue queue _)
            (commit-Leaves run_id at (placement_update_active state now) rows edited state queue)
