-- ===== src/Queue/Purge/Keys.antt =====
-- registry.py: which entries the operations on the queue can make.
use codex_remote_runner.Prelude.{
  if◌then◌else◌, length, string_eq, ◌==◌, nat_eq, Result, err, ok, >>=-eq-ok, ok_injective,
  Result-cases, Dict, has, remove, ℕ, ◌-◌, String, ◌≡◌, refl, subst, inl, inr, Bool, true, false,
  not, ◌||◌, List, [], ◌∷◌, arith,
}
use codex_remote_runner.Text.{codes, is_hex_text, is_run_id}
use codex_remote_runner.Queue.Job.{Job, workload_eq, priority_eq, validate_job}
use codex_remote_runner.Queue.State.{
  queued, status_eq, QueueState, validate_state, placement_update_active,
}
use codex_remote_runner.Queue.Store.{Row, Queue, load_job}
use codex_remote_runner.Queue.Transition.{write_state, write_job, edit_state}
use codex_remote_runner.Queue.Extend.{
  merge_servers, extended, Outcome, is_extended, PoolUpdate, is_all, add_outcome, extend_loaded,
  extend_one, extend_queued_all,
}
use codex_remote_runner.Queue.Update.{write_jobs}

-- No run enters the queue.
unfoldable pub AddsNothing : Queue → Queue → Type 0
AddsNothing queue queue' = (id : String) → has queue id ≡ false → has queue' id ≡ false

pub AddsNothing-refl : (queue : Queue) → AddsNothing queue queue
unfolding AddsNothing
AddsNothing-refl queue id h = h

pub AddsNothing-trans : (a b c : Queue) → AddsNothing a b → AddsNothing b c → AddsNothing a c
unfolding AddsNothing
AddsNothing-trans a b c f g id h = g id (f id h)

pub remove-AddsNothing : (queue : Queue) (run_id : String) → AddsNothing queue (remove queue run_id)
unfolding AddsNothing
remove-AddsNothing [] run_id id h = refl
remove-AddsNothing ((k, row) ∷ queue) run_id id h =
    ground (arith, h, remove-AddsNothing queue run_id id)

pub write_state-AddsNothing :
    (queue : Queue) (run_id : String) (state : QueueState)
    → AddsNothing queue (write_state queue run_id state)
unfolding AddsNothing write_state
write_state-AddsNothing [] run_id state id h = refl
write_state-AddsNothing ((k, (job, old)) ∷ queue) run_id state id h =
    ground (arith, h, write_state-AddsNothing queue run_id state id)

pub write_job-AddsNothing :
    (queue : Queue) (run_id : String) (job : Job) → AddsNothing queue (write_job queue run_id job)
unfolding AddsNothing write_job
write_job-AddsNothing [] run_id job id h = refl
write_job-AddsNothing ((k, (old, state)) ∷ queue) run_id job id h =
    ground (arith, h, write_job-AddsNothing queue run_id job id)

-- A call that leaves a queue beside its result, whichever way it goes.
unfoldable pub Leaves : {A : Type 0} → Queue → A × Queue → Type 0
Leaves queue answer = AddsNothing queue answer.1

pub either :
    {A : Type 0} (queue : Queue) (b : Bool) (x y : A × Queue)
    → Leaves queue x
    → Leaves queue y
    → Leaves queue (if b then x else y)
either queue true x y f g = f
either queue false x y f g = g

pub same_queue : {A : Type 0} (queue : Queue) (answer : A) → Leaves queue (answer, queue)
unfolding Leaves
same_queue queue answer = AddsNothing-refl queue

written_if_valid :
    {A : Type 0} (queue : Queue) (run_id : String) (valid : Result Job) (answer : Job → A)
    → Leaves queue (elim valid as (λ _. Result A × Queue) [
      | err e ↦ (err e, queue)
      | ok updated ↦ (ok (answer updated), write_job queue run_id updated)
    ])
unfolding Leaves
written_if_valid queue run_id (err e) answer = AddsNothing-refl queue
written_if_valid queue run_id (ok updated) answer = write_job-AddsNothing queue run_id updated

pub other_answer :
    {A B : Type 0} (queue q : Queue) (a : A) (b : B) → Leaves queue (a, q) → Leaves queue (b, q)
unfolding Leaves
other_answer queue q a b f = f

pub written : (queue q : Queue) → AddsNothing queue q → Leaves {A = Unit {0}} queue (tt, q)
unfolding Leaves
written queue q f = f

pub Leaves-trans :
    {A B : Type 0} (queue q : Queue) (a : A) (answer : B × Queue)
    → Leaves queue (a, q)
    → Leaves q answer
    → Leaves queue answer
unfolding Leaves
Leaves-trans queue q a answer f g = AddsNothing-trans queue q answer.1 f g

add_outcome-Leaves :
    (queue : Queue) (outcome : String × Outcome) (rest : Result (List (String × Outcome)) × Queue)
    → Leaves queue rest
    → Leaves queue (add_outcome outcome rest)
unfolding Leaves
add_outcome-Leaves queue outcome (ok outcomes, q) f = f
add_outcome-Leaves queue outcome (err e, q) f = f

module _ (sha256 : String → String) where
  pub edit_state-AddsNothing :
      (edit : QueueState → Result QueueState) (queue : Queue) (run_id : String)
      (answer : Queue × QueueState)
      → edit_state sha256 edit queue run_id ≡ ok answer
      → AddsNothing queue answer.0
  unfolding edit_state
  edit_state-AddsNothing edit queue run_id answer e =
      let (row, _, e1) = >>=-eq-ok (load_job sha256 queue run_id) _ e in
      let (edited, _, e2) = >>=-eq-ok (edit row.1) _ e1 in
      let (updated, _, e3) = >>=-eq-ok (validate_state edited run_id) _ e2 in
      subst (λ a. AddsNothing queue a.0) (ok_injective _ _ e3)
        (write_state-AddsNothing queue run_id updated)

  pub write_jobs-AddsNothing :
      (jobs : Dict String Job) (queue : Queue) → AddsNothing queue (write_jobs sha256 jobs queue).1
  unfolding write_jobs
  write_jobs-AddsNothing [] queue = AddsNothing-refl queue
  write_jobs-AddsNothing ((run_id, job) ∷ jobs) queue =
      elim (Result-cases (validate_job sha256 job)) [
        | inl (e, raised) ↦ rw (raised, write_jobs) (AddsNothing-refl queue)
        | inr (job', valid) ↦
            rw (valid, write_jobs)
              (AddsNothing-trans queue (write_job queue run_id job') _
                (write_job-AddsNothing queue run_id job')
                (write_jobs-AddsNothing jobs (write_job queue run_id job')))
      ]

  extend_loaded-Leaves :
      (update : PoolUpdate) (queue : Queue) (now : ℕ) (job : Job) (state : QueueState)
      → Leaves queue (extend_loaded sha256 update queue now job state)
  unfolding extend_loaded
  extend_loaded-Leaves update queue now job state =
      let merged = merge_servers job.prepared_servers update.prepared_servers in
      either queue (not (state.status == queued)) _ _ (same_queue queue _) (
        either queue (placement_update_active state now) _ _ (same_queue queue _) (
          either queue (not (is_all job.server_scope) || not (job.revision == update.revision)) _ _
            (same_queue queue _)
            (either queue (length merged == length job.prepared_servers) _ _ (same_queue queue _) (
              written_if_valid queue update.run_id (validate_job sha256 (extended merged job))
                (λ updated. is_extended (length merged - length job.prepared_servers))))))

  extend_one-Leaves :
      (update : PoolUpdate) (queue : Queue) (now : ℕ)
      → Leaves queue (extend_one sha256 update queue now)
  unfolding extend_one
  extend_one-Leaves update queue now =
      either queue (not (is_run_id update.run_id)) _ _ (same_queue queue _) (
        either queue (not (is_hex_text 40 (codes update.revision))) _ _ (same_queue queue _) (
          either queue (not (has queue update.run_id)) _ _ (same_queue queue _)
            (loaded_or_not (load_job sha256 queue update.run_id))))
    where
      loaded_or_not :
          (row : Result Row)
          → Leaves queue (elim row as (λ _. Result Outcome × Queue) [
            | err e ↦ (err e, queue)
            | ok (job, state) ↦ extend_loaded sha256 update queue now job state
          ])
      loaded_or_not (err e) = same_queue queue _
      loaded_or_not (ok (job, state)) = extend_loaded-Leaves update queue now job state

  -- The later updates work on what the earlier ones left.
  pub extend_queued_all-Leaves :
      (updates : List PoolUpdate) (queue : Queue) (now : ℕ)
      → Leaves queue (extend_queued_all sha256 updates queue now)
  unfolding extend_queued_all
  extend_queued_all-Leaves [] queue now = same_queue queue _
  extend_queued_all-Leaves (update ∷ updates) queue now =
      then_rest (extend_one sha256 update queue now) (extend_one-Leaves update queue now)
        (λ q. extend_queued_all-Leaves updates q now)
    where
      then_rest :
          (one : Result Outcome × Queue)
          → Leaves queue one
          → ((q : Queue) → Leaves q (extend_queued_all sha256 updates q now))
          → Leaves queue (elim one.0 as (λ _. Result (List (String × Outcome)) × Queue) [
            | err e ↦ (err e, one.1)
            | ok outcome ↦
                add_outcome (update.run_id, outcome) (extend_queued_all sha256 updates one.1 now)
          ])
      then_rest (err e, q) f rest = other_answer queue q _ _ f
      then_rest (ok outcome, q) f rest = Leaves-trans queue q _ _ f (
          add_outcome-Leaves q (update.run_id, outcome) (extend_queued_all sha256 updates q now)
            (rest q))
