-- ===== src/Queue/Purge/Steps.antt =====
-- registry.py: the entries that the operations on one queued job can make.
use codex_remote_runner.Prelude.{
  Bool-cases, length, is_empty, contains, string_eq, ◌==◌, nat_eq, ok, >>=-eq-ok, ok_injective,
  passed, is_none, ℕ, String, ◌≡◌, subst, inl, inr, Bool, not, Option, List,
}
use codex_remote_runner.Text.{codes, is_hex_text, is_run_id}
use codex_remote_runner.Machines.Identity.{Server}
use codex_remote_runner.Queue.Job.{workload_eq, priority_eq, validate_job}
use codex_remote_runner.Queue.State.{
  QueueStatus, status_eq, QueueState, validate_state, placement_token_matches,
}
use codex_remote_runner.Queue.Store.{Queue, load_job}
use codex_remote_runner.Queue.Transition.{edit_state, purge_queue_entry}
use codex_remote_runner.Queue.Reserve.{
  reserved, check_reservation, released, reserve_queued_job_update, release_queued_job_update,
}
use codex_remote_runner.Queue.Extend.{
  merge_servers, extended, Extension, check_extension, extend_queued_job,
}
use codex_remote_runner.Queue.Purge.Keys.{
  AddsNothing, AddsNothing-refl, remove-AddsNothing, write_state-AddsNothing, write_job-AddsNothing,
  edit_state-AddsNothing,
}

module _ (sha256 : String → String) where
  pub reserve_queued_job_update-AddsNothing :
      (queue : Queue) (run_id : String) (expected_revision : ℕ) (requested_servers : List String)
      (ttl_seconds now : ℕ) (at token : String) (answer : Queue × String × QueueState)
      → reserve_queued_job_update sha256 queue run_id expected_revision requested_servers
          ttl_seconds now at token
        ≡ ok answer
      → AddsNothing queue answer.0
  unfolding reserve_queued_job_update
  reserve_queued_job_update-AddsNothing queue run_id expected_revision requested_servers ttl_seconds
        now at token answer e =
      let (_, _, e1) = >>=-eq-ok (check_reservation run_id requested_servers ttl_seconds) _ e in
      let (edited, f, e2) =
        >>=-eq-ok
          (edit_state sha256
            (reserved (sha256 token) expected_revision requested_servers ttl_seconds now at) queue
            run_id)
          _ e1 in
      subst (λ a. AddsNothing queue a.0) (ok_injective _ _ e2)
        (edit_state-AddsNothing sha256 _ queue run_id edited f)

  pub release_queued_job_update-AddsNothing :
      (queue : Queue) (run_id at token : String) (answer : Queue × Bool × QueueState)
      → release_queued_job_update sha256 queue run_id at token ≡ ok answer
      → AddsNothing queue answer.0
  unfolding release_queued_job_update
  release_queued_job_update-AddsNothing queue run_id at token answer e =
      let (_, e1) = passed (not (is_run_id run_id)) _ _ e in
      let (_, e2) = passed (is_empty (codes token)) _ _ e1 in
      let ((job, state), _, e3) = >>=-eq-ok (load_job sha256 queue run_id) _ e2 in
      elim (Bool-cases (is_none state.placement_update)) [
        | inl free ↦
            subst (λ a. AddsNothing queue a.0) (ok_injective _ _ (rw free at e3))
              (AddsNothing-refl queue)
        | inr held ↦
            let (_, e4) =
              passed (not (placement_token_matches sha256 state token)) _ _ (rw held at e3) in
            let (updated, _, e5) = >>=-eq-ok (validate_state (released at state) run_id) _ e4 in
            subst (λ a. AddsNothing queue a.0) (ok_injective _ _ e5)
              (write_state-AddsNothing queue run_id updated)
      ]

  pub extend_queued_job-AddsNothing :
      (queue : Queue) (run_id revision : String) (prepared_servers : List Server)
      (placement_token : Option String) (now : ℕ) (answer : Queue × Extension)
      → extend_queued_job sha256 queue run_id revision prepared_servers placement_token now
        ≡ ok answer
      → AddsNothing queue answer.0
  unfolding extend_queued_job
  extend_queued_job-AddsNothing queue run_id revision prepared_servers placement_token now answer
        e =
      let (_, e1) = passed (not (is_run_id run_id)) _ _ e in
      let (_, e2) = passed (not (is_hex_text 40 (codes revision))) _ _ e1 in
      let (_, e3) = passed (is_empty prepared_servers) _ _ e2 in
      let ((job, state), _, e4) = >>=-eq-ok (load_job sha256 queue run_id) _ e3 in
      let (_, _, e5) = >>=-eq-ok (check_extension sha256 state placement_token now) _ e4 in
      let (_, e6) = passed (not (job.revision == revision)) _ _ e5 in
      let merged = merge_servers job.prepared_servers prepared_servers in
      elim (Bool-cases (length merged == length job.prepared_servers)) [
        | inl same_length ↦
            subst (λ a. AddsNothing queue a.0) (ok_injective _ _ (rw same_length at e6))
              (AddsNothing-refl queue)
        | inr longer ↦
            let (updated, _, e7) =
              >>=-eq-ok (validate_job sha256 (extended merged job)) _ (rw longer at e6) in
            subst (λ a. AddsNothing queue a.0) (ok_injective _ _ e7)
              (write_job-AddsNothing queue run_id updated)
      ]

  pub purge_queue_entry-AddsNothing :
      (queue : Queue) (run_id : String) (allowed_statuses : List QueueStatus) (answer : Queue)
      → purge_queue_entry sha256 queue run_id allowed_statuses ≡ ok answer
      → AddsNothing queue answer
  unfolding purge_queue_entry
  purge_queue_entry-AddsNothing queue run_id allowed_statuses answer e =
      let (_, e1) = passed _ _ _ e in
      let (row, _, e2) = >>=-eq-ok (load_job sha256 queue run_id) _ e1 in
      let (_, e3) = passed (not (contains allowed_statuses row.1.status)) _ _ e2 in
      subst (AddsNothing queue) (ok_injective _ _ e3) (remove-AddsNothing queue run_id)
