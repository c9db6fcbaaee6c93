-- ===== src/Queue/Purge/Submit.antt =====
-- registry.py: what `submit_job` leaves in the queue.
use codex_remote_runner.Prelude.{
  string_eq, nat_eq, beq_self, value_error, file_not_found, err, ok, >>=-eq-ok, >>=-ok,
  ok_injective, passed, get, has, put, get-put_self, get-absent, ℕ, String, ◌≡◌, refl, ◌∙◌, subst,
  false, none,
}
use codex_remote_runner.Queue.Job.{Job, workload_eq, priority_eq, validate_job}
use codex_remote_runner.Queue.State.{status_eq, validate_state}
use codex_remote_runner.Queue.Store.{Queue, load_job}
use codex_remote_runner.Queue.Valid.{validate_job-again}
use codex_remote_runner.Queue.Purge.{QueueTree, load_run_tombstone, new_state, stamped, submit_job}
use codex_remote_runner.Queue.Purge.Laws.{load_run_tombstone-same, absent_tombstone}

validate_new_state :
    (id now : String) → validate_state (new_state id now) id ≡ ok (new_state id now)
unfolding validate_state
validate_new_state id now = rw (beq_self id) refl

module _ (sha256 : String → String) where
  load_missing :
      (queue : Queue) (id : String)
      → has queue id ≡ false
      → load_job sha256 queue id ≡ err (file_not_found "queued run does not exist")
  unfolding load_job
  load_missing queue id h = rw (load_job, get-absent queue id h) refl

  pub load_new :
      (queue : Queue) (job checked : Job) (id now : String)
      → validate_job sha256 job ≡ ok checked
      → load_job sha256 (put queue id (checked, new_state id now)) id
        ≡ ok (checked, new_state id now)
  unfolding load_job
  load_new queue job checked id now v =
      rw (load_job, get-put_self queue id (checked, new_state id now))
        (>>=-ok _ (validate_job-again sha256 job checked v) ∙ >>=-ok _ (validate_new_state id now))

  -- If a job is submitted, its run was not in the queue before and had no tombstone, and afterwards
  -- the queue loads it as the job that its validation gave, queued and at revision 0.
  pub submit_job-load_job :
      (tree tree' : QueueTree) (project_id generated now : String) (time_ns : ℕ) (job : Job)
      (run_id : String)
      → submit_job sha256 tree project_id generated now time_ns job ≡ ok (tree', run_id)
      → (load_job sha256 tree.queue_dir run_id ≡ err (file_not_found "queued run does not exist"))
        × (get tree.run_tombstones_dir run_id ≡ none)
        × (accepted : Job) × (validate_job sha256 (stamped project_id generated now time_ns job)
            ≡ ok accepted)
        × (load_job sha256 tree'.queue_dir run_id ≡ ok (accepted, new_state run_id now))
  unfolding submit_job
  submit_job-load_job tree tree' project_id generated now time_ns job run_id e =
      let sent = stamped project_id generated now time_ns job in
      let id = sent.run_id in
      let (accepted, v, e1) = >>=-eq-ok (validate_job sha256 sent) _ e in
      let (tombstone, l, e2) = >>=-eq-ok (load_run_tombstone tree id) _ e1 in
      let (nothing, e3) =
        absent_tombstone tombstone (value_error "run id has been purged and cannot be reused") _
          (tree', run_id) e2 in
      let (fresh, e4) = passed (has tree.queue_dir id) _ _ e3 in
      subst
        (λ (a : QueueTree × String).
          (load_job sha256 tree.queue_dir a.1 ≡ err (file_not_found "queued run does not exist"))
          × (get tree.run_tombstones_dir a.1 ≡ none)
          × (accepted : Job) × (validate_job sha256 sent ≡ ok accepted)
          × (load_job sha256 a.0.queue_dir a.1 ≡ ok (accepted, new_state a.1 now)))
        (ok_injective _ _ e4)
        (
          load_missing tree.queue_dir id fresh,
          load_run_tombstone-same tree id tombstone l ∙ nothing,
          accepted,
          v,
          load_new tree.queue_dir sent accepted id now v,
        )
