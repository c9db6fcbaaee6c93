-- ===== src/Queue/Purge/Barred.antt =====
-- registry.py: what a run tombstone does to the operations that come after it.
use codex_remote_runner.Queue.Purge.Keys.{AddsNothing, remove-AddsNothing}
use codex_remote_runner.Prelude.{
  if◌then◌else◌, Bool-cases, Option-cases, string_eq, ◌==◌, nat_eq, beq_of_ne, Error, value_error,
  err, ok, >>=-eq-ok, ok_injective, passed, get, has, put, remove, has-put, ℕ, String, ◌≡◌, refl,
  sym, ap, ◌∙◌, subst, ◌≢◌, inl, inr, Bool, true, false, not, ◌||◌, Option, none, some,
}
use codex_remote_runner.Queue.Job.{Job, workload_eq, priority_eq, validate_job}
use codex_remote_runner.Queue.State.{dispatched, failed, status_eq, is_terminal}
use codex_remote_runner.Queue.Store.{Row, load_job}
use codex_remote_runner.Queue.Purge.{
  purged, is_purged, Tombstone, QueueTree, validate_current_run_id, validate_task_identity,
  load_run_tombstone, new_tombstone, created, create_run_tombstone, completed,
  complete_run_tombstone, new_state, stamped, is_purging, submit_job, staged_for,
  stage_terminal_queue_entry, stage_failed_queue_entry,
}
use codex_remote_runner.Queue.Purge.Laws.{
  with_queue, IsBarred, load_run_tombstone-same, put_tombstone-IsBarred, absent_tombstone,
}

module _ (run_id : String) (ended : Bool) where
  created-IsBarred :
      (tree : QueueTree) (id now : String) (existing : Option Tombstone)
      → get tree.run_tombstones_dir id ≡ existing
      → IsBarred run_id ended tree
      → IsBarred run_id ended (created tree id now existing).0
  created-IsBarred tree id now (some tombstone) g b = b
  created-IsBarred tree id now none g b =
      put_tombstone-IsBarred run_id ended tree id (new_tombstone id now)
        (λ old found. cc (g, found)) b

  pub create_run_tombstone-IsBarred :
      (tree : QueueTree) (id now : String) (answer : QueueTree × Tombstone)
      → create_run_tombstone tree id now ≡ ok answer
      → IsBarred run_id ended tree
      → IsBarred run_id ended answer.0
  unfolding create_run_tombstone
  create_run_tombstone-IsBarred tree id now answer e b =
      let (existing, l, e1) = >>=-eq-ok (load_run_tombstone tree id) _ e in
      subst (λ a. IsBarred run_id ended a.0) (ok_injective _ _ e1)
        (created-IsBarred tree id now existing (load_run_tombstone-same tree id existing l) b)

  completed-IsBarred :
      (tree : QueueTree) (id now : String) (existing : Option Tombstone)
      (answer : QueueTree × Tombstone)
      → completed tree id now existing ≡ ok answer
      → IsBarred run_id ended tree
      → IsBarred run_id ended answer.0
  completed-IsBarred tree id now none answer e b = cc
  completed-IsBarred tree id now (some tombstone) answer e b =
      elim (Bool-cases (is_purged tombstone.status)) [
        | inl over ↦ subst (λ a. IsBarred run_id ended a.0) (ok_injective _ _ (rw over at e)) b
        | inr running ↦
            subst (λ a. IsBarred run_id ended a.0) (ok_injective _ _ (rw running at e))
              (put_tombstone-IsBarred run_id ended tree id
                (record tombstone { status = purged; completed_at = some now })
                (λ old found h k. refl) b)
      ]

  pub complete_run_tombstone-IsBarred :
      (tree : QueueTree) (id now : String) (answer : QueueTree × Tombstone)
      → complete_run_tombstone tree id now ≡ ok answer
      → IsBarred run_id ended tree
      → IsBarred run_id ended answer.0
  unfolding complete_run_tombstone
  complete_run_tombstone-IsBarred tree id now answer e b =
      let (existing, l, e1) = >>=-eq-ok (load_run_tombstone tree id) _ e in
      completed-IsBarred tree id now existing answer e1 b

  -- A run that is absent stays absent when another one enters the queue.
  pub put_queue-IsBarred :
      (tree : QueueTree) (id : String) (row : Row)
      → id ≢ run_id
      → IsBarred run_id ended tree
      → IsBarred run_id ended (with_queue tree (put tree.queue_dir id row))
  put_queue-IsBarred tree id row ne b = record {
    absent = has-put tree.queue_dir id run_id row ∙ rw (beq_of_ne id run_id ne) b.absent;
    tombstone = b.tombstone;
    stands = b.stands;
    is_ended = b.is_ended;
  }

  pub submit_job-IsBarred :
      (sha256 : String → String) (tree : QueueTree) (project_id generated now : String)
      (time_ns : ℕ) (job : Job) (answer : QueueTree × String)
      → submit_job sha256 tree project_id generated now time_ns job ≡ ok answer
      → IsBarred run_id ended tree
      → IsBarred run_id ended answer.0
  unfolding submit_job
  submit_job-IsBarred sha256 tree project_id generated now time_ns job answer e b =
      let sent = stamped project_id generated now time_ns job in
      let (valid, _, e1) = >>=-eq-ok (validate_job sha256 sent) _ e in
      let (tombstone, l, e2) = >>=-eq-ok (load_run_tombstone tree sent.run_id) _ e1 in
      let (nothing, e3) =
        absent_tombstone tombstone (value_error "run id has been purged and cannot be reused") _
          answer e2 in
      let (_, e4) = passed (has tree.queue_dir sent.run_id) _ _ e3 in
      let other : sent.run_id ≢ run_id = λ q. cc (
        load_run_tombstone-same tree sent.run_id tombstone l,
        nothing,
        ap (get tree.run_tombstones_dir) q,
        b.stands,
      ) in
      subst (λ a. IsBarred run_id ended a.0) (ok_injective _ _ e4)
        (put_queue-IsBarred tree sent.run_id (valid, new_state sent.run_id now) other b)

  -- A move out of the queue.
  moved-IsBarred :
      (tree tree' : QueueTree) (id : String)
      → tree'.queue_dir ≡ remove tree.queue_dir id
      → tree'.run_tombstones_dir ≡ tree.run_tombstones_dir
      → IsBarred run_id ended tree
      → IsBarred run_id ended tree'
  unfolding AddsNothing
  moved-IsBarred tree tree' id q t b = record {
    absent = ap (λ d. has d run_id) q ∙ remove-AddsNothing tree.queue_dir id run_id b.absent;
    tombstone = b.tombstone;
    stands = ap (λ d. get d run_id) t ∙ b.stands;
    is_ended = b.is_ended;
  }

  -- The answer for an entry that is not in the queue.
  nothing_moved :
      (tree tree' : QueueTree) (staged : Bool) (e : Error)
      → (if staged then ok tree else err e) ≡ ok tree'
      → IsBarred run_id ended tree
      → IsBarred run_id ended tree'
  nothing_moved tree tree' true e h b = subst (IsBarred run_id ended) (ok_injective _ _ h) b
  nothing_moved tree tree' false e h b = cc

  pub stage_terminal_queue_entry-IsBarred :
      (sha256 task_digest : String → String) (tree tree' : QueueTree) (id task_id : String)
      → stage_terminal_queue_entry sha256 task_digest tree id task_id ≡ ok tree'
      → IsBarred run_id ended tree
      → IsBarred run_id ended tree'
  unfolding stage_terminal_queue_entry
  stage_terminal_queue_entry-IsBarred sha256 task_digest tree tree' id task_id e b =
      let (identity, _, e1) = >>=-eq-ok (validate_task_identity task_id) _ e in
      let staged = staged_for tree (task_digest identity) in
      elim (Option-cases (get tree.queue_dir id)) [
        | inl missing ↦ nothing_moved tree tree' (has staged id) _ (rw missing at e1) b
        | inr (source, found) ↦
            let ((job, state), _, e2) =
              >>=-eq-ok (load_job sha256 tree.queue_dir id) _ (rw found at e1) in
            let (_, e3) = passed (not (job.task_id == identity)) _ _ e2 in
            let (_, e4) = passed (not (is_terminal state.status)) _ _ e3 in
            let (_, e5) = passed (has staged id) _ _ e4 in
            let same_tree = sym (ok_injective _ _ e5) in
            moved-IsBarred tree tree' id (ap (λ t. t.queue_dir) same_tree)
              (ap (λ t. t.run_tombstones_dir) same_tree) b
      ]

  pub stage_failed_queue_entry-IsBarred :
      (sha256 task_digest : String → String) (tree tree' : QueueTree) (id task_id : String)
      → stage_failed_queue_entry sha256 task_digest tree id task_id ≡ ok tree'
      → IsBarred run_id ended tree
      → IsBarred run_id ended tree'
  unfolding stage_failed_queue_entry
  stage_failed_queue_entry-IsBarred sha256 task_digest tree tree' id task_id e b =
      let (own_id, _, e1) = >>=-eq-ok (validate_current_run_id id) _ e in
      let (identity, _, e2) = >>=-eq-ok (validate_task_identity task_id) _ e1 in
      elim (Option-cases (get tree.queue_dir own_id)) [
        | inl missing ↦
            nothing_moved tree tree' (has tree.run_purges_dir own_id) _ (rw missing at e2) b
        | inr (source, found) ↦
            let ((job, state), _, e3) =
              >>=-eq-ok (load_job sha256 tree.queue_dir own_id) _ (rw found at e2) in
            let (_, e4) = passed (not (job.task_id == identity)) _ _ e3 in
            let (_, e5) =
              passed (not (state.status == dispatched || state.status == failed)) _ _ e4 in
            let (tombstone, _, e6) = >>=-eq-ok (load_run_tombstone tree own_id) _ e5 in
            let (_, e7) = passed (not (is_purging tombstone)) _ _ e6 in
            let (_, e8) = passed (has tree.run_purges_dir own_id) _ _ e7 in
            let same_tree = sym (ok_injective _ _ e8) in
            moved-IsBarred tree tree' own_id (ap (λ t. t.queue_dir) same_tree)
              (ap (λ t. t.run_tombstones_dir) same_tree) b
      ]
