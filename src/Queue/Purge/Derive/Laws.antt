-- ===== src/Queue/Purge/Derive/Laws.antt =====
-- registry.py: what `ensure_derived_job` leaves in the queue.
use codex_remote_runner.Prelude.{
  Option-cases, string_eq, ◌==◌, nat_eq, value_error, ok, >>=-eq-ok, ok_injective, passed, get, put,
  ℕ, String, ◌≡◌, sym, ap, ◌∙◌, subst, ◌≢◌, inl, inr, Bool, not, Option, none, some, List,
}
use codex_remote_runner.Derivation.{
  Relation, validate_derivation, derived_run_id, Spec, same_relation,
}
use codex_remote_runner.Queue.Job.{Job, workload_eq, priority_eq, validate_job}
use codex_remote_runner.Queue.State.{status_eq}
use codex_remote_runner.Queue.Store.{Row, Queue, load_job}
use codex_remote_runner.Queue.Purge.{QueueTree, load_run_tombstone, new_state}
use codex_remote_runner.Queue.Purge.Laws.{IsBarred, load_run_tombstone-same, absent_tombstone}
use codex_remote_runner.Queue.Purge.Barred.{put_queue-IsBarred}
use codex_remote_runner.Queue.Purge.Derive.{
  Disposition, was_created, was_reused, names_other, derived_job, derived_spec_sha256,
  reuse_or_create, ensure_derived_job,
}

-- What a call that returns has passed.
pub record Ensured (sha256 : String → String) (hex_digest : List String → String) (tree : QueueTree)
    (project_id now : String) (time_ns : ℕ) (job : Job) (answer : QueueTree × Disposition × String)
    : Type 0 where
  pub relation : Relation
  pub run_id : String
  pub accepted : Job
  pub derives_from : validate_derivation job.derivation ≡ ok relation
  pub identified :
      derived_run_id hex_digest project_id relation.source_run_id relation.validator_key ≡ ok run_id
  pub valid :
      validate_job sha256 (derived_job project_id run_id now time_ns relation job) ≡ ok accepted
  pub unpurged : get tree.run_tombstones_dir run_id ≡ none
  pub last :
      reuse_or_create sha256 tree run_id now relation accepted (get tree.queue_dir run_id)
      ≡ ok answer

module _ (sha256 : String → String) (hex_digest : List String → String)
    (spec_sha256 : Spec → String) where
  ensure_derived_job-Ensured :
      (tree : QueueTree) (project_id : String) (submitted_run_id : Option String) (now : String)
      (time_ns : ℕ) (job : Job) (answer : QueueTree × Disposition × String)
      → ensure_derived_job sha256 hex_digest spec_sha256 tree project_id submitted_run_id now
          time_ns job
        ≡ ok answer
      → Ensured sha256 hex_digest tree project_id now time_ns job answer
  unfolding ensure_derived_job
  ensure_derived_job-Ensured tree project_id submitted_run_id now time_ns job answer e =
      let (relation, d, e1) = >>=-eq-ok (validate_derivation job.derivation) _ e in
      let (id, i, e2) =
        >>=-eq-ok
          (derived_run_id hex_digest project_id relation.source_run_id relation.validator_key) _
          e1 in
      let (_, e3) = passed (names_other submitted_run_id id) _ _ e2 in
      let (accepted, v, e4) =
        >>=-eq-ok (validate_job sha256 (derived_job project_id id now time_ns relation job)) _ e3 in
      let (digest, _, e5) = >>=-eq-ok (derived_spec_sha256 spec_sha256 relation accepted) _ e4 in
      let (_, e6) = passed (not (digest == relation.spec_sha256)) _ _ e5 in
      let (tombstone, l, e7) = >>=-eq-ok (load_run_tombstone tree id) _ e6 in
      let (nothing, e8) =
        absent_tombstone tombstone (value_error "run id has been purged and cannot be reused") _
          answer e7 in
      record {
        relation = relation;
        run_id = id;
        accepted = accepted;
        derives_from = d;
        identified = i;
        valid = v;
        unpurged = load_run_tombstone-same tree id tombstone l ∙ nothing;
        last = e8;
      }

  -- An entry that is there leaves the queue as it is.
  reused :
      (tree : QueueTree) (id now : String) (relation : Relation) (job : Job) (entry : Row)
      (answer : QueueTree × Disposition × String)
      → reuse_or_create sha256 tree id now relation job (some entry) ≡ ok answer
      → answer ≡ (tree, was_reused, id)
  unfolding reuse_or_create
  reused tree id now relation job entry answer e =
      let (row, _, e1) = >>=-eq-ok (load_job sha256 tree.queue_dir id) _ e in
      let (existing, _, e2) = >>=-eq-ok (validate_derivation row.0.derivation) _ e1 in
      let (_, e3) = passed (not (same_relation existing relation)) _ _ e2 in
      sym (ok_injective _ _ e3)

  created :
      (tree : QueueTree) (id now : String) (relation : Relation) (job : Job)
      (answer : QueueTree × Disposition × String)
      → reuse_or_create sha256 tree id now relation job none ≡ ok answer
      → answer ≡ (
        record tree { queue_dir = put tree.queue_dir id (job, new_state id now) },
        was_created,
        id,
      )
  unfolding reuse_or_create
  created tree id now relation job answer e = sym (ok_injective _ _ e)

module _ (run_id : String) (ended : Bool) (sha256 : String → String)
    (hex_digest : List String → String) (spec_sha256 : Spec → String) where
  pub ensure_derived_job-IsBarred :
      (tree : QueueTree) (project_id : String) (submitted_run_id : Option String) (now : String)
      (time_ns : ℕ) (job : Job) (answer : QueueTree × Disposition × String)
      → ensure_derived_job sha256 hex_digest spec_sha256 tree project_id submitted_run_id now
          time_ns job
        ≡ ok answer
      → IsBarred run_id ended tree
      → IsBarred run_id ended answer.0
  ensure_derived_job-IsBarred tree project_id submitted_run_id now time_ns job answer e b =
      let g =
        ensure_derived_job-Ensured sha256 hex_digest spec_sha256 tree project_id submitted_run_id
          now time_ns job answer e in
      elim (Option-cases (get tree.queue_dir g.run_id)) [
        | inr (entry, found) ↦
            subst (λ (a : QueueTree × Disposition × String). IsBarred run_id ended a.0)
              (sym (
                reused sha256 hex_digest spec_sha256 tree g.run_id now g.relation g.accepted entry
                  answer (rw found at g.last)))
              b
        | inl missing ↦
            let other : g.run_id ≢ run_id =
              λ q. cc (g.unpurged, ap (get tree.run_tombstones_dir) q, b.stands) in
            subst (λ (a : QueueTree × Disposition × String). IsBarred run_id ended a.0)
              (sym (
                created sha256 hex_digest spec_sha256 tree g.run_id now g.relation g.accepted answer
                  (rw missing at g.last)))
              (put_queue-IsBarred run_id ended tree g.run_id (g.accepted, new_state g.run_id now)
                other b)
      ]
