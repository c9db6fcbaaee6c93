-- ===== src/Queue/Purge/Derive.antt =====
-- registry.py: `ensure_derived_job`, which submits the one run that a derivation may own, or finds it.
pub mod Laws
use codex_remote_runner.Queue.Job.{
  Job, derived_queue_schema, workload_eq, priority_eq, validate_job,
}
use codex_remote_runner.Queue.Purge.{QueueTree, load_run_tombstone, new_state, must_be_absent}
use codex_remote_runner.Queue.Store.{Row, load_job}
use codex_remote_runner.Scheduling.{WorkloadClass, standard, test}
use codex_remote_runner.Derivation.{
  Relation, validate_relation, validate_derivation, derived_run_id, Spec, spec_digest,
  same_relation,
}
use codex_remote_runner.Prelude.{
  string_eq, ◌==◌, nat_eq, value_error, Result, ok, ◌>>=◌, ◌>>◌, raise_if, get, put, get_or, ℕ,
  String, Bool, false, not, Option, none, some, List,
}

pub data Disposition : Type 0 where
  was_created was_reused : Disposition

-- The workload class by its name.
abbrev class_name : WorkloadClass → String
class_name standard = "standard"
class_name test = "test"

-- What the job's own run id, if it names one, has to be.
abbrev names_other : Option String → String → Bool
names_other none run_id = false
names_other (some submitted) run_id = not (submitted == run_id)

-- The job as it is submitted.
abbrev pub derived_job : (project_id run_id now : String) (time_ns : ℕ) → Relation → Job → Job
derived_job project_id run_id now time_ns relation job = record job {
  schema_version = derived_queue_schema;
  derivation = some relation;
  run_id = run_id;
  project_id = project_id;
  created_at = now;
  queue_position = time_ns;
}

-- `str(None)` is a text as well.
unfoldable pub derived_spec_sha256 : (spec_sha256 : Spec → String) → Relation → Job → Result String
unfolding spec_digest
derived_spec_sha256 spec_sha256 relation job = spec_digest spec_sha256 (record {
  identity = relation;
  label = job.label;
  task_id = job.task_id;
  submitted_command_sha256 = job.submitted_command_sha256;
  minimum_cores = job.minimum_cores;
  requested_cores = job.requested_cores;
  workload_class = class_name job.workload_class;
  output_relpath = get_or job.output_relpath "None";
  privacy = job.privacy;
  eligible_servers = job.eligible_servers;
})

module _ (sha256 : String → String) where
  -- An entry that is there is the answer if it has the same relation.
  unfoldable pub reuse_or_create :
      QueueTree
      → (run_id now : String) → Relation
      → Job
      → Option Row
      → Result (QueueTree × Disposition × String)
  unfolding load_job same_relation validate_relation
  reuse_or_create tree run_id now relation job none = ok (
    record tree { queue_dir = put tree.queue_dir run_id (job, new_state run_id now) },
    was_created,
    run_id,
  )
  reuse_or_create tree run_id now relation job (some entry) = do
    (existing_job, existing_state) ← load_job sha256 tree.queue_dir run_id
    existing ← validate_derivation existing_job.derivation
    raise_if (not (same_relation existing relation))
        (value_error "validator run already exists with a different immutable spec")
    ok (tree, was_reused, run_id)

  module _ (hex_digest : List String → String) (spec_sha256 : Spec → String) where
    unfoldable pub ensure_derived_job :
        QueueTree
        → (project_id : String) (submitted_run_id : Option String) (now : String) (time_ns : ℕ)
        → Job
        → Result (QueueTree × Disposition × String)
    unfolding validate_relation derived_run_id validate_job derived_spec_sha256 load_run_tombstone
        reuse_or_create
    ensure_derived_job tree project_id submitted_run_id now time_ns submitted = do
      relation ← validate_derivation submitted.derivation
      run_id ← derived_run_id hex_digest project_id relation.source_run_id relation.validator_key
      raise_if (names_other submitted_run_id run_id)
          (value_error "submitted validator run id does not match the derived identity")
      job ← validate_job sha256 (derived_job project_id run_id now time_ns relation submitted)
      recomputed ← derived_spec_sha256 spec_sha256 relation job
      raise_if (not (recomputed == relation.spec_sha256))
          (value_error "submitted validator spec digest does not match the submitted job")
      tombstone ← load_run_tombstone tree run_id
      must_be_absent tombstone (value_error "run id has been purged and cannot be reused")
      reuse_or_create tree run_id now relation job (get tree.queue_dir run_id)
