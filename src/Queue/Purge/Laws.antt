-- ===== src/Queue/Purge/Laws.antt =====
-- registry.py: sequences of the operations that write the queue or its tombstones.
use codex_remote_runner.Prelude.{
  Bool-cases, string_eq, ◌==◌, nat_eq, eq_of_beq, Error, Result, ok, ◌>>◌, ok_injective, passed,
  get, has, get-put, ℕ, String, ◌≡◌, refl, ◌∙◌, inl, inr, Bool, true, false, not, ◌||◌, Option,
  none, some, List,
}
use codex_remote_runner.Text.{is_run_id}
use codex_remote_runner.Machines.Identity.{Server}
use codex_remote_runner.Queue.Job.{Job, workload_eq, priority_eq}
use codex_remote_runner.Queue.State.{QueueStatus, status_eq, QueueState}
use codex_remote_runner.Queue.Store.{Queue}
use codex_remote_runner.Queue.Transition.{
  transition_queued_state, recover_dispatching_state, purge_queue_entry,
}
use codex_remote_runner.Queue.Reserve.{reserve_queued_job_update, release_queued_job_update}
use codex_remote_runner.Queue.Extend.{Extension, PoolUpdate, extend_queued_job, extend_queued_all}
use codex_remote_runner.Queue.Update.{Request, update_queued_job}
use codex_remote_runner.Queue.Purge.{
  is_purged, Tombstone, QueueTree, validate_current_run_id, check_tombstone, load_run_tombstone,
  put_tombstone, create_run_tombstone, complete_run_tombstone, must_be_absent, submit_job,
  stage_terminal_queue_entry, stage_failed_queue_entry,
}
use codex_remote_runner.Derivation.{Spec}
use codex_remote_runner.Queue.Purge.Derive.{Disposition, ensure_derived_job}
use codex_remote_runner.Queue.Purge.Keys.{AddsNothing}

abbrev pub with_queue : QueueTree → Queue → QueueTree
with_queue tree queue = record tree { queue_dir = queue }

module _ (sha256 task_digest : String → String) where
  -- One call that may write. A call that writes before it raises is one as well.
  pub data Step (tree : QueueTree) : QueueTree → Type 0 where
    creates :
        (run_id now : String) (answer : QueueTree × Tombstone)
        → create_run_tombstone tree run_id now ≡ ok answer
        → Step tree answer.0
    completes :
        (run_id now : String) (answer : QueueTree × Tombstone)
        → complete_run_tombstone tree run_id now ≡ ok answer
        → Step tree answer.0
    submits :
        (project_id generated now : String) (time_ns : ℕ) (job : Job) (answer : QueueTree × String)
        → submit_job sha256 tree project_id generated now time_ns job ≡ ok answer
        → Step tree answer.0
    derives :
        (hex_digest : List String → String) (spec_sha256 : Spec → String) (project_id : String)
        (submitted_run_id : Option String) (now : String) (time_ns : ℕ) (job : Job)
        (answer : QueueTree × Disposition × String)
        → ensure_derived_job sha256 hex_digest spec_sha256 tree project_id submitted_run_id now
            time_ns job
          ≡ ok answer
        → Step tree answer.0
    stages_terminal :
        (run_id task_id : String) (tree' : QueueTree)
        → stage_terminal_queue_entry sha256 task_digest tree run_id task_id ≡ ok tree'
        → Step tree tree'
    stages_failed :
        (run_id task_id : String) (tree' : QueueTree)
        → stage_failed_queue_entry sha256 task_digest tree run_id task_id ≡ ok tree'
        → Step tree tree'
    purges :
        (run_id : String) (allowed_statuses : List QueueStatus) (queue : Queue)
        → purge_queue_entry sha256 tree.queue_dir run_id allowed_statuses ≡ ok queue
        → Step tree (with_queue tree queue)
    transitions :
        (run_id : String) (expected_revision : ℕ) (status : QueueStatus) (error : Option String)
        (at : String) (answer : Queue × QueueState)
        → transition_queued_state sha256 tree.queue_dir run_id expected_revision status error at
          ≡ ok answer
        → Step tree (with_queue tree answer.0)
    recovers :
        (run_id : String) (expected_revision : ℕ) (at : String) (answer : Queue × QueueState)
        → recover_dispatching_state sha256 tree.queue_dir run_id expected_revision at ≡ ok answer
        → Step tree (with_queue tree answer.0)
    reserves :
        (run_id : String) (expected_revision : ℕ) (requested_servers : List String)
        (ttl_seconds now : ℕ) (at token : String) (answer : Queue × String × QueueState)
        → reserve_queued_job_update sha256 tree.queue_dir run_id expected_revision requested_servers
            ttl_seconds now at token
          ≡ ok answer
        → Step tree (with_queue tree answer.0)
    releases :
        (run_id at token : String) (answer : Queue × Bool × QueueState)
        → release_queued_job_update sha256 tree.queue_dir run_id at token ≡ ok answer
        → Step tree (with_queue tree answer.0)
    extends :
        (run_id revision : String) (prepared_servers : List Server)
        (placement_token : Option String) (now : ℕ) (answer : Queue × Extension)
        → extend_queued_job sha256 tree.queue_dir run_id revision prepared_servers placement_token
            now
          ≡ ok answer
        → Step tree (with_queue tree answer.0)
    extends_pool :
        (updates : List PoolUpdate) (now : ℕ)
        → Step tree (with_queue tree (extend_queued_all sha256 updates tree.queue_dir now).1)
    edits_job :
        (run_id : String) (request : Request) (now : ℕ) (at : String)
        → Step tree
            (with_queue tree (update_queued_job sha256 tree.queue_dir run_id request now at).1)

  pub data Steps : QueueTree → QueueTree → Type 0 where
    stop : {tree : QueueTree} → Steps tree tree
    step : {tree next last : QueueTree} → Step tree next → Steps next last → Steps tree last

-- A run that has a tombstone and no entry; if `ended`, its purge is complete.
pub record IsBarred (run_id : String) (ended : Bool) (tree : QueueTree) : Type 0 where
  pub absent : has tree.queue_dir run_id ≡ false
  pub tombstone : Tombstone
  pub stands : get tree.run_tombstones_dir run_id ≡ some tombstone
  pub is_ended : ended ≡ true → is_purged tombstone.status ≡ true

check_tombstone-same :
    (run_id : String) (o answer : Option Tombstone)
    → check_tombstone run_id o ≡ ok answer
    → o ≡ answer
unfolding check_tombstone
check_tombstone-same run_id none answer e = ok_injective _ _ e
check_tombstone-same run_id (some tombstone) answer e =
    let (_, e1) =
      passed (not (tombstone.schema_version == 1 || tombstone.schema_version == 2)) _ _ e in
    let (_, e2) = passed (not (tombstone.run_id == run_id)) _ _ e1 in ok_injective _ _ e2

-- What is loaded is what is there.
pub load_run_tombstone-same :
    (tree : QueueTree) (run_id : String) (answer : Option Tombstone)
    → load_run_tombstone tree run_id ≡ ok answer
    → get tree.run_tombstones_dir run_id ≡ answer
unfolding load_run_tombstone validate_current_run_id
load_run_tombstone-same tree run_id answer e = elim (Bool-cases (is_run_id run_id)) [
  | inl valid ↦
      check_tombstone-same run_id (get tree.run_tombstones_dir run_id) answer
        (rw (valid, load_run_tombstone, validate_current_run_id) at e)
  | inr invalid ↦ cc (rw (invalid, load_run_tombstone, validate_current_run_id) at e)
]

module _ (run_id : String) (ended : Bool) where
  pub same_tombstones :
      (tree : QueueTree) (queue : Queue)
      → AddsNothing tree.queue_dir queue
      → IsBarred run_id ended tree
      → IsBarred run_id ended (with_queue tree queue)
  unfolding AddsNothing
  same_tombstones tree queue f b = record {
    absent = f run_id b.absent;
    tombstone = b.tombstone;
    stands = b.stands;
    is_ended = b.is_ended;
  }

  pub put_tombstone-IsBarred :
      (tree : QueueTree) (id : String) (tombstone : Tombstone)
      → ((old : Tombstone)
          → get tree.run_tombstones_dir id ≡ some old
          → ended ≡ true
          → is_purged old.status ≡ true
          → is_purged tombstone.status ≡ true)
      → IsBarred run_id ended tree
      → IsBarred run_id ended (put_tombstone tree id tombstone)
  put_tombstone-IsBarred tree id tombstone f b = elim (Bool-cases (id == run_id)) [
    | inl own ↦
        let q = eq_of_beq id run_id own in
        record {
          absent = b.absent;
          tombstone = tombstone;
          stands = get-put tree.run_tombstones_dir id run_id tombstone ∙ rw own refl;
          is_ended = λ h. f b.tombstone (rw q b.stands) h (b.is_ended h);
        }
    | inr other ↦ record {
      absent = b.absent;
      tombstone = b.tombstone;
      stands = get-put tree.run_tombstones_dir id run_id tombstone ∙ rw other b.stands;
      is_ended = b.is_ended;
    }
  ]

-- What follows the check that there is no tombstone.
pub absent_tombstone {ℓ} :
    {A : Type ℓ} (o : Option Tombstone) (e : Error) (rest : Result A) (answer : A)
    → (must_be_absent o e >> rest) ≡ ok answer
    → (o ≡ none) × (rest ≡ ok answer)
absent_tombstone none e rest answer h = (refl, h)
absent_tombstone (some tombstone) e rest answer h = cc
