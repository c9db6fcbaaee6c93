-- ===== src/Execution.antt =====
-- execution_registry.py: the authoritative state of a run and `update_current_state`.
-- output_sync.py: `enqueue_terminal_output`, which an update calls. A manifest is one that
-- `validate_current_manifest` accepts; its output metadata, a mapping, is one text. Of the event log
-- the model keeps the events. An update runs under the run's lock.
pub mod Laws
pub mod Traces
pub mod Outputs
use codex_remote_runner.Prelude.{
  eqb, if◌then◌else◌, is_empty, Eq, string_eq, ◌==◌, nat_eq, value_error, runtime_error, Result,
  err, ok, ◌>>=◌, ◌>>◌, raise_if, Dict, get, has, put, get_or, ℕ, suc, String, ◌≡◌, ◌↔◌, Bool, true,
  false, not, ◌&&◌, ◌||◌, Option, none, some, List, [], ◌∷◌, ◌++◌, arith,
}
use codex_remote_runner.Prelude.Int.{ℤ}
use codex_remote_runner.Text.{codes, is_run_id, is_blank, has_controls}

pub data ExecutionStatus : Type 0 where
  registered running succeeded failed stopped : ExecutionStatus

abbrev pub status_name : ExecutionStatus → String
status_name registered = "registered"
status_name running = "running"
status_name succeeded = "succeeded"
status_name failed = "failed"
status_name stopped = "stopped"

abbrev pub status_code : ExecutionStatus → ℕ
status_code registered = 0
status_code running = 1
status_code succeeded = 2
status_code failed = 3
status_code stopped = 4

pub status_code_iff :
    (a b : ExecutionStatus) → (eqb (status_code a) (status_code b) ≡ true) ↔ (a ≡ b)
status_code_iff a b = ground arith

instance abbrev pub status_eq : Eq ExecutionStatus
status_eq = record { beq = λ a b. eqb (status_code a) (status_code b); beq_iff = status_code_iff }

-- TERMINAL_STATUSES
abbrev pub is_terminal : ExecutionStatus → Bool
is_terminal registered = false
is_terminal running = false
is_terminal succeeded = true
is_terminal failed = true
is_terminal stopped = true

pub record Manifest : Type 0 where
  pub run_id : String
  pub task_id : String
  pub label : String
  pub server : String
  pub output_path : Option String
  pub output_metadata : String
  pub source_revision : Option String
  pub expected_revision : Option String

pub record ExecutionState : Type 0 where
  pub state_schema_version : ℕ
  pub run_id : String
  pub revision : ℕ
  pub status : ExecutionStatus
  pub created_at : String
  pub updated_at : String
  pub started_at : Option String
  pub finished_at : Option String
  pub error : Option String
  pub exit_code : Option ℤ

-- The fields that an update writes; `protected` if it names one that it must not.
pub record Changes : Type 0 where
  pub protected : Bool
  pub status : Option ExecutionStatus
  pub started_at : Option (Option String)
  pub finished_at : Option (Option String)
  pub error : Option (Option String)
  pub exit_code : Option (Option ℤ)

-- The intent to synchronize the output of a run.
pub record Output : Type 0 where
  pub run_id : String
  pub source_server : String
  pub source_path : String
  pub revision : String
  pub task_id : String
  pub label : String
  pub output_metadata : String
  pub authoritative_status : ExecutionStatus
  pub terminal_at : String
  pub state_revision : ℕ

-- The intents that wait, and those that are done, by run.
pub record Outbox : Type 0 where
  pub pending : Dict String Output
  pub completed : Dict String Output

pub record Event : Type 0 where
  pub action : String
  pub run_id : String
  pub before_revision : ℕ
  pub after_revision : ℕ
  pub status : ExecutionStatus

pub record Registry : Type 0 where
  pub runs : Dict String (Manifest × ExecutionState)
  pub outbox : Outbox
  pub events : List Event

-- _require_text
unfoldable pub require_text : String → Result (Unit {0})
unfolding is_blank has_controls
require_text value = do
  raise_if (is_blank value) (value_error "manifest field must be a non-empty string")
  raise_if (has_controls value) (value_error "manifest field contains invalid control characters")

unfoldable pub validate_current_state : ExecutionState → String → Result ExecutionState
unfolding require_text
validate_current_state state run_id = do
  raise_if (not (state.state_schema_version == 2)) (value_error "unsupported current state schema")
  require_text state.run_id
  raise_if (not (is_run_id state.run_id))
      (value_error "current run_id must match rr-<16 lowercase hex>")
  raise_if (not (state.run_id == run_id)) (value_error "state run_id does not match manifest")
  require_text state.created_at
  require_text state.updated_at
  ok state

unfoldable pub load_current_run : Registry → String → Result (Manifest × ExecutionState)
unfolding validate_current_state
load_current_run registry run_id = elim (get registry.runs run_id) [
  | none ↦ err (value_error "run is not a current schema run")
  | some (manifest, state) ↦ do
    raise_if (not (manifest.run_id == run_id))
        (value_error "manifest run_id does not match registry path")
    state' ← validate_current_state state run_id
    ok (manifest, state')
]

-- _FORWARD_STATUSES
abbrev pub forward : ExecutionStatus → ExecutionStatus → Bool
forward registered new = not (new == registered)
forward running new = is_terminal new
forward _ new = false

unfoldable pub can_transition : ExecutionStatus → ExecutionStatus → Bool
can_transition old new = old == new || forward old new

-- The state with the changes, at the next revision.
unfoldable pub updated : ExecutionState → Changes → (now : String) → ExecutionState
updated state changes now = record state {
  revision = suc state.revision;
  status = get_or changes.status state.status;
  updated_at = now;
  started_at = get_or changes.started_at state.started_at;
  finished_at = get_or changes.finished_at state.finished_at;
  error = get_or changes.error state.error;
  exit_code = get_or changes.exit_code state.exit_code;
}

-- A text that counts as true.
abbrev stated : Option String → Option String
stated none = none
stated (some s) = if is_empty (codes s) then none else some s

abbrev intent_revision : Manifest → String
intent_revision manifest =
    get_or (stated manifest.source_revision) (get_or (stated manifest.expected_revision) "unknown")

-- `existing != intent`, the other way round.
unfoldable pub same_intent : Output → Output → Bool
same_intent a b =
    a.run_id == b.run_id
    && (a.source_server == b.source_server
        && (a.source_path == b.source_path
            && (a.revision == b.revision
                && (a.task_id == b.task_id
                    && (a.label == b.label
                        && (a.output_metadata == b.output_metadata
                            && (a.authoritative_status == b.authoritative_status
                                && (a.terminal_at == b.terminal_at
                                    && a.state_revision == b.state_revision))))))))

-- What is done with an intent.
unfoldable pub enqueue_intent : Outbox → Output → Result Outbox
unfolding same_intent
enqueue_intent outbox intent =
    if has outbox.completed intent.run_id
    then ok outbox
    else elim (get outbox.pending intent.run_id) [
      | none ↦ ok (record outbox { pending = put outbox.pending intent.run_id intent })
      | some existing ↦ do
        raise_if (not (same_intent existing intent)) (value_error "output-sync intent conflict")
        ok outbox
    ]

unfoldable pub enqueue_terminal_output :
    Outbox
    → Manifest
    → (state_revision : ℕ) (authoritative_status : ExecutionStatus) (terminal_at : String)
    → Result Outbox
unfolding enqueue_intent
enqueue_terminal_output outbox manifest state_revision authoritative_status terminal_at = do
  raise_if (not (is_terminal authoritative_status))
      (value_error "output-sync intent requires a terminal execution status")
  elim manifest.output_path [
    | none ↦ ok outbox
    | some output_path ↦ do
      raise_if (not (is_run_id manifest.run_id))
          (value_error "output-sync intent requires a current run id")
      enqueue_intent outbox (record {
        run_id = manifest.run_id;
        source_server = manifest.server;
        source_path = output_path;
        revision = intent_revision manifest;
        task_id = manifest.task_id;
        label = manifest.label;
        output_metadata = manifest.output_metadata;
        authoritative_status = authoritative_status;
        terminal_at = terminal_at;
        state_revision = state_revision;
      })
  ]

-- The outbox after the call that a run's end makes.
unfoldable pub enqueued :
    (configured : Bool) → Outbox → Manifest → (before after : ExecutionState) → Result Outbox
unfolding enqueue_terminal_output
enqueued configured outbox manifest before after =
    if not (is_terminal before.status) && (is_terminal after.status && configured)
    then enqueue_terminal_output outbox manifest after.revision after.status
        (get_or (stated after.finished_at) after.updated_at)
    else ok outbox

-- Whether output synchronization is configured stays the same while runs are updated.
module _ (configured : Bool) where
  unfoldable pub update_current_state :
      Registry
      → (run_id : String) (expected_revision : ℕ) → Changes
      → (action now : String) → Result Registry
  unfolding load_current_run can_transition updated validate_current_state enqueued
  update_current_state registry run_id expected_revision changes action now = do
    (manifest, state) ← load_current_run registry run_id
    raise_if (not (state.revision == expected_revision)) (runtime_error "state revision conflict")
    raise_if changes.protected
        (value_error "state identity and revision fields cannot be changed directly")
    raise_if (not (can_transition state.status (get_or changes.status state.status)))
        (value_error "illegal state transition")
    after ← validate_current_state (updated state changes now) run_id
    outbox ← enqueued configured registry.outbox manifest state after
    ok (record {
      runs = put registry.runs run_id (manifest, after);
      outbox = outbox;
      events =
          registry.events
          ++ record {
            action = action;
            run_id = run_id;
            before_revision = state.revision;
            after_revision = after.revision;
            status = after.status;
          }
            ∷ [];
    })
