-- ===== src/RunView.antt =====
-- run_view.py: `_derive_phase`, the one answer from a run's queue entry and its execution record, and
-- run_readiness.py, what a report makes of it.
pub mod Laws
use codex_remote_runner.Prelude.{
  if◌then◌else◌, is_empty, all, any, ◌==◌, nat_eq, string_eq, is_none, String, Bool, true, false,
  not, ◌&&◌, ◌||◌, Option, none, some, List, map,
}
use codex_remote_runner.Queue.State.{QueueStatus}
use codex_remote_runner.Queue.State
use codex_remote_runner.Execution.{ExecutionStatus, status_name}
use codex_remote_runner.Execution

-- What the error of an active execution record says.
pub data ActiveError : Type 0 where
  no_error runtime_absent launch_unknown : ActiveError

-- An execution record, as `_derive_phase` reads it: of the current kind or not.
pub data ExecutionRow : Type 0 where
  current : ExecutionStatus → ActiveError → ExecutionRow
  unsupported : ExecutionRow

pub data Phase : Type 0 where
  queued dispatching registered running terminal attention_required missing : Phase

pub data Authority : Type 0 where
  execution queue : Authority

pub data Attention : Type 0 where
  terminal_conflict queue_ended_early runtime_is_absent launch_is_unknown : Attention
  unsupported_record no_execution : Attention

-- (phase, outcome, outcome_authority, attention_reason)
pub record Derived : Type 0 where
  pub phase : Phase
  pub outcome : Option String
  pub authority : Option Authority
  pub reason : Option Attention

abbrev attention : Attention → Derived
attention reason = record {
  phase = attention_required;
  outcome = none;
  authority = none;
  reason = some reason;
}

abbrev ended : String → Authority → Derived
ended outcome authority = record {
  phase = terminal;
  outcome = some outcome;
  authority = some authority;
  reason = none;
}

abbrev in_phase : Phase → Derived
in_phase phase = record { phase = phase; outcome = none; authority = none; reason = none }

-- The queue's terminal statuses, by name. A dispatched entry is not one of them.
abbrev pub queue_end : Option QueueStatus → Option String
queue_end (some State.failed) = some "failed"
queue_end (some State.stopped) = some "stopped"
queue_end _ = none

abbrev pub contradicts : Option String → String → Bool
contradicts none outcome = false
contradicts (some ended) outcome = not (ended == outcome)

abbrev active : Phase → ActiveError → Derived
active phase no_error = in_phase phase
active phase runtime_absent = attention runtime_is_absent
active phase launch_unknown = attention launch_is_unknown

-- The phase of an active execution.
abbrev active_phase : ExecutionStatus → Phase
active_phase Execution.registered = registered
active_phase _ = running

abbrev queue_only : Option QueueStatus → Derived
queue_only none = in_phase missing
queue_only (some State.queued) = in_phase queued
queue_only (some State.dispatching) = in_phase dispatching
queue_only (some State.dispatched) = attention no_execution
queue_only (some State.failed) = ended "failed" queue
queue_only (some State.stopped) = ended "stopped" queue

unfoldable pub derive_phase : Option QueueStatus → Option ExecutionRow → Derived
derive_phase queue_status none = queue_only queue_status
derive_phase queue_status (some unsupported) = attention unsupported_record
derive_phase queue_status (some (current status error)) =
    if Execution.is_terminal status
    then (if contradicts (queue_end queue_status) (status_name status)
        then attention terminal_conflict
        else ended (status_name status) execution)
    else if is_none (queue_end queue_status)
    then active (active_phase status) error
    else attention queue_ended_early

-- What is known of the synchronization of a run's output.
pub data SyncStatus : Type 0 where
  pending retryable waiting_for_terminal_state unknown completed not_enqueued other : SyncStatus

pub data Readiness : Type 0 where
  waiting ready needs_attention : Readiness

abbrev pub sync_readiness : SyncStatus → Readiness
sync_readiness pending = waiting
sync_readiness retryable = waiting
sync_readiness waiting_for_terminal_state = waiting
sync_readiness completed = ready
sync_readiness not_enqueued = ready
sync_readiness unknown = needs_attention
sync_readiness other = needs_attention

abbrev outcome_readiness : Option String → SyncStatus → Readiness
outcome_readiness none sync = needs_attention
outcome_readiness (some outcome) sync =
    if outcome == "failed" || outcome == "stopped"
    then ready
    else if outcome == "succeeded"
    then sync_readiness sync
    else needs_attention

unfoldable pub report_readiness : Derived → SyncStatus → Readiness
report_readiness view sync = elim view.phase [
  | attention_required ↦ needs_attention
  | missing ↦ needs_attention
  | terminal ↦ outcome_readiness view.outcome sync
  | _ ↦ waiting
]

abbrev pub is_ready : Readiness → Bool
is_ready ready = true
is_ready _ = false

abbrev pub is_attention : Readiness → Bool
is_attention needs_attention = true
is_attention _ = false

unfoldable pub cohort_report_readiness : List (Derived × SyncStatus) → Readiness
unfolding report_readiness
cohort_report_readiness views =
    let states = map (λ view. report_readiness view.0 view.1) views in
    if any is_attention states
    then needs_attention
    else if not (is_empty states) && all is_ready states
    then ready
    else waiting
