-- ===== src/RunView/Laws.antt =====
-- run_view.py and run_readiness.py: what a derived view, and a report of several, can say.
use codex_remote_runner.Prelude.{
  subst, ap, ◌∙◌, map, All, any, all, Option, none, some, false, ◌≡◌, refl, ◌≢◌, true, List, [],
  ◌∷◌, arith, ◌↔◌, ◌⊎◌,
}
use codex_remote_runner.Queue.State.{QueueStatus}
use codex_remote_runner.Queue.State
use codex_remote_runner.Execution.{ExecutionStatus, status_name}
use codex_remote_runner.Execution
use codex_remote_runner.RunView.{
  current, ActiveError, Derived, derive_phase, terminal, queue_end, contradicts, execution,
  SyncStatus, completed, not_enqueued, report_readiness, sync_readiness, outcome_readiness,
  is_ready, is_attention, cohort_report_readiness, ready,
}

ready-outcome :
    (v : Derived) (sync : SyncStatus)
    → report_readiness v sync ≡ ready
    → (v.phase ≡ terminal) × (outcome_readiness v.outcome sync ≡ ready)
unfolding report_readiness
ready-outcome v sync e = ground (arith, e)

synchronized :
    (sync : SyncStatus) → sync_readiness sync ≡ ready → (sync ≡ completed) ⊎ (sync ≡ not_enqueued)
synchronized sync e = ground (arith, e)

abbrev pub HasEnded : ExecutionStatus → Type 0
HasEnded status =
    (status ≡ Execution.succeeded) ⊎ ((status ≡ Execution.failed) ⊎ (status ≡ Execution.stopped))

-- What the queue says of a run's end is what the execution says.
abbrev pub AgreesWith : Option QueueStatus → ExecutionStatus → Type 0
AgreesWith q status =
    (q ≡ some State.failed → status ≡ Execution.failed)
    × (q ≡ some State.stopped → status ≡ Execution.stopped)

agrees_iff :
    (q : Option QueueStatus) (status : ExecutionStatus)
    → (contradicts (queue_end q) (status_name status) ≡ false) ↔ AgreesWith q status
agrees_iff none status = ground arith
agrees_iff (some State.queued) status = ground arith
agrees_iff (some State.dispatching) status = ground arith
agrees_iff (some State.dispatched) status = ground arith
agrees_iff (some State.failed) Execution.registered = ground arith
agrees_iff (some State.failed) Execution.running = ground arith
agrees_iff (some State.failed) Execution.succeeded = ground arith
agrees_iff (some State.failed) Execution.failed = ground arith
agrees_iff (some State.failed) Execution.stopped = ground arith
agrees_iff (some State.stopped) Execution.registered = ground arith
agrees_iff (some State.stopped) Execution.running = ground arith
agrees_iff (some State.stopped) Execution.succeeded = ground arith
agrees_iff (some State.stopped) Execution.failed = ground arith
agrees_iff (some State.stopped) Execution.stopped = ground arith

ended_iff : (status : ExecutionStatus) → (Execution.is_terminal status ≡ true) ↔ HasEnded status
ended_iff status = ground arith

module _ (q : Option QueueStatus) (status : ExecutionStatus) (error : ActiveError) where
  abbrev view : Derived
  view = derive_phase q (some (current status error))

  -- With a current execution record, a view is terminal exactly if the execution succeeded, failed
  -- or was stopped, and it is not the case that the queue says it failed or was stopped and the
  -- execution ended otherwise. The outcome of a terminal view is the execution's status, on the
  -- authority of the execution.
  pub derive_phase-terminal :
      ((view.phase ≡ terminal) ↔ (HasEnded status × AgreesWith q status))
      × (view.phase ≡ terminal
          → (view.outcome ≡ some (status_name status)) × (view.authority ≡ some execution))
  unfolding derive_phase
  derive_phase-terminal = ground (arith, agrees_iff q status, ended_iff status)

  -- If the report of a run with a current execution record is ready, the execution succeeded, failed
  -- or was stopped; and if it succeeded, the synchronization of its output is completed or was never
  -- enqueued.
  pub report_readiness-ready :
      (sync : SyncStatus)
      → report_readiness view sync ≡ ready
      → HasEnded status
        × (status ≡ Execution.succeeded → (sync ≡ completed) ⊎ (sync ≡ not_enqueued))
  report_readiness-ready sync e =
      let (ends, known) = ready-outcome view sync e in
      let (outcome, _) = derive_phase-terminal.1 ends in
      (
        (derive_phase-terminal.0.0 ends).0,
        λ succeeds. synchronized sync (
            subst (λ x. outcome_readiness x sync ≡ ready)
              (outcome ∙ ap (λ x. some (status_name x)) succeeds) known),
      )

all_ready :
    (views : List (Derived × SyncStatus))
    → all is_ready (map (λ view. report_readiness view.0 view.1) views) ≡ true
    → All (λ view. report_readiness view.0 view.1 ≡ ready) views
all_ready [] h = tt
all_ready (view ∷ views) h = (ground (arith, h), all_ready views (ground (arith, h)))

ready_all :
    (views : List (Derived × SyncStatus))
    → All (λ view. report_readiness view.0 view.1 ≡ ready) views
    → (all is_ready (map (λ view. report_readiness view.0 view.1) views) ≡ true)
      × (any is_attention (map (λ view. report_readiness view.0 view.1) views) ≡ false)
ready_all [] h = (refl, refl)
ready_all (view ∷ views) h =
    let (rest, quiet) = ready_all views h.1 in (rw (h.0, rest) refl, rw (h.0, quiet) refl)

-- A cohort's report is ready exactly if there is a run and every run's report is ready.
pub cohort_report_readiness-ready :
    (views : List (Derived × SyncStatus))
    → (cohort_report_readiness views ≡ ready)
      ↔ ((views ≢ []) × All (λ view. report_readiness view.0 view.1 ≡ ready) views)
unfolding cohort_report_readiness
cohort_report_readiness-ready [] = (λ e. cc, λ h. absurd (h.0 refl))
cohort_report_readiness-ready (view ∷ views) = (
  λ e. (λ n. cc, all_ready (view ∷ views) (ground (arith, e))),
  λ h. let (rest, quiet) = ready_all (view ∷ views) h.1 in rw (quiet, rest) refl,
)
