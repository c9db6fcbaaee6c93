-- ===== src/Examples/Reports.antt =====
-- Reports of a run that succeeded.
use codex_remote_runner.Prelude.{
  All, string_eq, nat_eq, ◌≡◌, refl, ◌≢◌, ◌↔◌, ◌⊎◌, some, List, [], ◌∷◌,
}
use codex_remote_runner.Execution.{succeeded, status_name, status_eq}
use codex_remote_runner.RunView.{
  no_error, current, terminal, execution, Derived, derive_phase, SyncStatus, completed,
  not_enqueued, ready, report_readiness, cohort_report_readiness,
}
use codex_remote_runner.RunView.Laws.{
  HasEnded, AgreesWith, derive_phase-terminal, report_readiness-ready,
  cohort_report_readiness-ready,
}
use codex_remote_runner.Queue.State
use codex_remote_runner.Execution

abbrev succeeded_view : Derived
succeeded_view = derive_phase (some State.dispatched) (some (current Execution.succeeded no_error))

derive_phase-terminal_example :
    ((succeeded_view.phase ≡ terminal)
      ↔ (HasEnded Execution.succeeded × AgreesWith (some State.dispatched) Execution.succeeded))
    × (succeeded_view.phase ≡ terminal
        → (succeeded_view.outcome ≡ some (status_name Execution.succeeded))
          × (succeeded_view.authority ≡ some execution))
derive_phase-terminal_example =
    derive_phase-terminal (some State.dispatched) Execution.succeeded no_error

report_readiness-ready_example :
    HasEnded Execution.succeeded
    × (Execution.succeeded ≡ Execution.succeeded
        → (completed ≡ completed) ⊎ (completed ≡ not_enqueued))
unfolding report_readiness derive_phase
report_readiness-ready_example =
    report_readiness-ready (some State.dispatched) Execution.succeeded no_error completed refl

cohort_report_readiness-ready_example :
    (cohort_report_readiness ((succeeded_view, completed) ∷ []) ≡ ready) ↔ (
      (◌≢◌ {A = List (Derived × SyncStatus)} ((succeeded_view, completed) ∷ []) [])
      × All {A = Derived × SyncStatus}
          (λ view. report_readiness view.0 view.1 ≡ ready)
          ((succeeded_view, completed) ∷ []))
cohort_report_readiness-ready_example =
    cohort_report_readiness-ready ((succeeded_view, completed) ∷ [])
