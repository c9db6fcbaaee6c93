-- ===== src/Execution/Outputs.antt =====
-- execution_registry.py and output_sync.py: the outputs of the runs that have ended.
use codex_remote_runner.Execution.Laws.{update_current_state-Updated}
use codex_remote_runner.Text.{is_run_id}
use codex_remote_runner.Execution.Traces.{
  Updates, done, step, forward_terminal, updated-status, some_pair,
}
use codex_remote_runner.Execution.{
  ExecutionStatus, status_eq, is_terminal, Manifest, ExecutionState, Changes, Output, Outbox,
  Registry, updated, same_intent, enqueue_intent, enqueue_terminal_output, enqueued,
  update_current_state,
}
use codex_remote_runner.Prelude.{
  if◌then◌else◌, Bool-cases, Option-cases, string_eq, ◌==◌, nat_eq, eq_of_beq, ok, ok_injective,
  passed, get, has, get-put, get-put_self, get_or, is_none, ℕ, String, ◌≡◌, refl, sym, ap, ◌∙◌,
  subst, ◌⊎◌, inl, inr, true, false, not, ◌&&◌, Option, none, some, arith,
}

-- The output of a run that ended with a status is done, or waits with that status.
abbrev pub IsEnqueued : Outbox → String → ExecutionStatus → Type 0
IsEnqueued outbox id status =
    (has outbox.completed id ≡ true)
    ⊎ ((intent : Output) × (get outbox.pending id ≡ some intent)
        × (intent.authoritative_status ≡ status))

-- Every run that has ended and declares an output is enqueued.
pub record IsSynced (r : Registry) : Type 0 where
  pub enqueued_at_end :
      (id : String) (manifest : Manifest) (state : ExecutionState)
      → get r.runs id ≡ some (manifest, state)
      → is_terminal state.status ≡ true
      → is_none manifest.output_path ≡ false
      → IsEnqueued r.outbox manifest.run_id state.status

-- What is in the outbox stays entered.
abbrev Keeps : (outbox outbox' : Outbox) → Type 0
Keeps outbox outbox' =
    (id : String) (status : ExecutionStatus)
    → IsEnqueued outbox id status
    → IsEnqueued outbox' id status

-- An intent that was made is in the outbox, unless it is done.
enqueue_intent-lem :
    (outbox outbox' : Outbox) (intent : Output)
    → enqueue_intent outbox intent ≡ ok outbox'
    → Keeps outbox outbox' × IsEnqueued outbox' intent.run_id intent.authoritative_status
unfolding enqueue_intent same_intent
enqueue_intent-lem outbox outbox' intent e =
    elim (Bool-cases (has outbox.completed intent.run_id)) [
      | inl over ↦
          subst (λ o. Keeps outbox o × IsEnqueued o intent.run_id intent.authoritative_status)
            (ok_injective outbox outbox' (rw (over, enqueue_intent) at e))
            (λ id status h. h, inl over)
      | inr going ↦ elim (Option-cases (get outbox.pending intent.run_id)) [
        | inl fresh ↦
            subst (λ o. Keeps outbox o × IsEnqueued o intent.run_id intent.authoritative_status)
              (ok_injective _ outbox' (rw fresh at (rw (going, enqueue_intent) at e)))
              (
                λ id status h. elim h [
                  | inl over ↦ inl over
                  | inr (other, found, same) ↦ inr (
                    other,
                    get-put outbox.pending intent.run_id id intent
                        ∙ elim (Bool-cases (intent.run_id == id)) [
                          | inl alike ↦ cc (
                            fresh,
                            subst (λ x. get outbox.pending x ≡ some other)
                                (sym (eq_of_beq intent.run_id id alike)) found,
                          )
                          | inr apart ↦ rw apart found
                        ],
                    same,
                  )
                ],
                inr (intent, get-put_self outbox.pending intent.run_id intent, refl),
              )
        | inr (existing, found) ↦
            let (alike, last) =
              passed (not (same_intent existing intent)) _ _
                (rw found at (rw (going, enqueue_intent) at e)) in
            subst (λ o. Keeps outbox o × IsEnqueued o intent.run_id intent.authoritative_status)
              (ok_injective outbox outbox' last)
              (λ id status h. h, inr (existing, found, same_status existing intent alike))
      ]
    ]
  where
    same_status :
        (a b : Output)
        → not (same_intent a b) ≡ false
        → a.authoritative_status ≡ b.authoritative_status
    same_status a b h = eq_of_beq a.authoritative_status b.authoritative_status (ground (arith, h))

enqueue_terminal_output-lem :
    (outbox outbox' : Outbox) (manifest : Manifest) (path : Option String) (state_revision : ℕ)
    (status : ExecutionStatus) (terminal_at : String)
    → manifest.output_path ≡ path
    → enqueue_terminal_output outbox manifest state_revision status terminal_at ≡ ok outbox'
    → Keeps outbox outbox'
      × (is_none manifest.output_path ≡ false → IsEnqueued outbox' manifest.run_id status)
unfolding enqueue_terminal_output
enqueue_terminal_output-lem outbox outbox' manifest none state_revision status terminal_at p e =
    let (_, e1) = passed (not (is_terminal status)) _ _ e in
    (
      subst (Keeps outbox) (ok_injective outbox outbox' (rw p at e1)) (λ id status h. h),
      λ declared. cc (p, declared),
    )
enqueue_terminal_output-lem outbox outbox' manifest (some path) state_revision status terminal_at p
      e =
    let (_, e1) = passed (not (is_terminal status)) _ _ e in
    let (_, e2) = passed (not (is_run_id manifest.run_id)) _ _ (rw p at e1) in
    let (kept, entered) = enqueue_intent-lem outbox outbox' _ e2 in (kept, λ declared. entered)

-- An update of one run keeps the outputs of all, and enqueues that of the run if it ends.
enqueued-Keeps :
    (outbox outbox' : Outbox) (manifest : Manifest) (before after : ExecutionState)
    → enqueued true outbox manifest before after ≡ ok outbox'
    → Keeps outbox outbox'
      × (is_terminal before.status ≡ false
          → is_terminal after.status ≡ true
          → is_none manifest.output_path ≡ false
          → IsEnqueued outbox' manifest.run_id after.status)
unfolding enqueued
enqueued-Keeps outbox outbox' manifest before after e =
    elim (Bool-cases (not (is_terminal before.status) && (is_terminal after.status && true))) [
      | inl ends ↦
          let (kept, entered) =
            enqueue_terminal_output-lem outbox outbox' manifest manifest.output_path _ after.status
              _ refl (rw (ends, enqueued) at e) in
          (kept, λ was is declared. entered declared)
      | inr stays ↦ (
        subst (Keeps outbox) (ok_injective outbox outbox' (rw (stays, enqueued) at e))
            (λ id status h. h),
        λ was is. absurd (ground (arith, stays, was, is)),
      )
    ]

update_current_state-IsSynced :
    (r r' : Registry) (run_id : String) (expected : ℕ) (changes : Changes) (action now : String)
    → update_current_state true r run_id expected changes action now ≡ ok r'
    → IsSynced r
    → (id : String) (manifest : Manifest) (state : ExecutionState)
    → get r'.runs id ≡ some (manifest, state)
    → is_terminal state.status ≡ true
    → is_none manifest.output_path ≡ false
    → IsEnqueued r'.outbox manifest.run_id state.status
update_current_state-IsSynced r r' run_id expected changes action now e synced id manifest state
      stored ended declared =
    let u = update_current_state-Updated true r r' run_id expected changes action now e in
    let after = updated u.before changes now in
    let runs : get r'.runs id ≡ (if run_id == id then some (u.manifest, after) else get r.runs id) =
      ap (λ x. get x id) u.writes ∙ get-put r.runs run_id id (u.manifest, after) in
    let (kept, entered) = enqueued-Keeps r.outbox r'.outbox u.manifest u.before after u.enqueues in
    elim (Bool-cases (run_id == id)) [
      | inr apart ↦ kept manifest.run_id state.status (
          synced.enqueued_at_end id manifest state (sym (rw apart at runs) ∙ stored) ended declared)
      | inl same ↦
          let (own, now_state) = some_pair (sym (rw same at runs) ∙ stored) in
          let known = subst (λ (m : Manifest). is_none m.output_path ≡ false) (sym own) declared in
          let over =
            subst (λ (x : ExecutionState). is_terminal x.status ≡ true) (sym now_state) ended in
          subst (λ (x : Manifest × ExecutionState). IsEnqueued r'.outbox x.0.run_id x.1.status)
            (ap (λ m. (m, after)) own ∙ ap (λ x. (manifest, x)) now_state)
            (elim (Bool-cases (is_terminal u.before.status)) [
              | inr open_before ↦ entered open_before over known
              | inl ended_before ↦
                  let unchanged : after.status ≡ u.before.status =
                    updated-status u.before changes now
                    ∙ forward_terminal u.before.status (get_or changes.status u.before.status)
                        u.legal ended_before in
                  kept u.manifest.run_id after.status (
                    subst (IsEnqueued r.outbox u.manifest.run_id) (sym unchanged) (
                      synced.enqueued_at_end run_id u.manifest u.before u.stored ended_before
                        known))
            ])
    ]

-- With output synchronization configured, if every run that has ended and declares an output path
-- is in the outbox, done or waiting with the status that it ended with, then so it is after any
-- sequence of updates that succeed, of these runs and of others.
pub Updates-IsSynced : (r r' : Registry) → Updates true r r' → IsSynced r → IsSynced r'
Updates-IsSynced r r' done synced = synced
Updates-IsSynced r r' (step {r' = s} other expected changes action now e more) synced =
    Updates-IsSynced s r' more (record {
      enqueued_at_end =
          update_current_state-IsSynced r s other expected changes action now e synced;
    })
