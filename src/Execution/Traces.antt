-- ===== src/Execution/Traces.antt =====
-- execution_registry.py: runs of any number of updates, in any order of their runs.
use codex_remote_runner.Prelude.{
  if◌then◌else◌, Bool-cases, string_eq, ◌==◌, nat_eq, eq_of_beq, ok, get, get-put, get_or, ℕ, suc,
  ◌≤◌, String, ◌≡◌, refl, sym, ap, ◌∙◌, subst, inl, inr, Bool, true, Option, some, arith,
}
use codex_remote_runner.Execution.{
  ExecutionStatus, status_eq, is_terminal, Manifest, ExecutionState, Changes, Registry,
  can_transition, updated, update_current_state,
}
use codex_remote_runner.Execution.Laws.{update_current_state-Updated}

module _ (configured : Bool) where
  -- Updates that succeed, one after the other.
  pub data Updates : Registry → Registry → Type 0 where
    done : {r : Registry} → Updates r r
    step :
        {r r' r'' : Registry} (run_id : String) (expected : ℕ) (changes : Changes)
        (action now : String)
        → update_current_state configured r run_id expected changes action now ≡ ok r'
        → Updates r' r''
        → Updates r r''

pub forward_terminal :
    (old new : ExecutionStatus) → can_transition old new ≡ true → is_terminal old ≡ true → new ≡ old
unfolding can_transition
forward_terminal old new h t = ground arith

pub updated-status :
    (before : ExecutionState) (changes : Changes) (now : String)
    → (updated before changes now).status ≡ get_or changes.status before.status
unfolding updated
updated-status before changes now = refl

updated-revision :
    (before : ExecutionState) (changes : Changes) (now : String)
    → (updated before changes now).revision ≡ suc before.revision
unfolding updated
updated-revision before changes now = refl

pub some_pair :
    {m m' : Manifest} {a b : ExecutionState}
    → ◌≡◌ {A = Option (Manifest × ExecutionState)} (some (m, a)) (some (m', b))
    → (m ≡ m') × (a ≡ b)
some_pair e = (cc, cc)

-- If a run has ended, then after any sequence of updates that succeed, of this run and of others,
-- it is still there with the same manifest and the same status, and its revision is not smaller.
pub Updates-terminal :
    (configured : Bool) (r r' : Registry) (run_id : String) (manifest : Manifest)
    (state : ExecutionState)
    → Updates configured r r'
    → get r.runs run_id ≡ some (manifest, state)
    → is_terminal state.status ≡ true
    → (after : ExecutionState) × (get r'.runs run_id ≡ some (manifest, after))
      × (after.status ≡ state.status)
      × (state.revision ≤ after.revision)
Updates-terminal configured r r' run_id manifest state done stored t =
    (state, stored, refl, omega arith)
Updates-terminal configured r r' run_id manifest state
      (step {r' = s} other expected changes action now e more) stored t =
    let u = update_current_state-Updated configured r s other expected changes action now e in
    let after = updated u.before changes now in
    let runs : get s.runs run_id
        ≡ (if other == run_id then some (u.manifest, after) else get r.runs run_id) =
      ap (λ x. get x run_id) u.writes ∙ get-put r.runs other run_id (u.manifest, after) in
    elim (Bool-cases (other == run_id)) [
      | inr apart ↦
          Updates-terminal configured s r' run_id manifest state more (runs ∙ rw apart stored) t
      | inl same ↦
          let here : ◌≡◌ {A = Option (Manifest × ExecutionState)} (some (u.manifest, u.before))
              (some (manifest, state)) =
            sym (
              subst (λ x. get r.runs x ≡ some (u.manifest, u.before)) (eq_of_beq other run_id same)
                u.stored)
            ∙ stored in
          let (same_manifest, same_state) = some_pair here in
          let unchanged : after.status ≡ state.status =
            updated-status u.before changes now
            ∙ forward_terminal u.before.status (get_or changes.status u.before.status) u.legal
                (subst (λ x. is_terminal x.status ≡ true) (sym same_state) t)
            ∙ ap (λ x. x.status) same_state in
          let (final, found, ended, later) =
            Updates-terminal configured s r' run_id manifest after more
              (runs ∙ rw same (ap (λ x. some (x, after)) same_manifest))
              (subst (λ x. is_terminal x ≡ true) (sym unchanged) t) in
          (
            final,
            found,
            ended ∙ unchanged,
            omega (
              arith,
              later,
              updated-revision u.before changes now,
              ap (λ x. x.revision) same_state,
            ),
          )
    ]
