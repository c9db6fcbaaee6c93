-- ===== src/Execution/Laws.antt =====
-- execution_registry.py: the parts of an update that succeeded.
use codex_remote_runner.Prelude.{
  Option-cases, string_eq, ◌==◌, nat_eq, eq_of_beq, ok, >>=-eq-ok, ok_injective, passed, get, put,
  get_or, ℕ, String, ◌≡◌, sym, ap, ◌∙◌, subst, inl, inr, Bool, true, false, not, some, arith,
}
use codex_remote_runner.Text.{is_run_id}
use codex_remote_runner.Execution.{
  status_eq, Manifest, ExecutionState, Changes, Registry, require_text, validate_current_state,
  load_current_run, can_transition, updated, enqueued, update_current_state,
}

-- What `update_current_state` does to the run, if it succeeds.
pub record Updated (configured : Bool) (r r' : Registry) (run_id : String) (expected : ℕ)
    (changes : Changes) (now : String) : Type 0 where
  pub manifest : Manifest
  pub before : ExecutionState
  pub stored : get r.runs run_id ≡ some (manifest, before)
  pub its_own : before.run_id ≡ run_id
  pub at_revision : before.revision ≡ expected
  pub not_protected : changes.protected ≡ false
  pub legal : can_transition before.status (get_or changes.status before.status) ≡ true
  pub writes : r'.runs ≡ put r.runs run_id (manifest, updated before changes now)
  pub enqueues :
      enqueued configured r.outbox manifest before (updated before changes now) ≡ ok r'.outbox

validate_current_state-ok :
    (state state' : ExecutionState) (run_id : String)
    → validate_current_state state run_id ≡ ok state'
    → (state' ≡ state) × (state.run_id ≡ run_id)
unfolding validate_current_state
validate_current_state-ok state state' run_id e =
    let (_, e1) = passed (not (state.state_schema_version == 2)) _ _ e in
    let (_, _, e1') = >>=-eq-ok (require_text state.run_id) _ e1 in
    let (_, e2) = passed (not (is_run_id state.run_id)) _ _ e1' in
    let (same, e3) = passed (not (state.run_id == run_id)) _ _ e2 in
    let (_, _, e4) = >>=-eq-ok (require_text state.created_at) _ e3 in
    let (_, _, e5) = >>=-eq-ok (require_text state.updated_at) _ e4 in
    (sym (ok_injective _ _ e5), eq_of_beq state.run_id run_id (ground (arith, same)))

load_current_run-ok :
    (r : Registry) (run_id : String) (row : Manifest × ExecutionState)
    → load_current_run r run_id ≡ ok row
    → (get r.runs run_id ≡ some row) × (row.1.run_id ≡ run_id)
unfolding load_current_run
load_current_run-ok r run_id row e = elim (Option-cases (get r.runs run_id)) [
  | inl missing ↦ cc (rw (missing, load_current_run) at e)
  | inr (found, stored) ↦
      let (_, e1) =
        passed (not (found.0.run_id == run_id)) _ _ (rw (stored, load_current_run) at e) in
      let (state, valid, e2) = >>=-eq-ok (validate_current_state found.1 run_id) _ e1 in
      let (same, its_own) = validate_current_state-ok found.1 state run_id valid in
      let whole : found ≡ row = ap (λ x. (found.0, x)) (sym same) ∙ ok_injective _ _ e2 in
      (stored ∙ ap some whole, subst (λ x. x.1.run_id ≡ run_id) whole its_own)
]

-- An update that succeeds was asked for at the state's own revision, and its move is legal.
pub update_current_state-Updated :
    (configured : Bool) (r r' : Registry) (run_id : String) (expected : ℕ) (changes : Changes)
    (action now : String)
    → update_current_state configured r run_id expected changes action now ≡ ok r'
    → Updated configured r r' run_id expected changes now
unfolding update_current_state
update_current_state-Updated configured r r' run_id expected changes action now e =
    let (row, loaded, e1) = >>=-eq-ok (load_current_run r run_id) _ e in
    let (stored, its_own) = load_current_run-ok r run_id row loaded in
    let (current, e2) = passed (not (row.1.revision == expected)) _ _ e1 in
    let (open_fields, e3) = passed changes.protected _ _ e2 in
    let (legal, e4) =
      passed (not (can_transition row.1.status (get_or changes.status row.1.status))) _ _ e3 in
    let (after, valid, e5) =
      >>=-eq-ok (validate_current_state (updated row.1 changes now) run_id) _ e4 in
    let (same, _) = validate_current_state-ok (updated row.1 changes now) after run_id valid in
    let (outbox, enqueues, e6) = >>=-eq-ok (enqueued configured r.outbox row.0 row.1 after) _ e5 in
    let written = ok_injective _ _ e6 in
    record {
      manifest = row.0;
      before = row.1;
      stored = stored;
      its_own = its_own;
      at_revision = eq_of_beq row.1.revision expected (ground (arith, current));
      not_protected = open_fields;
      legal = ground (arith, legal);
      writes = sym (ap (λ x. x.runs) written) ∙ ap (λ x. put r.runs run_id (row.0, x)) same;
      enqueues =
          subst (λ x. enqueued configured r.outbox row.0 row.1 x ≡ ok r'.outbox) same
            (enqueues ∙ ap (λ x. ok x.outbox) written);
    }
