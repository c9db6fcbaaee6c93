-- ===== src/Queue/Transition/Laws.antt =====
-- registry.py: `transition_queued_state` and `recover_dispatching_state`, when they succeed.
use codex_remote_runner.Prelude.{
  if◌then◌else◌, Option-cases, ◌==◌, nat_eq, string_eq, beq_self, beq_of_ne, Result, ok, >>=-eq-ok,
  get, ℕ, ◌+◌, String, ◌≡◌, ap, ◌≢◌, inl, inr, true, Option, none, some, [], ◌∷◌, arith,
}
use codex_remote_runner.Queue.Job.{Job, workload_eq, priority_eq, validate_job}
use codex_remote_runner.Queue.State.{
  QueueStatus, queued, dispatching, status_eq, QueueState, validate_state,
}
use codex_remote_runner.Queue.Store.{Row, Queue, load_job}
use codex_remote_runner.Queue.Transition.{
  is_allowed, write_state, transitioned, recovered, edit_state, transition_queued_state,
}

-- Reading an entry after a write of its state.
pub get-write_state :
    (queue : Queue) (run_id other : String) (state : QueueState)
    → get (write_state queue run_id state) other ≡ (
        if run_id == other
        then elim (get queue other) [ none ↦ none | some row ↦ some (row.0, state) ]
        else get queue other)
unfolding write_state
get-write_state [] run_id other state = ground arith
get-write_state ((id, (job, old)) ∷ queue) run_id other state = ground (
  arith,
  string_eq.beq_iff id run_id,
  string_eq.beq_iff id other,
  string_eq.beq_iff run_id other,
  get-write_state queue run_id other state,
)

validate_state-ok :
    (state : QueueState) (run_id : String) (s : QueueState)
    → validate_state state run_id ≡ ok s
    → s ≡ state
unfolding validate_state
validate_state-ok state run_id s h = ground arith

module _ (sha256 : String → String) where
  -- What a load returns is the stored row, its job brought to normal form.
  pub load_job-ok :
      (queue : Queue) (run_id : String) (row : Row)
      → load_job sha256 queue run_id ≡ ok row
      → (job : Job) × (get queue run_id ≡ some (job, row.1))
        × (validate_job sha256 job ≡ ok row.0)
        × (validate_state row.1 run_id ≡ ok row.1)
  unfolding load_job
  load_job-ok queue run_id row h = elim (Option-cases (get queue run_id)) [
    | inl missing ↦ cc (rw (missing, load_job) at h)
    | inr ((job, state), found) ↦
        let (job', valid, rest) =
          >>=-eq-ok (validate_job sha256 job) _ (rw (found, load_job) at h) in
        let (state', same, last) = >>=-eq-ok (validate_state state run_id) _ rest in
        (
          job,
          ground (arith, validate_state-ok state run_id state' same),
          ground arith,
          ground (arith, validate_state-ok state run_id state' same),
        )
  ]

  -- An edit of a state that succeeds.
  pub record Edited (edit : QueueState → Result QueueState) (queue queue' : Queue) (run_id : String)
      (state' : QueueState) : Type 0 where
    pub job : Job
    pub state : QueueState
    pub before : get queue run_id ≡ some (job, state)
    pub edits : edit state ≡ ok state'
    pub after : get queue' run_id ≡ some (job, state')
    pub others : (other : String) → run_id ≢ other → get queue' other ≡ get queue other

  written-Edited :
      (edit : QueueState → Result QueueState) (queue queue' : Queue) (run_id : String) (job : Job)
      (state edited updated state' : QueueState)
      → get queue run_id ≡ some (job, state)
      → edit state ≡ ok edited
      → updated ≡ edited
      → ◌≡◌ {A = Result (Queue × QueueState)}
          (ok (write_state queue run_id updated, updated))
          (ok (queue', state'))
      → Edited edit queue queue' run_id state'
  written-Edited edit queue queue' run_id job state edited updated state' found made same h =
      record {
        job = job;
        state = state;
        before = found;
        edits = ground arith;
        after = ground (arith, get-write_state queue run_id run_id updated, beq_self run_id);
        others = λ other ne.
            ground (arith, get-write_state queue run_id other updated, beq_of_ne run_id other ne);
      }

  pub edit_state-ok :
      (edit : QueueState → Result QueueState) (queue queue' : Queue) (run_id : String)
      (state' : QueueState)
      → edit_state sha256 edit queue run_id ≡ ok (queue', state')
      → Edited edit queue queue' run_id state'
  unfolding edit_state
  edit_state-ok edit queue queue' run_id state' h =
      let (row, loaded, h1) = >>=-eq-ok (load_job sha256 queue run_id) _ h in
      let (edited, made, h2) = >>=-eq-ok (edit row.1) _ h1 in
      let (updated, valid, h3) = >>=-eq-ok (validate_state edited run_id) _ h2 in
      let (job, found, _, _) = load_job-ok queue run_id row loaded in
      written-Edited edit queue queue' run_id job row.1 edited updated state' found made
        (validate_state-ok edited run_id updated valid) h3

-- An entry has one state.
pub same_state :
    (queue : Queue) (run_id : String) (r s : Row)
    → get queue run_id ≡ some r
    → get queue run_id ≡ some s
    → r.1 ≡ s.1
same_state queue run_id r s h k = ground arith

-- What a legal transition changes, and what it keeps.
pub record Advances (expected : ℕ) (status : QueueStatus) (state state' : QueueState) : Type 0 where
  pub was_expected : state.revision ≡ expected
  pub counted : state'.revision ≡ expected + 1
  pub arrives : state'.status ≡ status
  pub same_run : state'.run_id ≡ state.run_id
  pub same_update : state'.placement_update ≡ state.placement_update

transitioned-Advances :
    (expected : ℕ) (status : QueueStatus) (error : Option String) (at : String)
    (state state' : QueueState)
    → transitioned expected status error at state ≡ ok state'
    → Advances expected status state state' × (is_allowed state.status status ≡ true)
unfolding transitioned
transitioned-Advances expected status error at state state' h = ground arith

recovered-Advances :
    (expected : ℕ) (at : String) (state state' : QueueState)
    → recovered expected at state ≡ ok state'
    → Advances expected queued state state' × (state.status ≡ dispatching)
unfolding recovered
recovered-Advances expected at state state' h = ground arith

module _ (sha256 : String → String) where
  -- A transition that succeeds started from the revision that its caller had read, along an edge of
  -- the table; it counts the revision up by one, keeps the run, its reservation and its job, and
  -- leaves every other entry as it was.
  pub transition_queued_state-Advances :
      (queue queue' : Queue) (run_id : String) (expected : ℕ) (status : QueueStatus)
      (error : Option String) (at : String) (state' : QueueState)
      → transition_queued_state sha256 queue run_id expected status error at ≡ ok (queue', state')
      → (job : Job) × (state : QueueState) × (get queue run_id ≡ some (job, state))
        × (get queue' run_id ≡ some (job, state'))
        × (is_allowed state.status status ≡ true)
        × Advances expected status state state'
        × ((other : String) → run_id ≢ other → get queue' other ≡ get queue other)
  unfolding transition_queued_state
  transition_queued_state-Advances queue queue' run_id expected status error at state' h =
      let e =
        edit_state-ok sha256 (transitioned expected status error at) queue queue' run_id state' h in
      let (advances, legal) =
        transitioned-Advances expected status error at e.state state' e.edits in
      (e.job, e.state, e.before, e.after, legal, advances, e.others)

  -- Once a transition of a run from a revision has succeeded, another one of that run from the
  -- same revision on the queue that the first one left does not succeed, whatever the statuses
  -- are.
  pub transition_queued_state-excludes :
      (queue queue' : Queue) (run_id : String) (expected : ℕ) (status status' : QueueStatus)
      (error error' : Option String) (at at' : String) (state' : QueueState)
      → transition_queued_state sha256 queue run_id expected status error at ≡ ok (queue', state')
      → (r : Queue × QueueState)
      → transition_queued_state sha256 queue' run_id expected status' error' at' ≢ ok r
  transition_queued_state-excludes queue queue' run_id expected status status' error error' at at'
        state' h r k =
      let (_, _, _, stored, _, a, _) =
        transition_queued_state-Advances queue queue' run_id expected status error at state' h in
      let (_, state, found, _, _, b, _) =
        transition_queued_state-Advances queue' r.0 run_id expected status' error' at' r.1 k in
      omega (
        arith,
        ap (λ s. s.revision) (same_state queue' run_id _ _ stored found),
        a.counted,
        b.was_expected,
      )
