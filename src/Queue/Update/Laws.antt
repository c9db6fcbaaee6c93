-- ===== src/Queue/Update/Laws.antt =====
-- registry.py: the checks of `update_queued_job`, and its choice of servers.
use codex_remote_runner.Prelude.{
  Bool-cases, and_true, All, all→All, filter, All-contains, contains-filter, and_false, contains,
  distinct, subset, nat_eq, string_eq, Error, ok, err, >>=-eq-ok, ok_injective, get, is_none, ℕ,
  String, ◌≡◌, refl, sym, ◌∙◌, subst, ◌⊎◌, inl, inr, Bool, true, false, ◌&&◌, Option, none, some,
  List, [], ◌∷◌, arith,
}
use codex_remote_runner.Queue.Job.{Job, server_names, workload_eq, priority_eq}
use codex_remote_runner.Queue.State.{
  queued, status_eq, QueueState, placement_update_active, placement_token_matches,
}
use codex_remote_runner.Queue.Store.{Queue, load_job}
use codex_remote_runner.Queue.Transition.Laws.{load_job-ok}
use codex_remote_runner.Queue.Update.{
  Request, check_request, apply_edits, check_editable, plan_update, update_queued_job,
}
use codex_remote_runner.Queue.Update.Edits.{
  Edit, check_eligible_edit, in_prepared_order, same_texts, edit_eligible,
}

-- The holder's token fits the state's reservation.
abbrev pub Holds : (String → String) → QueueState → Option String → Type 0
Holds sha256 state none = ⊥
Holds sha256 state (some token) = placement_token_matches sha256 state token ≡ true

module _ (sha256 : String → String) where
  -- What the checks on the state let through.
  pub record MayEdit (state : QueueState) (request : Request) (now : ℕ) : Type 0 where
    pub is_queued : state.status ≡ queued
    pub is_fresh : state.revision ≡ request.expected_revision
    pub holder :
        placement_update_active state now ≡ true → Holds sha256 state request.placement_token
    pub unexpired :
        is_none request.placement_token ≡ false → placement_update_active state now ≡ true

  check_editable-MayEdit :
      (state : QueueState) (request : Request) (token : Option String) (now : ℕ)
      → request.placement_token ≡ token
      → check_editable sha256 state request now ≡ ok tt
      → MayEdit state request now
  unfolding check_editable
  check_editable-MayEdit state request none now e h = record {
    is_queued = ground arith;
    is_fresh = ground arith;
    holder = λ active. ground arith;
    unexpired = λ given. ground arith;
  }
  check_editable-MayEdit state request (some token) now e h = record {
    is_queued = ground arith;
    is_fresh = ground arith;
    holder = λ active. ground arith;
    unexpired = λ given. ground arith;
  }

  -- If an update is planned, the run is stored with the state that is returned, which is queued
  -- and at the revision that the caller read. While the run is reserved, a token that is given is
  -- the reservation's, and one is given; a token is given only while the run is reserved.
  pub plan_update-MayEdit :
      (queue : Queue) (run_id : String) (request : Request) (now : ℕ) (job : Job)
      (state : QueueState) (edited : Edit)
      → plan_update sha256 queue run_id request now ≡ ok (job, state, edited)
      → MayEdit state request now × ((stored : Job) × (get queue run_id ≡ some (stored, state)))
  unfolding plan_update
  plan_update-MayEdit queue run_id request now job state edited h =
      let (u, _, h1) = >>=-eq-ok (check_request run_id request) _ h in
      let (row, loaded, h2) = >>=-eq-ok (load_job sha256 queue run_id) _ h1 in
      let (v, checked, h3) = >>=-eq-ok (check_editable sha256 row.1 request now) _ h2 in
      let (e, _, h4) = >>=-eq-ok (apply_edits _ run_id row.0 request _) _ h3 in
      let (stored, found, _, _) = load_job-ok sha256 queue run_id row loaded in
      let same : row.1 ≡ state = ground arith in
      (
        subst (λ s. MayEdit s request now) same
            (check_editable-MayEdit row.1 request _ now refl checked),
        (stored, rw (← same) found),
      )

  -- An update that is refused before its first write, or that changes nothing, leaves the queue.
  pub update_queued_job-refused :
      (queue : Queue) (run_id : String) (request : Request) (now : ℕ) (at : String) (e : Error)
      → plan_update sha256 queue run_id request now ≡ err e
      → update_queued_job sha256 queue run_id request now at ≡ (err e, queue)
  unfolding update_queued_job
  update_queued_job-refused queue run_id request now at e h = rw (h, update_queued_job)

check_eligible_edit-parts :
    (names : List String) (job : Job)
    → check_eligible_edit names job ≡ ok tt
    → (distinct names ≡ true) × (subset names (server_names job.prepared_servers) ≡ true)
unfolding check_eligible_edit
check_eligible_edit-parts names job h = ground arith

same_texts-eq : (xs ys : List String) → same_texts xs ys ≡ true → xs ≡ ys
same_texts-eq [] [] h = refl
same_texts-eq [] (y ∷ ys) h = cc
same_texts-eq (x ∷ xs) [] h = cc
same_texts-eq (x ∷ xs) (y ∷ ys) h = ground (arith, string_eq.beq_iff x y, same_texts-eq xs ys)

-- Some of the members of a list, in the order of the list.
pub data Sublist : List String → List String → Type 0 where
  nothing : Sublist [] []
  keep : {xs ys : List String} (x : String) → Sublist xs ys → Sublist (x ∷ xs) (x ∷ ys)
  skip : {xs ys : List String} (y : String) → Sublist xs ys → Sublist xs (y ∷ ys)

filter-Sublist : (p : String → Bool) (xs : List String) → Sublist (filter p xs) xs
filter-Sublist p [] = nothing
filter-Sublist p (x ∷ xs) = elim (Bool-cases (p x)) [
  | inl kept ↦ rw kept (keep x (filter-Sublist p xs))
  | inr left ↦ rw left (skip x (filter-Sublist p xs))
]

-- The servers are those that are named, in the order in which the job's servers were prepared.
pub record IsChoice (names : List String) (job : Job) (servers : List String) : Type 0 where
  pub in_order : Sublist servers (server_names job.prepared_servers)
  pub named : (name : String) → contains servers name ≡ contains names name

in_prepared_order-IsChoice :
    (names : List String) (job : Job)
    → All (λ name. contains (server_names job.prepared_servers) name ≡ true) names
    → IsChoice names job (in_prepared_order names job)
in_prepared_order-IsChoice names job known = record {
  in_order = filter-Sublist (contains names) (server_names job.prepared_servers);
  named = λ name.
      contains-filter (contains names) (server_names job.prepared_servers) name
      ∙ elim (Bool-cases (contains names name)) [
        | inl wanted ↦ rw (wanted, All-contains _ names name known wanted) refl
        | inr other ↦ rw other (and_false (contains (server_names job.prepared_servers) name))
      ];
}

-- A choice of servers that is accepted names none twice and only prepared ones. Either the job then
-- may run on exactly those, in the order in which they were prepared, the choice is locked, and the
-- edit counts as a change; or that was its locked choice before, and nothing is edited.
pub edit_eligible-some :
    (names : List String) (job : Job) (edit edit' : Edit)
    → edit_eligible (some names) job edit ≡ ok edit'
    → (distinct names ≡ true)
      × All (λ name. contains (server_names job.prepared_servers) name ≡ true) names
      × ((IsChoice names job edit'.job.eligible_servers
            × (edit'.job.eligible_servers_locked ≡ true)
            × (edit'.changed ≡ true))
          ⊎ ((edit' ≡ edit)
              × IsChoice names job job.eligible_servers
              × (job.eligible_servers_locked ≡ true)))
unfolding edit_eligible
edit_eligible-some names job edit edit' h =
    let (u, checked, rest) = >>=-eq-ok (check_eligible_edit names job) _ h in
    let (once, known) = check_eligible_edit-parts names job checked in
    let all_known = all→All (contains (server_names job.prepared_servers)) names known in
    let choice = in_prepared_order-IsChoice names job all_known in
    let ordered = in_prepared_order names job in
    let whole = record edit {
      job = record edit.job { eligible_servers = ordered; eligible_servers_locked = true };
      changed = true;
    } in
    (
      once,
      all_known,
      elim (Bool-cases (same_texts ordered job.eligible_servers && job.eligible_servers_locked)) [
        | inl same ↦
            let (texts, locked) = and_true _ _ same in
            inr (
              sym (ok_injective _ _ (rw same at rest)),
              subst (IsChoice names job) (same_texts-eq ordered job.eligible_servers texts) choice,
              locked,
            )
        | inr differs ↦ inl (
            subst
              (λ (e : Edit).
                IsChoice names job e.job.eligible_servers
                × (e.job.eligible_servers_locked ≡ true)
                × (e.changed ≡ true))
              (ok_injective whole edit' (rw differs at rest)) (choice, refl, refl))
      ],
    )
