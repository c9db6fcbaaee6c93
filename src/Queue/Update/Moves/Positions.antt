-- ===== src/Queue/Update/Moves/Positions.antt =====
-- registry.py: the positions that the moves of `update_queued_job` write.
use codex_remote_runner.Prelude.{
  Bool-cases, length, length-append, All, contains, ◌==◌, nat_eq, string_eq, beq_self, beq_of_ne,
  ok, ok_injective, Dict, get, put, get-put_self, ℕ, ◌+◌, ◌*◌, ◌≤◌, ◌<◌, String, ◌≡◌, refl, sym, ap,
  ◌∙◌, subst, ◌≢◌, inl, inr, true, false, some, List, [], ◌∷◌, ◌++◌, map, append_assoc, arith,
}
use codex_remote_runner.Queue.Job.{Job, workload_eq, priority_eq}
use codex_remote_runner.Queue.Update.Edits.{Edit}
use codex_remote_runner.Queue.Update.Moves.{
  up, base_position, renumber, by_run, move_first, swap_with, last?, apply_move,
}

-- Positions rise strictly along the list.
abbrev pub Ascends : List Job → Type 0
Ascends [] = Unit {0}
Ascends (job ∷ jobs) = All (λ later. job.queue_position < later.queue_position) jobs × Ascends jobs

abbrev pub written_jobs : Dict String Job → List Job
written_jobs = map λ entry. entry.1

abbrev pub run_ids : List Job → List String
run_ids = map λ job. job.run_id

renumber-above :
    (floor base : ℕ) (jobs : List Job)
    → floor < base
    → All (λ later. floor < later.queue_position) (renumber base jobs)
renumber-above floor base [] h = tt
renumber-above floor base (job ∷ jobs) h = (h, renumber-above floor (base + 2) jobs (omega arith))

renumber-Ascends : (base : ℕ) (jobs : List Job) → Ascends (renumber base jobs)
renumber-Ascends base [] = tt
renumber-Ascends base (job ∷ jobs) =
    (renumber-above base (base + 2) jobs (omega arith), renumber-Ascends (base + 2) jobs)

written_jobs-by_run : (jobs : List Job) → written_jobs (by_run jobs) ≡ jobs
written_jobs-by_run [] = refl
written_jobs-by_run (job ∷ jobs) = rw (written_jobs-by_run jobs)

run_ids-renumber : (base : ℕ) (jobs : List Job) → run_ids (renumber base jobs) ≡ run_ids jobs
run_ids-renumber base [] = refl
run_ids-renumber base (job ∷ jobs) = rw (run_ids-renumber (base + 2) jobs)

abbrev pub tail_jobs : List Job → List Job
tail_jobs [] = []
tail_jobs (job ∷ jobs) = jobs

-- Moving a run to the front gives its lane positions that rise strictly: the run first, at the
-- smallest position that the lane had, and behind it the others in the order in which they were.
pub move_first-Ascends :
    (b : Job) (before : List Job) (job : Job) (after : List Job) (edit : Edit)
    → let moved = move_first (b ∷ before) job after edit in
      Ascends (written_jobs moved.to_write)
      × (run_ids (written_jobs moved.to_write) ≡ run_ids (job ∷ (b ∷ before) ++ after))
      × (moved.job.queue_position ≡ base_position ((b ∷ before) ++ job ∷ after))
      × All
          (λ later. moved.job.queue_position < later.queue_position)
          (tail_jobs (written_jobs moved.to_write))
      × (moved.ordering_changed ≡ true)
unfolding move_first
move_first-Ascends b before job after edit =
    let base = base_position ((b ∷ before) ++ job ∷ after) in
    let lane = job ∷ (b ∷ before) ++ after in
    let e = written_jobs-by_run (renumber base lane) in
    (
      subst Ascends (sym e) (renumber-Ascends base lane),
      ap run_ids e ∙ run_ids-renumber base lane,
      refl,
      subst (λ xs. All (λ later. base < later.queue_position) (tail_jobs xs)) (sym e)
          (renumber-above base (base + 2) ((b ∷ before) ++ after) (omega arith)),
      refl,
    )

get-renumber :
    (base : ℕ) (xs : List Job) (y : Job) (ys : List Job)
    → contains (run_ids xs) y.run_id ≡ false
    → get (by_run (renumber base (xs ++ y ∷ ys))) y.run_id
      ≡ some (record y { queue_position = base + 2 * length xs })
get-renumber base [] y ys h = rw (beq_self y.run_id) (ground arith)
get-renumber base (x ∷ xs) y ys h = ground (arith, get-renumber (base + 2) xs y ys)

last?-snoc : (xs : List Job) (y : Job) → last? (xs ++ (y ∷ [])) ≡ some y
last?-snoc [] y = refl
last?-snoc (x ∷ []) y = refl
last?-snoc (x ∷ z ∷ xs) y = last?-snoc (z ∷ xs) y

contains-snoc :
    (xs : List Job) (n job : Job)
    → n.run_id ≢ job.run_id
    → contains (run_ids xs) job.run_id ≡ false
    → contains (run_ids (xs ++ (n ∷ []))) job.run_id ≡ false
contains-snoc [] n job ne h = rw (beq_of_ne n.run_id job.run_id ne)
contains-snoc (x ∷ xs) n job ne h = ground (arith, contains-snoc xs n job ne)

-- The two runs after they changed places.
exchanged :
    (n job target other : Job) (to_write : Dict String Job) (edit edit' : Edit)
    → target.run_id ≡ job.run_id
    → other.run_id ≡ n.run_id
    → other.queue_position < target.queue_position
    → record edit {
      job = record target { queue_position = other.queue_position };
      changed = true;
      ordering_changed = true;
      to_write =
          put to_write other.run_id (record other { queue_position = target.queue_position });
    }
      ≡ edit'
    → (found : Job) × (get edit'.to_write n.run_id ≡ some found)
      × (edit'.job.run_id ≡ job.run_id)
      × (edit'.job.queue_position < found.queue_position)
exchanged n job target other to_write edit edit' t o lt e = (
  record other { queue_position = target.queue_position },
  ap (λ x. get x.to_write n.run_id) (sym e)
      ∙ rw (← o) (
          get-put_self to_write other.run_id
            (record other { queue_position = target.queue_position })),
  ap (λ x. x.job.run_id) (sym e) ∙ t,
  omega (arith, ap (λ x. x.job.queue_position) e),
)

swap_with-up :
    (init : List Job) (n job : Job) (after : List Job) (edit edit' : Edit)
    → edit.job ≡ job
    → n.run_id ≢ job.run_id
    → contains (run_ids init) n.run_id ≡ false
    → contains (run_ids init) job.run_id ≡ false
    → n.queue_position ≤ job.queue_position
    → swap_with ((init ++ (n ∷ [])) ++ job ∷ after) job n edit ≡ ok edit'
    → (other : Job) × (get edit'.to_write n.run_id ≡ some other)
      × (edit'.job.run_id ≡ job.run_id)
      × (edit'.job.queue_position < other.queue_position)
unfolding swap_with
swap_with-up init n job after edit edit' same ne fresh fresh' le h =
    elim (Bool-cases (edit.job.queue_position == n.queue_position)) [
      | inl tie ↦
          let lane = (init ++ (n ∷ [])) ++ job ∷ after in
          let base = base_position lane in
          let at_job =
            get-renumber base (init ++ (n ∷ [])) job after (contains-snoc init n job ne fresh') in
          let at_n : get (by_run (renumber base lane)) n.run_id
              ≡ some (record n { queue_position = base + 2 * length init }) =
            rw (append_assoc init (n ∷ []) (job ∷ after))
              (get-renumber _ init n (job ∷ after) fresh) in
          exchanged n job (record job { queue_position = base + 2 * length (init ++ (n ∷ [])) })
            (record n { queue_position = base + 2 * length init }) (by_run (renumber base lane))
            edit edit' refl refl (omega (arith, length-append init (n ∷ [])))
            (ok_injective _ _ (rw (tie, at_job, at_n) at h))
      | inr apart ↦
          exchanged n job edit.job n [] edit edit' (ap (λ j. j.run_id) same) refl
            (strictly edit.job.queue_position n.queue_position apart (rw same le))
            (ok_injective _ _ (rw apart at h))
    ]
  where
    strictly : (a b : ℕ) → (a == b) ≡ false → b ≤ a → b < a
    strictly a b h le = ground arith

-- Moving a run up in a lane, behind a run that differs from it and is served no later, succeeds
-- only with the run strictly before that one, also where the two had the same position; no earlier
-- run of the lane has the id of either.
pub apply_move-up :
    (init : List Job) (n job : Job) (after : List Job) (edit edit' : Edit)
    → edit.job ≡ job
    → n.run_id ≢ job.run_id
    → contains (run_ids init) n.run_id ≡ false
    → contains (run_ids init) job.run_id ≡ false
    → n.queue_position ≤ job.queue_position
    → apply_move up (init ++ (n ∷ [])) job after edit ≡ ok edit'
    → (other : Job) × (get edit'.to_write n.run_id ≡ some other)
      × (edit'.job.run_id ≡ job.run_id)
      × (edit'.job.queue_position < other.queue_position)
unfolding apply_move
apply_move-up init n job after edit edit' same ne fresh fresh' le h =
    swap_with-up init n job after edit edit' same ne fresh fresh' le
      (rw (last?-snoc init n, apply_move) at h)
