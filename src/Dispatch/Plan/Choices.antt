-- ===== src/Dispatch/Plan/Choices.antt =====
-- dispatcher.py: what a round of `_plan_dispatch_batch` chooses, and what it leaves.
use mathlib.Core.List.{Perm}
use mathlib.Core.List.Perm
use mathlib.Core.Option
use codex_remote_runner.Prelude.{
  if◌then◌else◌, Bool-cases, length, is_empty, nat_eq, string_eq, Result, ok, ◌>>=◌, >>=-eq-ok,
  ok_injective, Dict, suc, String, ◌≡◌, refl, ap, ◌∙◌, subst, inl, inr, Option, none, some, List,
  [], ◌∷◌, ◌++◌, map, arith,
}
use codex_remote_runner.Queue.Job.{workload_eq, priority_eq}
use codex_remote_runner.Queue.Store.{Row}
use codex_remote_runner.Dispatch.Select.{CapacitySnapshot, select_from_snapshot}
use codex_remote_runner.Dispatch.Select.Laws.{Selected, select_from_snapshot-All}
use codex_remote_runner.Dispatch.Capacity.{ProbedServer, Message}
use codex_remote_runner.Dispatch.Plan.{
  PlannedDispatch, open_machines, Lane, rows_of, safe_names, backfill, Choice, lane_of, beyond,
}

-- The second list is the first without one occurrence of the element.
pub data Removes {ℓ} {A : Type ℓ} (x : A) : List A → List A → Type ℓ where
  first : {xs : List A} → Removes x (x ∷ xs) xs
  next : {y : A} {xs ys : List A} → Removes x xs ys → Removes x (y ∷ xs) (y ∷ ys)

module _ {ℓ} {A : Type ℓ} {x : A} where
  pub Removes-before :
      {xs ys : List A} (zs : List A) → Removes x xs ys → Removes x (zs ++ xs) (zs ++ ys)
  Removes-before [] r = r
  Removes-before (z ∷ zs) r = next (Removes-before zs r)

  pub Removes-after :
      {xs ys : List A} (zs : List A) → Removes x xs ys → Removes x (xs ++ zs) (ys ++ zs)
  Removes-after zs first = first
  Removes-after zs (next r) = next (Removes-after zs r)

  pub Removes-length : {xs ys : List A} → Removes x xs ys → length xs ≡ suc (length ys)
  Removes-length first = refl
  Removes-length (next r) = omega (arith, Removes-length r)

  pub Removes-perm : {xs ys : List A} → Removes x xs ys → Perm xs (x ∷ ys)
  Removes-perm first = Perm.refl _
  Removes-perm (next {y = y} {ys = ys} r) =
      Perm.trans (Perm.cons y (Removes-perm r)) (Perm.swap x y ys)

-- The rows of the lanes.
abbrev pub all_rows : List Lane → List Row
all_rows [] = []
all_rows (lane ∷ lanes) = rows_of lane ++ all_rows lanes

-- A machine was selected for the planned job.
abbrev pub IsSelected : CapacitySnapshot → List String → PlannedDispatch → Type 0
IsSelected probes reserved planned =
    (allowed : Option (List String)) × Selected planned.row.0 probes reserved allowed
      planned.selected

-- What a round does: the planned row is taken from the lanes, with a machine that was selected.
pub record Taken (probes : CapacitySnapshot) (reserved : List String) (lanes : List Lane)
    (choice : Choice) : Type 0 where
  pub removes : Removes choice.0.row (all_rows lanes) (all_rows choice.1)
  pub selects : IsSelected probes reserved choice.0

pub lane_of-rows :
    (rows : List Row) (lanes : List Lane)
    → all_rows (lane_of rows ++ lanes) ≡ rows ++ all_rows lanes
lane_of-rows [] lanes = refl
lane_of-rows (row ∷ rows) lanes = refl

module _ (probes : CapacitySnapshot) (reserved : List String) where
  -- A choice among the later lanes.
  pub beyond-Taken :
      (lane : Lane) (lanes : List Lane) (others : Option Choice) (choice : Choice)
      → ((other : Choice) → others ≡ some other → Taken probes reserved lanes other)
      → Option.map (beyond lane) others ≡ some choice
      → Taken probes reserved (lane ∷ lanes) choice
  beyond-Taken lane lanes none choice h e = cc
  beyond-Taken lane lanes (some other) choice h e =
      let t = h other refl in
      subst (Taken probes reserved (lane ∷ lanes)) (some_eq e)
        (record { removes = Removes-before (rows_of lane) t.removes; selects = t.selects })
    where
      some_eq : some (beyond lane other) ≡ some choice → beyond lane other ≡ choice
      some_eq q = cc

  -- What a search of the rows behind a head does, if it finds one.
  abbrev pub FromRows : List Row → PlannedDispatch × List Row → Type 0
  FromRows rows choice = Removes choice.0.row rows choice.1 × IsSelected probes reserved choice.0

  abbrev attempt :
      Row → Dict String String → List String → Result (List ProbedServer × Option Message)
  attempt row machines protected =
      if is_empty (safe_names protected machines)
      then ok ([], none)
      else select_from_snapshot row.0 probes reserved (some (safe_names protected machines))

  attempt-Selected :
      (row : Row) (machines : Dict String String) (protected : List String) (c : ProbedServer)
      (cs : List ProbedServer) (message : Option Message)
      → attempt row machines protected ≡ ok (c ∷ cs, message)
      → Selected row.0 probes reserved (some (safe_names protected machines)) c
  attempt-Selected row machines protected c cs message e =
      elim (Bool-cases (is_empty (safe_names protected machines))) [
        | inl nothing ↦ cc (rw nothing at e)
        | inr some_name ↦
            (select_from_snapshot-All row.0 probes reserved (some (safe_names protected machines))
              (c ∷ cs) message (rw some_name at e)).0
      ]

  later_row :
      (row : Row) (rows : List Row) (found : Option (PlannedDispatch × List Row))
      (choice : PlannedDispatch × List Row)
      → ((other : PlannedDispatch × List Row) → found ≡ some other → FromRows rows other)
      → Option.map (λ other. (other.0, row ∷ other.1)) found ≡ some choice
      → FromRows (row ∷ rows) choice
  later_row row rows none choice h e = cc
  later_row row rows (some other) choice h e =
      subst (FromRows (row ∷ rows)) (same e) (next (h other refl).0, (h other refl).1)
    where
      same :
          ◌≡◌ {A = Option (PlannedDispatch × List Row)}
            (some (other.0, row ∷ other.1))
            (some choice)
          → ◌≡◌ {A = PlannedDispatch × List Row} (other.0, row ∷ other.1) choice
      same q = cc

  pub backfill-taken :
      (protected : List String) (rows : List Row) (choice : PlannedDispatch × List Row)
      → backfill probes reserved protected rows ≡ ok (some choice)
      → FromRows rows choice
  unfolding backfill
  backfill-taken protected [] choice e = cc
  backfill-taken protected (row ∷ rows) choice e =
      let (machines, _, e1) = >>=-eq-ok (open_machines probes row.0) _ e in
      let (answer, tried, e2) = >>=-eq-ok (attempt row machines protected) _ e1 in
      next_row machines answer.0 answer.1 (λ protected'. backfill-taken protected' rows) tried e2
    where
      next_row :
          (machines : Dict String String) (candidates : List ProbedServer)
          (message : Option Message)
          → ((protected' : List String) (other : PlannedDispatch × List Row)
              → backfill probes reserved protected' rows ≡ ok (some other)
              → FromRows rows other)
          → attempt row machines protected ≡ ok (candidates, message)
          → ◌≡◌ {A = Result (Option (PlannedDispatch × List Row))}
              (elim candidates [
                | c ∷ cs ↦ ok (some (record { row = row; selected = c; alternatives = cs }, rows))
                | [] ↦ do
                  found ←
                      backfill probes reserved (protected ++ map (λ entry. entry.1) machines) rows
                  ok (Option.map (λ other. (other.0, row ∷ other.1)) found)
              ])
              (ok (some choice))
          → FromRows (row ∷ rows) choice
      next_row machines [] message ih tried q =
          let (found, searched, q1) =
            >>=-eq-ok (backfill probes reserved (protected ++ map (λ entry. entry.1) machines) rows)
              _ q in
          later_row row rows found choice
            (λ other e.
              ih (protected ++ map (λ entry. entry.1) machines) other (searched ∙ ap ok e))
            (ok_injective _ _ q1)
      next_row machines (c ∷ cs) message ih tried q =
          subst (FromRows (row ∷ rows)) (same q) (first, chosen)
        where
          chosen : (allowed : Option (List String)) × Selected row.0 probes reserved allowed c
          chosen = (
            some (safe_names protected machines),
            attempt-Selected row machines protected c cs message tried,
          )

          same :
              ◌≡◌ {A = Result (Option (PlannedDispatch × List Row))}
                (ok (some (record { row = row; selected = c; alternatives = cs }, rows)))
                (ok (some choice))
              → ◌≡◌ {A = PlannedDispatch × List Row}
                  (record { row = row; selected = c; alternatives = cs }, rows)
                  choice
          same r = cc
