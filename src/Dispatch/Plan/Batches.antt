-- ===== src/Dispatch/Plan/Batches.antt =====
-- dispatcher.py: what a batch of `_plan_dispatch_batch` is.
use mathlib.Core.List.{Perm}
use mathlib.Core.List.Perm
use mathlib.Core.Option
use codex_remote_runner.Prelude.{
  Bool-cases, Option-cases, length, length-append, filter, ◌==◌, nat_eq, string_eq, Result, ok,
  >>=-eq-ok, ok_injective, ℕ, zero, suc, ◌+◌, ◌≤◌, String, ◌≡◌, refl, sym, ap, ◌∙◌, subst, ◌≢◌, inl,
  inr, Bool, not, Option, none, some, List, [], ◌∷◌, ◌++◌, map, append-nil, arith,
}
use codex_remote_runner.Scheduling.{WorkloadClass, standard, test}
use codex_remote_runner.Machines.Identity.{Server}
use codex_remote_runner.Queue.Job.{workload_eq, priority_eq}
use codex_remote_runner.Queue.Store.{Row}
use codex_remote_runner.Dispatch.Select.{CapacitySnapshot}
use codex_remote_runner.Dispatch.Plan.{
  PlannedDispatch, Lane, Blocked, Choice, lane_of, choose, idle, server_machine, Batch, turn,
  plan_lanes, lanes_of, plan_dispatch_batch,
}
use codex_remote_runner.Dispatch.Plan.Rounds.{choose-Taken}
use codex_remote_runner.Dispatch.Plan.Choices.{
  first, Removes-before, Removes-length, Removes-perm, all_rows, IsSelected, lane_of-rows,
}

-- What passes a test and what does not are the list again.
partition-perm {ℓ} :
    {A : Type ℓ} (p q : A → Bool) (xs : List A)
    → ((x : A) → q x ≡ not (p x))
    → Perm (filter p xs ++ filter q xs) xs
partition-perm p q [] h = Perm.refl _
partition-perm p q (x ∷ xs) h = elim (Bool-cases (p x)) [
  | inl passes ↦ rw (h x, passes) (Perm.cons x (partition-perm p q xs h))
  | inr fails ↦
      rw (h x, fails)
        (Perm.trans (Removes-perm (Removes-before (filter p xs) first))
          (Perm.cons x (partition-perm p q xs h)))
]

not_standard : (c : WorkloadClass) → (c == test) ≡ not (c == standard)
not_standard c = ground arith

by_class-perm :
    (rows : List Row)
    → Perm
        (filter (λ row. row.0.workload_class == standard) rows
          ++ filter (λ row. row.0.workload_class == test) rows)
        rows
by_class-perm rows =
    partition-perm (λ row. row.0.workload_class == standard) (λ row. row.0.workload_class == test)
      rows (λ row. not_standard row.0.workload_class)

all_rows-lane_of : (rows : List Row) → all_rows (lane_of rows) ≡ rows
all_rows-lane_of [] = refl
all_rows-lane_of (row ∷ rows) = append-nil (row ∷ rows)

by_class-length :
    (rows : List Row)
    → length (filter (λ row. row.0.workload_class == standard) rows)
        + length (filter (λ row. row.0.workload_class == test) rows)
      ≡ length rows
by_class-length [] = refl
by_class-length (row ∷ rows) = ground (arith, by_class-length rows)

lanes_of-rows :
    (rows : List Row)
    → all_rows (lanes_of rows)
      ≡ filter (λ row. row.0.workload_class == standard) rows
        ++ filter (λ row. row.0.workload_class == test) rows
lanes_of-rows rows =
    lane_of-rows (filter (λ row. row.0.workload_class == standard) rows)
      (lane_of (filter (λ row. row.0.workload_class == test) rows))
    ∙ ap (λ x. filter (λ row. row.0.workload_class == standard) rows ++ x)
        (all_rows-lane_of (filter (λ row. row.0.workload_class == test) rows))

lanes_of-length : (rows : List Row) → length (all_rows (lanes_of rows)) ≡ length rows
lanes_of-length rows =
    ap length (lanes_of-rows rows)
    ∙ length-append (filter (λ row. row.0.workload_class == standard) rows)
        (filter (λ row. row.0.workload_class == test) rows)
    ∙ by_class-length rows

-- A plan has a machine for each row, selected while those of the rows before it were reserved.
abbrev pub Exclusive : CapacitySnapshot → List String → List PlannedDispatch → Type 0
Exclusive probes reserved [] = Unit
Exclusive probes reserved (planned ∷ plans) =
    IsSelected probes reserved planned
    × (machine : String) × (planned.selected.server.machine_id ≡ some machine)
    × Exclusive probes (machine ∷ reserved) plans

server_machine-some :
    (server : Server) (machine : String)
    → server_machine server ≡ ok machine
    → server.machine_id ≡ some machine
server_machine-some server machine e = elim (Option-cases server.machine_id) [
  | inl missing ↦ cc (rw missing at e)
  | inr (id, found) ↦ found ∙ ap some (ok_injective _ _ (rw found at e))
]

some_batch : {a b : Batch} → some a ≡ some b → a ≡ b
some_batch e = cc

-- What the loop returns, round by round.
pub record IsPlan (probes : CapacitySnapshot) (reserved : List String) (rows : List Row)
    (plan : Batch) : Type 0 where
  pub exclusive : Exclusive probes reserved plan.0
  pub left : List Row
  pub accounts : Perm rows (map (λ planned. planned.row) plan.0 ++ left)
  pub complete : plan.1 ≡ idle → left ≡ []

module _ (probes : CapacitySnapshot) where
  turn-IsPlan :
      (rest : List String → List Lane → Result (Option Batch)) (reserved : List String)
      (lanes : List Lane) (choice : Option Choice) (blocked : List Blocked) (plan : Batch)
      → ((reserved' : List String) (left : List Lane) (later : Batch)
          → rest reserved' left ≡ ok (some later)
          → IsPlan probes reserved' (all_rows left) later)
      → choose probes reserved lanes ≡ ok (choice, blocked)
      → turn rest reserved choice blocked ≡ ok (some plan)
      → IsPlan probes reserved (all_rows lanes) plan
  turn-IsPlan rest reserved lanes none blocked plan ih chosen e =
      subst (IsPlan probes reserved (all_rows lanes)) (some_batch (ok_injective _ _ e)) (record {
        exclusive = tt;
        left = all_rows lanes;
        accounts = Perm.refl _;
        complete = λ q. cc;
      })
  turn-IsPlan rest reserved lanes (some (planned, left)) blocked plan ih chosen e =
      let (machine, its, e1) = >>=-eq-ok (server_machine planned.selected.server) _ e in
      let (batch, later, e2) = >>=-eq-ok (rest (machine ∷ reserved) left) _ e1 in
      let t = choose-Taken probes reserved lanes (planned, left) blocked chosen in
      let (found, some_found, same) = later_batch batch (ok_injective _ _ e2) in
      let p = ih (machine ∷ reserved) left found (later ∙ ap ok some_found) in
      subst (IsPlan probes reserved (all_rows lanes)) same (record {
        exclusive = (
          t.selects,
          machine,
          server_machine-some planned.selected.server machine its,
          p.exclusive,
        );
        left = p.left;
        accounts = Perm.trans (Removes-perm t.removes) (Perm.cons planned.row p.accounts);
        complete = p.complete;
      })
    where
      later_batch :
          (batch : Option Batch)
          → Option.map {B = Batch} (λ later. (planned ∷ later.0, later.1)) batch ≡ some plan
          → (found : Batch) × (batch ≡ some found)
            × ◌≡◌ {A = Batch} (planned ∷ found.0, found.1) plan
      later_batch none q = cc
      later_batch (some found) q = (found, refl, some_batch q)

  plan_lanes-IsPlan :
      (fuel : ℕ) (reserved : List String) (lanes : List Lane) (plan : Batch)
      → plan_lanes fuel probes reserved lanes ≡ ok (some plan)
      → IsPlan probes reserved (all_rows lanes) plan
  unfolding plan_lanes
  plan_lanes-IsPlan fuel reserved [] plan e =
      subst (IsPlan probes reserved []) (some_batch (ok_injective _ _ e))
        (record { exclusive = tt; left = []; accounts = Perm.refl _; complete = λ _. refl })
  plan_lanes-IsPlan zero reserved (lane ∷ lanes) plan e = cc
  plan_lanes-IsPlan (suc fuel) reserved (lane ∷ lanes) plan e =
      let (answer, chosen, e1) = >>=-eq-ok (choose probes reserved (lane ∷ lanes)) _ e in
      turn-IsPlan (plan_lanes fuel probes) reserved (lane ∷ lanes) answer.0 answer.1 plan
        (plan_lanes-IsPlan fuel) chosen e1

  turn-fuel :
      (rest : List String → List Lane → Result (Option Batch)) (reserved : List String)
      (lanes : List Lane) (choice : Option Choice) (blocked : List Blocked) (fuel : ℕ)
      → ((reserved' : List String) (left : List Lane)
          → length (all_rows left) ≤ fuel
          → rest reserved' left ≢ ok none)
      → length (all_rows lanes) ≤ suc fuel
      → choose probes reserved lanes ≡ ok (choice, blocked)
      → turn rest reserved choice blocked ≢ ok none
  turn-fuel rest reserved lanes none blocked fuel ih h chosen e = cc
  turn-fuel rest reserved lanes (some (planned, left)) blocked fuel ih h chosen e =
      let (machine, its, e1) = >>=-eq-ok (server_machine planned.selected.server) _ e in
      let (batch, later, e2) = >>=-eq-ok (rest (machine ∷ reserved) left) _ e1 in
      let t = choose-Taken probes reserved lanes (planned, left) blocked chosen in
      ih (machine ∷ reserved) left (omega (arith, h, Removes-length t.removes))
        (later ∙ ap ok (map_none batch (ok_injective _ _ e2)))
    where
      map_none :
          (batch : Option Batch)
          → Option.map {B = Batch} (λ later. (planned ∷ later.0, later.1)) batch ≡ none
          → batch ≡ none
      map_none none q = refl
      map_none (some b) q = cc

  -- There is fuel for every row.
  plan_lanes-fuel :
      (fuel : ℕ) (reserved : List String) (lanes : List Lane)
      → length (all_rows lanes) ≤ fuel
      → plan_lanes fuel probes reserved lanes ≢ ok none
  unfolding plan_lanes
  plan_lanes-fuel fuel reserved [] h e = cc
  plan_lanes-fuel zero reserved (lane ∷ lanes) h e = omega (arith, h)
  plan_lanes-fuel (suc fuel) reserved (lane ∷ lanes) h e =
      let (answer, chosen, e1) = >>=-eq-ok (choose probes reserved (lane ∷ lanes)) _ e in
      turn-fuel (plan_lanes fuel probes) reserved (lane ∷ lanes) answer.0 answer.1 fuel
        (plan_lanes-fuel fuel) h chosen e1

-- The loop of a batch never runs out of the fuel given to it, which is the number of queued rows.
pub plan_dispatch_batch-terminates :
    (rows : List Row) (probes : CapacitySnapshot) → plan_dispatch_batch rows probes ≢ ok none
unfolding plan_dispatch_batch
plan_dispatch_batch-terminates rows probes =
    plan_lanes-fuel probes (length rows) [] (lanes_of rows) (omega (arith, lanes_of-length rows))

-- If a batch is planned, the queued rows are a rearrangement of the planned rows and those left.
-- Each planned job has a machine that was selected for it with the machines of the jobs planned
-- before it reserved. If the outcome is that there is nothing to do, no row is left.
pub plan_dispatch_batch-IsPlan :
    (rows : List Row) (probes : CapacitySnapshot) (plan : Batch)
    → plan_dispatch_batch rows probes ≡ ok (some plan)
    → IsPlan probes [] rows plan
unfolding plan_dispatch_batch
plan_dispatch_batch-IsPlan rows probes plan e =
    let p = plan_lanes-IsPlan probes (length rows) [] (lanes_of rows) plan e in
    record {
      exclusive = p.exclusive;
      left = p.left;
      accounts =
          Perm.trans
            (Perm.symm (subst (λ x. Perm x rows) (sym (lanes_of-rows rows)) (by_class-perm rows)))
            p.accounts;
      complete = p.complete;
    }
