-- ===== src/Dispatch/Plan/Rounds.antt =====
-- dispatcher.py: one round of `_plan_dispatch_batch`.
use mathlib.Core.Option
use codex_remote_runner.Prelude.{
  string_eq, nat_eq, Result, ok, ◌>>=◌, >>=-eq-ok, ok_injective, String, ◌≡◌, sym, ap, ◌∙◌, subst,
  Option, none, some, List, [], ◌∷◌, ◌++◌, map,
}
use codex_remote_runner.Queue.Job.{workload_eq, priority_eq}
use codex_remote_runner.Dispatch.Capacity.{ProbedServer, Message}
use codex_remote_runner.Dispatch.Select.{CapacitySnapshot, machine_of, select_from_snapshot}
use codex_remote_runner.Queue.Store.{Row}
use codex_remote_runner.Dispatch.Select.Laws.{select_from_snapshot-All}
use codex_remote_runner.Dispatch.Plan.{
  PlannedDispatch, open_servers, Lane, backfill, plan_backfill_from_lane, Blocked, Choice, beyond,
  head_answer, choose_head, choose_backfill, choose,
}
use codex_remote_runner.Dispatch.Plan.Choices.{
  Removes, first, next, Removes-after, all_rows, Taken, lane_of-rows, beyond-Taken, backfill-taken,
}

module _ (probes : CapacitySnapshot) (reserved : List String) where
  same_choice :
      {a b : Option Choice} {x y : List Blocked}
      → ◌≡◌ {A = Result (Option Choice × List Blocked)} (ok (a, x)) (ok (b, y))
      → a ≡ b
  same_choice r = cc

  some_choice : {a b : Choice} → some a ≡ some b → a ≡ b
  some_choice r = cc

  choose_head-Taken :
      (lanes : List Lane) (choice : Choice) (blocked : List Blocked)
      → choose_head probes reserved lanes ≡ ok (some choice, blocked)
      → Taken probes reserved lanes choice
  unfolding choose_head
  choose_head-Taken [] choice blocked e = cc
  choose_head-Taken (lane ∷ lanes) choice blocked e =
      let (answer, selected, e1) =
        >>=-eq-ok (select_from_snapshot lane.head.0 probes reserved none) _ e in
      answered answer.0 answer.1 (λ other others. choose_head-Taken lanes other others) selected e1
    where
      answered :
          (candidates : List ProbedServer) (message : Option Message)
          → ((other : Choice) (others : List Blocked)
              → choose_head probes reserved lanes ≡ ok (some other, others)
              → Taken probes reserved lanes other)
          → select_from_snapshot lane.head.0 probes reserved none ≡ ok (candidates, message)
          → head_answer lane lanes (choose_head probes reserved lanes) candidates message
            ≡ ok (some choice, blocked)
          → Taken probes reserved (lane ∷ lanes) choice
      answered [] message ih selected q =
          let (later, searched, q1) = >>=-eq-ok (choose_head probes reserved lanes) _ q in
          beyond-Taken probes reserved lane lanes later.0 choice
            (λ other found. ih other later.1 (searched ∙ ap (λ x. ok (x, later.1)) found))
            (same_choice q1)
      answered (c ∷ cs) message ih selected q =
          subst (Taken probes reserved (lane ∷ lanes)) (some_choice (same_choice q)) (record {
            removes =
                subst (Removes lane.head (all_rows (lane ∷ lanes)))
                  (sym (lane_of-rows lane.later lanes)) first;
            selects = (
              none,
              (select_from_snapshot-All lane.head.0 probes reserved none (c ∷ cs) message
                  selected).0,
            );
          })

  same_lane :
      (lane : Lane) (found : Option (PlannedDispatch × List Row)) (planned : PlannedDispatch)
      (left : Lane)
      → Option.map {B = PlannedDispatch × Lane}
          (λ choice. (choice.0, record { head = lane.head; later = choice.1 }))
          found
        ≡ some (planned, left)
      → (found ≡ some (planned, left.later)) × (left.head ≡ lane.head)
  same_lane lane none planned left e = cc
  same_lane lane (some (other, rows)) planned left e = (cc, cc)

  -- A row behind the head of a lane.
  plan_backfill_from_lane-Taken :
      (lane : Lane) (lanes : List Lane) (planned : PlannedDispatch) (left : Lane)
      → plan_backfill_from_lane probes reserved lane ≡ ok (some (planned, left))
      → Taken probes reserved (lane ∷ lanes) (planned, left ∷ lanes)
  unfolding plan_backfill_from_lane
  plan_backfill_from_lane-Taken lane lanes planned left e =
      let (machines, _, e1) = >>=-eq-ok (open_servers probes lane.head.0) _ e in
      let (found, searched, e2) =
        >>=-eq-ok (backfill probes reserved (map (λ entry. machine_of entry.1) machines) lane.later)
          _ e1 in
      let (same, head) = same_lane lane found planned left (ok_injective _ _ e2) in
      let (removes, selects) =
        backfill-taken probes reserved (map (λ entry. machine_of entry.1) machines) lane.later
          (planned, left.later) (searched ∙ ap ok same) in
      record {
        removes =
            subst
              (λ head.
                Removes planned.row (all_rows (lane ∷ lanes))
                  ((head ∷ left.later) ++ all_rows lanes))
              (sym head) (next (Removes-after (all_rows lanes) removes));
        selects = selects;
      }

  choose_backfill-Taken :
      (lanes : List Lane) (choice : Choice)
      → choose_backfill probes reserved lanes ≡ ok (some choice)
      → Taken probes reserved lanes choice
  unfolding choose_backfill
  choose_backfill-Taken [] choice e = cc
  choose_backfill-Taken (lane ∷ lanes) choice e =
      let (found, searched, e1) = >>=-eq-ok (plan_backfill_from_lane probes reserved lane) _ e in
      answered found (choose_backfill-Taken lanes) searched e1
    where
      answered :
          (found : Option (PlannedDispatch × Lane))
          → ((other : Choice)
              → choose_backfill probes reserved lanes ≡ ok (some other)
              → Taken probes reserved lanes other)
          → plan_backfill_from_lane probes reserved lane ≡ ok found
          → ◌≡◌ {A = Result (Option Choice)}
              (elim found [
                | some (planned, left) ↦ ok (some (planned, left ∷ lanes))
                | none ↦ do
                  others ← choose_backfill probes reserved lanes
                  ok (Option.map (beyond lane) others)
              ])
              (ok (some choice))
          → Taken probes reserved (lane ∷ lanes) choice
      answered none ih searched q =
          let (others, later, q1) = >>=-eq-ok (choose_backfill probes reserved lanes) _ q in
          beyond-Taken probes reserved lane lanes others choice
            (λ other e. ih other (later ∙ ap ok e)) (ok_injective _ _ q1)
      answered (some (planned, left)) ih searched q =
          subst (Taken probes reserved (lane ∷ lanes)) (ok_some q)
            (plan_backfill_from_lane-Taken lane lanes planned left searched)
        where
          ok_some :
              {a b : Choice} → ◌≡◌ {A = Result (Option Choice)} (ok (some a)) (ok (some b)) → a ≡ b
          ok_some r = cc

  -- A round takes one row out of the lanes.
  pub choose-Taken :
      (lanes : List Lane) (choice : Choice) (blocked : List Blocked)
      → choose probes reserved lanes ≡ ok (some choice, blocked)
      → Taken probes reserved lanes choice
  unfolding choose
  choose-Taken lanes choice blocked e =
      let (headed, looked, e1) = >>=-eq-ok (choose_head probes reserved lanes) _ e in
      headed_answer headed.0 headed.1 looked e1
    where
      headed_answer :
          (found : Option Choice) (others : List Blocked)
          → choose_head probes reserved lanes ≡ ok (found, others)
          → ◌≡◌ {A = Result (Option Choice × List Blocked)}
              (elim found [
                | some chosen ↦ ok (some chosen, others)
                | none ↦ (do
                  backfilled ← choose_backfill probes reserved lanes
                  ok (backfilled, others))
              ])
              (ok (some choice, blocked))
          → Taken probes reserved lanes choice
      headed_answer (some chosen) others looked q =
          choose_head-Taken lanes choice others (looked ∙ ap (λ x. ok (x, others)) (same_choice q))
      headed_answer none others looked q =
          let (backfilled, searched, q1) = >>=-eq-ok (choose_backfill probes reserved lanes) _ q in
          choose_backfill-Taken lanes choice (searched ∙ ap ok (same_choice q1))
