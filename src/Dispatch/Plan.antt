-- ===== src/Dispatch/Plan.antt =====
-- dispatcher.py: `_plan_backfill_from_lane` and `_plan_dispatch_batch`.
pub mod Choices
pub mod Rounds
pub mod Batches
pub mod Machines
use mathlib.Core.Option
use codex_remote_runner.Prelude.{
  if◌then◌else◌, length, is_empty, filter, contains, string_eq, ◌==◌, nat_eq, key_error, Result,
  err, ok, ◌>>=◌, ◌>>◌, Dict, put, ℕ, zero, suc, String, not, Option, none, some, List, [], ◌∷◌,
  ◌++◌, map,
}
use codex_remote_runner.Scheduling.{WorkloadClass, standard, test}
use codex_remote_runner.Machines.Identity.{Server}
use codex_remote_runner.Queue.Job.{Job, workload_eq, priority_eq, eligible_prepared_servers}
use codex_remote_runner.Queue.Store.{Row}
use codex_remote_runner.Dispatch.Capacity.{ProbedServer, Message}
use codex_remote_runner.Dispatch.Select.{
  CapacitySnapshot, machine_of, identified, select_from_snapshot,
}

pub record PlannedDispatch : Type 0 where
  pub row : Row
  pub selected : ProbedServer
  pub alternatives : List ProbedServer

-- The servers that the job could use, with their identities.
unfoldable pub open_servers : CapacitySnapshot → Job → Result (List (Server × Server))
unfolding eligible_prepared_servers identified
open_servers probes job = do
  entries ← identified (eligible_prepared_servers job)
  ok (filter (λ entry. not (contains probes.drained_servers (machine_of entry.1))) entries)

-- Their machines, by the names of the servers.
unfoldable pub open_machines : CapacitySnapshot → Job → Result (Dict String String)
unfolding open_servers
open_machines probes job = do entries ← open_servers probes job; ok (as_dict [] entries)
  where
    as_dict : Dict String String → List (Server × Server) → Dict String String
    as_dict d [] = d
    as_dict d (entry ∷ entries) = as_dict (put d entry.0.name (machine_of entry.1)) entries

-- A lane is never empty: the loop drops the ones that run out.
pub record Lane : Type 0 where
  pub head : Row
  pub later : List Row

abbrev pub rows_of : Lane → List Row
rows_of lane = lane.head ∷ lane.later

abbrev pub safe_names : (protected : List String) → Dict String String → List String
safe_names protected machines =
    map (λ entry. entry.0) (filter (λ entry. not (contains protected entry.1)) machines)

-- The search of a lane behind its head, with the rows that are left once one is taken. A row that
-- gets no machine protects every machine that it could use.
unfoldable pub backfill :
    CapacitySnapshot
    → (reserved protected : List String) → List Row
    → Result (Option (PlannedDispatch × List Row))
unfolding open_machines select_from_snapshot
backfill probes reserved protected [] = ok none
backfill probes reserved protected (row ∷ rows) = do
  machines ← open_machines probes row.0
  (candidates, _) ←
      (if is_empty (safe_names protected machines)
        then ok ([], none)
        else select_from_snapshot row.0 probes reserved (some (safe_names protected machines)))
  elim candidates [
    | c ∷ cs ↦ ok (some (record { row = row; selected = c; alternatives = cs }, rows))
    | [] ↦ do
      found ← backfill probes reserved (protected ++ map (λ entry. entry.1) machines) rows
      ok (Option.map (λ choice. (choice.0, row ∷ choice.1)) found)
  ]

unfoldable pub plan_backfill_from_lane :
    CapacitySnapshot → (reserved : List String) → Lane → Result (Option (PlannedDispatch × Lane))
unfolding open_servers backfill
plan_backfill_from_lane probes reserved lane = do
  protected ← open_servers probes lane.head.0
  found ← backfill probes reserved (map (λ entry. machine_of entry.1) protected) lane.later
  ok (Option.map (λ choice. (choice.0, record { head = lane.head; later = choice.1 })) found)

-- `blocked`: the lane's class, the head's run, and why it waits.
pub record Blocked : Type 0 where
  pub workload_class : WorkloadClass
  pub run_id : String
  pub message : Option Message

-- A choice, with the lanes that are left.
abbrev pub Choice : Type 0
Choice = PlannedDispatch × List Lane

abbrev pub lane_of : List Row → List Lane
lane_of [] = []
lane_of (row ∷ rows) = record { head = row; later = rows } ∷ []

-- The lanes without the head of the first.
abbrev pub without_head : Lane → List Lane → List Lane
without_head lane lanes = lane_of lane.later ++ lanes

abbrev pub beyond : Lane → Choice → Choice
beyond lane choice = (choice.0, lane ∷ choice.1)

-- The answer to a lane's head, with what the loop finds in the other lanes.
abbrev pub head_answer :
    Lane
    → List Lane
    → Result (Option Choice × List Blocked)
    → List ProbedServer
    → Option Message
    → Result (Option Choice × List Blocked)
head_answer lane lanes rest (c ∷ cs) message = ok (
  some (record { row = lane.head; selected = c; alternatives = cs }, without_head lane lanes),
  [],
)
head_answer lane lanes rest [] message = do
  (choice, blocked) ← rest
  ok (
    Option.map (beyond lane) choice,
    record {
      workload_class = lane.head.0.workload_class;
      run_id = lane.head.0.run_id;
      message = message;
    }
        ∷ blocked,
  )

-- The first loop: the head of each lane.
unfoldable pub choose_head :
    CapacitySnapshot → (reserved : List String) → List Lane → Result (Option Choice × List Blocked)
unfolding select_from_snapshot
choose_head probes reserved [] = ok (none, [])
choose_head probes reserved (lane ∷ lanes) =
    let rest = choose_head probes reserved lanes in
    do
      (candidates, message) ← select_from_snapshot lane.head.0 probes reserved none
      head_answer lane lanes rest candidates message

-- The second loop: a later row of each lane.
unfoldable pub choose_backfill :
    CapacitySnapshot → (reserved : List String) → List Lane → Result (Option Choice)
unfolding plan_backfill_from_lane
choose_backfill probes reserved [] = ok none
choose_backfill probes reserved (lane ∷ lanes) =
    let rest = choose_backfill probes reserved lanes in
    do
      found ← plan_backfill_from_lane probes reserved lane
      elim found [
        | some (choice, left) ↦ ok (some (choice, left ∷ lanes))
        | none ↦ (do others ← rest; ok (Option.map (beyond lane) others))
      ]

unfoldable pub choose :
    CapacitySnapshot → (reserved : List String) → List Lane → Result (Option Choice × List Blocked)
unfolding choose_head choose_backfill
choose probes reserved lanes = do
  (choice, blocked) ← choose_head probes reserved lanes
  elim choice [
    | some chosen ↦ ok (some chosen, blocked)
    | none ↦ (do backfilled ← choose_backfill probes reserved lanes; ok (backfilled, blocked))
  ]

-- DispatchOutcome
pub data Outcome : Type 0 where
  idle : Outcome
  waiting : List Blocked → Outcome

abbrev pub server_machine : Server → Result String
server_machine server = elim server.machine_id [
  | none ↦ err (key_error "machine_id")
  | some machine_id ↦ ok machine_id
]

abbrev pub Batch : Type 0
Batch = List PlannedDispatch × Outcome

-- A turn of the loop, with the turns after it.
abbrev pub turn :
    (rest : List String → List Lane → Result (Option Batch)) (reserved : List String)
    → Option Choice
    → List Blocked
    → Result (Option Batch)
turn rest reserved none blocked = ok (some ([], waiting blocked))
turn rest reserved (some (planned, left)) blocked = do
  machine ← server_machine planned.selected.server
  batch ← rest (machine ∷ reserved) left
  ok (Option.map (λ later. (planned ∷ later.0, later.1)) batch)

-- The loop; `none` if the fuel runs out.
unfoldable pub plan_lanes :
    ℕ → CapacitySnapshot → (reserved : List String) → List Lane → Result (Option Batch)
unfolding choose
plan_lanes fuel probes reserved [] = ok (some ([], idle))
plan_lanes zero probes reserved (lane ∷ lanes) = ok none
plan_lanes (suc fuel) probes reserved (lane ∷ lanes) = do
  (choice, blocked) ← choose probes reserved (lane ∷ lanes)
  turn (plan_lanes fuel probes) reserved choice blocked

-- One lane for each class that has queued work, standard first.
abbrev pub lanes_of : List Row → List Lane
lanes_of waiting_rows =
    lane_of (filter (λ row. row.0.workload_class == standard) waiting_rows)
    ++ lane_of (filter (λ row. row.0.workload_class == test) waiting_rows)

unfoldable pub plan_dispatch_batch : List Row → CapacitySnapshot → Result (Option Batch)
unfolding plan_lanes
plan_dispatch_batch waiting_rows probes =
    plan_lanes (length waiting_rows) probes [] (lanes_of waiting_rows)
