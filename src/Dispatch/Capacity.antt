-- ===== src/Dispatch/Capacity.antt =====
-- dispatcher.py: whether a probed machine has room for a job, and in which order the machines that
-- have room are tried. A message is kept as its parts, without the words around them.
pub mod Laws
use codex_remote_runner.Prelude.{
  ltb, if◌then◌else◌, is_empty, all, any, ◌==◌, nat_eq, string_eq, value_error, key_error, Result,
  ok, err, ◌>>=◌, ◌>>◌, raise_if, get_or, ℕ, max, String, Bool, true, false, not, ◌&&◌, ◌||◌,
  Option, none, some, List, [], ◌∷◌, map,
}
use codex_remote_runner.Prelude.Int.{ℤ, pos, ◌+ℤ◌, ltb_ℤ, leb_ℤ, max_ℤ}
use codex_remote_runner.Scheduling.{
  WorkloadClass, standard, test, CapacityCandidate, rank_candidates,
}
use codex_remote_runner.Machines.Identity.{Server}
use codex_remote_runner.Queue.Job.{Job, workload_eq, priority_eq}

-- A machine's state as the probe saw it.
pub record ProbedServer : Type 0 where
  pub server : Server
  pub capacity : CapacityCandidate
  pub active_standard_count : ℕ
  pub active_test_count : ℕ
  pub active_run_ids : List String
  pub active_assigned_cores : ℕ
  pub allocation_unknown : Bool

-- Why no machine was selected.
pub data Message : Type 0 where
  standard_slots_full test_slots_full : (used total : ℕ) → Message
  cores_full : (used : ℕ) (requested total : ℤ) → Message
  allocation_unavailable all_drained no_server : Message
  unreachable : List (String × String) → Message

abbrev allocation : Option ℕ → ℤ → Result ℤ
allocation none configured = ok configured
allocation (some requested) configured = do
  raise_if (requested == 0) (value_error "queued requested_cores must be positive or null")
  ok (pos requested)

-- A job that asks for no number of cores takes them all.
unfoldable pub requested_allocation : Job → ProbedServer → Result ℤ
requested_allocation job candidate =
    allocation job.requested_cores candidate.capacity.configured_cores

abbrev pub standard_slots : ProbedServer → ℕ
standard_slots candidate = get_or candidate.server.standard_slots 1

abbrev pub test_slots : ProbedServer → ℕ
test_slots candidate = get_or candidate.server.test_slots 0

abbrev pub lane_available : WorkloadClass → ProbedServer → Bool
lane_available standard candidate = ltb candidate.active_standard_count (standard_slots candidate)
lane_available test candidate = ltb candidate.active_test_count (test_slots candidate)

unfoldable pub has_workload_capacity : Job → ProbedServer → Result Bool
unfolding requested_allocation ◌+ℤ◌
has_workload_capacity job candidate =
    if not (lane_available job.workload_class candidate) || candidate.allocation_unknown
    then ok false
    else do
      requested ← requested_allocation job candidate
      ok (
          leb_ℤ (pos candidate.active_assigned_cores +ℤ requested)
            candidate.capacity.configured_cores)

-- The candidates whose cores the job would overrun, all of them.
unfoldable pub all_overrun : Job → List ProbedServer → Result Bool
unfolding requested_allocation ◌+ℤ◌
all_overrun job [] = ok true
all_overrun job (candidate ∷ candidates) =
    let rest = all_overrun job candidates in
    do
      requested ← requested_allocation job candidate
      if ltb_ℤ candidate.capacity.configured_cores
            (pos candidate.active_assigned_cores +ℤ requested)
          then rest
          else ok false

unfoldable pub requests : Job → List ProbedServer → Result (List ℤ)
unfolding requested_allocation
requests job [] = ok []
requests job (candidate ∷ candidates) = do
  requested ← requested_allocation job candidate
  rest ← requests job candidates
  ok (requested ∷ rest)

-- max(...), with default 0
abbrev pub largest : List ℕ → ℕ
largest [] = 0
largest (n ∷ ns) = max n (largest ns)

abbrev pub largest_ℤ : List ℤ → ℤ
largest_ℤ [] = pos 0
largest_ℤ (n ∷ []) = n
largest_ℤ (n ∷ m ∷ ns) = max_ℤ n (largest_ℤ (m ∷ ns))

abbrev pub least_ℤ : List ℤ → ℤ
least_ℤ [] = pos 0
least_ℤ (n ∷ []) = n
least_ℤ (n ∷ m ∷ ns) = if ltb_ℤ (least_ℤ (m ∷ ns)) n then least_ℤ (m ∷ ns) else n

-- The slots that are used of a class, and those that there are.
abbrev pub slots_message : WorkloadClass → List ProbedServer → Message
slots_message standard candidates =
    standard_slots_full (largest (map (λ c. c.active_standard_count) candidates))
      (largest (map standard_slots candidates))
slots_message test candidates =
    test_slots_full (largest (map (λ c. c.active_test_count) candidates))
      (largest (map test_slots candidates))

unfoldable pub capacity_message : Job → List ProbedServer → Result Message
unfolding all_overrun requests
capacity_message job candidates =
    if not (is_empty candidates) && all (λ c. not (lane_available job.workload_class c)) candidates
    then ok (slots_message job.workload_class candidates)
    else if any (λ c. c.allocation_unknown) candidates
    then ok allocation_unavailable
    else if is_empty candidates
    then ok (slots_message job.workload_class candidates)
    else do
      overrun ← all_overrun job candidates
      requested ← requests job candidates
      ok (
          if overrun
          then cores_full (largest (map (λ c. c.active_assigned_cores) candidates))
              (least_ℤ requested) (largest_ℤ (map (λ c. c.capacity.configured_cores) candidates))
          else slots_message job.workload_class candidates)

unfoldable pub with_capacity : Job → List ProbedServer → Result (List ProbedServer)
unfolding has_workload_capacity
with_capacity job [] = ok []
with_capacity job (candidate ∷ candidates) = do
  fits ← has_workload_capacity job candidate
  rest ← with_capacity job candidates
  ok (if fits then candidate ∷ rest else rest)

-- `by_name[name]`: of two candidates with one name the later.
abbrev pub by_name : List ProbedServer → String → Option ProbedServer
by_name [] name = none
by_name (candidate ∷ candidates) name = elim (by_name candidates name) [
  | some later ↦ some later
  | none ↦ if candidate.capacity.name == name then some candidate else none
]

unfoldable pub in_rank_order :
    List ProbedServer → List CapacityCandidate → Result (List ProbedServer)
in_rank_order eligible [] = ok []
in_rank_order eligible (item ∷ items) =
    let rest = in_rank_order eligible items in
    elim (by_name eligible item.name) [
      | none ↦ err (key_error "name")
      | some candidate ↦ (do others ← rest; ok (candidate ∷ others))
    ]

abbrev pub ranked : List ProbedServer → Result (List ProbedServer)
ranked [] = ok []
ranked (c ∷ cs) = do
  items ← rank_candidates (map (λ item. item.capacity) (c ∷ cs))
  in_rank_order (c ∷ cs) items

unfoldable pub rank_for_workload : Job → List ProbedServer → Result (List ProbedServer)
unfolding with_capacity rank_candidates in_rank_order
rank_for_workload job candidates = do eligible ← with_capacity job candidates; ranked eligible
