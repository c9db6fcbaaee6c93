-- ===== src/Scheduling.antt =====
-- src/remote_runner/_internal/scheduling.py: the values of a request, and the ranking of servers.
-- A load average is a number of hundredths, so that 1.25 is 125; an amount of cores is scaled with it.
pub mod Ranking
pub mod Requests
use codex_remote_runner.Prelude.{
  if◌then◌else◌, all, ◌==◌, nat_eq, string_eq, value_error, Result, ok, err, ◌>>=◌, ◌>>◌, raise_if,
  ℕ, suc, ◌+◌, ◌*◌, String, Bool, true, false, not, ◌&&◌, ◌||◌, Option, none, some, List, [], ◌∷◌,
}
use codex_remote_runner.Prelude.Int.{ℤ, pos, negsuc, ◌-ℤ◌, ltb_ℤ, leb_ℤ, eqb_ℤ, max_ℤ}
use codex_remote_runner.Values.{Value, null, integer, text}
use codex_remote_runner.Text.{str_le}
use codex_remote_runner.Sort.{sort_by}

pub data QueuePriority : Type 0 where
  normal urgent : QueuePriority

pub data WorkloadClass : Type 0 where
  standard test : WorkloadClass

unfoldable pub normalize_minimum_cores : Value → Result ℕ
normalize_minimum_cores (integer (pos (suc n))) = ok (suc n)
normalize_minimum_cores _ = err (value_error "minimum cores must be a positive integer")

unfoldable pub normalize_requested_cores : Value → Result (Option ℕ)
normalize_requested_cores null = ok none
normalize_requested_cores (integer (pos (suc n))) = ok (some (suc n))
normalize_requested_cores _ =
    err (value_error "requested cores must be a positive integer or omitted")

unfoldable pub normalize_queue_priority : Value → Result QueuePriority
normalize_queue_priority (text s) =
    if s == "normal"
    then ok normal
    else if s == "urgent"
    then ok urgent
    else err (value_error "queue priority must be one of: normal, urgent")
normalize_queue_priority _ = err (value_error "queue priority must be one of: normal, urgent")

abbrev pub priority_rank : QueuePriority → ℕ
priority_rank normal = 0
priority_rank urgent = 1

unfoldable pub queue_priority_rank : Value → Result ℕ
unfolding normalize_queue_priority
queue_priority_rank value = do
  priority ← normalize_queue_priority value
  ok (priority_rank priority)

unfoldable pub normalize_workload_class : Value → Result WorkloadClass
normalize_workload_class (text s) =
    if s == "standard"
    then ok standard
    else if s == "test"
    then ok test
    else err (value_error "workload class must be one of: standard, test")
normalize_workload_class _ = err (value_error "workload class must be one of: standard, test")

pub record CapacityCandidate : Type 0 where
  pub name : String
  pub configured_cores : ℤ
  pub load5 : ℤ
  pub priority : ℤ
  pub active_run_count : ℤ
  pub allocated_cores : ℤ
  pub allocation_unknown : Bool

-- An amount of cores in the unit of `load5`.
abbrev pub hundredths : ℤ → ℤ
hundredths (pos n) = pos (100 * n)
hundredths (negsuc n) = negsuc (100 * n + 99)

unfoldable pub available_cores : CapacityCandidate → ℤ
unfolding ◌-ℤ◌
available_cores c =
    if c.allocation_unknown
      || (not (eqb_ℤ c.active_run_count (pos 0)) && eqb_ℤ c.allocated_cores (pos 0))
    then pos 0
    else max_ℤ (hundredths c.configured_cores -ℤ max_ℤ (hundredths c.allocated_cores) c.load5)
        (pos 0)

-- The checks that `rank_candidates` makes of each candidate.
unfoldable pub check_candidate : CapacityCandidate → Result (Unit {0})
check_candidate c = do
  raise_if (leb_ℤ c.configured_cores (pos 0)) (value_error "configured cores must be positive")
  raise_if (ltb_ℤ c.load5 (pos 0)) (value_error "load5 must be non-negative")
  raise_if (ltb_ℤ c.active_run_count (pos 0)) (value_error "active run count must be non-negative")
  raise_if (ltb_ℤ c.allocated_cores (pos 0)) (value_error "allocated cores must be non-negative")

unfoldable pub check_candidates : List CapacityCandidate → Result (Unit {0})
unfolding check_candidate
check_candidates [] = ok tt
check_candidates (c ∷ cs) = check_candidate c >> check_candidates cs

-- The larger number first, and `rest` on equal ones.
abbrev pub descending : ℤ → ℤ → Bool → Bool
descending a b rest = if ltb_ℤ b a then true else if ltb_ℤ a b then false else rest

-- The order of the sort's key.
unfoldable pub ranks_before : CapacityCandidate → CapacityCandidate → Bool
ranks_before a b = descending (available_cores a) (available_cores b) (
    descending a.configured_cores b.configured_cores
      (descending a.priority b.priority (str_le a.name b.name)))

unfoldable pub rank_candidates : List CapacityCandidate → Result (List CapacityCandidate)
unfolding check_candidates
rank_candidates [] = err (value_error "at least one capacity candidate is required")
rank_candidates (c ∷ cs) = do check_candidates (c ∷ cs); ok (sort_by ranks_before (c ∷ cs))

-- `ranked[0]`
first : List CapacityCandidate → Result CapacityCandidate
first [] = err (value_error "list index out of range")
first (c ∷ cs) = ok c

unfoldable pub select_candidate : List CapacityCandidate → Result CapacityCandidate
unfolding rank_candidates first
select_candidate cs = do ranked ← rank_candidates cs; first ranked

unfoldable pub should_queue : List CapacityCandidate → Bool → Result Bool
unfolding available_cores
should_queue [] active_runner_work = err (value_error "at least one capacity candidate is required")
should_queue (c ∷ cs) active_runner_work =
    ok (active_runner_work && all (λ candidate. leb_ℤ (available_cores candidate) (pos 0)) (c ∷ cs))
