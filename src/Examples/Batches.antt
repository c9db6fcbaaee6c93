-- ===== src/Examples/Batches.antt =====
-- A batch of two jobs on two machines, and rankings.
use codex_remote_runner.Sort.{IsOrdered}
use codex_remote_runner.Scheduling.Ranking.{
  IsRankedFirst, rank_candidates-order, available_cores_bounds, select_candidate_best,
}
use codex_remote_runner.Text.{is_machine_id}
use codex_remote_runner.Prelude.{
  All, distinct, string_eq, nat_eq, ok, String, ◌≡◌, refl, ◌≢◌, true, false, none, some, List, [],
  ◌∷◌, map, arith,
}
use codex_remote_runner.Prelude.Int.{pos, ◌≤ℤ◌}
use codex_remote_runner.Scheduling.{
  CapacityCandidate, hundredths, available_cores, ranks_before, rank_candidates, select_candidate,
}
use codex_remote_runner.Dispatch.Capacity.{ProbedServer}
use codex_remote_runner.Dispatch.Select.{
  CapacitySnapshot, server_snapshot_key, with_probe, select_from_snapshot,
}
use codex_remote_runner.Dispatch.Select.Laws.{Selected, select_from_snapshot-All}
use codex_remote_runner.Dispatch.Plan.{idle, Batch, plan_dispatch_batch}
use codex_remote_runner.Dispatch.Plan.Batches.{
  IsPlan, plan_dispatch_batch-terminates, plan_dispatch_batch-IsPlan,
}
use codex_remote_runner.Dispatch.Plan.Machines.{plan_dispatch_batch-distinct}
use codex_remote_runner.Queue.Store.{Row}
use codex_remote_runner.Examples.Data.{server_a, server_b, job_1, job_2, state_1, state_2}
use mathlib.Core.List.{Perm}

abbrev candidate_a : CapacityCandidate
candidate_a = record {
  name = "alpha";
  configured_cores = pos 8;
  load5 = pos 0;
  priority = pos 1;
  active_run_count = pos 0;
  allocated_cores = pos 0;
  allocation_unknown = false;
}

abbrev candidate_b : CapacityCandidate
candidate_b = record candidate_a { name = "beta"; load5 = pos 300 }

abbrev probed_a : ProbedServer
probed_a = record {
  server = server_a;
  capacity = candidate_a;
  active_standard_count = 0;
  active_test_count = 0;
  active_run_ids = [];
  active_assigned_cores = 0;
  allocation_unknown = false;
}

abbrev probed_b : ProbedServer
probed_b = record probed_a { server = server_b; capacity = candidate_b }

abbrev both : CapacitySnapshot
both = record {
  reachable =
      (server_snapshot_key server_a, probed_a) ∷ (server_snapshot_key server_b, probed_b) ∷ [];
  failures = [];
  drained_servers = [];
}

abbrev rows_2 : List Row
rows_2 = (job_1, state_1) ∷ (job_2, state_2) ∷ []

-- Each job gets the better machine of those that are left.
abbrev batch_2 : Batch
batch_2 = (
  record {
    row = (job_1, state_1);
    selected = with_probe server_a probed_a;
    alternatives = with_probe server_b probed_b ∷ [];
  }
      ∷ record {
        row = (job_2, state_2);
        selected = with_probe server_b probed_b;
        alternatives = [];
      }
      ∷ [],
  idle,
)

plan_dispatch_batch-IsPlan_example : IsPlan both [] rows_2 batch_2
unfolding plan_dispatch_batch is_machine_id ranks_before available_cores
plan_dispatch_batch-IsPlan_example = plan_dispatch_batch-IsPlan rows_2 both batch_2 refl

plan_dispatch_batch-distinct_example :
    (machines : List String) × (map (λ planned. planned.selected.server.machine_id) batch_2.0
      ≡ map some machines)
    × (distinct machines ≡ true)
unfolding plan_dispatch_batch is_machine_id ranks_before available_cores
plan_dispatch_batch-distinct_example = plan_dispatch_batch-distinct rows_2 both batch_2 refl

plan_dispatch_batch-terminates_example : plan_dispatch_batch rows_2 both ≢ ok none
plan_dispatch_batch-terminates_example = plan_dispatch_batch-terminates rows_2 both

select_from_snapshot-All_example :
    All
      (Selected job_1 both [] none)
      (with_probe server_a probed_a ∷ with_probe server_b probed_b ∷ [])
unfolding select_from_snapshot is_machine_id ranks_before available_cores
select_from_snapshot-All_example =
    select_from_snapshot-All job_1 both [] none
      (with_probe server_a probed_a ∷ with_probe server_b probed_b ∷ []) none refl

rank_candidates-order_example :
    Perm (candidate_a ∷ candidate_b ∷ []) (candidate_b ∷ candidate_a ∷ [])
    × IsOrdered IsRankedFirst (candidate_a ∷ candidate_b ∷ [])
unfolding rank_candidates ranks_before available_cores
rank_candidates-order_example =
    rank_candidates-order (candidate_b ∷ candidate_a ∷ []) (candidate_a ∷ candidate_b ∷ []) refl

select_candidate_best_example :
    (rest : List CapacityCandidate) × Perm (candidate_a ∷ rest) (candidate_b ∷ candidate_a ∷ [])
    × All (IsRankedFirst candidate_a) rest
unfolding select_candidate ranks_before available_cores
select_candidate_best_example =
    select_candidate_best (candidate_b ∷ candidate_a ∷ []) candidate_a refl

available_cores_bounds_example :
    (pos 0 ≤ℤ available_cores candidate_b)
    × (available_cores candidate_b ≤ℤ hundredths candidate_b.configured_cores)
available_cores_bounds_example =
    available_cores_bounds candidate_b (omega arith, omega arith, omega arith, omega arith)
