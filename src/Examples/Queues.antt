-- ===== src/Examples/Queues.antt =====
-- Jobs in the queue: transitions, reservations, updates, orders and servers.
use codex_remote_runner.Queue.Update.{Request, plan_update}
use codex_remote_runner.Queue.Update.Laws.{
  MayEdit, plan_update-MayEdit, IsChoice, edit_eligible-some,
}
use codex_remote_runner.Queue.Order.{IsServedFirst, list_queued-order}
use codex_remote_runner.Queue.Extend.Laws.{
  new_servers, merge_servers-eq-append, merge_servers-distinct,
}
use codex_remote_runner.Queue.Update.Moves.Positions.{
  Ascends, written_jobs, run_ids, tail_jobs, move_first-Ascends, apply_move-up,
}
use codex_remote_runner.Queue.Transition.Laws.{
  Advances, transition_queued_state-Advances, transition_queued_state-excludes,
}
use codex_remote_runner.Machines.Identity.{normalize_server_identity}
use codex_remote_runner.Text.{is_project_id, is_machine_id, is_run_id, is_sha256}
use codex_remote_runner.Queue.Reserve.Laws.{
  IsReserved, reserve_queued_job_update-IsReserved, reserve_queued_job_update-excludes,
}
use codex_remote_runner.Sort.{IsOrdered}
use codex_remote_runner.Queue.Update.Edits.{Edit, edit_eligible}
use codex_remote_runner.Queue.Transition.{is_allowed, write_state, transition_queued_state}
use codex_remote_runner.Queue.Update.Moves.{base_position, move_first, apply_move}
use codex_remote_runner.Queue.Extend.{merge_servers}
use codex_remote_runner.Queue.Reserve.{reserve_queued_job_update}
use codex_remote_runner.Prelude.{
  All, contains, distinct, string_eq, ◌==◌, nat_eq, ne_of_beq, ok, get, ◌+◌, ◌*◌, ◌≤◌, ◌<◌, String,
  ◌≡◌, refl, ◌≢◌, ◌⊎◌, true, false, none, some, List, [], ◌∷◌, ◌++◌, arith,
}
use codex_remote_runner.Queue.Job.{Job, server_names, workload_eq, priority_eq}
use codex_remote_runner.Queue.State.{queued, dispatching, stopped, status_eq, QueueState}
use codex_remote_runner.Queue.Store.{Queue, load_job, load_rows, list_queued}
use codex_remote_runner.Examples.Data.{
  sha, server_a, server_b, job_1, job_2, state_1, state_2, queue_2,
}
use mathlib.Core.List.{Perm}

abbrev run_1 : String
run_1 = "rr-0000000000000001"

-- The first run is dispatched.
abbrev state_1' : QueueState
state_1' = record state_1 { revision = 1; status = dispatching; updated_at = "2026-01-02" }

abbrev queue_2' : Queue
queue_2' =
    ("rr-0000000000000001", (job_1, state_1')) ∷ ("rr-0000000000000002", (job_2, state_2)) ∷ []

transition_queued_state-Advances_example :
    (job : Job) × (state : QueueState) × (get queue_2 run_1 ≡ some (job, state))
    × (get queue_2' run_1 ≡ some (job, state_1'))
    × (is_allowed state.status dispatching ≡ true)
    × Advances 0 dispatching state state_1'
    × ((other : String) → run_1 ≢ other → get queue_2' other ≡ get queue_2 other)
unfolding transition_queued_state load_job is_run_id is_project_id normalize_server_identity
    is_machine_id write_state
transition_queued_state-Advances_example =
    transition_queued_state-Advances sha queue_2 queue_2' run_1 0 dispatching none "2026-01-02"
      state_1' refl

transition_queued_state-excludes_example :
    transition_queued_state sha queue_2' run_1 0 stopped none "2026-01-03" ≢ ok (queue_2', state_1')
unfolding transition_queued_state load_job is_run_id is_project_id normalize_server_identity
    is_machine_id write_state
transition_queued_state-excludes_example =
    transition_queued_state-excludes sha queue_2 queue_2' run_1 0 dispatching stopped none none
      "2026-01-02" "2026-01-03" state_1' refl (queue_2', state_1')

abbrev token_text : String
token_text = "token"

abbrev reserved_1 : QueueState
reserved_1 = record state_1 {
  revision = 1;
  updated_at = "2026-01-02";
  placement_update = some (record {
    token_sha256 = sha "token";
    expires_at = 60000005;
    requested_servers = "alpha" ∷ [];
  });
}

abbrev reserved_queue : Queue
reserved_queue =
    ("rr-0000000000000001", (job_1, reserved_1)) ∷ ("rr-0000000000000002", (job_2, state_2)) ∷ []

reserve_queued_job_update-IsReserved_example :
    (token_text ≡ token_text)
    × (1 ≤ 60)
    × (60 ≤ 3600)
    × IsReserved (sha token_text) (5 + 60 * 1000000) reserved_1
    × (reserved_1.status ≡ queued)
    × (reserved_1.revision ≡ 0 + 1)
    × ((job : Job) × (get reserved_queue run_1 ≡ some (job, reserved_1)))
    × ((other : String) → run_1 ≢ other → get reserved_queue other ≡ get queue_2 other)
unfolding reserve_queued_job_update is_run_id is_project_id load_job normalize_server_identity
    is_machine_id is_sha256 write_state
reserve_queued_job_update-IsReserved_example =
    reserve_queued_job_update-IsReserved sha queue_2 reserved_queue run_1 0 ("alpha" ∷ []) 60 5
      "2026-01-02" token_text token_text reserved_1 refl

reserve_queued_job_update-excludes_example :
    reserve_queued_job_update sha reserved_queue run_1 1 ("beta" ∷ []) 60 6 "2026-01-03" "other"
    ≢ ok (reserved_queue, "other", reserved_1)
unfolding reserve_queued_job_update is_run_id is_project_id load_job normalize_server_identity
    is_machine_id is_sha256 write_state
reserve_queued_job_update-excludes_example =
    reserve_queued_job_update-excludes sha queue_2 reserved_queue run_1 0 1 ("alpha" ∷ [])
      ("beta" ∷ []) 60 60 5 6 "2026-01-02" "2026-01-03" "token" "other" "token" reserved_1 refl
      (omega arith) (reserved_queue, "other", reserved_1)

list_queued-order_example :
    IsOrdered IsServedFirst (list_queued sha queue_2)
    × All (λ row. row.1.status ≡ queued) (list_queued sha queue_2)
    × Perm (list_queued sha queue_2) (load_rows sha (λ s. s == queued) queue_2 queue_2)
list_queued-order_example = list_queued-order sha queue_2

merge_servers-eq-append_example :
    merge_servers (server_a ∷ []) (server_b ∷ server_a ∷ [])
    ≡ (server_a ∷ []) ++ new_servers ("alpha" ∷ []) (server_b ∷ server_a ∷ [])
merge_servers-eq-append_example = merge_servers-eq-append (server_a ∷ []) (server_b ∷ server_a ∷ [])

merge_servers-distinct_example :
    distinct (server_names (merge_servers (server_a ∷ []) (server_b ∷ server_a ∷ []))) ≡ true
merge_servers-distinct_example =
    merge_servers-distinct (server_a ∷ []) (server_b ∷ server_a ∷ []) refl

abbrev edit_2 : Edit
edit_2 = record { job = job_2; changed = false; ordering_changed = false; to_write = [] }

move_first-Ascends_example :
    let moved = move_first (job_1 ∷ []) job_2 [] edit_2 in
    Ascends (written_jobs moved.to_write)
    × (run_ids (written_jobs moved.to_write) ≡ run_ids (job_2 ∷ (job_1 ∷ []) ++ []))
    × (moved.job.queue_position ≡ base_position ((job_1 ∷ []) ++ job_2 ∷ []))
    × All
        (λ later. moved.job.queue_position < later.queue_position)
        (tail_jobs (written_jobs moved.to_write))
    × (moved.ordering_changed ≡ true)
move_first-Ascends_example = move_first-Ascends job_1 [] job_2 [] edit_2

abbrev edit_swapped : Edit
edit_swapped = record {
  job = record job_2 { queue_position = 1 };
  changed = true;
  ordering_changed = true;
  to_write = ("rr-0000000000000001", record job_1 { queue_position = 2 }) ∷ [];
}

apply_move-up_example :
    (other : Job) × (get edit_swapped.to_write job_1.run_id ≡ some other)
    × (edit_swapped.job.run_id ≡ job_2.run_id)
    × (edit_swapped.job.queue_position < other.queue_position)
unfolding apply_move
apply_move-up_example =
    apply_move-up [] job_1 job_2 [] edit_2 edit_swapped refl
      (ne_of_beq job_1.run_id job_2.run_id refl) refl refl (omega arith) refl

abbrev only_alpha : Request
only_alpha = record {
  expected_revision = 0;
  queue_priority = none;
  workload_class = none;
  eligible_servers = some ("alpha" ∷ []);
  move = none;
  placement_token = none;
}

abbrev edit_1 : Edit
edit_1 = record { job = job_1; changed = false; ordering_changed = false; to_write = [] }

abbrev edit_alpha : Edit
edit_alpha = record edit_1 {
  job = record job_1 { eligible_servers = "alpha" ∷ []; eligible_servers_locked = true };
  changed = true;
}

abbrev alpha_only : List String
alpha_only = "alpha" ∷ []

edit_eligible-some_example :
    (distinct alpha_only ≡ true)
    × All (λ name. contains (server_names job_1.prepared_servers) name ≡ true) alpha_only
    × ((IsChoice alpha_only job_1 edit_alpha.job.eligible_servers
          × (edit_alpha.job.eligible_servers_locked ≡ true)
          × (edit_alpha.changed ≡ true))
        ⊎ ((edit_alpha ≡ edit_1)
            × IsChoice alpha_only job_1 job_1.eligible_servers
            × (job_1.eligible_servers_locked ≡ true)))
unfolding edit_eligible
edit_eligible-some_example = edit_eligible-some alpha_only job_1 edit_1 edit_alpha refl

plan_update-MayEdit_example :
    MayEdit sha state_1 only_alpha 5
    × ((stored : Job) × (get queue_2 run_1 ≡ some (stored, state_1)))
unfolding plan_update is_run_id load_job is_project_id normalize_server_identity is_machine_id
plan_update-MayEdit_example =
    plan_update-MayEdit sha queue_2 run_1 only_alpha 5 job_1 state_1 edit_alpha refl
