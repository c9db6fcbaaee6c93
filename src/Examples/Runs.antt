-- ===== src/Examples/Runs.antt =====
-- A run that is registered and then ends, and what is reported of it.
use codex_remote_runner.Execution.Outputs.{IsEnqueued, IsSynced, Updates-IsSynced}
use codex_remote_runner.Text.{is_run_id}
use codex_remote_runner.Prelude.{
  Bool-cases, string_eq, ◌==◌, nat_eq, ok, get, is_none, ◌≤◌, String, ◌≡◌, refl, sym, subst, inl,
  inr, true, false, none, some, [], ◌∷◌, ◌++◌,
}
use codex_remote_runner.Execution.{
  registered, succeeded, status_eq, is_terminal, Manifest, ExecutionState, Changes, Output, Outbox,
  Registry, update_current_state,
}
use codex_remote_runner.Execution.Traces.{Updates, done, step, some_pair, Updates-terminal}

abbrev run_1 : String
run_1 = "rr-0000000000000001"

abbrev manifest_1 : Manifest
manifest_1 = record {
  run_id = run_1;
  task_id = "t";
  label = "l";
  server = "alpha";
  output_path = some "/data/out";
  output_metadata = "{}";
  source_revision = none;
  expected_revision = none;
}

abbrev empty_outbox : Outbox
empty_outbox = record { pending = []; completed = [] }

abbrev intent_1 : Output
intent_1 = record {
  run_id = run_1;
  source_server = "alpha";
  source_path = "/data/out";
  revision = "unknown";
  task_id = "t";
  label = "l";
  output_metadata = "{}";
  authoritative_status = succeeded;
  terminal_at = "2";
  state_revision = 1;
}

abbrev begun : ExecutionState
begun = record {
  state_schema_version = 2;
  run_id = run_1;
  revision = 0;
  status = registered;
  created_at = "1";
  updated_at = "1";
  started_at = none;
  finished_at = none;
  error = none;
  exit_code = none;
}

abbrev ended : ExecutionState
ended = record begun { revision = 1; status = succeeded; updated_at = "2"; finished_at = some "2" }

abbrev success : Changes
success = record {
  protected = false;
  status = some succeeded;
  started_at = none;
  finished_at = some (some "2");
  error = none;
  exit_code = none;
}

abbrev before_end : Registry
before_end = record { runs = (run_1, (manifest_1, begun)) ∷ []; outbox = empty_outbox; events = [] }

abbrev after_end : Registry
after_end = record {
  runs = (run_1, (manifest_1, ended)) ∷ [];
  outbox = record { pending = (run_1, intent_1) ∷ []; completed = [] };
  events =
      record {
        action = "finish";
        run_id = run_1;
        before_revision = 0;
        after_revision = 1;
        status = succeeded;
      }
      ∷ [];
}

-- A second update says nothing new.
abbrev nothing_new : Changes
nothing_new = record success { status = none; finished_at = none }

abbrev ended_again : ExecutionState
ended_again = record ended { revision = 2; updated_at = "3" }

abbrev after_again : Registry
after_again = record {
  runs = (run_1, (manifest_1, ended_again)) ∷ [];
  outbox = after_end.outbox;
  events =
      after_end.events
      ++ record {
        action = "touch";
        run_id = run_1;
        before_revision = 1;
        after_revision = 2;
        status = succeeded;
      }
        ∷ [];
}

ends : update_current_state true before_end run_1 0 success "finish" "2" ≡ ok after_end
unfolding update_current_state is_run_id
ends = refl

touches : update_current_state true after_end run_1 1 nothing_new "touch" "3" ≡ ok after_again
unfolding update_current_state is_run_id
touches = refl

touched : Updates true after_end after_again
touched = step run_1 1 nothing_new "touch" "3" touches done

finished : Updates true before_end after_again
finished = step run_1 0 success "finish" "2" ends touched

before_end-open :
    (id : String) (manifest : Manifest) (state : ExecutionState)
    → get before_end.runs id ≡ some (manifest, state)
    → is_terminal state.status ≡ true
    → is_none manifest.output_path ≡ false
    → IsEnqueued empty_outbox manifest.run_id state.status
before_end-open id manifest state stored over declared = elim (Bool-cases (run_1 == id)) [
  | inl same ↦
      let (_, begins) = some_pair (rw same at stored) in
      cc (subst (λ (x : ExecutionState). is_terminal x.status ≡ true) (sym begins) over)
  | inr apart ↦ cc (rw apart at stored)
]

Updates-IsSynced_example : IsSynced after_again
Updates-IsSynced_example =
    Updates-IsSynced before_end after_again finished (record { enqueued_at_end = before_end-open })

Updates-terminal_example :
    (after : ExecutionState) × (get after_again.runs run_1 ≡ some (manifest_1, after))
    × (after.status ≡ ended.status)
    × (ended.revision ≤ after.revision)
Updates-terminal_example =
    Updates-terminal true after_end after_again run_1 manifest_1 ended touched refl refl
