-- ===== src/Queue/Reserve.antt =====
-- registry.py: `reserve_queued_job_update` and `release_queued_job_update`.
-- `token` is the fresh text that `secrets` gives, `sha256` the digest that `hashlib` gives.
pub mod Laws
use codex_remote_runner.Prelude.{
  leb, if◌then◌else◌, is_empty, ◌==◌, nat_eq, string_eq, value_error, runtime_error, Result, ok,
  ◌>>=◌, ◌>>◌, raise_if, is_none, ℕ, ◌+◌, ◌*◌, String, Bool, true, false, not, ◌&&◌, none, some,
  List,
}
use codex_remote_runner.Text.{codes, is_run_id}
use codex_remote_runner.Queue.State.{
  queued, status_eq, QueueState, second, are_requested_servers, validate_state,
  placement_update_active, placement_token_matches,
}
use codex_remote_runner.Queue.Store.{Queue, load_job}
use codex_remote_runner.Queue.Transition.{write_state, edit_state}

-- What a reservation makes of the state that it reads.
unfoldable pub reserved :
    (digest : String) (expected_revision : ℕ) (requested_servers : List String)
    (ttl_seconds now : ℕ) (at : String)
    → QueueState
    → Result QueueState
unfolding placement_update_active
reserved digest expected_revision requested_servers ttl_seconds now at state = do
  raise_if (not (state.status == queued)) (value_error "queued run is not editable")
  raise_if (not (state.revision == expected_revision))
      (runtime_error "queued state revision conflict")
  raise_if (placement_update_active state now)
      (runtime_error "queued run already has a placement update in progress")
  ok (record state {
    revision = expected_revision + 1;
    updated_at = at;
    placement_update = some (record {
      token_sha256 = digest;
      expires_at = now + ttl_seconds * second;
      requested_servers = requested_servers;
    });
  })

unfoldable pub check_reservation : String → List String → ℕ → Result (Unit {0})
unfolding are_requested_servers
check_reservation run_id requested_servers ttl_seconds = do
  raise_if (not (is_run_id run_id)) (value_error "current run_id must match rr-<16 lowercase hex>")
  raise_if (not (are_requested_servers requested_servers))
      (value_error "queue update requested_servers are invalid")
  raise_if (not (leb 1 ttl_seconds && leb ttl_seconds 3600))
      (value_error "queue update ttl_seconds must be between 1 and 3600")

-- The state without its reservation.
unfoldable pub released : (at : String) → QueueState → QueueState
released at state = record state {
  revision = state.revision + 1;
  updated_at = at;
  placement_update = none;
}

module _ (sha256 : String → String) where
  -- The caller gets the token; the state keeps its digest only.
  unfoldable pub reserve_queued_job_update :
      Queue
      → (run_id : String) (expected_revision : ℕ) (requested_servers : List String)
        (ttl_seconds now : ℕ) (at token : String)
      → Result (Queue × String × QueueState)
  unfolding check_reservation reserved edit_state
  reserve_queued_job_update queue run_id expected_revision requested_servers ttl_seconds now at
        token =
      do
        check_reservation run_id requested_servers ttl_seconds
        (queue', state') ←
            edit_state sha256
              (reserved (sha256 token) expected_revision requested_servers ttl_seconds now at) queue
              run_id
        ok (queue', token, state')

  -- The Boolean says whether anything changed.
  unfoldable pub release_queued_job_update :
      Queue → (run_id : String) (at token : String) → Result (Queue × Bool × QueueState)
  unfolding released placement_token_matches
  release_queued_job_update queue run_id at token = do
    raise_if (not (is_run_id run_id))
        (value_error "current run_id must match rr-<16 lowercase hex>")
    raise_if (is_empty (codes token)) (value_error "queue update token must be a non-empty string")
    (_, state) ← load_job sha256 queue run_id
    if is_none state.placement_update then ok (queue, false, state) else do
      raise_if (not (placement_token_matches sha256 state token))
          (runtime_error "queue update reservation token mismatch")
      updated ← validate_state (released at state) run_id
      ok (write_state queue run_id updated, true, updated)
