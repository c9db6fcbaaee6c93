-- ===== src/Queue/State.antt =====
-- registry.py: the mutable state of a queued job and `_validate_state`.
-- Times of the clock are whole microseconds.
use codex_remote_runner.Prelude.{
  ltb, eqb, is_empty, all, distinct, Eq, ◌==◌, nat_eq, string_eq, value_error, Result, ok, ◌>>◌,
  raise_if, ℕ, String, ◌≡◌, ◌↔◌, Bool, true, false, not, ◌&&◌, Option, none, some, List, arith,
}
use codex_remote_runner.Text.{is_project_id, is_sha256}

pub data QueueStatus : Type 0 where
  queued dispatching dispatched failed stopped : QueueStatus

abbrev pub status_code : QueueStatus → ℕ
status_code queued = 0
status_code dispatching = 1
status_code dispatched = 2
status_code failed = 3
status_code stopped = 4

pub status_code_iff : (a b : QueueStatus) → (eqb (status_code a) (status_code b) ≡ true) ↔ (a ≡ b)
status_code_iff a b = ground arith

instance abbrev pub status_eq : Eq QueueStatus
status_eq = record { beq = λ a b. eqb (status_code a) (status_code b); beq_iff = status_code_iff }

-- A time-limited claim on the right to edit where the job may run.
pub record PlacementUpdate : Type 0 where
  pub token_sha256 : String
  pub expires_at : ℕ
  pub requested_servers : List String

pub record QueueState : Type 0 where
  pub state_schema_version : ℕ
  pub run_id : String
  pub revision : ℕ
  pub status : QueueStatus
  pub created_at : String
  pub updated_at : String
  pub error : Option String
  pub placement_update : Option PlacementUpdate

-- QUEUE_TERMINAL
abbrev pub is_terminal : QueueStatus → Bool
is_terminal queued = false
is_terminal dispatching = false
is_terminal dispatched = true
is_terminal failed = true
is_terminal stopped = true

abbrev pub second : ℕ
second = 1000000

-- A list of server names that a reservation may ask for.
unfoldable pub are_requested_servers : List String → Bool
are_requested_servers names = not (is_empty names) && all is_project_id names && distinct names

unfoldable pub check_placement : Option PlacementUpdate → Result (Unit {0})
unfolding are_requested_servers
check_placement none = ok tt
check_placement (some update) = do
  raise_if (not (is_sha256 update.token_sha256))
      (value_error "queued state placement update token is invalid")
  raise_if (update.expires_at == 0) (value_error "queued state placement update expiry is invalid")
  raise_if (not (are_requested_servers update.requested_servers))
      (value_error "queued state placement update servers are invalid")

unfoldable pub validate_state : QueueState → String → Result QueueState
unfolding check_placement
validate_state state run_id = do
  raise_if (not (state.state_schema_version == 1)) (value_error "unsupported queued state schema")
  raise_if (not (state.run_id == run_id)) (value_error "queued state run id mismatch")
  check_placement state.placement_update
  ok state

abbrev pub update_active : Option PlacementUpdate → ℕ → Bool
update_active none now = false
update_active (some update) now = ltb now update.expires_at

unfoldable pub placement_update_active : QueueState → ℕ → Bool
placement_update_active state now = update_active state.placement_update now

abbrev pub token_is : Option PlacementUpdate → String → Bool
token_is none digest = false
token_is (some update) digest = update.token_sha256 == digest

unfoldable pub placement_token_matches : (sha256 : String → String) → QueueState → String → Bool
placement_token_matches sha256 state token = token_is state.placement_update (sha256 token)
