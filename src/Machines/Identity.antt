-- ===== src/Machines/Identity.antt =====
-- src/remote_runner/_internal/machine_identity.py: the identity that a server entry claims.
use codex_remote_runner.Prelude.{
  if◌then◌else◌, ◌==◌, nat_eq, string_eq, value_error, Result, ok, err, ◌>>=◌, ◌>>◌, raise_if,
  get_or, is_none, ℕ, String, Bool, true, false, not, Option, none, some,
}
use codex_remote_runner.Prelude.Int.{ℤ}
use codex_remote_runner.Text.{is_machine_id, is_sha256}

pub data IdentitySource : Type 0 where
  explicit legacy_name : IdentitySource

-- A prepared server of a job. The paths and the connection are kept and never decided on.
pub record Server : Type 0 where
  pub name : String
  pub machine_id : Option String
  pub machine_id_source : Option IdentitySource
  pub machine_fingerprint : Option String
  pub configured_cores : ℕ
  pub configured_memory_gb : Option ℕ
  pub priority : ℤ
  pub standard_slots : Option ℕ
  pub test_slots : Option ℕ
  pub output_root : Option String
  pub ssh : String
  pub ssh_profile : String
  pub bare_repo : String
  pub worktree_root : String
  pub python : String

unfoldable pub normalize_machine_id : Option String → String → Result (String × IdentitySource)
normalize_machine_id none server_name =
    if not (is_machine_id server_name)
    then err (value_error "invalid server name for machine identity")
    else ok (server_name, legacy_name)
normalize_machine_id (some value) server_name =
    if not (is_machine_id server_name)
    then err (value_error "invalid server name for machine identity")
    else if not (is_machine_id value)
    then err (value_error "machine_id must start with an alphanumeric character")
    else ok (value, explicit)

unfoldable pub normalize_machine_fingerprint : Option String → Bool → Result (Option String)
normalize_machine_fingerprint none false = ok none
normalize_machine_fingerprint none true =
    err (value_error "machine fingerprint must be a sha256 value")
normalize_machine_fingerprint (some value) required =
    if is_sha256 value
    then ok (some value)
    else err (value_error "machine fingerprint must be a sha256 value")

-- The claimed source must agree with the id that is there.
unfoldable pub check_source : Server → String → IdentitySource → Result (Unit {0})
check_source server machine_id legacy_name =
    raise_if (not (machine_id == server.name))
      (value_error "legacy machine identity must equal the server name")
check_source server machine_id explicit =
    raise_if (is_none server.machine_id)
      (value_error "explicit machine identity is missing machine_id")

unfoldable pub normalize_server_identity : Server → Result Server
unfolding normalize_machine_id normalize_machine_fingerprint check_source
normalize_server_identity server = do
  (machine_id, inferred_source) ← normalize_machine_id server.machine_id server.name
  let source = get_or server.machine_id_source inferred_source
  check_source server machine_id source
  fingerprint ← normalize_machine_fingerprint server.machine_fingerprint false
  ok (record server {
    machine_id = some machine_id;
    machine_id_source = some source;
    machine_fingerprint = fingerprint;
  })
