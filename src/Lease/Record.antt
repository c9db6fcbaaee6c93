-- ===== src/Lease/Record.antt =====
-- registry.py: `load_server_lease`, the check of one lease file, and the files of a machine.
use codex_remote_runner.Prelude.{
  ltb, leb, if◌then◌else◌, is_empty, contains, unique, string_eq, ◌==◌, nat_eq, value_error,
  malformed_lease, Result, err, ok, ◌>>=◌, ◌>>◌, raise_if, Dict, get, ℕ, String, Bool, true, false,
  not, ◌&&◌, ◌||◌, Option, none, some, List, [], ◌∷◌,
}
use codex_remote_runner.Text.{codes, is_project_id, is_machine_id, is_hex_text}
use codex_remote_runner.Machines.{Machine, Machines, canonical_machine_id}

pub data Kind : Type 0 where
  dispatch maintenance : Kind

abbrev pub is_dispatch : Kind → Bool
is_dispatch dispatch = true
is_dispatch maintenance = false

-- What a lease file holds. A file of schema 1 has neither token nor heartbeat. Where an old file
-- lacks the schema or the machine id, the record has the values that the loader takes for them: 1,
-- and the server's name.
pub record Lease : Type 0 where
  pub schema_version : ℕ
  pub server : String
  pub machine_id : String
  pub project_id : String
  pub run_id : String
  pub kind : Kind
  pub owner_token : Option String
  pub created_at : ℕ
  pub heartbeat_at : Option ℕ
  pub expires_at : ℕ

-- The lease files by the stem of their name, with the machines and the drains of the scheduler.
pub record DrainMark : Type 0 where
  pub drained_at : String
  pub requested_by_project : String

pub record Scheduler : Type 0 where
  pub machines : Machines
  pub drains : Dict String DrainMark
  pub leases : Dict String Lease

abbrev pub malformed : Bool → String → Result (Unit {0})
malformed failed message = raise_if failed (malformed_lease message)

abbrev pub is_token : Option String → Bool
is_token none = false
is_token (some token) = is_hex_text 64 (codes token)

abbrev pub is_heartbeat : Option ℕ → ℕ → ℕ → Bool
is_heartbeat none created_at expires_at = false
is_heartbeat (some heartbeat) created_at expires_at =
    leb created_at heartbeat && ltb heartbeat expires_at

-- The token and the heartbeat, by schema.
unfoldable pub check_ownership : Lease → Result Lease
check_ownership lease =
    if lease.schema_version == 1
    then ok (record lease { owner_token = none; heartbeat_at = none })
    else do
      malformed (not (is_token lease.owner_token)) "invalid owner_token"
      malformed (not (is_heartbeat lease.heartbeat_at lease.created_at lease.expires_at))
          "invalid heartbeat_at"
      ok lease

unfoldable pub load_server_lease : (stem : String) → Lease → Result Lease
unfolding check_ownership
load_server_lease stem lease = do
  malformed (not (lease.schema_version == 1) && not (lease.schema_version == 2))
      "unsupported schema_version"
  malformed (not (is_project_id lease.server)) "invalid server"
  malformed (not (is_machine_id lease.machine_id)) "invalid machine_id"
  malformed (not (stem == lease.machine_id)) "lease filename does not match machine_id"
  malformed (not (is_project_id lease.project_id)) "invalid project_id"
  malformed (is_empty (codes lease.run_id) || contains (codes lease.run_id) 0) "invalid run_id"
  malformed (lease.created_at == 0 || leb lease.expires_at lease.created_at)
      "invalid lease timestamps"
  check_ownership lease

-- The file of a machine id; the id must be one.
unfoldable pub lease_path : String → Result String
lease_path machine_id =
    if is_machine_id machine_id then ok machine_id else err (value_error "invalid lease machine_id")

abbrev pub legacy_ids : Option Machine → List String
legacy_ids none = []
legacy_ids (some machine) = machine.legacy_machine_ids

unfoldable pub paths_of : List String → Result (List String)
unfolding lease_path
paths_of [] = ok []
paths_of (id ∷ ids) = do path ← lease_path id; paths ← paths_of ids; ok (path ∷ paths)

-- The files in which a lease on the machine may stand: its own and those of its former ids.
unfoldable pub lease_paths_for_machine : Machines → String → Result (List String)
unfolding paths_of canonical_machine_id
lease_paths_for_machine machines machine_id = do
  canonical ← canonical_machine_id machines machine_id
  paths_of (unique (canonical ∷ legacy_ids (get machines canonical)))
