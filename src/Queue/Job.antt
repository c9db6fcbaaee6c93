-- ===== src/Queue/Job.antt =====
-- registry.py: the record of a queued job and `_validate_job`.
-- A job has every field with a value of its type: the defaults for fields that the old schemas lack
-- (eligible_servers, queue_position and others) are those that it has. Left out are the output
-- metadata and a sync configuration of the job's own: the jobs are those of which both pass.
use codex_remote_runner.Prelude.{
  ltb, leb, eqb, if◌then◌else◌, length, is_empty, all, any, filter, contains, distinct, subset, Eq,
  string_eq, ◌==◌, nat_eq, value_error, Result, err, ok, ◌>>=◌, ◌>>◌, raise_if, get_or, is_none, ℕ,
  max, String, ◌≡◌, ◌↔◌, Bool, true, false, not, ◌&&◌, Option, none, some, List, [], ◌∷◌, map,
  arith,
}
use codex_remote_runner.Text.{codes, is_project_id, is_hex_text, is_run_id}
use codex_remote_runner.OutputPaths.{
  normalize_absolute_output_path, normalize_output_relpath, optional, normalize_output_root,
}
use codex_remote_runner.Derivation.{Relation, validate_relation}
use codex_remote_runner.Scheduling.{QueuePriority, WorkloadClass, standard, test, priority_rank}
use codex_remote_runner.Machines.Identity.{Server, normalize_server_identity}

pub data ServerScope : Type 0 where
  snapshot all_servers : ServerScope

pub record Job : Type 0 where
  pub schema_version : ℕ
  pub derivation : Option Relation
  pub run_id : String
  pub project_id : String
  pub revision : String
  pub label : String
  pub task_id : String
  pub submitted_command : String
  pub submitted_command_sha256 : String
  pub created_at : String
  pub queue_priority : QueuePriority
  pub queue_position : ℕ
  pub workload_class : WorkloadClass
  pub minimum_cores : ℕ
  pub requested_cores : Option ℕ
  pub server_scope : ServerScope
  pub prepared_servers : List Server
  pub eligible_servers : List String
  pub eligible_servers_locked : Bool
  pub output_relpath : Option String
  pub output_path : Option String
  pub privacy : Option String
  pub lease_seconds : Option ℕ

abbrev pub queue_schema : ℕ
queue_schema = 5

abbrev pub derived_queue_schema : ℕ
derived_queue_schema = 6

abbrev pub server_names : List Server → List String
server_names = map λ s. s.name

abbrev pub workload_code : WorkloadClass → ℕ
workload_code standard = 0
workload_code test = 1

pub workload_code_iff :
    (a b : WorkloadClass) → (eqb (workload_code a) (workload_code b) ≡ true) ↔ (a ≡ b)
workload_code_iff a b = ground arith

instance abbrev pub workload_eq : Eq WorkloadClass
workload_eq = record {
  beq = λ a b. eqb (workload_code a) (workload_code b);
  beq_iff = workload_code_iff;
}

pub priority_code_iff :
    (a b : QueuePriority) → (eqb (priority_rank a) (priority_rank b) ≡ true) ↔ (a ≡ b)
priority_code_iff a b = ground arith

instance abbrev pub priority_eq : Eq QueuePriority
priority_eq = record {
  beq = λ a b. eqb (priority_rank a) (priority_rank b);
  beq_iff = priority_code_iff;
}

-- The texts of a job that must be there, with no NUL.
unfoldable pub is_plain_text : String → Bool
is_plain_text s = not (is_empty (codes s)) && not (contains (codes s) 0)

unfoldable pub check_texts : Job → Result (Unit {0})
unfolding is_plain_text
check_texts job =
    raise_if
      (not (
        all is_plain_text (
          job.run_id ∷ job.project_id ∷ job.revision ∷ job.label ∷ job.task_id
          ∷ job.submitted_command ∷ job.submitted_command_sha256 ∷ job.created_at ∷ [])))
      (value_error "queued job field must be a non-empty string")

abbrev pub is_some_zero : Option ℕ → Bool
is_some_zero none = false
is_some_zero (some n) = n == 0

-- What validates is the relation as it was given, up to its normalized paths, which are the same.
unfoldable pub check_derivation : (derived : Bool) → Option Relation → Result (Unit {0})
unfolding validate_relation
check_derivation true none = err (value_error "derived queued job requires a derivation relation")
check_derivation true (some relation) = do _ ← validate_relation relation; ok tt
check_derivation false none = ok tt
check_derivation false (some relation) =
    err (value_error "only derived queued jobs may carry a derivation relation")

-- The schema, the derivation and the identifying texts.
unfoldable pub check_header : Job → Result (Unit {0})
unfolding check_texts check_derivation
check_header job = do
  raise_if (not (leb 1 job.schema_version && leb job.schema_version derived_queue_schema))
      (value_error "unsupported queued job schema")
  check_derivation (job.schema_version == derived_queue_schema) job.derivation
  check_texts job
  raise_if (not (is_run_id job.run_id)) (value_error "invalid queued run id")
  raise_if (not (is_project_id job.project_id)) (value_error "invalid queued project id")
  raise_if (not (is_hex_text 40 (codes job.revision)))
      (value_error "queued revision must be a full Git SHA")
  raise_if (job.schema_version == derived_queue_schema && not (job.workload_class == test))
      (value_error "derived queued job must use the test workload class")
  raise_if (job.minimum_cores == 0) (value_error "minimum cores must be a positive integer")
  raise_if (is_some_zero job.requested_cores)
      (value_error "requested cores must be a positive integer or omitted")

abbrev pub required_cores : Job → ℕ
required_cores job = max job.minimum_cores (get_or job.requested_cores 1)

-- One prepared server; `names` are those of the servers before it.
unfoldable pub check_server : Job → List String → Server → Result Server
unfolding normalize_output_root
check_server job names item = do
  raise_if
      (any (λ s. is_empty (codes s))
        (item.name ∷ item.ssh ∷ item.ssh_profile ∷ item.bare_repo ∷ item.worktree_root ∷ item.python
          ∷ []))
      (value_error "queued prepared server field must be a string")
  raise_if (contains names item.name) (value_error "duplicate queued prepared server")
  identity ← normalize_server_identity item
  raise_if (is_some_zero item.configured_memory_gb)
      (value_error "queued prepared server configured_memory_gb must be positive or null")
  raise_if (item.configured_cores == 0)
      (value_error "queued prepared server configured_cores must be positive")
  raise_if (ltb item.configured_cores (required_cores job))
      (value_error "queued prepared server has fewer than the required cores")
  output_root ← normalize_output_root item.output_root
  ok (record identity {
    output_root = output_root;
    test_slots = some (get_or identity.test_slots 0);
  })

unfoldable pub check_servers : Job → List String → List Server → Result (List Server)
unfolding check_server
check_servers job names [] = ok []
check_servers job names (item ∷ items) = do
  server ← check_server job names item
  rest ← check_servers job (item.name ∷ names) items
  ok (server ∷ rest)

unfoldable pub check_eligible : List String → List String → Result (Unit {0})
check_eligible names eligible = do
  raise_if (is_empty eligible) (value_error "queued job eligible_servers must be a non-empty list")
  raise_if (any (λ s. is_empty (codes s)) eligible)
      (value_error "queued job eligible server names must be non-empty strings")
  raise_if (not (distinct eligible))
      (value_error "queued job eligible_servers must not contain duplicates")
  raise_if (not (subset eligible names))
      (value_error "queued job eligible_servers contains an unprepared server")

abbrev pub is_all : ServerScope → Bool
is_all snapshot = false
is_all all_servers = true

abbrev pub is_some_empty : Option String → Bool
is_some_empty none = false
is_some_empty (some s) = is_empty (codes s)

-- Where the output goes; schema 1 has only a path of its own.
unfoldable pub check_output : Job → Result Job
unfolding normalize_output_relpath normalize_absolute_output_path
check_output job =
    if job.schema_version == 1
    then (do
      raise_if (is_some_empty job.output_path)
          (value_error "queued output_path must be a string or null")
      ok (record job { output_relpath = none }))
    else (do
      raise_if (not (is_none job.output_relpath) && not (is_none job.output_path))
          (value_error "queued output_relpath and output_path are mutually exclusive")
      output_relpath ← optional normalize_output_relpath job.output_relpath
      output_path ← optional normalize_absolute_output_path job.output_path
      raise_if
          (not (is_none output_relpath) && any (λ s. is_none s.output_root) job.prepared_servers)
          (value_error "queued relative output requires every prepared output_root")
      raise_if (not (is_none output_path) && not (length job.prepared_servers == 1))
          (value_error "queued absolute output requires exactly one prepared server")
      raise_if (not (is_none output_path) && is_all job.server_scope)
          (value_error "queued all-server job requires a portable relative output")
      ok (record job { output_relpath = output_relpath; output_path = output_path }))

-- `sha256` is the digest that `hashlib` gives, written `sha256:<hex>`.
unfoldable pub validate_job : (sha256 : String → String) → Job → Result Job
unfolding check_header check_servers check_eligible check_output
validate_job sha256 job = do
  check_header job
  raise_if (is_empty job.prepared_servers)
      (value_error "queued job prepared_servers must be a non-empty list")
  servers ← check_servers job [] job.prepared_servers
  check_eligible (server_names job.prepared_servers) job.eligible_servers
  raise_if (not (job.submitted_command_sha256 == sha256 job.submitted_command))
      (value_error "queued submitted command digest mismatch")
  check_output (record job { prepared_servers = servers })

-- The servers on which the job may run, in the order of preparation.
unfoldable pub eligible_prepared_servers : Job → List Server
eligible_prepared_servers job = filter (λ s. contains eligible s.name) job.prepared_servers
  where
    eligible : List String
    eligible =
        if is_empty job.eligible_servers
        then server_names job.prepared_servers
        else job.eligible_servers
