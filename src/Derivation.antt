-- ===== src/Derivation.antt =====
-- src/remote_runner/_internal/derivation.py: the relation of a derived run to its source, the run id
-- that it fixes, and the digest of what was submitted. `hex_digest` is the SHA-256 of a list of texts
-- in canonical JSON, `spec_sha256` that of a specification, written `sha256:<hex>`.
use codex_remote_runner.Sort.{sort_by}
use codex_remote_runner.OutputPaths.{
  split_slashes, same_codes, parts, normalize_absolute_output_path, normalize_output_relpath,
}
use codex_remote_runner.Text.{
  codes, is_project_id, is_hex_text, is_run_id, is_sha256, has_controls, str_le,
}
use codex_remote_runner.Prelude.{
  leb, eqb, length, is_empty, all, any, string_eq, ◌==◌, nat_eq, value_error, Result, err, ok,
  ◌>>=◌, ◌>>◌, raise_if, ℕ, zero, suc, String, Bool, true, false, not, ◌&&◌, ◌||◌, Option, none,
  some, List, [], ◌∷◌,
}
use Prim.Native.String.{◌++◌}

-- A relation of schema 1 has these fields and no others; its artifact is written out.
pub record Relation : Type 0 where
  pub schema_version : ℕ
  pub kind : String
  pub source_run_id : String
  pub source_revision : String
  pub source_server : String
  pub target_server : String
  pub target_path : String
  pub receipt_sha256 : String
  pub validator_key : String
  pub result_relpath : String
  pub spec_sha256 : String

-- _text, with the pattern that the text has to match.
unfoldable pub derivation_text : (String → Bool) → String → Result (Unit {0})
unfolding has_controls
derivation_text matches value = do
  raise_if (is_empty (codes value)) (value_error "derivation field must be a non-empty string")
  raise_if (has_controls value) (value_error "derivation field contains invalid control characters")
  raise_if (not (matches value)) (value_error "derivation field has an invalid value")

abbrev pub any_text : String → Bool
any_text value = true

-- [a-z0-9]
abbrev is_lower_alnum : ℕ → Bool
is_lower_alnum c = (leb b'0' c && leb c b'9') || (leb b'a' c && leb c b'z')

-- [a-z0-9][a-z0-9._-]*
abbrev is_key_segment : List ℕ → Bool
is_key_segment [] = false
is_key_segment (c ∷ cs) =
    is_lower_alnum c && all (λ d. is_lower_alnum d || (eqb d b'.' || (eqb d b'_' || eqb d b'-'))) cs

unfoldable pub normalize_validator_key : String → Result (Unit {0})
unfolding derivation_text
normalize_validator_key key = do
  derivation_text any_text key
  raise_if (not (leb (length (codes key)) 128))
      (value_error "validator key must be at most 128 characters")
  raise_if (not (all is_key_segment (split_slashes (codes key))))
      (value_error "validator key must be lowercase alphanumeric segments")

unfoldable pub normalize_artifact_path : String → Result String
unfolding normalize_absolute_output_path parts
normalize_artifact_path value = do
  text ← normalize_absolute_output_path value
  raise_if (any (λ part. same_codes part (codes "..")) (parts (codes text)))
      (value_error "target_path cannot contain dot or parent traversal components")
  ok text

unfoldable pub check_run_id : String → Result (Unit {0})
unfolding derivation_text
check_run_id run_id = do
  derivation_text any_text run_id
  raise_if (not (is_run_id run_id)) (value_error "current run_id must match rr-<16 lowercase hex>")

abbrev is_revision : String → Bool
is_revision value = is_hex_text 40 (codes value)

-- The normalized copy has the fields that it was made from.
unfoldable pub validate_relation : Relation → Result Relation
unfolding derivation_text check_run_id normalize_artifact_path normalize_validator_key
    normalize_output_relpath
validate_relation relation = do
  raise_if (not (relation.schema_version == 1)) (value_error "unsupported derivation schema")
  raise_if (not (relation.kind == "validation")) (value_error "unsupported derivation kind")
  check_run_id relation.source_run_id
  derivation_text is_revision relation.source_revision
  derivation_text is_project_id relation.source_server
  derivation_text is_project_id relation.target_server
  target_path ← normalize_artifact_path relation.target_path
  derivation_text is_sha256 relation.receipt_sha256
  normalize_validator_key relation.validator_key
  result_relpath ← normalize_output_relpath relation.result_relpath
  derivation_text is_sha256 relation.spec_sha256
  ok (record relation { target_path = target_path; result_relpath = result_relpath })

-- A job without a relation is refused.
abbrev pub validate_derivation : Option Relation → Result Relation
validate_derivation none = err (value_error "derivation must be a mapping")
validate_derivation (some relation) = validate_relation relation

-- digest[:n]
abbrev first_chars : ℕ → String → String
first_chars zero s = ""
first_chars (suc n) String.[] = ""
first_chars (suc n) (String.◌∷◌ c s) = String.◌∷◌ c (first_chars n s)

unfoldable pub derived_run_id :
    (hex_digest : List String → String) (project_id source_run_id validator_key : String)
    → Result String
unfolding derivation_text check_run_id normalize_validator_key
derived_run_id hex_digest project_id source_run_id validator_key = do
  derivation_text any_text project_id
  check_run_id source_run_id
  normalize_validator_key validator_key
  let digest = hex_digest (project_id ∷ "validation" ∷ source_run_id ∷ validator_key ∷ [])
  raise_if (not (is_run_id ("rr-" ++ first_chars 16 digest)))
      (value_error "current run_id must match rr-<16 lowercase hex>")
  ok ("rr-" ++ first_chars 16 digest)

-- What the digest of a submission covers; of the relation all but its own digest.
pub record Spec : Type 0 where
  pub identity : Relation
  pub label : String
  pub task_id : String
  pub submitted_command_sha256 : String
  pub minimum_cores : ℕ
  pub requested_cores : Option ℕ
  pub workload_class : String
  pub output_relpath : String
  pub privacy : Option String
  pub eligible_servers : List String

abbrev check_privacy : Option String → Result (Unit {0})
check_privacy none = ok tt
check_privacy (some privacy) = derivation_text any_text privacy

abbrev check_servers : List String → Result (Unit {0})
check_servers [] = ok tt
check_servers (name ∷ names) = derivation_text is_project_id name >> check_servers names

unfoldable pub spec_digest : (spec_sha256 : Spec → String) → Spec → Result String
unfolding derivation_text normalize_output_relpath
spec_digest spec_sha256 spec = do
  derivation_text any_text spec.label
  derivation_text any_text spec.task_id
  derivation_text is_sha256 spec.submitted_command_sha256
  derivation_text any_text spec.workload_class
  output_relpath ← normalize_output_relpath spec.output_relpath
  check_privacy spec.privacy
  check_servers spec.eligible_servers
  ok (
      spec_sha256 (record spec {
        identity = record spec.identity { spec_sha256 = "" };
        output_relpath = output_relpath;
        eligible_servers = sort_by str_le spec.eligible_servers;
      }))

-- `existing != relation`, the other way round.
unfoldable pub same_relation : Relation → Relation → Bool
same_relation a b =
    a.schema_version == b.schema_version
    && (a.kind == b.kind
        && (a.source_run_id == b.source_run_id
            && (a.source_revision == b.source_revision
                && (a.source_server == b.source_server
                    && (a.target_server == b.target_server
                        && (a.target_path == b.target_path
                            && (a.receipt_sha256 == b.receipt_sha256
                                && (a.validator_key == b.validator_key
                                    && (a.result_relpath == b.result_relpath
                                        && a.spec_sha256 == b.spec_sha256)))))))))
