-- ===== src/Queue/Valid.antt =====
-- registry.py: `_validate_job` on a job that it has accepted.
pub mod Identities
pub mod Servers
use codex_remote_runner.Prelude.{
  ltb, Bool-cases, length, is_empty, any, contains, string_eq, ◌==◌, ◌>>=◌, nat_eq, value_error, ok,
  raise_if, >>=-eq-ok, >>=-ok, ok_injective, passed, get_or, is_none, ℕ, String, ◌≡◌, refl, sym, ap,
  ◌∙◌, subst, inl, inr, Bool, false, not, ◌&&◌, ◌||◌, Option, none, some, List, [], ◌∷◌,
}
use codex_remote_runner.Text.{codes, is_machine_id, is_sha256}
use codex_remote_runner.Machines.Identity.{
  IdentitySource, explicit, legacy_name, Server, normalize_machine_id,
  normalize_machine_fingerprint, check_source, normalize_server_identity,
}
use codex_remote_runner.OutputPaths.{
  optional, normalize_absolute_output_path, normalize_output_relpath, optional_relpath-same,
  optional_path-same,
}
use codex_remote_runner.Queue.Job.{
  Job, server_names, workload_eq, priority_eq, check_texts, check_header, required_cores,
  check_server, check_servers, check_eligible, is_some_empty, check_output, validate_job,
}
use codex_remote_runner.Queue.Valid.Servers.{check_servers-again, check_servers-same, rootless}

-- The output of a job is checked last, and a job that passes stays as it is.
check_output-again :
    (job checked : Job)
    → check_output job ≡ ok checked
    → (check_output checked ≡ ok checked)
      × (relpath : Option String) × (checked ≡ record job { output_relpath = relpath })
unfolding check_output
check_output-again job checked h = elim (Bool-cases (job.schema_version == 1)) [
  | inl old ↦
      let (stated, h1) = passed (is_some_empty job.output_path) _ _ (rw (old, check_output) at h) in
      let form = sym (ok_injective _ _ h1) in
      (
        subst (λ x. check_output x ≡ ok x) (sym form) (rw (old, check_output) (rw stated refl)),
        none,
        form,
      )
  | inr new ↦
      let (_, h1) =
        passed (not (is_none job.output_relpath) && not (is_none job.output_path)) _ _
          (rw (new, check_output) at h) in
      let (relpath, r, h2) =
        >>=-eq-ok (optional normalize_output_relpath job.output_relpath) _ h1 in
      let (path, p, h3) =
        >>=-eq-ok (optional normalize_absolute_output_path job.output_path) _ h2 in
      let (_, h4) = passed (not (is_none relpath) && rootless job.prepared_servers) _ _ h3 in
      let (_, h5) = passed (not (is_none path) && not (length job.prepared_servers == 1)) _ _ h4 in
      let (_, h6) = passed _ _ _ h5 in
      let form : job ≡ checked =
        ap (λ x. record job { output_relpath = x })
          (optional_relpath-same job.output_relpath relpath r)
        ∙ ap (λ x. record job { output_relpath = relpath; output_path = x })
            (optional_path-same job.output_path path p)
        ∙ ok_injective _ _ h6 in
      subst
        (λ x.
          (check_output x ≡ ok x)
          × (relpath : Option String) × (x ≡ record job { output_relpath = relpath }))
        form (h ∙ ap ok (sym form), job.output_relpath, refl)
]

same_emptiness :
    (xs ys : List Server) → server_names xs ≡ server_names ys → is_empty xs ≡ is_empty ys
same_emptiness xs ys h = named xs ∙ ap is_empty h ∙ sym (named ys)
  where
    named : (zs : List Server) → is_empty zs ≡ is_empty (server_names zs)
    named [] = refl
    named (z ∷ zs) = refl

module _ (sha256 : String → String) where
  -- What the validation of a job gives is valid as it is.
  pub validate_job-again :
      (job checked : Job)
      → validate_job sha256 job ≡ ok checked
      → validate_job sha256 checked ≡ ok checked
  unfolding validate_job check_header check_texts
  validate_job-again job checked h =
      let (_, header, h1) = >>=-eq-ok (check_header job) _ h in
      let (some_server, h2) = passed (is_empty job.prepared_servers) _ _ h1 in
      let (servers, s, h3) = >>=-eq-ok (check_servers job [] job.prepared_servers) _ h2 in
      let (_, eligible, h4) =
        >>=-eq-ok (check_eligible (server_names job.prepared_servers) job.eligible_servers) _ h3 in
      let (digest, h5) =
        passed (not (job.submitted_command_sha256 == sha256 job.submitted_command)) _ _ h4 in
      let (output, relpath, form) =
        check_output-again (record job { prepared_servers = servers }) checked h5 in
      let (s', names, _) = check_servers-again job [] job.prepared_servers servers s in
      let final = record job { prepared_servers = servers; output_relpath = relpath } in
      let output' = subst (λ x. check_output x ≡ ok x) form output in
      subst (λ x. validate_job sha256 x ≡ ok x) (sym form)
        (>>=-ok _ header
          ∙ >>=-ok _ (
              ap
                (λ b.
                  raise_if b (value_error "queued job prepared_servers must be a non-empty list"))
                (same_emptiness servers job.prepared_servers names ∙ some_server))
          ∙ >>=-ok _ (check_servers-same job final [] servers refl ∙ s')
          ∙ >>=-ok _ (ap (λ ns. check_eligible ns job.eligible_servers) names ∙ eligible)
          ∙ >>=-ok _
              (ap (λ b. raise_if b (value_error "queued submitted command digest mismatch")) digest)
          ∙ output')
