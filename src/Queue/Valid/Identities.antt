-- ===== src/Queue/Valid/Identities.antt =====
-- registry.py: the identity of a server that was normalized before.
use codex_remote_runner.Prelude.{
  Bool-cases, string_eq, ◌==◌, nat_eq, value_error, ok, raise_if, >>=-eq-ok, >>=-ok, ok_injective,
  get_or, is_none, ℕ, String, ◌≡◌, refl, sym, ap, ◌∙◌, subst, inl, inr, false, not, Option, none,
  some,
}
use codex_remote_runner.Text.{is_machine_id, is_sha256}
use codex_remote_runner.Machines.Identity.{
  IdentitySource, explicit, legacy_name, Server, normalize_machine_id,
  normalize_machine_fingerprint, check_source, normalize_server_identity,
}
use codex_remote_runner.Queue.Job.{workload_eq, priority_eq}

normalize_machine_id-again :
    (claimed : Option String) (name id : String) (source : IdentitySource)
    → normalize_machine_id claimed name ≡ ok (id, source)
    → normalize_machine_id (some id) name ≡ ok (id, explicit)
unfolding normalize_machine_id
normalize_machine_id-again none name id source h = elim (Bool-cases (is_machine_id name)) [
  | inr bad ↦ cc (rw (bad, normalize_machine_id) at h)
  | inl good ↦
      let same_id : name ≡ id =
        ap (λ x. x.0) (ok_injective _ _ (rw (good, normalize_machine_id) at h)) in
      subst (λ x. normalize_machine_id (some x) name ≡ ok (x, explicit)) same_id
        (rw (good, normalize_machine_id) refl)
]
normalize_machine_id-again (some value) name id source h = elim (Bool-cases (is_machine_id name)) [
  | inr bad ↦ cc (rw (bad, normalize_machine_id) at h)
  | inl good ↦ elim (Bool-cases (is_machine_id value)) [
    | inr bad ↦ cc (rw bad at (rw (good, normalize_machine_id) at h))
    | inl fine ↦
        let same_id : value ≡ id =
          ap (λ x. x.0) (ok_injective _ _ (rw fine at (rw (good, normalize_machine_id) at h))) in
        subst (λ x. normalize_machine_id (some x) name ≡ ok (x, explicit)) same_id
          (rw (good, normalize_machine_id) (rw fine refl))
  ]
]

normalize_machine_fingerprint-again :
    (o f : Option String)
    → normalize_machine_fingerprint o false ≡ ok f
    → normalize_machine_fingerprint f false ≡ ok f
unfolding normalize_machine_fingerprint
normalize_machine_fingerprint-again none f h =
    subst (λ x. normalize_machine_fingerprint x false ≡ ok x) (ok_injective _ _ h) refl
normalize_machine_fingerprint-again (some value) f h = elim (Bool-cases (is_sha256 value)) [
  | inr bad ↦ cc (rw (bad, normalize_machine_fingerprint) at h)
  | inl good ↦
      subst (λ x. normalize_machine_fingerprint x false ≡ ok x)
        (ok_injective _ _ (rw (good, normalize_machine_fingerprint) at h))
        (rw (good, normalize_machine_fingerprint) refl)
]

check_source-again :
    (server known : Server) (id : String) (source : IdentitySource)
    → known.name ≡ server.name
    → known.machine_id ≡ some id
    → check_source server id source ≡ ok tt
    → check_source known id source ≡ ok tt
unfolding check_source
check_source-again server known id legacy_name same_name has_id h =
    ap
      (λ name.
        raise_if (not (id == name))
          (value_error "legacy machine identity must equal the server name"))
      same_name
    ∙ h
check_source-again server known id explicit same_name has_id h =
    ap (λ o. raise_if (is_none o) (value_error "explicit machine identity is missing machine_id"))
      has_id

-- A server that was normalized is as it should be, whatever its slots are.
pub normalize_server_identity-again :
    (server known : Server) (slots : Option ℕ)
    → normalize_server_identity server ≡ ok known
    → normalize_server_identity (record known { test_slots = slots })
      ≡ ok (record known { test_slots = slots })
unfolding normalize_server_identity
normalize_server_identity-again server known slots h =
    let ((id, inferred), a, h1) =
      >>=-eq-ok (normalize_machine_id server.machine_id server.name) _ h in
    let source = get_or server.machine_id_source inferred in
    let (_, b, h2) = >>=-eq-ok (check_source server id source) _ h1 in
    let (fingerprint, c, h3) =
      >>=-eq-ok (normalize_machine_fingerprint server.machine_fingerprint false) _ h2 in
    subst
      (λ (k : Server).
        normalize_server_identity (record k { test_slots = slots })
        ≡ ok (record k { test_slots = slots }))
      (ok_injective _ _ h3)
      (>>=-ok _ (normalize_machine_id-again server.machine_id server.name id inferred a)
        ∙ >>=-ok _ (
            check_source-again server
              (record server {
                machine_id = some id;
                machine_id_source = some source;
                machine_fingerprint = fingerprint;
                test_slots = slots;
              })
              id source refl refl b)
        ∙ >>=-ok _ (normalize_machine_fingerprint-again server.machine_fingerprint fingerprint c))

-- A server with another identity and with the slots that it is given by default.
abbrev pub identified_as : Server → Option String → Option IdentitySource → Option String → Server
identified_as server id source fingerprint = record server {
  machine_id = id;
  machine_id_source = source;
  machine_fingerprint = fingerprint;
}

abbrev pub with_test_slots : Server → Server
with_test_slots server = record server { test_slots = some (get_or server.test_slots 0) }

pub normalize_server_identity-form :
    (server known : Server)
    → normalize_server_identity server ≡ ok known
    → (id : Option String) × (source : Option IdentitySource) × (fingerprint : Option String)
      × (known ≡ identified_as server id source fingerprint)
unfolding normalize_server_identity
normalize_server_identity-form server known h =
    let ((id, inferred), _, h1) =
      >>=-eq-ok (normalize_machine_id server.machine_id server.name) _ h in
    let source = get_or server.machine_id_source inferred in
    let (_, _, h2) = >>=-eq-ok (check_source server id source) _ h1 in
    let (fingerprint, _, h3) =
      >>=-eq-ok (normalize_machine_fingerprint server.machine_fingerprint false) _ h2 in
    (some id, some source, fingerprint, sym (ok_injective _ _ h3))
