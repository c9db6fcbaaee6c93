-- ===== src/Machines/Canonical.antt =====
-- registry.py: canonical machine ids and resolved requests.
use codex_remote_runner.Prelude.{
  Bool-cases, contains, string_eq, nat_eq, beq_self, Error, value_error, ok, ◌>>=◌, >>=-eq-ok,
  ok_injective, has, get_or, String, ◌≡◌, sym, ◌∙◌, subst, ◌⊎◌, inl, inr, Bool, true, false, Option,
  none, some, List, [], ◌∷◌, arith,
}
use codex_remote_runner.Machines.{
  Machine, Machines, machine_alias, ids_where, sole, machine_alias_owner, canonical_machine_id,
  choose_owner, resolve_machine_request,
}

-- The machines that pass a test are in the registry.
ids_where-has :
    (p : Machine → Bool) (machines : Machines) (id : String)
    → contains (ids_where p machines) id ≡ true
    → has machines id ≡ true
ids_where-has p [] id h = cc
ids_where-has p ((key, m) ∷ machines) id h = ground (arith, ids_where-has p machines id)

sole-contains :
    (xs : List String) (e : Error) (x : String) → sole xs e ≡ ok (some x) → contains xs x ≡ true
sole-contains [] e x h = cc
sole-contains (y ∷ []) e x h = ground (arith, beq_self x)
sole-contains (y ∷ z ∷ xs) e x h = cc

-- A machine that the registry holds stands for itself.
pub canonical_machine_id-has :
    (machines : Machines) (id : String)
    → has machines id ≡ true
    → canonical_machine_id machines id ≡ ok id
unfolding canonical_machine_id
canonical_machine_id-has machines id h = rw h

sole_owner-has :
    (p : Machine → Bool) (machines : Machines) (e : Error) (id : String)
    → sole (ids_where p machines) e ≡ ok (some id)
    → has machines id ≡ true
sole_owner-has p machines e id h =
    ids_where-has p machines id (sole-contains (ids_where p machines) e id h)

legacy_owner :
    (machines : Machines) (id canonical : String) (owner : Option String)
    → canonical_machine_id machines id ≡ ok canonical
    → sole
        (ids_where (λ m. contains m.legacy_machine_ids id) machines)
        (value_error "legacy machine_id is ambiguous")
      ≡ ok owner
    → ok (get_or owner id) ≡ ok canonical
    → canonical_machine_id machines canonical ≡ ok canonical
legacy_owner machines id canonical none h s e =
    subst (λ x. canonical_machine_id machines x ≡ ok canonical) (ok_injective id canonical e) h
legacy_owner machines id canonical (some o) h s e = canonical_machine_id-has machines canonical (
    subst (λ x. has machines x ≡ true) (ok_injective o canonical e)
      (sole_owner-has (λ m. contains m.legacy_machine_ids id) machines _ o s))

unknown_id :
    (machines : Machines) (id canonical : String)
    → has machines id ≡ false
    → canonical_machine_id machines id ≡ ok canonical
    → (sole
          (ids_where (λ m. contains m.legacy_machine_ids id) machines)
          (value_error "legacy machine_id is ambiguous")
        >>= λ owner. ok (get_or owner id))
      ≡ ok canonical
unfolding canonical_machine_id
unknown_id machines id canonical unknown h = rw unknown at h

-- A canonical id is the id itself, or a machine that the registry holds.
pub canonical_machine_id-known :
    (machines : Machines) (id canonical : String)
    → canonical_machine_id machines id ≡ ok canonical
    → (id ≡ canonical) ⊎ (has machines canonical ≡ true)
canonical_machine_id-known machines id canonical h = elim (Bool-cases (has machines id)) [
  | inl known ↦
      inl (ok_injective id canonical (sym (canonical_machine_id-has machines id known) ∙ h))
  | inr unknown ↦
      let (owner, s, e) =
        >>=-eq-ok
          (sole (ids_where (λ m. contains m.legacy_machine_ids id) machines)
            (value_error "legacy machine_id is ambiguous"))
          _ (unknown_id machines id canonical unknown h) in
      from_owner owner s e
]
  where
    from_owner :
        (owner : Option String)
        → sole
            (ids_where (λ m. contains m.legacy_machine_ids id) machines)
            (value_error "legacy machine_id is ambiguous")
          ≡ ok owner
        → ok (get_or owner id) ≡ ok canonical
        → (id ≡ canonical) ⊎ (has machines canonical ≡ true)
    from_owner none s e = inl (ok_injective id canonical e)
    from_owner (some o) s e = inr (
        subst (λ x. has machines x ≡ true) (ok_injective o canonical e)
          (sole_owner-has (λ m. contains m.legacy_machine_ids id) machines _ o s))

-- A canonical id is its own canonical id.
pub canonical_machine_id-idempotent :
    (machines : Machines) (id canonical : String)
    → canonical_machine_id machines id ≡ ok canonical
    → canonical_machine_id machines canonical ≡ ok canonical
canonical_machine_id-idempotent machines id canonical h = elim (Bool-cases (has machines id)) [
  | inl known ↦
      let same = ok_injective id canonical (sym (canonical_machine_id-has machines id known) ∙ h) in
      canonical_machine_id-has machines canonical (subst (λ x. has machines x ≡ true) same known)
  | inr unknown ↦
      let (owner, s, e) =
        >>=-eq-ok
          (sole (ids_where (λ m. contains m.legacy_machine_ids id) machines)
            (value_error "legacy machine_id is ambiguous"))
          _ (unknown_id machines id canonical unknown h) in
      legacy_owner machines id canonical owner h s e
]

alias_owner_canonical :
    (machines : Machines) (server machine_id canonical resolved alias : String)
    (owner : Option String)
    → canonical_machine_id machines machine_id ≡ ok canonical
    → machine_alias_owner machines alias ≡ ok owner
    → choose_owner server machine_id canonical owner ≡ ok resolved
    → canonical_machine_id machines resolved ≡ ok resolved
unfolding machine_alias_owner choose_owner
alias_owner_canonical machines server machine_id canonical resolved alias none c a e =
    canonical_machine_id-idempotent machines machine_id resolved (c ∙ e)
alias_owner_canonical machines server machine_id canonical resolved alias (some o) c a e =
    canonical_machine_id-has machines resolved (
      subst (λ x. has machines x ≡ true) (ground arith)
        (sole_owner-has (λ m. contains m.aliases alias) machines _ o a))

-- The machine to which a request is resolved, whether by its id or by its server's alias, is its
-- own canonical machine.
pub resolve_machine_request-canonical :
    (machines : Machines) (project_id server machine_id resolved : String)
    → resolve_machine_request machines project_id server machine_id ≡ ok resolved
    → canonical_machine_id machines resolved ≡ ok resolved
unfolding resolve_machine_request
resolve_machine_request-canonical machines project_id server machine_id resolved h =
    let (canonical, c, h1) = >>=-eq-ok (canonical_machine_id machines machine_id) _ (h) in
    let (alias, _, h2) = >>=-eq-ok (machine_alias project_id server) _ h1 in
    let (owner, a, h3) = >>=-eq-ok (machine_alias_owner machines alias) _ h2 in
    alias_owner_canonical machines server machine_id canonical resolved alias owner c a h3
