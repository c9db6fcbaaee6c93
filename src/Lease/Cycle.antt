-- ===== src/Lease/Cycle.antt =====
-- registry.py: the files of a machine around `_acquire_server_lease`.
pub mod Laws
pub mod Malformed
use mathlib.Core.Option
use codex_remote_runner.Lease.Acquire.Grants.{Granted}
use codex_remote_runner.Text.{codes, is_project_id, is_machine_id}
use codex_remote_runner.Lease.Release.{releases, matching_paths}
use codex_remote_runner.Prelude.{
  ltb, leb, if◌then◌else◌, Bool-cases, Option-cases, is_empty, filter, All, All-imp, contains,
  unique, contains-filter, string_eq, ◌==◌, nat_eq, beq_self, ok, >>=-eq-ok, ok_injective, Dict,
  get, remove, get-put, get-remove, is_none, ℕ, ◌+◌, ◌*◌, String, ◌≡◌, refl, sym, ap, ◌∙◌, subst,
  inl, inr, Bool, true, false, not, ◌||◌, Option, none, some, List, [], ◌∷◌, map, arith,
}
use codex_remote_runner.Machines.{Machines, canonical_machine_id}
use codex_remote_runner.Lease.Record.{
  Lease, Scheduler, is_token, check_ownership, load_server_lease, lease_path, legacy_ids, paths_of,
  lease_paths_for_machine,
}
use codex_remote_runner.Lease.Acquire.{
  LeaseOwnership, Authority, is_stale, stale_paths, unlink_all, Claim, second, new_lease,
}
use codex_remote_runner.Lease.Exclusion.{lease_path-eq}

pub get-unlink_all :
    (leases : Dict String Lease) (paths : List String) (k : String)
    → get (unlink_all leases paths) k ≡ (if contains paths k then none else get leases k)
get-unlink_all leases [] k = refl
get-unlink_all leases (path ∷ paths) k =
    get-unlink_all (remove leases path) paths k
    ∙ ground (arith, get-remove leases path k, string_eq.beq_iff path k)

paths_of-same : (ids paths : List String) → paths_of ids ≡ ok paths → paths ≡ ids
unfolding paths_of
paths_of-same [] paths h = sym (ok_injective _ _ h)
paths_of-same (id ∷ ids) paths h =
    let (path, own, h1) = >>=-eq-ok (lease_path id) _ h in
    let (others, rest, h2) = >>=-eq-ok (paths_of ids) _ h1 in
    sym (ok_injective _ _ h2)
    ∙ ap (λ x. x ∷ others) (lease_path-eq id path own)
    ∙ ap (λ x. id ∷ x) (paths_of-same ids others rest)

-- The files of a machine: its own, and others.
pub record IsOwnFirst (id : String) (paths : List String) : Type 0 where
  pub rest : List String
  pub own_first : paths ≡ id ∷ rest
  pub others_differ : contains rest id ≡ false
  pub has_path : lease_path id ≡ ok id

pub lease_paths-IsOwnFirst :
    (machines : Machines) (id : String) (paths : List String)
    → canonical_machine_id machines id ≡ ok id
    → lease_paths_for_machine machines id ≡ ok paths
    → IsOwnFirst id paths
unfolding lease_paths_for_machine
lease_paths-IsOwnFirst machines id paths c h =
    let (canonical, c', h1) = >>=-eq-ok (canonical_machine_id machines id) _ h in
    let same_id : canonical ≡ id = ok_injective canonical id (sym c' ∙ c) in
    let names = unique (legacy_ids (get machines canonical)) in
    let rest = filter (λ y. not (y == canonical)) names in
    let (path, own, h2) = >>=-eq-ok (lease_path canonical) _ h1 in
    record {
      rest = rest;
      own_first = paths_of-same (canonical ∷ rest) paths h1 ∙ ap (λ x. x ∷ rest) same_id;
      others_differ =
          ap (contains rest) (sym same_id)
          ∙ contains-filter (λ y. not (y == canonical)) names canonical
          ∙ ground (arith, beq_self canonical);
      has_path =
          ap lease_path (sym same_id) ∙ own ∙ ap ok (lease_path-eq canonical path own ∙ same_id);
    }

some-map-cons :
    (path : String) (others : Option (List String)) (found : List String)
    → Option.map (λ rest. path ∷ rest) others ≡ some found
    → (rest : List String) × (others ≡ some rest) × (found ≡ path ∷ rest)
some-map-cons path none found h = cc
some-map-cons path (some rest) found h = (rest, refl, cc)

-- Each file is gone, or among those to be removed.
pub IsCleared : Dict String Lease → List String → String → Type 0
IsCleared leases found path = (contains found path || is_none (get leases path)) ≡ true

pub stale_paths-IsCleared :
    (authority : Authority) (project_id run_id : String) (now : ℕ) (leases : Dict String Lease)
    (paths found : List String)
    → stale_paths authority project_id run_id now leases paths ≡ ok (some found)
    → All (IsCleared leases found) paths
      × ((other : String) → contains paths other ≡ false → contains found other ≡ false)
unfolding stale_paths IsCleared
stale_paths-IsCleared authority project_id run_id now leases [] found h = (
  tt,
  λ other absent. subst (λ f. contains f other ≡ false) (empty found (ok_injective _ _ h)) absent,
)
  where
    empty : (found : List String) → some [] ≡ some found → [] ≡ found
    empty found q = cc
stale_paths-IsCleared authority project_id run_id now leases (path ∷ paths) found h =
    elim (Option-cases (get leases path)) [
      | inl gone ↦
          let (cleared, only) =
            stale_paths-IsCleared authority project_id run_id now leases paths found
              (rw (gone, stale_paths) at h) in
          ((ground (arith, gone), cleared), λ other absent. only other (ground (arith, absent)))
      | inr (file, stored) ↦
          let (lease, loaded, h1) =
            >>=-eq-ok (load_server_lease path file) _ (rw (stored, stale_paths) at h) in
          let stale : is_stale authority project_id run_id now lease ≡ true =
            elim (Bool-cases (is_stale authority project_id run_id now lease)) [
              | inl held ↦ held
              | inr not_held ↦ cc (rw not_held at h1)
            ] in
          let (others, followed, h2) =
            >>=-eq-ok (stale_paths authority project_id run_id now leases paths) _
              (rw stale at h1) in
          let (rest, e, same_found) = some-map-cons path others found (ok_injective _ _ h2) in
          let (cleared, only) =
            stale_paths-IsCleared authority project_id run_id now leases paths rest
              (followed ∙ ap ok e) in
          subst
            (λ f.
              All (IsCleared leases f) (path ∷ paths)
              × ((other : String)
                  → contains (path ∷ paths) other ≡ false
                  → contains f other ≡ false))
            (sym same_found)
            (
              (
                ground (arith, beq_self path),
                All-imp (IsCleared leases rest) (IsCleared leases (path ∷ rest))
                    (λ p q. ground (arith, q)) paths cleared,
              ),
              λ other absent. ground (arith, absent, only other),
            )
    ]

-- What an acquisition needs to write a lease that can be read again: names, a run, a token of 64
-- hexadecimal digits, and a clock that is not at 0.
pub record IsClaim (claim : Claim) (token : String) (now : ℕ) : Type 0 where
  pub server_named : is_project_id claim.server ≡ true
  pub project_named : is_project_id claim.project_id ≡ true
  pub run_named : (is_empty (codes claim.run_id) || contains (codes claim.run_id) 0) ≡ false
  pub has_token : is_token (some token) ≡ true
  pub clock : (now == 0) ≡ false

pub lease_path-valid : (id : String) → lease_path id ≡ ok id → is_machine_id id ≡ true
unfolding lease_path
lease_path-valid id h = elim (Bool-cases (is_machine_id id)) [
  | inl valid ↦ valid
  | inr invalid ↦ cc (rw (invalid, lease_path) at h)
]

pub new_lease-loads :
    (claim : Claim) (id token : String) (now : ℕ)
    → IsClaim claim token now
    → is_machine_id id ≡ true
    → (claim.ttl_seconds == 0) ≡ false
    → load_server_lease id (new_lease claim id token now) ≡ ok (new_lease claim id token now)
unfolding load_server_lease check_ownership new_lease
new_lease-loads claim id token now c valid positive =
    let expiry = now + claim.ttl_seconds * second in
    let later : leb expiry now ≡ false = ground (arith, positive) in
    let sooner : ltb now expiry ≡ true = ground (arith, positive) in
    let self : leb now now ≡ true = ground arith in
    rw (c.server_named, valid, beq_self id, c.project_named, c.run_named, c.has_token, c.clock)
      (rw (later, self, sooner) refl)

pub matching_paths-none :
    (wanted : Lease → Bool) (leases : Dict String Lease) (paths : List String)
    → All (λ path. get leases path ≡ none) paths
    → matching_paths wanted leases paths ≡ ok []
unfolding matching_paths
matching_paths-none wanted leases [] h = refl
matching_paths-none wanted leases (path ∷ paths) (gone, h) =
    rw (gone, matching_paths) (matching_paths-none wanted leases paths h)

pub new_lease-releases :
    (claim : Claim) (id token : String) (now : ℕ)
    → releases claim.project_id claim.run_id (some token) (new_lease claim id token now) ≡ true
unfolding releases new_lease
new_lease-releases claim id token now =
    rw (beq_self claim.project_id, beq_self claim.run_id, beq_self token) refl

-- The machine's files after an acquisition: its own holds the lease, and the others are gone.
pub others_gone :
    (authority : Authority) (s s' : Scheduler) (claim : Claim) (now : ℕ) (token : String)
    (o : LeaseOwnership) (g : Granted authority s s' claim now token o) (rest : List String)
    → All (IsCleared s.leases g.stale) rest
    → contains rest o.machine_id ≡ false
    → All (λ path. get s'.leases path ≡ none) rest
unfolding IsCleared
others_gone authority s s' claim now token o g [] h d = tt
others_gone authority s s' claim now token o g (path ∷ rest) (cleared, h) d = (
  ap (λ x. get x.leases path) g.writes
      ∙ get-put (unlink_all s.leases g.stale) o.machine_id path
          (new_lease claim o.machine_id token now)
      ∙ ground (
        arith,
        d,
        cleared,
        get-unlink_all s.leases g.stale path,
        string_eq.beq_iff path o.machine_id,
        string_eq.beq_iff o.machine_id path,
      ),
  others_gone authority s s' claim now token o g rest h (ground (arith, d)),
)
