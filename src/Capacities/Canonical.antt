-- ===== src/Capacities/Canonical.antt =====
-- registry.py: the entries that `_canonicalize_capacities_unlocked` gives.
use codex_remote_runner.Prelude.{
  ltb, Bool-cases, All, All-imp, string_eq, nat_eq, beq_self, ok, >>=-eq-ok, >>=-ok, ok_injective,
  passed, Dict, get, has, put, get-absent, put-absent, put-All, get-All, has_distinct_keys,
  put-distinct, has-append, String, ◌≡◌, refl, sym, ap, ◌∙◌, subst, inl, inr, Bool, true, false,
  not, ◌&&◌, ◌||◌, Option, none, some, [], ◌∷◌, ◌++◌, append-nil, append_assoc, arith,
}
use codex_remote_runner.Text.{is_project_id}
use codex_remote_runner.Machines.{Machines, canonical_machine_id}
use codex_remote_runner.Machines.Canonical.{
  canonical_machine_id-known, canonical_machine_id-idempotent,
}
use codex_remote_runner.Machines.Inventory.{StoredMachine, load_machine_identities}
use codex_remote_runner.Machines.Inventory.Keys.{load_machine_identities-valid}
use codex_remote_runner.Sort.{sort_by, sort_by-All, sort_by-distinct}
use codex_remote_runner.Machines.Enroll.{by_id}
use codex_remote_runner.Capacities.{
  Capacity, Capacities, check_values, check_capacity, load_server_capacities, same_flag, selected,
  merged_capacity, canonicalize, canonicalize_capacities,
}

-- A machine's own id, which is a name.
abbrev pub IsOwn : Machines → String → Type 0
IsOwn machines id = (canonical_machine_id machines id ≡ ok id) × (is_project_id id ≡ true)

abbrev pub IsValid : Capacity → Type 0
IsValid capacity = check_values capacity ≡ ok tt

-- One valid entry for each machine, under the machine's own id.
abbrev pub IsWellFormed : Machines → Capacities → Type 0
IsWellFormed machines servers =
    (has_distinct_keys servers ≡ true)
    × All (λ entry. IsOwn machines entry.0 × IsValid entry.1) servers

-- Entries that can be read.
abbrev pub IsReadable : Capacities → Type 0
IsReadable = All λ entry. (is_project_id entry.0 ≡ true) × IsValid entry.1

check_capacity-ok :
    (name : String) (capacity : Capacity)
    → check_capacity name capacity ≡ ok tt
    → (is_project_id name ≡ true) × IsValid capacity
unfolding check_capacity
check_capacity-ok name capacity e =
    let (named, e1) = passed (not (is_project_id name)) _ _ e in (ground (arith, named), e1)

pub load_server_capacities-ok :
    (entries servers : Capacities)
    → load_server_capacities entries ≡ ok servers
    → (servers ≡ entries) × IsReadable entries
unfolding load_server_capacities
load_server_capacities-ok [] servers e = (sym (ok_injective _ _ e), tt)
load_server_capacities-ok ((name, capacity) ∷ entries) servers e =
    let (_, checked, e1) = >>=-eq-ok (check_capacity name capacity) _ e in
    let (rest, loaded_rest, e2) = >>=-eq-ok (load_server_capacities entries) _ e1 in
    let (same_rest, readable) = load_server_capacities-ok entries rest loaded_rest in
    (
      sym (ok_injective _ _ e2) ∙ ap (λ x. (name, capacity) ∷ x) same_rest,
      (check_capacity-ok name capacity checked, readable),
    )

pub load_server_capacities-readable :
    (entries : Capacities) → IsReadable entries → load_server_capacities entries ≡ ok entries
unfolding load_server_capacities check_capacity
load_server_capacities-readable [] r = refl
load_server_capacities-readable ((name, capacity) ∷ entries) ((named, valid), r) =
    rw (named, valid, load_server_capacities-readable entries r) refl

-- The id of an entry's machine is a name.
pub canonical-IsOwn :
    (file : Dict String StoredMachine) (machines : Machines) (stored_id machine_id : String)
    → load_machine_identities file ≡ ok machines
    → is_project_id stored_id ≡ true
    → canonical_machine_id machines stored_id ≡ ok machine_id
    → IsOwn machines machine_id
canonical-IsOwn file machines stored_id machine_id read named c = (
  canonical_machine_id-idempotent machines stored_id machine_id c,
  elim (canonical_machine_id-known machines stored_id machine_id c) [
    | inl itself ↦ subst (λ x. is_project_id x ≡ true) itself named
    | inr held ↦ load_machine_identities-valid file machines machine_id read held
  ],
)

selected-IsValid :
    (current capacity : Capacity)
    → IsValid current
    → IsValid capacity
    → IsValid (selected current capacity)
selected-IsValid current capacity c d =
    elim (Bool-cases (capacity.customized && not current.customized)) [
      | inl first ↦ rw first d
      | inr not_first ↦
          rw not_first
            (elim (Bool-cases (
              same_flag capacity.customized current.customized
              && ltb current.revision capacity.revision)) [
                | inl later ↦ rw later d
                | inr earlier ↦ rw earlier c
              ])
    ]

merged-IsValid :
    (current : Option Capacity) (capacity entry : Capacity)
    → ((stored_entry : Capacity) → current ≡ some stored_entry → IsValid stored_entry)
    → IsValid capacity
    → merged_capacity current capacity ≡ ok entry
    → IsValid entry
unfolding merged_capacity
merged-IsValid none capacity entry h valid m = subst IsValid (ok_injective _ _ m) valid
merged-IsValid (some current) capacity entry h valid m =
    let (_, e) = passed _ _ _ m in
    subst IsValid (ok_injective _ _ e) (selected-IsValid current capacity (h current refl) valid)

pub put-IsWellFormed :
    (machines : Machines) (servers : Capacities) (id : String) (capacity : Capacity)
    → IsOwn machines id
    → IsValid capacity
    → IsWellFormed machines servers
    → IsWellFormed machines (put servers id capacity)
put-IsWellFormed machines servers id capacity own valid (distinct_keys, entries) = (
  put-distinct servers id capacity distinct_keys,
  put-All (IsOwn machines) IsValid servers id capacity own valid entries,
)

-- What canonicalization gives is well-formed.
pub canonicalize-IsWellFormed :
    (file : Dict String StoredMachine) (machines : Machines) (servers canonical : Capacities)
    (changed : Bool) (answer : Capacities × Bool)
    → load_machine_identities file ≡ ok machines
    → IsReadable servers
    → IsWellFormed machines canonical
    → canonicalize machines servers canonical changed ≡ ok answer
    → IsWellFormed machines answer.0
unfolding canonicalize
canonicalize-IsWellFormed file machines [] canonical changed answer read r w e =
    subst (λ a. IsWellFormed machines a.0) (ok_injective _ _ e) w
canonicalize-IsWellFormed file machines ((stored_id, capacity) ∷ servers) canonical changed answer
      read ((named, valid), r) w e =
    let (id, c, e1) = >>=-eq-ok (canonical_machine_id machines stored_id) _ e in
    let (entry, m, e2) = >>=-eq-ok (merged_capacity (get canonical id) capacity) _ e1 in
    let own = canonical-IsOwn file machines stored_id id read named c in
    let stored_valid = λ (current : Capacity) (found : get canonical id ≡ some current).
      (get-All (λ x. IsOwn machines x.0 × IsValid x.1) canonical id current w.1 found).1 in
    canonicalize-IsWellFormed file machines servers (put canonical id entry) _ answer read r
      (put-IsWellFormed machines canonical id entry own
        (merged-IsValid (get canonical id) capacity entry stored_valid valid m) w)
      e2

pub canonicalize_capacities-IsWellFormed :
    (file : Dict String StoredMachine) (machines : Machines) (servers : Capacities)
    (answer : Capacities × Bool)
    → load_machine_identities file ≡ ok machines
    → IsReadable servers
    → canonicalize_capacities machines servers ≡ ok answer
    → IsWellFormed machines answer.0
unfolding canonicalize_capacities
canonicalize_capacities-IsWellFormed file machines servers answer read r e =
    canonicalize-IsWellFormed file machines servers [] false answer read r (refl, tt) e

or_false : (b : Bool) → (b || false) ≡ b
or_false b = ground arith

-- Well-formed entries stay as they are.
canonicalize-append :
    (machines : Machines) (servers canonical : Capacities) (changed : Bool)
    → IsWellFormed machines servers
    → All (λ entry. has canonical entry.0 ≡ false) servers
    → canonicalize machines servers canonical changed ≡ ok (canonical ++ servers, changed)
unfolding canonicalize merged_capacity
canonicalize-append machines [] canonical changed w a =
    ap (λ x. ok (x, changed)) (sym (append-nil canonical))
canonicalize-append machines ((id, capacity) ∷ servers) canonical changed (d, ((own, _), w))
      (fresh, a) =
    let canonical' = canonical ++ ((id, capacity) ∷ []) in
    >>=-ok _ own.0
    ∙ >>=-ok _ (ap (λ o. merged_capacity o capacity) (get-absent canonical id fresh))
    ∙ rw (beq_self id, fresh, or_false changed, put-absent canonical id capacity fresh)
        (canonicalize-append machines servers canonical' changed (ground (arith, d), w)
            (still_fresh servers (ground (arith, d)) a)
          ∙ ap (λ x. ok (x, changed)) (append_assoc canonical ((id, capacity) ∷ []) servers))
  where
    still_fresh :
        (servers : Capacities)
        → has servers id ≡ false
        → All (λ entry. has canonical entry.0 ≡ false) servers
        → All (λ entry. has (canonical ++ ((id, capacity) ∷ [])) entry.0 ≡ false) servers
    still_fresh [] h a = tt
    still_fresh ((other, v) ∷ servers) h (f, a) = (
      has-append canonical ((id, capacity) ∷ []) other
          ∙ ground (arith, f, h, string_eq.beq_iff id other, string_eq.beq_iff other id),
      still_fresh servers (ground (arith, h)) a,
    )

-- The canonical form of well-formed entries is themselves.
pub canonicalize_capacities-fixed :
    (machines : Machines) (servers : Capacities)
    → IsWellFormed machines servers
    → canonicalize_capacities machines servers ≡ ok (servers, false)
unfolding canonicalize_capacities
canonicalize_capacities-fixed machines servers w =
    canonicalize-append machines servers [] false w (all_fresh servers)
  where
    all_fresh : (rows : Capacities) → All (λ entry. has {V = Capacity} [] entry.0 ≡ false) rows
    all_fresh [] = tt
    all_fresh (entry ∷ servers) = (refl, all_fresh servers)

-- Well-formed entries can be written in the order of their ids and be read again.
pub IsWellFormed-sorted :
    (machines : Machines) (servers : Capacities)
    → IsWellFormed machines servers
    → IsWellFormed machines (sort_by by_id servers) × IsReadable (sort_by by_id servers)
IsWellFormed-sorted machines servers (d, w) =
    let entries = sort_by-All by_id (λ entry. IsOwn machines entry.0 × IsValid entry.1) servers w in
    (
      (sort_by-distinct by_id servers d, entries),
      All-imp (λ entry. IsOwn machines entry.0 × IsValid entry.1)
          (λ (entry : String × Capacity). (is_project_id entry.0 ≡ true) × IsValid entry.1)
          (λ entry ok_entry. (ok_entry.0.1, ok_entry.1)) (sort_by by_id servers) entries,
    )
