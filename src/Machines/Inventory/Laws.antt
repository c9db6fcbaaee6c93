-- ===== src/Machines/Inventory/Laws.antt =====
-- registry.py: what `_load_machine_identities_unlocked` lets through.
use codex_remote_runner.Prelude.{
  if◌then◌else◌, Bool-cases, any, All, All-imp, contains, distinct, All-contains, string_eq, ◌==◌,
  nat_eq, eq_of_beq, Error, value_error, ok, >>=-eq-ok, ok_injective, passed, Dict, get, has, put,
  get-put, get-put_self, keys, get-absent, get-present, get_or, is_some_text, String, ◌≡◌, refl,
  sym, ap, ◌∙◌, subst, inl, inr, Bool, true, false, not, Option, none, some, List, [], ◌∷◌, arith,
}
use codex_remote_runner.Text.{str_le}
use codex_remote_runner.Sort.{sort_by-All}
use codex_remote_runner.Machines.{
  Machine, Machines, ids_where, sole, machine_alias_owner, machine_fingerprint_owner,
  canonical_machine_id,
}
use codex_remote_runner.Machines.Inventory.{
  StoredMachine, Seen, bind_names, fingerprint_names, check_stored, check_legacy, loaded,
  see_machine, load_entries, nothing_seen, load_machine_identities,
}

-- A table that holds at least the bindings of another.
abbrev Extends : Dict String String → Dict String String → Type 0
Extends seen seen' = (k v : String) → get seen k ≡ some v → get seen' k ≡ some v

abbrev bound : String → String → Dict String String → Dict String String
bound machine_id name seen = if has seen name then seen else put seen name machine_id

bound-Extends :
    (machine_id name : String) (seen : Dict String String)
    → Extends seen (bound machine_id name seen)
bound-Extends machine_id name seen k v h = elim (Bool-cases (has seen name)) [
  | inl known ↦ rw known h
  | inr fresh ↦ ground (
    arith,
    h,
    fresh,
    get-absent seen name fresh,
    get-put seen name k machine_id,
    string_eq.beq_iff name k,
  )
]

bound-binds :
    (machine_id name : String) (seen : Dict String String)
    → (get_or (get seen name) machine_id == machine_id) ≡ true
    → get (bound machine_id name seen) name ≡ some machine_id
bound-binds machine_id name seen h = elim (Bool-cases (has seen name)) [
  | inr fresh ↦ rw fresh (get-put_self seen name machine_id)
  | inl known ↦
      let (v, found) = get-present seen name known in
      rw known (found ∙ ap some (eq_of_beq v machine_id (rw found at h)))
]

-- Names that are bound without an error belong to the machine, and the earlier ones stay.
bind_names-ok :
    (message machine_id : String) (names : List String) (seen seen' : Dict String String)
    → bind_names message machine_id names seen ≡ ok seen'
    → Extends seen seen' × All (λ name. get seen' name ≡ some machine_id) names
unfolding bind_names
bind_names-ok message machine_id [] seen seen' e =
    (λ k v h. subst (λ d. get d k ≡ some v) (ok_injective _ _ e) h, tt)
bind_names-ok message machine_id (name ∷ names) seen seen' e =
    let (free, rest) =
      passed (not (get_or (get seen name) machine_id == machine_id)) (value_error message) _ e in
    let (extends, binds) =
      bind_names-ok message machine_id names (bound machine_id name seen) seen' rest in
    (
      λ k v h. extends k v (bound-Extends machine_id name seen k v h),
      (extends name machine_id (bound-binds machine_id name seen (ground (arith, free))), binds),
    )

-- The names of a machine are all bound to its id.
abbrev IsBound : Seen → String × Machine → Type 0
IsBound seen entry =
    All (λ alias. get seen.aliases alias ≡ some entry.0) entry.1.aliases
    × All (λ id. get seen.legacy_ids id ≡ some entry.0) entry.1.legacy_machine_ids
    × All (λ f. get seen.fingerprints f ≡ some entry.0)
        (fingerprint_names entry.1.machine_fingerprint)

-- So are the former ids of an entry of the file.
abbrev FormerBound : Seen → String × StoredMachine → Type 0
FormerBound seen entry =
    All (λ id. get seen.legacy_ids id ≡ some entry.0) entry.1.legacy_machine_ids

abbrev SeenExtends : Seen → Seen → Type 0
SeenExtends seen seen' =
    Extends seen.aliases seen'.aliases
    × Extends seen.legacy_ids seen'.legacy_ids
    × Extends seen.fingerprints seen'.fingerprints

see_machine-ok :
    (machine_id : String) (raw : StoredMachine) (seen seen' : Seen)
    → see_machine machine_id raw seen ≡ ok seen'
    → SeenExtends seen seen'
      × IsBound seen' (machine_id, loaded machine_id raw)
      × FormerBound seen' (machine_id, raw)
unfolding see_machine
see_machine-ok machine_id raw seen seen' e =
    let (_, _, e1) = >>=-eq-ok (check_stored machine_id raw) _ e in
    let (aliases, a, e2) =
      >>=-eq-ok
        (bind_names "machine alias is bound to multiple machine IDs" machine_id raw.aliases
          seen.aliases)
        _ e1 in
    let (_, _, e3) = >>=-eq-ok (check_legacy machine_id raw.legacy_machine_ids) _ e2 in
    let (legacy_ids, l, e4) =
      >>=-eq-ok
        (bind_names "legacy machine_id maps to multiple machine IDs" machine_id
          raw.legacy_machine_ids seen.legacy_ids)
        _ e3 in
    let (fingerprints, f, e5) =
      >>=-eq-ok
        (bind_names "one physical machine fingerprint is bound to multiple machine IDs" machine_id
          (fingerprint_names raw.machine_fingerprint) seen.fingerprints)
        _ e4 in
    let (ea, ba) = bind_names-ok _ machine_id raw.aliases seen.aliases aliases a in
    let (el, bl) = bind_names-ok _ machine_id raw.legacy_machine_ids seen.legacy_ids legacy_ids l in
    let (ef, bf) =
      bind_names-ok _ machine_id (fingerprint_names raw.machine_fingerprint) seen.fingerprints
        fingerprints f in
    subst
      (λ s.
        SeenExtends seen s
        × IsBound s (machine_id, loaded machine_id raw)
        × FormerBound s (machine_id, raw))
      (ok_injective _ _ e5)
      (
        (ea, el, ef),
        (
          sort_by-All str_le (λ alias. get aliases alias ≡ some machine_id) raw.aliases ba,
          sort_by-All str_le (λ id. get legacy_ids id ≡ some machine_id) raw.legacy_machine_ids bl,
          bf,
        ),
        bl,
      )

abbrev EntriesLoaded : Seen → Dict String StoredMachine → Machines × Seen → Type 0
EntriesLoaded seen entries answer =
    SeenExtends seen answer.1
    × All (IsBound answer.1) answer.0
    × All (FormerBound answer.1) entries
    × (keys answer.0 ≡ keys entries)

load_entries-ok :
    (entries : Dict String StoredMachine) (seen : Seen) (answer : Machines × Seen)
    → load_entries entries seen ≡ ok answer
    → EntriesLoaded seen entries answer
unfolding load_entries
load_entries-ok [] seen answer e =
    subst (EntriesLoaded seen []) (ok_injective _ _ e)
      (((λ k v h. h), (λ k v h. h), (λ k v h. h)), tt, tt, refl)
load_entries-ok ((machine_id, raw) ∷ entries) seen answer e =
    let (seen', seen_one, e1) = >>=-eq-ok (see_machine machine_id raw seen) _ e in
    let (later, others, e2) = >>=-eq-ok (load_entries entries seen') _ e1 in
    let ((fa, fl, ff), (ba, bl, bf), former) = see_machine-ok machine_id raw seen seen' seen_one in
    let ((ga, gl, gf), rest, formers, names) = load_entries-ok entries seen' later others in
    let m = loaded machine_id raw in
    subst (EntriesLoaded seen ((machine_id, raw) ∷ entries)) (ok_injective _ _ e2) (
      (λ k v h. ga k v (fa k v h), λ k v h. gl k v (fl k v h), λ k v h. gf k v (ff k v h)),
      (
        (
          All-imp (λ x. get seen'.aliases x ≡ some machine_id)
              (λ x. get later.1.aliases x ≡ some machine_id) (λ x. ga x machine_id) m.aliases ba,
          All-imp (λ x. get seen'.legacy_ids x ≡ some machine_id)
              (λ x. get later.1.legacy_ids x ≡ some machine_id) (λ x. gl x machine_id)
              m.legacy_machine_ids bl,
          All-imp (λ x. get seen'.fingerprints x ≡ some machine_id)
              (λ x. get later.1.fingerprints x ≡ some machine_id) (λ x. gf x machine_id)
              (fingerprint_names m.machine_fingerprint) bf,
        ),
        rest,
      ),
      (
        All-imp (λ x. get seen'.legacy_ids x ≡ some machine_id)
            (λ x. get later.1.legacy_ids x ≡ some machine_id) (λ x. gl x machine_id)
            raw.legacy_machine_ids former,
        formers,
      ),
      ap (λ x. machine_id ∷ x) names,
    )

-- A list of one name at most.
ids_where-distinct :
    (p : Machine → Bool) (machines : Machines)
    → distinct (keys machines) ≡ true
    → (distinct (ids_where p machines) ≡ true)
      × ((id : String)
          → contains (keys machines) id ≡ false
          → contains (ids_where p machines) id ≡ false)
ids_where-distinct p [] d = (refl, λ id h. refl)
ids_where-distinct p ((id, m) ∷ machines) d =
    let (rest, absent) = ids_where-distinct p machines (ground (arith, d)) in
    let fresh = absent id (ground (arith, d)) in
    (ground (arith, rest, fresh), λ other h. ground (arith, h, absent other))

sole_bound :
    (ids : List String) (v : String) (e : Error)
    → distinct ids ≡ true
    → All (λ id. id ≡ v) ids
    → (owner : Option String) × (sole ids e ≡ ok owner)
sole_bound [] v e d h = (none, refl)
sole_bound (x ∷ []) v e d h = (some x, refl)
sole_bound (x ∷ y ∷ ids) v e d (a, (b, h)) =
    ground (arith, d, (string_eq.beq_iff y x).1 (b ∙ sym a))

ids_where-All :
    (p : Machine → Bool) (machines : Machines) (P : String → Type 0)
    → All (λ entry. p entry.1 ≡ true → P entry.0) machines
    → All P (ids_where p machines)
ids_where-All p [] P h = tt
ids_where-All p ((id, m) ∷ machines) P h = elim (Bool-cases (p m)) [
  | inl holds ↦ rw holds (h.0 holds, ids_where-All p machines P h.1)
  | inr fails ↦ rw fails (ids_where-All p machines P h.1)
]

-- A question has one answer at most if all machines that give one are bound to it in a table.
one_answer :
    (p : Machine → Bool) (machines : Machines) (table : Dict String String) (name : String)
    (e : Error)
    → distinct (keys machines) ≡ true
    → All (λ entry. p entry.1 ≡ true → get table name ≡ some entry.0) machines
    → (owner : Option String) × (sole (ids_where p machines) e ≡ ok owner)
one_answer p machines table name e d h =
    sole_bound (ids_where p machines) (get_or (get table name) "") e
      (ids_where-distinct p machines d).0
      (ids_where-All p machines (λ id. id ≡ get_or (get table name) "")
        (All-imp (λ (entry : String × Machine). p entry.1 ≡ true → get table name ≡ some entry.0)
          (λ (entry : String × Machine). p entry.1 ≡ true → entry.0 ≡ get_or (get table name) "")
          (λ entry bound_to holds. ap (λ found. get_or found "") (sym (bound_to holds))) machines
          h))

-- Every question about the owner of a name has an answer, and no id in use is a former one.
pub record IsUnambiguous (machines : Machines) : Type 0 where
  pub alias_owner :
      (alias : String) → (owner : Option String) × (machine_alias_owner machines alias ≡ ok owner)
  pub fingerprint_owner :
      (fingerprint : Option String)
      → (owner : Option String) × (machine_fingerprint_owner machines fingerprint ≡ ok owner)
  pub canonical_id :
      (id : String) → (canonical : String) × (canonical_machine_id machines id ≡ ok canonical)
  pub apart : All (λ entry. All (λ id. has machines id ≡ false) entry.1.legacy_machine_ids) machines

no_conflict :
    (machines : Machines) (seen : Dict String String) (id owner : String)
    → any (λ entry. has machines entry.0) seen ≡ false
    → get seen id ≡ some owner
    → has machines id ≡ false
no_conflict machines [] id owner q h = cc
no_conflict machines ((j, v) ∷ seen) id owner q h = elim (Bool-cases (j == id)) [
  | inl same ↦ subst (λ x. has machines x ≡ false) (eq_of_beq j id same) (ground (arith, q))
  | inr other ↦ no_conflict machines seen id owner (ground (arith, q)) (rw other at h)
]

is_some_text-fingerprint_names :
    (f : String) (o : Option String)
    → is_some_text f o ≡ true
    → contains (fingerprint_names o) f ≡ true
is_some_text-fingerprint_names f none h = cc
is_some_text-fingerprint_names f (some g) h = ground (arith, h)

bound-IsUnambiguous :
    (machines : Machines) (seen : Seen)
    → distinct (keys machines) ≡ true
    → any (λ entry. has machines entry.0) seen.legacy_ids ≡ false
    → All (IsBound seen) machines
    → IsUnambiguous machines
unfolding machine_alias_owner machine_fingerprint_owner canonical_machine_id
bound-IsUnambiguous machines seen d quiet h = record {
  alias_owner = λ alias.
      one_answer (λ m. contains m.aliases alias) machines seen.aliases alias _ d
        (All-imp (IsBound seen)
          (λ (x : String × Machine).
            contains x.1.aliases alias ≡ true → get seen.aliases alias ≡ some x.0)
          (λ x b. All-contains (λ name. get seen.aliases name ≡ some x.0) x.1.aliases alias b.0)
          machines h);
  fingerprint_owner = λ fingerprint.
      elim fingerprint
        as (λ o. (owner : Option String) × (machine_fingerprint_owner machines o ≡ ok owner)) [
          | none ↦ (none, refl)
          | some f ↦
              one_answer (λ m. is_some_text f m.machine_fingerprint) machines seen.fingerprints f _
                d
                (All-imp (IsBound seen)
                  (λ (x : String × Machine).
                    is_some_text f x.1.machine_fingerprint ≡ true
                    → get seen.fingerprints f ≡ some x.0)
                  (λ x b same.
                    All-contains (λ name. get seen.fingerprints name ≡ some x.0)
                      (fingerprint_names x.1.machine_fingerprint) f b.2
                      (is_some_text-fingerprint_names f x.1.machine_fingerprint same))
                  machines h)
        ];
  canonical_id = λ id. elim (Bool-cases (has machines id)) [
    | inl known ↦ rw known (id, refl)
    | inr other ↦
        let (owner, found) =
          one_answer (λ m. contains m.legacy_machine_ids id) machines seen.legacy_ids id
            (value_error "legacy machine_id is ambiguous") d
            (All-imp (IsBound seen)
              (λ (x : String × Machine).
                contains x.1.legacy_machine_ids id ≡ true → get seen.legacy_ids id ≡ some x.0)
              (λ x b.
                All-contains (λ name. get seen.legacy_ids name ≡ some x.0) x.1.legacy_machine_ids id
                  b.1)
              machines h) in
        rw (other, found) (get_or owner id, refl)
  ];
  apart =
      All-imp (IsBound seen)
        (λ (x : String × Machine). All (λ id. has machines id ≡ false) x.1.legacy_machine_ids)
        (λ x b.
          All-imp (λ id. get seen.legacy_ids id ≡ some x.0) (λ id. has machines id ≡ false)
            (λ id. no_conflict machines seen.legacy_ids id x.0 quiet) x.1.legacy_machine_ids b.1)
        machines h;
}

-- A registry that is loaded from a mapping answers every question about the owner of an alias, of a
-- fingerprint, and of an id, and none of its ids is a former id of a machine.
pub load_machine_identities-IsUnambiguous :
    (file : Dict String StoredMachine) (machines : Machines)
    → distinct (keys file) ≡ true
    → load_machine_identities file ≡ ok machines
    → IsUnambiguous machines
unfolding load_machine_identities
load_machine_identities-IsUnambiguous file machines d e =
    let (answer, read, e1) = >>=-eq-ok (load_entries file nothing_seen) _ e in
    let (quiet, e2) = passed (any (λ entry. has answer.0 entry.0) answer.1.legacy_ids) _ _ e1 in
    let (_, bound_all, _, names) = load_entries-ok file nothing_seen answer read in
    let d' : distinct (keys answer.0) ≡ true = rw names d in
    subst IsUnambiguous (ok_injective _ _ e2)
      (bound-IsUnambiguous answer.0 answer.1 d' quiet bound_all)

has-keys :
    {A B : Type 0} (d : Dict String A) (d' : Dict String B) (k : String)
    → keys d ≡ keys d'
    → has d k ≡ has d' k
has-keys d d' k h = has-contains d k ∙ ap (λ ids. contains ids k) h ∙ sym (has-contains d' k)
  where
    has-contains : {A : Type 0} (d : Dict String A) (k : String) → has d k ≡ contains (keys d) k
    has-contains [] k = refl
    has-contains ((j, v) ∷ d) k = ground (arith, has-contains d k)

abbrev pub former_in : String → Dict String StoredMachine → Bool
former_in id = any λ entry. contains entry.1.legacy_machine_ids id

-- Of a file that loads, no former id of a machine is the id of an entry.
pub load_machine_identities-apart :
    (file : Dict String StoredMachine) (machines : Machines) (id : String)
    → load_machine_identities file ≡ ok machines
    → former_in id file ≡ true
    → has file id ≡ false
unfolding load_machine_identities
load_machine_identities-apart file machines id e =
    let (answer, read, e1) = >>=-eq-ok (load_entries file nothing_seen) _ e in
    let (quiet, e2) = passed (any (λ entry. has answer.0 entry.0) answer.1.legacy_ids) _ _ e1 in
    let (_, _, formers, names) = load_entries-ok file nothing_seen answer read in
    λ h. sym (has-keys answer.0 file id names) ∙ among answer.0 answer.1 quiet file formers h
  where
    among :
        (machines : Machines) (seen : Seen)
        → any (λ entry. has machines entry.0) seen.legacy_ids ≡ false
        → (entries : Dict String StoredMachine) → All (FormerBound seen) entries
        → former_in id entries ≡ true
        → has machines id ≡ false
    among machines seen quiet [] formers h = cc
    among machines seen quiet ((owner, m) ∷ entries) formers h =
        elim (Bool-cases (contains m.legacy_machine_ids id)) [
          | inl mine ↦ no_conflict machines seen.legacy_ids id owner quiet (
              All-contains (λ x. get seen.legacy_ids x ≡ some owner) m.legacy_machine_ids id
                formers.0 mine)
          | inr others ↦ among machines seen quiet entries formers.1 (rw others at h)
        ]
