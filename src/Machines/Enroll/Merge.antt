-- ===== src/Machines/Enroll/Merge.antt =====
-- registry.py: `_merge_legacy_machine`, the entry that takes over another's.
use codex_remote_runner.Prelude.{
  Option-cases, any, contains, unique, contains-unique, contains-append, string_eq, ◌==◌, nat_eq,
  beq_self, eq_of_beq, beq_of_ne, Result, ok, ◌>>◌, >>=-eq-ok, ok_injective, passed, get, put,
  get-put, get-remove, get-put_self, ℕ, String, ◌≡◌, refl, sym, ap, ◌∙◌, subst, ◌≢◌, inl, inr, true,
  false, ◌||◌, Option, none, some, List, [], ◌∷◌, ◌++◌, arith,
}
use codex_remote_runner.Text.{str_le}
use codex_remote_runner.Sort.{sort_by, sort_by-any}
use codex_remote_runner.Machines.{Machine, Machines, conflicting, validate_machine_inventory}
use codex_remote_runner.Machines.Enroll.{
  is_explicit, or_else, sorted_set, merged_target, merge_legacy_machine,
}

-- What the set of a list holds.
contains-sorted_set : (xs : List String) (x : String) → contains (sorted_set xs) x ≡ contains xs x
contains-sorted_set xs x =
    contains-any (sort_by str_le (unique xs))
    ∙ sort_by-any str_le (λ y. y == x) (unique xs)
    ∙ sym (contains-any (unique xs))
    ∙ contains-unique xs x
  where
    contains-any : (ys : List String) → contains ys x ≡ any (λ y. y == x) ys
    contains-any [] = refl
    contains-any (y ∷ ys) = ap (λ rest. y == x || rest) (contains-any ys)

-- A machine that took over another's entry: its names are the machine's, and so is its id.
pub record HasTakenOver (legacy_id : String) (legacy target : Machine) : Type 0 where
  pub aliases :
      (alias : String) → contains legacy.aliases alias ≡ true → contains target.aliases alias ≡ true
  pub former_ids :
      (id : String)
      → contains legacy.legacy_machine_ids id ≡ true
      → contains target.legacy_machine_ids id ≡ true
  pub former_id : contains target.legacy_machine_ids legacy_id ≡ true
  pub fingerprint :
      (f : String) → legacy.machine_fingerprint ≡ some f → target.machine_fingerprint ≡ some f
  pub is_explicit_now : is_explicit target.identity_source ≡ true

-- A fingerprint that does not contradict the others stays.
fingerprint_kept :
    (a b c : Option String) (f : String)
    → conflicting b c ≡ false
    → conflicting a (or_else c b) ≡ false
    → b ≡ some f
    → or_else a (or_else b c) ≡ some f
fingerprint_kept a none c f h k q = cc
fingerprint_kept none (some g) c f h k q = q
fingerprint_kept (some x) (some g) none f h k q = ap some (eq_of_beq x g (ground (arith, k))) ∙ q
fingerprint_kept (some x) (some g) (some y) f h k q =
    ap some (eq_of_beq x y (ground (arith, k)) ∙ sym (eq_of_beq g y (ground (arith, h)))) ∙ q

validated_fingerprint :
    (machine : Machine) (fingerprint : Option String) (cores : ℕ) (memory_gb : Option ℕ)
    {A : Type 0} (rest : Result A) (a : A)
    → (validate_machine_inventory machine fingerprint cores memory_gb >> rest) ≡ ok a
    → (conflicting machine.machine_fingerprint fingerprint ≡ false) × (rest ≡ ok a)
unfolding validate_machine_inventory
validated_fingerprint machine fingerprint cores memory_gb rest a e =
    let (checked, valid, e1) =
      >>=-eq-ok (validate_machine_inventory machine fingerprint cores memory_gb) _ e in
    ((passed (conflicting machine.machine_fingerprint fingerprint) _ _ valid).0, e1)

merged_target-HasTakenOver :
    (now legacy_id : String) (legacy : Machine) (target : Option Machine)
    (fingerprint : Option String) (cores : ℕ) (memory_gb : Option ℕ) (merged : Machine)
    → conflicting legacy.machine_fingerprint fingerprint ≡ false
    → merged_target now legacy_id legacy target fingerprint cores memory_gb ≡ ok merged
    → HasTakenOver legacy_id legacy merged
unfolding merged_target
merged_target-HasTakenOver now legacy_id legacy none fingerprint cores memory_gb merged c e =
    let ids = legacy.legacy_machine_ids in
    let held = λ (id : String).
      contains-sorted_set (ids ++ (legacy_id ∷ [])) id ∙ contains-append ids (legacy_id ∷ []) id in
    subst (HasTakenOver legacy_id legacy) (ok_injective _ _ e) (record {
      aliases = λ alias h. h;
      former_ids = λ id h. held id ∙ ground (arith, h);
      former_id = held legacy_id ∙ ground (arith, beq_self legacy_id);
      fingerprint = λ f h. h;
      is_explicit_now = refl;
    })
merged_target-HasTakenOver now legacy_id legacy (some target) fingerprint cores memory_gb merged c
      e =
    let (c', e1) =
      validated_fingerprint target (or_else fingerprint legacy.machine_fingerprint) cores
        (or_else memory_gb legacy.configured_memory_gb) _ merged e in
    let ids = legacy.legacy_machine_ids in
    let held = λ (id : String).
      contains-sorted_set (target.legacy_machine_ids ++ (ids ++ (legacy_id ∷ []))) id
      ∙ contains-append target.legacy_machine_ids (ids ++ (legacy_id ∷ [])) id
      ∙ ap (λ b. contains target.legacy_machine_ids id || b)
          (contains-append ids (legacy_id ∷ []) id) in
    subst (HasTakenOver legacy_id legacy) (ok_injective _ _ e1) (record {
      aliases = λ alias h.
          contains-sorted_set (target.aliases ++ legacy.aliases) alias
          ∙ contains-append target.aliases legacy.aliases alias
          ∙ ground (arith, h);
      former_ids = λ id h. held id ∙ ground (arith, h);
      former_id = held legacy_id ∙ ground (arith, beq_self legacy_id);
      fingerprint = λ f h.
          fingerprint_kept target.machine_fingerprint legacy.machine_fingerprint fingerprint f c c'
            h;
      is_explicit_now = refl;
    })

pub record IsMerged (machines merged : Machines) (legacy_id target_id : String) : Type 0 where
  pub legacy : Machine
  pub target : Machine
  pub was : get machines legacy_id ≡ some legacy
  pub legacy_source : is_explicit legacy.identity_source ≡ false
  pub now_is : get merged target_id ≡ some target
  pub taken_over : HasTakenOver legacy_id legacy target
  pub gone : get merged legacy_id ≡ none
  pub others :
      (other : String)
      → other ≢ legacy_id
      → other ≢ target_id
      → get merged other ≡ get machines other

-- A merge that succeeds moves a machine that was known by a server's name into another entry: the
-- entry holds every alias and every former id of the machine, its id, and its fingerprint, and is
-- explicit. The machine's own entry is gone, and every other entry is as before.
pub merge_legacy_machine-IsMerged :
    (now : String) (machines merged : Machines) (legacy_id target_id : String)
    (fingerprint : Option String) (cores : ℕ) (memory_gb : Option ℕ)
    → legacy_id ≢ target_id
    → merge_legacy_machine now machines legacy_id target_id fingerprint cores memory_gb ≡ ok merged
    → IsMerged machines merged legacy_id target_id
unfolding merge_legacy_machine
merge_legacy_machine-IsMerged now machines merged legacy_id target_id fingerprint cores memory_gb ne
      e =
    elim (Option-cases (get machines legacy_id)) [
      | inl missing ↦ cc (rw (missing, merge_legacy_machine) at e)
      | inr (legacy, found) ↦
          let (source, e1) =
            passed (is_explicit legacy.identity_source) _ _
              (rw (found, merge_legacy_machine) at e) in
          let (c, e2) = validated_fingerprint legacy fingerprint cores memory_gb _ merged e1 in
          let (target, t, e3) =
            >>=-eq-ok
              (merged_target now legacy_id legacy (get machines target_id) fingerprint cores
                memory_gb)
              _ e2 in
          let apart = beq_of_ne legacy_id target_id ne in
          let result = ok_injective _ _ (rw apart at e3) in
          subst (λ m. IsMerged machines m legacy_id target_id) result
            (record {
              legacy = legacy;
              target = target;
              was = found;
              legacy_source = source;
              now_is =
                  get-remove (put machines target_id target) legacy_id target_id
                  ∙ rw apart (get-put_self machines target_id target);
              taken_over =
                  merged_target-HasTakenOver now legacy_id legacy (get machines target_id)
                    fingerprint cores memory_gb target c t;
              gone =
                  get-remove (put machines target_id target) legacy_id legacy_id
                  ∙ rw (beq_self legacy_id) refl;
              others = λ other n m.
                  get-remove (put machines target_id target) legacy_id other
                  ∙ rw (beq_of_ne legacy_id other (λ q. n (sym q))) (
                      get-put machines target_id other target
                      ∙ rw (beq_of_ne target_id other (λ q. m (sym q))) refl);
            })
    ]
