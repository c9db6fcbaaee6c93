-- ===== src/Capacities/Defaults.antt =====
-- registry.py: what `ensure_server_capacities` does with the defaults of the servers.
use codex_remote_runner.Prelude.{
  Bool-cases, Option-cases, or_false, filter, string_eq, ◌==◌, nat_eq, eq_of_beq, beq_of_ne,
  ne_of_beq, Result, ok, >>=-eq-ok, ok_injective, Result-cases, Dict, get, put, get-put, ℕ, String,
  ◌≡◌, refl, sym, ap, ◌∙◌, subst, ◌≢◌, ◌⊎◌, inl, inr, Bool, true, false, not, ◌&&◌, ◌||◌, some,
  List, [], ◌∷◌, arith,
}
use codex_remote_runner.Sort.{sort_by}
use codex_remote_runner.Machines.{Machines}
use codex_remote_runner.Machines.Identity.{Server}
use codex_remote_runner.Machines.Inventory.{StoredMachine}
use codex_remote_runner.Machines.Enroll.{by_id, ensure_machine_identities}
use codex_remote_runner.Capacities.Canonical.{load_server_capacities-ok}
use codex_remote_runner.Capacities.{
  Capacity, Capacities, CapacityFiles, load_server_capacities, canonicalize_capacities,
  apply_default, apply_defaults, with_told, map_defaults, read_defaults, ensure_server_capacities,
}

-- The entry of a machine that is not the one a default is about.
put_elsewhere :
    (servers : Capacities) (id k : String) (entry : Capacity)
    → id ≢ k
    → get (put servers id entry) k ≡ get servers k
put_elsewhere servers id k entry ne = get-put servers id k entry ∙ rw (beq_of_ne id k ne) refl

apply_default-customized :
    (now : String) (parsed : String × String × ℕ × ℕ) (servers : Capacities) (k : String)
    (c : Capacity)
    → get servers k ≡ some c
    → c.customized ≡ true
    → get (apply_default now parsed servers).0 k ≡ some c
unfolding apply_default
apply_default-customized now (id, name, a, b) servers k c g h = elim (Bool-cases (id == k)) [
  | inl alike ↦
      let at_id = subst (λ x. get servers x ≡ some c) (sym (eq_of_beq id k alike)) g in
      let kept : (not c.customized && (not (c.standard_slots == a) || not (c.test_slots == b)))
          ≡ false =
        ground (arith, h) in
      rw (at_id, apply_default) (rw kept g)
  | inr other ↦ elim (Option-cases (get servers id)) [
    | inl missing ↦
        rw (missing, apply_default) (put_elsewhere servers id k _ (ne_of_beq id k other) ∙ g)
    | inr (current, found) ↦
        rw (found, apply_default)
          (elim (Bool-cases (
            not current.customized
            && (not (current.standard_slots == a) || not (current.test_slots == b)))) [
              | inl stale ↦ rw stale (put_elsewhere servers id k _ (ne_of_beq id k other) ∙ g)
              | inr kept ↦ rw kept g
            ])
  ]
]

apply_defaults-customized :
    (now : String) (parsed : List (String × String × ℕ × ℕ)) (servers : Capacities) (k : String)
    (c : Capacity)
    → get servers k ≡ some c
    → c.customized ≡ true
    → get (apply_defaults now parsed servers).0 k ≡ some c
unfolding apply_defaults
apply_defaults-customized now [] servers k c g h = g
apply_defaults-customized now (one ∷ rest) servers k c g h =
    apply_defaults-customized now rest (apply_default now one servers).0 k c
      (apply_default-customized now one servers k c g h) h

-- Defaults that change nothing.
apply_default-unchanged :
    (now : String) (parsed : String × String × ℕ × ℕ) (servers : Capacities)
    → (apply_default now parsed servers).1 ≡ false
    → (apply_default now parsed servers).0 ≡ servers
unfolding apply_default
apply_default-unchanged now (id, name, a, b) servers h = elim (Option-cases (get servers id)) [
  | inl missing ↦ cc (rw (missing, apply_default) at h)
  | inr (current, found) ↦
      elim (Bool-cases (
        not current.customized
        && (not (current.standard_slots == a) || not (current.test_slots == b)))) [
          | inl stale ↦ cc (rw stale at (rw (found, apply_default) at h))
          | inr kept ↦ rw (found, apply_default) (rw kept refl)
        ]
]

apply_defaults-unchanged :
    (now : String) (parsed : List (String × String × ℕ × ℕ)) (servers : Capacities)
    → (apply_defaults now parsed servers).1 ≡ false
    → (apply_defaults now parsed servers).0 ≡ servers
unfolding apply_defaults
apply_defaults-unchanged now [] servers h = refl
apply_defaults-unchanged now (one ∷ rest) servers h =
    let (first_kept, rest_kept) = or_false (apply_default now one servers).1 _ h in
    apply_defaults-unchanged now rest (apply_default now one servers).0 rest_kept
    ∙ apply_default-unchanged now one servers first_kept

-- The files after the call, which returned `last`: they hold it, sorted by id, or the entries were
-- canonical and `last` is what they were.
abbrev pub IsKept :
    (paths paths' : CapacityFiles) (machines_path : Dict String StoredMachine)
    (servers last : Capacities) (changed : Bool)
    → Type 0
IsKept paths paths' machines_path servers last changed =
    (paths' ≡ record { machines_path = machines_path; capacities_path = sort_by by_id last })
    ⊎ ((paths' ≡ record paths { machines_path = machines_path })
        × (last ≡ servers)
        × (changed ≡ false))

-- The defaults of the configuration never touch a capacity that was customized: whatever the
-- canonical entry of a machine is before the defaults are applied, with the revision, the slots and
-- the time of its update, a call that returns has it in its result. The file then holds the result,
-- sorted by id; or it is as it was, where it was canonical and the result is what it holds.
pub ensure_server_capacities-customized :
    (now project_id : String) (defaults : List Server) (paths paths' : CapacityFiles)
    (last : Capacities) (machines : Machines) (told_servers : List Server)
    (machines_path : Dict String StoredMachine) (servers : Capacities) (changed : Bool) (k : String)
    (c : Capacity)
    → ensure_machine_identities now project_id
        (filter (λ server. not (server.configured_cores == 0)) defaults)
        paths.machines_path
      ≡ ok (machines, told_servers, machines_path)
    → canonicalize_capacities machines paths.capacities_path ≡ ok (servers, changed)
    → get servers k ≡ some c
    → c.customized ≡ true
    → ensure_server_capacities now project_id defaults paths ≡ (ok last, paths')
    → (get last k ≡ some c) × IsKept paths paths' machines_path servers last changed
unfolding ensure_server_capacities read_defaults
ensure_server_capacities-customized now project_id defaults paths paths' last machines told_servers
      machines_path servers changed k c enrolled canonical g h e =
    elim (Result-cases
      (read_defaults machines (with_told defaults told_servers) paths.capacities_path)) [
        | inl (raised, r) ↦ cc (rw (enrolled, r, ensure_server_capacities) at e)
        | inr (answer, r) ↦
            let (parsed, _, r1) = >>=-eq-ok (map_defaults (with_told defaults told_servers)) _ r in
            let (entries, l, r2) = >>=-eq-ok (load_server_capacities paths.capacities_path) _ r1 in
            let (own, k', r3) = >>=-eq-ok (canonicalize_capacities machines entries) _ r2 in
            let (same_entries, _) = load_server_capacities-ok paths.capacities_path entries l in
            let same_own =
              ok_injective own (servers, changed)
                (sym k' ∙ ap (canonicalize_capacities machines) same_entries ∙ canonical) in
            let same_parts = ok_injective _ _ r3 in
            let same_servers : answer.1 ≡ servers =
              sym (ap (λ (x : List (String × String × ℕ × ℕ) × Capacities × Bool). x.1) same_parts)
              ∙ ap (λ (x : Capacities × Bool). x.0) same_own in
            let same_flag : answer.2 ≡ changed =
              sym (ap (λ (x : List (String × String × ℕ × ℕ) × Capacities × Bool). x.2) same_parts)
              ∙ ap (λ (x : Capacities × Bool). x.1) same_own in
            let e' = rw (enrolled, r, ensure_server_capacities) at e in
            let applied = apply_defaults now answer.0 answer.1 in
            let same_last : applied.0 ≡ last =
              ok_injective _ _ (ap (λ (x : Result Capacities × CapacityFiles). x.0) e') in
            (
              ap (λ l. get l k) (sym same_last)
                  ∙ apply_defaults-customized now answer.0 answer.1 k c
                      (subst (λ s. get s k ≡ some c) (sym same_servers) g) h,
              subst (λ (l : Capacities). IsKept paths paths' machines_path servers l changed)
                  same_last
                  (elim (Bool-cases (answer.2 || applied.1)) [
                    | inl writes ↦ inl (
                        sym (ap (λ (x : Result Capacities × CapacityFiles). x.1) (rw writes at e')))
                    | inr leaves ↦
                        let (canonical_before, nothing_new) = or_false answer.2 applied.1 leaves in
                        inr (
                          sym (
                              ap (λ (x : Result Capacities × CapacityFiles). x.1)
                                (rw leaves at e')),
                          apply_defaults-unchanged now answer.0 answer.1 nothing_new ∙ same_servers,
                          sym same_flag ∙ canonical_before,
                        )
                  ]),
            )
      ]
