-- ===== src/Prelude/Dicts.antt =====
-- Python's dictionaries: entries in the order in which their keys were first written.
use mathlib.Core.Path.{◌≡◌, refl, ap, subst, ◌∙◌}
use mathlib.Core.Logic.{inl, inr}
use mathlib.Core.Bool.{Bool, true, false, not, ◌&&◌, ◌||◌}
use mathlib.Core.Option.{Option, none, some}
use mathlib.Core.List.{map, List, [], ◌∷◌, ◌++◌}
use native.Mathlib.Omega.{arith}
use codex_remote_runner.Prelude.Tests.{if◌then◌else◌, Bool-cases}
use codex_remote_runner.Prelude.Lists.{any, All}
use codex_remote_runner.Prelude.Equality.{Eq, string_eq, ◌==◌, nat_eq, beq_self}

abbrev pub Dict {ℓ κ} : Type ℓ → Type κ → Type (ℓ ⊔ κ)
Dict K V = List (K × V)

module _ {ℓ κ} {K : Type ℓ} {V : Type κ} ⦃e : Eq K⦄ where
  -- `d.get(k)`
  abbrev pub get : Dict K V → K → Option V
  get [] k = none
  get ((j, v) ∷ d) k = if j == k then some v else get d k

  -- `k in d`
  abbrev pub has : Dict K V → K → Bool
  has [] k = false
  has ((j, v) ∷ d) k = if j == k then true else has d k

  -- `d[k] = v`
  abbrev pub put : Dict K V → K → V → Dict K V
  put [] k v = (k, v) ∷ []
  put ((j, w) ∷ d) k v = if j == k then (j, v) ∷ d else (j, w) ∷ put d k v

  -- `d.pop(k, None)`
  abbrev pub remove : Dict K V → K → Dict K V
  remove [] k = []
  remove ((j, v) ∷ d) k = if j == k then remove d k else (j, v) ∷ remove d k

  pub get-put :
      (d : Dict K V) (k j : K) (v : V) → get (put d k v) j ≡ (if k == j then some v else get d j)
  get-put [] k j v = refl
  get-put ((i, w) ∷ d) k j v =
      ground (arith, e.beq_iff i k, e.beq_iff i j, e.beq_iff k j, get-put d k j v)

  pub get-remove :
      (d : Dict K V) (k j : K) → get (remove d k) j ≡ (if k == j then none else get d j)
  get-remove [] k j = ground arith
  get-remove ((i, w) ∷ d) k j =
      ground (arith, e.beq_iff i k, e.beq_iff i j, e.beq_iff k j, get-remove d k j)

  pub get-put_self : (d : Dict K V) (k : K) (v : V) → get (put d k v) k ≡ some v
  get-put_self d k v = rw (get-put d k k v, beq_self k)

  -- `list(d)`
  abbrev pub keys : Dict K V → List K
  keys = map λ entry. entry.0

  pub get-absent : (d : Dict K V) (k : K) → has d k ≡ false → get d k ≡ none
  get-absent [] k h = refl
  get-absent ((j, v) ∷ d) k h = ground (arith, h, get-absent d k)

  pub get-present : (d : Dict K V) (k : K) → has d k ≡ true → (v : V) × (get d k ≡ some v)
  get-present [] k h = cc
  get-present ((j, v) ∷ d) k h = elim (Bool-cases (j == k)) [
    | inl same ↦ (v, rw same refl)
    | inr other ↦ rw other (get-present d k (rw other at h))
  ]

  pub has-any : (d : Dict K V) (k : K) → has d k ≡ any (λ entry. entry.0 == k) d
  has-any [] k = refl
  has-any ((j, v) ∷ d) k = ground (arith, has-any d k)

  pub has-put_self : (d : Dict K V) (k : K) (v : V) → has (put d k v) k ≡ true
  has-put_self [] k v = ground (arith, beq_self k)
  has-put_self ((j, w) ∷ d) k v = ground (arith, has-put_self d k v)

  -- A new entry joins the others.
  pub any-put :
      (p : K × V → Bool) (d : Dict K V) (k : K) (v : V)
      → has d k ≡ false
      → any p (put d k v) ≡ (any p d || p (k, v))
  any-put p [] k v h = ground arith
  any-put p ((j, w) ∷ d) k v h = ground (arith, h, any-put p d k v)

  pub put-absent : (d : Dict K V) (k : K) (v : V) → has d k ≡ false → put d k v ≡ d ++ ((k, v) ∷ [])
  put-absent [] k v h = refl
  put-absent ((j, w) ∷ d) k v h = ground (arith, h, put-absent d k v)

  pub put-All {μ ν} :
      (P : K → Type μ) (Q : V → Type ν) (d : Dict K V) (k : K) (v : V)
      → P k
      → Q v
      → All (λ entry. P entry.0 × Q entry.1) d
      → All (λ entry. P entry.0 × Q entry.1) (put d k v)
  put-All P Q [] k v p q h = ((p, q), tt)
  put-All P Q ((j, w) ∷ d) k v p q h = elim (Bool-cases (j == k)) [
    | inl same ↦ rw same ((h.0.0, q), h.1)
    | inr other ↦ rw other (h.0, put-All P Q d k v p q h.1)
  ]

  pub get-All {μ} :
      (P : K × V → Type μ) (d : Dict K V) (k : K) (v : V) → All P d → get d k ≡ some v → P (k, v)
  get-All P [] k v h g = cc
  get-All P ((j, w) ∷ d) k v h g = elim (Bool-cases (j == k)) [
    | inl same ↦
        subst P
          (ap (λ x. (x, w)) ((e.beq_iff j k).0 same) ∙ ap (λ y. (k, y)) (ground (arith, g, same)))
          h.0
    | inr other ↦ get-All P d k v h.1 (rw other at g)
  ]

  pub has-put : (d : Dict K V) (k j : K) (v : V) → has (put d k v) j ≡ (k == j || has d j)
  has-put [] k j v = ground arith
  has-put ((i, w) ∷ d) k j v =
      ground (arith, e.beq_iff i k, e.beq_iff i j, e.beq_iff k j, has-put d k j v)

  -- No key twice.
  abbrev pub has_distinct_keys : Dict K V → Bool
  has_distinct_keys [] = true
  has_distinct_keys ((k, v) ∷ d) = not (has d k) && has_distinct_keys d

  pub put-distinct :
      (d : Dict K V) (k : K) (v : V)
      → has_distinct_keys d ≡ true
      → has_distinct_keys (put d k v) ≡ true
  put-distinct [] k v h = refl
  put-distinct ((j, w) ∷ d) k v h =
      ground (arith, h, has-put d k j v, e.beq_iff j k, e.beq_iff k j, put-distinct d k v)

  pub has-append : (d d' : Dict K V) (k : K) → has (d ++ d') k ≡ (has d k || has d' k)
  has-append [] d' k = refl
  has-append ((j, v) ∷ d) d' k = ground (arith, has-append d d' k)
