-- ===== src/Sort.antt =====
-- Python's `sorted` with a key: a stable sort by a Boolean order.
use mathlib.Core.List.{Perm}
use mathlib.Core.List.Perm
use codex_remote_runner.Prelude.{
  ◌≡◌, refl, ap, ◌∙◌, sym, ◌⊎◌, ◌||◌, any, Eq, ◌==◌, nat_eq, string_eq, Dict, has, get, has-any,
  has_distinct_keys, false, some, inl, inr, Bool, true, List, [], ◌∷◌, arith, if◌then◌else◌,
  Bool-cases, All, All-imp,
}

-- Each element stands in the relation to every later one.
abbrev pub IsOrdered {ℓ} : {A : Type ℓ} → (A → A → Type 0) → List A → Type 0
IsOrdered R [] = Unit
IsOrdered R (x ∷ xs) = All (R x) xs × IsOrdered R xs

module _ {ℓ} {A : Type ℓ} (le : A → A → Bool) where
  abbrev pub insert : A → List A → List A
  insert x [] = x ∷ []
  insert x (y ∷ ys) = if le x y then x ∷ y ∷ ys else y ∷ insert x ys

  abbrev pub sort_by : List A → List A
  sort_by [] = []
  sort_by (x ∷ xs) = insert x (sort_by xs)

  -- Each element is at most every later one.
  abbrev pub IsSorted : List A → Type 0
  IsSorted [] = Unit
  IsSorted (x ∷ xs) = All (λ y. le x y ≡ true) xs × IsSorted xs

  pub IsSorted-IsOrdered :
      (R : A → A → Type 0)
      → ((x y : A) → le x y ≡ true → R x y)
      → (xs : List A) → IsSorted xs
      → IsOrdered R xs
  IsSorted-IsOrdered R f [] h = tt
  IsSorted-IsOrdered R f (x ∷ xs) h = (All-imp _ (R x) (f x) xs h.0, IsSorted-IsOrdered R f xs h.1)

  insert-perm : (x : A) (xs : List A) → Perm (insert x xs) (x ∷ xs)
  insert-perm x [] = Perm.refl _
  insert-perm x (y ∷ ys) = elim (Bool-cases (le x y)) [
    | inl e ↦ rw e (Perm.refl _)
    | inr e ↦ rw e (Perm.trans (Perm.cons y (insert-perm x ys)) (Perm.swap x y ys))
  ]

  -- Sorting rearranges the list.
  pub sort_by-perm : (xs : List A) → Perm (sort_by xs) xs
  sort_by-perm [] = Perm.refl _
  sort_by-perm (x ∷ xs) = Perm.trans (insert-perm x (sort_by xs)) (Perm.cons x (sort_by-perm xs))

  insert-All {κ} : (P : A → Type κ) (x : A) (xs : List A) → P x → All P xs → All P (insert x xs)
  insert-All P x [] p h = (p, tt)
  insert-All P x (y ∷ ys) p h = elim (Bool-cases (le x y)) [
    | inl e ↦ rw e (p, h)
    | inr e ↦ rw e (h.0, insert-All P x ys p h.1)
  ]

  -- What holds of every element still does.
  pub sort_by-All {κ} : (P : A → Type κ) (xs : List A) → All P xs → All P (sort_by xs)
  sort_by-All P [] h = tt
  sort_by-All P (x ∷ xs) h = insert-All P x (sort_by xs) h.0 (sort_by-All P xs h.1)

  insert-any : (p : A → Bool) (x : A) (xs : List A) → any p (insert x xs) ≡ (p x || any p xs)
  insert-any p x [] = refl
  insert-any p x (y ∷ ys) = ground (arith, insert-any p x ys)

  pub sort_by-any : (p : A → Bool) (xs : List A) → any p (sort_by xs) ≡ any p xs
  sort_by-any p [] = refl
  sort_by-any p (x ∷ xs) = insert-any p x (sort_by xs) ∙ ap (λ rest. p x || rest) (sort_by-any p xs)

  module _ (total : (x y : A) → (le x y ≡ true) ⊎ (le y x ≡ true))
      (trans : (x y z : A) → le x y ≡ true → le y z ≡ true → le x z ≡ true) where
    insert-IsSorted : (x : A) (xs : List A) → IsSorted xs → IsSorted (insert x xs)
    insert-IsSorted x [] s = (tt, tt)
    insert-IsSorted x (y ∷ ys) s = elim (Bool-cases (le x y)) [
      | inl e ↦ rw e (
        (e, All-imp (λ z. le y z ≡ true) (λ z. le x z ≡ true) (λ z h. trans x y z e h) ys s.0),
        s,
      )
      | inr e ↦ rw e (insert-All _ x ys (ground (arith, total x y)) s.0, insert-IsSorted x ys s.1)
    ]

    -- The result is in order.
    pub sort_by-IsSorted : (xs : List A) → IsSorted (sort_by xs)
    sort_by-IsSorted [] = tt
    sort_by-IsSorted (x ∷ xs) = insert-IsSorted x (sort_by xs) (sort_by-IsSorted xs)

-- A dictionary whose entries are sorted.
module _ {ℓ κ} {K : Type ℓ} {V : Type κ} ⦃e : Eq K⦄ (le : K × V → K × V → Bool) where
  pub sort_by-has : (d : Dict K V) (k : K) → has (sort_by le d) k ≡ has d k
  sort_by-has d k =
      has-any (sort_by le d) k ∙ sort_by-any le (λ entry. entry.0 == k) d ∙ sym (has-any d k)

  insert-get :
      (k j : K) (v : V) (d : Dict K V)
      → has d k ≡ false
      → get (insert le (k, v) d) j ≡ (if k == j then some v else get d j)
  insert-get k j v [] h = refl
  insert-get k j v ((i, w) ∷ d) h =
      ground (arith, h, e.beq_iff i k, e.beq_iff i j, e.beq_iff k j, insert-get k j v d)

  insert-distinct :
      (k : K) (v : V) (d : Dict K V)
      → has d k ≡ false
      → has_distinct_keys d ≡ true
      → has_distinct_keys (insert le (k, v) d) ≡ true
  insert-distinct k v [] h q = refl
  insert-distinct k v ((i, w) ∷ d) h q = ground (
    arith,
    h,
    q,
    e.beq_iff i k,
    e.beq_iff k i,
    insert-distinct k v d,
    has-any (insert le (k, v) d) i,
    insert-any le (λ entry. entry.0 == i) (k, v) d,
    has-any d i,
  )

  pub sort_by-distinct :
      (d : Dict K V) → has_distinct_keys d ≡ true → has_distinct_keys (sort_by le d) ≡ true
  sort_by-distinct [] q = refl
  sort_by-distinct ((k, v) ∷ d) q =
      insert-distinct k v (sort_by le d) (sort_by-has d k ∙ ground (arith, q))
        (sort_by-distinct d (ground (arith, q)))

  -- Sorting moves entries, and looks the same to a reader.
  pub sort_by-get :
      (d : Dict K V) (j : K) → has_distinct_keys d ≡ true → get (sort_by le d) j ≡ get d j
  sort_by-get [] j q = refl
  sort_by-get ((k, v) ∷ d) j q =
      insert-get k j v (sort_by le d) (sort_by-has d k ∙ ground (arith, q))
      ∙ ap (λ rest. if k == j then some v else rest) (sort_by-get d j (ground (arith, q)))
