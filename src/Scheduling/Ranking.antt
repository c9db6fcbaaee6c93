-- ===== src/Scheduling/Ranking.antt =====
-- scheduling.py: `rank_candidates` and `select_candidate`.
use mathlib.Core.List.{Perm}
use codex_remote_runner.Prelude.{
  if◌then◌else◌, All, nat_eq, string_eq, ok, >>=-eq-ok, ok_injective, ◌≡◌, subst, ◌⊎◌, Bool, true,
  List, [], ◌∷◌, arith,
}
use codex_remote_runner.Prelude.Int.{ℤ, pos, ◌-ℤ◌, ◌≤ℤ◌, max_ℤ}
use codex_remote_runner.Text.{str_le, str_le_total, str_le_trans}
use codex_remote_runner.Sort.{IsOrdered, IsSorted-IsOrdered, sort_by-perm, sort_by-IsSorted}
use codex_remote_runner.Scheduling.{
  CapacityCandidate, hundredths, available_cores, check_candidate, check_candidates, descending,
  ranks_before, rank_candidates, first, select_candidate,
}

descending_total :
    (a b : ℤ) (r s : Bool)
    → (r ≡ true) ⊎ (s ≡ true)
    → (descending a b r ≡ true) ⊎ (descending b a s ≡ true)
descending_total a b r s h = ground arith

descending_trans :
    (a b c : ℤ) (r s t : Bool)
    → (r ≡ true → s ≡ true → t ≡ true)
    → descending a b r ≡ true
    → descending b c s ≡ true
    → descending a c t ≡ true
descending_trans a b c r s t f h k = ground arith

ranks_before_total :
    (a b : CapacityCandidate) → (ranks_before a b ≡ true) ⊎ (ranks_before b a ≡ true)
unfolding ranks_before
ranks_before_total a b = descending_total (available_cores a) (available_cores b) _ _ (
    descending_total a.configured_cores b.configured_cores _ _
      (descending_total a.priority b.priority _ _ (str_le_total a.name b.name)))

ranks_before_trans :
    (a b c : CapacityCandidate)
    → ranks_before a b ≡ true
    → ranks_before b c ≡ true
    → ranks_before a c ≡ true
unfolding ranks_before
ranks_before_trans a b c =
    descending_trans (available_cores a) (available_cores b) (available_cores c) _ _ _ (
      descending_trans a.configured_cores b.configured_cores c.configured_cores _ _ _ (
        descending_trans a.priority b.priority c.priority _ _ _
          (str_le_trans a.name b.name c.name)))

-- When one candidate may rank before another.
pub record IsRankedFirst (a b : CapacityCandidate) : Type 0 where
  pub by_available : available_cores b ≤ℤ available_cores a
  pub by_configured :
      available_cores a ≡ available_cores b → b.configured_cores ≤ℤ a.configured_cores
  pub by_priority :
      available_cores a ≡ available_cores b
      → a.configured_cores ≡ b.configured_cores
      → b.priority ≤ℤ a.priority
  pub by_name :
      available_cores a ≡ available_cores b
      → a.configured_cores ≡ b.configured_cores
      → a.priority ≡ b.priority
      → str_le a.name b.name ≡ true

descending-le : (a b : ℤ) (rest : Bool) → descending a b rest ≡ true → b ≤ℤ a
descending-le a b rest h = ground arith

descending-same : (a b : ℤ) (rest : Bool) → descending a b rest ≡ true → a ≡ b → rest ≡ true
descending-same a b rest h e = ground arith

ranks_before-IsRankedFirst : (a b : CapacityCandidate) → ranks_before a b ≡ true → IsRankedFirst a b
unfolding ranks_before
ranks_before-IsRankedFirst a b h =
    let same_room = λ (e : available_cores a ≡ available_cores b).
      descending-same (available_cores a) (available_cores b) _ h e in
    let same_size =
      λ (e : available_cores a ≡ available_cores b) (c : a.configured_cores ≡ b.configured_cores).
        descending-same a.configured_cores b.configured_cores _ (same_room e) c in
    record {
      by_available = descending-le (available_cores a) (available_cores b) _ h;
      by_configured = λ e. descending-le a.configured_cores b.configured_cores _ (same_room e);
      by_priority = λ e c. descending-le a.priority b.priority _ (same_size e c);
      by_name = λ e c p. descending-same a.priority b.priority _ (same_size e c) p;
    }

-- A ranking that succeeds is a rearrangement of the candidates. None has fewer available cores than
-- a later one; on equal ones, no fewer configured cores; on equal ones, no lower priority; and on
-- equal priorities no larger name.
pub rank_candidates-order :
    (cs out : List CapacityCandidate)
    → rank_candidates cs ≡ ok out
    → Perm out cs × IsOrdered IsRankedFirst out
unfolding rank_candidates
rank_candidates-order [] out h = cc
rank_candidates-order (c ∷ cs) out h =
    let (_, _, e) = >>=-eq-ok (check_candidates (c ∷ cs)) _ h in
    subst (λ r. Perm r (c ∷ cs) × IsOrdered IsRankedFirst r) (ok_injective _ _ e)
      (
        sort_by-perm ranks_before (c ∷ cs),
        IsSorted-IsOrdered ranks_before IsRankedFirst ranks_before-IsRankedFirst _
            (sort_by-IsSorted ranks_before ranks_before_total ranks_before_trans (c ∷ cs)),
      )

-- Every candidate that is ranked passed the checks: it has cores, and no negative number.
abbrev pub IsPlausible : CapacityCandidate → Type 0
IsPlausible c =
    (pos 1 ≤ℤ c.configured_cores)
    × (pos 0 ≤ℤ c.load5)
    × (pos 0 ≤ℤ c.active_run_count)
    × (pos 0 ≤ℤ c.allocated_cores)

check_candidate-IsPlausible : (c : CapacityCandidate) → check_candidate c ≡ ok tt → IsPlausible c
unfolding check_candidate
check_candidate-IsPlausible c h = ground arith

check_candidates-All :
    (cs : List CapacityCandidate) (u : Unit {0}) → check_candidates cs ≡ ok u → All IsPlausible cs
unfolding check_candidates
check_candidates-All [] u h = tt
check_candidates-All (c ∷ cs) u h =
    let (_, e, rest) = >>=-eq-ok (check_candidate c) _ h in
    (check_candidate-IsPlausible c e, check_candidates-All cs u rest)

-- A ranking exists only of candidates that passed every check, and of those all.
pub rank_candidates-IsPlausible :
    (cs out : List CapacityCandidate) → rank_candidates cs ≡ ok out → All IsPlausible cs
unfolding rank_candidates
rank_candidates-IsPlausible [] out h = tt
rank_candidates-IsPlausible (c ∷ cs) out h =
    let (u, e, _) = >>=-eq-ok (check_candidates (c ∷ cs)) _ h in check_candidates-All (c ∷ cs) u e

hundredths_pos : (n : ℤ) → pos 1 ≤ℤ n → pos 0 ≤ℤ hundredths n
hundredths_pos n h = ground arith

-- What is left of `total` after the larger use, or nothing.
clamp_bounds :
    (none_left : Bool) (total load used : ℤ)
    → pos 0 ≤ℤ total
    → pos 0 ≤ℤ load
    → let left = if none_left then pos 0 else max_ℤ (total -ℤ max_ℤ used load) (pos 0) in
      (pos 0 ≤ℤ left) × (left ≤ℤ total)
unfolding ◌-ℤ◌
clamp_bounds none_left total load used h k = ground arith

-- The available cores of a candidate that passes the checks of a ranking lie between none and the
-- configured ones.
pub available_cores_bounds :
    (c : CapacityCandidate)
    → IsPlausible c
    → (pos 0 ≤ℤ available_cores c) × (available_cores c ≤ℤ hundredths c.configured_cores)
unfolding available_cores
available_cores_bounds c h =
    clamp_bounds _ (hundredths c.configured_cores) c.load5 (hundredths c.allocated_cores)
      (hundredths_pos c.configured_cores h.0) h.1

-- A candidate that is selected is one of the candidates. None of the others has more available
-- cores; of those with as many, none has more configured cores; of those, none a higher priority;
-- and of those, none a smaller name.
pub select_candidate_best :
    (cs : List CapacityCandidate) (c : CapacityCandidate)
    → select_candidate cs ≡ ok c
    → (rest : List CapacityCandidate) × Perm (c ∷ rest) cs × All (IsRankedFirst c) rest
unfolding select_candidate first
select_candidate_best cs c h =
    let (out, e, f) = >>=-eq-ok (rank_candidates cs) first h in
    let (p, s) = rank_candidates-order cs out e in split_first out p s f
  where
    split_first :
        (out : List CapacityCandidate)
        → Perm out cs
        → IsOrdered IsRankedFirst out
        → first out ≡ ok c
        → (rest : List CapacityCandidate) × Perm (c ∷ rest) cs × All (IsRankedFirst c) rest
    split_first [] p s f = cc
    split_first (d ∷ rest) p s f =
        subst
          (λ x. (rest : List CapacityCandidate) × Perm (x ∷ rest) cs × All (IsRankedFirst x) rest)
          (ok_injective d c f) (rest, p, s.0)
