-- ===== src/Dispatch/Capacity/Laws.antt =====
-- dispatcher.py: what holds of the machines that `_rank_for_workload` returns.
use codex_remote_runner.Prelude.{
  if◌then◌else◌, Bool-cases, Option-cases, All, ◌==◌, nat_eq, string_eq, ok, >>=-eq-ok,
  ok_injective, String, ◌≡◌, subst, inl, inr, Bool, true, false, none, some, List, [], ◌∷◌, map,
}
use codex_remote_runner.Scheduling.{CapacityCandidate, rank_candidates}
use codex_remote_runner.Queue.Job.{Job, workload_eq, priority_eq}
use codex_remote_runner.Dispatch.Capacity.{
  ProbedServer, has_workload_capacity, with_capacity, by_name, in_rank_order, ranked,
  rank_for_workload,
}

module _ {κ} (P : ProbedServer → Type κ) (job : Job) where
  abbrev pub Fits : ProbedServer → Type κ
  Fits c = P c × (has_workload_capacity job c ≡ ok true)

  keep_fitting :
      (c : ProbedServer) (fits : Bool) (rest : List ProbedServer)
      → P c
      → has_workload_capacity job c ≡ ok fits
      → All Fits rest
      → All Fits (if fits then c ∷ rest else rest)
  keep_fitting c true rest p e h = ((p, e), h)
  keep_fitting c false rest p e h = h

  with_capacity-All :
      (candidates out : List ProbedServer)
      → All P candidates
      → with_capacity job candidates ≡ ok out
      → All Fits out
  unfolding with_capacity
  with_capacity-All [] out h e = subst (All Fits) (ok_injective _ _ e) tt
  with_capacity-All (c ∷ cs) out h e =
      let (fits, tested, e1) = >>=-eq-ok (has_workload_capacity job c) _ e in
      let (rest, kept, e2) = >>=-eq-ok (with_capacity job cs) _ e1 in
      subst (All Fits) (ok_injective _ _ e2)
        (keep_fitting c fits rest h.0 tested (with_capacity-All cs rest h.1 kept))

module _ {κ} (P : ProbedServer → Type κ) where
  by_name-holds :
      (candidates : List ProbedServer) (name : String) (c : ProbedServer)
      → All P candidates
      → by_name candidates name ≡ some c
      → P c
  by_name-holds [] name c h e = cc
  by_name-holds (d ∷ ds) name c h e = elim (Option-cases (by_name ds name)) [
    | inl absent ↦ elim (Bool-cases (d.capacity.name == name)) [
      | inl same ↦ subst P (some_eq d c (rw (absent, same) at e)) h.0
      | inr other ↦ none_eq c (rw (absent, other) at e)
    ]
    | inr (later, found) ↦
        subst P (some_eq later c (rw found at e)) (by_name-holds ds name later h.1 found)
  ]
    where
      some_eq : (a b : ProbedServer) → some a ≡ some b → a ≡ b
      some_eq a b q = cc

      none_eq : (a : ProbedServer) → none ≡ some a → P a
      none_eq a q = cc

  in_rank_order-All :
      (eligible : List ProbedServer) (items : List CapacityCandidate) (out : List ProbedServer)
      → All P eligible
      → in_rank_order eligible items ≡ ok out
      → All P out
  unfolding in_rank_order
  in_rank_order-All eligible [] out h e = subst (All P) (ok_injective _ _ e) tt
  in_rank_order-All eligible (item ∷ items) out h e =
      elim (Option-cases (by_name eligible item.name)) [
        | inl absent ↦ cc (rw (absent, in_rank_order) at e)
        | inr (c, found) ↦
            let (others, ordered, e1) =
              >>=-eq-ok (in_rank_order eligible items) _ (rw (found, in_rank_order) at e) in
            subst (All P) (ok_injective _ _ e1) (
              by_name-holds eligible item.name c h found,
              in_rank_order-All eligible items others h ordered,
            )
      ]

  ranked-All :
      (eligible out : List ProbedServer) → All P eligible → ranked eligible ≡ ok out → All P out
  ranked-All [] out h e = subst (All P) (ok_injective _ _ e) tt
  ranked-All (c ∷ cs) out h e =
      let (items, _, e1) = >>=-eq-ok (rank_candidates (map (λ item. item.capacity) (c ∷ cs))) _ e in
      in_rank_order-All (c ∷ cs) items out h e1

-- Whatever holds of the candidates holds of the ranked machines, and each of those has room.
pub rank_for_workload-All {κ} :
    (P : ProbedServer → Type κ) (job : Job) (candidates out : List ProbedServer)
    → All P candidates
    → rank_for_workload job candidates ≡ ok out
    → All (Fits P job) out
unfolding rank_for_workload
rank_for_workload-All P job candidates out h e =
    let (eligible, kept, e1) = >>=-eq-ok (with_capacity job candidates) _ e in
    ranked-All (Fits P job) eligible out (with_capacity-All P job candidates eligible h kept) e1
