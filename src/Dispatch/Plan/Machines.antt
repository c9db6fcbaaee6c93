-- ===== src/Dispatch/Plan/Machines.antt =====
-- dispatcher.py: which machines a batch of `_plan_dispatch_batch` takes.
use codex_remote_runner.Prelude.{
  Bool-cases, All, contains, distinct, nat_eq, string_eq, ok, >>=-eq-ok, ok_injective, get_or,
  String, ◌≡◌, refl, sym, ap, ◌∙◌, subst, inl, inr, true, false, some, List, [], ◌∷◌, map, arith,
}
use codex_remote_runner.Text.{is_machine_id}
use codex_remote_runner.Machines.Identity.{
  IdentitySource, Server, normalize_machine_id, normalize_machine_fingerprint, check_source,
  normalize_server_identity,
}
use codex_remote_runner.Queue.Job.{workload_eq, priority_eq}
use codex_remote_runner.Queue.Store.{Row}
use codex_remote_runner.Dispatch.Select.{CapacitySnapshot, machine_of}
use codex_remote_runner.Dispatch.Plan.{PlannedDispatch, Batch, plan_dispatch_batch}
use codex_remote_runner.Dispatch.Plan.Choices.{IsSelected}
use codex_remote_runner.Dispatch.Plan.Batches.{Exclusive, plan_dispatch_batch-IsPlan}

normalize_machine_id-explicit :
    (machine name : String) (answer : String × IdentitySource)
    → normalize_machine_id (some machine) name ≡ ok answer
    → answer.0 ≡ machine
unfolding normalize_machine_id
normalize_machine_id-explicit machine name answer e = elim (Bool-cases (is_machine_id name)) [
  | inr bad ↦ cc (rw bad at e)
  | inl good ↦ elim (Bool-cases (is_machine_id machine)) [
    | inr bad ↦ cc (rw (good, bad) at e)
    | inl fine ↦ sym (ap (λ x. x.0) (ok_injective _ _ (rw (good, fine) at e)))
  ]
]

-- A machine id that is given is kept.
normalize_server_identity-machine :
    (server identity : Server) (machine : String)
    → server.machine_id ≡ some machine
    → normalize_server_identity server ≡ ok identity
    → machine_of identity ≡ machine
unfolding normalize_server_identity
normalize_server_identity-machine server identity machine given e =
    let (answer, normal, e1) = >>=-eq-ok (normalize_machine_id server.machine_id server.name) _ e in
    let (_, _, e2) =
      >>=-eq-ok (check_source server answer.0 (get_or server.machine_id_source answer.1)) _ e1 in
    let (fingerprint, _, e3) =
      >>=-eq-ok (normalize_machine_fingerprint server.machine_fingerprint false) _ e2 in
    sym (ap machine_of (ok_injective _ _ e3))
    ∙ normalize_machine_id-explicit machine server.name answer
        (subst (λ x. normalize_machine_id x server.name ≡ ok answer) given normal)

-- The selected machine was not among the reserved ones.
IsSelected-fresh :
    (probes : CapacitySnapshot) (reserved : List String) (planned : PlannedDispatch)
    (machine : String)
    → IsSelected probes reserved planned
    → planned.selected.server.machine_id ≡ some machine
    → contains reserved machine ≡ false
IsSelected-fresh probes reserved planned machine (allowed, chosen) its =
    let same =
      normalize_server_identity-machine chosen.server chosen.identity machine
        (sym chosen.same_machine ∙ its) chosen.normalized in
    subst (λ x. contains reserved x ≡ false) same chosen.not_reserved

fresh_parts :
    (machine : String) (reserved machines : List String)
    → All (λ other. contains (machine ∷ reserved) other ≡ false) machines
    → (contains machines machine ≡ false) × All (λ other. contains reserved other ≡ false) machines
fresh_parts machine reserved [] h = (refl, tt)
fresh_parts machine reserved (other ∷ machines) h =
    let (apart, fresh) = fresh_parts machine reserved machines h.1 in
    (
      ground (arith, string_eq.beq_iff other machine, string_eq.beq_iff machine other, h.0, apart),
      (ground (arith, h.0), fresh),
    )

Exclusive-distinct :
    (probes : CapacitySnapshot) (reserved : List String) (plans : List PlannedDispatch)
    → Exclusive probes reserved plans
    → (machines : List String) × (map (λ planned. planned.selected.server.machine_id) plans
        ≡ map some machines)
      × (distinct machines ≡ true)
      × All (λ machine. contains reserved machine ≡ false) machines
Exclusive-distinct probes reserved [] h = ([], refl, refl, tt)
Exclusive-distinct probes reserved (planned ∷ plans) (chosen, machine, its, h) =
    let (machines, ids, apart, fresh) = Exclusive-distinct probes (machine ∷ reserved) plans h in
    let split = fresh_parts machine reserved machines fresh in
    (
      machine ∷ machines,
      rw (its, ids) refl,
      rw (split.0, apart) refl,
      (IsSelected-fresh probes reserved planned machine chosen its, split.1),
    )

-- If a batch is planned, each planned job has a machine id, and no two of them the same.
pub plan_dispatch_batch-distinct :
    (rows : List Row) (probes : CapacitySnapshot) (plan : Batch)
    → plan_dispatch_batch rows probes ≡ ok (some plan)
    → (machines : List String) × (map (λ planned. planned.selected.server.machine_id) plan.0
        ≡ map some machines)
      × (distinct machines ≡ true)
plan_dispatch_batch-distinct rows probes plan e =
    let d =
      Exclusive-distinct probes [] plan.0
        (plan_dispatch_batch-IsPlan rows probes plan e).exclusive in
    (d.0, d.1, d.2)
