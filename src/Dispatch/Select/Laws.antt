-- ===== src/Dispatch/Select/Laws.antt =====
-- dispatcher.py: what holds of the machines that `_select_from_snapshot` returns.
use codex_remote_runner.Prelude.{
  if◌then◌else◌, Bool-cases, Option-cases, is_empty, filter, All, In, here, there, All-imp,
  contains, nat_eq, string_eq, ok, ◌>>=◌, >>=-eq-ok, ok_injective, String, ◌≡◌, refl, subst, inl,
  inr, true, false, Option, none, some, List, [], ◌∷◌, arith,
}
use codex_remote_runner.Machines.Identity.{Server, normalize_server_identity}
use codex_remote_runner.Queue.Job.{Job, workload_eq, priority_eq, eligible_prepared_servers}
use codex_remote_runner.Dispatch.Capacity.{
  ProbedServer, Message, has_workload_capacity, capacity_message, rank_for_workload,
}
use codex_remote_runner.Dispatch.Capacity.Laws.{Fits, rank_for_workload-All}
use codex_remote_runner.Dispatch.Select.{
  CapacitySnapshot, machine_of, identified, server_snapshot_key, probed_at, permits, usable,
  reached, unreached_message, capacity_answer, select_from_snapshot,
}

-- A server of the list, with its normalized identity.
abbrev pub Identified : List Server → Server × Server → Type 0
Identified servers entry = In entry.0 servers × (normalize_server_identity entry.0 ≡ ok entry.1)

identified-All :
    (servers : List Server) (entries : List (Server × Server))
    → identified servers ≡ ok entries
    → All (Identified servers) entries
unfolding identified
identified-All [] entries e = subst (All (Identified [])) (ok_injective _ _ e) tt
identified-All (server ∷ servers) entries e =
    let (identity, normal, e1) = >>=-eq-ok (normalize_server_identity server) _ e in
    let (rest, others, e2) = >>=-eq-ok (identified servers) _ e1 in
    subst (All (Identified (server ∷ servers))) (ok_injective _ _ e2) (
      (here, normal),
      All-imp (Identified servers) (Identified (server ∷ servers)) (λ entry h. (there h.0, h.1))
          rest (identified-All servers rest others),
    )

-- What a selected machine is: one of the job's own servers, with room for the job, and not drained,
-- reserved, or outside of the names that are allowed.
pub record Selected (job : Job) (probes : CapacitySnapshot) (reserved : List String)
    (allowed : Option (List String)) (c : ProbedServer) : Type 0 where
  pub server : Server
  pub identity : Server
  pub eligible : In server (eligible_prepared_servers job)
  pub normalized : normalize_server_identity server ≡ ok identity
  pub not_drained : contains probes.drained_servers (machine_of identity) ≡ false
  pub not_reserved : contains reserved (machine_of identity) ≡ false
  pub permitted : permits allowed server.name ≡ true
  pub same_name : c.server.name ≡ server.name
  pub same_machine : c.server.machine_id ≡ server.machine_id
  pub fits : has_workload_capacity job c ≡ ok true

module _ (job : Job) (probes : CapacitySnapshot) (reserved : List String)
    (allowed : Option (List String)) where
  -- The same without the room.
  abbrev Candidate : ProbedServer → Type 0
  Candidate c =
      (entry : Server × Server) × Identified (eligible_prepared_servers job) entry
      × (usable probes reserved allowed entry ≡ true)
      × (c.server.name ≡ entry.0.name)
      × (c.server.machine_id ≡ entry.0.machine_id)

  reached-All :
      (entries : List (Server × Server))
      → All (Identified (eligible_prepared_servers job)) entries
      → All Candidate (reached probes (filter (usable probes reserved allowed) entries))
  reached-All [] h = tt
  reached-All (entry ∷ entries) h = elim (Bool-cases (usable probes reserved allowed entry)) [
    | inr unusable ↦ rw unusable (reached-All entries h.1)
    | inl fine ↦ elim (Option-cases (probed_at probes.reachable (server_snapshot_key entry.1))) [
      | inl silent ↦ rw fine (rw (silent, reached) (reached-All entries h.1))
      | inr (probed, answered) ↦
          rw fine (rw (answered, reached) ((entry, h.0, fine, refl, refl), reached-All entries h.1))
    ]
  ]

  same_machines :
      {out : List ProbedServer} {message : Option Message}
      (answer : List ProbedServer × Option Message)
      → ok answer ≡ ok (out, message)
      → answer.0 ≡ out
  same_machines answer q = cc

  usable-parts :
      (entry : Server × Server)
      → usable probes reserved allowed entry ≡ true
      → (contains probes.drained_servers (machine_of entry.1) ≡ false)
        × (contains reserved (machine_of entry.1) ≡ false)
        × (permits allowed entry.0.name ≡ true)
  usable-parts entry h = ground (arith, h)

  selected : (c : ProbedServer) → Fits Candidate job c → Selected job probes reserved allowed c
  selected c h = record {
    server = h.0.0.0;
    identity = h.0.0.1;
    eligible = h.0.1.0;
    normalized = h.0.1.1;
    not_drained = (usable-parts h.0.0 h.0.2).0;
    not_reserved = (usable-parts h.0.0 h.0.2).1;
    permitted = (usable-parts h.0.0 h.0.2).2;
    same_name = h.0.3;
    same_machine = h.0.4;
    fits = h.1;
  }

  -- If a selection for a job returns machines, each has room for the job and carries the name and
  -- the machine id of one of the job's eligible servers, whose normalized machine is neither
  -- drained nor reserved, and whose name is among the allowed ones if those are limited.
  pub select_from_snapshot-All :
      (out : List ProbedServer) (message : Option Message)
      → select_from_snapshot job probes reserved allowed ≡ ok (out, message)
      → All (Selected job probes reserved allowed) out
  unfolding select_from_snapshot
  select_from_snapshot-All out message e =
      let (prepared, normal, e1) = >>=-eq-ok (identified (eligible_prepared_servers job)) _ e in
      let candidates = reached probes (filter (usable probes reserved allowed) prepared) in
      answers prepared candidates
        (reached-All prepared (identified-All (eligible_prepared_servers job) prepared normal)) e1
    where
      answer :
          (candidates found : List ProbedServer)
          → All (Fits Candidate job) found
          → capacity_answer job candidates found ≡ ok (out, message)
          → All (Selected job probes reserved allowed) out
      answer candidates [] h q =
          let (message', _, q1) = >>=-eq-ok (capacity_message job candidates) _ q in
          subst (All (Selected job probes reserved allowed)) (same_machines ([], some message') q1)
            tt
      answer candidates (c ∷ cs) h q =
          subst (All (Selected job probes reserved allowed)) (same_machines (c ∷ cs, none) q) (
            All-imp (Fits Candidate job) (Selected job probes reserved allowed) selected (c ∷ cs) h)

      answers :
          (prepared : List (Server × Server)) (candidates : List ProbedServer)
          → All Candidate candidates
          → (if is_empty candidates then ok ([], some (unreached_message probes prepared)) else (do
            found ← rank_for_workload job candidates
            capacity_answer job candidates found))
            ≡ ok (out, message)
          → All (Selected job probes reserved allowed) out
      answers prepared [] h q =
          subst (All (Selected job probes reserved allowed))
            (same_machines ([], some (unreached_message probes prepared)) q) tt
      answers prepared (c ∷ cs) h q =
          let (found, in_order, q1) = >>=-eq-ok (rank_for_workload job (c ∷ cs)) _ q in
          answer (c ∷ cs) found (rank_for_workload-All Candidate job (c ∷ cs) found h in_order) q1
