-- ===== src/Queue/Reserve/Laws.antt =====
-- registry.py: `reserve_queued_job_update`, when it succeeds and afterwards.
use codex_remote_runner.Prelude.{
  nat_eq, string_eq, Result, ok, >>=-eq-ok, get, ℕ, ◌+◌, ◌*◌, ◌≤◌, ◌<◌, String, ◌≡◌, refl, ◌≢◌,
  true, some, List, arith,
}
use codex_remote_runner.Queue.Job.{Job, workload_eq, priority_eq}
use codex_remote_runner.Queue.State.{
  queued, status_eq, PlacementUpdate, QueueState, second, placement_update_active,
}
use codex_remote_runner.Queue.Store.{Queue}
use codex_remote_runner.Queue.Transition.{edit_state}
use codex_remote_runner.Queue.Transition.Laws.{edit_state-ok, same_state}
use codex_remote_runner.Queue.Reserve.{reserved, check_reservation, reserve_queued_job_update}

-- A state that is reserved until `expires` under a token's digest.
pub record IsReserved (digest : String) (expires : ℕ) (state : QueueState) : Type 0 where
  pub update : PlacementUpdate
  pub held : state.placement_update ≡ some update
  pub by_digest : update.token_sha256 ≡ digest
  pub until : update.expires_at ≡ expires

reserved-IsReserved :
    (digest : String) (expected : ℕ) (servers : List String) (ttl now : ℕ) (at : String)
    (state state' : QueueState)
    → reserved digest expected servers ttl now at state ≡ ok state'
    → IsReserved digest (now + ttl * second) state'
      × (state.status ≡ queued)
      × (state'.status ≡ queued)
      × (state.revision ≡ expected)
      × (state'.revision ≡ expected + 1)
unfolding reserved
reserved-IsReserved digest expected servers ttl now at state state' h = (
  record {
    update = record {
      token_sha256 = digest;
      expires_at = now + ttl * second;
      requested_servers = servers;
    };
    held = ground arith;
    by_digest = refl;
    until = refl;
  },
  ground arith,
  ground arith,
  ground arith,
  ground arith,
)

active_refuses :
    (digest : String) (expected : ℕ) (servers : List String) (ttl now : ℕ) (at : String)
    (state state' : QueueState)
    → placement_update_active state now ≡ true
    → reserved digest expected servers ttl now at state ≢ ok state'
unfolding reserved
active_refuses digest expected servers ttl now at state state' active h = ground arith

IsReserved-active :
    (digest : String) (expires now : ℕ) (state : QueueState)
    → IsReserved digest expires state
    → now < expires
    → placement_update_active state now ≡ true
unfolding placement_update_active
IsReserved-active digest expires now state r lt = rw (r.held) (ground (arith, r.until))

ttl_bounds :
    (run_id : String) (servers : List String) (ttl : ℕ)
    → check_reservation run_id servers ttl ≡ ok tt
    → (1 ≤ ttl) × (ttl ≤ 3600)
unfolding check_reservation
ttl_bounds run_id servers ttl h = ground arith

module _ (sha256 : String → String) where
  reserve-parts :
      (queue queue' : Queue) (run_id : String) (expected : ℕ) (servers : List String) (ttl now : ℕ)
      (at token given : String) (state' : QueueState)
      → reserve_queued_job_update sha256 queue run_id expected servers ttl now at token
        ≡ ok (queue', given, state')
      → (check_reservation run_id servers ttl ≡ ok tt)
        × (edit_state sha256 (reserved (sha256 token) expected servers ttl now at) queue run_id
            ≡ ok (queue', state'))
        × (given ≡ token)
  unfolding reserve_queued_job_update
  reserve-parts queue queue' run_id expected servers ttl now at token given state' h =
      let (u, checked, h1) = >>=-eq-ok (check_reservation run_id servers ttl) _ h in
      let (r, edited, h2) =
        >>=-eq-ok
          (edit_state sha256 (reserved (sha256 token) expected servers ttl now at) queue run_id) _
          h1 in
      let (stored, same) = same_reply r edited h2 in (checked, stored, same)
    where
      same_reply :
          (r : Queue × QueueState)
          → edit_state sha256 (reserved (sha256 token) expected servers ttl now at) queue run_id
            ≡ ok r
          → ◌≡◌ {A = Result (Queue × String × QueueState)}
              (ok (r.0, token, r.1))
              (ok (queue', given, state'))
          → (edit_state sha256 (reserved (sha256 token) expected servers ttl now at) queue run_id
              ≡ ok (queue', state'))
            × (given ≡ token)
      same_reply r e h = ground arith

  -- A reservation that succeeds leaves the run queued, counted up by one, and reserved for exactly
  -- the time asked for under the digest of the token that the caller gets; other runs are as before.
  pub reserve_queued_job_update-IsReserved :
      (queue queue' : Queue) (run_id : String) (expected : ℕ) (servers : List String) (ttl now : ℕ)
      (at token given : String) (state' : QueueState)
      → reserve_queued_job_update sha256 queue run_id expected servers ttl now at token
        ≡ ok (queue', given, state')
      → (given ≡ token)
        × (1 ≤ ttl)
        × (ttl ≤ 3600)
        × IsReserved (sha256 token) (now + ttl * second) state'
        × (state'.status ≡ queued)
        × (state'.revision ≡ expected + 1)
        × ((job : Job) × (get queue' run_id ≡ some (job, state')))
        × ((other : String) → run_id ≢ other → get queue' other ≡ get queue other)
  reserve_queued_job_update-IsReserved queue queue' run_id expected servers ttl now at token given
        state' h =
      let (checked, edited, same) =
        reserve-parts queue queue' run_id expected servers ttl now at token given state' h in
      let e = edit_state-ok sha256 _ queue queue' run_id state' edited in
      let (r, _, still, _, counted) =
        reserved-IsReserved (sha256 token) expected servers ttl now at e.state state' e.edits in
      let (least, most) = ttl_bounds run_id servers ttl checked in
      (same, least, most, r, still, counted, (e.job, e.after), e.others)

  -- Directly after a reservation of a run that succeeded, another reservation of the run does not
  -- succeed before the first one runs out.
  pub reserve_queued_job_update-excludes :
      (queue queue' : Queue) (run_id : String) (expected expected' : ℕ)
      (servers servers' : List String) (ttl ttl' now later : ℕ) (at at' token token' given : String)
      (state' : QueueState)
      → reserve_queued_job_update sha256 queue run_id expected servers ttl now at token
        ≡ ok (queue', given, state')
      → later < now + ttl * second
      → (r : Queue × String × QueueState)
      → reserve_queued_job_update sha256 queue' run_id expected' servers' ttl' later at' token'
        ≢ ok r
  reserve_queued_job_update-excludes queue queue' run_id expected expected' servers servers' ttl
        ttl' now later at at' token token' given state' h lt r k =
      let (_, _, _, held, _, _, (_, stored), _) =
        reserve_queued_job_update-IsReserved queue queue' run_id expected servers ttl now at token
          given state' h in
      let (_, edited, _) =
        reserve-parts queue' r.0 run_id expected' servers' ttl' later at' token' r.1 r.2 k in
      let e = edit_state-ok sha256 _ queue' r.0 run_id r.2 edited in
      active_refuses (sha256 token') expected' servers' ttl' later at' e.state r.2
        (rw (same_state queue' run_id _ _ e.before stored)
          (IsReserved-active (sha256 token) _ later state' held lt))
        e.edits
