-- ===== src/Lease/Drain.antt =====
-- registry.py: `_canonicalize_drains_unlocked`, `list_drained_servers` and `set_server_drained`.
use codex_remote_runner.Prelude.{
  ltb, if◌then◌else◌, ◌==◌, nat_eq, string_eq, value_error, Result, ok, ◌>>=◌, ◌>>◌, raise_if, Dict,
  get, has, put, remove, get_or, ℕ, String, Bool, true, false, not, ◌&&◌, ◌||◌, Option, none, some,
  List, [], ◌∷◌,
}
use codex_remote_runner.Text.{is_project_id, is_machine_id, str_le}
use codex_remote_runner.Machines.{Machines, canonical_machine_id, resolve_machine_request}
use codex_remote_runner.Lease.Record.{
  is_dispatch, Lease, DrainMark, Scheduler, load_server_lease, lease_paths_for_machine,
}

-- The earlier mark of two on one machine.
abbrev pub earlier_mark : Option DrainMark → DrainMark → Bool
earlier_mark none mark = true
earlier_mark (some current) mark =
    str_le mark.drained_at current.drained_at && not (str_le current.drained_at mark.drained_at)

-- The loop over the stored marks: `canonical` and `changed` are its variables.
unfoldable pub canonicalize_drains :
    Machines
    → Dict String DrainMark
    → Dict String DrainMark
    → Bool
    → Result (Dict String DrainMark × Bool)
unfolding canonical_machine_id
canonicalize_drains machines [] canonical changed = ok (canonical, changed)
canonicalize_drains machines ((stored_id, mark) ∷ servers) canonical changed = do
  machine_id ← canonical_machine_id machines stored_id
  canonicalize_drains machines servers
      (if earlier_mark (get canonical machine_id) mark
        then put canonical machine_id mark
        else canonical)
      (changed || (not (machine_id == stored_id) || has canonical machine_id))

unfoldable pub list_drained_servers : Scheduler → Result (Dict String DrainMark)
unfolding canonicalize_drains
list_drained_servers scheduler = do
  (servers, _) ← canonicalize_drains scheduler.machines scheduler.drains [] false
  ok servers

-- The lease that stands in the way, if any: one that is live, or any lease for a dispatch.
unfoldable pub in_flight : Dict String Lease → List String → (now : ℕ) → Result (Option Lease)
unfolding load_server_lease
in_flight leases [] now = ok none
in_flight leases (path ∷ paths) now =
    let rest = in_flight leases paths now in
    elim (get leases path) [
      | none ↦ rest
      | some file ↦ do
        lease ← load_server_lease path file
        if ltb now lease.expires_at || is_dispatch lease.kind then ok (some lease) else rest
    ]

pub record DrainReply : Type 0 where
  pub machine_id : String
  pub changed : Bool
  pub drained_servers : Dict String DrainMark
  pub in_flight_dispatch : Option Lease

unfoldable pub set_server_drained :
    Scheduler
    → (project_id server : String) (machine_id : Option String) (drained : Bool) (now : ℕ)
      (at : String)
    → Result (Scheduler × DrainReply)
unfolding resolve_machine_request canonicalize_drains lease_paths_for_machine in_flight
set_server_drained scheduler project_id server machine_id drained now at = do
  raise_if (not (is_project_id server)) (value_error "invalid server name")
  raise_if (not (is_machine_id (get_or machine_id server))) (value_error "invalid machine_id")
  drain_key ←
      resolve_machine_request scheduler.machines project_id server (get_or machine_id server)
  (servers, normalized) ← canonicalize_drains scheduler.machines scheduler.drains [] false
  paths ← lease_paths_for_machine scheduler.machines drain_key
  blocking ← in_flight scheduler.leases paths now
  let changed = if drained then not (has servers drain_key) else has servers drain_key
  let marked =
      if drained
      then (if changed
          then put servers drain_key (record { drained_at = at; requested_by_project = project_id })
          else servers)
      else remove servers drain_key
  ok (
    if changed || normalized then record scheduler { drains = marked } else scheduler,
    record {
      machine_id = drain_key;
      changed = changed;
      drained_servers = marked;
      in_flight_dispatch = blocking;
    },
  )
