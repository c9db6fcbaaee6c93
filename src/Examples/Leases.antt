-- ===== src/Examples/Leases.antt =====
-- Leases on one machine.
use codex_remote_runner.Lease.Release.{renew_dispatch_lease}
use codex_remote_runner.Machines.Canonical.{resolve_machine_request-canonical}
use codex_remote_runner.Lease.Exclusion.Fencing.{renew_dispatch_lease-fenced}
use codex_remote_runner.Text.{is_project_id, is_machine_id}
use codex_remote_runner.Prelude.{
  nat_eq, string_eq, ne_of_beq, ok, String, ◌≡◌, refl, ◌≢◌, true, false, some, [], ◌∷◌, arith,
}
use codex_remote_runner.Machines.{canonical_machine_id, resolve_machine_request}
use codex_remote_runner.Lease.Record.{dispatch, Scheduler}
use codex_remote_runner.Lease.Acquire.{
  LeaseOwnership, Authority, Claim, new_lease, acquire_server_lease,
}
use codex_remote_runner.Lease.Exclusion.{acquire_server_lease-excludes}
use codex_remote_runner.Examples.Data.{machines_a}

abbrev scheduler_a : Scheduler
scheduler_a = record { machines = machines_a; drains = []; leases = [] }

abbrev nobody : Authority
nobody = record {
  queue_gone = λ p r. some false;
  has_config = λ p. true;
  registry_gone = λ p r. some false;
}

abbrev claim_1 : Claim
claim_1 = record {
  project_id = "proj";
  server = "alpha";
  machine_id = some "m-a";
  run_id = "rr-0000000000000001";
  ttl_seconds = 60;
  kind = dispatch;
  allow_drained = false;
}

-- The second claim names the machine by a former id.
abbrev claim_2 : Claim
claim_2 = record claim_1 { run_id = "rr-0000000000000002"; machine_id = some "old-a" }

abbrev token_1 : String
token_1 = "0123456789abcdef0123456789abcdef0123456789abcdef0123456789abcdef"

abbrev token_2 : String
token_2 = "1123456789abcdef0123456789abcdef0123456789abcdef0123456789abcdef"

abbrev ownership_1 : LeaseOwnership
ownership_1 = record {
  machine_id = "m-a";
  server = "alpha";
  project_id = "proj";
  run_id = "rr-0000000000000001";
  token = token_1;
  expires_at = 60000005;
}

abbrev leased : Scheduler
leased = record scheduler_a { leases = ("m-a", new_lease claim_1 "m-a" token_1 5) ∷ [] }

acquire_server_lease-excludes_example :
    acquire_server_lease nobody leased claim_2 7 token_2 ≢ ok (leased, some ownership_1)
unfolding acquire_server_lease resolve_machine_request is_project_id is_machine_id
acquire_server_lease-excludes_example =
    acquire_server_lease-excludes nobody nobody scheduler_a leased claim_1 claim_2 5 7 token_1
      token_2 ownership_1 ownership_1 leased refl refl (omega arith)

abbrev taken_over : Scheduler
taken_over = record scheduler_a { leases = ("m-a", new_lease claim_2 "m-a" token_2 70000000) ∷ [] }

abbrev ownership_2 : LeaseOwnership
ownership_2 = record ownership_1 {
  run_id = "rr-0000000000000002";
  token = token_2;
  expires_at = 130000000;
}

tokens_differ : token_2 ≢ token_1
tokens_differ = ne_of_beq token_2 token_1 refl

renew_dispatch_lease-fenced_example :
    renew_dispatch_lease taken_over "proj" ownership_1 60 71000000
    ≢ ok (taken_over, some ownership_1)
unfolding acquire_server_lease is_project_id is_machine_id
renew_dispatch_lease-fenced_example =
    renew_dispatch_lease-fenced nobody scheduler_a taken_over taken_over claim_2 70000000 71000000
      60 token_2 "proj" ownership_2 ownership_1 ownership_1 refl refl tokens_differ

resolve_machine_request-canonical_example : canonical_machine_id machines_a "m-a" ≡ ok "m-a"
unfolding resolve_machine_request is_project_id
resolve_machine_request-canonical_example =
    resolve_machine_request-canonical machines_a "proj" "alpha" "old-a" "m-a" refl
