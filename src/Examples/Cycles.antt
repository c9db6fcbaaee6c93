-- ===== src/Examples/Cycles.antt =====
-- A lease that is taken, given back, and taken by another run.
use codex_remote_runner.Prelude.{
  string_eq, nat_eq, malformed_lease, err, ok, String, ◌≡◌, refl, true, false, none, some, [], ◌∷◌,
}
use codex_remote_runner.Text.{is_project_id, is_machine_id, is_hex_text}
use codex_remote_runner.Machines.{resolve_machine_request}
use codex_remote_runner.Lease.Record.{dispatch, Scheduler}
use codex_remote_runner.Lease.Acquire.{
  LeaseOwnership, Authority, Claim, new_lease, acquire_server_lease,
}
use codex_remote_runner.Lease.Release.{release_dispatch_lease}
use codex_remote_runner.Lease.Cycle.{IsClaim}
use codex_remote_runner.Lease.Cycle.Malformed.{acquire_server_lease-malformed}
use codex_remote_runner.Lease.Cycle.Laws.{
  IsReturned, acquire_server_lease-release_dispatch_lease, acquire_server_lease-again,
}
use codex_remote_runner.Examples.Data.{machines_a}

abbrev scheduler_a : Scheduler
scheduler_a = record { machines = machines_a; drains = []; leases = [] }

abbrev nobody : Authority
nobody = record {
  queue_gone = λ p r. some false;
  has_config = λ p. true;
  registry_gone = λ p r. some false;
}

abbrev claim_a : Claim
claim_a = record {
  project_id = "proj";
  server = "alpha";
  machine_id = some "old-a";
  run_id = "rr-0000000000000001";
  ttl_seconds = 60;
  kind = dispatch;
  allow_drained = false;
}

abbrev claim_b : Claim
claim_b = record claim_a { run_id = "rr-0000000000000002"; machine_id = none }

abbrev token_a : String
token_a = "0123456789abcdef0123456789abcdef0123456789abcdef0123456789abcdef"

abbrev ownership_a : LeaseOwnership
ownership_a = record {
  machine_id = "m-a";
  server = "alpha";
  project_id = "proj";
  run_id = "rr-0000000000000001";
  token = token_a;
  expires_at = 60000005;
}

abbrev leased : Scheduler
leased = record scheduler_a { leases = ("m-a", new_lease claim_a "m-a" token_a 5) ∷ [] }

claim_a-IsClaim : IsClaim claim_a token_a 5
unfolding is_project_id is_hex_text
claim_a-IsClaim = record {
  server_named = refl;
  project_named = refl;
  run_named = refl;
  has_token = refl;
  clock = refl;
}

acquire_server_lease-release_dispatch_lease_example :
    IsReturned scheduler_a leased claim_a token_a "m-a"
unfolding acquire_server_lease is_project_id is_machine_id
acquire_server_lease-release_dispatch_lease_example =
    acquire_server_lease-release_dispatch_lease nobody scheduler_a leased claim_a 5 token_a
      ownership_a claim_a-IsClaim refl

acquire_server_lease-again_example :
    (after last : Scheduler) × (o : LeaseOwnership) × (release_dispatch_lease leased "proj" "alpha"
        "rr-0000000000000001"
        (some "old-a")
        (some token_a)
      ≡ ok (after, true))
    × (acquire_server_lease nobody after claim_b 7 token_a ≡ ok (last, some o))
    × (o.machine_id ≡ "m-a")
    × (o.token ≡ token_a)
unfolding acquire_server_lease resolve_machine_request is_project_id is_machine_id
acquire_server_lease-again_example =
    acquire_server_lease-again nobody nobody scheduler_a leased claim_a claim_b 5 7 token_a token_a
      ownership_a claim_a-IsClaim refl refl refl refl

abbrev claim_nameless : Claim
claim_nameless = record claim_a { run_id = "" }

abbrev ownership_nameless : LeaseOwnership
ownership_nameless = record ownership_a { run_id = "" }

abbrev leased_nameless : Scheduler
leased_nameless = record scheduler_a {
  leases = ("m-a", new_lease claim_nameless "m-a" token_a 5) ∷ [];
}

acquire_server_lease-malformed_example :
    (release_dispatch_lease leased_nameless "proj" "alpha" "" (some "old-a") (some token_a)
      ≡ err (malformed_lease "invalid run_id"))
    × (acquire_server_lease nobody leased_nameless claim_b 99000000 token_a
        ≡ err (malformed_lease "invalid run_id"))
unfolding acquire_server_lease is_project_id is_machine_id
acquire_server_lease-malformed_example =
    acquire_server_lease-malformed nobody nobody scheduler_a leased_nameless claim_nameless claim_b
      5 99000000 token_a token_a ownership_nameless refl refl refl refl refl refl refl
