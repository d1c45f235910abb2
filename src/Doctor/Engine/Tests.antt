-- ===== src/Doctor/Engine/Tests.antt =====
-- crates/lattice-doctor/src/engine.rs: runs of the engine against a small network, and its theorems
-- there.
use neon_hearth.Prelude.{
  ℕ, suc, ◌≤◌, ◌≡◌, refl, [], ◌∷◌, map, length, any, All, none, some, Result, ok, err, true,
}
use neon_hearth.Prelude.Int.{negsuc}
use neon_hearth.Prelude.Sorting.{min_by}
use neon_hearth.External.Sample.{sample_host}
use neon_hearth.Doctor.Probe.{
  ProbeRequest, ProbeResponse, ProbeError, ProbeTransport, LeaseState, DnsFailureReason, logged,
}
use neon_hearth.Doctor.Check.{
  CheckKind, CheckStatus, SkipReason, DiagnosticBudget, execution_order, dependencies, kind_index,
}
use neon_hearth.Doctor.Engine.{
  DiagnosticEngine, new_engine, run, run_check, run_loop, visit, probe_cost,
}
use neon_hearth.Doctor.Engine.Config.{DoctorConfig, validate, bad_thresholds}
use neon_hearth.Doctor.Engine.Session.{send, measurement}
use neon_hearth.Doctor.Engine.Results.{
  dependency_skip, first_skip, skip_for, skipped_result, conclude, failed_probe,
}
use neon_hearth.Doctor.Engine.HostChecks.{
  check_collector, check_adapter_link, check_address, check_duplicate_ip, check_wifi,
  conclude_collector, conclude_link, conclude_address, conclude_duplicate_ip, conclude_wifi,
}
use neon_hearth.Doctor.Engine.PathChecks.{
  check_gateway, check_router, check_loss_latency, check_mtu, check_dns, check_route_vpn,
  check_internet, conclude_internet, ping_sample, ping_loop,
}
use neon_hearth.Doctor.Engine.Budget.{run_budget, Granted}
use neon_hearth.Doctor.Engine.Details.{Explained}
use neon_hearth.Doctor.Engine.Explained.{run_check-Explained}
use neon_hearth.Doctor.Engine.Blame.{Justified}
use neon_hearth.Doctor.Engine.Order.{RanOrSkipped, Halts, lacks_budget}
use neon_hearth.Doctor.Engine.Report.{run_order, run-Justified, run_exhaustion, run_explained}

-- A network whose gateway does not answer a ping. The world counts the readings of the clock.
abbrev deaf_gateway : ProbeRequest → Result (ProbeResponse sample_host) ProbeError
deaf_gateway ProbeRequest.collector_status = ok (ProbeResponse.collector_status true true true)
deaf_gateway (ProbeRequest.link_status interface) = ok (ProbeResponse.link_status true (some 1000))
deaf_gateway (ProbeRequest.ip_config interface) =
    ok (ProbeResponse.ip_config (some "192.168.1.20") LeaseState.valid)
deaf_gateway (ProbeRequest.arp_probe interface address) =
    ok (ProbeResponse.arp_probe ("aa:bb" ∷ []))
deaf_gateway (ProbeRequest.wifi_metrics interface) =
    ok (ProbeResponse.wifi_metrics true (some (negsuc 84)) none)
deaf_gateway (ProbeRequest.ping target payload dont_fragment) = ok ProbeResponse.ping_timeout
deaf_gateway (ProbeRequest.dns_query resolver name) =
    ok (ProbeResponse.dns_failure DnsFailureReason.timeout)
deaf_gateway ProbeRequest.route_table = ok (ProbeResponse.route_table [])
deaf_gateway ProbeRequest.router_status = ok (ProbeResponse.router_status true none)
deaf_gateway (ProbeRequest.reach_ip address port) = err ProbeError.timeout

abbrev network : ProbeTransport sample_host ℕ
network = record { probe = λ p w. (deaf_gateway p.request, w); now = λ w. (w, suc w) }

abbrev config : DoctorConfig sample_host
config = record {
  interface = "eth0";
  gateway = "192.168.1.1";
  configured_resolvers = "192.168.1.1" ∷ [];
  independent_resolver = "9.9.9.9";
  internet_probe_address = "1.1.1.1";
  internet_probe_port = 443;
  dns_probe_name = "example.com";
  ping_count = 2;
  mtu_probe_sizes = 1472 ∷ [];
  thresholds = record {
    degraded_loss_percent = 1010;
    degraded_median_rtt_ms = 1150;
    weak_rssi_dbm = negsuc 74;
  };
}

abbrev budget : DiagnosticBudget
budget = record { max_probes = 8; per_probe_timeout_ms = 500 }

abbrev engine : DiagnosticEngine sample_host
engine = record { config = config; budget = budget }

engine_is_new : new_engine config budget ≡ ok engine
unfolding new_engine validate bad_thresholds
engine_is_new = refl

run_budget_example :
    let (report, after) =
      run sample_host (logged network) engine (record { world = 0; log = [] }) in
    (report.probes_used ≡ length after.log)
    × (report.probes_used ≤ 8)
    × All (Granted sample_host network budget) after.log
run_budget_example = run_budget sample_host network config budget engine 0 engine_is_new

run_check-Explained_example :
    Explained sample_host config.thresholds CheckKind.dns
      (run_check sample_host network engine CheckKind.dns [] (record { used = 3; world = 5 })).0
run_check-Explained_example =
    run_check-Explained sample_host network engine CheckKind.dns [] (record { used = 3; world = 5 })

run_order_example : map (λ r. r.kind) (run sample_host network engine 0).0.checks ≡ execution_order
run_order_example = run_order sample_host network engine 0

run-Justified_example :
    All
      (Justified (run sample_host network engine 0).0.checks)
      (run sample_host network engine 0).0.checks
run-Justified_example = run-Justified sample_host network engine 0

run_exhaustion_example :
    let report = (run sample_host network engine 0).0 in
    (report.budget_exhausted ≡ any (λ r. lacks_budget r.status) report.checks) × Halts report.checks
run_exhaustion_example = run_exhaustion sample_host network engine 0

run_explained_example :
    All (RanOrSkipped config.thresholds) (run sample_host network engine 0).0.checks
run_explained_example = run_explained sample_host network engine 0

-- The whole run spends its eight probes, and what stands behind the gateway is skipped.
deaf_gateway_run :
    map (λ r. r.status) (run sample_host network engine 0).0.checks
    ≡ CheckStatus.passed
      ∷ CheckStatus.passed
      ∷ CheckStatus.passed
      ∷ CheckStatus.passed
      ∷ CheckStatus.failed
      ∷ CheckStatus.failed
      ∷ CheckStatus.skipped (SkipReason.dependency_failed CheckKind.gateway)
      ∷ CheckStatus.skipped (SkipReason.dependency_failed CheckKind.gateway)
      ∷ CheckStatus.skipped (SkipReason.dependency_failed CheckKind.gateway)
      ∷ CheckStatus.skipped (SkipReason.dependency_failed CheckKind.gateway)
      ∷ CheckStatus.skipped (SkipReason.dependency_skipped CheckKind.dns)
      ∷ CheckStatus.failed
      ∷ []
unfolding run run_loop visit run_check probe_cost dependency_skip first_skip skip_for dependencies
    kind_index skipped_result check_collector check_adapter_link check_address check_duplicate_ip
    check_wifi check_gateway check_router check_loss_latency check_mtu check_dns check_route_vpn
    check_internet conclude_collector conclude_link conclude_address conclude_duplicate_ip
    conclude_wifi conclude_internet ping_sample ping_loop send measurement conclude failed_probe
    min_by
deaf_gateway_run = refl
