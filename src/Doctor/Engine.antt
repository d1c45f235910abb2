-- ===== src/Doctor/Engine.antt =====
-- crates/lattice-doctor/src/engine.rs: `DiagnosticEngine::run`, over the checks in the modules
-- below.
pub mod Config
pub mod Session
pub mod Results
pub mod HostChecks
pub mod PathChecks
pub mod Effects
pub mod Budget
pub mod Resolvers
pub mod Details
pub mod Explained
pub mod Blame
pub mod Order
pub mod Report
pub mod Tests
use neon_hearth.Prelude.{
  ℕ, ◌+◌, Bool, true, false, ◌||◌, List, [], ◌∷◌, ◌++◌, length, Option, none, some, Result, ok, err,
  ltb, saturating_add, as_u32, if◌then◌else◌,
}
use neon_hearth.External.{Host}
use neon_hearth.Doctor.Probe.{ProbeTransport}
use neon_hearth.Doctor.Check.{
  CheckKind, CheckResult, SkipReason, DiagnosticBudget, DiagnosticReport, DoctorError,
  execution_order,
}
use Config.{DoctorConfig, validate}
use Session.{M, ◌>>=◌, pure}
use Results.{skipped_result, dependency_skip}
use HostChecks.{check_collector, check_adapter_link, check_address, check_duplicate_ip, check_wifi}
use PathChecks.{
  check_gateway, check_router, check_loss_latency, check_mtu, check_dns, check_route_vpn,
  check_internet,
}

pub record DiagnosticEngine (h : Host) : Type 0 where
  pub config : DoctorConfig h
  pub budget : DiagnosticBudget

-- `DiagnosticEngine::with_clock`; the clock is part of the transport's world.
pub new_engine :
    {h : Host} → DoctorConfig h → DiagnosticBudget → Result (DiagnosticEngine h) DoctorError
unfolding validate
new_engine config budget = elim (validate config) [
  | err e ↦ err e
  | ok valid ↦ ok (record { config = valid; budget = budget })
]

-- The most probes that a check may send.
pub probe_cost : {h : Host} → DoctorConfig h → CheckKind → ℕ
probe_cost config CheckKind.gateway = config.ping_count
probe_cost config CheckKind.loss_latency = config.ping_count
probe_cost config CheckKind.mtu = as_u32 (length config.mtu_probe_sizes)
probe_cost config CheckKind.dns = as_u32 (as_u32 (length config.configured_resolvers) + 1)
probe_cost config _ = 1

module _ (h : Host) {W : Type 0} (t : ProbeTransport h W) (engine : DiagnosticEngine h) where
  open engine use {config, budget}

  pub run_check : CheckKind → List (CheckResult h) → M W (CheckResult h)
  run_check CheckKind.collector_health prior = check_collector h t config budget
  run_check CheckKind.adapter_link prior = check_adapter_link h t config budget
  run_check CheckKind.address_dhcp prior = check_address h t config budget
  run_check CheckKind.duplicate_ip prior = check_duplicate_ip h t config budget prior
  run_check CheckKind.wifi_quality prior = check_wifi h t config budget
  run_check CheckKind.gateway prior = check_gateway h t config budget
  run_check CheckKind.router_health prior = check_router h t config budget
  run_check CheckKind.loss_latency prior = check_loss_latency h t config budget
  run_check CheckKind.mtu prior = check_mtu h t config budget
  run_check CheckKind.dns prior = check_dns h t config budget
  run_check CheckKind.route_vpn prior = check_route_vpn h t config budget
  run_check CheckKind.internet_reachability prior = check_internet h t config budget prior

  -- One round of the loop of `run`: the check's result, and whether the budget has run out.
  pub visit : CheckKind → List (CheckResult h) → Bool → M W (CheckResult h × Bool)
  visit kind checks budget_exhausted s = elim (dependency_skip kind checks) [
    | some because ↦ ((skipped_result kind because, budget_exhausted), s)
    | none ↦
        if budget_exhausted
          || ltb budget.max_probes (saturating_add s.used (probe_cost config kind))
        then ((skipped_result kind SkipReason.budget_exhausted, true), s)
        else let outcome = run_check kind checks s in ((outcome.0, budget_exhausted), outcome.1)
  ]

  pub run_loop : List CheckKind → List (CheckResult h) → Bool → M W (List (CheckResult h) × Bool)
  run_loop [] checks budget_exhausted = pure (checks, budget_exhausted)
  run_loop (kind ∷ kinds) checks budget_exhausted = do
    round ← visit kind checks budget_exhausted
    run_loop kinds (checks ++ round.0 ∷ []) round.1

  -- `DiagnosticEngine::run`, from a world to the report and the world after it.
  pub run : W → DiagnosticReport h × W
  run w =
      let started = t.now w in
      let done = run_loop execution_order [] false (record { used = 0; world = started.1 }) in
      let finished = t.now done.1.world in
      (
        record {
          started_at = started.0;
          finished_at = finished.0;
          budget = budget;
          probes_used = done.1.used;
          budget_exhausted = done.0.1;
          checks = done.0.0;
        },
        finished.1,
      )
