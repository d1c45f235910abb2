-- ===== src/Doctor/Tests.antt =====
-- crates/lattice-doctor: diagnoses, plans and executions on concrete input.
use neon_hearth.Prelude.{
  Holds, Result, refl, ltb, if◌then◌else◌, ℕ, suc, ◌+◌, ◌≡◌, true, false, [], ◌∷◌, map, some, none,
  ok, err, retain, All,
}
use neon_hearth.Prelude.Int.{negsuc}
use neon_hearth.Prelude.Sorting.{sort_by, insert, dedup, min_by}
use neon_hearth.External.Sample.{sample_host}
use neon_hearth.Doctor.Probe.{ProbeRequest, ProbeResponse, LeaseState, ProbeTransport, ProbeError}
use neon_hearth.Doctor.Check.{
  CheckKind, CheckStatus, CheckDetail, CheckResult, Metric, MeasureUnit, Measurement,
  DiagnosticReport, high,
}
use neon_hearth.Doctor.Engine.{DiagnosticEngine, run}
use neon_hearth.Doctor.Engine.Config.{DoctorConfig}
use neon_hearth.Doctor.Engine.Session.{send, measurement}
use neon_hearth.Doctor.Engine.Results.{conclude}
use neon_hearth.Doctor.Engine.PathChecks.{check_mtu, mtu_loop, probe_sizes, conclude_mtu}
use neon_hearth.Doctor.Mtu.{planned_mtu, is_one_of, planned_mtu_configured}
use neon_hearth.Doctor.Diagnosis.{kind_for, kind_of_detail, diagnose, is_failed}
use neon_hearth.Doctor.Diagnosis.Failures.{
  diagnosed_check, is_probe_failure, reports_probe_failure, diagnose_each, run_diagnosed,
}
use neon_hearth.Doctor.Repair.{RepairContext, SafeAction, ExecutableRepair, plan_repair}
use neon_hearth.Doctor.Repair.Plans.{Warranted, plan_repair-Warranted}
use neon_hearth.Doctor.Executor.{recorded, execute}
use neon_hearth.Doctor.Executor.Types.{RepairTransport}
use neon_hearth.Doctor.Executor.Symptoms.{Symptom, MetricDirection}
use neon_hearth.Doctor.Executor.Runs.{Conforms, execute-Conforms}
use neon_hearth.Doctor.Executor.Arguments.{IsTrace, traced, execute-IsTrace}
use neon_hearth.Doctor.Executor.Verdicts.{Judged, execute-Judged}

abbrev lost_lease : CheckResult sample_host
lost_lease = record {
  kind = CheckKind.address_dhcp;
  status = CheckStatus.failed;
  evidence = [];
  confidence = high;
  detail = some (CheckDetail.address none LeaseState.expired);
}

abbrev good_link : CheckResult sample_host
good_link = record {
  kind = CheckKind.adapter_link;
  status = CheckStatus.passed;
  evidence = [];
  confidence = high;
  detail = some (CheckDetail.link true);
}

abbrev report : DiagnosticReport sample_host
report = record {
  started_at = 0;
  finished_at = 9;
  budget = record { max_probes = 2; per_probe_timeout_ms = 10 };
  probes_used = 2;
  budget_exhausted = false;
  checks = good_link ∷ lost_lease ∷ [];
}

diagnose_each_example :
    map (λ d. diagnosed_check d.kind) (diagnose report) ≡ CheckKind.address_dhcp ∷ []
diagnose_each_example = diagnose_each report

-- No probe gets through.
abbrev dead_network : ProbeTransport sample_host ℕ
dead_network = record { probe = λ p w. (err ProbeError.timeout, suc w); now = λ w. (w, w) }

abbrev engine : DiagnosticEngine sample_host
engine = record {
  config = record {
    interface = "eth0";
    gateway = "192.168.1.1";
    configured_resolvers = "192.168.1.1" ∷ [];
    independent_resolver = "9.9.9.9";
    internet_probe_address = "1.1.1.1";
    internet_probe_port = 443;
    dns_probe_name = "example.com";
    ping_count = 2;
    mtu_probe_sizes = 1472 ∷ [];
    thresholds = record {
      degraded_loss_percent = 1010;
      degraded_median_rtt_ms = 1150;
      weak_rssi_dbm = negsuc 74;
    };
  };
  budget = record { max_probes = 20; per_probe_timeout_ms = 500 };
}

run_diagnosed_example :
    All
      (λ r. is_probe_failure (kind_for r) ≡ reports_probe_failure r.detail)
      (retain (λ r. is_failed r.status) (run sample_host dead_network engine 0).0.checks)
run_diagnosed_example = run_diagnosed sample_host dead_network engine 0

abbrev careful_context : RepairContext
careful_context = record {
  interface = "eth0";
  lease_renewal_severs_only_management_path = true;
  fallback_dns_servers = [];
}

plan_repair-Warranted_example :
    Warranted
      (kind_for lost_lease)
      careful_context
      (plan_repair (kind_for lost_lease) careful_context)
plan_repair-Warranted_example = plan_repair-Warranted (kind_for lost_lease) careful_context

-- A router whose loss grows with every measurement.
abbrev measured_loss : ℕ → Measurement sample_host
measured_loss value = record {
  metric = Metric.loss_percent;
  value = value;
  measure_unit = MeasureUnit.percent;
  observed_at = 0;
}

abbrev worsening : RepairTransport sample_host ℕ
worsening = record {
  snapshot = λ keys w. (ok [], w);
  apply = λ repair w. (ok tt, w);
  restore = λ entries w. (ok tt, w);
  measure = λ check w. (ok (measured_loss (1000 + w) ∷ []), w + 30);
  now = λ w. (w, w);
}

abbrev loss_symptom : Symptom sample_host
loss_symptom = record {
  check = CheckKind.loss_latency;
  metric = Metric.loss_percent;
  direction = MetricDirection.lower_is_better;
  min_meaningful_delta = 1005;
}

abbrev refresh : ExecutableRepair
refresh = ExecutableRepair.safe SafeAction.refresh_app_caches

execute-Conforms_example :
    let r =
      execute sample_host
        (recorded worsening)
        refresh
        loss_symptom
        (record { world = 0; calls = [] }) in
    Conforms refresh r.0 r.1.calls
execute-Conforms_example = execute-Conforms sample_host worsening refresh loss_symptom 0

execute-IsTrace_example :
    IsTrace refresh loss_symptom
      (execute sample_host
        (traced worsening)
        refresh
        loss_symptom
        (record { world = 0; log = [] })).1.log
execute-IsTrace_example = execute-IsTrace sample_host worsening refresh loss_symptom 0

execute-Judged_example :
    let r = (execute sample_host worsening refresh loss_symptom 0).0 in
    Judged sample_host loss_symptom r.outcome r.verification
execute-Judged_example = execute-Judged sample_host worsening refresh loss_symptom 0

-- A path that swallows echoes above 1400 bytes.
abbrev swallowing : ProbeRequest → Result (ProbeResponse sample_host) ProbeError
swallowing (ProbeRequest.ping target payload dont_fragment) =
    if ltb 1400 payload then ok ProbeResponse.ping_timeout else ok (ProbeResponse.ping_reply 1020)
swallowing _ = err ProbeError.unsupported

abbrev narrow_path : ProbeTransport sample_host ℕ
narrow_path = record { probe = λ p w. (swallowing p.request, w); now = λ w. (w, w) }

abbrev narrow_config : DoctorConfig sample_host
narrow_config = record engine.config { mtu_probe_sizes = 1472 ∷ 1400 ∷ 1280 ∷ [] }

planned_mtu_configured_example :
    Holds
      (λ n. is_one_of (1472 ∷ 1400 ∷ 1280 ∷ []) n ≡ true)
      (planned_mtu (
        plan_repair
          (kind_for
            (check_mtu sample_host narrow_path narrow_config engine.budget
              (record { used = 0; world = 0 })).0)
          careful_context))
planned_mtu_configured_example =
    planned_mtu_configured sample_host narrow_path narrow_config engine.budget careful_context
      (record { used = 0; world = 0 })

narrow_path_plan :
    planned_mtu (
      plan_repair
        (kind_for
          (check_mtu sample_host narrow_path narrow_config engine.budget
            (record { used = 0; world = 0 })).0)
        careful_context)
    ≡ some 1400
unfolding check_mtu mtu_loop probe_sizes conclude_mtu conclude send measurement kind_for
    kind_of_detail plan_repair sort_by insert dedup min_by
narrow_path_plan = refl
