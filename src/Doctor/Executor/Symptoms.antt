-- ===== src/Doctor/Executor/Symptoms.antt =====
-- crates/lattice-doctor/src/executor.rs: the symptom of a repair, its readings and their comparison.
use neon_hearth.Prelude.{
  ℕ, Bool, not, ◌||◌, String, List, none, some, Result, ok, err, find, ◌==◌, if◌then◌else◌,
}
use neon_hearth.Text.{concat}
use neon_hearth.External.{Host}
use neon_hearth.Doctor.Check.{CheckKind, Metric, Measurement, DoctorError}
use neon_hearth.Doctor.Executor.Types.{RepairTransportError, transport_error_text, Verdict}

pub data MetricDirection : Type 0 where
  lower_is_better higher_is_better : MetricDirection

pub record Symptom (h : Host) : Type 0 where
  pub check : CheckKind
  pub metric : Metric
  pub direction : MetricDirection
  pub min_meaningful_delta : h.Float

-- The place of a metric in its declaration, by which the derived equality tells metrics apart.
unfoldable pub metric_index : Metric → ℕ
metric_index Metric.collector_privileged = 0
metric_index Metric.capture_healthy = 1
metric_index Metric.worker_running = 2
metric_index Metric.link_up = 3
metric_index Metric.link_speed_mbps = 4
metric_index Metric.address_present = 5
metric_index Metric.lease_valid = 6
metric_index Metric.conflicting_mac_count = 7
metric_index Metric.rssi_dbm = 8
metric_index Metric.retry_percent = 9
metric_index Metric.rtt_ms = 10
metric_index Metric.loss_percent = 11
metric_index Metric.dns_latency_ms = 12
metric_index Metric.resolver_failure_count = 13
metric_index Metric.default_route_count = 14
metric_index Metric.router_responsive = 15
metric_index Metric.passing_mtu_bytes = 16
metric_index Metric.failing_mtu_bytes = 17
metric_index Metric.reachability_success = 18

abbrev pub same_metric : Metric → Metric → Bool
same_metric a b = metric_index a == metric_index b

-- The derived `Debug` of `Metric`.
pub metric_debug : Metric → String
metric_debug Metric.collector_privileged = "CollectorPrivileged"
metric_debug Metric.capture_healthy = "CaptureHealthy"
metric_debug Metric.worker_running = "WorkerRunning"
metric_debug Metric.link_up = "LinkUp"
metric_debug Metric.link_speed_mbps = "LinkSpeedMbps"
metric_debug Metric.address_present = "AddressPresent"
metric_debug Metric.lease_valid = "LeaseValid"
metric_debug Metric.conflicting_mac_count = "ConflictingMacCount"
metric_debug Metric.rssi_dbm = "RssiDbm"
metric_debug Metric.retry_percent = "RetryPercent"
metric_debug Metric.rtt_ms = "RttMs"
metric_debug Metric.loss_percent = "LossPercent"
metric_debug Metric.dns_latency_ms = "DnsLatencyMs"
metric_debug Metric.resolver_failure_count = "ResolverFailureCount"
metric_debug Metric.default_route_count = "DefaultRouteCount"
metric_debug Metric.router_responsive = "RouterResponsive"
metric_debug Metric.passing_mtu_bytes = "PassingMtuBytes"
metric_debug Metric.failing_mtu_bytes = "FailingMtuBytes"
metric_debug Metric.reachability_success = "ReachabilitySuccess"

module _ (h : Host) where
  open h use {f64}

  -- `Symptom::new`.
  unfoldable pub new_symptom :
      CheckKind → Metric → MetricDirection → h.Float → Result (Symptom h) DoctorError
  new_symptom check metric direction min_meaningful_delta =
      if not (f64.is_finite min_meaningful_delta) || f64.le min_meaningful_delta (f64.from_ℕ 0)
      then err (DoctorError.invalid_symptom "min_meaningful_delta must be finite and positive")
      else ok (record {
        check = check;
        metric = metric;
        direction = direction;
        min_meaningful_delta = min_meaningful_delta;
      })

  pub missing_text : Metric → String
  missing_text metric =
      concat "symptom metric " (concat (metric_debug metric) " missing from re-measurement")

  -- What `measure_symptom` makes of the transport's answer.
  unfoldable pub symptom_of :
      Symptom h → Result (List (Measurement h)) RepairTransportError → Result (Measurement h) String
  symptom_of symptom (err error) = err (transport_error_text error)
  symptom_of symptom (ok measurements) =
      elim (find (λ m. same_metric m.metric symptom.metric) measurements) [
        | some m ↦ ok m
        | none ↦ err (missing_text symptom.metric)
      ]

  unfoldable pub finite : Measurement h → Result (Measurement h) String
  finite m =
      if f64.is_finite m.value
      then ok m
      else err (
          concat "symptom metric " (
            concat (metric_debug m.metric)
              (concat " measured a non-finite value (" (concat (f64.display m.value) ")"))))

  -- `and_then` with `finite`.
  abbrev pub and_finite : Result (Measurement h) String → Result (Measurement h) String
  and_finite (err error) = err error
  and_finite (ok m) = finite m

  unfoldable pub improvement : MetricDirection → h.Float → h.Float → h.Float
  improvement MetricDirection.lower_is_better before after = f64.sub before after
  improvement MetricDirection.higher_is_better before after = f64.sub after before

  unfoldable pub compare : Symptom h → h.Float → h.Float → Verdict
  compare symptom before after =
      let gain = improvement symptom.direction before after in
      if f64.le symptom.min_meaningful_delta gain
      then Verdict.improved
      else if f64.le gain (f64.neg symptom.min_meaningful_delta)
      then Verdict.regressed
      else Verdict.unchanged
