-- ===== src/Doctor/Check.antt =====
-- crates/lattice-doctor/src/check.rs and the errors of lib.rs: checks, their order and what they
-- depend on, their results, and the bounds of a run.
use neon_hearth.Prelude.{
  ℕ, Bool, ◌||◌, String, List, [], ◌∷◌, Option, Result, ok, err, find, ltb, ◌==◌, if◌then◌else◌,
}
use neon_hearth.Prelude.Int.{ℤ}
use neon_hearth.External.{Host}
use neon_hearth.Doctor.Probe.{LeaseState, DnsFailureReason, RouteEntry, max_probe_timeout_ms}

-- `DoctorError`.
pub data DoctorError : Type 0 where
  invalid_confidence invalid_approval : DoctorError
  invalid_budget invalid_config invalid_symptom : String → DoctorError

pub data CheckKind : Type 0 where
  collector_health adapter_link address_dhcp duplicate_ip wifi_quality gateway router_health
        loss_latency mtu dns route_vpn internet_reachability :
      CheckKind

-- The place of a kind in its declaration, by which the derived equality tells kinds apart.
unfoldable pub kind_index : CheckKind → ℕ
kind_index CheckKind.collector_health = 0
kind_index CheckKind.adapter_link = 1
kind_index CheckKind.address_dhcp = 2
kind_index CheckKind.duplicate_ip = 3
kind_index CheckKind.wifi_quality = 4
kind_index CheckKind.gateway = 5
kind_index CheckKind.router_health = 6
kind_index CheckKind.loss_latency = 7
kind_index CheckKind.mtu = 8
kind_index CheckKind.dns = 9
kind_index CheckKind.route_vpn = 10
kind_index CheckKind.internet_reachability = 11

abbrev pub same_kind : CheckKind → CheckKind → Bool
same_kind a b = kind_index a == kind_index b

-- `CheckKind::EXECUTION_ORDER`.
abbrev pub execution_order : List CheckKind
execution_order =
    CheckKind.collector_health ∷ CheckKind.adapter_link ∷ CheckKind.address_dhcp
    ∷ CheckKind.duplicate_ip ∷ CheckKind.wifi_quality ∷ CheckKind.gateway ∷ CheckKind.router_health
    ∷ CheckKind.loss_latency ∷ CheckKind.mtu ∷ CheckKind.dns ∷ CheckKind.route_vpn
    ∷ CheckKind.internet_reachability ∷ []

unfoldable pub dependencies : CheckKind → List CheckKind
dependencies CheckKind.collector_health = []
dependencies CheckKind.adapter_link = CheckKind.collector_health ∷ []
dependencies CheckKind.address_dhcp = CheckKind.adapter_link ∷ []
dependencies CheckKind.wifi_quality = CheckKind.adapter_link ∷ []
dependencies CheckKind.duplicate_ip = CheckKind.address_dhcp ∷ []
dependencies CheckKind.gateway = CheckKind.address_dhcp ∷ []
dependencies CheckKind.router_health = CheckKind.gateway ∷ []
dependencies CheckKind.loss_latency = CheckKind.gateway ∷ []
dependencies CheckKind.mtu = CheckKind.gateway ∷ []
dependencies CheckKind.dns = CheckKind.gateway ∷ []
dependencies CheckKind.route_vpn = CheckKind.dns ∷ []
dependencies CheckKind.internet_reachability = CheckKind.address_dhcp ∷ []

pub record Confidence : Type 0 where
  pub basis_points : ℕ

abbrev pub low : Confidence
low = record { basis_points = 4000 }

abbrev pub medium : Confidence
medium = record { basis_points = 7000 }

abbrev pub high : Confidence
high = record { basis_points = 9500 }

-- `Confidence::try_new`.
pub try_new : ℕ → Result Confidence DoctorError
try_new basis_points =
    if ltb 10000 basis_points
    then err DoctorError.invalid_confidence
    else ok (record { basis_points = basis_points })

pub data Metric : Type 0 where
  collector_privileged capture_healthy worker_running link_up link_speed_mbps address_present
        lease_valid conflicting_mac_count rssi_dbm retry_percent rtt_ms loss_percent dns_latency_ms
        resolver_failure_count default_route_count router_responsive passing_mtu_bytes
        failing_mtu_bytes reachability_success :
      Metric

pub data MeasureUnit : Type 0 where
  milliseconds percent dbm bytes megabits_per_second count boolean : MeasureUnit

pub record Measurement (h : Host) : Type 0 where
  pub metric : Metric
  pub value : h.Float
  pub measure_unit : MeasureUnit
  pub observed_at : h.DateTime

pub data SkipReason : Type 0 where
  dependency_failed : (dependency : CheckKind) → SkipReason
  dependency_skipped : (dependency : CheckKind) → SkipReason
  budget_exhausted : SkipReason

pub data CheckStatus : Type 0 where
  passed failed : CheckStatus
  skipped : (because : SkipReason) → CheckStatus

pub data ResolverOutcome (h : Host) : Type 0 where
  answered : (latency_ms : h.Float) → ResolverOutcome h
  failed : (reason : DnsFailureReason) → ResolverOutcome h
  unavailable : (error : String) → ResolverOutcome h

pub record ResolverEvidence (h : Host) : Type 0 where
  pub resolver : String
  pub independent : Bool
  pub outcome : ResolverOutcome h

pub data CheckDetail (h : Host) : Type 0 where
  probe_failure : (error : String) → CheckDetail h
  collector : (privileged capture_ok worker_running : Bool) → CheckDetail h
  link : (up : Bool) → CheckDetail h
  address : (address : Option String) (lease : LeaseState) → CheckDetail h
  duplicate_ip : (address : String) (macs : List String) → CheckDetail h
  wifi : (wireless : Bool) (rssi_dbm : Option ℤ) (retry_percent : Option h.Float) → CheckDetail h
  gateway_ping : (sent received : ℕ) → CheckDetail h
  router : (responsive : Bool) → CheckDetail h
  loss_latency : (loss_percent : h.Float) (median_rtt_ms : Option h.Float) → CheckDetail h
  mtu : (largest_passing_bytes smallest_failing_bytes : Option ℕ) → CheckDetail h
  dns : (resolvers : List (ResolverEvidence h)) → CheckDetail h
  route : (default_routes : List RouteEntry) (vpn_conflict : Bool) → CheckDetail h
  internet : (reachable lan_ok : Bool) → CheckDetail h

pub record CheckResult (h : Host) : Type 0 where
  pub kind : CheckKind
  pub status : CheckStatus
  pub evidence : List (Measurement h)
  pub confidence : Confidence
  pub detail : Option (CheckDetail h)

pub record DiagnosticBudget : Type 0 where
  pub max_probes : ℕ
  pub per_probe_timeout_ms : ℕ

-- `DiagnosticBudget::new`.
pub new_budget : ℕ → ℕ → Result DiagnosticBudget DoctorError
new_budget max_probes per_probe_timeout_ms =
    if max_probes == 0
    then err (DoctorError.invalid_budget "max_probes must be at least 1")
    else if per_probe_timeout_ms == 0 || ltb max_probe_timeout_ms per_probe_timeout_ms
    then err (DoctorError.invalid_budget "per_probe_timeout_ms must be in 1..=10000")
    else ok (record { max_probes = max_probes; per_probe_timeout_ms = per_probe_timeout_ms })

pub record DiagnosticReport (h : Host) : Type 0 where
  pub started_at : h.DateTime
  pub finished_at : h.DateTime
  pub budget : DiagnosticBudget
  pub probes_used : ℕ
  pub budget_exhausted : Bool
  pub checks : List (CheckResult h)

-- The engine's `find` and, on a report, `DiagnosticReport::check`.
abbrev pub find_check : {h : Host} → List (CheckResult h) → CheckKind → Option (CheckResult h)
find_check checks kind = find (λ check. same_kind check.kind kind) checks
