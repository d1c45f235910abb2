-- ===== src/Doctor/Engine/HostChecks.antt =====
-- crates/lattice-doctor/src/engine.rs: the checks of the host's own state: collector, link,
-- address, duplicate address and Wi-Fi.
use mathlib.Core.Option
use neon_hearth.Prelude.{
  Bool, true, false, ◌&&◌, String, List, [], ◌∷◌, length, Option, none, some, Result, ok, err, leb,
  is_some,
}
use neon_hearth.Prelude.Int.{leb_ℤ}
use neon_hearth.External.{Host}
use neon_hearth.Doctor.Probe.{
  ProbeRequest, ProbeResponse, ProbeError, ProbeTransport, LeaseState, probe_error_text,
}
use neon_hearth.Doctor.Check.{
  CheckKind, CheckDetail, CheckResult, Metric, MeasureUnit, Measurement, DiagnosticBudget, high,
  find_check,
}
use neon_hearth.Doctor.Engine.Config.{DoctorConfig}
use neon_hearth.Doctor.Engine.Session.{M, ◌>>=◌, pure, send, measurement}
use neon_hearth.Doctor.Engine.Results.{conclude, failed_probe, unexpected_response, bool_value}

-- `matches!(lease, LeaseState::Valid | LeaseState::Static)`.
abbrev pub lease_ok : LeaseState → Bool
lease_ok LeaseState.valid = true
lease_ok LeaseState.static = true
lease_ok _ = false

-- The confirmed address of the address check's detail.
abbrev pub detail_address : {h : Host} → Option (CheckDetail h) → Option String
detail_address (some (CheckDetail.address (some address) lease)) = some address
detail_address _ = none

abbrev pub confirmed_address : {h : Host} → List (CheckResult h) → Option String
confirmed_address prior = elim (find_check prior CheckKind.address_dhcp) [
  | none ↦ none
  | some result ↦ detail_address result.detail
]

module _ (h : Host) {W : Type 0} (t : ProbeTransport h W) (config : DoctorConfig h) where
  open h use {Float}
  open h.f64 use {from_ℕ, from_ℤ}

  abbrev Answer : Type 0
  Answer = Result (ProbeResponse h) ProbeError

  -- A measured value and those that follow it.
  abbrev pub measure_some : Option Float → Metric → MeasureUnit → M W (List (Measurement h))
  measure_some none metric measure_unit = pure []
  measure_some (some value) metric measure_unit = do
    m ← measurement h t metric value measure_unit
    pure (m ∷ [])

  unfoldable pub conclude_collector : Answer → M W (CheckResult h)
  conclude_collector (ok (ProbeResponse.collector_status privileged capture_ok worker_running)) = do
    a ←
        measurement h t Metric.collector_privileged (bool_value h.f64 privileged)
          MeasureUnit.boolean
    b ← measurement h t Metric.capture_healthy (bool_value h.f64 capture_ok) MeasureUnit.boolean
    e ← measurement h t Metric.worker_running (bool_value h.f64 worker_running) MeasureUnit.boolean
    pure (
        conclude CheckKind.collector_health (privileged && capture_ok && worker_running)
          (a ∷ b ∷ e ∷ []) high (CheckDetail.collector privileged capture_ok worker_running))
  conclude_collector (ok _) = pure (failed_probe CheckKind.collector_health unexpected_response)
  conclude_collector (err error) =
      pure (failed_probe CheckKind.collector_health (probe_error_text error))

  unfoldable pub check_collector : DiagnosticBudget → M W (CheckResult h)
  check_collector budget = do
    answer ← send h t budget ProbeRequest.collector_status
    conclude_collector answer

  unfoldable pub conclude_link : Answer → M W (CheckResult h)
  conclude_link (ok (ProbeResponse.link_status up speed_mbps)) = do
    a ← measurement h t Metric.link_up (bool_value h.f64 up) MeasureUnit.boolean
    rest ←
        measure_some (Option.map from_ℕ speed_mbps) Metric.link_speed_mbps
          MeasureUnit.megabits_per_second
    pure (conclude CheckKind.adapter_link up (a ∷ rest) high (CheckDetail.link up))
  conclude_link (ok _) = pure (failed_probe CheckKind.adapter_link unexpected_response)
  conclude_link (err error) = pure (failed_probe CheckKind.adapter_link (probe_error_text error))

  unfoldable pub check_adapter_link : DiagnosticBudget → M W (CheckResult h)
  check_adapter_link budget = do
    answer ← send h t budget (ProbeRequest.link_status config.interface)
    conclude_link answer

  unfoldable pub conclude_address : Answer → M W (CheckResult h)
  conclude_address (ok (ProbeResponse.ip_config address lease)) = do
    a ←
        measurement h t Metric.address_present (bool_value h.f64 (is_some address))
          MeasureUnit.boolean
    b ← measurement h t Metric.lease_valid (bool_value h.f64 (lease_ok lease)) MeasureUnit.boolean
    pure (
        conclude CheckKind.address_dhcp (is_some address && lease_ok lease) (a ∷ b ∷ []) high
          (CheckDetail.address address lease))
  conclude_address (ok _) = pure (failed_probe CheckKind.address_dhcp unexpected_response)
  conclude_address (err error) = pure (failed_probe CheckKind.address_dhcp (probe_error_text error))

  unfoldable pub check_address : DiagnosticBudget → M W (CheckResult h)
  check_address budget = do
    answer ← send h t budget (ProbeRequest.ip_config config.interface)
    conclude_address answer

  unfoldable pub conclude_duplicate_ip : String → Answer → M W (CheckResult h)
  conclude_duplicate_ip address (ok (ProbeResponse.arp_probe responding_macs)) = do
    a ←
        measurement h t Metric.conflicting_mac_count (from_ℕ (length responding_macs))
          MeasureUnit.count
    pure (
        conclude CheckKind.duplicate_ip (leb (length responding_macs) 1) (a ∷ []) high
          (CheckDetail.duplicate_ip address responding_macs))
  conclude_duplicate_ip address (ok _) =
      pure (failed_probe CheckKind.duplicate_ip unexpected_response)
  conclude_duplicate_ip address (err error) =
      pure (failed_probe CheckKind.duplicate_ip (probe_error_text error))

  unfoldable pub check_duplicate_ip : DiagnosticBudget → List (CheckResult h) → M W (CheckResult h)
  check_duplicate_ip budget prior = elim (confirmed_address prior) [
    | none ↦ pure (failed_probe CheckKind.duplicate_ip "no confirmed local address available")
    | some address ↦ do
      answer ← send h t budget (ProbeRequest.arp_probe config.interface address)
      conclude_duplicate_ip address answer
  ]

  unfoldable pub conclude_wifi : Answer → M W (CheckResult h)
  conclude_wifi (ok (ProbeResponse.wifi_metrics false rssi_dbm retry_percent)) =
      pure (conclude CheckKind.wifi_quality true [] high (CheckDetail.wifi false none none))
  conclude_wifi (ok (ProbeResponse.wifi_metrics true none retry_percent)) =
      pure (failed_probe CheckKind.wifi_quality "wireless interface reported no signal metric")
  conclude_wifi (ok (ProbeResponse.wifi_metrics true (some rssi) retry_percent)) = do
    a ← measurement h t Metric.rssi_dbm (from_ℤ rssi) MeasureUnit.dbm
    rest ← measure_some retry_percent Metric.retry_percent MeasureUnit.percent
    pure (
        conclude CheckKind.wifi_quality (leb_ℤ config.thresholds.weak_rssi_dbm rssi) (a ∷ rest) high
          (CheckDetail.wifi true (some rssi) retry_percent))
  conclude_wifi (ok _) = pure (failed_probe CheckKind.wifi_quality unexpected_response)
  conclude_wifi (err error) = pure (failed_probe CheckKind.wifi_quality (probe_error_text error))

  unfoldable pub check_wifi : DiagnosticBudget → M W (CheckResult h)
  check_wifi budget = do
    answer ← send h t budget (ProbeRequest.wifi_metrics config.interface)
    conclude_wifi answer
