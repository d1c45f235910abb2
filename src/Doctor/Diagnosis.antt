-- ===== src/Doctor/Diagnosis.antt =====
-- crates/lattice-doctor/src/diagnosis.rs: typed diagnoses from the failed checks of a report.
pub mod Failures
use neon_hearth.Prelude.{
  ℕ, Bool, true, false, String, List, [], ◌∷◌, map, Option, none, some, retain,
}
use neon_hearth.Prelude.Int.{ℤ}
use neon_hearth.External.{Host}
use neon_hearth.Doctor.Probe.{LeaseState, RouteEntry}
use neon_hearth.Doctor.Check.{
  CheckKind, CheckStatus, CheckDetail, CheckResult, Confidence, DiagnosticReport, Measurement,
  ResolverEvidence,
}

pub data DiagnosisKind (h : Host) : Type 0 where
  collector_fault : (privileged capture_ok worker_running : Bool) → DiagnosisKind h
  adapter_link_down : DiagnosisKind h
  address_missing : (lease : LeaseState) → DiagnosisKind h
  duplicate_ip : (address : String) (macs : List String) → DiagnosisKind h
  weak_wifi_quality : (rssi_dbm : ℤ) → DiagnosisKind h
  gateway_unreachable : DiagnosisKind h
  router_fault : DiagnosisKind h
  loss_latency_degraded :
      (loss_percent : h.Float) (median_rtt_ms : Option h.Float) → DiagnosisKind h
  mtu_blackhole : (largest_passing_bytes smallest_failing_bytes : Option ℕ) → DiagnosisKind h
  dns_failure : (resolvers : List (ResolverEvidence h)) → DiagnosisKind h
  route_vpn_conflict : (default_routes : List RouteEntry) → DiagnosisKind h
  internet_unreachable : (lan_ok : Bool) → DiagnosisKind h
  diagnostic_probe_failure : (check : CheckKind) (error : String) → DiagnosisKind h

pub record Diagnosis (h : Host) : Type 0 where
  pub kind : DiagnosisKind h
  pub evidence : List (Measurement h)
  pub confidence : Confidence
  pub impact : String

abbrev pub inconsistent_detail : String
inconsistent_detail = "diagnostic detail missing or inconsistent"

abbrev pub is_failed : CheckStatus → Bool
is_failed CheckStatus.failed = true
is_failed _ = false

module _ {h : Host} where
  -- The `match` of `kind_for`; the first clause is the test above it.
  unfoldable pub kind_of_detail : CheckKind → Option (CheckDetail h) → DiagnosisKind h
  kind_of_detail check (some (CheckDetail.probe_failure error)) =
      DiagnosisKind.diagnostic_probe_failure check error
  kind_of_detail CheckKind.collector_health (some (CheckDetail.collector p c w)) =
      DiagnosisKind.collector_fault p c w
  kind_of_detail CheckKind.adapter_link _ = DiagnosisKind.adapter_link_down
  kind_of_detail CheckKind.address_dhcp (some (CheckDetail.address address lease)) =
      DiagnosisKind.address_missing lease
  kind_of_detail CheckKind.duplicate_ip (some (CheckDetail.duplicate_ip address macs)) =
      DiagnosisKind.duplicate_ip address macs
  kind_of_detail CheckKind.wifi_quality (some (CheckDetail.wifi wireless (some rssi) retry)) =
      DiagnosisKind.weak_wifi_quality rssi
  kind_of_detail CheckKind.gateway _ = DiagnosisKind.gateway_unreachable
  kind_of_detail CheckKind.router_health _ = DiagnosisKind.router_fault
  kind_of_detail CheckKind.loss_latency (some (CheckDetail.loss_latency loss rtt)) =
      DiagnosisKind.loss_latency_degraded loss rtt
  kind_of_detail CheckKind.mtu (some (CheckDetail.mtu largest smallest)) =
      DiagnosisKind.mtu_blackhole largest smallest
  kind_of_detail CheckKind.dns (some (CheckDetail.dns resolvers)) =
      DiagnosisKind.dns_failure resolvers
  kind_of_detail CheckKind.route_vpn (some (CheckDetail.route routes conflict)) =
      DiagnosisKind.route_vpn_conflict routes
  kind_of_detail CheckKind.internet_reachability (some (CheckDetail.internet reachable lan_ok)) =
      DiagnosisKind.internet_unreachable lan_ok
  kind_of_detail check _ = DiagnosisKind.diagnostic_probe_failure check inconsistent_detail

  unfoldable pub kind_for : CheckResult h → DiagnosisKind h
  kind_for result = kind_of_detail result.kind result.detail

  pub impact_for : DiagnosisKind h → String
  impact_for (DiagnosisKind.collector_fault p c w) =
      "NeonHearth cannot observe the network; monitoring and protection are degraded."
  impact_for DiagnosisKind.adapter_link_down =
      "No traffic can flow on this adapter; every dependent service is offline."
  impact_for (DiagnosisKind.address_missing lease) =
      "The host has no usable IP address; nothing on the network can be reached."
  impact_for (DiagnosisKind.duplicate_ip address macs) =
      "Two devices claim the same address; connections will fail intermittently."
  impact_for (DiagnosisKind.weak_wifi_quality rssi) =
      "Weak Wi-Fi signal causes slow transfers and dropped connections."
  impact_for DiagnosisKind.gateway_unreachable =
      "The router cannot be reached; all traffic beyond this host is blocked."
  impact_for DiagnosisKind.router_fault =
      "The router's management interface is unhealthy; visibility and control are reduced."
  impact_for (DiagnosisKind.loss_latency_degraded loss rtt) =
      "Packet loss or latency is elevated; calls, streams, and games will stutter."
  impact_for (DiagnosisKind.mtu_blackhole largest smallest) =
      "Large packets are silently dropped; some sites and VPNs will hang."
  impact_for (DiagnosisKind.dns_failure resolvers) =
      "Name resolution is failing; sites appear down even though the connection is up."
  impact_for (DiagnosisKind.route_vpn_conflict routes) =
      "The default route is missing or contested; traffic may take a broken path."
  impact_for (DiagnosisKind.internet_unreachable true) =
      "The local network works but the internet is down; the fault is on the WAN side."
  impact_for (DiagnosisKind.internet_unreachable false) =
      "Neither the local network nor the internet is reachable from this host."
  impact_for (DiagnosisKind.diagnostic_probe_failure check error) =
      "A diagnostic probe could not run; this area of the network is unassessed."

  unfoldable pub diagnosis_for : CheckResult h → Diagnosis h
  diagnosis_for result = record {
    kind = kind_for result;
    evidence = result.evidence;
    confidence = result.confidence;
    impact = impact_for (kind_for result);
  }

  unfoldable pub diagnose : DiagnosticReport h → List (Diagnosis h)
  diagnose report = map diagnosis_for (retain (λ check. is_failed check.status) report.checks)
