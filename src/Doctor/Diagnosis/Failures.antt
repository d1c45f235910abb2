-- ===== src/Doctor/Diagnosis/Failures.antt =====
-- crates/lattice-doctor/src/diagnosis.rs: which diagnoses a report gets.
use neon_hearth.Prelude.{
  ◌≡◌, refl, ◌⊎◌, inl, inr, Bool, true, false, List, [], ◌∷◌, map, Option, some, retain, All, arith,
  Bool-cases,
}
use neon_hearth.External.{Host}
use neon_hearth.Doctor.Probe.{ProbeTransport}
use neon_hearth.Doctor.Check.{CheckKind, CheckStatus, CheckDetail, CheckResult, DiagnosticReport}
use neon_hearth.Doctor.Diagnosis.{
  DiagnosisKind, kind_of_detail, kind_for, is_failed, diagnosis_for, diagnose,
}
use neon_hearth.Doctor.Engine.{DiagnosticEngine, run}
use neon_hearth.Doctor.Engine.Details.{DetailAccounts}
use neon_hearth.Doctor.Engine.Blame.{is_skipped}
use neon_hearth.Doctor.Engine.Config.{Thresholds}
use neon_hearth.Doctor.Engine.Order.{RanOrSkipped}
use neon_hearth.Doctor.Engine.Report.{run_explained}

module _ {h : Host} where
  -- The check that a diagnosis is about.
  abbrev pub diagnosed_check : DiagnosisKind h → CheckKind
  diagnosed_check (DiagnosisKind.collector_fault p c w) = CheckKind.collector_health
  diagnosed_check DiagnosisKind.adapter_link_down = CheckKind.adapter_link
  diagnosed_check (DiagnosisKind.address_missing lease) = CheckKind.address_dhcp
  diagnosed_check (DiagnosisKind.duplicate_ip address macs) = CheckKind.duplicate_ip
  diagnosed_check (DiagnosisKind.weak_wifi_quality rssi) = CheckKind.wifi_quality
  diagnosed_check DiagnosisKind.gateway_unreachable = CheckKind.gateway
  diagnosed_check DiagnosisKind.router_fault = CheckKind.router_health
  diagnosed_check (DiagnosisKind.loss_latency_degraded loss rtt) = CheckKind.loss_latency
  diagnosed_check (DiagnosisKind.mtu_blackhole largest smallest) = CheckKind.mtu
  diagnosed_check (DiagnosisKind.dns_failure resolvers) = CheckKind.dns
  diagnosed_check (DiagnosisKind.route_vpn_conflict routes) = CheckKind.route_vpn
  diagnosed_check (DiagnosisKind.internet_unreachable lan_ok) = CheckKind.internet_reachability
  diagnosed_check (DiagnosisKind.diagnostic_probe_failure check error) = check

  abbrev pub is_probe_failure : DiagnosisKind h → Bool
  is_probe_failure (DiagnosisKind.diagnostic_probe_failure check error) = true
  is_probe_failure _ = false

  abbrev pub reports_probe_failure : Option (CheckDetail h) → Bool
  reports_probe_failure (some (CheckDetail.probe_failure error)) = true
  reports_probe_failure _ = false

  diagnosed_check-kind_of_detail :
      (kind : CheckKind) (detail : Option (CheckDetail h))
      → diagnosed_check (kind_of_detail kind detail) ≡ kind
  unfolding kind_of_detail
  diagnosed_check-kind_of_detail kind detail = ground arith

  diagnosed_results :
      (checks : List (CheckResult h))
      → map (λ d. diagnosed_check d.kind) (map diagnosis_for checks) ≡ map (λ r. r.kind) checks
  unfolding diagnosis_for kind_for
  diagnosed_results [] = refl
  diagnosed_results (r ∷ rs) =
      cc (diagnosed_check-kind_of_detail r.kind r.detail, diagnosed_results rs)

  -- A report gets one diagnosis for each of its failed checks, in the order of the checks, and each
  -- is about the check that it was made from.
  pub diagnose_each :
      (report : DiagnosticReport h)
      → map (λ d. diagnosed_check d.kind) (diagnose report)
        ≡ map (λ r. r.kind) (retain (λ r. is_failed r.status) report.checks)
  unfolding diagnose
  diagnose_each report = diagnosed_results _

  explained_failure :
      (thresholds : Thresholds h) (kind : CheckKind) (detail : Option (CheckDetail h))
      (status : CheckStatus)
      → is_failed status ≡ true
      → (is_skipped status ≡ true) ⊎ DetailAccounts h thresholds kind detail status
      → is_probe_failure (kind_of_detail kind detail) ≡ reports_probe_failure detail
  unfolding kind_of_detail
  explained_failure thresholds kind detail CheckStatus.failed fails explained = ground arith
  explained_failure thresholds kind detail CheckStatus.passed fails explained = absurd (cc fails)
  explained_failure thresholds kind detail (CheckStatus.skipped because) fails explained =
      absurd (cc fails)

  explained_failures :
      (thresholds : Thresholds h) (checks : List (CheckResult h))
      → All (RanOrSkipped thresholds) checks
      → All
          (λ r. is_probe_failure (kind_for r) ≡ reports_probe_failure r.detail)
          (retain (λ r. is_failed r.status) checks)
  unfolding kind_for
  explained_failures thresholds [] explained = tt
  explained_failures thresholds (r ∷ rs) (explained, rest) =
      elim (Bool-cases (is_failed r.status)) [
        | inr e ↦ rw e (explained_failures thresholds rs rest)
        | inl e ↦ rw e (
          explained_failure thresholds r.kind r.detail r.status e
              (elim explained [ inl s ↦ inl s | inr x ↦ inr x.accounted ]),
          explained_failures thresholds rs rest,
        )
      ]

module _ (h : Host) {W : Type 0} (t : ProbeTransport h W) (engine : DiagnosticEngine h) where
  -- Of a run's report, a failed check is diagnosed as a failure of its probe exactly when its detail
  -- is that of a probe failure: the diagnosis of a missing or inconsistent detail is never made.
  pub run_diagnosed :
      (w : W)
      → All
          (λ r. is_probe_failure (kind_for r) ≡ reports_probe_failure r.detail)
          (retain (λ r. is_failed r.status) (run h t engine w).0.checks)
  run_diagnosed w = explained_failures engine.config.thresholds _ (run_explained h t engine w)
