-- ===== src/Advisory/Tests.antt =====
-- crates/lattice-advisory/src/match.rs: an advisory, a device and a composed risk.
use neon_hearth.Prelude.{◌≡◌, refl, false, [], ◌∷◌, any, Option, none, some, Result, ok, err}
use neon_hearth.Advisory.Types.{
  AdvisorySource, Freshness, SourceTrust, Severity, Exploitability, Exposure, Confidence,
  Remediation, VersionConstraint, AdvisoryInput, DeviceIdentity, MatchLabel, MatchedField,
  AdvisoryMatch, RiskDimensions, MatchError,
}
use neon_hearth.Advisory.{
  match_advisory, match_device, match_fields, contradiction, exact_allowed, vendor_match,
  model_match, firmware_match, result, from_persisted,
}
use neon_hearth.Advisory.Risk.{
  compose_risk, add_all, add_advisory, add_device, is_active, rank_severity,
}
use neon_hearth.Advisory.Risks.{compose_risk_dimensions, greatest_severity}
use neon_hearth.Advisory.Matching.{
  IsIdentified, match_advisory-IsIdentified, from_persisted-match_advisory,
}

abbrev camera : DeviceIdentity
camera = record {
  vendor = "acme";
  model = some "cam 1";
  firmware = some "1.0";
  contradictory_high_confidence = false;
}

abbrev notice : Severity → AdvisoryInput
notice severity = record {
  source = AdvisorySource.nvd;
  source_id = "CVE-2024-0001";
  vendor = "ACME";
  model = some "Cam 1";
  firmware = VersionConstraint.exact "1.0";
  freshness = Freshness.fresh;
  source_trust = SourceTrust.official_api;
  severity = severity;
  exploitability = Exploitability.proof_of_concept;
  remediation = Remediation.upgrade;
}

abbrev listed : AdvisoryInput
listed = record (notice Severity.critical) {
  source = AdvisorySource.cisa_kev;
  exploitability = Exploitability.active_known_exploitation;
}

abbrev exact_match : AdvisoryMatch
exact_match = record {
  label = MatchLabel.exact;
  matched_fields = MatchedField.vendor ∷ MatchedField.model ∷ MatchedField.firmware ∷ [];
  explanation = "all advisory identity fields match";
  confidence = Confidence.high;
}

matches_exactly : match_advisory (some camera) (notice Severity.high) ≡ ok exact_match
unfolding match_advisory match_device match_fields contradiction exact_allowed vendor_match
    model_match firmware_match result
matches_exactly = refl

match_advisory-IsIdentified_example : IsIdentified (notice Severity.high) camera
match_advisory-IsIdentified_example =
    match_advisory-IsIdentified camera (notice Severity.high) exact_match matches_exactly refl

from_persisted-match_advisory_example :
    (r : AdvisoryMatch) × (match_advisory (some camera) (notice Severity.high) ≡ ok r)
    × (from_persisted r.label r.matched_fields r.explanation r.confidence ≡ ok r)
from_persisted-match_advisory_example =
    from_persisted-match_advisory (some camera) (notice Severity.high)

abbrev composed : RiskDimensions
composed = record {
  severity = Severity.high;
  exploitability = Exploitability.active_known_exploitation;
  exposure = Exposure.unknown;
  confidence = Confidence.low;
  remediation = Remediation.upgrade;
}

composes : compose_risk (notice Severity.high ∷ listed ∷ []) none ≡ ok composed
unfolding compose_risk add_all add_advisory add_device
composes = refl

compose_risk_dimensions_example :
    (is_active composed.exploitability
      ≡ any (λ a. is_active a.exploitability) (notice Severity.high ∷ listed ∷ []))
    × (rank_severity composed.severity ≡ greatest_severity (notice Severity.high ∷ listed ∷ []))
compose_risk_dimensions_example =
    compose_risk_dimensions (notice Severity.high ∷ listed ∷ []) none composed composes

abbrev severity_of : Result RiskDimensions MatchError → Option Severity
severity_of (ok risk) = some risk.severity
severity_of (err e) = none

-- An advisory without a severity hides the low severity of one that follows, and not of one before.
none_hides_low :
    severity_of (compose_risk (notice Severity.none ∷ notice Severity.low ∷ []) none)
    ≡ some Severity.none
unfolding compose_risk add_all add_advisory add_device
none_hides_low = refl

low_stays :
    severity_of (compose_risk (notice Severity.low ∷ notice Severity.none ∷ []) none)
    ≡ some Severity.low
unfolding compose_risk add_all add_advisory add_device
low_stays = refl
