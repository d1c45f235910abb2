-- ===== src/Advisory/Risk.antt =====
-- crates/lattice-advisory/src/match.rs: `compose_risk`, the risk that the advisories of one source
-- identifier make up.
use neon_hearth.Prelude.{
  ℕ, Bool, true, false, not, List, [], ◌∷◌, any, length, Option, none, some, Result, ok, err, ltb,
  if◌then◌else◌,
}
use neon_hearth.Text.{same_text}
use neon_hearth.Advisory.Types.{
  AdvisorySource, Severity, Exploitability, Exposure, Confidence, Remediation, AdvisoryInput,
  DeviceEvidence, RiskDimensions, MatchError,
}

abbrev pub rank_severity : Severity → ℕ
rank_severity Severity.none = 1
rank_severity Severity.low = 1
rank_severity Severity.medium = 2
rank_severity Severity.high = 3
rank_severity Severity.critical = 4
rank_severity Severity.unknown = 0

abbrev pub rank_exploitability : Exploitability → ℕ
rank_exploitability Exploitability.none = 1
rank_exploitability Exploitability.proof_of_concept = 1
rank_exploitability Exploitability.active_known_exploitation = 2
rank_exploitability Exploitability.unknown = 0

abbrev pub rank_remediation : Remediation → ℕ
rank_remediation Remediation.none = 1
rank_remediation Remediation.monitor = 1
rank_remediation Remediation.mitigate = 2
rank_remediation Remediation.upgrade = 3
rank_remediation Remediation.unknown = 0

abbrev pub rank_confidence : Confidence → ℕ
rank_confidence Confidence.low = 0
rank_confidence Confidence.medium = 1
rank_confidence Confidence.high = 2

abbrev pub max_severity : Severity → Severity → Severity
max_severity a b = if ltb (rank_severity a) (rank_severity b) then b else a

abbrev pub max_exploitability : Exploitability → Exploitability → Exploitability
max_exploitability a b = if ltb (rank_exploitability a) (rank_exploitability b) then b else a

abbrev pub max_remediation : Remediation → Remediation → Remediation
max_remediation a b = if ltb (rank_remediation a) (rank_remediation b) then b else a

abbrev pub max_confidence : Confidence → Confidence → Confidence
max_confidence a b = if ltb (rank_confidence a) (rank_confidence b) then b else a

abbrev pub is_kev : AdvisorySource → Bool
is_kev AdvisorySource.cisa_kev = true
is_kev _ = false

abbrev pub is_active : Exploitability → Bool
is_active Exploitability.active_known_exploitation = true
is_active _ = false

abbrev pub unknown_risk : RiskDimensions
unknown_risk = record {
  severity = Severity.unknown;
  exploitability = Exploitability.unknown;
  exposure = Exposure.unknown;
  confidence = Confidence.low;
  remediation = Remediation.unknown;
}

-- One round of the loop.
unfoldable pub add_advisory : RiskDimensions → AdvisoryInput → RiskDimensions
add_advisory risk a =
    if not (is_kev a.source)
    then record risk {
      severity = max_severity risk.severity a.severity;
      remediation = max_remediation risk.remediation a.remediation;
      exploitability = max_exploitability risk.exploitability a.exploitability;
    }
    else if is_active a.exploitability
    then record risk { exploitability = Exploitability.active_known_exploitation }
    else risk

unfoldable pub add_all : RiskDimensions → List AdvisoryInput → RiskDimensions
add_all risk [] = risk
add_all risk (a ∷ rest) = add_all (add_advisory risk a) rest

unfoldable pub add_device : Option DeviceEvidence → RiskDimensions → RiskDimensions
add_device none risk = risk
add_device (some e) risk = record risk {
  exposure = e.exposure;
  confidence = max_confidence risk.confidence e.confidence;
}

unfoldable pub compose_risk :
    List AdvisoryInput → Option DeviceEvidence → Result RiskDimensions MatchError
compose_risk [] device = err MatchError.invalid_group
compose_risk (first ∷ rest) device =
    if ltb 64 (length (first ∷ rest))
    then err MatchError.invalid_group
    else if any (λ a. not (same_text a.source_id first.source_id)) (first ∷ rest)
    then err MatchError.mixed_source_ids
    else ok (add_device device (add_all unknown_risk (first ∷ rest)))
