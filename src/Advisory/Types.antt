-- ===== src/Advisory/Types.antt =====
-- crates/lattice-advisory/src/lib.rs and match.rs: the data of advisories, devices and matches.
use neon_hearth.Prelude.{Bool, String, List, Option}

pub data AdvisorySource : Type 0 where
  nvd cisa_kev vendor : AdvisorySource

pub data Freshness : Type 0 where
  fresh stale future_dated : Freshness

pub data SourceTrust : Type 0 where
  official_api verified_signature registered_https invalid : SourceTrust

pub data Severity : Type 0 where
  none low medium high critical unknown : Severity

pub data Exploitability : Type 0 where
  none proof_of_concept active_known_exploitation unknown : Exploitability

pub data Exposure : Type 0 where
  not_exposed potentially_exposed exposed unknown : Exposure

pub data Confidence : Type 0 where
  low medium high : Confidence

pub data Remediation : Type 0 where
  upgrade mitigate monitor none unknown : Remediation

pub data VersionConstraint : Type 0 where
  any : VersionConstraint
  exact less_than : (version : String) → VersionConstraint
  range : (min max : String) → VersionConstraint

-- What the matching and the composition read of an advisory.
pub record AdvisoryInput : Type 0 where
  pub source : AdvisorySource
  pub source_id : String
  pub vendor : String
  pub model : Option String
  pub firmware : VersionConstraint
  pub freshness : Freshness
  pub source_trust : SourceTrust
  pub severity : Severity
  pub exploitability : Exploitability
  pub remediation : Remediation

pub record DeviceIdentity : Type 0 where
  pub vendor : String
  pub model : Option String
  pub firmware : Option String
  pub contradictory_high_confidence : Bool

pub data MatchLabel : Type 0 where
  exact possible contradicted unknown : MatchLabel

pub data MatchedField : Type 0 where
  vendor model firmware : MatchedField

pub record AdvisoryMatch : Type 0 where
  pub label : MatchLabel
  pub matched_fields : List MatchedField
  pub explanation : String
  pub confidence : Confidence

pub record DeviceEvidence : Type 0 where
  pub exposure : Exposure
  pub confidence : Confidence

pub record RiskDimensions : Type 0 where
  pub severity : Severity
  pub exploitability : Exploitability
  pub exposure : Exposure
  pub confidence : Confidence
  pub remediation : Remediation

pub data MatchError : Type 0 where
  invalid_device_field : (name : String) → MatchError
  mixed_source_ids invalid_group invalid_stored_match : MatchError
