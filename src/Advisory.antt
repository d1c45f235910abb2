-- ===== src/Advisory.antt =====
-- crates/lattice-advisory/src/match.rs: how an advisory applies to a device, and the risk that some
-- advisories make up.
pub mod Types
pub mod Risk
pub mod Matching
pub mod Risks
mod Tests
use Prim.Native.String.{String}
use neon_hearth.Prelude.{
  ℕ, zero, suc, ◌+◌, Bool, true, false, ◌&&◌, ◌||◌, not, List, [], ◌∷◌, ◌++◌, any, length, is_empty,
  Option, none, some, Result, ok, err, ltb, leb, ◌==◌, if◌then◌else◌, is_some, is_some_and,
  is_none_or,
}
use neon_hearth.Text.{codes, same_text, is_blank, byte_len, is_control, trim}
use neon_hearth.Advisory.Types.{
  AdvisorySource, Freshness, SourceTrust, Severity, Exploitability, Exposure, Confidence,
  Remediation, VersionConstraint, AdvisoryInput, DeviceIdentity, MatchLabel, MatchedField,
  AdvisoryMatch, DeviceEvidence, RiskDimensions, MatchError,
}

-- `str::eq_ignore_ascii_case`.
abbrev lowered : ℕ → ℕ
lowered c = if leb 65 c && leb c 90 then c + 32 else c

abbrev same_lowered : List ℕ → List ℕ → Bool
same_lowered [] [] = true
same_lowered (x ∷ xs) (y ∷ ys) = lowered x == lowered y && same_lowered xs ys
same_lowered _ _ = false

abbrev pub eq_ignore_ascii_case : String → String → Bool
eq_ignore_ascii_case a b = same_lowered (codes a) (codes b)

-- `chars().take(n).collect()`.
abbrev take_chars : ℕ → String → String
take_chars zero s = String.[]
take_chars (suc n) String.[] = String.[]
take_chars (suc n) (String.◌∷◌ c s) = String.◌∷◌ c (take_chars n s)

abbrev pub max_explanation : ℕ
max_explanation = 512

abbrev pub is_unknown : AdvisoryInput → Bool
is_unknown input = eq_ignore_ascii_case input.vendor "unknown"

abbrev pub is_exact : VersionConstraint → Bool
is_exact (VersionConstraint.exact version) = true
is_exact _ = false

abbrev pub is_any : VersionConstraint → Bool
is_any VersionConstraint.any = true
is_any _ = false

abbrev pub is_invalid : SourceTrust → Bool
is_invalid SourceTrust.invalid = true
is_invalid _ = false

abbrev pub is_actionable : SourceTrust → Bool
is_actionable SourceTrust.official_api = true
is_actionable SourceTrust.verified_signature = true
is_actionable _ = false

abbrev pub is_fresh : Freshness → Bool
is_fresh Freshness.fresh = true
is_fresh _ = false

unfoldable pub result : MatchLabel → List MatchedField → String → Confidence → AdvisoryMatch
result label matched_fields explanation confidence = record {
  label = label;
  matched_fields = matched_fields;
  explanation = take_chars max_explanation explanation;
  confidence = confidence;
}

abbrev pub push_if : Bool → MatchedField → List MatchedField → List MatchedField
push_if t field rest = if t then field ∷ rest else rest

-- `matched`.
unfoldable pub matched : AdvisoryInput → Bool → Bool → Bool → List MatchedField
matched input vendor model firmware =
    push_if (vendor && not (is_unknown input)) MatchedField.vendor (
      push_if (model && is_some input.model) MatchedField.model
        (push_if (firmware && is_exact input.firmware) MatchedField.firmware []))

unfoldable pub vendor_match : AdvisoryInput → DeviceIdentity → Bool
vendor_match input device = is_unknown input || eq_ignore_ascii_case input.vendor device.vendor

unfoldable pub model_match : AdvisoryInput → DeviceIdentity → Bool
model_match input device =
    is_none_or input.model (λ m. is_some_and device.model (λ d. eq_ignore_ascii_case m d))

unfoldable pub firmware_match : AdvisoryInput → DeviceIdentity → Bool
firmware_match input device = elim input.firmware [
  | VersionConstraint.exact v ↦ is_some_and device.firmware (λ d. same_text v d)
  | _ ↦ true
]

unfoldable pub contradiction : AdvisoryInput → DeviceIdentity → Bool
contradiction input device =
    not (vendor_match input device)
    || (is_some input.model && is_some device.model && not (model_match input device))
    || (is_exact input.firmware && is_some device.firmware && not (firmware_match input device))

unfoldable pub exact_allowed : AdvisoryInput → DeviceIdentity → Bool
exact_allowed input device =
    not (is_unknown input)
    && is_fresh input.freshness
    && is_actionable input.source_trust
    && is_some input.model
    && is_some device.model
    && is_exact input.firmware
    && is_some device.firmware
    && not device.contradictory_high_confidence

-- The match of an advisory and a device that do not contradict each other.
unfoldable pub match_fields : AdvisoryInput → DeviceIdentity → List MatchedField
match_fields input device =
    push_if (not (is_unknown input) && vendor_match input device) MatchedField.vendor (
      push_if (is_some input.model && is_some device.model && model_match input device)
        MatchedField.model
        (push_if (is_exact input.firmware && is_some device.firmware && firmware_match input device)
          MatchedField.firmware []))

unfoldable pub match_device : AdvisoryInput → DeviceIdentity → AdvisoryMatch
match_device input device =
    if device.contradictory_high_confidence
    then result MatchLabel.contradicted [] "high-confidence device evidence is contradictory"
        Confidence.high
    else if contradiction input device
    then result MatchLabel.contradicted
        (matched input (vendor_match input device) (model_match input device)
          (firmware_match input device))
        "identity evidence contradicts the advisory" Confidence.high
    else if exact_allowed input device
    then result MatchLabel.exact (match_fields input device) "all advisory identity fields match"
        Confidence.high
    else result MatchLabel.possible (match_fields input device)
        "identity is incomplete or source evidence is not actionable" Confidence.medium

unfoldable pub match_advisory :
    Option DeviceIdentity → AdvisoryInput → Result AdvisoryMatch MatchError
match_advisory device input =
    if is_invalid input.source_trust
    then ok (result MatchLabel.unknown [] "source trust is invalid" Confidence.low)
    else if not (not (is_unknown input) || is_some input.model || not (is_any input.firmware))
    then ok
        (result MatchLabel.unknown [] "advisory has no usable identity selectors" Confidence.low)
    else elim device [
      | none ↦ ok (result MatchLabel.possible [] "device evidence is unavailable" Confidence.low)
      | some d ↦ ok (match_device input d)
    ]

abbrev pub field_index : MatchedField → ℕ
field_index MatchedField.vendor = 0
field_index MatchedField.model = 1
field_index MatchedField.firmware = 2

-- Whether some neighbours do not rise.
abbrev falls : List MatchedField → Bool
falls [] = false
falls (x ∷ []) = false
falls (x ∷ y ∷ rest) = leb (field_index y) (field_index x) || falls (y ∷ rest)

abbrev has_all : List MatchedField → Bool
has_all (MatchedField.vendor ∷ MatchedField.model ∷ MatchedField.firmware ∷ []) = true
has_all _ = false

abbrev is_exact_label : MatchLabel → Bool
is_exact_label MatchLabel.exact = true
is_exact_label _ = false

abbrev is_high : Confidence → Bool
is_high Confidence.high = true
is_high _ = false

-- `AdvisoryMatch::from_persisted`.
unfoldable pub from_persisted :
    MatchLabel → List MatchedField → String → Confidence → Result AdvisoryMatch MatchError
from_persisted label matched_fields explanation confidence =
    if is_blank explanation
      || ltb max_explanation (byte_len explanation)
      || any is_control (codes explanation)
      || ltb 3 (length matched_fields)
      || falls matched_fields
      || (is_exact_label label && (not (is_high confidence) || not (has_all matched_fields)))
    then err MatchError.invalid_stored_match
    else ok (record {
      label = label;
      matched_fields = matched_fields;
      explanation = explanation;
      confidence = confidence;
    })

abbrev max_field : ℕ
max_field = 512

abbrev trims : String → Bool
trims s = not (same_codes (trim (codes s)) (codes s))
  where
    same_codes : List ℕ → List ℕ → Bool
    same_codes [] [] = true
    same_codes (x ∷ xs) (y ∷ ys) = x == y && same_codes xs ys
    same_codes _ _ = false

-- `validate_device_field`: whether the field is refused.
unfoldable pub is_bad_field : String → Bool
is_bad_field value =
    is_blank value || ltb max_field (byte_len value) || trims value || any is_control (codes value)

-- `DeviceIdentity::new`.
unfoldable pub new_device :
    String → Option String → Option String → Result DeviceIdentity MatchError
new_device vendor model firmware =
    if is_bad_field vendor
    then err (MatchError.invalid_device_field "vendor")
    else if is_some_and model is_bad_field
    then err (MatchError.invalid_device_field "model")
    else if is_some_and firmware is_bad_field
    then err (MatchError.invalid_device_field "firmware")
    else ok (record {
      vendor = vendor;
      model = model;
      firmware = firmware;
      contradictory_high_confidence = false;
    })
