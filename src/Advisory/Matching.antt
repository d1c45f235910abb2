-- ===== src/Advisory/Matching.antt =====
-- crates/lattice-advisory/src/match.rs: what a match proves, and its way through the store.
use neon_hearth.Prelude.{
  Bool, true, false, ◌||◌, not, [], ◌∷◌, Option, none, some, Result, ok, arith, ◌≡◌, refl, ap, ◌∙◌,
  inl, inr, Bool-cases, is_some, is_some_and, if_intro,
}
use neon_hearth.Advisory.Types.{
  AdvisoryInput, DeviceIdentity, MatchLabel, MatchedField, AdvisoryMatch, Confidence, MatchError,
}
use neon_hearth.Advisory.{
  eq_ignore_ascii_case, is_unknown, is_exact, is_actionable, is_fresh, is_invalid, is_any, result,
  matched, push_if, vendor_match, model_match, firmware_match, contradiction, exact_allowed,
  match_fields, match_device, match_advisory, from_persisted,
}

-- What is read back of a match is the match.
abbrev pub IsPersistent : AdvisoryMatch → Type 0
IsPersistent r = from_persisted r.label r.matched_fields r.explanation r.confidence ≡ ok r

fields-IsPersistent :
    (a b c : Bool)
    → let fields =
        push_if a MatchedField.vendor
          (push_if b MatchedField.model (push_if c MatchedField.firmware [])) in
      IsPersistent (
        result MatchLabel.contradicted fields "identity evidence contradicts the advisory"
          Confidence.high)
      × IsPersistent (
          result MatchLabel.possible fields
            "identity is incomplete or source evidence is not actionable" Confidence.medium)
unfolding from_persisted result
fields-IsPersistent true true true = (refl, refl)
fields-IsPersistent true true false = (refl, refl)
fields-IsPersistent true false true = (refl, refl)
fields-IsPersistent true false false = (refl, refl)
fields-IsPersistent false true true = (refl, refl)
fields-IsPersistent false true false = (refl, refl)
fields-IsPersistent false false true = (refl, refl)
fields-IsPersistent false false false = (refl, refl)

fixed-IsPersistent :
    IsPersistent (
      result MatchLabel.contradicted [] "high-confidence device evidence is contradictory"
        Confidence.high)
    × IsPersistent (
        result MatchLabel.exact
          (MatchedField.vendor ∷ MatchedField.model ∷ MatchedField.firmware ∷ [])
          "all advisory identity fields match"
          Confidence.high)
    × IsPersistent (result MatchLabel.unknown [] "source trust is invalid" Confidence.low)
    × IsPersistent
        (result MatchLabel.unknown [] "advisory has no usable identity selectors" Confidence.low)
    × IsPersistent (result MatchLabel.possible [] "device evidence is unavailable" Confidence.low)
unfolding from_persisted result
fixed-IsPersistent = (refl, refl, refl, refl, refl)

-- An exact match names every field.
exact-match_fields :
    (input : AdvisoryInput) (device : DeviceIdentity)
    → contradiction input device ≡ false
    → exact_allowed input device ≡ true
    → match_fields input device
      ≡ MatchedField.vendor ∷ MatchedField.model ∷ MatchedField.firmware ∷ []
unfolding contradiction exact_allowed match_fields
exact-match_fields input device agree allowed = ground arith

match_device-IsPersistent :
    (input : AdvisoryInput) (device : DeviceIdentity) → IsPersistent (match_device input device)
unfolding match_device matched match_fields
match_device-IsPersistent input device =
    if_intro IsPersistent device.contradictory_high_confidence (λ conflict. fixed-IsPersistent.0)
      (λ clear.
        if_intro IsPersistent (contradiction input device)
          (λ contradicts. (fields-IsPersistent _ _ _).0)
          (λ agree.
            if_intro IsPersistent (exact_allowed input device)
              (λ allowed. rw (exact-match_fields input device agree allowed) fixed-IsPersistent.1)
              (λ partial. (fields-IsPersistent _ _ _).1)))

-- An answer that is a match, which can be read back.
abbrev Persisted : Result AdvisoryMatch MatchError → Type 0
Persisted answer = (r : AdvisoryMatch) × (answer ≡ ok r) × IsPersistent r

-- `match_advisory` always answers with a match, and `from_persisted` takes this match's label, fields,
-- explanation and confidence and returns it.
pub from_persisted-match_advisory :
    (device : Option DeviceIdentity) (input : AdvisoryInput)
    → (r : AdvisoryMatch) × (match_advisory device input ≡ ok r)
      × (from_persisted r.label r.matched_fields r.explanation r.confidence ≡ ok r)
unfolding match_advisory
from_persisted-match_advisory device input =
    if_intro Persisted (is_invalid input.source_trust)
      (λ untrusted. (_, refl, fixed-IsPersistent.2))
      (λ trusted.
        if_intro Persisted
          (not (not (is_unknown input) || is_some input.model || not (is_any input.firmware)))
          (λ unusable. (_, refl, fixed-IsPersistent.3)) (λ usable. of_device device))
  where
    of_device :
        (d : Option DeviceIdentity)
        → Persisted (elim d [
          | none ↦
              ok (result MatchLabel.possible [] "device evidence is unavailable" Confidence.low)
          | some x ↦ ok (match_device input x)
        ])
    of_device none = (_, refl, fixed-IsPersistent.4)
    of_device (some x) = (_, refl, match_device-IsPersistent input x)

-- What an exact match proves of an advisory and a device.
pub record IsIdentified (input : AdvisoryInput) (device : DeviceIdentity) : Type 0 where
  pub fresh : is_fresh input.freshness ≡ true
  pub actionable : is_actionable input.source_trust ≡ true
  pub named : is_unknown input ≡ false
  pub same_vendor : eq_ignore_ascii_case input.vendor device.vendor ≡ true
  pub same_model :
      is_some_and input.model (λ m. is_some_and device.model (λ d. eq_ignore_ascii_case m d)) ≡ true
  pub one_version : is_exact input.firmware ≡ true
  pub same_version : firmware_match input device ≡ true
  pub consistent : device.contradictory_high_confidence ≡ false

match_device-exact :
    (input : AdvisoryInput) (device : DeviceIdentity)
    → (match_device input device).label ≡ MatchLabel.exact
    → (contradiction input device ≡ false) × (exact_allowed input device ≡ true)
unfolding match_device result
match_device-exact input device h = (ground arith, ground arith)

exact-IsIdentified :
    (input : AdvisoryInput) (device : DeviceIdentity)
    → contradiction input device ≡ false
    → exact_allowed input device ≡ true
    → IsIdentified input device
unfolding contradiction exact_allowed vendor_match model_match
exact-IsIdentified input device agree allowed = record {
  fresh = ground arith;
  actionable = ground arith;
  named = ground arith;
  same_vendor = ground arith;
  same_model = ground arith;
  one_version = ground arith;
  same_version = ground arith;
  consistent = ground arith;
}

-- If an advisory matches a device exactly, then it is fresh and comes from an official interface or a
-- verified signature, it names the vendor, the model and one version, which are those of the device
-- (the first two whatever their case), and nothing is contradictory about the device.
pub match_advisory-IsIdentified :
    (device : DeviceIdentity) (input : AdvisoryInput) (r : AdvisoryMatch)
    → match_advisory (some device) input ≡ ok r
    → r.label ≡ MatchLabel.exact
    → IsIdentified input device
unfolding match_advisory result
match_advisory-IsIdentified device input r h exact =
    elim (Bool-cases (is_invalid input.source_trust)) [
      | inl untrusted ↦ ground (arith, h, untrusted, exact)
      | inr trusted ↦
          elim (Bool-cases
            (not (not (is_unknown input) || is_some input.model || not (is_any input.firmware)))) [
              | inl unusable ↦ ground (arith, h, trusted, unusable, exact)
              | inr usable ↦
                  let same : match_device input device ≡ r =
                    ok_injective (simp (trusted, usable, match_advisory) at h) in
                  let found = match_device-exact input device (ap (λ x. x.label) same ∙ exact) in
                  exact-IsIdentified input device found.0 found.1
            ]
    ]
  where
    ok_injective :
        {x y : AdvisoryMatch} → ◌≡◌ {A = Result AdvisoryMatch MatchError} (ok x) (ok y) → x ≡ y
    ok_injective h = cc h
