-- ===== src/Advisory/Risks.antt =====
-- crates/lattice-advisory/src/match.rs: what the composed risk says of its advisories.
use neon_hearth.Prelude.{
  ℕ, max, ◌||◌, not, List, [], ◌∷◌, any, length, Option, none, some, Result, ok, arith, ltb,
  if◌then◌else◌, ◌≡◌, refl, ◌∙◌, sym, ap, Bool-cases, inl, inr,
}
use neon_hearth.Text.{same_text}
use neon_hearth.Advisory.Types.{Severity, AdvisoryInput, DeviceEvidence, RiskDimensions, MatchError}
use neon_hearth.Advisory.Risk.{
  rank_severity, max_severity, is_kev, is_active, add_advisory, add_all, add_device, compose_risk,
  unknown_risk,
}

-- The greatest rank of the severities that advisories other than those of the exploited list state.
abbrev pub greatest_severity : List AdvisoryInput → ℕ
greatest_severity [] = 0
greatest_severity (a ∷ rest) =
    if is_kev a.source
    then greatest_severity rest
    else max (rank_severity a.severity) (greatest_severity rest)

rank-max_severity :
    (a b : Severity) → rank_severity (max_severity a b) ≡ max (rank_severity a) (rank_severity b)
rank-max_severity a b = ground arith

add_all-severity :
    (risk : RiskDimensions) (advisories : List AdvisoryInput)
    → rank_severity (add_all risk advisories).severity
      ≡ max (rank_severity risk.severity) (greatest_severity advisories)
unfolding add_all add_advisory
add_all-severity risk [] = omega arith
add_all-severity risk (a ∷ rest) =
    ground (
      arith,
      add_all-severity (add_advisory risk a) rest,
      rank-max_severity risk.severity a.severity,
    )

add_all-exploitability :
    (risk : RiskDimensions) (advisories : List AdvisoryInput)
    → is_active (add_all risk advisories).exploitability
      ≡ (is_active risk.exploitability || any (λ a. is_active a.exploitability) advisories)
unfolding add_all add_advisory
add_all-exploitability risk [] = ground arith
add_all-exploitability risk (a ∷ rest) =
    ground (arith, add_all-exploitability (add_advisory risk a) rest)

add_device-keeps :
    (device : Option DeviceEvidence) (risk : RiskDimensions)
    → ((add_device device risk).severity ≡ risk.severity)
      × ((add_device device risk).exploitability ≡ risk.exploitability)
unfolding add_device
add_device-keeps none risk = (refl, refl)
add_device-keeps (some e) risk = (refl, refl)

-- The composed risk is actively exploited exactly if one of the advisories says so, and the rank of its
-- severity is the greatest of those that the advisories outside the list of exploited vulnerabilities
-- state.
pub compose_risk_dimensions :
    (advisories : List AdvisoryInput) (device : Option DeviceEvidence) (risk : RiskDimensions)
    → compose_risk advisories device ≡ ok risk
    → (is_active risk.exploitability ≡ any (λ a. is_active a.exploitability) advisories)
      × (rank_severity risk.severity ≡ greatest_severity advisories)
unfolding compose_risk
compose_risk_dimensions [] device risk h = ground (arith, h)
compose_risk_dimensions (first ∷ rest) device risk h =
    elim (Bool-cases (ltb 64 (length (first ∷ rest)))) [
      | inl oversized ↦ ground (arith, h, oversized)
      | inr fits ↦
          elim (Bool-cases
            (any (λ a. not (same_text a.source_id first.source_id)) (first ∷ rest))) [
              | inl mixed ↦ ground (arith, h, fits, mixed)
              | inr one ↦
                  let all = add_all unknown_risk (first ∷ rest) in
                  let same : add_device device all ≡ risk =
                    ok_injective (simp (fits, one, compose_risk) at h) in
                  let kept = add_device-keeps device all in
                  (
                    ap (λ r. is_active r.exploitability) (sym same)
                        ∙ (ap is_active kept.1
                            ∙ add_all-exploitability unknown_risk (first ∷ rest)),
                    ap (λ r. rank_severity r.severity) (sym same)
                        ∙ (ap rank_severity kept.0
                            ∙ (add_all-severity unknown_risk (first ∷ rest)
                                ∙ max_zero (greatest_severity (first ∷ rest)))),
                  )
            ]
    ]
  where
    ok_injective :
        {x y : RiskDimensions} → ◌≡◌ {A = Result RiskDimensions MatchError} (ok x) (ok y) → x ≡ y
    ok_injective h = cc h

    max_zero : (n : ℕ) → max 0 n ≡ n
    max_zero n = omega arith
