-- ===== src/Doctor/Engine/Results.antt =====
-- crates/lattice-doctor/src/engine.rs: how checks conclude, why they are skipped, and the figures
-- that they derive from samples.
use neon_hearth.Prelude.{
  ℕ, ◌-◌, ◌/◌, Bool, String, List, [], ◌∷◌, length, Option, none, some, ◌==◌, if◌then◌else◌,
}
use neon_hearth.Prelude.Sorting.{sort_by, get_elem?}
use neon_hearth.External.{Host, F64}
use neon_hearth.Doctor.Check.{
  CheckKind, CheckStatus, CheckDetail, CheckResult, SkipReason, Confidence, Measurement, low, high,
  dependencies, find_check,
}

abbrev pub unexpected_response : String
unexpected_response = "unexpected probe response"

module _ {h : Host} where
  unfoldable pub conclude :
      CheckKind → Bool → List (Measurement h) → Confidence → CheckDetail h → CheckResult h
  conclude kind pass evidence confidence detail = record {
    kind = kind;
    status = if pass then CheckStatus.passed else CheckStatus.failed;
    evidence = evidence;
    confidence = confidence;
    detail = some detail;
  }

  unfoldable pub failed_probe : CheckKind → String → CheckResult h
  failed_probe kind error = record {
    kind = kind;
    status = CheckStatus.failed;
    evidence = [];
    confidence = low;
    detail = some (CheckDetail.probe_failure error);
  }

  unfoldable pub skipped_result : CheckKind → SkipReason → CheckResult h
  skipped_result kind because = record {
    kind = kind;
    status = CheckStatus.skipped because;
    evidence = [];
    confidence = high;
    detail = none;
  }

  -- What one dependency's result means for the check: nothing, or why it is skipped.
  unfoldable pub skip_for : CheckKind → Option (CheckResult h) → Option SkipReason
  skip_for dependency none = some (SkipReason.dependency_skipped dependency)
  skip_for dependency (some result) = elim result.status [
    | CheckStatus.passed ↦ none
    | CheckStatus.failed ↦ some (SkipReason.dependency_failed dependency)
    | CheckStatus.skipped because ↦ some (SkipReason.dependency_skipped dependency)
  ]

  -- The loop of `dependency_skip`.
  unfoldable pub first_skip : List CheckKind → List (CheckResult h) → Option SkipReason
  first_skip [] checks = none
  first_skip (dependency ∷ rest) checks =
      elim (skip_for dependency (find_check checks dependency)) [
        | some because ↦ some because
        | none ↦ first_skip rest checks
      ]

  unfoldable pub dependency_skip : CheckKind → List (CheckResult h) → Option SkipReason
  unfolding first_skip
  dependency_skip kind checks = first_skip (dependencies kind) checks

module _ (f : F64) where
  open f use {Float, from_ℕ, mul, div, total_le}

  abbrev pub bool_value : Bool → Float
  bool_value value = if value then from_ℕ 1 else from_ℕ 0

  pub loss_percent : ℕ → ℕ → Float
  loss_percent sent received =
      if sent == 0
      then from_ℕ 100
      else div (mul (from_ℕ 100) (from_ℕ (sent - received))) (from_ℕ sent)

  -- The upper median of a sample.
  unfoldable pub median : List Float → Option Float
  unfolding sort_by
  median values = get_elem? (sort_by total_le values) (length values / 2)
