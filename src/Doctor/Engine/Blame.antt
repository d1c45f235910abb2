-- ===== src/Doctor/Engine/Blame.antt =====
-- crates/lattice-doctor/src/engine.rs: which dependency a skipped check blames.
use mathlib.Core.Option
use neon_hearth.Prelude.{
  ◌≡◌, refl, ap, ◌⊎◌, inl, inr, Bool, true, false, List, [], ◌∷◌, ◌++◌, All, Option, none, some,
  arith, is_some, is_some_and, Option-cases,
}
use neon_hearth.External.{Host}
use neon_hearth.Doctor.Check.{
  CheckKind, CheckStatus, CheckResult, SkipReason, dependencies, find_check,
}
use neon_hearth.Doctor.Engine.Results.{skip_for, first_skip}

-- The dependency that a status blames, if it blames one.
abbrev pub blamed : CheckStatus → Option SkipReason
blamed (CheckStatus.skipped SkipReason.budget_exhausted) = none
blamed (CheckStatus.skipped because) = some because
blamed _ = none

abbrev pub is_skipped : CheckStatus → Bool
is_skipped (CheckStatus.skipped because) = true
is_skipped _ = false

status_cases :
    (s : CheckStatus)
    → (s ≡ CheckStatus.passed)
      ⊎ ((s ≡ CheckStatus.failed) ⊎ ((because : SkipReason) × (s ≡ CheckStatus.skipped because)))
status_cases CheckStatus.passed = inl refl
status_cases CheckStatus.failed = inr (inl refl)
status_cases (CheckStatus.skipped because) = inr (inr (because, refl))

module _ {h : Host} where
  abbrev pub Found : List (CheckResult h) → CheckKind → Type 0
  Found checks kind = is_some (find_check checks kind) ≡ true

  -- The status that a list of results gives a kind.
  abbrev pub status_of : List (CheckResult h) → CheckKind → Option CheckStatus
  status_of checks kind = Option.map (λ r. r.status) (find_check checks kind)

  abbrev pub AllPassed : List (CheckResult h) → List CheckKind → Type 0
  AllPassed checks kinds = All (λ d. status_of checks d ≡ some CheckStatus.passed) kinds

  -- One of the kinds has such a status, and those before it have all passed.
  abbrev pub FirstBlocked :
      List (CheckResult h) → List CheckKind → CheckKind → (Option CheckStatus → Type 0) → Type 0
  FirstBlocked checks kinds d Such =
      (before : List CheckKind) × (after : List CheckKind) × (kinds ≡ before ++ d ∷ after)
      × AllPassed checks before
      × Such (status_of checks d)

  -- What blaming a dependency, or none, says of the results of the dependencies.
  abbrev pub Blames : List (CheckResult h) → List CheckKind → Option SkipReason → Type 0
  Blames checks kinds none = AllPassed checks kinds
  Blames checks kinds (some (SkipReason.dependency_failed d)) =
      FirstBlocked checks kinds d (λ s. s ≡ some CheckStatus.failed)
  Blames checks kinds (some (SkipReason.dependency_skipped d)) =
      FirstBlocked checks kinds d (λ s. is_some_and s is_skipped ≡ true)
  Blames checks kinds (some SkipReason.budget_exhausted) = ⊥

  -- A result that the results of a list call for: it blames the first of its dependencies that they
  -- show to have failed or to have been skipped, and none if they show that all have passed.
  abbrev pub Justified : List (CheckResult h) → CheckResult h → Type 0
  Justified checks r = Blames checks (dependencies r.kind) (blamed r.status)

  Blames-behind :
      (checks : List (CheckResult h)) (kind : CheckKind) (kinds : List CheckKind)
      (because : Option SkipReason)
      → status_of checks kind ≡ some CheckStatus.passed
      → Blames checks kinds because
      → Blames checks (kind ∷ kinds) because
  Blames-behind checks kind kinds none passed rest = (passed, rest)
  Blames-behind checks kind kinds (some (SkipReason.dependency_failed d)) passed
        (before, after, split, all, such) =
      (kind ∷ before, after, ap (λ ks. kind ∷ ks) split, (passed, all), such)
  Blames-behind checks kind kinds (some (SkipReason.dependency_skipped d)) passed
        (before, after, split, all, such) =
      (kind ∷ before, after, ap (λ ks. kind ∷ ks) split, (passed, all), such)
  Blames-behind checks kind kinds (some SkipReason.budget_exhausted) passed rest = absurd rest

  -- The skip that the code computes blames the dependency that is to blame, if all were visited.
  pub first_skip-Blames :
      (checks : List (CheckResult h)) (kinds : List CheckKind)
      → All (Found checks) kinds
      → Blames checks kinds (first_skip kinds checks)
  unfolding first_skip skip_for
  first_skip-Blames checks [] found = tt
  first_skip-Blames checks (kind ∷ kinds) found = elim (Option-cases (find_check checks kind)) [
    | inl missing ↦ ground (arith, found.0, missing)
    | inr (r, there) ↦ elim (status_cases r.status) [
      | inl passed ↦
          let own : status_of checks kind ≡ some CheckStatus.passed = simp (there, passed) in
          rw (there, first_skip)
            (rw (passed, skip_for)
              (Blames-behind checks kind kinds (first_skip kinds checks) own
                (first_skip-Blames checks kinds found.1)))
      | inr (inl failed) ↦
          let own : status_of checks kind ≡ some CheckStatus.failed = simp (there, failed) in
          rw (there, first_skip) (rw (failed, skip_for) ([], kinds, refl, tt, own))
      | inr (inr (because, skipped)) ↦
          let own : is_some_and (status_of checks kind) is_skipped ≡ true = simp (there, skipped) in
          rw (there, first_skip) (rw (skipped, skip_for) ([], kinds, refl, tt, own))
    ]
  ]
