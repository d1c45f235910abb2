-- ===== src/Doctor/Engine/Order.antt =====
-- crates/lattice-doctor/src/engine.rs: the report of a run holds every check once, in order, and
-- its skips are those that its own results call for.
use neon_hearth.Prelude.{
  ◌≡◌, refl, sym, ◌∙◌, ◌⊎◌, inl, inr, Bool, true, false, ◌||◌, List, [], ◌∷◌, ◌++◌, map, any, All,
  All-append, Option, none, some, arith, ltb, is_some, saturating_add, Option-cases, Bool-cases,
  subst,
}
use neon_hearth.External.{Host}
use neon_hearth.Doctor.Probe.{ProbeTransport}
use neon_hearth.Doctor.Check.{
  CheckKind, CheckStatus, CheckDetail, CheckResult, SkipReason, same_kind, dependencies, find_check,
}
use neon_hearth.Doctor.Engine.{DiagnosticEngine, probe_cost, run_check, visit}
use neon_hearth.Doctor.Engine.Config.{Thresholds}
use neon_hearth.Doctor.Engine.Session.{Session}
use neon_hearth.Doctor.Engine.Blame.{blamed, is_skipped, Found}
use neon_hearth.Doctor.Engine.Results.{skip_for, first_skip, dependency_skip, skipped_result}
use neon_hearth.Doctor.Engine.Details.{Explained, Accounts, DetailAccounts}
use neon_hearth.Doctor.Engine.Explained.{run_check-Explained}

abbrev pub lacks_budget : CheckStatus → Bool
lacks_budget (CheckStatus.skipped SkipReason.budget_exhausted) = true
lacks_budget _ = false

module _ {h : Host} where
  -- A result of a check that ran is accounted for.
  abbrev pub RanOrSkipped : Thresholds h → CheckResult h → Type 0
  RanOrSkipped thresholds r = (is_skipped r.status ≡ true) ⊎ Explained h thresholds r.kind r

  -- No check runs after one that found no budget.
  abbrev pub Halts : List (CheckResult h) → Type 0
  Halts [] = Unit
  Halts (r ∷ rs) =
      ((lacks_budget r.status ≡ false) ⊎ All (λ q. is_skipped q.status ≡ true) rs) × Halts rs

  pub find_check-append :
      (xs ys : List (CheckResult h)) (kind : CheckKind)
      → Found xs kind
      → find_check (xs ++ ys) kind ≡ find_check xs kind
  find_check-append [] ys kind f = absurd (cc f)
  find_check-append (x ∷ xs) ys kind f = ground (arith, find_check-append xs ys kind)

  pub first_skip-append :
      (kinds : List CheckKind) (xs ys : List (CheckResult h))
      → All (Found xs) kinds
      → first_skip kinds (xs ++ ys) ≡ first_skip kinds xs
  unfolding first_skip
  first_skip-append [] xs ys f = refl
  first_skip-append (kind ∷ kinds) xs ys f =
      rw (find_check-append xs ys kind f.0, first_skip)
        (ground (arith, first_skip-append kinds xs ys f.1))

  pub find_check-map :
      (xs : List (CheckResult h)) (kind : CheckKind)
      → is_some (find_check xs kind) ≡ any (λ k. same_kind k kind) (map (λ r. r.kind) xs)
  find_check-map [] kind = refl
  find_check-map (x ∷ xs) kind = ground (arith, find_check-map xs kind)

  pub Halts-append :
      (xs : List (CheckResult h)) (r : CheckResult h)
      → Halts xs
      → (any (λ q. lacks_budget q.status) xs ≡ true → is_skipped r.status ≡ true)
      → Halts (xs ++ r ∷ [])
  Halts-append [] r halts late = (inr tt, tt)
  Halts-append (x ∷ xs) r halts late = (
    elim (Bool-cases (lacks_budget x.status)) [
      | inr more ↦ inl more
      | inl last ↦
          inr (All-append _ xs (r ∷ []) (all_skipped halts.0 last) (late (ground arith), tt))
    ],
    Halts-append xs r halts.1 (λ e. late (ground arith)),
  )
    where
      all_skipped :
          (lacks_budget x.status ≡ false) ⊎ All (λ q. is_skipped q.status ≡ true) xs
          → lacks_budget x.status ≡ true
          → All (λ q. is_skipped q.status ≡ true) xs
      all_skipped (inl f) e = absurd (cc (f, e))
      all_skipped (inr a) e = a

-- A status that a detail accounts for is no skip.
ran_of_Accounts :
    (h : Host) (thresholds : Thresholds h) (kind : CheckKind) (detail : CheckDetail h)
    (status : CheckStatus)
    → Accounts h thresholds kind detail status
    → is_skipped status ≡ false
ran_of_Accounts h thresholds kind detail CheckStatus.passed a = refl
ran_of_Accounts h thresholds kind detail CheckStatus.failed a = refl
ran_of_Accounts h thresholds kind detail (CheckStatus.skipped because) a = absurd (ground arith)

ran_of_Explained :
    (h : Host) (thresholds : Thresholds h) (kind : CheckKind) (r : CheckResult h)
    → Explained h thresholds kind r
    → is_skipped r.status ≡ false
ran_of_Explained h thresholds kind r e = go r.detail e.accounted
  where
    go :
        (detail : Option (CheckDetail h))
        → DetailAccounts h thresholds kind detail r.status
        → is_skipped r.status ≡ false
    go none a = absurd a
    go (some detail) a = ran_of_Accounts h thresholds kind detail r.status a

blamed_of_ran : (status : CheckStatus) → is_skipped status ≡ false → blamed status ≡ none
blamed_of_ran status e = ground arith

-- A check is skipped for its dependencies with the reason that they give.
first_skip-blamed :
    {h : Host} (kinds : List CheckKind) (checks : List (CheckResult h)) (because : SkipReason)
    → first_skip kinds checks ≡ some because
    → blamed (CheckStatus.skipped because) ≡ some because
unfolding first_skip skip_for
first_skip-blamed [] checks because e = absurd (cc e)
first_skip-blamed (kind ∷ kinds) checks because e =
    ground (arith, first_skip-blamed kinds checks because)

-- What one round of the loop brings.
pub record Visited (h : Host) (thresholds : Thresholds h) (kind : CheckKind)
    (checks : List (CheckResult h)) (ex : Bool) (r : CheckResult h) (ex' : Bool) : Type 0 where
  pub own_kind : r.kind ≡ kind
  pub justified : dependency_skip kind checks ≡ blamed r.status
  pub flagged : ex' ≡ (ex || lacks_budget r.status)
  pub halted : ex ≡ true → is_skipped r.status ≡ true
  pub explained : RanOrSkipped thresholds r

module _ (h : Host) {W : Type 0} (t : ProbeTransport h W) (engine : DiagnosticEngine h) where
  open engine use {config, budget}

  pub visit-Visited :
      (kind : CheckKind) (checks : List (CheckResult h)) (ex : Bool) (s : Session W)
      → Visited h config.thresholds kind checks ex
          (visit h t engine kind checks ex s).0.0
          (visit h t engine kind checks ex s).0.1
  unfolding visit skipped_result
  visit-Visited kind checks ex s = elim (Option-cases (dependency_skip kind checks)) [
    | inr (because, e) ↦
        let named =
          first_skip-blamed (dependencies kind) checks because (unfold dependency_skip in e) in
        rw (e, visit)
          (record {
            own_kind = refl;
            justified = e ∙ sym named;
            flagged = ground (arith, named);
            halted = λ late. refl;
            explained = inl refl;
          })
    | inl e ↦
        elim (Bool-cases
          (ex || ltb budget.max_probes (saturating_add s.used (probe_cost config kind)))) [
            | inl out ↦
                rw (e, visit)
                  (rw out (record {
                    own_kind = refl;
                    justified = e;
                    flagged = ground arith;
                    halted = λ late. refl;
                    explained = inl refl;
                  }))
            | inr room ↦
                let x = run_check-Explained h t engine kind checks s in
                let ran = ran_of_Explained h config.thresholds kind _ x in
                rw (e, visit)
                  (rw room (record {
                    own_kind = x.own_kind;
                    justified = e ∙ sym (blamed_of_ran _ ran);
                    flagged = ground arith;
                    halted = λ late. absurd (ground arith);
                    explained = inr (
                        subst
                          (λ k.
                            Explained h config.thresholds k (run_check h t engine kind checks s).0)
                          (sym x.own_kind) x);
                  }))
          ]
  ]
