-- ===== src/Doctor/Engine/Report.antt =====
-- crates/lattice-doctor/src/engine.rs: what the report of a whole run is, whatever the transport
-- answers.
use mathlib.Core.List.{map-append, append-nil, append_assoc}
use neon_hearth.Prelude.{
  ◌≡◌, refl, sym, ap, ◌∙◌, Bool, true, false, List, [], ◌∷◌, ◌++◌, map, any, any-append, All,
  All-append, All-mono, arith, subst,
}
use neon_hearth.External.{Host}
use neon_hearth.Doctor.Probe.{ProbeTransport}
use neon_hearth.Doctor.Check.{
  CheckKind, CheckResult, same_kind, kind_index, dependencies, execution_order,
}
use neon_hearth.Doctor.Engine.{DiagnosticEngine, visit, run_loop, run}
use neon_hearth.Doctor.Engine.Session.{Session}
use neon_hearth.Doctor.Engine.Config.{Thresholds}
use neon_hearth.Doctor.Engine.Results.{dependency_skip}
use neon_hearth.Doctor.Engine.Blame.{Blames, Justified, Found, blamed, first_skip-Blames}
use neon_hearth.Doctor.Engine.Order.{
  RanOrSkipped, Halts, lacks_budget, Visited, find_check-append, first_skip-append, find_check-map,
  Halts-append, visit-Visited,
}

-- Every kind stands behind the kinds that it depends on.
abbrev Topological : List CheckKind → List CheckKind → Type 0
Topological before [] = Unit
Topological before (kind ∷ kinds) =
    All (λ d. any (λ k. same_kind k d) before ≡ true) (dependencies kind)
    × Topological (before ++ kind ∷ []) kinds

execution_order-Topological : Topological [] execution_order
unfolding dependencies kind_index
execution_order-Topological = ground arith

abbrev kinds_of : {h : Host} → List (CheckResult h) → List CheckKind
kinds_of = map (λ r. r.kind)

module _ {h : Host} where
  -- A result with the skip that the list gives it and that no further result unsettles.
  abbrev Settled : List (CheckResult h) → CheckResult h → Type 0
  Settled checks r =
      All (Found checks) (dependencies r.kind) × (dependency_skip r.kind checks ≡ blamed r.status)

  Settled-Justified :
      (checks : List (CheckResult h)) (r : CheckResult h) → Settled checks r → Justified checks r
  unfolding dependency_skip
  Settled-Justified checks r (found, same) =
      subst (Blames checks (dependencies r.kind)) same
        (first_skip-Blames checks (dependencies r.kind) found)

  Settled-append :
      (checks : List (CheckResult h)) (x r : CheckResult h)
      → Settled checks r
      → Settled (checks ++ x ∷ []) r
  unfolding dependency_skip
  Settled-append checks x r (found, just) = (
    All-mono (Found checks) (Found (checks ++ x ∷ []))
        (λ d f. rw (find_check-append checks (x ∷ []) d f) f) (dependencies r.kind) found,
    first_skip-append (dependencies r.kind) checks (x ∷ []) found ∙ just,
  )

  -- What holds of the results so far and of the flag.
  record Inv (thresholds : Thresholds h) (checks : List (CheckResult h)) (ex : Bool) : Type 0 where
    settled : All (Settled checks) checks
    flagged : ex ≡ any (λ q. lacks_budget q.status) checks
    halts : Halts checks
    explained : All (RanOrSkipped thresholds) checks

  Inv-append :
      (thresholds : Thresholds h) (kind : CheckKind) (checks : List (CheckResult h)) (ex : Bool)
      (r : CheckResult h) (ex' : Bool)
      → Inv thresholds checks ex
      → All (Found checks) (dependencies kind)
      → Visited h thresholds kind checks ex r ex'
      → Inv thresholds (checks ++ r ∷ []) ex'
  Inv-append thresholds kind checks ex r ex' v found x =
      let same : Settled checks r =
        subst
          (λ k. All (Found checks) (dependencies k) × (dependency_skip k checks ≡ blamed r.status))
          (sym x.own_kind) (found, x.justified) in
      record {
        settled =
            All-append _ checks (r ∷ [])
              (All-mono _ _ (λ q. Settled-append checks r q) checks v.settled)
              (Settled-append checks r r same, tt);
        flagged = ground (arith, any-append (λ q. lacks_budget q.status) checks (r ∷ []));
        halts = Halts-append checks r v.halts (λ e. x.halted (v.flagged ∙ e));
        explained = All-append _ checks (r ∷ []) v.explained (x.explained, tt);
      }

module _ (h : Host) {W : Type 0} (t : ProbeTransport h W) (engine : DiagnosticEngine h) where
  Found-of_before :
      (checks : List (CheckResult h)) (kinds : List CheckKind)
      → All (λ d. any (λ k. same_kind k d) (kinds_of checks) ≡ true) kinds
      → All (Found checks) kinds
  Found-of_before checks kinds =
      All-mono _ (Found checks) (λ d e. find_check-map checks d ∙ e) kinds

  loop-Inv :
      (kinds : List CheckKind) (checks : List (CheckResult h)) (ex : Bool) (s : Session W)
      → Topological (kinds_of checks) kinds
      → Inv engine.config.thresholds checks ex
      → let (done, flag) = (run_loop h t engine kinds checks ex s).0 in
        Inv engine.config.thresholds done flag × (kinds_of done ≡ kinds_of checks ++ kinds)
  unfolding run_loop
  loop-Inv [] checks ex s order v = (v, sym (append-nil (kinds_of checks)))
  loop-Inv (kind ∷ kinds) checks ex s order v =
      let round = visit h t engine kind checks ex s in
      let x = visit-Visited h t engine kind checks ex s in
      let grown : kinds_of (checks ++ round.0.0 ∷ []) ≡ kinds_of checks ++ kind ∷ [] =
        map-append (λ r. r.kind) checks (round.0.0 ∷ [])
        ∙ ap (λ k. kinds_of checks ++ k ∷ []) x.own_kind in
      let (inv, all) =
        loop-Inv kinds (checks ++ round.0.0 ∷ []) round.0.1 round.1
          (subst (λ ks. Topological ks kinds) (sym grown) order.1)
          (Inv-append engine.config.thresholds kind checks ex round.0.0 round.0.1 v
            (Found-of_before checks (dependencies kind) order.0) x) in
      (inv, all ∙ (ap (λ ks. ks ++ kinds) grown ∙ append_assoc (kinds_of checks) (kind ∷ []) kinds))

  run-Inv :
      (w : W)
      → let report = (run h t engine w).0 in
        Inv engine.config.thresholds report.checks report.budget_exhausted
        × (kinds_of report.checks ≡ execution_order)
  unfolding run
  run-Inv w =
      loop-Inv execution_order [] false _ execution_order-Topological
        (record { settled = tt; flagged = refl; halts = tt; explained = tt })

  -- A report holds each of the twelve checks once, in the order of execution, run or skipped.
  pub run_order : (w : W) → kinds_of (run h t engine w).0.checks ≡ execution_order
  run_order w = (run-Inv w).1

  -- Every result of a report is what the report's other results call for. A check that was skipped
  -- for a failed or a skipped dependency names one that the report shows to have failed or to have
  -- been skipped, the first of its dependencies that has not passed; and the dependencies of a check
  -- that ran, or found no budget, have all passed.
  pub run-Justified :
      (w : W) → All (Justified (run h t engine w).0.checks) (run h t engine w).0.checks
  run-Justified w =
      All-mono _ _ (Settled-Justified (run h t engine w).0.checks) _ (run-Inv w).0.settled

  -- The report says that the budget ran out exactly when it skipped a check for that, and no check
  -- behind such a one has run.
  pub run_exhaustion :
      (w : W)
      → let report = (run h t engine w).0 in
        (report.budget_exhausted ≡ any (λ r. lacks_budget r.status) report.checks)
        × Halts report.checks
  run_exhaustion w = let inv = (run-Inv w).0 in (inv.flagged, inv.halts)

  -- Every check of a report was skipped, or its status follows from the detail that it reports.
  pub run_explained :
      (w : W) → All (RanOrSkipped engine.config.thresholds) (run h t engine w).0.checks
  run_explained w = (run-Inv w).0.explained
