-- ===== src/Doctor/Executor/Verdicts.antt =====
-- crates/lattice-doctor/src/executor.rs: what the verdict of an execution rests on.
use neon_hearth.Prelude.{
  ◌≡◌, refl, true, String, List, [], ◌∷◌, find, Option, none, some, Result, ok, err, arith,
}
use neon_hearth.External.{Host}
use neon_hearth.Doctor.Check.{Measurement}
use neon_hearth.Doctor.Repair.{ExecutableRepair}
use neon_hearth.Doctor.Executor.{
  finish, after_verification, after_apply, after_baseline, after_snapshot, execute,
}
use neon_hearth.Doctor.Executor.Types.{
  Done, RepairTransport, RepairTransportError, StateEntry, Verification, RepairOutcome,
  RepairReport,
}
use neon_hearth.Doctor.Executor.Symptoms.{
  Symptom, symptom_of, finite, and_finite, same_metric, compare,
}
use neon_hearth.Doctor.Executor.Journals.{Journal}

module _ (h : Host) (symptom : Symptom h) where
  open h use {f64}

  -- A measurement of the symptom that can be compared.
  abbrev pub Comparable : Measurement h → Type 0
  Comparable m = (same_metric m.metric symptom.metric ≡ true) × (f64.is_finite m.value ≡ true)

  -- What a report's verification says of its outcome.
  abbrev pub Judged : RepairOutcome → Option (Verification h) → Type 0
  Judged (RepairOutcome.completed verdict) (some v) =
      (v.verdict ≡ verdict)
      × (verdict ≡ compare h symptom v.before.value v.after.value)
      × Comparable v.before
      × Comparable v.after
  Judged (RepairOutcome.completed verdict) none = ⊥
  Judged _ (some v) = ⊥
  Judged _ none = Unit

  find_metric :
      (ms : List (Measurement h)) (m : Measurement h)
      → find (λ x. same_metric x.metric symptom.metric) ms ≡ some m
      → same_metric m.metric symptom.metric ≡ true
  find_metric [] m e = absurd (cc e)
  find_metric (x ∷ xs) m e = ground (arith, find_metric xs m)

  symptom_of_metric :
      (a : Result (List (Measurement h)) RepairTransportError) (m : Measurement h)
      → symptom_of h symptom a ≡ ok m
      → same_metric m.metric symptom.metric ≡ true
  unfolding symptom_of
  symptom_of_metric (err x) m e = absurd (cc e)
  symptom_of_metric (ok ms) m e = ground (arith, find_metric ms m)

  finite_comparable :
      (a : Result (Measurement h) String) (m : Measurement h)
      → and_finite h a ≡ ok m
      → (a ≡ ok m) × (f64.is_finite m.value ≡ true)
  unfolding finite
  finite_comparable a m e = ground arith

  reading-Comparable :
      (a : Result (List (Measurement h)) RepairTransportError) (m : Measurement h)
      → and_finite h (symptom_of h symptom a) ≡ ok m
      → Comparable m
  reading-Comparable a m e =
      let (found, finite) = finite_comparable (symptom_of h symptom a) m e in
      (symptom_of_metric a m found, finite)

module _ (h : Host) {W : Type 0} (t : RepairTransport h W) (repair : ExecutableRepair)
    (symptom : Symptom h) where
  abbrev JudgedReport : RepairReport h → Type 0
  JudgedReport report = Judged h symptom report.outcome report.verification

  after_verification_judged :
      (snapshot : List StateEntry) (baseline : Measurement h) (a : Result (Measurement h) String)
      (s : Journal h W)
      → Comparable h symptom baseline
      → ((m : Measurement h) → a ≡ ok m → Comparable h symptom m)
      → JudgedReport (after_verification h t repair symptom snapshot baseline a s).0
  unfolding after_verification finish
  after_verification_judged snapshot baseline (err error) s before after = tt
  after_verification_judged snapshot baseline (ok m) s before after =
      (refl, refl, before, after m refl)

  after_apply_judged :
      (snapshot : List StateEntry) (baseline : Measurement h) (a : Result Done RepairTransportError)
      (s : Journal h W)
      → Comparable h symptom baseline
      → JudgedReport (after_apply h t repair symptom snapshot baseline a s).0
  unfolding after_apply finish
  after_apply_judged snapshot baseline (err error) s before = tt
  after_apply_judged snapshot baseline (ok done) s before =
      after_verification_judged snapshot baseline _ _ before (reading-Comparable h symptom _)

  after_baseline_judged :
      (snapshot : List StateEntry) (a : Result (Measurement h) String) (s : Journal h W)
      → ((m : Measurement h) → a ≡ ok m → Comparable h symptom m)
      → JudgedReport (after_baseline h t repair symptom snapshot a s).0
  unfolding after_baseline finish
  after_baseline_judged snapshot (err error) s before = tt
  after_baseline_judged snapshot (ok baseline) s before =
      after_apply_judged snapshot baseline _ _ (before baseline refl)

  after_snapshot_judged :
      (a : Result (List StateEntry) RepairTransportError) (s : Journal h W)
      → JudgedReport (after_snapshot h t repair symptom a s).0
  unfolding after_snapshot finish
  after_snapshot_judged (err error) s = tt
  after_snapshot_judged (ok snapshot) s =
      after_baseline_judged snapshot _ _ (reading-Comparable h symptom _)

  -- A report has a verification exactly when its repair ran to the end. Its verdict is then the
  -- comparison of the two measurements that it holds, both of the symptom's metric and both finite.
  pub execute-Judged : (w : W) → JudgedReport (execute h t repair symptom w).0
  unfolding execute
  execute-Judged w = after_snapshot_judged _ _
