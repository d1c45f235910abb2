-- ===== src/Doctor/Executor/Runs.antt =====
-- crates/lattice-doctor/src/executor.rs: a whole execution keeps to its protocol.
use neon_hearth.Prelude.{◌≡◌, refl, ap, String, List, [], ◌∷◌, ◌++◌, Option, none, Result, ok, err}
use neon_hearth.External.{Host}
use neon_hearth.Doctor.Check.{Measurement}
use neon_hearth.Doctor.Repair.{ExecutableRepair, repair_class, reversible, state_keys, describe}
use neon_hearth.Doctor.Executor.{
  TransportCall, recorded, finish, settle, after_verification, after_apply, after_baseline,
  after_snapshot, execute,
}
use neon_hearth.Doctor.Executor.Types.{
  Done, RepairTransport, RepairTransportError, StateEntry, Verdict, RollbackOutcome,
  RepairEventKind, RepairOutcome, RepairReport, Verification,
}
use neon_hearth.Doctor.Executor.Symptoms.{Symptom, compare}
use neon_hearth.Doctor.Executor.Protocol.{
  Label, noted, numbered, later_events, forward_calls, Restoring, needs_rollback, Due, Logging,
  Stands, push-Stands, roll_back-Undone,
}

-- A report that keeps to the protocol, with the calls that were made.
pub record Conforms {h : Host} (repair : ExecutableRepair) (report : RepairReport h)
    (calls : List TransportCall) : Type 0 where
  pub restore_calls : List TransportCall
  pub restoring : Restoring report.rollback restore_calls
  pub all_calls : calls ≡ forward_calls report.outcome ++ restore_calls
  pub due : Due (needs_rollback report.outcome) (reversible repair) report.rollback
  pub history :
      noted report.events
      ≡ numbered 0 (
          Label.started (repair_class repair) (describe repair)
          ∷ later_events (state_keys repair) report.outcome report.rollback)

module _ (h : Host) {W : Type 0} (t : RepairTransport h W) (repair : ExecutableRepair)
    (symptom : Symptom h) where
  abbrev At : List TransportCall → List Label → Logging h t repair symptom → Type 0
  At calls labels =
      Stands h t repair symptom calls
        (numbered 0 (Label.started (repair_class repair) (describe repair) ∷ labels))

  finish-Conforms :
      (outcome : RepairOutcome) (verification : Option (Verification h))
      (rollback : RollbackOutcome) (more : List TransportCall) (s : Logging h t repair symptom)
      → Restoring rollback more
      → Due (needs_rollback outcome) (reversible repair) rollback
      → At (forward_calls outcome ++ more) (later_events (state_keys repair) outcome rollback) s
      → let r = finish h (recorded t) repair outcome verification rollback s in
        Conforms repair r.0 r.1.world.calls
  unfolding finish
  finish-Conforms outcome verification rollback more s restoring due v = record {
    restore_calls = more;
    restoring = restoring;
    all_calls = v.called;
    due = due;
    history = v.written;
  }

  settle-Conforms :
      (snapshot : List StateEntry) (baseline : Measurement h) (verdict : Verdict)
      (verification : Option (Verification h)) (s : Logging h t repair symptom)
      → At
          (forward_calls (RepairOutcome.completed verdict))
          (Label.snapshotted (state_keys repair) ∷ Label.applied ∷ Label.verified verdict ∷ [])
          s
      → let u = settle h (recorded t) repair symptom snapshot baseline verdict s in
        let r =
          finish h (recorded t) repair (RepairOutcome.completed verdict) verification u.0 u.1 in
        Conforms repair r.0 r.1.world.calls
  unfolding settle
  settle-Conforms snapshot baseline Verdict.regressed verification s v =
      let u = roll_back-Undone h t repair symptom snapshot baseline s v in
      finish-Conforms _ verification _ u.more _ u.restoring u.due u.stands
  settle-Conforms snapshot baseline Verdict.improved verification s v =
      finish-Conforms _ verification _ [] _ refl refl v
  settle-Conforms snapshot baseline Verdict.unchanged verification s v =
      finish-Conforms _ verification _ [] _ refl refl v

  after_verification-Conforms :
      (snapshot : List StateEntry) (baseline : Measurement h) (a : Result (Measurement h) String)
      (s : Logging h t repair symptom)
      → At
          (TransportCall.snapshot ∷ TransportCall.measure ∷ TransportCall.apply
            ∷ TransportCall.measure ∷ [])
          (Label.snapshotted (state_keys repair) ∷ Label.applied ∷ [])
          s
      → let r = after_verification h (recorded t) repair symptom snapshot baseline a s in
        Conforms repair r.0 r.1.world.calls
  unfolding after_verification
  after_verification-Conforms snapshot baseline (err error) s v =
      let u =
        roll_back-Undone h t repair symptom snapshot baseline _
          (push-Stands h t repair symptom (RepairEventKind.verification_failed error) s v) in
      finish-Conforms (RepairOutcome.verification_failed error) none _ u.more _ u.restoring u.due
        u.stands
  after_verification-Conforms snapshot baseline (ok after) s v =
      settle-Conforms snapshot baseline (compare h symptom baseline.value after.value) _ _
        (push-Stands h t repair symptom (RepairEventKind.verified _ baseline after) s v)

  after_apply-Conforms :
      (snapshot : List StateEntry) (baseline : Measurement h) (a : Result Done RepairTransportError)
      (s : Logging h t repair symptom)
      → At
          (TransportCall.snapshot ∷ TransportCall.measure ∷ TransportCall.apply ∷ [])
          (Label.snapshotted (state_keys repair) ∷ [])
          s
      → let r = after_apply h (recorded t) repair symptom snapshot baseline a s in
        Conforms repair r.0 r.1.world.calls
  unfolding after_apply recorded
  after_apply-Conforms snapshot baseline (err error) s v =
      let u =
        roll_back-Undone h t repair symptom snapshot baseline _
          (push-Stands h t repair symptom (RepairEventKind.apply_failed _) s v) in
      finish-Conforms (RepairOutcome.apply_failed _) none _ u.more _ u.restoring u.due u.stands
  after_apply-Conforms snapshot baseline (ok done) s v =
      let x = push-Stands h t repair symptom RepairEventKind.applied s v in
      after_verification-Conforms snapshot baseline _ _ (record {
        called = ap (λ c. c ++ TransportCall.measure ∷ []) x.called;
        written = x.written;
      })

  after_baseline-Conforms :
      (snapshot : List StateEntry) (a : Result (Measurement h) String)
      (s : Logging h t repair symptom)
      → At (TransportCall.snapshot ∷ TransportCall.measure ∷ []) [] s
      → let r = after_baseline h (recorded t) repair symptom snapshot a s in
        Conforms repair r.0 r.1.world.calls
  unfolding after_baseline recorded
  after_baseline-Conforms snapshot (err error) s v =
      finish-Conforms (RepairOutcome.baseline_failed error) none _ [] _ refl refl v
  after_baseline-Conforms snapshot (ok baseline) s v =
      let x = push-Stands h t repair symptom (RepairEventKind.snapshotted _ baseline) s v in
      after_apply-Conforms snapshot baseline _ _
        (record { called = ap (λ c. c ++ TransportCall.apply ∷ []) x.called; written = x.written })

  after_snapshot-Conforms :
      (a : Result (List StateEntry) RepairTransportError) (s : Logging h t repair symptom)
      → At (TransportCall.snapshot ∷ []) [] s
      → let r = after_snapshot h (recorded t) repair symptom a s in
        Conforms repair r.0 r.1.world.calls
  unfolding after_snapshot recorded
  after_snapshot-Conforms (err error) s v =
      finish-Conforms (RepairOutcome.snapshot_failed _) none _ [] _ refl refl v
  after_snapshot-Conforms (ok snapshot) s v =
      after_baseline-Conforms snapshot _ _ (record {
        called = ap (λ c. c ++ TransportCall.measure ∷ []) v.called;
        written = v.written;
      })

  -- Whatever the transport answers, an execution keeps to the protocol. It calls the transport in
  -- the order snapshot, measure, apply, measure, as far as its outcome says, then for the rollback
  -- that it reports; it applies the repair at most once, behind a snapshot and a baseline. A change that failed,
  -- regressed or could not be verified is rolled back exactly if the repair is reversible, and any
  -- other is left. The events are numbered from 0 and agree with the outcome and the rollback.
  pub execute-Conforms :
      (w : W)
      → let r = execute h (recorded t) repair symptom (record { world = w; calls = [] }) in
        Conforms repair r.0 r.1.calls
  unfolding execute recorded
  execute-Conforms w =
      let x =
        push-Stands h t repair symptom
          (RepairEventKind.started (repair_class repair) (describe repair))
          (record { events = []; world = record { world = w; calls = [] } })
          (record { called = refl; written = refl }) in
      after_snapshot-Conforms _ _ (record {
        called = ap (λ c. c ++ TransportCall.snapshot ∷ []) x.called;
        written = x.written;
      })
