-- ===== src/Doctor/Executor.antt =====
-- crates/lattice-doctor/src/executor.rs: `RepairExecutor::execute`, its phases cut where the code
-- waits for the transport, and the transport that logs its calls.
pub mod Types
pub mod Symptoms
pub mod Journals
pub mod Protocol
pub mod Runs
pub mod Verdicts
pub mod Arguments
use neon_hearth.Prelude.{
  ℕ, ◌++◌, Bool, true, false, String, List, [], ◌∷◌, Option, none, some, Result, ok, err,
  if◌then◌else◌,
}
use neon_hearth.Text.{concat}
use neon_hearth.External.{Host}
use neon_hearth.Doctor.Check.{Measurement}
use neon_hearth.Doctor.Repair.{
  RepairClass, ExecutableRepair, repair_class, reversible, state_keys, describe,
}
use Types.{
  Done, RepairTransport, RepairTransportError, transport_error_text, StateEntry, Verdict,
  Verification, RollbackSkipReason, RollbackOutcome, RepairEventKind, RepairOutcome, RepairReport,
}
use Symptoms.{Symptom, compare}
use Journals.{Journal, J, ◌>>=◌, ◌>>◌, pure, push, call, measure_symptom}

abbrev pub not_needed : RollbackOutcome
not_needed = RollbackOutcome.not_attempted RollbackSkipReason.not_needed

module _ (h : Host) where
  open h use {f64}

  -- The outcome of a restore whose symptom was measured again.
  unfoldable pub restored_outcome :
      Symptom h → Measurement h → Result (Measurement h) String → RollbackOutcome
  restored_outcome symptom baseline (err error) =
      RollbackOutcome.failed (concat "restore succeeded but could not be verified: " error)
  restored_outcome symptom baseline (ok restored) =
      elim (compare h symptom baseline.value restored.value) [
        | Verdict.regressed ↦ RollbackOutcome.failed (
            concat "restore succeeded but the symptom did not return to baseline: before " (
              concat (f64.display baseline.value)
                (concat " after rollback " (f64.display restored.value))))
        | _ ↦ RollbackOutcome.succeeded
      ]

module _ (h : Host) {W : Type 0} (t : RepairTransport h W) where
  unfoldable pub after_restore :
      Symptom h → Measurement h → Result Done RepairTransportError → J h W RollbackOutcome
  after_restore symptom baseline (err error) =
      pure (RollbackOutcome.failed (transport_error_text error))
  after_restore symptom baseline (ok done) = do
    restored ← measure_symptom h t symptom
    pure (restored_outcome h symptom baseline restored)

  unfoldable pub try_restore :
      Bool → List StateEntry → Symptom h → Measurement h → J h W RollbackOutcome
  try_restore false snapshot symptom baseline =
      pure (RollbackOutcome.not_attempted RollbackSkipReason.not_reversible)
  try_restore true snapshot symptom baseline = do
    answer ← call h t (t.restore snapshot)
    after_restore symptom baseline answer

  unfoldable pub roll_back :
      ExecutableRepair → List StateEntry → Symptom h → Measurement h → J h W RollbackOutcome
  roll_back repair snapshot symptom baseline = do
    outcome ← try_restore (reversible repair) snapshot symptom baseline
    push h t (RepairEventKind.rolled_back outcome)
    pure outcome

  unfoldable pub finish :
      ExecutableRepair
      → RepairOutcome
      → Option (Verification h)
      → RollbackOutcome
      → J h W (RepairReport h)
  finish repair outcome verification rollback s = (
    record {
      repair_class = repair_class repair;
      description = describe repair;
      outcome = outcome;
      verification = verification;
      rollback = rollback;
      events = s.events;
    },
    s,
  )

  module _ (repair : ExecutableRepair) (symptom : Symptom h) where
    unfoldable pub settle : List StateEntry → Measurement h → Verdict → J h W RollbackOutcome
    settle snapshot baseline Verdict.regressed = roll_back repair snapshot symptom baseline
    settle snapshot baseline _ = pure not_needed

    unfoldable pub after_verification :
        List StateEntry → Measurement h → Result (Measurement h) String → J h W (RepairReport h)
    after_verification snapshot baseline (err error) = do
      push h t (RepairEventKind.verification_failed error)
      rollback ← roll_back repair snapshot symptom baseline
      finish repair (RepairOutcome.verification_failed error) none rollback
    after_verification snapshot baseline (ok after) = do
      push h t
          (RepairEventKind.verified (compare h symptom baseline.value after.value) baseline after)
      rollback ← settle snapshot baseline (compare h symptom baseline.value after.value)
      finish repair (RepairOutcome.completed (compare h symptom baseline.value after.value))
          (some (record {
            verdict = compare h symptom baseline.value after.value;
            before = baseline;
            after = after;
          }))
          rollback

    unfoldable pub after_apply :
        List StateEntry → Measurement h → Result Done RepairTransportError → J h W (RepairReport h)
    after_apply snapshot baseline (err error) = do
      push h t (RepairEventKind.apply_failed (transport_error_text error))
      rollback ← roll_back repair snapshot symptom baseline
      finish repair (RepairOutcome.apply_failed (transport_error_text error)) none rollback
    after_apply snapshot baseline (ok done) = do
      push h t RepairEventKind.applied
      after ← measure_symptom h t symptom
      after_verification snapshot baseline after

    unfoldable pub after_baseline :
        List StateEntry → Result (Measurement h) String → J h W (RepairReport h)
    after_baseline snapshot (err error) =
        finish repair (RepairOutcome.baseline_failed error) none not_needed
    after_baseline snapshot (ok baseline) = do
      push h t (RepairEventKind.snapshotted (state_keys repair) baseline)
      answer ← call h t (t.apply repair)
      after_apply snapshot baseline answer

    unfoldable pub after_snapshot :
        Result (List StateEntry) RepairTransportError → J h W (RepairReport h)
    after_snapshot (err error) =
        finish repair (RepairOutcome.snapshot_failed (transport_error_text error)) none not_needed
    after_snapshot (ok snapshot) = do
      baseline ← measure_symptom h t symptom
      after_baseline snapshot baseline

    -- `RepairExecutor::execute`, from a world to the report and the world after it.
    pub execute : W → RepairReport h × W
    execute w =
        let done =
          (do
            push h t (RepairEventKind.started (repair_class repair) (describe repair))
            answer ← call h t (t.snapshot (state_keys repair))
            after_snapshot answer)
            (record { events = []; world = w }) in
        (done.0, done.1.world)

-- `TransportCall`, and the log of calls of `FakeRepairTransport`, beside a transport of any kind.
pub data TransportCall : Type 0 where
  snapshot apply restore measure : TransportCall

pub record Recorded (W : Type 0) : Type 0 where
  pub world : W
  pub calls : List TransportCall

record_call : {W A : Type 0} → TransportCall → (W → A × W) → Recorded W → A × Recorded W
record_call kind f s =
    let answer = f s.world in (answer.0, record { world = answer.1; calls = s.calls ++ kind ∷ [] })

module _ {h : Host} {W : Type 0} where
  unfoldable pub recorded : RepairTransport h W → RepairTransport h (Recorded W)
  unfolding record_call
  recorded t = record {
    snapshot = λ keys. record_call TransportCall.snapshot (t.snapshot keys);
    apply = λ repair. record_call TransportCall.apply (t.apply repair);
    restore = λ entries. record_call TransportCall.restore (t.restore entries);
    measure = λ check. record_call TransportCall.measure (t.measure check);
    now = λ s. let time = t.now s.world in (time.0, record s { world = time.1 });
  }
