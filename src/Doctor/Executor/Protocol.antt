-- ===== src/Doctor/Executor/Protocol.antt =====
-- crates/lattice-doctor/src/executor.rs: which calls an execution makes, when it rolls back, and what
-- it writes down of both.
use mathlib.Core.List.{append_assoc, append-nil}
use neon_hearth.Prelude.{
  ℕ, suc, ◌≡◌, refl, sym, ap, ◌∙◌, ◌⊎◌, inl, Bool, true, false, String, List, [], ◌∷◌, ◌++◌, map,
  length, Result, ok, err, arith, as_u32,
}
use neon_hearth.External.{Host}
use neon_hearth.Doctor.Check.{Measurement}
use neon_hearth.Doctor.Repair.{RepairClass, StateKey, ExecutableRepair, reversible}
use neon_hearth.Doctor.Executor.{
  TransportCall, Recorded, recorded, restored_outcome, after_restore, try_restore, roll_back,
}
use neon_hearth.Doctor.Executor.Types.{
  Done, RepairTransport, RepairTransportError, StateEntry, Verdict, RollbackSkipReason,
  RollbackOutcome, RepairEvent, RepairEventKind, RepairOutcome,
}
use neon_hearth.Doctor.Executor.Symptoms.{Symptom}
use neon_hearth.Doctor.Executor.Journals.{Journal, push}

-- An event without its time and without the measurements that it carries.
pub data Label : Type 0 where
  started : RepairClass → String → Label
  snapshotted : List StateKey → Label
  applied : Label
  apply_failed verification_failed : String → Label
  verified : Verdict → Label
  rolled_back : RollbackOutcome → Label

abbrev pub label : {h : Host} → RepairEventKind h → Label
label (RepairEventKind.started class description) = Label.started class description
label (RepairEventKind.snapshotted keys baseline) = Label.snapshotted keys
label RepairEventKind.applied = Label.applied
label (RepairEventKind.apply_failed error) = Label.apply_failed error
label (RepairEventKind.verified verdict before after) = Label.verified verdict
label (RepairEventKind.verification_failed error) = Label.verification_failed error
label (RepairEventKind.rolled_back outcome) = Label.rolled_back outcome

abbrev pub noted : {h : Host} → List (RepairEvent h) → List (ℕ × Label)
noted = map (λ e. (e.sequence, label e.kind))

abbrev pub numbered : ℕ → List Label → List (ℕ × Label)
numbered n [] = []
numbered n (l ∷ ls) = (n, l) ∷ numbered (suc n) ls

-- The events behind the first that an outcome comes with.
abbrev pub settled_events : Verdict → RollbackOutcome → List Label
settled_events Verdict.regressed rollback = Label.rolled_back rollback ∷ []
settled_events _ rollback = []

abbrev pub later_events : List StateKey → RepairOutcome → RollbackOutcome → List Label
later_events keys (RepairOutcome.snapshot_failed error) rollback = []
later_events keys (RepairOutcome.baseline_failed error) rollback = []
later_events keys (RepairOutcome.apply_failed error) rollback =
    Label.snapshotted keys ∷ Label.apply_failed error ∷ Label.rolled_back rollback ∷ []
later_events keys (RepairOutcome.verification_failed error) rollback =
    Label.snapshotted keys
    ∷ Label.applied
    ∷ Label.verification_failed error
    ∷ Label.rolled_back rollback
    ∷ []
later_events keys (RepairOutcome.completed verdict) rollback =
    Label.snapshotted keys
    ∷ Label.applied
    ∷ Label.verified verdict
    ∷ settled_events verdict rollback

-- The calls up to the rollback that an outcome comes with.
abbrev pub forward_calls : RepairOutcome → List TransportCall
forward_calls (RepairOutcome.snapshot_failed error) = TransportCall.snapshot ∷ []
forward_calls (RepairOutcome.baseline_failed error) =
    TransportCall.snapshot ∷ TransportCall.measure ∷ []
forward_calls (RepairOutcome.apply_failed error) =
    TransportCall.snapshot ∷ TransportCall.measure ∷ TransportCall.apply ∷ []
forward_calls _ =
    TransportCall.snapshot ∷ TransportCall.measure ∷ TransportCall.apply ∷ TransportCall.measure
    ∷ []

-- The calls that a rollback comes with: none, or a restore, measured unless it failed.
abbrev pub Restoring : RollbackOutcome → List TransportCall → Type 0
Restoring (RollbackOutcome.not_attempted reason) calls = calls ≡ []
Restoring RollbackOutcome.succeeded calls =
    calls ≡ TransportCall.restore ∷ TransportCall.measure ∷ []
Restoring (RollbackOutcome.failed error) calls =
    (calls ≡ TransportCall.restore ∷ [])
    ⊎ (calls ≡ TransportCall.restore ∷ TransportCall.measure ∷ [])

-- Whether an outcome leaves a change that should be taken back.
abbrev pub needs_rollback : RepairOutcome → Bool
needs_rollback (RepairOutcome.apply_failed error) = true
needs_rollback (RepairOutcome.verification_failed error) = true
needs_rollback (RepairOutcome.completed Verdict.regressed) = true
needs_rollback _ = false

abbrev pub is_attempted : RollbackOutcome → Bool
is_attempted (RollbackOutcome.not_attempted reason) = false
is_attempted _ = true

-- The rollback that is due, by whether it is needed and whether the repair is reversible.
abbrev pub Due : Bool → Bool → RollbackOutcome → Type 0
Due false can rollback = rollback ≡ RollbackOutcome.not_attempted RollbackSkipReason.not_needed
Due true false rollback = rollback ≡ RollbackOutcome.not_attempted RollbackSkipReason.not_reversible
Due true true rollback = is_attempted rollback ≡ true

module _ (h : Host) {W : Type 0} (t : RepairTransport h W) (repair : ExecutableRepair)
    (symptom : Symptom h) where
  abbrev pub Logging : Type 0
  Logging = Journal h (Recorded W)

  -- What has been called and written down.
  pub record Stands (calls : List TransportCall) (events : List (ℕ × Label)) (s : Logging)
      : Type 0 where
    pub called : s.world.calls ≡ calls
    pub written : noted s.events ≡ events

  noted-push :
      (es : List (RepairEvent h)) (e : RepairEvent h)
      → noted (es ++ e ∷ []) ≡ noted es ++ (e.sequence, label e.kind) ∷ []
  noted-push [] e = refl
  noted-push (x ∷ es) e = ap (λ r. (x.sequence, label x.kind) ∷ r) (noted-push es e)

  length-noted : (es : List (RepairEvent h)) → length (noted es) ≡ length es
  length-noted [] = refl
  length-noted (e ∷ es) = ap suc (length-noted es)

  pub push-Stands :
      {calls : List TransportCall} {events : List (ℕ × Label)} (kind : RepairEventKind h)
      (s : Logging)
      → Stands calls events s
      → Stands calls
          (events ++ (as_u32 (length events), label kind) ∷ [])
          (push h (recorded t) kind s).1
  unfolding push recorded
  push-Stands kind s v = record {
    called = v.called;
    written = noted-push s.events _ ∙ cc (v.written, length-noted s.events);
  }

  -- What a rollback adds.
  pub record Undone (can : Bool) (calls : List TransportCall) (events : List (ℕ × Label))
      (rollback : RollbackOutcome) (s : Logging) : Type 0 where
    pub more : List TransportCall
    pub restoring : Restoring rollback more
    pub due : Due true can rollback
    pub stands : Stands (calls ++ more) events s

  restored_outcome_cases :
      (baseline : Measurement h) (a : Result (Measurement h) String)
      → let rollback = restored_outcome h symptom baseline a in
        Restoring rollback (TransportCall.restore ∷ TransportCall.measure ∷ [])
        × (is_attempted rollback ≡ true)
  unfolding restored_outcome
  restored_outcome_cases baseline a = ground arith

  after_restore-Undone :
      {calls : List TransportCall} {events : List (ℕ × Label)} (baseline : Measurement h)
      (a : Result Done RepairTransportError) (s : Logging)
      → Stands (calls ++ TransportCall.restore ∷ []) events s
      → let r = after_restore h (recorded t) symptom baseline a s in
        Undone true calls events r.0 r.1
  unfolding after_restore recorded
  after_restore-Undone baseline (err error) s v = record {
    more = TransportCall.restore ∷ [];
    restoring = inl refl;
    due = refl;
    stands = v;
  }
  after_restore-Undone {calls} baseline (ok done) s v =
      let (restoring, due) = restored_outcome_cases baseline _ in
      record {
        more = TransportCall.restore ∷ TransportCall.measure ∷ [];
        restoring = restoring;
        due = due;
        stands = record {
          called = ap (λ c. c ++ TransportCall.measure ∷ []) v.called ∙ append_assoc calls _ _;
          written = v.written;
        };
      }

  try_restore-Undone :
      {calls : List TransportCall} {events : List (ℕ × Label)} (can : Bool)
      (snapshot : List StateEntry) (baseline : Measurement h) (s : Logging)
      → Stands calls events s
      → let r = try_restore h (recorded t) can snapshot symptom baseline s in
        Undone can calls events r.0 r.1
  unfolding try_restore recorded
  try_restore-Undone {calls} false snapshot baseline s v = record {
    more = [];
    restoring = refl;
    due = refl;
    stands = record { called = v.called ∙ sym (append-nil calls); written = v.written };
  }
  try_restore-Undone true snapshot baseline s v =
      after_restore-Undone baseline _ _ (record {
        called = ap (λ c. c ++ TransportCall.restore ∷ []) v.called;
        written = v.written;
      })

  pub roll_back-Undone :
      {calls : List TransportCall} {events : List (ℕ × Label)} (snapshot : List StateEntry)
      (baseline : Measurement h) (s : Logging)
      → Stands calls events s
      → let r = roll_back h (recorded t) repair snapshot symptom baseline s in
        Undone
          (reversible repair)
          calls
          (events ++ (as_u32 (length events), Label.rolled_back r.0) ∷ [])
          r.0
          r.1
  unfolding roll_back
  roll_back-Undone snapshot baseline s v =
      let u = try_restore-Undone (reversible repair) snapshot baseline s v in
      record {
        more = u.more;
        restoring = u.restoring;
        due = u.due;
        stands = push-Stands (RepairEventKind.rolled_back _) _ u.stands;
      }
