-- ===== src/Doctor/Executor/Arguments.antt =====
-- crates/lattice-doctor/src/executor.rs: what an execution hands to the transport.
use neon_hearth.Prelude.{
  ap, sym, subst, ◌≡◌, refl, ◌++◌, Bool, true, false, String, List, [], ◌∷◌, All, All-append,
  Result, ok, err,
}
use neon_hearth.External.{Host}
use neon_hearth.Doctor.Check.{CheckKind, Measurement}
use neon_hearth.Doctor.Repair.{StateKey, ExecutableRepair, reversible, state_keys}
use neon_hearth.Doctor.Executor.{
  after_restore, try_restore, roll_back, finish, settle, after_verification, after_apply,
  after_baseline, after_snapshot, execute,
}
use neon_hearth.Doctor.Executor.Types.{
  Done, RepairTransport, RepairTransportError, StateEntry, Verdict, RepairEventKind,
}
use neon_hearth.Doctor.Executor.Symptoms.{Symptom, compare}
use neon_hearth.Doctor.Executor.Journals.{Journal, J, push}

-- A call of the transport with what it was given, and for a snapshot what it returned.
pub data Exchange : Type 0 where
  snapshot : List StateKey → Result (List StateEntry) RepairTransportError → Exchange
  apply : ExecutableRepair → Exchange
  restore : List StateEntry → Exchange
  measure : CheckKind → Exchange

pub record Traced (W : Type 0) : Type 0 where
  pub world : W
  pub log : List Exchange

trace : {W A : Type 0} → (A → Exchange) → (W → A × W) → Traced W → A × Traced W
trace note f s =
    let answer = f s.world in
    (answer.0, record { world = answer.1; log = s.log ++ note answer.0 ∷ [] })

unfoldable pub traced : {h : Host} {W : Type 0} → RepairTransport h W → RepairTransport h (Traced W)
unfolding trace
traced t = record {
  snapshot = λ keys. trace (λ a. Exchange.snapshot keys a) (t.snapshot keys);
  apply = λ repair. trace (λ a. Exchange.apply repair) (t.apply repair);
  restore = λ entries. trace (λ a. Exchange.restore entries) (t.restore entries);
  measure = λ check. trace (λ a. Exchange.measure check) (t.measure check);
  now = λ s. let time = t.now s.world in (time.0, record s { world = time.1 });
}

module _ {h : Host} (repair : ExecutableRepair) (symptom : Symptom h) where
  -- A call with the arguments that it should have, after a snapshot of some entries.
  abbrev pub Fits : List StateEntry → Exchange → Type 0
  Fits entries (Exchange.snapshot keys answer) = ⊥
  Fits entries (Exchange.apply r) = r ≡ repair
  Fits entries (Exchange.restore es) = es ≡ entries
  Fits entries (Exchange.measure check) = check ≡ symptom.check

  -- The calls of an execution: a snapshot of the repair's keys, and the others only behind one that
  -- was taken.
  abbrev pub IsTrace : List Exchange → Type 0
  IsTrace (Exchange.snapshot keys (ok entries) ∷ rest) =
      (keys ≡ state_keys repair) × All (Fits entries) rest
  IsTrace (Exchange.snapshot keys (err error) ∷ rest) = (keys ≡ state_keys repair) × (rest ≡ [])
  IsTrace _ = ⊥

module _ (h : Host) {W : Type 0} (t : RepairTransport h W) (repair : ExecutableRepair)
    (symptom : Symptom h) (entries : List StateEntry) where
  abbrev Log : Type 0
  Log = Journal h (Traced W)

  -- The log is still such a trace, behind the snapshot of the entries.
  record Behind (s : Log) : Type 0 where
    rest : List Exchange
    same : s.world.log ≡ Exchange.snapshot (state_keys repair) (ok entries) ∷ rest
    fits : All (Fits repair symptom entries) rest

  abbrev Keeps : {A : Type 0} → J h (Traced W) A → Type 0
  Keeps m = (s : Log) → Behind s → Behind (m s).1

  more :
      (x : Exchange) (s : Log) (world : W)
      → Fits repair symptom entries x
      → Behind s
      → Behind (record s { world = record { world = world; log = s.world.log ++ x ∷ [] } })
  more x s world fit v = record {
    rest = v.rest ++ x ∷ [];
    same = ap (λ l. l ++ x ∷ []) v.same;
    fits = All-append (Fits repair symptom entries) v.rest (x ∷ []) v.fits (fit, tt);
  }

  Behind-IsTrace : (s : Log) → Behind s → IsTrace repair symptom s.world.log
  Behind-IsTrace s v = subst (IsTrace repair symptom) (sym v.same) (refl, v.fits)

  push-Keeps : (kind : RepairEventKind h) → Keeps (push h (traced t) kind)
  unfolding push traced
  push-Keeps kind s v = record { rest = v.rest; same = v.same; fits = v.fits }

  after_restore-Keeps :
      (baseline : Measurement h) (a : Result Done RepairTransportError)
      → Keeps (after_restore h (traced t) symptom baseline a)
  unfolding after_restore traced
  after_restore-Keeps baseline (err error) s v = v
  after_restore-Keeps baseline (ok done) s v = more (Exchange.measure symptom.check) s _ refl v

  try_restore-Keeps :
      (can : Bool) (baseline : Measurement h)
      → Keeps (try_restore h (traced t) can entries symptom baseline)
  unfolding try_restore traced
  try_restore-Keeps false baseline s v = v
  try_restore-Keeps true baseline s v =
      after_restore-Keeps baseline _ _ (more (Exchange.restore entries) s _ refl v)

  roll_back-Keeps :
      (baseline : Measurement h) → Keeps (roll_back h (traced t) repair entries symptom baseline)
  unfolding roll_back
  roll_back-Keeps baseline s v =
      push-Keeps (RepairEventKind.rolled_back _) _
        (try_restore-Keeps (reversible repair) baseline s v)

  settle-Keeps :
      (baseline : Measurement h) (verdict : Verdict)
      → Keeps (settle h (traced t) repair symptom entries baseline verdict)
  unfolding settle
  settle-Keeps baseline Verdict.regressed s v = roll_back-Keeps baseline s v
  settle-Keeps baseline Verdict.improved s v = v
  settle-Keeps baseline Verdict.unchanged s v = v

  after_verification-Keeps :
      (baseline : Measurement h) (a : Result (Measurement h) String)
      → Keeps (after_verification h (traced t) repair symptom entries baseline a)
  unfolding after_verification finish
  after_verification-Keeps baseline (err error) s v =
      roll_back-Keeps baseline _ (push-Keeps (RepairEventKind.verification_failed error) s v)
  after_verification-Keeps baseline (ok after) s v =
      settle-Keeps baseline (compare h symptom baseline.value after.value) _
        (push-Keeps (RepairEventKind.verified _ baseline after) s v)

  after_apply-Keeps :
      (baseline : Measurement h) (a : Result Done RepairTransportError)
      → Keeps (after_apply h (traced t) repair symptom entries baseline a)
  unfolding after_apply finish traced
  after_apply-Keeps baseline (err error) s v =
      roll_back-Keeps baseline _ (push-Keeps (RepairEventKind.apply_failed _) s v)
  after_apply-Keeps baseline (ok done) s v =
      after_verification-Keeps baseline _ _
        (more (Exchange.measure symptom.check) _ _ refl (push-Keeps RepairEventKind.applied s v))

  after_baseline-Keeps :
      (a : Result (Measurement h) String)
      → Keeps (after_baseline h (traced t) repair symptom entries a)
  unfolding after_baseline finish traced
  after_baseline-Keeps (err error) s v = v
  after_baseline-Keeps (ok baseline) s v = after_apply-Keeps baseline _ _ (
      more (Exchange.apply repair) _ _ refl
        (push-Keeps (RepairEventKind.snapshotted _ baseline) s v))

module _ (h : Host) {W : Type 0} (t : RepairTransport h W) (repair : ExecutableRepair)
    (symptom : Symptom h) where
  after_snapshot-IsTrace :
      (a : Result (List StateEntry) RepairTransportError) (s : Journal h (Traced W))
      → s.world.log ≡ Exchange.snapshot (state_keys repair) a ∷ []
      → IsTrace repair symptom (after_snapshot h (traced t) repair symptom a s).1.world.log
  unfolding after_snapshot finish traced
  after_snapshot-IsTrace (err error) s e = rw e (refl, refl)
  after_snapshot-IsTrace (ok entries) s e = Behind-IsTrace h t repair symptom entries _ (
      after_baseline-Keeps h t repair symptom entries _ _ (
        more h t repair symptom entries (Exchange.measure symptom.check) s _ refl
          (record { rest = []; same = e; fits = tt })))

  -- An execution takes one snapshot, of the repair's own keys, and makes no other call unless it is
  -- taken. It applies the very repair, restores the very entries that the snapshot returned, and
  -- measures the check of the symptom only.
  pub execute-IsTrace :
      (w : W)
      → IsTrace repair symptom
          (execute h (traced t) repair symptom (record { world = w; log = [] })).1.log
  unfolding execute traced push
  execute-IsTrace w = after_snapshot-IsTrace _ _ refl
