-- ===== src/Doctor/Executor/Types.antt =====
-- crates/lattice-doctor/src/executor.rs: the transport of repairs and the records of their runs.
use neon_hearth.Prelude.{ℕ, String, List, Option, Result}
use neon_hearth.Text.{concat}
use neon_hearth.External.{Host}
use neon_hearth.Doctor.Check.{CheckKind, Measurement}
use neon_hearth.Doctor.Repair.{StateKey, RepairClass, ExecutableRepair}

pub data RepairTransportError : Type 0 where
  snapshot apply restore measure : String → RepairTransportError

-- The `Display` of `RepairTransportError`.
pub transport_error_text : RepairTransportError → String
transport_error_text (RepairTransportError.snapshot detail) = concat "snapshot failed: " detail
transport_error_text (RepairTransportError.apply detail) = concat "apply failed: " detail
transport_error_text (RepairTransportError.restore detail) = concat "restore failed: " detail
transport_error_text (RepairTransportError.measure detail) = concat "measurement failed: " detail

pub record StateEntry : Type 0 where
  pub key : StateKey
  pub value : String

-- The `()` of a call that returns nothing.
abbrev pub Done : Type 0
Done = Unit

-- `RepairTransport`, over the state `W` of what lies behind it, with the executor's clock.
pub record RepairTransport (h : Host) (W : Type 0) : Type 0 where
  pub snapshot : List StateKey → W → Result (List StateEntry) RepairTransportError × W
  pub apply : ExecutableRepair → W → Result Done RepairTransportError × W
  pub restore : List StateEntry → W → Result Done RepairTransportError × W
  pub measure : CheckKind → W → Result (List (Measurement h)) RepairTransportError × W
  pub now : W → h.DateTime × W

pub data Verdict : Type 0 where
  improved unchanged regressed : Verdict

pub record Verification (h : Host) : Type 0 where
  pub verdict : Verdict
  pub before : Measurement h
  pub after : Measurement h

pub data RollbackSkipReason : Type 0 where
  not_needed not_reversible : RollbackSkipReason

pub data RollbackOutcome : Type 0 where
  not_attempted : (reason : RollbackSkipReason) → RollbackOutcome
  succeeded : RollbackOutcome
  failed : (error : String) → RollbackOutcome

pub data RepairEventKind (h : Host) : Type 0 where
  started : (repair_class : RepairClass) (description : String) → RepairEventKind h
  snapshotted : (keys : List StateKey) (baseline : Measurement h) → RepairEventKind h
  applied : RepairEventKind h
  apply_failed : (error : String) → RepairEventKind h
  verified : (verdict : Verdict) (before after : Measurement h) → RepairEventKind h
  verification_failed : (error : String) → RepairEventKind h
  rolled_back : (outcome : RollbackOutcome) → RepairEventKind h

pub record RepairEvent (h : Host) : Type 0 where
  pub sequence : ℕ
  pub at : h.DateTime
  pub kind : RepairEventKind h

pub data RepairOutcome : Type 0 where
  completed : (verdict : Verdict) → RepairOutcome
  snapshot_failed baseline_failed apply_failed verification_failed :
      (error : String) → RepairOutcome

pub record RepairReport (h : Host) : Type 0 where
  pub repair_class : RepairClass
  pub description : String
  pub outcome : RepairOutcome
  pub verification : Option (Verification h)
  pub rollback : RollbackOutcome
  pub events : List (RepairEvent h)
