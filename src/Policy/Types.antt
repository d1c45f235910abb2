-- ===== src/Policy/Types.antt =====
-- crates/lattice-domain/src/policy.rs and evidence.rs: the data of the approval policy.
use neon_hearth.Prelude.{ℕ, Bool, String, List, Option, none}
use neon_hearth.External.{Crates, DeviceId}

-- `EvidenceFamily`, in the order of its derived `Ord`.
pub data EvidenceFamily : Type 0 where
  link_layer addressing naming service cryptographic router_hint owner : EvidenceFamily

pub data Identification : Type 0 where
  unknown : Identification
  automatic :
      (confidence_basis_points : ℕ) (evidence_families : List EvidenceFamily) → Identification

pub data OwnerDecision : Type 0 where
  pending approved rejected quarantined : OwnerDecision

pub data RiskSignal : Type 0 where
  no_risk : RiskSignal
  high_confidence_danger : (confidence_basis_points : ℕ) (evidence : String) → RiskSignal

pub data Protection : Type 0 where
  unprotected router collector administrator_phone safety_device : Protection

pub data DeadlineKind : Type 0 where
  unknown_48_hours automatic_7_days : DeadlineKind

pub data DeadlineWarning : Type 0 where
  hours_24 hours_6 hour_1 : DeadlineWarning

pub data RequestedAction : Type 0 where
  no_action quarantine permanent_ban owner_attention : RequestedAction

pub data PolicyReason : Type 0 where
  pending_confirmation baseline_exempt high_confidence_danger unknown_deadline_expired
        automatic_deadline_expired owner_extension owner_approved owner_rejected owner_quarantined
        protected_device :
      PolicyReason

pub record Deadline (c : Crates) : Type 0 where
  pub kind : DeadlineKind
  pub due_at : c.DateTime

pub record DevicePolicy (c : Crates) : Type 0 where
  pub device_id : DeviceId c
  pub first_seen_at : c.DateTime
  pub baseline_exempt : Bool
  pub identification : Identification
  pub owner_decision : OwnerDecision
  pub risk : RiskSignal
  pub protection : Protection
  pub extension_until : Option c.DateTime

pub record Evaluation (c : Crates) : Type 0 where
  pub policy_version : ℕ
  pub reason : PolicyReason
  pub requested_action : RequestedAction
  pub deadline : Option (Deadline c)
  pub warning : Option DeadlineWarning

module _ {c : Crates} where
  terminal : PolicyReason → RequestedAction → Evaluation c
  terminal reason action = record {
    policy_version = 1;
    reason = reason;
    requested_action = action;
    deadline = none;
    warning = none;
  }

  unfoldable pub visible : PolicyReason → Evaluation c
  unfolding terminal
  visible reason = terminal reason RequestedAction.no_action

  unfoldable pub quarantine_for : PolicyReason → Evaluation c
  unfolding terminal
  quarantine_for reason = terminal reason RequestedAction.quarantine

  unfoldable pub ban : PolicyReason → Evaluation c
  unfolding terminal
  ban reason = terminal reason RequestedAction.permanent_ban

  unfoldable pub owner_attention_needed : Evaluation c
  unfolding terminal
  owner_attention_needed = terminal PolicyReason.protected_device RequestedAction.owner_attention
