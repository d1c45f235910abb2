-- ===== src/Policy.antt =====
-- crates/lattice-policy/src/lib.rs: `PolicyEngine`, over the data of `Policy/Types`.
pub mod Types
pub mod Safety
pub mod Deadlines
pub mod Families
mod Tests
use neon_hearth.Prelude.{
  ℕ, ◌+◌, ◌*◌, Bool, true, false, ◌&&◌, ◌||◌, not, List, [], ◌∷◌, length, Option, none, some, leb,
  ltb, ◌==◌, if◌then◌else◌, any, is_empty, is_some_and,
}
use neon_hearth.Prelude.Int.{ℤ, leb_ℤ}
use neon_hearth.Text.{codes, trim}
use neon_hearth.External.{Crates, hours}
use Types.{
  EvidenceFamily, Identification, OwnerDecision, RiskSignal, Protection, DeadlineKind,
  DeadlineWarning, RequestedAction, PolicyReason, Deadline, DevicePolicy, Evaluation, visible,
  quarantine_for, ban, owner_attention_needed,
}

abbrev pub policy_version : ℕ
policy_version = 1

abbrev pub danger_threshold_bps : ℕ
danger_threshold_bps = 9000

abbrev pub automatic_identity_threshold_bps : ℕ
automatic_identity_threshold_bps = 8500

abbrev pub unknown_policy_deadline_hours : ℕ
unknown_policy_deadline_hours = 48

abbrev pub automatic_policy_deadline_hours : ℕ
automatic_policy_deadline_hours = 7 * 24

-- The derived `Ord` of `EvidenceFamily`: the place of a family in its declaration.
pub rank : EvidenceFamily → ℕ
rank EvidenceFamily.link_layer = 0
rank EvidenceFamily.addressing = 1
rank EvidenceFamily.naming = 2
rank EvidenceFamily.service = 3
rank EvidenceFamily.cryptographic = 4
rank EvidenceFamily.router_hint = 5
rank EvidenceFamily.owner = 6

-- `collect::<BTreeSet<_>>()`: each family once.
pub collect_families : List EvidenceFamily → List EvidenceFamily
collect_families [] = []
collect_families (f ∷ fs) =
    let rest = collect_families fs in if any (λ g. rank g == rank f) rest then rest else f ∷ rest

pub automatically_identified : Identification → Bool
unfolding collect_families
automatically_identified Identification.unknown = false
automatically_identified (Identification.automatic confidence families) =
    leb automatic_identity_threshold_bps confidence && leb 2 (length (collect_families families))

pub is_dangerous : RiskSignal → Bool
is_dangerous RiskSignal.no_risk = false
is_dangerous (RiskSignal.high_confidence_danger confidence evidence) =
    leb danger_threshold_bps confidence && not (is_empty (trim (codes evidence)))

pub is_protected : Protection → Bool
is_protected Protection.unprotected = false
is_protected _ = true

module _ (c : Crates) where
  open c use {DateTime, ticks, checked_add_signed, signed_duration_since}

  pub record PolicyEngine : Type 0 where
    pub baseline_started_at : DateTime

  pub is_baseline_member : PolicyEngine → DateTime → Bool
  is_baseline_member engine first_seen_at =
      is_some_and (checked_add_signed engine.baseline_started_at (hours c 48)) λ window_end.
        leb (ticks engine.baseline_started_at) (ticks first_seen_at)
        && ltb (ticks first_seen_at) (ticks window_end)

  -- The kind of the deadline, the hours that it leaves and the reason once it has passed.
  pub schedule : Bool → DeadlineKind × ℕ × PolicyReason
  schedule true = (
    DeadlineKind.automatic_7_days, automatic_policy_deadline_hours,
    PolicyReason.automatic_deadline_expired,
  )
  schedule false = (
    DeadlineKind.unknown_48_hours, unknown_policy_deadline_hours,
    PolicyReason.unknown_deadline_expired,
  )

  -- `extension_until.filter(|e| *e > original_due).unwrap_or(original_due)`.
  pub extended : Option DateTime → DateTime → DateTime
  extended none original_due = original_due
  extended (some extension) original_due =
      if ltb (ticks original_due) (ticks extension) then extension else original_due

  pub warning_for : ℤ → Option DeadlineWarning
  warning_for remaining =
      if leb_ℤ remaining (hours c 1)
      then some DeadlineWarning.hour_1
      else if leb_ℤ remaining (hours c 6)
      then some DeadlineWarning.hours_6
      else if leb_ℤ remaining (hours c 24)
      then some DeadlineWarning.hours_24
      else none

  -- Attention of the owner for a protected device, quarantine for any other.
  pub restrict : Protection → PolicyReason → Evaluation c
  unfolding owner_attention_needed quarantine_for
  restrict protection reason =
      if is_protected protection then owner_attention_needed else quarantine_for reason

  -- The end of `evaluate`, once the original deadline is known.
  pub evaluate_deadline :
      DevicePolicy c → DateTime → DeadlineKind → PolicyReason → DateTime → Evaluation c
  unfolding restrict
  evaluate_deadline device now kind expired_reason original_due =
      let due_at = extended device.extension_until original_due in
      if leb (ticks due_at) (ticks now) then restrict device.protection expired_reason else record {
        policy_version = policy_version;
        reason =
            if ltb (ticks original_due) (ticks due_at)
            then PolicyReason.owner_extension
            else PolicyReason.pending_confirmation;
        requested_action = RequestedAction.no_action;
        deadline = some (record { kind = kind; due_at = due_at });
        warning = warning_for (signed_duration_since due_at now);
      }

  -- The part of `evaluate` for a device that the owner has not judged and that is no danger.
  pub evaluate_pending : DevicePolicy c → DateTime → Evaluation c
  unfolding owner_attention_needed
  evaluate_pending device now =
      let (kind, allowance, expired_reason) =
        schedule (automatically_identified device.identification) in
      elim (checked_add_signed device.first_seen_at (hours c allowance)) [
        | none ↦ owner_attention_needed
        | some original_due ↦ evaluate_deadline device now kind expired_reason original_due
      ]

  -- What follows the owner's refusals.
  pub evaluate_undecided : DevicePolicy c → DateTime → OwnerDecision → Evaluation c
  unfolding restrict visible
  evaluate_undecided device now decision =
      if is_dangerous device.risk
      then restrict device.protection PolicyReason.high_confidence_danger
      else elim decision [
        | OwnerDecision.approved ↦ visible PolicyReason.owner_approved
        | _ ↦
            if device.baseline_exempt
            then visible PolicyReason.baseline_exempt
            else evaluate_pending device now
      ]

  pub dispatch : OwnerDecision → DevicePolicy c → DateTime → Evaluation c
  unfolding ban quarantine_for
  dispatch OwnerDecision.rejected device now = ban PolicyReason.owner_rejected
  dispatch OwnerDecision.quarantined device now = quarantine_for PolicyReason.owner_quarantined
  dispatch decision device now = evaluate_undecided device now decision

  -- `PolicyEngine::evaluate`, which reads nothing of the engine.
  pub evaluate : PolicyEngine → DevicePolicy c → DateTime → Evaluation c
  unfolding dispatch
  evaluate engine device now = dispatch device.owner_decision device now
