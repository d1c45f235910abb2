-- ===== src/Policy/Tests.antt =====
-- Runs of the policy engine, and its theorems at concrete devices. The sample calendar counts
-- seconds.
use neon_hearth.Prelude.{
  ◌+◌, ◌*◌, ◌≡◌, ◌≤◌, ◌<◌, refl, ap, ◌↔◌, true, [], ◌∷◌, none, some, arith, false,
}
use neon_hearth.External.Sample.{sample_crates}
use neon_hearth.Policy.Types.{
  EvidenceFamily, Identification, OwnerDecision, RiskSignal, Protection, RequestedAction,
  DevicePolicy, PolicyReason, Deadline, DeadlineKind, DeadlineWarning, Evaluation, quarantine_for,
}
use neon_hearth.Policy.{
  PolicyEngine, evaluate, extended, is_dangerous, is_protected, automatically_identified, schedule,
  warning_for, evaluate_deadline, evaluate_pending, evaluate_undecided, is_baseline_member,
}
use neon_hearth.Policy.Safety.{evaluate-verdict}
use neon_hearth.Policy.Deadlines.{
  restriction_stays, deadline_announced, extension_relaxes, baseline_window, Announces,
}
use neon_hearth.Policy.Families.{identified_iff, HasTwo}

abbrev engine : PolicyEngine sample_crates
engine = record { baseline_started_at = 100 }

-- An unknown phone, first seen at second 1000.
abbrev phone : DevicePolicy sample_crates
phone = record {
  device_id = record { uuid = 7 };
  first_seen_at = 1000;
  baseline_exempt = false;
  identification = Identification.unknown;
  owner_decision = OwnerDecision.pending;
  risk = RiskSignal.no_risk;
  protection = Protection.unprotected;
  extension_until = none;
}

abbrev waiting_phone : Deadline sample_crates
waiting_phone = record { kind = DeadlineKind.unknown_48_hours; due_at = 173800 }

phone_waits : evaluate sample_crates engine phone 170000 ≡ record {
  policy_version = 1;
  reason = PolicyReason.pending_confirmation;
  requested_action = RequestedAction.no_action;
  deadline = some waiting_phone;
  warning = some DeadlineWarning.hours_6;
}
unfolding evaluate evaluate_pending evaluate_undecided evaluate_deadline is_dangerous
    automatically_identified schedule extended warning_for
phone_waits = refl

phone_overdue :
    evaluate sample_crates engine phone 173800
    ≡ quarantine_for PolicyReason.unknown_deadline_expired
unfolding evaluate evaluate_pending evaluate_undecided evaluate_deadline is_dangerous
    automatically_identified schedule extended warning_for is_protected
phone_overdue = refl

evaluate-verdict_example :
    (evaluate sample_crates engine phone 173800).requested_action ≡ RequestedAction.quarantine
unfolding is_dangerous is_protected automatically_identified schedule extended
evaluate-verdict_example = evaluate-verdict sample_crates phone engine 173800

restriction_stays_example :
    (evaluate sample_crates engine phone 900000).requested_action
    ≡ (evaluate sample_crates engine phone 173800).requested_action
restriction_stays_example =
    restriction_stays sample_crates engine phone 173800 900000 (omega arith)
      (λ e. cc (e, evaluate-verdict_example))

deadline_announced_example :
    Announces sample_crates phone 170000 (evaluate sample_crates engine phone 170000) waiting_phone
deadline_announced_example =
    deadline_announced sample_crates engine phone 170000 waiting_phone
      (ap (λ (e : Evaluation sample_crates). e.deadline) phone_waits)

abbrev extended_phone : DevicePolicy sample_crates
extended_phone = record phone { extension_until = some 200000 }

extended_phone_overdue :
    (evaluate sample_crates engine extended_phone 300000).requested_action
    ≡ RequestedAction.quarantine
unfolding is_dangerous is_protected automatically_identified schedule extended
extended_phone_overdue = evaluate-verdict sample_crates extended_phone engine 300000

extension_relaxes_example :
    (evaluate sample_crates engine phone 300000).requested_action
    ≡ (evaluate sample_crates engine extended_phone 300000).requested_action
extension_relaxes_example =
    extension_relaxes sample_crates engine phone 300000 200000 refl
      (λ e. cc (e, extended_phone_overdue))

baseline_window_example :
    (is_baseline_member sample_crates engine 500 ≡ true)
    ↔ ((100 ≤ 500) × (500 < 100 + 48 * 3600 * 1))
baseline_window_example = baseline_window sample_crates engine 500 172900 refl

identified_iff_example :
    (automatically_identified
        (Identification.automatic 9000 (EvidenceFamily.naming ∷ EvidenceFamily.naming ∷ []))
      ≡ true)
    ↔ ((8500 ≤ 9000) × HasTwo (EvidenceFamily.naming ∷ EvidenceFamily.naming ∷ []))
identified_iff_example = identified_iff 9000 (EvidenceFamily.naming ∷ EvidenceFamily.naming ∷ [])
