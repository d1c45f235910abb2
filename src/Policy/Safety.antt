-- ===== src/Policy/Safety.antt =====
-- crates/lattice-policy/src/lib.rs: when `evaluate` asks for a restriction, and for which.
use mathlib.Core.Option
use neon_hearth.Prelude.{
  ℕ, ◌≡◌, refl, ◌≢◌, inl, inr, Bool, true, false, Option, none, some, arith, leb, if◌then◌else◌,
  Option-cases,
}
use neon_hearth.External.{Crates, hours}
use neon_hearth.Policy.Types.{
  OwnerDecision, RequestedAction, PolicyReason, DevicePolicy, DeadlineKind,
}
use neon_hearth.Policy.{
  PolicyEngine, is_dangerous, is_protected, automatically_identified, extended, schedule, evaluate,
  evaluate_pending, evaluate_deadline, evaluate_undecided, dispatch,
}

-- The restriction of a device that has to be restricted.
abbrev pub restricted : Bool → RequestedAction
restricted true = RequestedAction.owner_attention
restricted false = RequestedAction.quarantine

-- The action for a device that waits for its owner, by its deadline, none beyond the calendar.
abbrev pub overdue_action : Bool → Option ℕ → ℕ → RequestedAction
overdue_action protected none now = RequestedAction.owner_attention
overdue_action protected (some due) now =
    if leb due now then restricted protected else RequestedAction.no_action

-- The decision table: owner, danger, protection, baseline and deadline, in falling rank.
abbrev pub verdict : OwnerDecision → Bool → Bool → Bool → Option ℕ → ℕ → RequestedAction
verdict OwnerDecision.rejected danger protected exempt due now = RequestedAction.permanent_ban
verdict OwnerDecision.quarantined danger protected exempt due now = RequestedAction.quarantine
verdict OwnerDecision.approved danger protected exempt due now =
    if danger then restricted protected else RequestedAction.no_action
verdict OwnerDecision.pending danger protected exempt due now =
    if danger
    then restricted protected
    else if exempt
    then RequestedAction.no_action
    else overdue_action protected due now

module _ (c : Crates) where
  open c use {DateTime, ticks, checked_add_signed}

  evaluate_deadline_action :
      (device : DevicePolicy c) (now original : DateTime) (kind : DeadlineKind)
      (reason : PolicyReason)
      → (evaluate_deadline c device now kind reason original).requested_action
        ≡ overdue_action
            (is_protected device.protection)
            (some (ticks (extended c device.extension_until original)))
            (ticks now)
  unfolding evaluate_deadline
  evaluate_deadline_action device now original kind reason = ground arith

module _ (c : Crates) (device : DevicePolicy c) where
  open c use {DateTime, ticks, checked_add_signed}

  abbrev pub allowance : ℕ
  allowance = (schedule c (automatically_identified device.identification)).1

  abbrev pub original_due : Option DateTime
  original_due = checked_add_signed device.first_seen_at (hours c allowance)

  -- The deadline of a device that waits for its owner: what its identification allows from the
  -- first sighting, or the owner's extension where that is later.
  abbrev pub due : Option DateTime
  due = Option.map (extended c device.extension_until) original_due

  evaluate_pending_action :
      (now : DateTime)
      → (evaluate_pending c device now).requested_action
        ≡ overdue_action (is_protected device.protection) (Option.map ticks due) (ticks now)
  unfolding evaluate_pending
  evaluate_pending_action now = elim (Option-cases original_due) [
    | inl e ↦ rw (e, evaluate_pending) refl
    | inr (t, e) ↦ rw (e, evaluate_pending) (evaluate_deadline_action c device now t _ _)
  ]

  evaluate_undecided_action :
      (now : DateTime) (decision : OwnerDecision)
      → decision ≢ OwnerDecision.rejected
      → decision ≢ OwnerDecision.quarantined
      → (evaluate_undecided c device now decision).requested_action
        ≡ verdict decision
            (is_dangerous device.risk)
            (is_protected device.protection)
            device.baseline_exempt
            (Option.map ticks due)
            (ticks now)
  unfolding evaluate_undecided
  evaluate_undecided_action now OwnerDecision.pending r q =
      ground (arith, evaluate_pending_action now)
  evaluate_undecided_action now OwnerDecision.approved r q = ground arith
  evaluate_undecided_action now OwnerDecision.rejected r q = absurd (r refl)
  evaluate_undecided_action now OwnerDecision.quarantined r q = absurd (q refl)

  dispatch_action :
      (now : DateTime) (decision : OwnerDecision)
      → (dispatch c decision device now).requested_action
        ≡ verdict decision
            (is_dangerous device.risk)
            (is_protected device.protection)
            device.baseline_exempt
            (Option.map ticks due)
            (ticks now)
  unfolding dispatch
  dispatch_action now OwnerDecision.pending =
      evaluate_undecided_action now OwnerDecision.pending (λ e. cc) (λ e. cc)
  dispatch_action now OwnerDecision.approved =
      evaluate_undecided_action now OwnerDecision.approved (λ e. cc) (λ e. cc)
  dispatch_action now OwnerDecision.rejected = refl
  dispatch_action now OwnerDecision.quarantined = refl

  -- `evaluate` asks for what the decision table says, whatever the device and the time.
  pub evaluate-verdict :
      (engine : PolicyEngine c) (now : DateTime)
      → (evaluate c engine device now).requested_action
        ≡ verdict device.owner_decision
            (is_dangerous device.risk)
            (is_protected device.protection)
            device.baseline_exempt
            (Option.map ticks due)
            (ticks now)
  unfolding evaluate
  evaluate-verdict engine now = dispatch_action now device.owner_decision
