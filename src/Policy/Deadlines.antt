-- ===== src/Policy/Deadlines.antt =====
-- crates/lattice-policy/src/lib.rs: how an evaluation changes with time, with the owner's
-- extension and with the baseline window.
use mathlib.Core.Option
use neon_hearth.Prelude.{
  ℕ, ◌+◌, ◌*◌, ◌≤◌, ◌<◌, ◌≡◌, refl, ◌≢◌, ◌↔◌, Bool, true, Option, none, some, arith, leb,
  Option-cases, Bool-cases, inl, inr, ap, sym,
}
use neon_hearth.Prelude.Int.{pos_part, neg_part, ℤ}
use neon_hearth.External.{Crates, hours}
use neon_hearth.Policy.Types.{
  OwnerDecision, RequestedAction, DevicePolicy, Deadline, DeadlineWarning, DeadlineKind,
  PolicyReason, Evaluation,
}
use neon_hearth.Policy.{
  PolicyEngine, is_dangerous, extended, evaluate, is_baseline_member, warning_for,
  evaluate_deadline, evaluate_pending, evaluate_undecided, dispatch, schedule,
  automatically_identified,
}
use neon_hearth.Policy.Safety.{verdict, due, original_due, evaluate-verdict}

verdict_grows :
    (decision : OwnerDecision) (danger protected exempt : Bool) (due : Option ℕ) (now later : ℕ)
    → now ≤ later
    → verdict decision danger protected exempt due now ≢ RequestedAction.no_action
    → verdict decision danger protected exempt due later
      ≡ verdict decision danger protected exempt due now
verdict_grows decision danger protected exempt due now later h r = ground arith

-- How a time limit of `overdue_action` that moves later changes the action.
verdict_relaxes :
    (decision : OwnerDecision) (danger protected exempt : Bool) (due due' : ℕ) (now : ℕ)
    → due ≤ due'
    → verdict decision danger protected exempt (some due') now ≢ RequestedAction.no_action
    → verdict decision danger protected exempt (some due) now
      ≡ verdict decision danger protected exempt (some due') now
verdict_relaxes decision danger protected exempt due due' now h r = ground arith

module _ (c : Crates) where
  open c use {DateTime, ticks, ticks_per_second, checked_add_signed}

  pub extended-ge :
      (extension : Option DateTime) (original : DateTime)
      → ticks original ≤ ticks (extended c extension original)
  unfolding extended
  extended-ge none original = omega arith
  extended-ge (some e) original = ground arith

  -- What a warning says of the time left: the hours that it names, and no fewer.
  abbrev pub Warns : Option DeadlineWarning → ℕ → ℕ → Type 0
  Warns (some DeadlineWarning.hour_1) now due = due ≤ now + 3600 * ticks_per_second
  Warns (some DeadlineWarning.hours_6) now due =
      (now + 3600 * ticks_per_second < due) × (due ≤ now + 6 * 3600 * ticks_per_second)
  Warns (some DeadlineWarning.hours_24) now due =
      (now + 6 * 3600 * ticks_per_second < due) × (due ≤ now + 24 * 3600 * ticks_per_second)
  Warns none now due = now + 24 * 3600 * ticks_per_second < due

  warning_for-Warns :
      (remaining : ℤ) (now due : ℕ)
      → due + neg_part remaining ≡ now + pos_part remaining
      → now < due
      → Warns (warning_for c remaining) now due
  unfolding warning_for
  warning_for-Warns remaining now due e h = ground arith

  due_relaxes :
      (decision : OwnerDecision) (danger protected exempt : Bool) (original u : Option DateTime)
      (extension now : DateTime)
      → u ≡ none
      → verdict decision danger protected exempt
          (Option.map ticks (Option.map (extended c (some extension)) original))
          (ticks now)
        ≢ RequestedAction.no_action
      → verdict decision danger protected exempt
          (Option.map ticks (Option.map (extended c u) original))
          (ticks now)
        ≡ verdict decision danger protected exempt
            (Option.map ticks (Option.map (extended c (some extension)) original))
            (ticks now)
  due_relaxes decision danger protected exempt none u extension now e r = refl
  due_relaxes decision danger protected exempt (some t) (some u) extension now e r = absurd (cc e)
  due_relaxes decision danger protected exempt (some t) none extension now e r =
      unfold extended in
      verdict_relaxes decision danger protected exempt (ticks t) _ (ticks now)
        (extended-ge (some extension) t) r

module _ (c : Crates) (device : DevicePolicy c) where
  open c use {DateTime, ticks, signed_duration_since, since_ticks}

  -- What an evaluation that carries the deadline `d` tells: the due time and how near it is.
  abbrev pub Announces : DateTime → Evaluation c → Deadline c → Type 0
  Announces now e d =
      (due c device ≡ some d.due_at)
      × (ticks now < ticks d.due_at)
      × Warns c e.warning (ticks now) (ticks d.due_at)
      × (e.requested_action ≡ RequestedAction.no_action)

  deadline-Announces :
      (now original : DateTime) (kind : DeadlineKind) (reason : PolicyReason) (d : Deadline c)
      → original_due c device ≡ some original
      → (evaluate_deadline c device now kind reason original).deadline ≡ some d
      → Announces now (evaluate_deadline c device now kind reason original) d
  unfolding evaluate_deadline
  deadline-Announces now original kind reason d o h =
      let t = extended c device.extension_until original in
      let w = signed_duration_since t now in
      elim (Bool-cases (leb (ticks t) (ticks now))) [
        | inl late ↦ absurd (ground arith)
        | inr early ↦ rw early (
            let at : d.due_at ≡ t = ground arith in
            let soon : ticks now < ticks t = ground arith in
            (
              rw o (ap some (sym at)),
              rw at soon,
              rw at (warning_for-Warns c w (ticks now) (ticks t) (since_ticks t now) soon),
              refl,
            ))
      ]

  pending-deadline :
      (now t : DateTime)
      → original_due c device ≡ some t
      → evaluate_pending c device now ≡ (
          let (kind, _, reason) = schedule c (automatically_identified device.identification) in
          evaluate_deadline c device now kind reason t)
  unfolding evaluate_pending
  pending-deadline now t e = rw (e, evaluate_pending)

  pending-no_deadline :
      (now : DateTime)
      → original_due c device ≡ none
      → (evaluate_pending c device now).deadline ≡ none
  unfolding evaluate_pending
  pending-no_deadline now e = rw (e, evaluate_pending)

  pending-Announces :
      (now : DateTime) (d : Deadline c)
      → (evaluate_pending c device now).deadline ≡ some d
      → Announces now (evaluate_pending c device now) d
  pending-Announces now d h = elim (Option-cases (original_due c device)) [
    | inl e ↦ absurd (cc (h, pending-no_deadline now e))
    | inr (t, e) ↦
        rw (pending-deadline now t e)
          (deadline-Announces now t _ _ d e (rw (pending-deadline now t e) at h))
  ]

  undecided-Announces :
      (now : DateTime) (decision : OwnerDecision) (d : Deadline c)
      → decision ≢ OwnerDecision.rejected
      → decision ≢ OwnerDecision.quarantined
      → (evaluate_undecided c device now decision).deadline ≡ some d
      → Announces now (evaluate_undecided c device now decision) d
  unfolding evaluate_undecided
  undecided-Announces now OwnerDecision.pending d r q h =
      elim (Bool-cases (is_dangerous device.risk)) [
        | inl danger ↦ absurd (ground arith)
        | inr harmless ↦ elim (Bool-cases device.baseline_exempt) [
          | inl exempt ↦ absurd (ground arith)
          | inr counted ↦
              simp (harmless, counted) (pending-Announces now d (simp (harmless, counted) at h))
        ]
      ]
  undecided-Announces now OwnerDecision.approved d r q h = absurd (ground arith)
  undecided-Announces now OwnerDecision.rejected d r q h = absurd (r refl)
  undecided-Announces now OwnerDecision.quarantined d r q h = absurd (q refl)

  dispatch-Announces :
      (now : DateTime) (decision : OwnerDecision) (d : Deadline c)
      → (dispatch c decision device now).deadline ≡ some d
      → Announces now (dispatch c decision device now) d
  unfolding dispatch
  dispatch-Announces now OwnerDecision.pending d h =
      undecided-Announces now OwnerDecision.pending d (λ e. cc) (λ e. cc) h
  dispatch-Announces now OwnerDecision.approved d h =
      undecided-Announces now OwnerDecision.approved d (λ e. cc) (λ e. cc) h
  dispatch-Announces now OwnerDecision.rejected d h = absurd (cc h)
  dispatch-Announces now OwnerDecision.quarantined d h = absurd (cc h)

module _ (c : Crates) (engine : PolicyEngine c) (device : DevicePolicy c) where
  open c use {DateTime, ticks}

  -- Once an evaluation asks for a restriction, every later one of the same device asks for it too.
  pub restriction_stays :
      (now later : DateTime)
      → ticks now ≤ ticks later
      → (evaluate c engine device now).requested_action ≢ RequestedAction.no_action
      → (evaluate c engine device later).requested_action
        ≡ (evaluate c engine device now).requested_action
  restriction_stays now later h =
      rw (evaluate-verdict c device engine now, evaluate-verdict c device engine later)
        (verdict_grows _ _ _ _ _ _ _ h)

  -- A deadline that an evaluation carries is the device's due time and lies ahead, no action is
  -- asked for, and the warning names the hours that are left: the last, the last six, the last
  -- twenty-four, or none while there are more.
  pub deadline_announced :
      (now : DateTime) (d : Deadline c)
      → (evaluate c engine device now).deadline ≡ some d
      → Announces c device now (evaluate c engine device now) d
  unfolding evaluate
  deadline_announced now d h = dispatch-Announces c device now device.owner_decision d h

  -- An extension by the owner never brings a restriction: what is asked for with it is asked for
  -- without it too.
  pub extension_relaxes :
      (now : DateTime) (extension : DateTime)
      → device.extension_until ≡ none
      → (evaluate c engine
          (record device { extension_until = some extension })
          now).requested_action
        ≢ RequestedAction.no_action
      → (evaluate c engine device now).requested_action
        ≡ (evaluate c engine
            (record device { extension_until = some extension })
            now).requested_action
  extension_relaxes now extension e =
      rw
        (
          evaluate-verdict c device engine now,
          evaluate-verdict c (record device { extension_until = some extension }) engine now,
        )
        (due_relaxes c _ _ _ _ _ device.extension_until extension now e)

module _ (c : Crates) (engine : PolicyEngine c) where
  open c use {DateTime, ticks, ticks_per_second, checked_add_signed}

  -- A device belongs to the baseline exactly when it was first seen in the 48 hours from the
  -- start, the end left out, if those hours lie in the calendar.
  pub baseline_window :
      (first_seen_at window_end : DateTime)
      → checked_add_signed engine.baseline_started_at (hours c 48) ≡ some window_end
      → (is_baseline_member c engine first_seen_at ≡ true) ↔ (
          (ticks engine.baseline_started_at ≤ ticks first_seen_at)
          × (ticks first_seen_at < ticks engine.baseline_started_at + 48 * 3600 * ticks_per_second))
  unfolding is_baseline_member
  baseline_window first_seen_at window_end e =
      let end = c.add_ticks engine.baseline_started_at (hours c 48) window_end e in
      rw (e, is_baseline_member) (ground arith)
