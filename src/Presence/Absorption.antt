-- ===== src/Presence/Absorption.antt =====
-- crates/lattice-intelligence/src/presence.rs: what one piece of evidence does to its device.
use neon_hearth.Prelude.{
  ℕ, Bool, true, false, ◌&&◌, ◌||◌, not, List, [], ◌∷◌, ◌++◌, length, any, retain, Option, none,
  some, Result, ok, err, leb, if◌then◌else◌, is_some, is_some_and,
}
use neon_hearth.Prelude.Int.{leb_ℤ}
use neon_hearth.External.{Crates, before, not_after}
use neon_hearth.Presence.Types.{
  PresenceState, PresenceConfig, PresenceEvidence, PresenceTransition, DevicePresence,
  PresenceError, same_state,
}
use neon_hearth.Presence.Evidence.{
  same_evidence, is_real_positive, is_positive, semantically_retained, stale_control, apply_flags,
  sort_evidence, prune_control_evidence, support_at, age_at,
}

-- The last element that passes a test: `iter().rev().find`.
abbrev pub find_last {ℓ} : {A : Type ℓ} → (A → Bool) → List A → Option A
find_last p [] = none
find_last p (x ∷ xs) = elim (find_last p xs) [
  | some y ↦ some y
  | none ↦ if p x then some x else none
]

module _ (c : Crates) where
  open c use {DateTime, checked_add_signed}

  -- What one piece of evidence does to its device: the device, the departure that it corrects with
  -- the state that it proves, and whether it is late and no longer valid.
  pub record Absorbed : Type 0 where
    pub device : DevicePresence c
    pub correction : Option (ℕ × PresenceState)
    pub outdated : Bool

  abbrev pub is_departure : PresenceTransition c → Bool
  is_departure t = same_state t.to PresenceState.offline

  unfoldable pub correction_for :
      PresenceConfig → PresenceEvidence c → DateTime → DevicePresence c → Option (ℕ × PresenceState)
  correction_for cfg e arrival d =
      elim (find_last
        (λ t. is_departure t && leb_ℤ (age_at c arrival t.occurred_at) cfg.correction_window)
        d.history) [
          | none ↦ none
          | some dep ↦ elim (support_at c e dep.occurred_at d.ever_supported cfg.online_window) [
            | none ↦ none
            | some target ↦ some (dep.transition_id, target)
          ]
        ]

  abbrev pub is_late : PresenceEvidence c → DevicePresence c → Bool
  is_late e d =
      is_some_and (find_last is_departure d.history)
        (λ dep. is_positive e.kind && not_after c e.observed_at dep.occurred_at)

  abbrev pub mark_supported : Bool → DevicePresence c → DevicePresence c
  mark_supported yields d = if yields then record d { ever_supported = true } else d

  abbrev pub keep_evidence : Bool → PresenceEvidence c → DevicePresence c → DevicePresence c
  keep_evidence keeps e d =
      if keeps
      then record d { evidence = prune_control_evidence c (sort_evidence c (d.evidence ++ e ∷ [])) }
      else d

  unfoldable pub absorb :
      PresenceConfig → PresenceEvidence c → DateTime → Bool → DevicePresence c → Absorbed
  absorb cfg e arrival retain_input d =
      let late = is_late e d in
      let current_valid = is_some (support_at c e arrival d.ever_supported cfg.online_window) in
      let aged : DevicePresence c = record d {
        evidence = retain (λ x. semantically_retained c x arrival cfg) d.evidence;
        last_evaluation = arrival;
      } in
      record {
        device =
            keep_evidence (retain_input && (not late || current_valid || not (is_positive e.kind)))
              e
              (mark_supported (is_real_positive e.kind && (not late || current_valid))
                (apply_flags c aged e));
        correction = correction_for cfg e arrival d;
        outdated = late && not current_valid;
      }

  -- What the device that is there says to a piece of evidence: an answer without any change, or none.
  unfoldable pub prior_answer :
      PresenceConfig
      → PresenceEvidence c
      → DateTime
      → Bool
      → Option (DevicePresence c)
      → Option (Result (List (PresenceTransition c)) PresenceError)
  prior_answer cfg e arrival retain_input none = none
  prior_answer cfg e arrival retain_input (some d) =
      if before c arrival d.last_evaluation
      then some (err PresenceError.clock_rollback)
      else if any (λ x. same_evidence c x e) d.evidence || stale_control c d e
      then some (ok [])
      else if retain_input
          && leb cfg.max_evidence_per_device
              (length (retain (λ x. semantically_retained c x arrival cfg) d.evidence))
      then some (err (PresenceError.capacity "evidence"))
      else none

  abbrev pub fresh_device : DateTime → DevicePresence c
  fresh_device arrival = record {
    state = PresenceState.unknown;
    evidence = [];
    history = [];
    last_evaluation = arrival;
    ever_supported = false;
    blocked = false;
    impaired = false;
    contradictory = false;
    enforcement_clock = none;
    impairment_clock = none;
    contradiction_clock = none;
    evicted_through = none;
  }

  abbrev pub or_fresh : DateTime → Option (DevicePresence c) → DevicePresence c
  or_fresh arrival none = fresh_device arrival
  or_fresh arrival (some d) = d
