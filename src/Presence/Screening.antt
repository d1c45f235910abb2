-- ===== src/Presence/Screening.antt =====
-- crates/lattice-intelligence/src/presence.rs: what `from_checkpoint` refuses in a device.
use neon_hearth.Prelude.{
  ℕ, Bool, true, false, ◌&&◌, ◌||◌, not, List, [], ◌∷◌, any, find, head?, max, Option, none, some,
  Result, ok, err, ltb, leb, ◌==◌, if◌then◌else◌, is_some, is_some_and, unwrap_or,
}
use neon_hearth.Text.{same_text, is_blank, byte_len}
use neon_hearth.External.{Crates, same_device, same_time, same_time?, before, not_after}
use neon_hearth.Presence.Types.{
  PresenceState, PresenceConfig, PresenceEvidenceKind, PresenceEvidence, PresenceTrigger,
  PresenceTransition, PresenceError, PresenceCheckpointDevice, same_state, same_evidence_kind,
}
use neon_hearth.Presence.Evidence.{is_enforcement, control_state, conflicting_controls}

-- The first refusal of some checks.
abbrev pub first_refusal : List (Option PresenceError) → Option PresenceError
first_refusal [] = none
first_refusal (none ∷ checks) = first_refusal checks
first_refusal (some x ∷ checks) = some x

abbrev pub refuse_if : Bool → PresenceError → Option PresenceError
refuse_if t x = if t then some x else none

-- The first refusal of some elements.
abbrev pub refuse_any {ℓ} :
    {A : Type ℓ} → (A → Option PresenceError) → List A → Option PresenceError
refuse_any f [] = none
refuse_any f (x ∷ xs) = elim (f x) [ none ↦ refuse_any f xs | some e ↦ some e ]

-- The numbers of all transitions so far, with the greatest.
pub record Seen : Type 0 where
  pub ids : List ℕ
  pub max_id : ℕ

module _ (c : Crates) where
  open c use {DateTime, checked_add_signed}

  unfoldable pub trigger_refusal : PresenceConfig → PresenceTrigger c → Option PresenceError
  trigger_refusal cfg t =
      if is_blank t.source
        || ltb cfg.max_source_len (byte_len t.source)
        || not (any (λ s. same_text s t.source) cfg.trusted_sources)
        || same_evidence_kind t.kind PresenceEvidenceKind.evaluation
        || (same_evidence_kind t.kind PresenceEvidenceKind.neighbor_cache
            && not (is_some t.valid_until))
        || before c t.arrival_at t.observed_at
        || is_some_and t.valid_until (λ v. before c v t.observed_at)
      then some (PresenceError.invalid_checkpoint "trigger")
      else elim (checked_add_signed t.arrival_at cfg.future_skew) [
        | none ↦ some (PresenceError.invalid_checkpoint "time")
        | some limit ↦
            refuse_if (before c limit t.observed_at) (PresenceError.invalid_checkpoint "trigger")
      ]

  -- The checks of one transition that look at the numbers, the device, the states and the time.
  unfoldable pub transition_refusal :
      PresenceConfig
      → PresenceCheckpointDevice c
      → ℕ
      → Option PresenceState
      → Seen
      → PresenceTransition c
      → Option PresenceError
  transition_refusal cfg x last previous seen t =
      if t.transition_id == 0
        || any (λ id. id == t.transition_id) seen.ids
        || leb t.transition_id last
        || not (same_device t.device_id x.device_id)
        || is_some_and previous (λ state. not (same_state t.from state))
      then some (PresenceError.invalid_checkpoint "history")
      else elim (checked_add_signed x.last_evaluation cfg.future_skew) [
        | none ↦ some (PresenceError.invalid_checkpoint "time")
        | some limit ↦
            refuse_if (before c limit t.occurred_at) (PresenceError.invalid_checkpoint "history")
      ]

  unfoldable pub history_walk :
      PresenceConfig
      → PresenceCheckpointDevice c
      → List (PresenceTransition c)
      → ℕ
      → Option PresenceState
      → Seen
      → Result Seen PresenceError
  history_walk cfg x [] last previous seen = ok seen
  history_walk cfg x (t ∷ ts) last previous seen =
      let rest =
        history_walk cfg x ts t.transition_id (some t.to)
          (record { ids = t.transition_id ∷ seen.ids; max_id = max seen.max_id t.transition_id }) in
      elim (first_refusal
        (transition_refusal cfg x last previous seen t ∷ trigger_refusal cfg t.trigger ∷ [])) [
          | some e ↦ err e
          | none ↦ rest
        ]

  -- The target of a correction is an earlier departure that the history has.
  unfoldable pub correction_refusal :
      List (PresenceTransition c) → PresenceTransition c → Option PresenceError
  correction_refusal history t = elim t.correction_of [
    | none ↦ none
    | some id ↦ elim (find (λ x. x.transition_id == id) history) [
      | none ↦ some (PresenceError.invalid_checkpoint "correction target")
      | some target ↦
          refuse_if
            (leb t.transition_id target.transition_id
              || not (same_state target.to PresenceState.offline))
            (PresenceError.invalid_checkpoint "correction target")
    ]
  ]

  unfoldable pub evidence_refusal :
      PresenceConfig → PresenceCheckpointDevice c → PresenceEvidence c → Option PresenceError
  evidence_refusal cfg x e =
      if not (same_device e.device_id x.device_id)
        || is_blank e.source
        || ltb cfg.max_source_len (byte_len e.source)
        || same_evidence_kind e.kind PresenceEvidenceKind.evaluation
        || (same_evidence_kind e.kind PresenceEvidenceKind.neighbor_cache
            && not (is_some e.valid_until))
        || is_some_and e.valid_until (λ v. before c v e.observed_at)
      then some (PresenceError.invalid_checkpoint "evidence")
      else if not (any (λ s. same_text s e.source) cfg.trusted_sources)
      then some (PresenceError.invalid_checkpoint "source")
      else refuse_if
          (before c x.last_evaluation e.observed_at
            || is_some_and e.valid_until (λ v. before c v e.observed_at))
          (PresenceError.invalid_checkpoint "evidence time")

  abbrev same_bool : Bool → Bool → Bool
  same_bool true b = b
  same_bool false b = not b

  abbrev same_control : Bool × Option DateTime → Bool × Option DateTime → Bool
  same_control a b = same_bool a.0 b.0 && same_time? c a.1 b.1

  -- Whether a transition was triggered by a piece of evidence.
  abbrev triggered_by : PresenceTransition c → PresenceEvidence c → Bool
  triggered_by t e =
      same_text e.source t.trigger.source
      && same_evidence_kind e.kind t.trigger.kind
      && same_time c e.observed_at t.trigger.observed_at
      && same_time? c e.valid_until t.trigger.valid_until

  -- The checks of what a device's control evidence says.
  unfoldable pub control_refusal : PresenceCheckpointDevice c → ℕ → Option PresenceError
  control_refusal d next_transition =
      let enforcement =
        control_state c d.evidence PresenceEvidenceKind.enforcement_blocked
          PresenceEvidenceKind.enforcement_unblocked in
      let impairment =
        control_state c d.evidence PresenceEvidenceKind.sensor_impaired
          PresenceEvidenceKind.sensor_recovered in
      let contradiction =
        control_state c d.evidence PresenceEvidenceKind.contradiction
          PresenceEvidenceKind.contradiction_cleared in
      first_refusal (
        refuse_if
          (conflicting_controls c d.evidence PresenceEvidenceKind.enforcement_blocked
              PresenceEvidenceKind.enforcement_unblocked
            || conflicting_controls c d.evidence PresenceEvidenceKind.sensor_impaired
                PresenceEvidenceKind.sensor_recovered
            || conflicting_controls c d.evidence PresenceEvidenceKind.contradiction
                PresenceEvidenceKind.contradiction_cleared)
          (PresenceError.invalid_checkpoint "conflicting controls")
        ∷ refuse_if
            (is_some_and d.evicted_through (λ v. leb next_transition v)
              || is_some_and d.evicted_through
                  (λ evicted. is_some_and (head? d.history) (λ t. leb t.transition_id evicted)))
            (PresenceError.invalid_checkpoint "cursor")
        ∷ refuse_if
            (not (same_control (d.blocked, d.enforcement_clock) enforcement)
              || not (same_control (d.impaired, d.impairment_clock) impairment)
              || not (same_control (d.contradictory, d.contradiction_clock) contradiction))
            (PresenceError.invalid_checkpoint "control state")
        ∷ refuse_if
            (any
              (λ t.
                is_enforcement t.trigger.kind
                && not (
                    any
                      (λ e.
                        triggered_by t e
                        && not_after c e.observed_at (unwrap_or enforcement.1 e.observed_at))
                      d.evidence))
              d.history)
            (PresenceError.invalid_checkpoint "enforcement trigger")
        ∷ refuse_if
            (any
              (λ e.
                is_enforcement e.kind
                && not (any (λ t. triggered_by t e) d.history)
                && not (
                    is_some d.evicted_through
                    && same_time? c d.enforcement_clock (some e.observed_at)
                    && not (is_some e.valid_until)))
              d.evidence)
            (PresenceError.invalid_checkpoint "enforcement evidence")
        ∷ [])
