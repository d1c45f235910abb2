-- ===== src/Presence/Engine.antt =====
-- crates/lattice-intelligence/src/presence.rs: `evaluate`, `recompute` and the ingestion of evidence.
use neon_hearth.Prelude.{
  Bool, true, false, ◌&&◌, not, String, List, [], ◌∷◌, ◌++◌, length, is_empty, Option, none, some,
  Result, ok, err, leb, ◌==◌, if◌then◌else◌, is_some, checked_add_u64, u64_max,
}
use neon_hearth.External.{Crates, DeviceId, before}
use neon_hearth.Presence.Types.{
  PresenceState, PresenceEvidenceKind, PresenceEvidence, PresenceTransition, PresenceEngine,
  PresenceError, same_state,
}
use neon_hearth.Presence.Evidence.{semantically_retained}
use neon_hearth.Presence.Candidates.{gated}
use neon_hearth.Presence.Config.{refusal}
use neon_hearth.Presence.Devices.{get, insert}
use neon_hearth.Presence.Histories.{take_transition}
use neon_hearth.Presence.Absorption.{Absorbed, find_last, absorb, prior_answer, or_fresh}

module _ (c : Crates) where
  open c use {DateTime, checked_add_signed}

  -- The evidence that stands for the timer.
  abbrev pub synthetic : DeviceId c → DateTime → PresenceEvidence c
  synthetic id at = record {
    device_id = id;
    source = "presence.timer";
    kind = PresenceEvidenceKind.evaluation;
    observed_at = at;
    valid_until = none;
  }

  unfoldable pub recompute :
      DeviceId c
      → DateTime
      → PresenceEvidence c
      → PresenceEngine c
      → Result (List (PresenceTransition c)) PresenceError × PresenceEngine c
  recompute id at source engine = elim (get c id engine.devices) [
    | none ↦ (err PresenceError.device_not_found, engine)
    | some d ↦
        let to = gated c d at engine.cfg in
        if same_state to d.state
        then (ok [], engine)
        else let taken =
            take_transition c id (record d { state = to }) d.state to source at none engine in
          elim taken.0 [ err x ↦ (err x, taken.1) | ok t ↦ (ok (t ∷ []), taken.1) ]
  ]

  -- `PresenceEngine::evaluate`, with the transition made, if one is.
  unfoldable pub evaluate :
      DeviceId c
      → DateTime
      → PresenceEngine c
      → Result (List (PresenceTransition c)) PresenceError × PresenceEngine c
  evaluate id at engine = elim (get c id engine.devices) [
    | none ↦ (err PresenceError.device_not_found, engine)
    | some d ↦
        if before c at d.last_evaluation
        then (err PresenceError.clock_rollback, engine)
        else if engine.next_transition == u64_max
        then (err PresenceError.sequence_exhausted, engine)
        else recompute id at (synthetic id at) (record engine {
          devices = insert c id (record d { last_evaluation = at }) engine.devices;
        })
  ]

  -- The end of `ingest_authorized`, behind the correction: nothing more for evidence that is
  -- outdated and corrects nothing, and otherwise the current transition.
  unfoldable pub ingest_current :
      PresenceEvidence c
      → DateTime
      → Bool
      → List (PresenceTransition c)
      → PresenceEngine c
      → Result (List (PresenceTransition c)) PresenceError × PresenceEngine c
  ingest_current e arrival outdated events engine =
      if outdated && is_empty events
      then (ok events, engine)
      else let next = recompute e.device_id arrival e engine in
        elim next.0 [ err x ↦ (err x, next.1) | ok current ↦ (ok (events ++ current), next.1) ]

  -- The part that makes the correction.
  unfoldable pub ingest_correction :
      PresenceEvidence c
      → DateTime
      → Absorbed c
      → PresenceEngine c
      → Result (List (PresenceTransition c)) PresenceError × PresenceEngine c
  ingest_correction e arrival a engine = elim a.correction [
    | none ↦ ingest_current e arrival a.outdated [] engine
    | some (departure, target) ↦
        let taken =
          take_transition c e.device_id a.device PresenceState.offline target e arrival
            (some departure) engine in
        elim taken.0 [
          | err x ↦ (err x, taken.1)
          | ok t ↦ ingest_current e arrival a.outdated (t ∷ []) taken.1
        ]
  ]

  unfoldable pub ingest_admitted :
      PresenceEvidence c
      → DateTime
      → Bool
      → PresenceEngine c
      → Result (List (PresenceTransition c)) PresenceError × PresenceEngine c
  ingest_admitted e arrival retain_input engine =
      let a =
        absorb c engine.cfg e arrival retain_input
          (or_fresh c arrival (get c e.device_id engine.devices)) in
      ingest_correction e arrival a
        (record engine { devices = insert c e.device_id a.device engine.devices })

  unfoldable pub ingest_authorized :
      PresenceEvidence c
      → DateTime
      → Bool
      → PresenceEngine c
      → Result (List (PresenceTransition c)) PresenceError × PresenceEngine c
  ingest_authorized e arrival enforcement_authorized engine =
      elim (refusal c engine.cfg e arrival enforcement_authorized) [
        | some x ↦ (err x, engine)
        | none ↦
            if not (is_some (get c e.device_id engine.devices))
              && leb engine.cfg.max_devices (length engine.devices)
            then (err (PresenceError.capacity "devices"), engine)
            else let retain_input = semantically_retained c e arrival engine.cfg in
              elim (prior_answer c engine.cfg e arrival retain_input
                (get c e.device_id engine.devices)) [
                  | some answer ↦ (answer, engine)
                  | none ↦
                      if is_some (checked_add_u64 engine.next_transition 2)
                      then ingest_admitted e arrival retain_input engine
                      else (err PresenceError.sequence_exhausted, engine)
                ]
      ]

  -- `PresenceEngine::ingest_events`.
  unfoldable pub ingest_events :
      PresenceEvidence c
      → DateTime
      → PresenceEngine c
      → Result (List (PresenceTransition c)) PresenceError × PresenceEngine c
  ingest_events e arrival engine = ingest_authorized e arrival false engine

  -- The last of the transitions that an answer has.
  unfoldable pub popped :
      Result (List (PresenceTransition c)) PresenceError × PresenceEngine c
      → Result (Option (PresenceTransition c)) PresenceError × PresenceEngine c
  popped (err x, engine) = (err x, engine)
  popped (ok events, engine) = (ok (find_last (λ t. true) events), engine)

  -- `PresenceEngine::ingest`.
  unfoldable pub ingest :
      PresenceEvidence c
      → DateTime
      → PresenceEngine c
      → Result (Option (PresenceTransition c)) PresenceError × PresenceEngine c
  ingest e arrival engine = popped (ingest_events e arrival engine)

  -- `PresenceEngine::record_verified_enforcement`.
  unfoldable pub record_verified_enforcement :
      DeviceId c
      → Bool
      → String
      → DateTime
      → DateTime
      → PresenceEngine c
      → Result (Option (PresenceTransition c)) PresenceError × PresenceEngine c
  record_verified_enforcement device_id blocked source observed_at arrival engine = popped (
      ingest_authorized
        (record {
          device_id = device_id;
          source = source;
          kind =
              if blocked
              then PresenceEvidenceKind.enforcement_blocked
              else PresenceEvidenceKind.enforcement_unblocked;
          observed_at = observed_at;
          valid_until = none;
        })
        arrival true engine)
