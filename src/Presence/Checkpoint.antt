-- ===== src/Presence/Checkpoint.antt =====
-- crates/lattice-intelligence/src/presence.rs: an engine saved and restored, `checkpoint` and
-- `from_checkpoint`.
use neon_hearth.Prelude.{
  ℕ, Bool, true, ◌||◌, not, List, [], ◌∷◌, map, length, Option, none, some, Result, ok, err, ltb,
  leb, ◌==◌, if◌then◌else◌, is_some, is_some_and,
}
use neon_hearth.Prelude.Sorting.{sort_by}
use neon_hearth.Text.{codes}
use neon_hearth.External.{Crates, DeviceId}
use neon_hearth.Presence.Types.{
  PresenceState, PresenceConfig, DevicePresence, PresenceEngine, PresenceError, PresenceCheckpoint,
  PresenceCheckpointDevice, same_state,
}
use neon_hearth.Presence.Config.{is_valid_config}
use neon_hearth.Presence.Evidence.{codes_before}
use neon_hearth.Presence.Absorption.{find_last}
use neon_hearth.Presence.Devices.{get, insert}
use neon_hearth.Presence.Screening.{
  Seen, first_refusal, refuse_if, refuse_any, history_walk, correction_refusal, evidence_refusal,
  control_refusal,
}

module _ (c : Crates) where
  open c use {uuid_text}

  -- The key of `checkpoint`, compared.
  abbrev pub device_le : PresenceCheckpointDevice c → PresenceCheckpointDevice c → Bool
  device_le a b =
      not (codes_before (codes (uuid_text b.device_id.uuid)) (codes (uuid_text a.device_id.uuid)))

  abbrev pub saved : DeviceId c × DevicePresence c → PresenceCheckpointDevice c
  saved (id, d) = record {
    device_id = id;
    state = d.state;
    evidence = d.evidence;
    history = d.history;
    last_evaluation = d.last_evaluation;
    ever_supported = d.ever_supported;
    blocked = d.blocked;
    impaired = d.impaired;
    contradictory = d.contradictory;
    enforcement_clock = d.enforcement_clock;
    impairment_clock = d.impairment_clock;
    contradiction_clock = d.contradiction_clock;
    evicted_through = d.evicted_through;
  }

  unfoldable pub checkpoint : PresenceEngine c → PresenceCheckpoint c
  checkpoint engine = record {
    version = 1;
    devices = sort_by device_le (map saved engine.devices);
    next_transition = engine.next_transition;
  }

  -- The device that `from_checkpoint` rebuilds.
  abbrev pub rebuilt : PresenceCheckpointDevice c → DevicePresence c
  rebuilt x = record {
    state = x.state;
    evidence = x.evidence;
    history = x.history;
    last_evaluation = x.last_evaluation;
    ever_supported = x.ever_supported;
    blocked = x.blocked;
    impaired = x.impaired;
    contradictory = x.contradictory;
    enforcement_clock = x.enforcement_clock;
    impairment_clock = x.impairment_clock;
    contradiction_clock = x.contradiction_clock;
    evicted_through = x.evicted_through;
  }

  -- The checks of a device behind the walk through its history.
  unfoldable pub device_refusal :
      PresenceConfig → PresenceCheckpointDevice c → ℕ → Option PresenceError
  device_refusal cfg x next_transition = first_refusal (
      refuse_any (correction_refusal c x.history) x.history
      ∷ refuse_if
          (is_some_and (find_last (λ t. true) x.history) (λ t. not (same_state t.to x.state)))
          (PresenceError.invalid_checkpoint "final state")
      ∷ refuse_any (evidence_refusal c cfg x) x.evidence
      ∷ control_refusal c x next_transition
      ∷ [])

  -- One round of `from_checkpoint`: the numbers seen, if the device is accepted.
  unfoldable pub screen :
      PresenceConfig
      → ℕ
      → PresenceCheckpointDevice c
      → List (DeviceId c × DevicePresence c)
      → Seen
      → Result Seen PresenceError
  screen cfg next_transition x devices seen =
      if is_some (get c x.device_id devices)
        || ltb cfg.max_evidence_per_device (length x.evidence)
        || ltb cfg.max_history_per_device (length x.history)
      then err (PresenceError.invalid_checkpoint "duplicate or capacity")
      else elim (history_walk c cfg x x.history 0
          (if is_some x.evicted_through then none else some PresenceState.unknown) seen) [
            | err e ↦ err e
            | ok after ↦ elim (device_refusal cfg x next_transition) [
              | some e ↦ err e
              | none ↦ ok after
            ]
          ]

  unfoldable pub restore_devices :
      PresenceConfig
      → ℕ
      → List (PresenceCheckpointDevice c)
      → List (DeviceId c × DevicePresence c)
      → Seen
      → Result (List (DeviceId c × DevicePresence c) × ℕ) PresenceError
  restore_devices cfg next_transition [] devices seen = ok (devices, seen.max_id)
  restore_devices cfg next_transition (x ∷ xs) devices seen =
      elim (screen cfg next_transition x devices seen) [
        | err e ↦ err e
        | ok after ↦
            restore_devices cfg next_transition xs (insert c x.device_id (rebuilt x) devices) after
      ]

  unfoldable pub from_checkpoint :
      PresenceConfig → PresenceCheckpoint c → Result (PresenceEngine c) PresenceError
  from_checkpoint cfg cp =
      if not (is_valid_config cfg)
      then err PresenceError.invalid_config
      else if not (cp.version == 1)
          || cp.next_transition == 0
          || ltb cfg.max_devices (length cp.devices)
      then err (PresenceError.invalid_checkpoint "version, sequence, or capacity")
      else elim (restore_devices cfg cp.next_transition cp.devices []
          (record { ids = []; max_id = 0 })) [
            | err e ↦ err e
            | ok (devices, max_id) ↦
                if leb cp.next_transition max_id
                then err (PresenceError.invalid_checkpoint "sequence")
                else ok
                    (record { cfg = cfg; devices = devices; next_transition = cp.next_transition })
          ]
