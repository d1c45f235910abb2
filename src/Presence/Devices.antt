-- ===== src/Presence/Devices.antt =====
-- crates/lattice-intelligence/src/presence.rs: the map of devices, and an engine without any.
use neon_hearth.Prelude.{
  ℕ, ◌+◌, not, List, [], ◌∷◌, length, Option, none, some, Result, ok, err, ◌==◌, if◌then◌else◌,
}
use neon_hearth.External.{Crates, DeviceId, same_device}
use neon_hearth.Presence.Types.{
  PresenceState, PresenceConfig, DevicePresence, PresenceEngine, PresenceError, PresenceSnapshot,
  PresenceTransition,
}
use neon_hearth.Presence.Config.{is_valid_config}

module _ (c : Crates) where
  open c use {DateTime, checked_add_signed}

  -- `HashMap::get` and `HashMap::insert` on the devices.
  unfoldable pub get : DeviceId c → List (DeviceId c × DevicePresence c) → Option (DevicePresence c)
  get id [] = none
  get id ((k, d) ∷ rest) = if same_device k id then some d else get id rest

  unfoldable pub insert :
      DeviceId c
      → DevicePresence c
      → List (DeviceId c × DevicePresence c)
      → List (DeviceId c × DevicePresence c)
  insert id d [] = (id, d) ∷ []
  insert id d ((k, old) ∷ rest) =
      if same_device k id then (k, d) ∷ rest else (k, old) ∷ insert id d rest

  -- `PresenceEngine::new_with_transition_sequence`.
  unfoldable pub new_with_transition_sequence :
      PresenceConfig → ℕ → Result (PresenceEngine c) PresenceError
  new_with_transition_sequence cfg next_transition =
      if not (is_valid_config cfg)
      then err PresenceError.invalid_config
      else if next_transition == 0
      then err PresenceError.invalid_config
      else ok (record { cfg = cfg; devices = []; next_transition = next_transition })

  -- `PresenceEngine::new`.
  unfoldable pub new : PresenceConfig → Result (PresenceEngine c) PresenceError
  unfolding new_with_transition_sequence
  new cfg = new_with_transition_sequence cfg 1

  abbrev sum_of : (DevicePresence c → ℕ) → List (DeviceId c × DevicePresence c) → ℕ
  sum_of f [] = 0
  sum_of f ((k, d) ∷ rest) = f d + sum_of f rest

  unfoldable pub snapshot : PresenceEngine c → PresenceSnapshot c
  snapshot engine = record {
    devices = length engine.devices;
    evidence = sum_of (λ d. length d.evidence) engine.devices;
    history = sum_of (λ d. length d.history) engine.devices;
    next_transition = engine.next_transition;
  }

  unfoldable pub state : DeviceId c → PresenceEngine c → Option PresenceState
  state id engine = elim (get id engine.devices) [ none ↦ none | some d ↦ some d.state ]

  -- `PresenceEngine::history`.
  unfoldable pub history :
      DeviceId c → PresenceEngine c → Result (List (PresenceTransition c)) PresenceError
  history id engine = elim (get id engine.devices) [
    | none ↦ err PresenceError.device_not_found
    | some d ↦ ok d.history
  ]
