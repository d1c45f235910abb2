-- ===== src/Presence/Types.antt =====
-- crates/lattice-intelligence/src/presence.rs and crates/lattice-domain/src/presence.rs: the data of
-- the presence engine.
use neon_hearth.Prelude.{ℕ, Bool, String, List, Option, ◌==◌}
use neon_hearth.Prelude.Int.{ℤ}
use neon_hearth.External.{Crates, DeviceId}

pub data PresenceState : Type 0 where
  online quiet offline blocked unknown : PresenceState

abbrev state_index : PresenceState → ℕ
state_index PresenceState.online = 0
state_index PresenceState.quiet = 1
state_index PresenceState.offline = 2
state_index PresenceState.blocked = 3
state_index PresenceState.unknown = 4

abbrev pub same_state : PresenceState → PresenceState → Bool
same_state a b = state_index a == state_index b

-- Durations are signed numbers of ticks.
pub record PresenceConfig : Type 0 where
  pub online_window : ℤ
  pub correction_window : ℤ
  pub retention : ℤ
  pub future_skew : ℤ
  pub confirmation_window : ℤ
  pub trusted_sources : List String
  pub join_confirmations : ℕ
  pub departure_confirmations : ℕ
  pub max_devices : ℕ
  pub max_evidence_per_device : ℕ
  pub max_history_per_device : ℕ
  pub max_source_len : ℕ

pub data PresenceEvidenceKind : Type 0 where
  traffic lease router_association neighbor_cache probe_success confirmation_failure
        enforcement_blocked enforcement_unblocked sensor_impaired sensor_recovered contradiction
        contradiction_cleared evaluation :
      PresenceEvidenceKind

-- The place of a kind in its declaration: the derived equality and order go by it.
abbrev pub evidence_index : PresenceEvidenceKind → ℕ
evidence_index PresenceEvidenceKind.traffic = 0
evidence_index PresenceEvidenceKind.lease = 1
evidence_index PresenceEvidenceKind.router_association = 2
evidence_index PresenceEvidenceKind.neighbor_cache = 3
evidence_index PresenceEvidenceKind.probe_success = 4
evidence_index PresenceEvidenceKind.confirmation_failure = 5
evidence_index PresenceEvidenceKind.enforcement_blocked = 6
evidence_index PresenceEvidenceKind.enforcement_unblocked = 7
evidence_index PresenceEvidenceKind.sensor_impaired = 8
evidence_index PresenceEvidenceKind.sensor_recovered = 9
evidence_index PresenceEvidenceKind.contradiction = 10
evidence_index PresenceEvidenceKind.contradiction_cleared = 11
evidence_index PresenceEvidenceKind.evaluation = 12

abbrev pub same_evidence_kind : PresenceEvidenceKind → PresenceEvidenceKind → Bool
same_evidence_kind a b = evidence_index a == evidence_index b

-- `PresenceEvidenceKind::as_str`.
pub kind_text : PresenceEvidenceKind → String
kind_text PresenceEvidenceKind.traffic = "traffic"
kind_text PresenceEvidenceKind.lease = "lease"
kind_text PresenceEvidenceKind.router_association = "router_association"
kind_text PresenceEvidenceKind.neighbor_cache = "neighbor_cache"
kind_text PresenceEvidenceKind.probe_success = "probe_success"
kind_text PresenceEvidenceKind.confirmation_failure = "confirmation_failure"
kind_text PresenceEvidenceKind.enforcement_blocked = "enforcement_blocked"
kind_text PresenceEvidenceKind.enforcement_unblocked = "enforcement_unblocked"
kind_text PresenceEvidenceKind.sensor_impaired = "sensor_impaired"
kind_text PresenceEvidenceKind.sensor_recovered = "sensor_recovered"
kind_text PresenceEvidenceKind.contradiction = "contradiction"
kind_text PresenceEvidenceKind.contradiction_cleared = "contradiction_cleared"
kind_text PresenceEvidenceKind.evaluation = "evaluation"

pub data PresenceError : Type 0 where
  invalid_config untrusted : PresenceError
  invalid_evidence capacity : (why : String) → PresenceError
  device_not_found clock_rollback sequence_exhausted cursor_expired : PresenceError
  invalid_checkpoint : (why : String) → PresenceError

module _ (c : Crates) where
  open c use {DateTime}

  pub record PresenceEvidence : Type 0 where
    pub device_id : DeviceId c
    pub source : String
    pub kind : PresenceEvidenceKind
    pub observed_at : DateTime
    pub valid_until : Option DateTime

  pub record PresenceTrigger : Type 0 where
    pub source : String
    pub kind : PresenceEvidenceKind
    pub observed_at : DateTime
    pub valid_until : Option DateTime
    pub arrival_at : DateTime

  pub record PresenceTransition : Type 0 where
    pub transition_id : ℕ
    pub device_id : DeviceId c
    pub from : PresenceState
    pub to : PresenceState
    pub occurred_at : DateTime
    pub trigger : PresenceTrigger
    pub correction_of : Option ℕ

  pub record PresenceChanged : Type 0 where
    pub transition_id : ℕ
    pub device_id : DeviceId c
    pub from : PresenceState
    pub to : PresenceState
    pub occurred_at : DateTime
    pub reason : String
    pub trigger_source : String
    pub trigger_kind : String
    pub evidence_observed_at : DateTime
    pub evidence_valid_until : Option DateTime
    pub trigger_arrival_at : DateTime
    pub correction_of : Option ℕ

  pub record DevicePresence : Type 0 where
    pub state : PresenceState
    pub evidence : List PresenceEvidence
    pub history : List PresenceTransition
    pub last_evaluation : DateTime
    pub ever_supported : Bool
    pub blocked : Bool
    pub impaired : Bool
    pub contradictory : Bool
    pub enforcement_clock : Option DateTime
    pub impairment_clock : Option DateTime
    pub contradiction_clock : Option DateTime
    pub evicted_through : Option ℕ

  -- The map of devices is an association list with each device once.
  pub record PresenceEngine : Type 0 where
    pub cfg : PresenceConfig
    pub devices : List (DeviceId c × DevicePresence)
    pub next_transition : ℕ

  pub record PresenceCheckpointDevice : Type 0 where
    pub device_id : DeviceId c
    pub state : PresenceState
    pub evidence : List PresenceEvidence
    pub history : List PresenceTransition
    pub last_evaluation : DateTime
    pub ever_supported : Bool
    pub blocked : Bool
    pub impaired : Bool
    pub contradictory : Bool
    pub enforcement_clock : Option DateTime
    pub impairment_clock : Option DateTime
    pub contradiction_clock : Option DateTime
    pub evicted_through : Option ℕ

  pub record PresenceCheckpoint : Type 0 where
    pub version : ℕ
    pub devices : List PresenceCheckpointDevice
    pub next_transition : ℕ

  pub record PresenceSnapshot : Type 0 where
    pub devices : ℕ
    pub evidence : ℕ
    pub history : ℕ
    pub next_transition : ℕ
