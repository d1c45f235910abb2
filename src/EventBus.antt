-- ===== src/EventBus.antt =====
-- crates/lattice-event-bus/src/lib.rs: the numbered events of the bus and its bounded replay. The
-- payload is of any type, and the broadcast channel of `tokio` is the list of what is sent to it.
-- The mutex makes each operation one step. A panic is `none`.
pub mod Replay
pub mod Clients
pub mod Tests
use neon_hearth.Prelude.{
  ℕ, suc, ◌+◌, ◌-◌, ◌≡◌, Bool, true, false, ◌||◌, List, [], ◌∷◌, ◌++◌, length, retain, is_empty,
  head?, Option, none, some, ltb, ◌==◌, checked_add_u64, saturating_add_u64, if◌then◌else◌,
}
use neon_hearth.External.{Crates}

pub record EventEnvelope (c : Crates) (P : Type 0) : Type 0 where
  pub sequence : ℕ
  pub occurred_at : c.DateTime
  pub payload : P

pub data Resume (c : Crates) (P : Type 0) : Type 0 where
  events : List (EventEnvelope c P) → Resume c P
  snapshot_required : Resume c P

-- `State`, the capacity of `EventBus`, and what was sent to its subscribers.
pub record EventBus (c : Crates) (P : Type 0) : Type 0 where
  pub replay_capacity : ℕ
  pub next_sequence : ℕ
  pub replay : List (EventEnvelope c P)
  pub sent : List (EventEnvelope c P)

-- The greatest capacity of a `tokio` broadcast channel: half of a `usize` of 64 bits. Beyond it,
-- `broadcast::channel` panics.
abbrev pub max_subscriber_capacity : ℕ
max_subscriber_capacity = 9223372036854775807

module _ {c : Crates} {P : Type 0} where
  -- `EventBus::new`, with its two assertions and the channel's.
  unfoldable pub new : ℕ → ℕ → Option (EventBus c P)
  new replay_capacity subscriber_capacity =
      if replay_capacity == 0
      then none
      else if subscriber_capacity == 0
      then none
      else if ltb max_subscriber_capacity subscriber_capacity
      then none
      else some
          (record { replay_capacity = replay_capacity; next_sequence = 1; replay = []; sent = [] })

  -- The loop of `publish` that drops the oldest events beyond the capacity.
  unfoldable pub trim : ℕ → List (EventEnvelope c P) → List (EventEnvelope c P)
  trim capacity [] = []
  trim capacity (x ∷ xs) =
      let rest = trim capacity xs in if ltb capacity (length (x ∷ xs)) then rest else x ∷ xs

  unfoldable pub publish : c.DateTime → P → EventBus c P → Option (EventEnvelope c P × EventBus c P)
  publish occurred_at payload bus = elim (checked_add_u64 bus.next_sequence 1) [
    | none ↦ none
    | some following ↦
        let envelope : EventEnvelope c P = record {
          sequence = bus.next_sequence;
          occurred_at = occurred_at;
          payload = payload;
        } in
        some (
          envelope,
          record bus {
            next_sequence = following;
            replay = trim bus.replay_capacity (bus.replay ++ envelope ∷ []);
            sent = bus.sent ++ envelope ∷ [];
          },
        )
  ]

  unfoldable pub current_sequence : EventBus c P → ℕ
  current_sequence bus = bus.next_sequence - 1

  unfoldable pub resume_from :
      ℕ → List (EventEnvelope c P) → Option (EventEnvelope c P) → Resume c P
  resume_from sequence replay none = Resume.snapshot_required
  resume_from sequence replay (some oldest) =
      if ltb (saturating_add_u64 sequence 1) oldest.sequence
      then Resume.snapshot_required
      else Resume.events (retain (λ e. ltb sequence e.sequence) replay)

  unfoldable pub resume_after : ℕ → EventBus c P → Resume c P
  resume_after sequence bus =
      let last_sequence = bus.next_sequence - 1 in
      if sequence == last_sequence
      then Resume.events []
      else if ltb last_sequence sequence || is_empty bus.replay
      then Resume.snapshot_required
      else resume_from sequence bus.replay (head? bus.replay)

  -- A client that publishes one event after the other.
  unfoldable pub publish_all : List (c.DateTime × P) → EventBus c P → Option (EventBus c P)
  publish_all [] bus = some bus
  publish_all ((occurred_at, payload) ∷ rest) bus = elim (publish occurred_at payload bus) [
    | none ↦ none
    | some done ↦ publish_all rest done.1
  ]
