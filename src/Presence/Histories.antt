-- ===== src/Presence/Histories.antt =====
-- crates/lattice-intelligence/src/presence.rs: the numbered transitions of a device, their bounded
-- history and the events that a consumer reads from it.
use neon_hearth.Prelude.{
  ℕ, List, [], ◌∷◌, ◌++◌, map, length, retain, Option, none, some, Result, ok, err, ltb, leb, ◌==◌,
  if◌then◌else◌, is_some, is_some_and, checked_add_u64,
}
use neon_hearth.External.{Crates, DeviceId}
use neon_hearth.Presence.Types.{
  PresenceState, PresenceEvidence, PresenceTransition, PresenceChanged, DevicePresence,
  PresenceEngine, PresenceError, kind_text,
}
use neon_hearth.Presence.Devices.{get, insert}

module _ (c : Crates) where
  open c use {DateTime, checked_add_signed}

  -- `push_history`: the oldest transitions go while the history is full, and with each the
  -- corrections of it that follow. `parent` is the transition whose corrections go.
  unfoldable pub shed :
      ℕ → Option ℕ → Option ℕ → List (PresenceTransition c) → List (PresenceTransition c) × Option ℕ
  shed max parent evicted [] = ([], evicted)
  shed max parent evicted (t ∷ ts) =
      let dependent = shed max parent (some t.transition_id) ts in
      let oldest = shed max (some t.transition_id) (some t.transition_id) ts in
      if is_some_and parent (λ id. is_some_and t.correction_of (λ target. target == id))
      then dependent
      else if leb max (length (t ∷ ts))
      then oldest
      else (t ∷ ts, evicted)

  unfoldable pub push_history : PresenceTransition c → ℕ → DevicePresence c → DevicePresence c
  push_history t max d =
      let room = shed max none d.evicted_through d.history in
      record d { history = room.0 ++ t ∷ []; evicted_through = room.1 }

  -- `make_transition`, with the sequence behind it.
  unfoldable pub make_transition :
      DeviceId c
      → PresenceState
      → PresenceState
      → PresenceEvidence c
      → DateTime
      → Option ℕ
      → PresenceEngine c
      → Result (PresenceTransition c) PresenceError × PresenceEngine c
  make_transition id from to e at correction engine =
      elim (checked_add_u64 engine.next_transition 1) [
        | none ↦ (err PresenceError.sequence_exhausted, engine)
        | some following ↦ (
          ok (record {
            transition_id = engine.next_transition;
            device_id = id;
            from = from;
            to = to;
            occurred_at = at;
            trigger = record {
              source = e.source;
              kind = e.kind;
              observed_at = e.observed_at;
              valid_until = e.valid_until;
              arrival_at = at;
            };
            correction_of = correction;
          }),
          record engine { next_transition = following },
        )
      ]

  -- A transition that is made and kept, of a device in the state given.
  unfoldable pub take_transition :
      DeviceId c
      → DevicePresence c
      → PresenceState
      → PresenceState
      → PresenceEvidence c
      → DateTime
      → Option ℕ
      → PresenceEngine c
      → Result (PresenceTransition c) PresenceError × PresenceEngine c
  take_transition id d from to e at correction engine =
      let made = make_transition id from to e at correction engine in
      elim made.0 [
        | err x ↦ (err x, made.1)
        | ok t ↦ (
          ok t,
          record made.1 {
            devices =
                insert c id (push_history t engine.cfg.max_history_per_device d) made.1.devices;
          },
        )
      ]

  -- The conversion of a transition to a domain event.
  unfoldable pub changed : PresenceTransition c → PresenceChanged c
  changed t = record {
    transition_id = t.transition_id;
    device_id = t.device_id;
    from = t.from;
    to = t.to;
    occurred_at = t.occurred_at;
    reason = if is_some t.correction_of then "late_evidence_correction" else "presence_evidence";
    trigger_source = t.trigger.source;
    trigger_kind = kind_text t.trigger.kind;
    evidence_observed_at = t.trigger.observed_at;
    evidence_valid_until = t.trigger.valid_until;
    trigger_arrival_at = t.trigger.arrival_at;
    correction_of = t.correction_of;
  }

  unfoldable pub domain_events_since :
      DeviceId c → ℕ → PresenceEngine c → Result (List (PresenceChanged c)) PresenceError
  domain_events_since id transition_id engine = elim (get c id engine.devices) [
    | none ↦ err PresenceError.device_not_found
    | some d ↦
        if is_some_and d.evicted_through (λ evicted. ltb transition_id evicted)
        then err PresenceError.cursor_expired
        else ok (map changed (retain (λ t. ltb transition_id t.transition_id) d.history))
  ]
