-- ===== src/Presence/Taken.antt =====
-- crates/lattice-intelligence/src/presence.rs: a transition that is taken, and the change of a device's
-- state.
use neon_hearth.Prelude.{
  ℕ, ◌+◌, ◌<◌, ◌≡◌, refl, sym, ap, inl, inr, List, [], ◌∷◌, Option, none, some, Result, ok, err,
  arith, Bool-cases, u64_max, ltb, subst,
}
use neon_hearth.External.{Crates, DeviceId, same_device}
use neon_hearth.Presence.Types.{
  PresenceState, PresenceEvidence, PresenceTransition, DevicePresence, PresenceEngine,
  PresenceError, same_state,
}
use neon_hearth.Presence.Candidates.{gated}
use neon_hearth.Presence.Devices.{get, insert}
use neon_hearth.Presence.Histories.{make_transition, take_transition, push_history}
use neon_hearth.Presence.Absorption.{or_fresh}
use neon_hearth.Presence.Engine.{recompute}
use neon_hearth.Presence.Maps.{get-insert, same_device-eq}
use neon_hearth.Presence.Retention.{Advance, Advance-still, Advance-trans, push_history-Advance}
use neon_hearth.Presence.Moves.{Moves, Moves-refl}

module _ (c : Crates) where
  -- A device's history takes a transition of that device that has the next number.
  pub Moves-push :
      (t : PresenceTransition c) (d : DevicePresence c) (max : ℕ) (engine : PresenceEngine c)
      → Advance [] (get c t.device_id engine.devices) (some d)
      → t.transition_id ≡ engine.next_transition
      → engine.next_transition < u64_max
      → Moves (t ∷ []) engine (record engine {
        devices = insert c t.device_id (push_history c t max d) engine.devices;
        next_transition = engine.next_transition + 1;
      })
  Moves-push t d max engine still number room = record {
    advances = λ j. elim (Bool-cases (same_device t.device_id j)) [
      | inl e ↦
          rw (get-insert c t.device_id j (push_history c t max d) engine.devices, e)
            (subst (λ k. Advance (t ∷ []) (get c k engine.devices) (some (push_history c t max d)))
              (same_device-eq c t.device_id j e)
              (Advance-trans still (push_history-Advance c t max d)))
      | inr e ↦
          rw (get-insert c t.device_id j (push_history c t max d) engine.devices, e)
            (Advance-still (get c j engine.devices) (get c j engine.devices) refl refl)
    ];
    numbered = (number, tt);
    counted = omega arith;
    same_config = refl;
    in_range = λ h. omega (arith, room);
  }

  -- A call that took some transitions.
  pub record Took (engine : PresenceEngine c)
      (r : Result (List (PresenceTransition c)) PresenceError × PresenceEngine c) : Type 0 where
    pub made : List (PresenceTransition c)
    pub done : r.0 ≡ ok made
    pub moves : Moves made engine r.1

  -- What an operation answers: a refusal that leaves the engine as it is, or the transitions that it
  -- took.
  abbrev pub Answers :
      PresenceEngine c
      → Result (List (PresenceTransition c)) PresenceError × PresenceEngine c
      → Type 0
  Answers engine (err x, new) = new ≡ engine
  Answers engine (ok es, new) = Moves es engine new

  -- The transition that `take_transition` makes, and the engine that has taken it.
  abbrev pub next_made :
      DeviceId c
      → PresenceState
      → PresenceState
      → PresenceEvidence c
      → c.DateTime
      → Option ℕ
      → ℕ
      → PresenceTransition c
  next_made id from to e at correction n = record {
    transition_id = n;
    device_id = id;
    from = from;
    to = to;
    occurred_at = at;
    trigger = record {
      source = e.source;
      kind = e.kind;
      observed_at = e.observed_at;
      valid_until = e.valid_until;
      arrival_at = at;
    };
    correction_of = correction;
  }

  abbrev pub taken_by :
      DevicePresence c → PresenceTransition c → PresenceEngine c → PresenceEngine c
  taken_by d t engine = record engine {
    devices =
        insert c t.device_id (push_history c t engine.cfg.max_history_per_device d) engine.devices;
    next_transition = engine.next_transition + 1;
  }

  pub take_transition_ok :
      (id : DeviceId c) (d : DevicePresence c) (from to : PresenceState) (e : PresenceEvidence c)
      (at : c.DateTime) (correction : Option ℕ) (engine : PresenceEngine c)
      → engine.next_transition < u64_max
      → take_transition c id d from to e at correction engine ≡ (
        ok (next_made id from to e at correction engine.next_transition),
        taken_by d (next_made id from to e at correction engine.next_transition) engine,
      )
  unfolding take_transition make_transition
  take_transition_ok id d from to e at correction engine room =
      elim (Bool-cases (ltb u64_max (engine.next_transition + 1))) [
        | inl full ↦ ground arith
        | inr free ↦ simp (free, take_transition, make_transition)
      ]

  pub Took-equal :
      (engine new : PresenceEngine c) (es : List (PresenceTransition c))
      (r : Result (List (PresenceTransition c)) PresenceError × PresenceEngine c)
      → r ≡ (ok es, new)
      → Moves es engine new
      → Took engine r
  Took-equal engine new es r h moves = record {
    made = es;
    done = ap (λ x. x.0) h;
    moves = subst (λ x. Moves es engine x.1) (sym h) moves;
  }

  pub or_fresh-Advance :
      (arrival : c.DateTime) (was : Option (DevicePresence c)) {new : Option (DevicePresence c)}
      → Advance [] (some (or_fresh c arrival was)) new
      → Advance [] was new
  or_fresh-Advance arrival none p = record {
    dropped = p.dropped;
    joined = p.joined;
    evicted = p.evicted;
  }
  or_fresh-Advance arrival (some d) p = p

  -- A device that is there takes its transition, if its state changes and a number is left.
  pub recompute-Took :
      (id : DeviceId c) (at : c.DateTime) (source : PresenceEvidence c) (engine : PresenceEngine c)
      (d : DevicePresence c)
      → get c id engine.devices ≡ some d
      → engine.next_transition < u64_max
      → Took engine (recompute c id at source engine)
  unfolding recompute
  recompute-Took id at source engine d there room =
      let to = gated c d at engine.cfg in
      let t = next_made id d.state to source at none engine.next_transition in
      let called : DevicePresence c = record d { state = to } in
      elim (Bool-cases (same_state to d.state)) [
        | inl e ↦ Took-equal engine engine [] _ (simp (there, e, recompute)) (Moves-refl engine)
        | inr e ↦
            Took-equal engine (taken_by called t engine) (t ∷ []) _
              (simp (
                there,
                e,
                recompute,
                take_transition_ok id called d.state to source at none engine room,
              ))
              (Moves-push t called engine.cfg.max_history_per_device engine
                (rw there (Advance-still (some d) (some called) refl refl)) refl room)
      ]

  -- The answer where a call took transitions.
  pub Took-Answers :
      (engine : PresenceEngine c)
      (r : Result (List (PresenceTransition c)) PresenceError × PresenceEngine c)
      → Took engine r
      → Answers engine r
  Took-Answers engine (err x, new) took = ground (arith, took.done)
  Took-Answers engine (ok es, new) took =
      subst (λ ts. Moves ts engine new) (cc took.done) took.moves
