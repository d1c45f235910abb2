-- ===== src/EventBus/Clients.antt =====
-- crates/lattice-event-bus/src/lib.rs: a bus and a client that comes back to it.
use mathlib.Core.List.{append_assoc, append-nil, map-append}
use neon_hearth.Prelude.{
  ℕ, ◌+◌, ◌-◌, ◌≤◌, ◌<◌, ◌≡◌, refl, sym, ap, ◌∙◌, inl, inr, false, ◌||◌, List, [], ◌∷◌, ◌++◌,
  length, length-append, Option, none, some, ltb, leb, ◌==◌, arith, u64_max, if◌then◌else◌, map,
  leb→le, saturating_add_u64, Bool-cases, List-cases, subst, is_empty, head?,
}
use neon_hearth.External.{Crates}
use neon_hearth.EventBus.{
  EventEnvelope, Resume, EventBus, max_subscriber_capacity, new, trim, publish, resume_from,
  resume_after, publish_all,
}
use neon_hearth.EventBus.Replay.{
  Numbered, since, IsConsistent, Numbered-append, Numbered-head, since-append, since_none,
  trim_keeps,
}

module _ {c : Crates} {P : Type 0} where
  abbrev started : ℕ → EventBus c P
  started capacity = record {
    replay_capacity = capacity;
    next_sequence = 1;
    replay = [];
    sent = [];
  }

  started-IsConsistent : (capacity : ℕ) → 0 < capacity → IsConsistent (started capacity)
  started-IsConsistent capacity room = record {
    dropped = [];
    split = refl;
    numbered = tt;
    next = refl;
    in_range = omega arith;
    kept = omega arith;
    room = room;
  }

  abbrev envelope : c.DateTime → P → EventBus c P → EventEnvelope c P
  envelope at payload bus = record {
    sequence = bus.next_sequence;
    occurred_at = at;
    payload = payload;
  }

  abbrev published : c.DateTime → P → EventBus c P → EventBus c P
  published at payload bus = record bus {
    next_sequence = bus.next_sequence + 1;
    replay = trim bus.replay_capacity (bus.replay ++ envelope at payload bus ∷ []);
    sent = bus.sent ++ envelope at payload bus ∷ [];
  }

  publish-published :
      (at : c.DateTime) (payload : P) (bus : EventBus c P)
      → bus.next_sequence < u64_max
      → publish at payload bus ≡ some (envelope at payload bus, published at payload bus)
  unfolding publish
  publish-published at payload bus room =
      let e : ltb u64_max (bus.next_sequence + 1) ≡ false = ground arith in rw (e, publish) refl

  published-IsConsistent :
      (at : c.DateTime) (payload : P) (bus : EventBus c P)
      → bus.next_sequence < u64_max
      → IsConsistent bus
      → IsConsistent (published at payload bus)
  published-IsConsistent at payload bus room v =
      let x = envelope at payload bus in
      let (old, same, len) = trim_keeps bus.replay_capacity (bus.replay ++ x ∷ []) in
      let longer : length (bus.replay ++ x ∷ []) ≡ length bus.replay + 1 =
        length-append bus.replay (x ∷ []) in
      let sent_longer : length (bus.sent ++ x ∷ []) ≡ length bus.sent + 1 =
        length-append bus.sent (x ∷ []) in
      record {
        dropped = v.dropped ++ old;
        split =
            ap (λ s. s ++ x ∷ []) v.split
            ∙ (append_assoc v.dropped bus.replay (x ∷ [])
                ∙ (ap (λ r. v.dropped ++ r) same ∙ sym (append_assoc v.dropped old _)));
        numbered = Numbered-append 1 bus.sent x v.numbered (omega (arith, v.next));
        next = omega (arith, v.next, sent_longer);
        in_range = omega (arith, room);
        kept = omega (arith, len, longer, sent_longer, v.kept);
        room = v.room;
      }

  abbrev pub payloads : List (EventEnvelope c P) → List (c.DateTime × P)
  payloads = map (λ e. (e.occurred_at, e.payload))

  -- What a client that has seen the events up to number `n` is owed: all later ones in order, or a
  -- snapshot if the number was never given or more events were published since than are kept.
  abbrev pub owed : ℕ → EventBus c P → Resume c P
  owed n bus =
      if ltb (length bus.sent) n || ltb (n + bus.replay_capacity) (length bus.sent)
      then Resume.snapshot_required
      else Resume.events (since n bus.sent)

  sent_length :
      (bus : EventBus c P)
      → (v : IsConsistent bus) → length bus.sent ≡ length v.dropped + length bus.replay
  sent_length bus v = ap length v.split ∙ length-append v.dropped bus.replay

  -- Behind the last event there is nothing.
  since_last :
      (n : ℕ) (bus : EventBus c P) → IsConsistent bus → length bus.sent ≤ n → since n bus.sent ≡ []
  since_last n bus v le = since_none n 1 bus.sent v.numbered (omega arith)

  -- From the events that are kept on, nothing is missing.
  since_kept :
      (n : ℕ) (bus : EventBus c P) (v : IsConsistent bus)
      → length v.dropped ≤ n
      → since n bus.sent ≡ since n bus.replay
  since_kept n bus v le =
      ap (since n) v.split
      ∙ since-append n 1 v.dropped bus.replay (subst (Numbered 1) v.split v.numbered) (omega arith)

  oldest_sequence :
      (bus : EventBus c P) (v : IsConsistent bus) (o : EventEnvelope c P)
      (rs : List (EventEnvelope c P))
      → bus.replay ≡ o ∷ rs
      → o.sequence ≡ 1 + length v.dropped
  oldest_sequence bus v o rs e =
      Numbered-head 1 v.dropped o rs
        (subst (λ r. Numbered 1 (v.dropped ++ r)) e (subst (Numbered 1) v.split v.numbered))

  resume_kept :
      (n : ℕ) (bus : EventBus c P)
      → IsConsistent bus
      → n < length bus.sent
      → resume_from n bus.replay (head? bus.replay) ≡ owed n bus
  unfolding resume_from
  resume_kept n bus v lt = elim (List-cases bus.replay) [
    | inl e ↦ absurd (omega (arith, v.kept, ap length e, v.room, lt))
    | inr (o, rs, e) ↦ elim (Bool-cases (ltb (n + bus.replay_capacity) (length bus.sent))) [
      | inl late ↦
          rw (e, resume_from)
            (ground (
              arith,
              oldest_sequence bus v o rs e,
              sent_length bus v,
              v.kept,
              v.in_range,
              v.next,
              late,
              lt,
            ))
      | inr soon ↦
          let first : head? bus.replay ≡ some o = ap head? e in
          let seen : ltb (saturating_add_u64 n 1) o.sequence ≡ false = ground (
            arith,
            oldest_sequence bus v o rs e,
            sent_length bus v,
            v.kept,
            v.in_range,
            v.next,
            soon,
            lt,
          ) in
          let early : ltb (length bus.sent) n ≡ false = ground (arith, lt) in
          rw
            (
              first,
              resume_from,
              seen,
              early,
              soon,
              since_kept n bus v (ground (arith, sent_length bus v, v.kept, soon, lt)),
            )
            refl
    ]
  ]

  not_empty : (xs : List (EventEnvelope c P)) → 0 < length xs → is_empty xs ≡ false
  not_empty [] h = absurd (omega (arith, h))
  not_empty (x ∷ xs) h = refl

  resume_after-IsConsistent :
      (n : ℕ) (bus : EventBus c P) → IsConsistent bus → resume_after n bus ≡ owed n bus
  unfolding resume_after
  resume_after-IsConsistent n bus v =
      let last : bus.next_sequence - 1 ≡ length bus.sent = omega (arith, v.next) in
      elim (Bool-cases (leb (length bus.sent) n)) [
        | inl e ↦
            rw (resume_after, last, since_last n bus v (leb→le (length bus.sent) n e))
              (ground (arith, e, v.room))
        | inr e ↦
            let lt : n < length bus.sent = ground (arith, e) in
            let other : (n == length bus.sent) ≡ false = ground (arith, lt) in
            let early : ltb (length bus.sent) n ≡ false = ground (arith, lt) in
            let kept : is_empty bus.replay ≡ false =
              not_empty bus.replay (omega (arith, v.kept, v.room, lt)) in
            rw (resume_after, last, other, early, kept) (rw early at (resume_kept n bus v lt))
      ]

  -- What publishing one event after the other leads to.
  record Reached (sent : List (c.DateTime × P)) (capacity : ℕ) (bus : EventBus c P) : Type 0 where
    consistent : IsConsistent bus
    in_order : payloads bus.sent ≡ sent
    same_capacity : bus.replay_capacity ≡ capacity

  publish_all-Reached :
      (ps : List (c.DateTime × P)) (bus : EventBus c P)
      → IsConsistent bus
      → bus.next_sequence + length ps ≤ u64_max
      → (after : EventBus c P) × (publish_all ps bus ≡ some after)
        × Reached (payloads bus.sent ++ ps) bus.replay_capacity after
  unfolding publish_all
  publish_all-Reached [] bus v room =
      (bus, refl, record { consistent = v; in_order = sym (append-nil _); same_capacity = refl })
  publish_all-Reached ((at, payload) ∷ ps) bus v room =
      let lt : bus.next_sequence < u64_max = omega arith in
      let (after, done, r) =
        publish_all-Reached ps (published at payload bus)
          (published-IsConsistent at payload bus lt v) (omega arith) in
      (
        after,
        rw (publish_all, publish-published at payload bus lt) done,
        record {
          consistent = r.consistent;
          in_order =
              r.in_order
              ∙ (ap (λ q. q ++ ps) (map-append _ bus.sent (envelope at payload bus ∷ []))
                  ∙ append_assoc (payloads bus.sent) _ ps);
          same_capacity = r.same_capacity;
        },
      )

  abbrev pub publish_on : List (c.DateTime × P) → Option (EventBus c P) → Option (EventBus c P)
  publish_on ps none = none
  publish_on ps (some bus) = publish_all ps bus

  new-started :
      (capacity subscribers : ℕ)
      → 0 < capacity
      → 0 < subscribers
      → subscribers ≤ max_subscriber_capacity
      → new capacity subscribers ≡ some (started capacity)
  unfolding new
  new-started capacity subscribers room others most =
      let some_capacity : (capacity == 0) ≡ false = ground (arith, room) in
      let some_subscribers : (subscribers == 0) ≡ false = ground (arith, others) in
      let not_too_many : ltb max_subscriber_capacity subscribers ≡ false = ground (arith, most) in
      rw (new, some_capacity, some_subscribers, not_too_many) refl

  -- A bus with the given capacities, after the given events.
  abbrev pub bus_after : ℕ → ℕ → List (c.DateTime × P) → Option (EventBus c P)
  bus_after capacity subscribers ps = publish_on ps (new capacity subscribers)

  -- A bus of positive capacities, the subscribers' at most half of a `usize`, publishes fewer than 2^64 - 1 events without a panic: it sends all
  -- of them, in order and numbered from 1. A client that then resumes behind any number gets exactly
  -- the events that were sent since, with none missing, or is told to take a snapshot: that only if
  -- the number was never given out, or if more events than the replay keeps have been sent since.
  pub resume_after_complete :
      (capacity subscribers : ℕ) (ps : List (c.DateTime × P)) (n : ℕ)
      → 0 < capacity
      → 0 < subscribers
      → subscribers ≤ max_subscriber_capacity
      → length ps < u64_max
      → (bus : EventBus c P) × (bus_after capacity subscribers ps ≡ some bus)
        × (payloads bus.sent ≡ ps)
        × Numbered 1 bus.sent
        × (bus.replay_capacity ≡ capacity)
        × (resume_after n bus ≡ owed n bus)
  resume_after_complete capacity subscribers ps n room others most few =
      let (bus, done, r) =
        publish_all-Reached ps (started capacity) (started-IsConsistent capacity room)
          (omega (arith, few)) in
      (
        bus,
        ap (publish_on ps) (new-started capacity subscribers room others most) ∙ done,
        r.in_order,
        r.consistent.numbered,
        r.same_capacity,
        resume_after-IsConsistent n bus r.consistent,
      )
