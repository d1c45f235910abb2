-- ===== src/Presence/Replay.antt =====
-- crates/lattice-intelligence/src/presence.rs: what a consumer of one device's transitions reads after
-- any calls of the engine.
use neon_hearth.Prelude.{
  ℕ, suc, ◌≤◌, ◌≡◌, refl, sym, ap, ◌∙◌, inl, inr, Bool, false, List, [], ◌∷◌, ◌++◌, map, retain,
  none, some, Result, ok, err, arith, Bool-cases, is_some_and, u64_max, ltb, subst,
}
use neon_hearth.External.{Crates, DeviceId, same_device}
use neon_hearth.Presence.Types.{
  PresenceEvidence, PresenceTransition, DevicePresence, PresenceEngine, PresenceError,
}
use neon_hearth.Presence.Devices.{get}
use neon_hearth.Presence.Histories.{changed, domain_events_since}
use neon_hearth.Presence.Engine.{evaluate, ingest_authorized}
use neon_hearth.Presence.Retention.{Advance, last_id}
use neon_hearth.Presence.Moves.{Moves, Moves-refl, Moves-trans, Numbered, own}
use neon_hearth.Presence.Taken.{Answers}
use neon_hearth.Presence.Answers.{ingest_authorized-Answers, evaluate-Answers}

module _ (c : Crates) where
  open c use {DateTime}

  -- A call of the engine that can take transitions.
  pub data Call : Type 0 where
    ingesting : (e : PresenceEvidence c) (arrival : DateTime) (enforcement_authorized : Bool) → Call
    evaluating : (id : DeviceId c) (at : DateTime) → Call

  unfoldable pub answer :
      Call
      → PresenceEngine c
      → Result (List (PresenceTransition c)) PresenceError × PresenceEngine c
  answer (ingesting e arrival authorized) engine = ingest_authorized c e arrival authorized engine
  answer (evaluating id at) engine = evaluate c id at engine

  abbrev pub taken_of :
      Result (List (PresenceTransition c)) PresenceError → List (PresenceTransition c)
  taken_of (ok ts) = ts
  taken_of (err x) = []

  -- Calls in a row, with all transitions that they answer.
  unfoldable pub play :
      List Call → PresenceEngine c → List (PresenceTransition c) × PresenceEngine c
  play [] engine = ([], engine)
  play (call ∷ calls) engine =
      let first = answer call engine in
      let rest = play calls first.1 in (taken_of first.0 ++ rest.0, rest.1)

  answer-Answers :
      (call : Call) (engine : PresenceEngine c)
      → engine.next_transition ≤ u64_max
      → Answers c engine (answer call engine)
  unfolding answer
  answer-Answers (ingesting e arrival authorized) engine in_range =
      ingest_authorized-Answers c e arrival authorized engine
  answer-Answers (evaluating id at) engine in_range = evaluate-Answers c id at engine in_range

  Answers-Moves :
      (engine : PresenceEngine c)
      (r : Result (List (PresenceTransition c)) PresenceError × PresenceEngine c)
      → Answers c engine r
      → Moves (taken_of r.0) engine r.1
  Answers-Moves engine (err x, new) same = subst (Moves [] engine) (sym same) (Moves-refl engine)
  Answers-Moves engine (ok ts, new) moves = moves

  pub play-Moves :
      (calls : List Call) (engine : PresenceEngine c)
      → engine.next_transition ≤ u64_max
      → Moves (play calls engine).0 engine (play calls engine).1
  unfolding play
  play-Moves [] engine in_range = Moves-refl engine
  play-Moves (call ∷ calls) engine in_range =
      let first = Answers-Moves engine (answer call engine) (answer-Answers call engine in_range) in
      Moves-trans first (play-Moves calls (answer call engine).1 (first.in_range in_range))

  -- Transitions with rising numbers.
  abbrev Rising : ℕ → List (PresenceTransition c) → Type 0
  Rising k [] = Unit
  Rising k (t ∷ ts) = (k ≤ t.transition_id) × Rising (suc t.transition_id) ts

  Rising-le : (j k : ℕ) (ts : List (PresenceTransition c)) → j ≤ k → Rising k ts → Rising j ts
  Rising-le j k [] le h = tt
  Rising-le j k (t ∷ ts) le h = (omega (arith, le, h.0), h.1)

  own-Rising :
      (id : DeviceId c) (k : ℕ) (ts : List (PresenceTransition c))
      → Numbered k ts
      → Rising k (own id ts)
  own-Rising id k [] h = tt
  own-Rising id k (t ∷ ts) h = elim (Bool-cases (same_device t.device_id id)) [
    | inl mine ↦ rw mine (
      omega (arith, h.0),
      Rising-le _ (suc k) (own id ts) (omega (arith, h.0)) (own-Rising id (suc k) ts h.1),
    )
    | inr other ↦
        rw other (Rising-le k (suc k) (own id ts) (omega arith) (own-Rising id (suc k) ts h.1))
  ]

  Rising-append : (k : ℕ) (xs ys : List (PresenceTransition c)) → Rising k (xs ++ ys) → Rising k xs
  Rising-append k [] ys h = tt
  Rising-append k (x ∷ xs) ys h = (h.0, Rising-append (suc x.transition_id) xs ys h.1)

  -- The transitions behind a number.
  abbrev pub since : ℕ → List (PresenceTransition c) → List (PresenceTransition c)
  since n = retain (λ t. ltb n t.transition_id)

  since-append :
      (n : ℕ) (xs ys : List (PresenceTransition c)) → since n (xs ++ ys) ≡ since n xs ++ since n ys
  since-append n [] ys = refl
  since-append n (x ∷ xs) ys = ground (arith, since-append n xs ys)

  -- If the last of rising transitions is not behind a number, none is.
  last_id-le :
      (n j : ℕ) (xs : List (PresenceTransition c))
      → Rising (suc j) xs
      → is_some_and (last_id xs (some j)) (λ last. ltb n last) ≡ false
      → (j ≤ n) × (since n xs ≡ [])
  last_id-le n j [] h last = (ground arith, refl)
  last_id-le n j (x ∷ xs) h last =
      let rest = last_id-le n x.transition_id xs h.1 last in
      (omega (arith, h.0, rest.0), ground (arith, rest.0, rest.1))

  since_last :
      (n k : ℕ) (xs : List (PresenceTransition c))
      → Rising k xs
      → is_some_and (last_id xs none) (λ last. ltb n last) ≡ false
      → since n xs ≡ []
  since_last n k [] h last = refl
  since_last n k (x ∷ xs) h last =
      let rest = last_id-le n x.transition_id xs h.1 last in ground (arith, rest.0, rest.1)

  -- The history of a device has every transition behind a number that it still reaches.
  since-history :
      (n k : ℕ) (ts : List (PresenceTransition c)) (d : DevicePresence c)
      → Rising k ts
      → Advance ts none (some d)
      → is_some_and d.evicted_through (λ evicted. ltb n evicted) ≡ false
      → since n d.history ≡ since n ts
  since-history n k ts d rising p reaches =
      let dropped_rising = Rising-append k p.dropped d.history (subst (Rising k) p.joined rising) in
      let gone =
        since_last n k p.dropped dropped_rising
          (subst (λ last. is_some_and last (λ evicted. ltb n evicted) ≡ false) p.evicted reaches) in
      sym (
        ap (since n) p.joined
        ∙ (since-append n p.dropped d.history ∙ ap (λ xs. xs ++ since n d.history) gone))

  get_empty :
      (engine : PresenceEngine c) (id : DeviceId c)
      → engine.devices ≡ []
      → get c id engine.devices ≡ none
  unfolding get
  get_empty engine id empty = ap (get c id) empty

  -- After any calls of an engine without devices, the events of a device behind a number that the
  -- device's history still reaches are those of all the transitions that these calls have answered for
  -- the device and that lie behind the number, in order.
  pub domain_events_since_complete :
      (calls : List Call) (engine : PresenceEngine c) (id : DeviceId c) (n : ℕ)
      (d : DevicePresence c)
      → engine.devices ≡ []
      → engine.next_transition ≤ u64_max
      → get c id (play calls engine).1.devices ≡ some d
      → is_some_and d.evicted_through (λ evicted. ltb n evicted) ≡ false
      → domain_events_since c id n (play calls engine).1
        ≡ ok (map (changed c) (since n (own id (play calls engine).0)))
  unfolding domain_events_since
  domain_events_since_complete calls engine id n d empty in_range there reaches =
      let made = (play calls engine).0 in
      let moves = play-Moves calls engine in_range in
      let kept : Advance (own id made) none (some d) =
        subst (λ m. Advance (own id made) m (some d)) (get_empty engine id empty)
          (subst (Advance (own id made) (get c id engine.devices)) there (moves.advances id)) in
      simp (
        there,
        reaches,
        domain_events_since,
        since-history n engine.next_transition (own id made) d
            (own-Rising id engine.next_transition made moves.numbered) kept reaches,
      )
