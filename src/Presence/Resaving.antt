-- ===== src/Presence/Resaving.antt =====
-- crates/lattice-intelligence/src/presence.rs: why the devices that `from_checkpoint` accepts are accepted
-- in any order.
use neon_hearth.Prelude.{
  ℕ, ◌≤◌, ◌<◌, ◌≡◌, refl, sym, ◌∙◌, ap, inl, inr, Bool, false, ◌||◌, List, [], ◌∷◌, any, max, All,
  Option, none, some, ok, arith, ◌==◌, if◌then◌else◌, is_some, Option-cases, Result-cases, subst,
}
use neon_hearth.External.{Crates, DeviceId}
use neon_hearth.Presence.Types.{
  PresenceState, PresenceConfig, PresenceTransition, DevicePresence, PresenceCheckpointDevice,
}
use neon_hearth.Presence.Devices.{get}
use neon_hearth.Presence.Screening.{Seen, trigger_refusal, transition_refusal, history_walk}
use neon_hearth.Presence.Checkpoint.{device_refusal, screen}
use neon_hearth.Presence.Restoring.{ok_injective}

module _ (c : Crates) where
  -- None of the transitions has one of the numbers.
  abbrev pub Unseen : List ℕ → List (PresenceTransition c) → Type 0
  Unseen ids ts = All (λ t. any (λ id. id == t.transition_id) ids ≡ false) ts

  Unseen-tail :
      (id : ℕ) (ids : List ℕ) (ts : List (PresenceTransition c))
      → Unseen (id ∷ ids) ts
      → All (λ t. (id == t.transition_id) ≡ false) ts × Unseen ids ts
  Unseen-tail id ids [] every = (tt, tt)
  Unseen-tail id ids (t ∷ ts) every =
      let rest = Unseen-tail id ids ts every.1 in
      ((ground (arith, every.0), rest.0), (ground (arith, every.0), rest.1))

  Unseen-cons :
      (id : ℕ) (ids : List ℕ) (ts : List (PresenceTransition c))
      → All (λ t. (id == t.transition_id) ≡ false) ts
      → Unseen ids ts
      → Unseen (id ∷ ids) ts
  Unseen-cons id ids [] own every = tt
  Unseen-cons id ids (t ∷ ts) own every =
      (ground (arith, own.0, every.0), Unseen-cons id ids ts own.1 every.1)

  transition_unseen :
      (cfg : PresenceConfig) (x : PresenceCheckpointDevice c) (last : ℕ)
      (previous : Option PresenceState) (seen : Seen) (t : PresenceTransition c)
      → transition_refusal c cfg x last previous seen t ≡ none
      → any (λ id. id == t.transition_id) seen.ids ≡ false
  unfolding transition_refusal
  transition_unseen cfg x last previous seen t h = ground (arith, h)

  transition_again :
      (cfg : PresenceConfig) (x : PresenceCheckpointDevice c) (last : ℕ)
      (previous : Option PresenceState) (seen s : Seen) (t : PresenceTransition c)
      → transition_refusal c cfg x last previous seen t ≡ none
      → any (λ id. id == t.transition_id) s.ids ≡ false
      → transition_refusal c cfg x last previous s t ≡ none
  unfolding transition_refusal
  transition_again cfg x last previous seen s t h fresh = ground (arith, h, fresh)

  abbrev pub has_number : List (PresenceTransition c) → ℕ → Bool
  has_number ts i = any (λ t. t.transition_id == i) ts

  -- What an accepted history says of its numbers, and that it is accepted behind any others.
  pub record Walked (cfg : PresenceConfig) (x : PresenceCheckpointDevice c)
      (ts : List (PresenceTransition c)) (last : ℕ) (previous : Option PresenceState)
      (seen after : Seen) : Type 0 where
    pub fresh : Unseen seen.ids ts
    pub again :
        (s : Seen) → Unseen s.ids ts → (a : Seen) × (history_walk c cfg x ts last previous s ≡ ok a)
    pub adds :
        (i : ℕ) → any (λ id. id == i) after.ids ≡ (has_number ts i || any (λ id. id == i) seen.ids)
    pub grows : seen.max_id ≤ after.max_id
    pub top : All (λ t. t.transition_id ≤ after.max_id) ts
    pub least : (n : ℕ) → seen.max_id < n → All (λ t. t.transition_id < n) ts → after.max_id < n

  pub history_walk-Walked :
      (cfg : PresenceConfig) (x : PresenceCheckpointDevice c) (ts : List (PresenceTransition c))
      (last : ℕ) (previous : Option PresenceState) (seen after : Seen)
      → history_walk c cfg x ts last previous seen ≡ ok after
      → Walked cfg x ts last previous seen after
  unfolding history_walk
  history_walk-Walked cfg x [] last previous seen after h =
      let same : seen ≡ after = ok_injective c h in
      record {
        fresh = tt;
        again = λ s fresh. (s, refl);
        adds = λ i. ap (λ z. any (λ id. id == i) z.ids) (sym same);
        grows = rw (sym same) (omega arith);
        top = tt;
        least = λ n low every. rw (sym same) low;
      }
  history_walk-Walked cfg x (t ∷ ts) last previous seen after h =
      elim (Option-cases (transition_refusal c cfg x last previous seen t)) [
        | inr (e, refused) ↦ ground (arith, h, refused)
        | inl allowed ↦ elim (Option-cases (trigger_refusal c cfg t.trigger)) [
          | inr (e, refused) ↦ ground (arith, h, allowed, refused)
          | inl clean ↦
              let next : Seen = record {
                ids = t.transition_id ∷ seen.ids;
                max_id = max seen.max_id t.transition_id;
              } in
              let rest =
                history_walk-Walked cfg x ts t.transition_id (some t.to) next after
                  (simp (allowed, clean, history_walk) at h) in
              let parts = Unseen-tail t.transition_id seen.ids ts rest.fresh in
              record {
                fresh = (transition_unseen cfg x last previous seen t allowed, parts.1);
                again = λ s fresh.
                    let (a, walked) =
                      rest.again
                        (record {
                          ids = t.transition_id ∷ s.ids;
                          max_id = max s.max_id t.transition_id;
                        })
                        (Unseen-cons t.transition_id s.ids ts parts.0 fresh.1) in
                    (
                      a,
                      simp (
                        transition_again cfg x last previous seen s t allowed fresh.0,
                        clean,
                        walked,
                        history_walk,
                      ),
                    );
                adds = λ i. rest.adds i ∙ ground arith;
                grows = ground (arith, rest.grows);
                top = (ground (arith, rest.grows), rest.top);
                least = λ n low every. rest.least n (ground (arith, low, every.0)) every.1;
              }
        ]
      ]

  -- The state before the first transition of a device's history.
  abbrev pub start : PresenceCheckpointDevice c → Option PresenceState
  start x = if is_some x.evicted_through then none else some PresenceState.unknown

  abbrev pub Walk : PresenceConfig → PresenceCheckpointDevice c → Seen → Seen → Type 0
  Walk cfg x seen after = Walked cfg x x.history 0 (start x) seen after

  -- A device that is accepted, wherever it and its numbers are new.
  abbrev pub Again : PresenceConfig → ℕ → PresenceCheckpointDevice c → Type 0
  Again cfg next x =
      (devices : List (DeviceId c × DevicePresence c)) (s : Seen)
      → get c x.device_id devices ≡ none
      → Unseen s.ids x.history
      → (a : Seen) × (screen c cfg next x devices s ≡ ok a) × Walk cfg x s a

  pub screen-Again :
      (cfg : PresenceConfig) (next : ℕ) (x : PresenceCheckpointDevice c)
      (devices : List (DeviceId c × DevicePresence c)) (seen after : Seen)
      → screen c cfg next x devices seen ≡ ok after
      → Walk cfg x seen after × Again cfg next x
  unfolding screen
  screen-Again cfg next x devices seen after h =
      elim (Result-cases (history_walk c cfg x x.history 0 (start x) seen)) [
        | inr (e, refused) ↦ ground (arith, h, refused)
        | inl (walked, accepted) ↦ elim (Option-cases (device_refusal c cfg x next)) [
          | inr (e, refused) ↦ ground (arith, h, accepted, refused)
          | inl fine ↦
              let same : walked ≡ after = ground (arith, h, accepted, fine) in
              let own = history_walk-Walked cfg x x.history 0 (start x) seen walked accepted in
              (
                subst (Walk cfg x seen) same own,
                λ others s new fresh.
                    let (a, again) = own.again s fresh in
                    (
                      a,
                      ground (arith, h, new, again, fine),
                      history_walk-Walked cfg x x.history 0 (start x) s a again,
                    ),
              )
        ]
      ]
