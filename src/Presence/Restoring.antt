-- ===== src/Presence/Restoring.antt =====
-- crates/lattice-intelligence/src/presence.rs: what `from_checkpoint` accepts, and what it restores.
use neon_hearth.Prelude.{
  ℕ, ◌+◌, ◌≤◌, ◌≡◌, ap, ◌∙◌, inl, inr, false, List, [], ◌∷◌, length, All, Option, none, some,
  Result, ok, arith, if◌then◌else◌, Bool-cases, Option-cases, Result-cases, is_some, subst,
}
use neon_hearth.External.{Crates, DeviceId, same_device}
use neon_hearth.Presence.Types.{
  PresenceState, PresenceConfig, PresenceEvidenceKind, PresenceTransition, DevicePresence,
  PresenceCheckpointDevice, same_evidence_kind,
}
use neon_hearth.Presence.Devices.{get, insert}
use neon_hearth.Presence.Maps.{get-insert, length-insert, same_device_refl, same_device-eq}
use neon_hearth.Presence.Screening.{Seen, trigger_refusal, transition_refusal, history_walk}
use neon_hearth.Presence.Checkpoint.{rebuilt, restore_devices, screen}

module _ (c : Crates) where
  pub ok_injective : {A E : Type 0} {a b : A} → ◌≡◌ {A = Result A E} (ok a) (ok b) → a ≡ b
  ok_injective h = cc h

  -- The timer has not triggered a transition.
  abbrev pub IsTimed : PresenceTransition c → Type 0
  IsTimed t = same_evidence_kind t.trigger.kind PresenceEvidenceKind.evaluation ≡ false

  trigger_refusal-IsTimed :
      (cfg : PresenceConfig) (t : PresenceTransition c)
      → trigger_refusal c cfg t.trigger ≡ none
      → IsTimed t
  unfolding trigger_refusal
  trigger_refusal-IsTimed cfg t h = ground arith

  history_walk-IsTimed :
      (cfg : PresenceConfig) (x : PresenceCheckpointDevice c) (ts : List (PresenceTransition c))
      (last : ℕ) (previous : Option PresenceState) (seen after : Seen)
      → history_walk c cfg x ts last previous seen ≡ ok after
      → All IsTimed ts
  unfolding history_walk
  history_walk-IsTimed cfg x [] last previous seen after h = tt
  history_walk-IsTimed cfg x (t ∷ ts) last previous seen after h =
      elim (Option-cases (transition_refusal c cfg x last previous seen t)) [
        | inr (e, refused) ↦ ground (arith, h, refused)
        | inl allowed ↦ elim (Option-cases (trigger_refusal c cfg t.trigger)) [
          | inr (e, refused) ↦ ground (arith, h, allowed, refused)
          | inl clean ↦ (
            trigger_refusal-IsTimed cfg t clean,
            history_walk-IsTimed cfg x ts _ _ _ after (simp (allowed, clean, history_walk) at h),
          )
        ]
      ]

  -- A device that `from_checkpoint` accepts.
  pub record IsAccepted (cfg : PresenceConfig) (x : PresenceCheckpointDevice c) : Type 0 where
    pub evidence : length x.evidence ≤ cfg.max_evidence_per_device
    pub history : length x.history ≤ cfg.max_history_per_device
    pub timed : All IsTimed x.history

  pub screen_accepts :
      (cfg : PresenceConfig) (next : ℕ) (x : PresenceCheckpointDevice c)
      (devices : List (DeviceId c × DevicePresence c)) (seen after : Seen)
      → screen c cfg next x devices seen ≡ ok after
      → (get c x.device_id devices ≡ none) × IsAccepted cfg x
  unfolding screen
  screen_accepts cfg next x devices seen after h =
      elim (Result-cases (
        history_walk c cfg x x.history 0
          (if is_some x.evicted_through then none else some PresenceState.unknown) seen)) [
            | inr (e, refused) ↦ ground (arith, h, refused)
            | inl (walked, accepted) ↦ (
              ground (arith, h),
              record {
                evidence = ground (arith, h);
                history = ground (arith, h);
                timed = history_walk-IsTimed cfg x x.history _ _ _ walked accepted;
              },
            )
          ]

  insert_keeps :
      (k id : DeviceId c) (x d : DevicePresence c) (m : List (DeviceId c × DevicePresence c))
      → get c k m ≡ none
      → get c id m ≡ some d
      → get c id (insert c k x m) ≡ some d
  insert_keeps k id x d m fresh there = elim (Bool-cases (same_device k id)) [
    | inl same ↦
        ground (arith, subst (λ j. get c j m ≡ none) (same_device-eq c k id same) fresh, there)
    | inr other ↦ simp (get-insert c k id x m, other, there)
  ]

  -- What some devices of a checkpoint make of the devices restored before them.
  pub record Restored (cfg : PresenceConfig) (xs : List (PresenceCheckpointDevice c))
      (devices out : List (DeviceId c × DevicePresence c)) : Type 0 where
    pub accepted : All (IsAccepted cfg) xs
    pub placed : All (λ x. get c x.device_id out ≡ some (rebuilt c x)) xs
    pub kept :
        (id : DeviceId c) (d : DevicePresence c) → get c id devices ≡ some d → get c id out ≡ some d
    pub absent :
        (id : DeviceId c)
        → get c id devices ≡ none
        → All (λ x. same_device x.device_id id ≡ false) xs
        → get c id out ≡ none
    pub counted : length out ≡ length devices + length xs

  pub restore_devices-Restored :
      (cfg : PresenceConfig) (next : ℕ) (xs : List (PresenceCheckpointDevice c))
      (devices out : List (DeviceId c × DevicePresence c)) (seen : Seen) (max_id : ℕ)
      → restore_devices c cfg next xs devices seen ≡ ok (out, max_id)
      → Restored cfg xs devices out
  unfolding restore_devices
  restore_devices-Restored cfg next [] devices out seen max_id h =
      let same : devices ≡ out = ap (λ p. p.0) (ok_injective h) in
      record {
        accepted = tt;
        placed = tt;
        kept = λ id d there. subst (λ m. get c id m ≡ some d) same there;
        absent = λ id gone others. subst (λ m. get c id m ≡ none) same gone;
        counted = subst (λ m. length m ≡ length devices + 0) same (omega arith);
      }
  restore_devices-Restored cfg next (x ∷ xs) devices out seen max_id h =
      elim (Result-cases (screen c cfg next x devices seen)) [
        | inr (e, refused) ↦ ground (arith, h, refused)
        | inl (after, fine) ↦
            let (fresh, accepted) = screen_accepts cfg next x devices seen after fine in
            let rest =
              restore_devices-Restored cfg next xs (insert c x.device_id (rebuilt c x) devices) out
                after max_id (simp (fine, restore_devices) at h) in
            record {
              accepted = (accepted, rest.accepted);
              placed = (
                rest.kept x.device_id (rebuilt c x) (
                    simp (
                      get-insert c x.device_id x.device_id (rebuilt c x) devices,
                      same_device_refl c x.device_id,
                    )),
                rest.placed,
              );
              kept = λ id d there.
                  rest.kept id d (insert_keeps x.device_id id (rebuilt c x) d devices fresh there);
              absent = λ id gone others.
                  rest.absent id
                    (simp (get-insert c x.device_id id (rebuilt c x) devices, others.0, gone))
                    others.1;
              counted =
                  rest.counted
                  ∙ ground (arith, length-insert c x.device_id (rebuilt c x) devices, fresh);
            }
      ]
