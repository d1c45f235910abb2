-- ===== src/Presence/Roundtrip.antt =====
-- crates/lattice-intelligence/src/presence.rs: an engine that is saved and restored.
use neon_hearth.Prelude.{
  ◌≤◌, ◌≡◌, refl, sym, ap, ◌∙◌, inl, inr, true, false, List, [], ◌∷◌, map, length, any, All,
  All-mono, Option, none, some, ok, arith, Bool-cases, Option-cases, Result-cases, subst,
}
use neon_hearth.Prelude.Sorting.{All-sort_by, All-sort_by_back}
use neon_hearth.External.{Crates, DeviceId, same_device}
use neon_hearth.Presence.Types.{
  PresenceConfig, DevicePresence, PresenceEngine, PresenceCheckpoint, PresenceCheckpointDevice,
}
use neon_hearth.Presence.Config.{is_valid_config, has_zero_bound}
use neon_hearth.Presence.Devices.{get}
use neon_hearth.Presence.Maps.{same_device-eq}
use neon_hearth.Presence.Bounds.{Fits, IsBounded}
use neon_hearth.Presence.Checkpoint.{
  checkpoint, from_checkpoint, restore_devices, saved, rebuilt, device_le,
}
use neon_hearth.Presence.Restoring.{Restored, IsAccepted, IsTimed, restore_devices-Restored}

module _ (c : Crates) where
  -- What is behind an engine that `from_checkpoint` returns.
  record IsRestored (cfg : PresenceConfig) (cp : PresenceCheckpoint c) (engine : PresenceEngine c)
      : Type 0 where
    valid : is_valid_config cfg ≡ true
    room : length cp.devices ≤ cfg.max_devices
    restored : Restored c cfg cp.devices [] engine.devices
    configured : engine.cfg ≡ cfg
    sequence : engine.next_transition ≡ cp.next_transition

  from_checkpoint-IsRestored :
      (cfg : PresenceConfig) (cp : PresenceCheckpoint c) (engine : PresenceEngine c)
      → from_checkpoint c cfg cp ≡ ok engine
      → IsRestored cfg cp engine
  unfolding from_checkpoint
  from_checkpoint-IsRestored cfg cp engine h =
      elim (Result-cases (
        restore_devices c cfg cp.next_transition cp.devices [] (record { ids = []; max_id = 0 }))) [
          | inr (e, refused) ↦ ground (arith, h, refused)
          | inl ((out, max_id), done) ↦
              let made : engine
                  ≡ record { cfg = cfg; devices = out; next_transition = cp.next_transition } =
                ground (arith, h, done) in
              record {
                valid = ground (arith, h);
                room = ground (arith, h);
                restored = subst (Restored c cfg cp.devices []) (sym (ap (λ e. e.devices) made)) (
                    restore_devices-Restored c cfg cp.next_transition cp.devices [] out _ max_id
                      done);
                configured = ap (λ e. e.cfg) made;
                sequence = ap (λ e. e.next_transition) made;
              }
        ]

  -- What holds of every entry of the map holds of what a device has in it.
  get_All :
      (Q : DeviceId c → DevicePresence c → Type 0) (id : DeviceId c) (d : DevicePresence c)
      (m : List (DeviceId c × DevicePresence c))
      → All (λ entry. Q entry.0 entry.1) m
      → get c id m ≡ some d
      → Q id d
  unfolding get
  get_All Q id d [] every there = ground (arith, there)
  get_All Q id d ((k, x) ∷ m) every there = elim (Bool-cases (same_device k id)) [
    | inl same ↦
        let found : ◌≡◌ {A = Option (DevicePresence c)} (some x) (some d) =
          ground (arith, same, there) in
        subst (λ j. Q j d) (same_device-eq c k id same) (subst (Q k) (cc found) every.0)
    | inr other ↦ get_All Q id d m every.1 (simp (other, get) at there)
  ]

  get-none :
      (id : DeviceId c) (m : List (DeviceId c × DevicePresence c))
      → get c id m ≡ none
      → All (λ entry. same_device entry.0 id ≡ false) m
  unfolding get
  get-none id [] gone = tt
  get-none id ((k, x) ∷ m) gone = elim (Bool-cases (same_device k id)) [
    | inl same ↦ ground (arith, same, gone)
    | inr other ↦ (other, get-none id m (simp (other, get) at gone))
  ]

  saved-All :
      (P : PresenceCheckpointDevice c → Type 0) (m : List (DeviceId c × DevicePresence c))
      → All (λ entry. P (saved c entry)) m
      → All P (map (saved c) m)
  saved-All P [] every = tt
  saved-All P (entry ∷ m) every = (every.0, saved-All P m every.1)

  saved-All_back :
      (P : PresenceCheckpointDevice c → Type 0) (m : List (DeviceId c × DevicePresence c))
      → All P (map (saved c) m)
      → All (λ entry. P (saved c entry)) m
  saved-All_back P [] every = tt
  saved-All_back P (entry ∷ m) every = (every.0, saved-All_back P m every.1)

  checkpoint-All_back :
      (P : PresenceCheckpointDevice c → Type 0) (engine : PresenceEngine c)
      → All P (checkpoint c engine).devices
      → All (λ entry. P (saved c entry)) engine.devices
  unfolding checkpoint
  checkpoint-All_back P engine every =
      saved-All_back P engine.devices
        (All-sort_by_back P (device_le c) (map (saved c) engine.devices) every)

  checkpoint-All :
      (P : PresenceCheckpointDevice c → Type 0) (engine : PresenceEngine c)
      → All (λ entry. P (saved c entry)) engine.devices
      → All P (checkpoint c engine).devices
  unfolding checkpoint
  checkpoint-All P engine every =
      All-sort_by P (device_le c) (map (saved c) engine.devices) (saved-All P engine.devices every)

  checkpoint_sequence :
      (engine : PresenceEngine c) → (checkpoint c engine).next_transition ≡ engine.next_transition
  unfolding checkpoint
  checkpoint_sequence engine = refl

  get_nil : (id : DeviceId c) → get c id [] ≡ none
  unfolding get
  get_nil id = refl

  -- An engine that is restored from its own checkpoint is as it was: it has the sequence, and for
  -- every device the presence or the absence.
  pub from_checkpoint-checkpoint :
      (cfg : PresenceConfig) (engine new : PresenceEngine c) (id : DeviceId c)
      → from_checkpoint c cfg (checkpoint c engine) ≡ ok new
      → (new.cfg ≡ cfg)
        × (new.next_transition ≡ engine.next_transition)
        × (get c id new.devices ≡ get c id engine.devices)
  from_checkpoint-checkpoint cfg engine new id h =
      let r = from_checkpoint-IsRestored cfg (checkpoint c engine) new h in
      (
        r.configured,
        r.sequence ∙ checkpoint_sequence engine,
        elim (Option-cases (get c id engine.devices)) [
          | inl gone ↦
              r.restored.absent id (get_nil id) (
                checkpoint-All (λ x. same_device x.device_id id ≡ false) engine
                  (get-none id engine.devices gone))
              ∙ sym gone
          | inr (d, there) ↦
              get_All (λ k x. get c k new.devices ≡ some x) id d engine.devices
                (checkpoint-All_back (λ x. get c x.device_id new.devices ≡ some (rebuilt c x))
                  engine r.restored.placed)
                there
              ∙ sym there
        ],
      )

  -- An engine that can be restored from its checkpoint has no transition that the timer triggered.
  pub checkpoint-IsTimed :
      (cfg : PresenceConfig) (engine new : PresenceEngine c) (id : DeviceId c)
      (d : DevicePresence c)
      → from_checkpoint c cfg (checkpoint c engine) ≡ ok new
      → get c id engine.devices ≡ some d
      → All (IsTimed c) d.history
  checkpoint-IsTimed cfg engine new id d h there =
      let r = from_checkpoint-IsRestored cfg (checkpoint c engine) new h in
      get_All (λ k x. All (IsTimed c) x.history) id d engine.devices
        (checkpoint-All_back (λ x. All (IsTimed c) x.history) engine
          (All-mono (IsAccepted c cfg) (λ x. All (IsTimed c) x.history)
            (λ x accepted. accepted.timed) (checkpoint c engine).devices r.restored.accepted))
        there

  -- A device that is restored is one of the checkpoint's.
  restored_entry :
      {P : PresenceCheckpointDevice c → Type 0} (id : DeviceId c)
      (xs : List (PresenceCheckpointDevice c))
      → All P xs
      → any (λ x. same_device x.device_id id) xs ≡ true
      → (x : PresenceCheckpointDevice c) × P x × (x.device_id ≡ id)
  restored_entry id [] every h = ground (arith, h)
  restored_entry id (x ∷ xs) every h = elim (Bool-cases (same_device x.device_id id)) [
    | inl same ↦ (x, every.0, same_device-eq c x.device_id id same)
    | inr other ↦ restored_entry id xs every.1 (simp other at h)
  ]

  no_entry :
      (id : DeviceId c) (xs : List (PresenceCheckpointDevice c))
      → any (λ x. same_device x.device_id id) xs ≡ false
      → All (λ x. same_device x.device_id id ≡ false) xs
  no_entry id [] h = tt
  no_entry id (x ∷ xs) h = (ground (arith, h), no_entry id xs (ground (arith, h)))

  All-both :
      (P Q : PresenceCheckpointDevice c → Type 0) (xs : List (PresenceCheckpointDevice c))
      → All P xs
      → All Q xs
      → All (λ x. P x × Q x) xs
  All-both P Q [] p q = tt
  All-both P Q (x ∷ xs) p q = ((p.0, q.0), All-both P Q xs p.1 q.1)

  some_injective :
      {x y : DevicePresence c} → ◌≡◌ {A = Option (DevicePresence c)} (some x) (some y) → x ≡ y
  some_injective h = cc h

  -- An engine that is restored from any checkpoint is within its bounds.
  pub from_checkpoint-IsBounded :
      (cfg : PresenceConfig) (cp : PresenceCheckpoint c) (engine : PresenceEngine c)
      → from_checkpoint c cfg cp ≡ ok engine
      → IsBounded c engine
  unfolding is_valid_config has_zero_bound
  from_checkpoint-IsBounded cfg cp engine h =
      let r = from_checkpoint-IsRestored cfg cp engine h in
      subst
        (λ k.
          IsBounded c (record {
            cfg = k;
            devices = engine.devices;
            next_transition = engine.next_transition;
          }))
        (sym r.configured)
        (record {
          devices = omega (arith, r.restored.counted, r.room);
          each = λ id d there.
              elim (Bool-cases (any (λ x. same_device x.device_id id) cp.devices)) [
                | inr absent ↦ ground (
                  arith,
                  r.restored.absent id (get_nil id) (no_entry id cp.devices absent),
                  there,
                )
                | inl present ↦
                    let (x, (accepted, placed), own) =
                      restored_entry id cp.devices
                        (All-both (IsAccepted c cfg)
                          (λ x. get c x.device_id engine.devices ≡ some (rebuilt c x)) cp.devices
                          r.restored.accepted r.restored.placed)
                        present in
                    let found : ◌≡◌ {A = Option (DevicePresence c)} (some (rebuilt c x)) (some d) =
                      sym placed ∙ (ap (λ k. get c k engine.devices) own ∙ there) in
                    subst (Fits c cfg) (some_injective found)
                      (record { history = accepted.history; evidence = accepted.evidence })
              ];
          history_room = ground (arith, r.valid);
          evidence_room = ground (arith, r.valid);
        })
