-- ===== src/Presence/Bounds.antt =====
-- crates/lattice-intelligence/src/presence.rs: the engine's bounds on devices, evidence and history.
use neon_hearth.Prelude.{
  ℕ, ◌≤◌, ◌<◌, ◌≡◌, ◌⊎◌, refl, sym, ◌∙◌, inl, inr, true, [], ◌∷◌, length, Option, none, some,
  Result, ok, err, arith, Bool-cases, Option-cases, is_some, checked_add_u64, subst,
}
use neon_hearth.External.{Crates, DeviceId, same_device}
use neon_hearth.Presence.Types.{
  PresenceState, PresenceConfig, PresenceEvidence, PresenceTransition, DevicePresence,
  PresenceEngine, PresenceError, same_state,
}
use neon_hearth.Presence.Candidates.{gated}
use neon_hearth.Presence.Devices.{get, insert}
use neon_hearth.Presence.Histories.{make_transition, take_transition, push_history}
use neon_hearth.Presence.Engine.{recompute}
use neon_hearth.Presence.Maps.{get-insert, length-insert, same_device_refl}
use neon_hearth.Presence.Taken.{next_made}
use neon_hearth.Presence.Retention.{push_history_bound}

module _ (c : Crates) where
  open c use {DateTime}

  -- A device within the bounds of a configuration.
  pub record Fits (cfg : PresenceConfig) (d : DevicePresence c) : Type 0 where
    pub history : length d.history ≤ cfg.max_history_per_device
    pub evidence : length d.evidence ≤ cfg.max_evidence_per_device

  -- An engine within its bounds.
  pub record IsBounded (engine : PresenceEngine c) : Type 0 where
    pub devices : length engine.devices ≤ engine.cfg.max_devices
    pub each :
        (id : DeviceId c) (d : DevicePresence c)
        → get c id engine.devices ≡ some d
        → Fits engine.cfg d
    pub history_room : 0 < engine.cfg.max_history_per_device
    pub evidence_room : 0 < engine.cfg.max_evidence_per_device

  -- A device that fits can be put where one is, or where there is room.
  pub IsBounded-update :
      (engine : PresenceEngine c) (id : DeviceId c) (d : DevicePresence c) (next : ℕ)
      → IsBounded engine
      → Fits engine.cfg d
      → (is_some (get c id engine.devices) ≡ true)
        ⊎ (length engine.devices < engine.cfg.max_devices)
      → IsBounded (record engine { devices = insert c id d engine.devices; next_transition = next })
  IsBounded-update engine id d next b fits place = record {
    devices = ground (arith, length-insert c id d engine.devices, b.devices, place);
    each = λ j x there. elim (Bool-cases (same_device id j)) [
      | inl mine ↦
          let put : get c j (insert c id d engine.devices) ≡ some d =
            simp (get-insert c id j d engine.devices, mine) in
          subst (Fits engine.cfg) (some_injective d x (sym put ∙ there)) fits
      | inr other ↦
          let kept : get c j (insert c id d engine.devices) ≡ get c j engine.devices =
            simp (get-insert c id j d engine.devices, other) in
          b.each j x (sym kept ∙ there)
    ];
    history_room = b.history_room;
    evidence_room = b.evidence_room;
  }
    where
      some_injective :
          (x y : DevicePresence c) → ◌≡◌ {A = Option (DevicePresence c)} (some x) (some y) → x ≡ y
      some_injective x y h = cc h

  push_history_keeps :
      (t : PresenceTransition c) (max : ℕ) (d : DevicePresence c)
      → (push_history c t max d).evidence ≡ d.evidence
  unfolding push_history
  push_history_keeps t max d = refl

  -- What a call leaves behind: an engine within its bounds, of one configuration, that has a device.
  pub record Leaves {A : Type 0} (cfg : PresenceConfig) (id : DeviceId c)
      (r : Result A PresenceError × PresenceEngine c) : Type 0 where
    pub bounded : IsBounded r.1
    pub present : is_some (get c id r.1.devices) ≡ true
    pub configured : r.1.cfg ≡ cfg

  pub Leaves-equal :
      {A : Type 0} {cfg : PresenceConfig} {id : DeviceId c}
      (r s : Result A PresenceError × PresenceEngine c)
      → r ≡ s
      → Leaves cfg id s
      → Leaves cfg id r
  Leaves-equal {A} {cfg} {id} r s h left = subst (Leaves {A = A} cfg id) (sym h) left

  pub take_transition-Leaves :
      (id : DeviceId c) (d : DevicePresence c) (from to : PresenceState) (e : PresenceEvidence c)
      (at : DateTime) (correction : Option ℕ) (engine : PresenceEngine c)
      → IsBounded engine
      → length d.evidence ≤ engine.cfg.max_evidence_per_device
      → is_some (get c id engine.devices) ≡ true
      → Leaves engine.cfg id (take_transition c id d from to e at correction engine)
  unfolding take_transition make_transition
  take_transition-Leaves id d from to e at correction engine b fits there =
      elim (Option-cases (checked_add_u64 engine.next_transition 1)) [
        | inl full ↦
            Leaves-equal _ (err PresenceError.sequence_exhausted, engine)
              (simp (full, take_transition, make_transition))
              (record { bounded = b; present = there; configured = refl })
        | inr (next, room) ↦
            let t = next_made c id from to e at correction engine.next_transition in
            let max = engine.cfg.max_history_per_device in
            let kept = push_history c t max d in
            Leaves-equal _
              (
                ok t,
                record engine { devices = insert c id kept engine.devices; next_transition = next },
              )
              (simp (room, take_transition, make_transition))
              (record {
                bounded =
                    IsBounded-update engine id kept next b
                      (record {
                        history = push_history_bound c t max d b.history_room;
                        evidence = rw (push_history_keeps t max d) fits;
                      })
                      (inl there);
                present = simp (get-insert c id id kept engine.devices, same_device_refl c id);
                configured = refl;
              })
      ]

  -- An answer made of another.
  pub answered-Leaves :
      {A B : Type 0} {cfg : PresenceConfig} {id : DeviceId c}
      (r : Result A PresenceError × PresenceEngine c) (f : A → B)
      → Leaves cfg id r
      → Leaves {A = B} cfg id (elim r.0 [ err x ↦ (err x, r.1) | ok t ↦ (ok (f t), r.1) ])
  answered-Leaves (err x, new) f left = record {
    bounded = left.bounded;
    present = left.present;
    configured = left.configured;
  }
  answered-Leaves (ok t, new) f left = record {
    bounded = left.bounded;
    present = left.present;
    configured = left.configured;
  }

  pub recompute-Leaves :
      (id : DeviceId c) (at : DateTime) (source : PresenceEvidence c) (engine : PresenceEngine c)
      → IsBounded engine
      → is_some (get c id engine.devices) ≡ true
      → Leaves engine.cfg id (recompute c id at source engine)
  unfolding recompute
  recompute-Leaves id at source engine b there = elim (Option-cases (get c id engine.devices)) [
    | inl no_device ↦ ground (arith, there, no_device)
    | inr (d, found) ↦
        let called : DevicePresence c = record d { state = gated c d at engine.cfg } in
        elim (Bool-cases (same_state (gated c d at engine.cfg) d.state)) [
          | inl same ↦
              Leaves-equal _ (ok [], engine) (simp (found, same, recompute))
                (record { bounded = b; present = there; configured = refl })
          | inr moved ↦
              let taken =
                take_transition c id called d.state (gated c d at engine.cfg) source at none
                  engine in
              let left =
                take_transition-Leaves id called d.state (gated c d at engine.cfg) source at none
                  engine b (b.each id d found).evidence there in
              Leaves-equal _
                (elim taken.0 [ err x ↦ (err x, taken.1) | ok t ↦ (ok (t ∷ []), taken.1) ])
                (simp (found, moved, recompute)) (answered-Leaves taken (λ t. t ∷ []) left)
        ]
  ]
