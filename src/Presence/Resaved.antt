-- ===== src/Presence/Resaved.antt =====
-- crates/lattice-intelligence/src/presence.rs: an engine that was restored is saved and restored again.
use neon_hearth.Prelude.{
  ℕ, ◌<◌, ◌≡◌, sym, ◌∙◌, ap, inl, inr, true, false, [], map, length, ok, arith, ltb, leb, ◌==◌,
  Result-cases, subst,
}
use neon_hearth.Prelude.Sorting.{sort_by, All-sort_by, length-sort_by}
use neon_hearth.External.{Crates, DeviceId}
use neon_hearth.Presence.Types.{PresenceConfig, PresenceEngine, PresenceCheckpoint}
use neon_hearth.Presence.Config.{is_valid_config}
use neon_hearth.Presence.Devices.{get}
use neon_hearth.Presence.Screening.{Seen}
use neon_hearth.Presence.Checkpoint.{checkpoint, from_checkpoint, restore_devices, saved, device_le}
use neon_hearth.Presence.Resaving.{Again}
use neon_hearth.Presence.Apart.{Apart, Below, Pairwise-sort_by, Apart-symmetric}
use neon_hearth.Presence.Roundtrip.{from_checkpoint-checkpoint}
use neon_hearth.Presence.Accepted.{
  Accepted, restore_devices-Accepted, restore-Again, saved_entries, All-Fresh,
}

module _ (c : Crates) where
  abbrev none_seen : Seen
  none_seen = record { ids = []; max_id = 0 }

  -- What is behind an engine that `from_checkpoint` returns.
  record Opened (cfg : PresenceConfig) (cp : PresenceCheckpoint c) (engine : PresenceEngine c)
      : Type 0 where
    valid : is_valid_config cfg ≡ true
    counted : (cp.next_transition == 0) ≡ false
    room : ltb cfg.max_devices (length cp.devices) ≡ false
    max_id : ℕ
    accepted : Accepted c cfg cp.next_transition cp.devices [] none_seen engine.devices max_id
    behind : max_id < cp.next_transition
    configured : engine.cfg ≡ cfg
    sequence : engine.next_transition ≡ cp.next_transition

  from_checkpoint-Opened :
      (cfg : PresenceConfig) (cp : PresenceCheckpoint c) (engine : PresenceEngine c)
      → from_checkpoint c cfg cp ≡ ok engine
      → Opened cfg cp engine
  unfolding from_checkpoint
  from_checkpoint-Opened cfg cp engine h =
      elim (Result-cases (restore_devices c cfg cp.next_transition cp.devices [] none_seen)) [
        | inr (e, refused) ↦ ground (arith, h, refused)
        | inl ((out, max_id), done) ↦
            let made : engine
                ≡ record { cfg = cfg; devices = out; next_transition = cp.next_transition } =
              ground (arith, h, done) in
            record {
              valid = ground (arith, h);
              counted = ground (arith, h);
              room = ground (arith, h);
              max_id = max_id;
              accepted =
                  subst (λ m. Accepted c cfg cp.next_transition cp.devices [] none_seen m max_id)
                    (sym (ap (λ e. e.devices) made))
                    (restore_devices-Accepted c cfg cp.next_transition cp.devices [] out none_seen
                      max_id done);
              behind = ground (arith, h, done);
              configured = ap (λ e. e.cfg) made;
              sequence = ap (λ e. e.next_transition) made;
            }
      ]

  -- The checkpoint of a restored engine has the devices that it was restored from, sorted.
  checkpoint-devices :
      (cfg : PresenceConfig) (cp : PresenceCheckpoint c) (engine : PresenceEngine c)
      → Opened cfg cp engine
      → checkpoint c engine ≡ record {
        version = 1;
        devices = sort_by (device_le c) cp.devices;
        next_transition = cp.next_transition;
      }
  unfolding checkpoint
  checkpoint-devices cfg cp engine o =
      let same : map (saved c) engine.devices ≡ cp.devices =
        ap (map (saved c)) o.accepted.placed ∙ saved_entries c cp.devices in
      cc (same, o.sequence)

  restore_sorted :
      (cfg : PresenceConfig) (cp : PresenceCheckpoint c) (engine : PresenceEngine c)
      → Opened cfg cp engine
      → (new : PresenceEngine c) × (from_checkpoint c cfg (record {
        version = 1;
        devices = sort_by (device_le c) cp.devices;
        next_transition = cp.next_transition;
      })
          ≡ ok new)
  unfolding from_checkpoint
  restore_sorted cfg cp engine o =
      let next = cp.next_transition in
      let xs = sort_by (device_le c) cp.devices in
      let (out, max_id, done, small) =
        restore-Again c cfg next next xs [] none_seen
          (All-sort_by (Again c cfg next) (device_le c) cp.devices o.accepted.each)
          (Pairwise-sort_by (Apart c) (Apart-symmetric c) (device_le c) cp.devices o.accepted.apart)
          (All-Fresh c xs)
          (All-sort_by (Below c next) (device_le c) cp.devices (o.accepted.top next o.behind))
          (ground (arith, o.counted)) in
      let room : ltb cfg.max_devices (length xs) ≡ false =
        ground (arith, length-sort_by (device_le c) cp.devices, o.room) in
      let behind : leb next max_id ≡ false = ground (arith, small) in
      (
        record { cfg = cfg; devices = out; next_transition = next },
        simp (o.valid, o.counted, room, done, behind, from_checkpoint),
      )

  -- An engine that was restored, from whatever checkpoint, can be saved and restored again: neither
  -- fails, and the new engine is as the old one, with its configuration, its sequence and for every
  -- device the presence or the absence.
  pub restored_again :
      (cfg : PresenceConfig) (cp : PresenceCheckpoint c) (engine : PresenceEngine c)
      (id : DeviceId c)
      → from_checkpoint c cfg cp ≡ ok engine
      → (new : PresenceEngine c) × (from_checkpoint c cfg (checkpoint c engine) ≡ ok new)
        × (new.cfg ≡ engine.cfg)
        × (new.next_transition ≡ engine.next_transition)
        × (get c id new.devices ≡ get c id engine.devices)
  restored_again cfg cp engine id h =
      let o = from_checkpoint-Opened cfg cp engine h in
      let (new, done) = restore_sorted cfg cp engine o in
      let again = ap (from_checkpoint c cfg) (checkpoint-devices cfg cp engine o) ∙ done in
      let same = from_checkpoint-checkpoint c cfg engine new id again in
      (new, again, same.0 ∙ sym o.configured, same.1, same.2)
