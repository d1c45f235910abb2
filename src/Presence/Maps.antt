-- ===== src/Presence/Maps.antt =====
-- crates/lattice-intelligence/src/presence.rs: the laws of the map of devices.
use neon_hearth.Prelude.{
  suc, ◌≡◌, refl, inl, inr, true, List, [], ◌∷◌, length, some, arith, if◌then◌else◌, Bool-cases,
  is_some,
}
use neon_hearth.External.{Crates, DeviceId, same_device}
use neon_hearth.Presence.Types.{DevicePresence}
use neon_hearth.Presence.Devices.{get, insert}

module _ (c : Crates) where
  open c use {uuid_eq, uuid_eq_iff}

  pub same_device-eq : (a b : DeviceId c) → same_device a b ≡ true → a ≡ b
  same_device-eq a b h = cc ((uuid_eq_iff a.uuid b.uuid).0 h)

  pub same_device_refl : (a : DeviceId c) → same_device a a ≡ true
  same_device_refl a = (uuid_eq_iff a.uuid a.uuid).1 refl

  pub get-insert :
      (k j : DeviceId c) (d : DevicePresence c) (m : List (DeviceId c × DevicePresence c))
      → get c j (insert c k d m) ≡ (if same_device k j then some d else get c j m)
  unfolding get insert
  get-insert k j d [] = refl
  get-insert k j d ((i, old) ∷ m) = elim (Bool-cases (same_device i k)) [
    | inl e ↦ ground (arith, e, same_device-eq i k e, get-insert k j d m)
    | inr e ↦ ground (arith, e, same_device-eq i j, same_device-eq k j, get-insert k j d m)
  ]

  pub length-insert :
      (k : DeviceId c) (d : DevicePresence c) (m : List (DeviceId c × DevicePresence c))
      → length (insert c k d m) ≡ (if is_some (get c k m) then length m else suc (length m))
  unfolding get insert
  length-insert k d [] = refl
  length-insert k d ((i, old) ∷ m) = ground (arith, length-insert k d m)
