-- ===== src/Presence/Accepted.antt =====
-- crates/lattice-intelligence/src/presence.rs: what the loop of `from_checkpoint` accepts, it accepts again.
use mathlib.Core.List.{append_assoc, append-nil}
use neon_hearth.Prelude.{
  ℕ, ◌≤◌, ◌<◌, ◌≡◌, refl, sym, ◌∙◌, ap, inl, inr, List, [], ◌∷◌, ◌++◌, map, All, All-mono, none, ok,
  arith, Result-cases, Bool-cases,
}
use neon_hearth.External.{Crates, DeviceId, same_device}
use neon_hearth.Presence.Types.{
  PresenceConfig, PresenceTransition, DevicePresence, PresenceCheckpointDevice,
}
use neon_hearth.Presence.Devices.{get, insert}
use neon_hearth.Presence.Screening.{Seen}
use neon_hearth.Presence.Checkpoint.{restore_devices, screen, saved, rebuilt}
use neon_hearth.Presence.Restoring.{ok_injective, screen_accepts}
use neon_hearth.Presence.Resaving.{Unseen, Again, screen-Again}
use neon_hearth.Presence.Apart.{Pairwise, Apart, Fresh, Below, Fresh-behind, Fresh-before, All-both}

module _ (c : Crates) where
  abbrev pub entry : PresenceCheckpointDevice c → DeviceId c × DevicePresence c
  entry x = (x.device_id, rebuilt c x)

  insert_new :
      (id : DeviceId c) (d : DevicePresence c) (m : List (DeviceId c × DevicePresence c))
      → get c id m ≡ none
      → insert c id d m ≡ m ++ (id, d) ∷ []
  unfolding get insert
  insert_new id d [] gone = refl
  insert_new id d ((k, old) ∷ m) gone = elim (Bool-cases (same_device k id)) [
    | inl same ↦ ground (arith, gone, same)
    | inr other ↦
        rw (other, insert) (ap (λ z. (k, old) ∷ z) (insert_new id d m (simp (other, get) at gone)))
  ]

  -- What a restore that succeeds says of the devices of the checkpoint.
  pub record Accepted (cfg : PresenceConfig) (next : ℕ) (xs : List (PresenceCheckpointDevice c))
      (devices : List (DeviceId c × DevicePresence c)) (seen : Seen)
      (out : List (DeviceId c × DevicePresence c)) (max_id : ℕ) : Type 0 where
    pub each : All (Again c cfg next) xs
    pub apart : Pairwise (Apart c) xs
    pub fresh : All (Fresh c devices seen.ids) xs
    pub placed : out ≡ devices ++ map entry xs
    pub grows : seen.max_id ≤ max_id
    pub top : (n : ℕ) → max_id < n → All (Below c n) xs

  pub restore_devices-Accepted :
      (cfg : PresenceConfig) (next : ℕ) (xs : List (PresenceCheckpointDevice c))
      (devices out : List (DeviceId c × DevicePresence c)) (seen : Seen) (max_id : ℕ)
      → restore_devices c cfg next xs devices seen ≡ ok (out, max_id)
      → Accepted cfg next xs devices seen out max_id
  unfolding restore_devices
  restore_devices-Accepted cfg next [] devices out seen max_id h =
      let same = ok_injective c h in
      record {
        each = tt;
        apart = tt;
        fresh = tt;
        placed = sym (ap (λ p. p.0) same) ∙ sym (append-nil devices);
        grows = rw (sym (ap (λ p. p.1) same)) (omega arith);
        top = λ n low. tt;
      }
  restore_devices-Accepted cfg next (x ∷ xs) devices out seen max_id h =
      elim (Result-cases (screen c cfg next x devices seen)) [
        | inr (e, refused) ↦ ground (arith, h, refused)
        | inl (after, fine) ↦
            let (walk, again) = screen-Again c cfg next x devices seen after fine in
            let (gone, _) = screen_accepts c cfg next x devices seen after fine in
            let rest =
              restore_devices-Accepted cfg next xs (insert c x.device_id (rebuilt c x) devices) out
                after max_id (simp (fine, restore_devices) at h) in
            let before =
              All-mono (Fresh c (insert c x.device_id (rebuilt c x) devices) after.ids)
                (λ y. Apart c x y × Fresh c devices seen.ids y)
                (λ y. Fresh-before c x y devices seen.ids after.ids walk.adds) xs rest.fresh in
            record {
              each = (again, rest.each);
              apart = (All-mono _ (Apart c x) (λ y both. both.0) xs before, rest.apart);
              fresh = (
                (gone, walk.fresh),
                All-mono _ (Fresh c devices seen.ids) (λ y both. both.1) xs before,
              );
              placed =
                  rest.placed
                  ∙ (ap (λ m. m ++ map entry xs) (insert_new x.device_id (rebuilt c x) devices gone)
                      ∙ append_assoc devices (entry x ∷ []) (map entry xs));
              grows = omega (arith, walk.grows, rest.grows);
              top = λ n low. (
                All-mono _ _ (λ t le. omega (arith, le, low, rest.grows)) x.history walk.top,
                rest.top n low,
              );
            }
      ]

  pub restore-Again :
      (cfg : PresenceConfig) (next n : ℕ) (xs : List (PresenceCheckpointDevice c))
      (devices : List (DeviceId c × DevicePresence c)) (seen : Seen)
      → All (Again c cfg next) xs
      → Pairwise (Apart c) xs
      → All (Fresh c devices seen.ids) xs
      → All (Below c n) xs
      → seen.max_id < n
      → (out : List (DeviceId c × DevicePresence c)) × (max_id : ℕ) × (restore_devices c cfg next xs
            devices seen
          ≡ ok (out, max_id))
        × (max_id < n)
  unfolding restore_devices
  restore-Again cfg next n [] devices seen each apart fresh below low =
      (devices, seen.max_id, refl, low)
  restore-Again cfg next n (x ∷ xs) devices seen each apart fresh below low =
      let (after, fine, walk) = each.0 devices seen fresh.0.0 fresh.0.1 in
      let (out, max_id, done, small) =
        restore-Again cfg next n xs (insert c x.device_id (rebuilt c x) devices) after each.1
          apart.1
          (All-mono (λ y. Apart c x y × Fresh c devices seen.ids y) _
            (λ y both. Fresh-behind c x y devices seen.ids after.ids walk.adds both.0 both.1) xs
            (All-both (Apart c x) (Fresh c devices seen.ids) xs apart.0 fresh.1))
          below.1 (walk.least n low below.0) in
      (out, max_id, simp (fine, done, restore_devices), small)

  pub saved_entries : (xs : List (PresenceCheckpointDevice c)) → map (saved c) (map entry xs) ≡ xs
  saved_entries [] = refl
  saved_entries (x ∷ xs) = ap (λ ys. x ∷ ys) (saved_entries xs)

  Unseen-nil : (ts : List (PresenceTransition c)) → Unseen c [] ts
  Unseen-nil [] = tt
  Unseen-nil (t ∷ ts) = (refl, Unseen-nil ts)

  pub All-Fresh : (xs : List (PresenceCheckpointDevice c)) → All (Fresh c [] []) xs
  unfolding get
  All-Fresh [] = tt
  All-Fresh (x ∷ xs) = ((refl, Unseen-nil x.history), All-Fresh xs)
