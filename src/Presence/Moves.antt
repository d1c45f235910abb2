-- ===== src/Presence/Moves.antt =====
-- crates/lattice-intelligence/src/presence.rs: what one operation does to the histories of all
-- devices and to the sequence of transitions.
use neon_hearth.Prelude.{
  ℕ, suc, ◌+◌, ◌≤◌, ◌≡◌, refl, sym, ◌∙◌, inl, inr, List, [], ◌∷◌, ◌++◌, length, length-append,
  retain, some, arith, Bool-cases, u64_max, subst,
}
use neon_hearth.External.{Crates, DeviceId, same_device}
use neon_hearth.Presence.Types.{PresenceTransition, DevicePresence, PresenceEngine}
use neon_hearth.Presence.Devices.{get, insert}
use neon_hearth.Presence.Maps.{get-insert, same_device_refl, same_device-eq}
use neon_hearth.Presence.Retention.{Advance, Advance-still, Advance-trans}

module _ {c : Crates} where
  -- Transitions numbered without a gap.
  abbrev pub Numbered : ℕ → List (PresenceTransition c) → Type 0
  Numbered n [] = Unit
  Numbered n (t ∷ ts) = (t.transition_id ≡ n) × Numbered (suc n) ts

  pub Numbered-append :
      (n : ℕ) (xs ys : List (PresenceTransition c))
      → Numbered n xs
      → Numbered (n + length xs) ys
      → Numbered n (xs ++ ys)
  Numbered-append n [] ys hx hy = subst (λ k. Numbered k ys) (omega arith) hy
  Numbered-append n (x ∷ xs) ys hx hy =
      (hx.0, Numbered-append (suc n) xs ys hx.1 (subst (λ k. Numbered k ys) (omega arith) hy))

  -- The transitions of one device.
  abbrev pub own : DeviceId c → List (PresenceTransition c) → List (PresenceTransition c)
  own id = retain (λ t. same_device t.device_id id)

  pub own-append :
      (id : DeviceId c) (xs ys : List (PresenceTransition c))
      → own id (xs ++ ys) ≡ own id xs ++ own id ys
  own-append id [] ys = refl
  own-append id (x ∷ xs) ys = ground (arith, own-append id xs ys)

  -- An operation makes some transitions: each device's history takes its own of them, and the
  -- sequence counts them all.
  pub record Moves (made : List (PresenceTransition c)) (old new : PresenceEngine c) : Type 0 where
    pub advances :
        (id : DeviceId c) → Advance (own id made) (get c id old.devices) (get c id new.devices)
    pub numbered : Numbered old.next_transition made
    pub counted : new.next_transition ≡ old.next_transition + length made
    pub same_config : new.cfg ≡ old.cfg
    pub in_range : old.next_transition ≤ u64_max → new.next_transition ≤ u64_max

  pub Moves-trans :
      {xs ys : List (PresenceTransition c)} {a b d : PresenceEngine c}
      → Moves xs a b
      → Moves ys b d
      → Moves (xs ++ ys) a d
  Moves-trans {xs} {ys} {a} {b} {d} p q = record {
    advances = λ id.
        subst (λ m. Advance m (get c id a.devices) (get c id d.devices)) (sym (own-append id xs ys))
          (Advance-trans (p.advances id) (q.advances id));
    numbered =
        Numbered-append a.next_transition xs ys p.numbered
          (subst (λ k. Numbered k ys) p.counted q.numbered);
    counted = omega (arith, p.counted, q.counted, length-append xs ys);
    same_config = q.same_config ∙ p.same_config;
    in_range = λ h. q.in_range (p.in_range h);
  }

  pub Moves-refl : (engine : PresenceEngine c) → Moves [] engine engine
  Moves-refl engine = record {
    advances = λ id. Advance-still (get c id engine.devices) (get c id engine.devices) refl refl;
    numbered = tt;
    counted = omega arith;
    same_config = refl;
    in_range = λ h. h;
  }

  -- An operation that leaves one device's history alone makes no transition.
  pub Moves-update :
      (id : DeviceId c) (d : DevicePresence c) (engine : PresenceEngine c)
      → Advance [] (get c id engine.devices) (some d)
      → Moves [] engine (record engine { devices = insert c id d engine.devices })
  Moves-update id d engine still = record {
    advances = λ j. elim (Bool-cases (same_device id j)) [
      | inl e ↦
          subst (λ k. Advance [] (get c k engine.devices) (get c k (insert c id d engine.devices)))
            (same_device-eq c id j e)
            (rw (get-insert c id id d engine.devices, same_device_refl c id) still)
      | inr e ↦
          rw (get-insert c id j d engine.devices, e)
            (Advance-still (get c j engine.devices) (get c j engine.devices) refl refl)
    ];
    numbered = tt;
    counted = omega arith;
    same_config = refl;
    in_range = λ h. h;
  }
