-- ===== src/Presence/Apart.antt =====
-- crates/lattice-intelligence/src/presence.rs: devices of a checkpoint with numbers of their own, in any
-- order.
use neon_hearth.Prelude.{
  ℕ, suc, ◌≤◌, ◌<◌, ◌≡◌, refl, sym, ◌∙◌, ap, inl, inr, Bool, true, false, ◌||◌, List, [], ◌∷◌, ◌++◌,
  map, length, any, All, All-mono, Option, none, some, Result, ok, err, arith, ltb, leb, ◌==◌, not,
  Result-cases, Bool-cases, subst,
}
use neon_hearth.Prelude.Sorting.{sort_by, All-insert, All-sort_by, length-sort_by}
use neon_hearth.External.{Crates, DeviceId, same_device}
use neon_hearth.Presence.Types.{PresenceTransition, DevicePresence, PresenceCheckpointDevice}
use neon_hearth.Presence.Devices.{get, insert}
use neon_hearth.Presence.Maps.{get-insert, same_device-eq, same_device_refl}
use neon_hearth.Presence.Checkpoint.{rebuilt}
use neon_hearth.Presence.Resaving.{Unseen, has_number}

-- A relation between every two elements of a list.
abbrev pub Pairwise : {A : Type 0} → (A → A → Type 0) → List A → Type 0
Pairwise R [] = Unit
Pairwise R (x ∷ xs) = All (R x) xs × Pairwise R xs

module _ {A : Type 0} (R : A → A → Type 0) (symmetric : (a b : A) → R a b → R b a)
    (le : A → A → Bool) where
  Pairwise-insert :
      (x : A) (xs : List A)
      → All (R x) xs
      → Pairwise R xs
      → Pairwise R (neon_hearth.Prelude.Sorting.insert le x xs)
  unfolding neon_hearth.Prelude.Sorting.insert
  Pairwise-insert x [] own every = (tt, tt)
  Pairwise-insert x (y ∷ ys) own every = elim (Bool-cases (le x y)) [
    | inl e ↦ rw e (own, every)
    | inr e ↦
        rw e (
          All-insert (R y) le x ys (symmetric x y own.0) every.0,
          Pairwise-insert x ys own.1 every.1,
        )
  ]

  pub Pairwise-sort_by : (xs : List A) → Pairwise R xs → Pairwise R (sort_by le xs)
  unfolding sort_by
  Pairwise-sort_by [] every = tt
  Pairwise-sort_by (x ∷ xs) every =
      Pairwise-insert x (sort_by le xs) (All-sort_by (R x) le xs every.0)
        (Pairwise-sort_by xs every.1)

pub All-both :
    {A : Type 0} (P Q : A → Type 0) (xs : List A) → All P xs → All Q xs → All (λ x. P x × Q x) xs
All-both P Q [] p q = tt
All-both P Q (x ∷ xs) p q = ((p.0, q.0), All-both P Q xs p.1 q.1)

module _ (c : Crates) where
  -- Two devices without a common number.
  abbrev pub Apart : PresenceCheckpointDevice c → PresenceCheckpointDevice c → Type 0
  Apart x y =
      (same_device x.device_id y.device_id ≡ false)
      × All (λ u. has_number c x.history u.transition_id ≡ false) y.history

  -- A device that is new, with its numbers.
  abbrev pub Fresh :
      List (DeviceId c × DevicePresence c) → List ℕ → PresenceCheckpointDevice c → Type 0
  Fresh devices ids x = (get c x.device_id devices ≡ none) × Unseen c ids x.history

  abbrev pub Below : ℕ → PresenceCheckpointDevice c → Type 0
  Below n x = All (λ t. t.transition_id < n) x.history

  no_number :
      (i : ℕ) (ts : List (PresenceTransition c))
      → All (λ t. (t.transition_id == i) ≡ false) ts
      → has_number c ts i ≡ false
  no_number i [] every = refl
  no_number i (t ∷ ts) every = ground (arith, every.0, no_number i ts every.1)

  number_differs :
      (i : ℕ) (ts : List (PresenceTransition c))
      → has_number c ts i ≡ false
      → All (λ t. (t.transition_id == i) ≡ false) ts
  number_differs i [] h = tt
  number_differs i (t ∷ ts) h = (ground (arith, h), number_differs i ts (ground (arith, h)))

  swap_numbers :
      (ts us : List (PresenceTransition c))
      → All (λ u. has_number c ts u.transition_id ≡ false) us
      → All (λ t. has_number c us t.transition_id ≡ false) ts
  swap_numbers [] us every = tt
  swap_numbers (t ∷ ts) us every = (
    no_number t.transition_id us (All-mono _ _ (λ u h. ground (arith, h)) us every),
    swap_numbers ts us (All-mono _ _ (λ u h. ground (arith, h)) us every),
  )

  same_device_swap : (a b : DeviceId c) → same_device a b ≡ false → same_device b a ≡ false
  same_device_swap a b h = elim (Bool-cases (same_device b a)) [
    | inr other ↦ other
    | inl same ↦ absurd (
        cc (
          h,
          subst (λ z. same_device z b ≡ true) (same_device-eq c b a same) (same_device_refl c b),
        ))
  ]

  pub Apart-symmetric : (x y : PresenceCheckpointDevice c) → Apart x y → Apart y x
  Apart-symmetric x y (other, numbers) =
      (same_device_swap x.device_id y.device_id other, swap_numbers x.history y.history numbers)

  -- Behind a further device, those are new that were new before and are apart from it.
  pub Fresh-behind :
      (x y : PresenceCheckpointDevice c) (devices : List (DeviceId c × DevicePresence c))
      (ids after : List ℕ)
      → ((i : ℕ)
          → any (λ id. id == i) after ≡ (has_number c x.history i || any (λ id. id == i) ids))
      → Apart x y
      → Fresh devices ids y
      → Fresh (insert c x.device_id (rebuilt c x) devices) after y
  Fresh-behind x y devices ids after adds (other, numbers) (gone, unseen) = (
    simp (get-insert c x.device_id y.device_id (rebuilt c x) devices, other, gone),
    All-mono _ _ (λ t both. adds t.transition_id ∙ ground (arith, both.0, both.1)) y.history
        (All-both _ _ y.history numbers unseen),
  )

  pub Fresh-before :
      (x y : PresenceCheckpointDevice c) (devices : List (DeviceId c × DevicePresence c))
      (ids after : List ℕ)
      → ((i : ℕ)
          → any (λ id. id == i) after ≡ (has_number c x.history i || any (λ id. id == i) ids))
      → Fresh (insert c x.device_id (rebuilt c x) devices) after y
      → Apart x y × Fresh devices ids y
  Fresh-before x y devices ids after adds (gone, unseen) =
      let placed = get-insert c x.device_id y.device_id (rebuilt c x) devices in
      let split =
        All-mono _
          (λ t.
            (has_number c x.history t.transition_id ≡ false)
            × (any (λ id. id == t.transition_id) ids ≡ false))
          (λ t h.
            (ground (arith, adds t.transition_id, h), ground (arith, adds t.transition_id, h)))
          y.history unseen in
      (
        (ground (arith, placed, gone), All-mono _ _ (λ t both. both.0) y.history split),
        (ground (arith, placed, gone), All-mono _ _ (λ t both. both.1) y.history split),
      )
