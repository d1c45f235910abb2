-- ===== src/EventBus/Replay.antt =====
-- crates/lattice-event-bus/src/lib.rs: what a client that resumes gets to see.
use neon_hearth.Prelude.{
  ℕ, suc, ◌+◌, ◌≤◌, ◌<◌, min, ◌≡◌, refl, ap, inl, inr, List, [], ◌∷◌, ◌++◌, length, retain, ltb,
  arith, u64_max, Bool-cases,
}
use neon_hearth.External.{Crates}
use neon_hearth.EventBus.{EventEnvelope, EventBus, trim}

module _ {c : Crates} {P : Type 0} where
  -- Events with consecutive numbers from `n`.
  abbrev pub Numbered : ℕ → List (EventEnvelope c P) → Type 0
  Numbered n [] = Unit
  Numbered n (e ∷ es) = (e.sequence ≡ n) × Numbered (suc n) es

  -- The events behind a number.
  abbrev pub since : ℕ → List (EventEnvelope c P) → List (EventEnvelope c P)
  since n = retain (λ e. ltb n e.sequence)

  -- The bus keeps the last of the events it has sent, up to its capacity, and all are numbered from
  -- 1 without a gap.
  pub record IsConsistent (bus : EventBus c P) : Type 0 where
    pub dropped : List (EventEnvelope c P)
    pub split : bus.sent ≡ dropped ++ bus.replay
    pub numbered : Numbered 1 bus.sent
    pub next : bus.next_sequence ≡ suc (length bus.sent)
    pub in_range : bus.next_sequence ≤ u64_max
    pub kept : length bus.replay ≡ min bus.replay_capacity (length bus.sent)
    pub room : 0 < bus.replay_capacity

  pub Numbered-append :
      (n : ℕ) (xs : List (EventEnvelope c P)) (y : EventEnvelope c P)
      → Numbered n xs
      → y.sequence ≡ n + length xs
      → Numbered n (xs ++ y ∷ [])
  Numbered-append n [] y hx hy = (omega arith, tt)
  Numbered-append n (x ∷ xs) y hx hy = (hx.0, Numbered-append (suc n) xs y hx.1 (omega arith))

  -- The first event behind others.
  pub Numbered-head :
      (n : ℕ) (xs : List (EventEnvelope c P)) (y : EventEnvelope c P)
      (ys : List (EventEnvelope c P))
      → Numbered n (xs ++ y ∷ ys)
      → y.sequence ≡ n + length xs
  Numbered-head n [] y ys h = omega (arith, h.0)
  Numbered-head n (x ∷ xs) y ys h = omega (arith, Numbered-head (suc n) xs y ys h.1)

  -- Events up to a number do not lie behind it.
  pub since-append :
      (n k : ℕ) (xs ys : List (EventEnvelope c P))
      → Numbered k (xs ++ ys)
      → k + length xs ≤ suc n
      → since n (xs ++ ys) ≡ since n ys
  since-append n k [] ys h le = refl
  since-append n k (x ∷ xs) ys h le = ground (arith, since-append n (suc k) xs ys h.1 (omega arith))

  pub since_none :
      (n k : ℕ) (xs : List (EventEnvelope c P))
      → Numbered k xs
      → k + length xs ≤ suc n
      → since n xs ≡ []
  since_none n k [] h le = refl
  since_none n k (x ∷ xs) h le = ground (arith, since_none n (suc k) xs h.1 (omega arith))

  abbrev pub Trimmed : ℕ → List (EventEnvelope c P) → List (EventEnvelope c P) → Type 0
  Trimmed capacity xs rest =
      (old : List (EventEnvelope c P)) × (xs ≡ old ++ rest)
      × (length rest ≡ min capacity (length xs))

  pub trim_keeps :
      (capacity : ℕ) (xs : List (EventEnvelope c P)) → Trimmed capacity xs (trim capacity xs)
  unfolding trim
  trim_keeps capacity [] = ([], refl, ground arith)
  trim_keeps capacity (x ∷ xs) =
      let (old, same, len) = trim_keeps capacity xs in
      elim (Bool-cases (ltb capacity (length (x ∷ xs)))) [
        | inl e ↦ rw e (x ∷ old, ap (λ r. x ∷ r) same, ground arith)
        | inr e ↦ rw e ([], refl, ground arith)
      ]
