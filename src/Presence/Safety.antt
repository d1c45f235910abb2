-- ===== src/Presence/Safety.antt =====
-- crates/lattice-intelligence/src/presence.rs: what has to be known of a device before its state is taken
-- to be offline or present.
use mathlib.Core.List.{Mem}
use neon_hearth.Prelude.{
  ℕ, ◌≤◌, ◌≡◌, ◌⊎◌, inl, inr, Bool, true, false, ◌&&◌, List, [], ◌∷◌, any, All, All-mono, Option,
  none, arith, Bool-cases, ltb, is_none_or, subst, if◌then◌else◌,
}
use neon_hearth.Prelude.Int.{leb_ℤ}
use neon_hearth.External.{Crates, before, not_after}
use neon_hearth.Presence.Types.{
  PresenceState, PresenceConfig, PresenceEvidenceKind, PresenceEvidence, DevicePresence,
  same_evidence_kind,
}
use neon_hearth.Presence.Evidence.{age_at, confirmations, is_real_positive, support_at}
use neon_hearth.Presence.Candidates.{
  candidate, gated, is_present, is_absent, is_validity_kind, has_traffic, has_support,
  departure_failures, end_of_support, support_end,
}
use neon_hearth.Presence.Distinct.{Pieces, retain-taken, distinct_count-Pieces, latest_of}

-- The kinds of evidence that confirm the presence of a device.
abbrev pub confirming_kinds : List PresenceEvidenceKind
confirming_kinds =
    PresenceEvidenceKind.traffic ∷ PresenceEvidenceKind.lease
    ∷ PresenceEvidenceKind.router_association ∷ PresenceEvidenceKind.neighbor_cache ∷ []

confirming :
    (kind : PresenceEvidenceKind)
    → is_real_positive kind ≡ true
    → any (same_evidence_kind kind) confirming_kinds ≡ true
unfolding is_real_positive
confirming kind h = ground arith

is_failure :
    (kind : PresenceEvidenceKind)
    → same_evidence_kind kind PresenceEvidenceKind.confirmation_failure ≡ true
    → kind ≡ PresenceEvidenceKind.confirmation_failure
is_failure kind h = ground arith

module _ (c : Crates) where
  open c use {DateTime, checked_add_signed}

  -- Until when a piece of evidence supports a device.
  abbrev supported_by :
      PresenceConfig → PresenceEvidenceKind → DateTime → Option DateTime → Option DateTime
  supported_by cfg PresenceEvidenceKind.traffic seen until =
      checked_add_signed seen cfg.online_window
  supported_by cfg PresenceEvidenceKind.lease seen until = until
  supported_by cfg PresenceEvidenceKind.router_association seen until = until
  supported_by cfg PresenceEvidenceKind.neighbor_cache seen until = until
  supported_by cfg PresenceEvidenceKind.probe_success seen until = until
  supported_by cfg _ seen until = none

  abbrev pub supported_until : PresenceConfig → PresenceEvidence c → Option DateTime
  supported_until cfg e = supported_by cfg e.kind e.observed_at e.valid_until

  end_of_support-supported_until :
      (cfg : PresenceConfig) (e : PresenceEvidence c)
      → end_of_support c cfg e ≡ supported_until cfg e
  unfolding end_of_support
  end_of_support-supported_until cfg e = by_kind e.kind
    where
      by_kind :
          (kind : PresenceEvidenceKind)
          → (if same_evidence_kind kind PresenceEvidenceKind.traffic
              then checked_add_signed e.observed_at cfg.online_window
              else if is_validity_kind kind
              then e.valid_until
              else none)
            ≡ supported_by cfg kind e.observed_at e.valid_until
      by_kind kind = ground arith

  -- A failure, within the window, to confirm a device that nothing in its evidence supports any more.
  pub record Failure (cfg : PresenceConfig) (at : DateTime) (d : DevicePresence c)
      (f : PresenceEvidence c) : Type 0 where
    pub taken : Mem f d.evidence
    pub fails : f.kind ≡ PresenceEvidenceKind.confirmation_failure
    pub by_now : not_after c f.observed_at at ≡ true
    pub recent : leb_ℤ (age_at c at f.observed_at) cfg.confirmation_window ≡ true
    pub behind :
        All
          (λ e. is_none_or (supported_until cfg e) (λ end. before c end f.observed_at) ≡ true)
          d.evidence

  -- What is known of a device that has departed.
  pub record Departed (cfg : PresenceConfig) (at : DateTime) (d : DevicePresence c) : Type 0 where
    pub not_blocked : d.blocked ≡ false
    pub not_impaired : d.impaired ≡ false
    pub not_contradictory : d.contradictory ≡ false
    pub was_supported : d.ever_supported ≡ true
    pub unsupported : All (λ e. support_at c e at true cfg.online_window ≡ none) d.evidence
    pub failures : Pieces c cfg.departure_confirmations (Failure cfg at d)

  unsupported_by :
      (cfg : PresenceConfig) (at : DateTime) (es : List (PresenceEvidence c))
      → has_traffic c es at cfg ≡ false
      → has_support c es at ≡ false
      → All (λ e. support_at c e at true cfg.online_window ≡ none) es
  unfolding has_traffic has_support support_at
  unsupported_by cfg at [] traffic support = tt
  unsupported_by cfg at (e ∷ es) traffic support = (
    ground (arith, traffic, support),
    unsupported_by cfg at es (ground (arith, traffic)) (ground (arith, support)),
  )

  -- A piece of evidence that confirms the presence of a device within the window.
  pub record Confirmation (cfg : PresenceConfig) (at : DateTime) (d : DevicePresence c)
      (e : PresenceEvidence c) : Type 0 where
    pub taken : Mem e d.evidence
    pub confirms : any (same_evidence_kind e.kind) confirming_kinds ≡ true
    pub by_now : not_after c e.observed_at at ≡ true
    pub recent : leb_ℤ (age_at c at e.observed_at) cfg.confirmation_window ≡ true

  confirmations-Pieces :
      (cfg : PresenceConfig) (at : DateTime) (d : DevicePresence c)
      → Pieces c
          (confirmations c d at cfg.confirmation_window is_real_positive)
          (Confirmation cfg at d)
  unfolding confirmations
  confirmations-Pieces cfg at d = distinct_count-Pieces c (Confirmation cfg at d) _ (
      All-mono _ (Confirmation cfg at d)
        (λ e kept. record {
          taken = kept.0;
          confirms = confirming e.kind (ground (arith, kept.1));
          by_now = ground (arith, kept.1);
          recent = ground (arith, kept.1);
        })
        _ (retain-taken _ d.evidence))

  departure_failures-Pieces :
      (cfg : PresenceConfig) (at : DateTime) (d : DevicePresence c)
      → Pieces c (departure_failures c d.evidence at cfg) (Failure cfg at d)
  unfolding departure_failures support_end
  departure_failures-Pieces cfg at d = distinct_count-Pieces c (Failure cfg at d) _ (
      All-mono _ (Failure cfg at d)
        (λ f kept. record {
          taken = kept.0;
          fails = is_failure f.kind (ground (arith, kept.1));
          by_now = ground (arith, kept.1);
          recent = ground (arith, kept.1);
          behind =
              All-mono _ _
                (λ e ended.
                  subst (λ u. is_none_or u (λ end. before c end f.observed_at) ≡ true)
                    (end_of_support-supported_until cfg e) ended)
                d.evidence
                (latest_of c f.observed_at (end_of_support c cfg) d.evidence
                  (ground (arith, kept.1)));
        })
        _ (retain-taken _ d.evidence))

  fewer : {m n : ℕ} {Such : PresenceEvidence c → Type 0} → m ≤ n → Pieces c n Such → Pieces c m Such
  fewer le p = record {
    pieces = p.pieces;
    such = p.such;
    distinct = p.distinct;
    enough = omega (arith, le, p.enough);
  }

  candidate-Departed :
      (d : DevicePresence c) (at : DateTime) (cfg : PresenceConfig)
      → candidate c d at cfg ≡ PresenceState.offline
      → Departed cfg at d
  unfolding candidate
  candidate-Departed d at cfg h = record {
    not_blocked = ground arith;
    not_impaired = ground arith;
    not_contradictory = ground arith;
    was_supported = ground arith;
    unsupported = unsupported_by cfg at d.evidence (ground arith) (ground arith);
    failures = fewer (ground arith) (departure_failures-Pieces cfg at d);
  }

  -- A device is called offline only if it was called so before or has departed. It is then neither
  -- blocked nor impaired nor contradictory and was supported before; no piece of its evidence supports
  -- it at the time; and its evidence has at least as many failures to confirm it as the configuration
  -- asks for, no two of the same source and time, all within the window and later than the end of the
  -- support of every piece of evidence.
  pub gated-Departed :
      (d : DevicePresence c) (at : DateTime) (cfg : PresenceConfig)
      → gated c d at cfg ≡ PresenceState.offline
      → (d.state ≡ PresenceState.offline) ⊎ Departed cfg at d
  unfolding gated
  gated-Departed d at cfg h = elim (Bool-cases (held d at cfg)) [
    | inl back ↦ inl (simp back at h)
    | inr free ↦ inr (candidate-Departed d at cfg (simp free at h))
  ]
    where
      held : DevicePresence c → DateTime → PresenceConfig → Bool
      held d at cfg =
          is_present (candidate c d at cfg)
          && is_absent d.state
          && ltb (confirmations c d at cfg.confirmation_window is_real_positive)
              cfg.join_confirmations

  -- An absent device is called online or quiet only if its evidence has at least as many pieces as the
  -- configuration asks for, no two of the same source, kind and time, each of traffic, a lease, a
  -- router association or a neighbour cache, and all observed within the window by the time.
  pub gated-confirmed :
      (d : DevicePresence c) (at : DateTime) (cfg : PresenceConfig)
      → is_absent d.state ≡ true
      → is_present (gated c d at cfg) ≡ true
      → Pieces c cfg.join_confirmations (Confirmation cfg at d)
  unfolding gated
  gated-confirmed d at cfg absent present =
      fewer (ground (arith, absent, present)) (confirmations-Pieces cfg at d)
