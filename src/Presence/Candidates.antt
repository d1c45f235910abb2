-- ===== src/Presence/Candidates.antt =====
-- crates/lattice-intelligence/src/presence.rs: `candidate`, the state that a device's evidence calls
-- for, and the confirmations that `recompute` asks for before it is taken.
use neon_hearth.Prelude.{
  ℕ, Bool, true, false, ◌&&◌, ◌||◌, List, [], ◌∷◌, any, retain, Option, none, some, ltb, leb,
  if◌then◌else◌, is_some_and, is_none_or,
}
use neon_hearth.Prelude.Int.{leb_ℤ, ltb_ℤ}
use neon_hearth.External.{Crates, before, not_after}
use neon_hearth.Presence.Types.{
  PresenceState, PresenceConfig, PresenceEvidenceKind, PresenceEvidence, DevicePresence,
  same_evidence_kind,
}
use neon_hearth.Presence.Evidence.{age_at, latest, distinct_count, confirmations, is_real_positive}

-- The kinds that support a device until their validity ends.
abbrev pub is_validity_kind : PresenceEvidenceKind → Bool
is_validity_kind PresenceEvidenceKind.lease = true
is_validity_kind PresenceEvidenceKind.router_association = true
is_validity_kind PresenceEvidenceKind.neighbor_cache = true
is_validity_kind PresenceEvidenceKind.probe_success = true
is_validity_kind _ = false

abbrev pub is_present : PresenceState → Bool
is_present PresenceState.online = true
is_present PresenceState.quiet = true
is_present _ = false

abbrev pub is_absent : PresenceState → Bool
is_absent PresenceState.unknown = true
is_absent PresenceState.offline = true
is_absent _ = false

module _ (c : Crates) where
  open c use {DateTime, checked_add_signed}

  unfoldable pub has_traffic : List (PresenceEvidence c) → DateTime → PresenceConfig → Bool
  has_traffic evidence at cfg =
      any
        (λ e.
          same_evidence_kind e.kind PresenceEvidenceKind.traffic
          && not_after c e.observed_at at
          && ltb_ℤ (age_at c at e.observed_at) cfg.online_window)
        evidence

  unfoldable pub has_support : List (PresenceEvidence c) → DateTime → Bool
  has_support evidence at =
      any
        (λ e.
          is_validity_kind e.kind
          && not_after c e.observed_at at
          && is_some_and e.valid_until (λ x. not_after c at x))
        evidence

  -- Where the support of one piece of evidence ends.
  unfoldable pub end_of_support : PresenceConfig → PresenceEvidence c → Option DateTime
  end_of_support cfg e =
      if same_evidence_kind e.kind PresenceEvidenceKind.traffic
      then checked_add_signed e.observed_at cfg.online_window
      else if is_validity_kind e.kind
      then e.valid_until
      else none

  abbrev pub filter_map :
      (PresenceEvidence c → Option DateTime) → List (PresenceEvidence c) → List DateTime
  filter_map f [] = []
  filter_map f (x ∷ xs) = elim (f x) [ none ↦ filter_map f xs | some y ↦ y ∷ filter_map f xs ]

  unfoldable pub support_end : PresenceConfig → List (PresenceEvidence c) → Option DateTime
  support_end cfg evidence = latest c (filter_map (end_of_support cfg) evidence)

  -- The distinct failures to confirm the device since its support ended.
  unfoldable pub departure_failures : List (PresenceEvidence c) → DateTime → PresenceConfig → ℕ
  departure_failures evidence at cfg =
      let ended = support_end cfg evidence in
      distinct_count c (
        retain
          (λ e.
            same_evidence_kind e.kind PresenceEvidenceKind.confirmation_failure
            && not_after c e.observed_at at
            && is_none_or ended (λ end. before c end e.observed_at)
            && leb_ℤ (age_at c at e.observed_at) cfg.confirmation_window)
          evidence)

  unfoldable pub candidate : DevicePresence c → DateTime → PresenceConfig → PresenceState
  candidate d at cfg =
      if d.blocked
      then PresenceState.blocked
      else if d.impaired || d.contradictory
      then PresenceState.unknown
      else if has_traffic d.evidence at cfg
      then PresenceState.online
      else if has_support d.evidence at && d.ever_supported
      then PresenceState.quiet
      else if d.ever_supported
          && leb cfg.departure_confirmations (departure_failures d.evidence at cfg)
      then PresenceState.offline
      else if is_present d.state
      then d.state
      else PresenceState.unknown

  -- The candidate, held back while an absent device lacks confirmations: `gated` of `recompute`.
  unfoldable pub gated : DevicePresence c → DateTime → PresenceConfig → PresenceState
  gated d at cfg =
      let wanted = candidate d at cfg in
      if is_present wanted
        && is_absent d.state
        && ltb (confirmations c d at cfg.confirmation_window is_real_positive)
            cfg.join_confirmations
      then d.state
      else wanted
