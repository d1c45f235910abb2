-- ===== src/Presence/Evidence.antt =====
-- crates/lattice-intelligence/src/presence.rs: what evidence says, how long it is kept, and the flags
-- that control evidence sets.
use neon_hearth.Prelude.{
  ℕ, suc, Bool, true, false, ◌&&◌, ◌||◌, not, List, [], ◌∷◌, map, any, retain, Option, none, some,
  ltb, ◌==◌, if◌then◌else◌, is_some_and, is_none_or,
}
use neon_hearth.Prelude.Int.{ℤ, leb_ℤ, ltb_ℤ}
use neon_hearth.Prelude.Sorting.{sort_by}
use neon_hearth.Text.{codes, same_text}
use neon_hearth.External.{Crates, same_device, same_time, same_time?, before, not_after}
use neon_hearth.Presence.Types.{
  PresenceState, PresenceConfig, PresenceEvidenceKind, PresenceEvidence, DevicePresence,
  evidence_index, same_evidence_kind,
}

-- The kinds of control evidence, by `control_family`.
unfoldable pub control_family : PresenceEvidenceKind → Option ℕ
control_family PresenceEvidenceKind.enforcement_blocked = some 0
control_family PresenceEvidenceKind.enforcement_unblocked = some 0
control_family PresenceEvidenceKind.sensor_impaired = some 1
control_family PresenceEvidenceKind.sensor_recovered = some 1
control_family PresenceEvidenceKind.contradiction = some 2
control_family PresenceEvidenceKind.contradiction_cleared = some 2
control_family _ = none

unfoldable pub is_real_positive : PresenceEvidenceKind → Bool
is_real_positive PresenceEvidenceKind.traffic = true
is_real_positive PresenceEvidenceKind.lease = true
is_real_positive PresenceEvidenceKind.router_association = true
is_real_positive PresenceEvidenceKind.neighbor_cache = true
is_real_positive _ = false

unfoldable pub is_positive : PresenceEvidenceKind → Bool
unfolding is_real_positive
is_positive kind =
    is_real_positive kind || same_evidence_kind kind PresenceEvidenceKind.probe_success

abbrev pub is_enforcement : PresenceEvidenceKind → Bool
is_enforcement PresenceEvidenceKind.enforcement_blocked = true
is_enforcement PresenceEvidenceKind.enforcement_unblocked = true
is_enforcement _ = false

abbrev max_ℤ : ℤ → ℤ → ℤ
max_ℤ a b = if leb_ℤ a b then b else a

-- The order of tuples: the first component that differs decides.
abbrev lexicographic : Bool → Bool → Bool → Bool
lexicographic less equal rest = less || (equal && rest)

abbrev pub codes_before : List ℕ → List ℕ → Bool
codes_before xs [] = false
codes_before [] (y ∷ ys) = true
codes_before (x ∷ xs) (y ∷ ys) = lexicographic (ltb x y) (x == y) (codes_before xs ys)

module _ (c : Crates) where
  open c use {DateTime, ticks, signed_duration_since, checked_add_signed}

  abbrev pub age_at : DateTime → DateTime → ℤ
  age_at now then_at = signed_duration_since now then_at

  -- The derived equality of evidence.
  abbrev pub same_evidence : PresenceEvidence c → PresenceEvidence c → Bool
  same_evidence a b =
      same_device a.device_id b.device_id
      && same_text a.source b.source
      && same_evidence_kind a.kind b.kind
      && same_time c a.observed_at b.observed_at
      && same_time? c a.valid_until b.valid_until

  abbrev until_before : Option DateTime → Option DateTime → Bool
  until_before none (some b) = true
  until_before (some a) (some b) = before c a b
  until_before _ none = false

  -- The key of `sort_evidence`, compared: `a` does not come behind `b`.
  abbrev pub evidence_le : PresenceEvidence c → PresenceEvidence c → Bool
  evidence_le a b = not (
      lexicographic (before c b.observed_at a.observed_at) (same_time c b.observed_at a.observed_at)
        (lexicographic (codes_before (codes b.source) (codes a.source))
          (same_text b.source a.source)
          (lexicographic (ltb (evidence_index b.kind) (evidence_index a.kind))
            (evidence_index b.kind == evidence_index a.kind)
            (until_before b.valid_until a.valid_until))))

  unfoldable pub sort_evidence : List (PresenceEvidence c) → List (PresenceEvidence c)
  sort_evidence = sort_by evidence_le

  unfoldable pub semantically_retained : PresenceEvidence c → DateTime → PresenceConfig → Bool
  semantically_retained e arrival cfg = elim e.kind [
    | PresenceEvidenceKind.enforcement_blocked ↦ true
    | PresenceEvidenceKind.enforcement_unblocked ↦ true
    | PresenceEvidenceKind.sensor_impaired ↦ true
    | PresenceEvidenceKind.sensor_recovered ↦ true
    | PresenceEvidenceKind.contradiction ↦ true
    | PresenceEvidenceKind.contradiction_cleared ↦ true
    | PresenceEvidenceKind.lease ↦ kept_until
    | PresenceEvidenceKind.router_association ↦ kept_until
    | PresenceEvidenceKind.neighbor_cache ↦ kept_until
    | PresenceEvidenceKind.probe_success ↦ kept_until
    | PresenceEvidenceKind.confirmation_failure ↦
        leb_ℤ (age_at arrival e.observed_at) cfg.confirmation_window
    | PresenceEvidenceKind.traffic ↦
        leb_ℤ (age_at arrival e.observed_at) (max_ℤ cfg.online_window cfg.correction_window)
    | PresenceEvidenceKind.evaluation ↦ leb_ℤ (age_at arrival e.observed_at) cfg.retention
  ]
    where
      kept_until : Bool
      kept_until = elim e.valid_until [
        | none ↦ leb_ℤ (age_at arrival e.observed_at) cfg.retention
        | some until ↦ leb_ℤ (age_at arrival until) cfg.correction_window
      ]

  -- The last of the latest instants: `Iterator::max`.
  unfoldable pub latest : List DateTime → Option DateTime
  latest [] = none
  latest (x ∷ xs) = elim (latest xs) [
    | none ↦ some x
    | some y ↦ some (if before c y x then x else y)
  ]

  unfoldable pub control_state :
      List (PresenceEvidence c)
      → PresenceEvidenceKind
      → PresenceEvidenceKind
      → Bool × Option DateTime
  control_state evidence active inactive =
      let clocks =
        map (λ e. e.observed_at)
          (retain (λ e. same_evidence_kind e.kind active || same_evidence_kind e.kind inactive)
            evidence) in
      elim (latest clocks) [
        | none ↦ (false, none)
        | some clock ↦ (
          any (λ e. same_evidence_kind e.kind active && same_time c e.observed_at clock) evidence,
          some clock,
        )
      ]

  unfoldable pub conflicting_controls :
      List (PresenceEvidence c) → PresenceEvidenceKind → PresenceEvidenceKind → Bool
  conflicting_controls evidence active inactive =
      any
        (λ left.
          same_evidence_kind left.kind active
          && any
              (λ right.
                same_evidence_kind right.kind inactive
                && same_time c right.observed_at left.observed_at)
              evidence)
        evidence

  abbrev in_family : ℕ → PresenceEvidence c → Bool
  in_family family e = is_some_and (control_family e.kind) (λ f. f == family)

  -- One round of `prune_control_evidence`.
  unfoldable pub prune_family : ℕ → List (PresenceEvidence c) → List (PresenceEvidence c)
  prune_family family evidence =
      let newest = latest (map (λ e. e.observed_at) (retain (in_family family) evidence)) in
      retain
        (λ e. not (in_family family e) || is_none_or newest (λ at. same_time c e.observed_at at))
        evidence

  unfoldable pub prune_control_evidence : List (PresenceEvidence c) → List (PresenceEvidence c)
  prune_control_evidence evidence = prune_family 2 (prune_family 1 (prune_family 0 evidence))

  abbrev pub clock_allows : Option DateTime → DateTime → Bool
  clock_allows clock at = is_none_or clock (λ x. not_after c x at)

  unfoldable pub stale_control_at : Option DateTime → DateTime → Bool → Bool → Bool
  stale_control_at clock observed_at active incoming_active = is_some_and clock (λ at.
      before c observed_at at || (same_time c observed_at at && (active || not incoming_active)))

  unfoldable pub stale_control : DevicePresence c → PresenceEvidence c → Bool
  unfolding stale_control_at
  stale_control d e = elim e.kind [
    | PresenceEvidenceKind.enforcement_blocked ↦
        stale_control_at d.enforcement_clock e.observed_at d.blocked true
    | PresenceEvidenceKind.enforcement_unblocked ↦
        stale_control_at d.enforcement_clock e.observed_at d.blocked false
    | PresenceEvidenceKind.sensor_impaired ↦
        stale_control_at d.impairment_clock e.observed_at d.impaired true
    | PresenceEvidenceKind.sensor_recovered ↦
        stale_control_at d.impairment_clock e.observed_at d.impaired false
    | PresenceEvidenceKind.contradiction ↦
        stale_control_at d.contradiction_clock e.observed_at d.contradictory true
    | PresenceEvidenceKind.contradiction_cleared ↦
        stale_control_at d.contradiction_clock e.observed_at d.contradictory false
    | _ ↦ false
  ]

  abbrev pub set_blocked : Bool → DateTime → DevicePresence c → DevicePresence c
  set_blocked to at d =
      if clock_allows d.enforcement_clock at
      then record d { blocked = to; enforcement_clock = some at }
      else d

  abbrev pub set_impaired : Bool → DateTime → DevicePresence c → DevicePresence c
  set_impaired to at d =
      if clock_allows d.impairment_clock at
      then record d { impaired = to; impairment_clock = some at }
      else d

  abbrev pub set_contradictory : Bool → DateTime → DevicePresence c → DevicePresence c
  set_contradictory to at d =
      if clock_allows d.contradiction_clock at
      then record d { contradictory = to; contradiction_clock = some at }
      else d

  abbrev pub apply_kind : PresenceEvidenceKind → DateTime → DevicePresence c → DevicePresence c
  apply_kind PresenceEvidenceKind.enforcement_blocked at d = set_blocked true at d
  apply_kind PresenceEvidenceKind.enforcement_unblocked at d = set_blocked false at d
  apply_kind PresenceEvidenceKind.sensor_impaired at d = set_impaired true at d
  apply_kind PresenceEvidenceKind.sensor_recovered at d = set_impaired false at d
  apply_kind PresenceEvidenceKind.contradiction at d = set_contradictory true at d
  apply_kind PresenceEvidenceKind.contradiction_cleared at d = set_contradictory false at d
  apply_kind _ at d = d

  unfoldable pub apply_flags : DevicePresence c → PresenceEvidence c → DevicePresence c
  apply_flags d e = apply_kind e.kind e.observed_at d

  -- `distinct_count`: the source, kind and time of each.
  unfoldable pub distinct_count : List (PresenceEvidence c) → ℕ
  distinct_count [] = 0
  distinct_count (e ∷ es) =
      let rest = distinct_count es in
      if any
        (λ x.
          same_text x.source e.source
          && same_evidence_kind x.kind e.kind
          && same_time c x.observed_at e.observed_at)
        es
      then rest
      else suc rest

  unfoldable pub confirmations : DevicePresence c → DateTime → ℤ → (PresenceEvidenceKind → Bool) → ℕ
  confirmations d at window pred = distinct_count (
      retain
        (λ e. pred e.kind && not_after c e.observed_at at && leb_ℤ (age_at at e.observed_at) window)
        d.evidence)

  unfoldable pub support_at : PresenceEvidence c → DateTime → Bool → ℤ → Option PresenceState
  support_at e at ever online_window = if before c at e.observed_at then none else elim e.kind [
    | PresenceEvidenceKind.traffic ↦
        if ltb_ℤ (age_at at e.observed_at) online_window then some PresenceState.online else none
    | PresenceEvidenceKind.lease ↦ quiet_until
    | PresenceEvidenceKind.router_association ↦ quiet_until
    | PresenceEvidenceKind.neighbor_cache ↦ quiet_until
    | PresenceEvidenceKind.probe_success ↦ if ever then quiet_until else none
    | _ ↦ none
  ]
    where
      quiet_until : Option PresenceState
      quiet_until =
          if is_some_and e.valid_until (λ x. not_after c at x)
          then some PresenceState.quiet
          else none
