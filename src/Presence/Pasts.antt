-- ===== src/Presence/Pasts.antt =====
-- crates/lattice-intelligence/src/presence.rs: evidence leaves the history of its device alone.
use neon_hearth.Prelude.{
  ◌≡◌, refl, ◌∙◌, Bool, true, false, ◌&&◌, ◌||◌, not, ◌++◌, [], ◌∷◌, some, arith, if◌then◌else◌,
  retain, is_some, List, length, ◌≤◌, length-append, suc, length-retain-le, ℕ,
}
use neon_hearth.Prelude.Sorting.{length-sort_by}
use neon_hearth.External.{Crates}
use neon_hearth.Presence.Types.{
  PresenceConfig, PresenceEvidence, PresenceEvidenceKind, DevicePresence,
}
use neon_hearth.Presence.Evidence.{
  is_real_positive, is_positive, support_at, sort_evidence, prune_control_evidence,
  semantically_retained, prune_family, evidence_le, apply_flags, apply_kind, clock_allows,
  set_blocked, set_impaired, set_contradictory,
}
use neon_hearth.Presence.Absorption.{is_late, absorb, mark_supported, keep_evidence}
use neon_hearth.Presence.Retention.{Advance, Advance-still}

module _ (c : Crates) where
  open c use {DateTime}

  -- Two presences of a device with one history and the same evidence.
  pub record SamePast (old new : DevicePresence c) : Type 0 where
    pub history : new.history ≡ old.history
    pub evicted : new.evicted_through ≡ old.evicted_through
    pub evidence : new.evidence ≡ old.evidence

  SamePast-trans : {a b d : DevicePresence c} → SamePast a b → SamePast b d → SamePast a d
  SamePast-trans p q = record {
    history = q.history ∙ p.history;
    evicted = q.evicted ∙ p.evicted;
    evidence = q.evidence ∙ p.evidence;
  }

  if-SamePast :
      (t : Bool) (d x y : DevicePresence c)
      → SamePast d x
      → SamePast d y
      → SamePast d (if t then x else y)
  if-SamePast true d x y hx hy = hx
  if-SamePast false d x y hx hy = hy

  SamePast-refl : (d : DevicePresence c) → SamePast d d
  SamePast-refl d = record { history = refl; evicted = refl; evidence = refl }

  set_blocked-SamePast :
      (to : Bool) (at : DateTime) (d : DevicePresence c) → SamePast d (set_blocked c to at d)
  set_blocked-SamePast to at d =
      if-SamePast (clock_allows c d.enforcement_clock at) d
        (record d { blocked = to; enforcement_clock = some at }) d
        (record { history = refl; evicted = refl; evidence = refl }) (SamePast-refl d)

  set_impaired-SamePast :
      (to : Bool) (at : DateTime) (d : DevicePresence c) → SamePast d (set_impaired c to at d)
  set_impaired-SamePast to at d =
      if-SamePast (clock_allows c d.impairment_clock at) d
        (record d { impaired = to; impairment_clock = some at }) d
        (record { history = refl; evicted = refl; evidence = refl }) (SamePast-refl d)

  set_contradictory-SamePast :
      (to : Bool) (at : DateTime) (d : DevicePresence c) → SamePast d (set_contradictory c to at d)
  set_contradictory-SamePast to at d =
      if-SamePast (clock_allows c d.contradiction_clock at) d
        (record d { contradictory = to; contradiction_clock = some at }) d
        (record { history = refl; evicted = refl; evidence = refl }) (SamePast-refl d)

  apply_kind-SamePast :
      (kind : PresenceEvidenceKind) (at : DateTime) (d : DevicePresence c)
      → SamePast d (apply_kind c kind at d)
  apply_kind-SamePast PresenceEvidenceKind.enforcement_blocked at d = set_blocked-SamePast true at d
  apply_kind-SamePast PresenceEvidenceKind.enforcement_unblocked at d =
      set_blocked-SamePast false at d
  apply_kind-SamePast PresenceEvidenceKind.sensor_impaired at d = set_impaired-SamePast true at d
  apply_kind-SamePast PresenceEvidenceKind.sensor_recovered at d = set_impaired-SamePast false at d
  apply_kind-SamePast PresenceEvidenceKind.contradiction at d = set_contradictory-SamePast true at d
  apply_kind-SamePast PresenceEvidenceKind.contradiction_cleared at d =
      set_contradictory-SamePast false at d
  apply_kind-SamePast _ at d = SamePast-refl d

  apply_flags-SamePast :
      (d : DevicePresence c) (e : PresenceEvidence c) → SamePast d (apply_flags c d e)
  unfolding apply_flags
  apply_flags-SamePast d e = apply_kind-SamePast e.kind e.observed_at d

  keep_evidence-Advance :
      (keeps : Bool) (e : PresenceEvidence c) (old d : DevicePresence c)
      → d.history ≡ old.history
      → d.evicted_through ≡ old.evicted_through
      → Advance [] (some old) (some (keep_evidence c keeps e d))
  keep_evidence-Advance true e old d history evicted = Advance-still (some old) _ history evicted
  keep_evidence-Advance false e old d history evicted = Advance-still (some old) _ history evicted

  mark_supported-SamePast :
      (yields : Bool) (d : DevicePresence c) → SamePast d (mark_supported c yields d)
  mark_supported-SamePast true d = record { history = refl; evicted = refl; evidence = refl }
  mark_supported-SamePast false d = SamePast-refl d

  -- The device with the flags of new evidence, and the mark of its support.
  abbrev pub flagged : Bool → DevicePresence c → PresenceEvidence c → DevicePresence c
  flagged yields d e = mark_supported c yields (apply_flags c d e)

  flagged-SamePast :
      (yields : Bool) (d : DevicePresence c) (e : PresenceEvidence c)
      → SamePast d (flagged yields d e)
  flagged-SamePast yields d e =
      SamePast-trans (apply_flags-SamePast d e) (mark_supported-SamePast yields (apply_flags c d e))

  -- Evidence changes neither the history of its device nor what the device has dropped of it.
  pub absorb-Advance :
      (cfg : PresenceConfig) (e : PresenceEvidence c) (arrival : DateTime) (retain_input : Bool)
      (d : DevicePresence c)
      → Advance [] (some d) (some (absorb c cfg e arrival retain_input d).device)
  unfolding absorb
  absorb-Advance cfg e arrival retain_input d =
      let aged : DevicePresence c = record d {
        evidence = retain (λ x. semantically_retained c x arrival cfg) d.evidence;
        last_evaluation = arrival;
      } in
      let late = is_late c e d in
      let valid = is_some (support_at c e arrival d.ever_supported cfg.online_window) in
      let yields = is_real_positive e.kind && (not late || valid) in
      let past = flagged-SamePast yields aged e in
      keep_evidence-Advance _ e d (flagged yields aged e) past.history past.evicted

  length-prune_family :
      (family : ℕ) (es : List (PresenceEvidence c)) → length (prune_family c family es) ≤ length es
  unfolding prune_family
  length-prune_family family es = length-retain-le _ es

  length-prune_control_evidence :
      (es : List (PresenceEvidence c)) → length (prune_control_evidence c es) ≤ length es
  unfolding prune_control_evidence
  length-prune_control_evidence es = omega (
    arith,
    length-prune_family 2 (prune_family c 1 (prune_family c 0 es)),
    length-prune_family 1 (prune_family c 0 es),
    length-prune_family 0 es,
  )

  length-sort_evidence : (es : List (PresenceEvidence c)) → length (sort_evidence c es) ≡ length es
  unfolding sort_evidence
  length-sort_evidence es = length-sort_by (evidence_le c) es

  -- The evidence of a device stays within a bound that what it retains does not reach, if it keeps the
  -- input.
  keep_evidence_bound :
      (keeps : Bool) (e : PresenceEvidence c) (d : DevicePresence c) (max : ℕ)
      → length d.evidence ≤ max
      → (keeps ≡ true → suc (length d.evidence) ≤ max)
      → length (keep_evidence c keeps e d).evidence ≤ max
  keep_evidence_bound false e d max fits room = fits
  keep_evidence_bound true e d max fits room = omega (
    arith,
    room refl,
    length-prune_control_evidence (sort_evidence c (d.evidence ++ e ∷ [])),
    length-sort_evidence (d.evidence ++ e ∷ []),
    length-append d.evidence (e ∷ []),
  )

  pub absorb_bound :
      (cfg : PresenceConfig) (e : PresenceEvidence c) (arrival : DateTime) (retain_input : Bool)
      (d : DevicePresence c) (max : ℕ)
      → let kept = length (retain (λ x. semantically_retained c x arrival cfg) d.evidence) in
        kept ≤ max
        → (retain_input ≡ true → suc kept ≤ max)
        → length (absorb c cfg e arrival retain_input d).device.evidence ≤ max
  unfolding absorb
  absorb_bound cfg e arrival retain_input d max fits room =
      let aged : DevicePresence c = record d {
        evidence = retain (λ x. semantically_retained c x arrival cfg) d.evidence;
        last_evaluation = arrival;
      } in
      let late = is_late c e d in
      let valid = is_some (support_at c e arrival d.ever_supported cfg.online_window) in
      let yields = is_real_positive e.kind && (not late || valid) in
      let past = flagged-SamePast yields aged e in
      keep_evidence_bound (retain_input && (not late || valid || not (is_positive e.kind))) e
        (flagged yields aged e) max (rw past.evidence fits)
        (λ keeps. rw past.evidence (room (ground arith)))
