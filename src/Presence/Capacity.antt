-- ===== src/Presence/Capacity.antt =====
-- crates/lattice-intelligence/src/presence.rs: every operation keeps the engine within its bounds.
use neon_hearth.Prelude.{
  ℕ, suc, ◌≤◌, ◌<◌, ◌≡◌, ◌⊎◌, refl, ap, ◌∙◌, inl, inr, Bool, true, ◌&&◌, not, List, [], ◌∷◌, ◌++◌,
  length, length-append, length-retain-le, retain, Option, none, some, Result, ok, err, arith,
  Bool-cases, Option-cases, if_intro, is_some, is_empty, checked_add_u64, u64_max, leb, ◌==◌, subst,
}
use neon_hearth.External.{Crates, DeviceId, before}
use neon_hearth.Presence.Types.{
  PresenceState, PresenceConfig, PresenceEvidence, PresenceTransition, DevicePresence,
  PresenceEngine, PresenceError,
}
use neon_hearth.Presence.Evidence.{semantically_retained}
use neon_hearth.Presence.Config.{refusal}
use neon_hearth.Presence.Devices.{get, insert}
use neon_hearth.Presence.Histories.{take_transition}
use neon_hearth.Presence.Absorption.{Absorbed, absorb, prior_answer, or_fresh}
use neon_hearth.Presence.Engine.{
  recompute, evaluate, ingest_current, ingest_correction, ingest_admitted, ingest_authorized,
  synthetic,
}
use neon_hearth.Presence.Maps.{get-insert, same_device_refl}
use neon_hearth.Presence.Pasts.{absorb_bound, absorb-Advance}
use neon_hearth.Presence.Bounds.{
  Fits, IsBounded, IsBounded-update, Leaves, Leaves-equal, take_transition-Leaves, recompute-Leaves,
  answered-Leaves,
}

module _ (c : Crates) where
  open c use {DateTime}

  ingest_current-Leaves :
      (e : PresenceEvidence c) (arrival : DateTime) (outdated : Bool)
      (events : List (PresenceTransition c)) (cfg : PresenceConfig) (engine : PresenceEngine c)
      → engine.cfg ≡ cfg
      → IsBounded c engine
      → is_some (get c e.device_id engine.devices) ≡ true
      → Leaves c cfg e.device_id (ingest_current c e arrival outdated events engine)
  unfolding ingest_current
  ingest_current-Leaves e arrival outdated events cfg engine same b there =
      let next = recompute c e.device_id arrival e engine in
      let left = recompute-Leaves c e.device_id arrival e engine b there in
      elim (Bool-cases (outdated && is_empty events)) [
        | inl quiet ↦
            Leaves-equal c _ (ok events, engine) (simp (quiet, ingest_current))
              (record { bounded = b; present = there; configured = same })
        | inr go ↦
            Leaves-equal c _
              (elim next.0 [
                | err x ↦ (err x, next.1)
                | ok current ↦ (ok (events ++ current), next.1)
              ])
              (simp (go, ingest_current))
              (answered-Leaves c next (λ current. events ++ current)
                (record {
                  bounded = left.bounded;
                  present = left.present;
                  configured = left.configured ∙ same;
                }))
      ]

  corrected-Leaves :
      (e : PresenceEvidence c) (arrival : DateTime) (outdated : Bool) (cfg : PresenceConfig)
      (taken : Result (PresenceTransition c) PresenceError × PresenceEngine c)
      → Leaves c cfg e.device_id taken
      → Leaves c {A = List (PresenceTransition c)} cfg e.device_id (elim taken.0 [
        | err x ↦ (err x, taken.1)
        | ok t ↦ ingest_current c e arrival outdated (t ∷ []) taken.1
      ])
  corrected-Leaves e arrival outdated cfg (err x, new) left = record {
    bounded = left.bounded;
    present = left.present;
    configured = left.configured;
  }
  corrected-Leaves e arrival outdated cfg (ok t, new) left =
      ingest_current-Leaves e arrival outdated (t ∷ []) cfg new left.configured left.bounded
        left.present

  ingest_correction-Leaves :
      (e : PresenceEvidence c) (arrival : DateTime) (a : Absorbed c) (engine : PresenceEngine c)
      → IsBounded c engine
      → length a.device.evidence ≤ engine.cfg.max_evidence_per_device
      → is_some (get c e.device_id engine.devices) ≡ true
      → Leaves c engine.cfg e.device_id (ingest_correction c e arrival a engine)
  unfolding ingest_correction
  ingest_correction-Leaves e arrival a engine b fits there = elim (Option-cases a.correction) [
    | inl plain ↦
        Leaves-equal c _ (ingest_current c e arrival a.outdated [] engine)
          (simp (plain, ingest_correction))
          (ingest_current-Leaves e arrival a.outdated [] engine.cfg engine refl b there)
    | inr ((departure, target), late) ↦
        let taken =
          take_transition c e.device_id a.device PresenceState.offline target e arrival
            (some departure) engine in
        let left =
          take_transition-Leaves c e.device_id a.device PresenceState.offline target e arrival
            (some departure) engine b fits there in
        Leaves-equal c _
          (elim taken.0 [
            | err x ↦ (err x, taken.1)
            | ok t ↦ ingest_current c e arrival a.outdated (t ∷ []) taken.1
          ])
          (simp (late, ingest_correction))
          (corrected-Leaves e arrival a.outdated engine.cfg taken left)
  ]

  -- Evidence that is neither refused nor known finds room on its device.
  prior_answer_room :
      (cfg : PresenceConfig) (e : PresenceEvidence c) (arrival : DateTime) (d : DevicePresence c)
      → prior_answer c cfg e arrival true (some d) ≡ none
      → suc (length (retain (λ x. semantically_retained c x arrival cfg) d.evidence))
        ≤ cfg.max_evidence_per_device
  unfolding prior_answer
  prior_answer_room cfg e arrival d h = ground arith

  absorb_history :
      (cfg : PresenceConfig) (e : PresenceEvidence c) (arrival : DateTime) (retain_input : Bool)
      (d : DevicePresence c) {max : ℕ}
      → length d.history ≤ max
      → length (absorb c cfg e arrival retain_input d).device.history ≤ max
  absorb_history cfg e arrival retain_input d fits =
      let p = absorb-Advance c cfg e arrival retain_input d in
      let kept = (absorb c cfg e arrival retain_input d).device.history in
      omega
        (arith, fits, ap length p.joined, length-append d.history [], length-append p.dropped kept)

  -- The device that takes evidence still fits.
  absorb-Fits :
      (cfg : PresenceConfig) (e : PresenceEvidence c) (arrival : DateTime) (retain_input : Bool)
      (was : Option (DevicePresence c))
      → prior_answer c cfg e arrival retain_input was ≡ none
      → ((d : DevicePresence c) → was ≡ some d → Fits c cfg d)
      → 0 < cfg.max_evidence_per_device
      → Fits c cfg (absorb c cfg e arrival retain_input (or_fresh c arrival was)).device
  absorb-Fits cfg e arrival retain_input none fresh fits room = record {
    history = absorb_history cfg e arrival retain_input _ (omega arith);
    evidence =
        absorb_bound c cfg e arrival retain_input (or_fresh c arrival none)
          cfg.max_evidence_per_device (omega arith) (λ keeps. omega (arith, room));
  }
  absorb-Fits cfg e arrival retain_input (some d) fresh fits room =
      let known = fits d refl in
      record {
        history = absorb_history cfg e arrival retain_input d known.history;
        evidence =
            absorb_bound c cfg e arrival retain_input d cfg.max_evidence_per_device
              (omega (
                arith,
                known.evidence,
                length-retain-le (λ x. semantically_retained c x arrival cfg) d.evidence,
              ))
              (λ keeps.
                prior_answer_room cfg e arrival d
                  (subst (λ keep. prior_answer c cfg e arrival keep (some d) ≡ none) keeps fresh));
      }

  ingest_admitted-IsBounded :
      (e : PresenceEvidence c) (arrival : DateTime) (retain_input : Bool)
      (engine : PresenceEngine c)
      → IsBounded c engine
      → (is_some (get c e.device_id engine.devices) ≡ true)
        ⊎ (length engine.devices < engine.cfg.max_devices)
      → prior_answer c engine.cfg e arrival retain_input (get c e.device_id engine.devices) ≡ none
      → IsBounded c (ingest_admitted c e arrival retain_input engine).1
  unfolding ingest_admitted
  ingest_admitted-IsBounded e arrival retain_input engine b place fresh =
      let was = get c e.device_id engine.devices in
      let d = or_fresh c arrival was in
      let a = absorb c engine.cfg e arrival retain_input d in
      let fits =
        absorb-Fits engine.cfg e arrival retain_input was fresh (b.each e.device_id)
          b.evidence_room in
      (ingest_correction-Leaves e arrival a
        (record engine { devices = insert c e.device_id a.device engine.devices })
        (IsBounded-update c engine e.device_id a.device engine.next_transition b fits place)
        fits.evidence
        (simp (
          get-insert c e.device_id e.device_id a.device engine.devices,
          same_device_refl c e.device_id,
        ))).bounded

  -- `ingest_authorized` keeps the engine within its bounds, whatever it answers.
  pub ingest_authorized-IsBounded :
      (e : PresenceEvidence c) (arrival : DateTime) (enforcement_authorized : Bool)
      (engine : PresenceEngine c)
      → IsBounded c engine
      → IsBounded c (ingest_authorized c e arrival enforcement_authorized engine).1
  unfolding ingest_authorized
  ingest_authorized-IsBounded e arrival enforcement_authorized engine b =
      let retain_input = semantically_retained c e arrival engine.cfg in
      let was = get c e.device_id engine.devices in
      let P : Result (List (PresenceTransition c)) PresenceError × PresenceEngine c → Type 0 =
        λ r. IsBounded c r.1 in
      elim (Option-cases (refusal c engine.cfg e arrival enforcement_authorized)) [
        | inr (x, refused) ↦ rw (refused, ingest_authorized) b
        | inl valid ↦
            rw (valid, ingest_authorized)
              (if_intro P (not (is_some was) && leb engine.cfg.max_devices (length engine.devices))
                (λ full. b)
                (λ room.
                  elim (Option-cases (prior_answer c engine.cfg e arrival retain_input was)) [
                    | inr (answer, known) ↦ rw known b
                    | inl fresh ↦ rw fresh (
                        if_intro P (is_some (checked_add_u64 engine.next_transition 2))
                          (λ left.
                            ingest_admitted-IsBounded e arrival retain_input engine b (ground arith)
                              fresh)
                          (λ exhausted. b))
                  ]))
      ]

  -- `evaluate` keeps the engine within its bounds, whatever it answers.
  pub evaluate-IsBounded :
      (id : DeviceId c) (at : DateTime) (engine : PresenceEngine c)
      → IsBounded c engine
      → IsBounded c (evaluate c id at engine).1
  unfolding evaluate
  evaluate-IsBounded id at engine b =
      let P : Result (List (PresenceTransition c)) PresenceError × PresenceEngine c → Type 0 =
        λ r. IsBounded c r.1 in
      elim (Option-cases (get c id engine.devices)) [
        | inl no_device ↦ rw (no_device, evaluate) b
        | inr (d, there) ↦
            let seen : DevicePresence c = record d { last_evaluation = at } in
            let fits = b.each id d there in
            rw (there, evaluate)
              (if_intro P (before c at d.last_evaluation) (λ rollback. b)
                (λ in_order.
                  if_intro P (engine.next_transition == u64_max) (λ exhausted. b)
                    (λ left.
                      (recompute-Leaves c id at (synthetic c id at)
                        (record engine { devices = insert c id seen engine.devices })
                        (IsBounded-update c engine id seen engine.next_transition b
                          (record { history = fits.history; evidence = fits.evidence })
                          (inl (rw there refl)))
                        (simp (
                          get-insert c id id seen engine.devices,
                          same_device_refl c id,
                        ))).bounded)))
      ]
