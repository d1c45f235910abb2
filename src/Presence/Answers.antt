-- ===== src/Presence/Answers.antt =====
-- crates/lattice-intelligence/src/presence.rs: every operation either refuses its input and leaves the
-- engine as it is, or takes the transitions that it returns.
use neon_hearth.Prelude.{
  ◌+◌, ◌≤◌, ◌<◌, ◌≡◌, refl, sym, inl, inr, Bool, ◌&&◌, ◌||◌, any, retain, not, List, [], ◌∷◌, ◌++◌,
  length, Option, none, some, Result, arith, Bool-cases, Option-cases, is_some, is_empty, if_intro,
  Holds, checked_add_u64, u64_max, leb, ◌==◌, subst,
}
use neon_hearth.External.{Crates, DeviceId, before}
use neon_hearth.Presence.Types.{
  PresenceState, PresenceEvidence, PresenceTransition, DevicePresence, PresenceEngine,
  PresenceError,
}
use neon_hearth.Presence.Evidence.{semantically_retained, same_evidence, stale_control}
use neon_hearth.Presence.Config.{refusal}
use neon_hearth.Presence.Devices.{get, insert}
use neon_hearth.Presence.Histories.{push_history}
use neon_hearth.Presence.Absorption.{Absorbed, absorb, prior_answer, or_fresh}
use neon_hearth.Presence.Engine.{
  recompute, evaluate, ingest_current, ingest_correction, ingest_admitted, ingest_authorized,
  synthetic,
}
use neon_hearth.Presence.Maps.{get-insert, same_device_refl}
use neon_hearth.Presence.Retention.{Advance-still}
use neon_hearth.Presence.Pasts.{absorb-Advance}
use neon_hearth.Presence.Moves.{Moves, Moves-trans, Moves-update, Moves-refl}
use neon_hearth.Presence.Taken.{
  Took, Answers, next_made, taken_by, take_transition_ok, Took-equal, Took-Answers, recompute-Took,
  or_fresh-Advance, Moves-push,
}

module _ (c : Crates) where
  -- A call that first changes a device and then takes transitions, `xs` before it and the rest by it.
  ingest_current-Took :
      (e : PresenceEvidence c) (arrival : c.DateTime) (outdated : Bool)
      (events : List (PresenceTransition c)) (old engine : PresenceEngine c) (d : DevicePresence c)
      → Moves events old engine
      → get c e.device_id engine.devices ≡ some d
      → engine.next_transition < u64_max
      → Took c old (ingest_current c e arrival outdated events engine)
  unfolding ingest_current
  ingest_current-Took e arrival outdated events old engine d before_it there room =
      elim (Bool-cases (outdated && is_empty events)) [
        | inl quiet ↦ Took-equal c old engine events _ (simp (quiet, ingest_current)) before_it
        | inr go ↦
            let took = recompute-Took c e.device_id arrival e engine d there room in
            Took-equal c old (recompute c e.device_id arrival e engine).1 (events ++ took.made) _
              (simp (go, took.done, ingest_current)) (Moves-trans before_it took.moves)
      ]

  ingest_correction-Took :
      (e : PresenceEvidence c) (arrival : c.DateTime) (a : Absorbed c)
      (old engine : PresenceEngine c)
      → Moves [] old engine
      → get c e.device_id engine.devices ≡ some a.device
      → engine.next_transition + 2 ≤ u64_max
      → Took c old (ingest_correction c e arrival a engine)
  unfolding ingest_correction
  ingest_correction-Took e arrival a old engine before_it there room =
      elim (Option-cases a.correction) [
        | inl plain ↦ subst (Took c old) (sym (simp (plain, ingest_correction))) (
            ingest_current-Took e arrival a.outdated [] old engine a.device before_it there
              (omega (arith, room)))
        | inr ((departure, target), late) ↦
            let t =
              next_made c e.device_id PresenceState.offline target e arrival (some departure)
                engine.next_transition in
            let new = taken_by c a.device t engine in
            let kept = push_history c t engine.cfg.max_history_per_device a.device in
            subst (Took c old)
              (sym (
                simp (
                  late,
                  ingest_correction,
                  take_transition_ok c e.device_id a.device PresenceState.offline target e arrival
                      (some departure) engine (omega (arith, room)),
                )))
              (ingest_current-Took e arrival a.outdated (t ∷ []) old new kept
                (Moves-trans before_it (
                  Moves-push c t a.device engine.cfg.max_history_per_device engine
                    (rw there (Advance-still (some a.device) (some a.device) refl refl)) refl
                    (omega (arith, room))))
                (rw
                  (
                    get-insert c e.device_id e.device_id kept engine.devices,
                    same_device_refl c e.device_id,
                  )
                  refl)
                (omega (arith, room)))
      ]

  ingest_admitted-Took :
      (e : PresenceEvidence c) (arrival : c.DateTime) (retain_input : Bool)
      (engine : PresenceEngine c)
      → engine.next_transition + 2 ≤ u64_max
      → Took c engine (ingest_admitted c e arrival retain_input engine)
  unfolding ingest_admitted
  ingest_admitted-Took e arrival retain_input engine room =
      let was = get c e.device_id engine.devices in
      let a = absorb c engine.cfg e arrival retain_input (or_fresh c arrival was) in
      ingest_correction-Took e arrival a engine _
        (Moves-update e.device_id a.device engine (
          or_fresh-Advance c arrival was
            (absorb-Advance c engine.cfg e arrival retain_input (or_fresh c arrival was))))
        (rw
          (
            get-insert c e.device_id e.device_id a.device engine.devices,
            same_device_refl c e.device_id,
          )
          refl)
        room

  after_Moves :
      (old engine : PresenceEngine c)
      (r : Result (List (PresenceTransition c)) PresenceError × PresenceEngine c)
      → Moves [] old engine
      → Took c engine r
      → Took c old r
  after_Moves old engine r before_it took = record {
    made = took.made;
    done = took.done;
    moves = Moves-trans before_it took.moves;
  }

  prior_answer-Answers :
      (e : PresenceEvidence c) (arrival : c.DateTime) (retain_input : Bool)
      (engine : PresenceEngine c) (was : Option (DevicePresence c))
      → Holds
          (λ answer. Answers c engine (answer, engine))
          (prior_answer c engine.cfg e arrival retain_input was)
  unfolding prior_answer
  prior_answer-Answers e arrival retain_input engine none = tt
  prior_answer-Answers e arrival retain_input engine (some d) =
      let Answered : Option (Result (List (PresenceTransition c)) PresenceError) → Type 0 =
        Holds (λ answer. Answers c engine (answer, engine)) in
      if_intro Answered (before c arrival d.last_evaluation) (λ rollback. refl)
        (λ in_order.
          if_intro Answered (any (λ x. same_evidence c x e) d.evidence || stale_control c d e)
            (λ known. Moves-refl engine)
            (λ fresh.
              if_intro Answered
                (retain_input
                  && leb engine.cfg.max_evidence_per_device (
                      length
                        (retain (λ x. semantically_retained c x arrival engine.cfg) d.evidence)))
                (λ full. refl) (λ room. tt)))

  -- `ingest_authorized` refuses evidence and leaves the engine as it is, or it answers with the
  -- transitions that it takes: each device's history takes its own of them at its end, and they bear
  -- the next numbers of the sequence.
  pub ingest_authorized-Answers :
      (e : PresenceEvidence c) (arrival : c.DateTime) (enforcement_authorized : Bool)
      (engine : PresenceEngine c)
      → Answers c engine (ingest_authorized c e arrival enforcement_authorized engine)
  unfolding ingest_authorized
  ingest_authorized-Answers e arrival enforcement_authorized engine =
      let retain_input = semantically_retained c e arrival engine.cfg in
      let was = get c e.device_id engine.devices in
      let prior = prior_answer-Answers e arrival retain_input engine was in
      elim (Option-cases (refusal c engine.cfg e arrival enforcement_authorized)) [
        | inr (x, refused) ↦ rw (refused, ingest_authorized) refl
        | inl valid ↦
            rw (valid, ingest_authorized)
              (if_intro (Answers c engine)
                (not (is_some was) && leb engine.cfg.max_devices (length engine.devices))
                (λ full. refl)
                (λ room.
                  elim (Option-cases (prior_answer c engine.cfg e arrival retain_input was)) [
                    | inr (answer, known) ↦
                        rw known
                          (subst (Holds (λ answer. Answers c engine (answer, engine))) known prior)
                    | inl fresh ↦ rw fresh (
                        if_intro (Answers c engine)
                          (is_some (checked_add_u64 engine.next_transition 2))
                          (λ left.
                            Took-Answers c engine _
                              (ingest_admitted-Took e arrival retain_input engine (ground arith)))
                          (λ exhausted. refl))
                  ]))
      ]

  -- `evaluate` refuses to go on and leaves the engine as it is, or it answers with the transition
  -- that it takes, if there is one.
  pub evaluate-Answers :
      (id : DeviceId c) (at : c.DateTime) (engine : PresenceEngine c)
      → engine.next_transition ≤ u64_max
      → Answers c engine (evaluate c id at engine)
  unfolding evaluate
  evaluate-Answers id at engine in_range = elim (Option-cases (get c id engine.devices)) [
    | inl no_device ↦ rw (no_device, evaluate) refl
    | inr (d, there) ↦
        let seen : DevicePresence c = record d { last_evaluation = at } in
        rw (there, evaluate)
          (if_intro (Answers c engine) (before c at d.last_evaluation) (λ rollback. refl)
            (λ in_order.
              if_intro (Answers c engine) (engine.next_transition == u64_max) (λ exhausted. refl)
                (λ left.
                  let now : PresenceEngine c = record engine {
                    devices = insert c id seen engine.devices;
                  } in
                  Took-Answers c engine _ (
                    after_Moves engine now _
                      (Moves-update id seen engine
                        (rw there (Advance-still (some d) (some seen) refl refl)))
                      (recompute-Took c id at (synthetic c id at) now seen
                        (rw (get-insert c id id seen engine.devices, same_device_refl c id) refl)
                        (ground arith))))))
  ]
