-- ===== src/Presence/Timer.antt =====
-- crates/lattice-intelligence/src/presence.rs: the transitions that `evaluate` makes, and what
-- `from_checkpoint` says to them.
use neon_hearth.Prelude.{
  ◌≡◌, refl, ap, inl, inr, List, [], ◌∷◌, ◌++◌, All, none, some, ok, arith, Bool-cases,
  Option-cases, checked_add_u64, u64_max, ◌==◌, subst,
}
use neon_hearth.External.{Crates, DeviceId, before}
use neon_hearth.Presence.Types.{
  PresenceConfig, PresenceEvidence, PresenceTransition, DevicePresence, PresenceEngine, same_state,
}
use neon_hearth.Presence.Devices.{get, insert}
use neon_hearth.Presence.Maps.{get-insert, same_device_refl}
use neon_hearth.Presence.Candidates.{gated}
use neon_hearth.Presence.Histories.{push_history, take_transition, make_transition}
use neon_hearth.Presence.Engine.{evaluate, recompute, synthetic}
use neon_hearth.Presence.Checkpoint.{checkpoint, from_checkpoint}
use neon_hearth.Presence.Taken.{next_made}
use neon_hearth.Presence.Restoring.{IsTimed}
use neon_hearth.Presence.Roundtrip.{checkpoint-IsTimed}

module _ (c : Crates) where
  -- A device whose last transition is not of this kind.
  record Ends (id : DeviceId c) (e : PresenceEvidence c) (engine : PresenceEngine c) : Type 0 where
    device : DevicePresence c
    there : get c id engine.devices ≡ some device
    earlier : List (PresenceTransition c)
    last : PresenceTransition c
    ends : device.history ≡ earlier ++ last ∷ []
    triggered : last.trigger.kind ≡ e.kind

  recompute-Ends :
      (id : DeviceId c) (at : c.DateTime) (e : PresenceEvidence c) (engine new : PresenceEngine c)
      (t : PresenceTransition c) (ts : List (PresenceTransition c))
      → recompute c id at e engine ≡ (ok (t ∷ ts), new)
      → Ends id e new
  unfolding recompute take_transition make_transition push_history
  recompute-Ends id at e engine new t ts h = elim (Option-cases (get c id engine.devices)) [
    | inl gone ↦ ground (arith, h, gone)
    | inr (d, there) ↦ elim (Bool-cases (same_state (gated c d at engine.cfg) d.state)) [
      | inl same ↦ ground (arith, h, there, same)
      | inr moved ↦ elim (Option-cases (checked_add_u64 engine.next_transition 1)) [
        | inl full ↦ ground (arith, h, there, moved, full)
        | inr (next, room) ↦
            let to = gated c d at engine.cfg in
            let called : DevicePresence c = record d { state = to } in
            let made = next_made c id d.state to e at none engine.next_transition in
            let kept = push_history c made engine.cfg.max_history_per_device called in
            let same : record engine {
              devices = insert c id kept engine.devices;
              next_transition = next;
            }
                ≡ new =
              ap (λ r. r.1)
                (simp (there, moved, room, recompute, take_transition, make_transition) at h) in
            subst (Ends id e) same (record {
              device = kept;
              there = simp (get-insert c id id kept engine.devices, same_device_refl c id);
              earlier = _;
              last = made;
              ends = refl;
              triggered = refl;
            })
      ]
    ]
  ]

  evaluate-Ends :
      (id : DeviceId c) (at : c.DateTime) (engine new : PresenceEngine c) (t : PresenceTransition c)
      (ts : List (PresenceTransition c))
      → evaluate c id at engine ≡ (ok (t ∷ ts), new)
      → Ends id (synthetic c id at) new
  unfolding evaluate
  evaluate-Ends id at engine new t ts h = elim (Option-cases (get c id engine.devices)) [
    | inl gone ↦ ground (arith, h, gone)
    | inr (d, there) ↦ elim (Bool-cases (before c at d.last_evaluation)) [
      | inl rollback ↦ ground (arith, h, there, rollback)
      | inr in_order ↦ elim (Bool-cases (engine.next_transition == u64_max)) [
        | inl exhausted ↦ ground (arith, h, there, in_order, exhausted)
        | inr left ↦
            recompute-Ends id at (synthetic c id at) _ new t ts
              (simp (there, in_order, left, evaluate) at h)
      ]
    ]
  ]

  All-last :
      (P : PresenceTransition c → Type 0) (xs : List (PresenceTransition c))
      (t : PresenceTransition c)
      → All P (xs ++ t ∷ [])
      → P t
  All-last P [] t every = every.0
  All-last P (x ∷ xs) t every = All-last P xs t every.1

  -- Once `evaluate` has made a transition, `from_checkpoint` does not take the engine's own checkpoint.
  pub evaluate_not_restored :
      (id : DeviceId c) (at : c.DateTime) (cfg : PresenceConfig)
      (engine new restored : PresenceEngine c) (t : PresenceTransition c)
      (ts : List (PresenceTransition c))
      → evaluate c id at engine ≡ (ok (t ∷ ts), new)
      → ¬ (from_checkpoint c cfg (checkpoint c new) ≡ ok restored)
  evaluate_not_restored id at cfg engine new restored t ts h back =
      let e = evaluate-Ends id at engine new t ts h in
      let timed = All-last (IsTimed c) e.earlier e.last (
        subst (All (IsTimed c)) e.ends
          (checkpoint-IsTimed c cfg new restored id e.device back e.there)) in
      ground (arith, timed, e.triggered)
