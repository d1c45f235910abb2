-- ===== src/Doctor/Engine/Budget.antt =====
-- crates/lattice-doctor/src/engine.rs: a diagnostic run keeps to its budget of probes.
use neon_hearth.Prelude.{
  ℕ, ◌+◌, ◌*◌, ◌≤◌, ◌≡◌, refl, Bool, false, ◌||◌, List, [], ◌∷◌, ◌++◌, length, length-append, All,
  All-append, Result, ok, err, subst, arith, ltb, saturating_add, u32_max, Option-cases, Bool-cases,
  inl, inr,
}
use neon_hearth.External.{Host}
use neon_hearth.Doctor.Probe.{Probe, ProbeRequest, ProbeTransport, Logged, logged}
use neon_hearth.Doctor.Check.{
  CheckKind, CheckResult, DiagnosticBudget, DoctorError, execution_order, Metric, MeasureUnit,
}
use neon_hearth.Doctor.Engine.{
  DiagnosticEngine, new_engine, probe_cost, run_check, visit, run_loop, run,
}
use neon_hearth.Doctor.Engine.Config.{DoctorConfig, validate, validate-IsBounded, IsBounded}
use neon_hearth.Doctor.Engine.Session.{Session, send, measurement}
use neon_hearth.Doctor.Engine.Results.{dependency_skip}
use neon_hearth.Doctor.Engine.Effects.{Effects, full_cost, run_check-Within}

module _ (h : Host) {W : Type 0} (t : ProbeTransport h W) (budget : DiagnosticBudget) where
  abbrev sent : Session (Logged W) → ℕ
  sent s = length s.world.log

  -- The probe was given the budget's time.
  abbrev pub Granted : Probe → Type 0
  Granted p = p.timeout_ms ≡ budget.per_probe_timeout_ms

  -- At most `k` probes went out, all of them counted and given the budget's time.
  record Spends (k : ℕ) (s u : Session (Logged W)) : Type 0 where
    grows : sent s ≤ sent u
    capped : sent u ≤ sent s + k
    counted : s.used + k ≤ u32_max → u.used + sent s ≡ s.used + sent u
    granted : All Granted s.world.log → All Granted u.world.log

  send-Spends :
      (request : ProbeRequest) (s : Session (Logged W))
      → Spends 1 s (send h (logged t) budget request s).1
  unfolding send
  send-Spends request s =
      let p : Probe = record { request = request; timeout_ms = budget.per_probe_timeout_ms } in
      let grown = length-append s.world.log (p ∷ []) in
      record {
        grows = omega (arith, grown);
        capped = omega (arith, grown);
        counted = λ room. omega (arith, grown);
        granted = λ a. All-append Granted s.world.log (p ∷ []) a (refl, tt);
      }

  look-Spends :
      (metric : Metric) (value : h.Float) (measure_unit : MeasureUnit) (s : Session (Logged W))
      → Spends 0 s (measurement h (logged t) metric value measure_unit s).1
  unfolding measurement
  look-Spends metric value measure_unit s = record {
    grows = omega arith;
    capped = omega arith;
    counted = λ room. omega arith;
    granted = λ a. a;
  }

  stay-Spends : (s : Session (Logged W)) → Spends 0 s s
  stay-Spends s = record {
    grows = omega arith;
    capped = omega arith;
    counted = λ room. omega arith;
    granted = λ a. a;
  }

  widen-Spends : {j k : ℕ} {s u : Session (Logged W)} → j ≤ k → Spends j s u → Spends k s u
  widen-Spends le m = record {
    grows = m.grows;
    capped = omega arith;
    counted = λ room. m.counted (omega arith);
    granted = m.granted;
  }

  join-Spends :
      {j k : ℕ} {s u v : Session (Logged W)} → Spends j s u → Spends k u v → Spends (j + k) s v
  join-Spends m n = record {
    grows = omega arith;
    capped = omega arith;
    counted = λ room.
        let first = m.counted (omega arith) in let second = n.counted (omega arith) in omega arith;
    granted = λ a. n.granted (m.granted a);
  }

  spending : Effects h (logged t) budget
  spending = record {
    Within = Spends;
    stay = stay-Spends;
    widen = widen-Spends;
    join = join-Spends;
    ask = send-Spends;
    look = look-Spends;
  }

module _ (h : Host) {W : Type 0} (t : ProbeTransport h W) (engine : DiagnosticEngine h)
    (bounded : IsBounded h engine.config) where
  open engine use {config, budget}

  full_cost_bounds :
      (kind : CheckKind)
      → (full_cost config kind ≤ 16) × (probe_cost config kind ≡ full_cost config kind)
  unfolding probe_cost
  full_cost_bounds kind = ground arith

  -- The counter is exact and within the budget, and every probe had the budget's time.
  record Sound (s : Session (Logged W)) : Type 0 where
    counted : sent h t budget s ≡ s.used
    within : s.used ≤ budget.max_probes
    granted : All (Granted h t budget) s.world.log

  check-Sound :
      (kind : CheckKind) (checks : List (CheckResult h)) (s : Session (Logged W))
      → Sound s
      → s.used ≤ 1000
      → saturating_add s.used (probe_cost config kind) ≤ budget.max_probes
      → Sound (run_check h (logged t) engine kind checks s).1
        × ((run_check h (logged t) engine kind checks s).1.used ≤ s.used + 16)
  unfolding spending
  check-Sound kind checks s v small fits =
      let m = run_check-Within h (logged t) config budget (spending h t budget) kind checks s in
      let (cheap, cost) = full_cost_bounds kind in
      let exact = m.counted (omega arith) in
      (
        record { counted = omega arith; within = omega arith; granted = m.granted v.granted },
        omega arith,
      )

  visit-Sound :
      (kind : CheckKind) (checks : List (CheckResult h)) (ex : Bool) (s : Session (Logged W))
      → Sound s
      → s.used ≤ 1000
      → Sound (visit h (logged t) engine kind checks ex s).1
        × ((visit h (logged t) engine kind checks ex s).1.used ≤ s.used + 16)
  unfolding visit
  visit-Sound kind checks ex s v small = elim (Option-cases (dependency_skip kind checks)) [
    | inr (because, e) ↦ rw (e, visit) (v, omega arith)
    | inl e ↦
        elim (Bool-cases
          (ex || ltb budget.max_probes (saturating_add s.used (probe_cost config kind)))) [
            | inl out ↦ rw (e, visit) (rw out (v, omega arith))
            | inr room ↦ rw (e, visit) (rw room (check-Sound kind checks s v small (ground arith)))
          ]
  ]

  run_loop-Sound :
      (kinds : List CheckKind) (checks : List (CheckResult h)) (ex : Bool) (s : Session (Logged W))
      → Sound s
      → s.used + 16 * length kinds ≤ 1000
      → Sound (run_loop h (logged t) engine kinds checks ex s).1
  unfolding run_loop
  run_loop-Sound [] checks ex s v small = v
  run_loop-Sound (kind ∷ kinds) checks ex s v small =
      let round = visit h (logged t) engine kind checks ex s in
      let (kept, near) = visit-Sound kind checks ex s v (omega arith) in
      run_loop-Sound kinds (checks ++ round.0.0 ∷ []) round.0.1 round.1 kept (omega arith)

  run-Sound :
      (w : W)
      → let (report, after) = run h (logged t) engine (record { world = w; log = [] }) in
        (report.probes_used ≡ length after.log)
        × (report.probes_used ≤ engine.budget.max_probes)
        × All (Granted h t engine.budget) after.log
  unfolding run
  run-Sound w =
      let v =
        run_loop-Sound execution_order [] false
          (record { used = 0; world = ((logged t).now (record { world = w; log = [] })).1 })
          (record { counted = refl; within = omega arith; granted = tt }) (omega arith) in
      (omega arith, v.within, v.granted)

new_engine-IsBounded :
    {h : Host} (config : DoctorConfig h) (budget : DiagnosticBudget) (engine : DiagnosticEngine h)
    → new_engine config budget ≡ ok engine
    → IsBounded h engine.config
unfolding new_engine
new_engine-IsBounded {h} config budget engine e = go (validate config) refl e
  where
    go :
        (r : Result (DoctorConfig h) DoctorError)
        → validate config ≡ r
        → elim r [ err x ↦ err x | ok valid ↦ ok (record { config = valid; budget = budget }) ]
          ≡ ok engine
        → IsBounded h engine.config
    go (err x) v e = absurd (cc e)
    go (ok valid) v e = subst (IsBounded h) (ground arith) (validate-IsBounded config valid v).1

-- Whatever the network answers, a run of an engine that `new` accepts sends no more probes than
-- its budget allows; the report counts exactly those that were sent, and each had the budget's
-- time.
pub run_budget :
    (h : Host) {W : Type 0} (t : ProbeTransport h W) (config : DoctorConfig h)
    (budget : DiagnosticBudget) (engine : DiagnosticEngine h) (w : W)
    → new_engine config budget ≡ ok engine
    → let (report, after) = run h (logged t) engine (record { world = w; log = [] }) in
      (report.probes_used ≡ length after.log)
      × (report.probes_used ≤ engine.budget.max_probes)
      × All (Granted h t engine.budget) after.log
run_budget h t config budget engine w e =
    run-Sound h t engine (new_engine-IsBounded config budget engine e) w
