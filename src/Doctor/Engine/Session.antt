-- ===== src/Doctor/Engine/Session.antt =====
-- The state of one diagnostic run, with the `&mut` counter of probes and the world behind the
-- transport, and the effects that every check is made of (`send` and `measurement` of
-- crates/lattice-doctor/src/engine.rs).
use neon_hearth.Prelude.{ℕ, Result, saturating_add}
use neon_hearth.External.{Host}
use neon_hearth.Doctor.Probe.{ProbeRequest, ProbeResponse, ProbeError, ProbeTransport}
use neon_hearth.Doctor.Check.{Metric, MeasureUnit, Measurement, DiagnosticBudget}

pub record Session (W : Type 0) : Type 0 where
  pub used : ℕ
  pub world : W

abbrev pub M : Type 0 → Type 0 → Type 0
M W A = Session W → A × Session W

infixl 5 ◌>>=◌ ◌>>◌
abbrev pub ◌>>=◌ : {W A B : Type 0} → M W A → (A → M W B) → M W B
◌>>=◌ m f s = f (m s).0 (m s).1

abbrev pub ◌>>◌ : {W A B : Type 0} → M W A → M W B → M W B
m >> k = m >>= λ _. k

abbrev pub pure : {W A : Type 0} → A → M W A
pure a s = (a, s)

module _ (h : Host) {W : Type 0} (t : ProbeTransport h W) where
  unfoldable pub send : DiagnosticBudget → ProbeRequest → M W (Result (ProbeResponse h) ProbeError)
  send budget request s =
      let answer =
        t.probe (record { request = request; timeout_ms = budget.per_probe_timeout_ms }) s.world in
      (answer.0, record { used = saturating_add s.used 1; world = answer.1 })

  unfoldable pub measurement : Metric → h.Float → MeasureUnit → M W (Measurement h)
  measurement metric value measure_unit s =
      let time = t.now s.world in
      (
        record {
          metric = metric;
          value = value;
          measure_unit = measure_unit;
          observed_at = time.0;
        },
        record s { world = time.1 },
      )
