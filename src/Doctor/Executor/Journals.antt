-- ===== src/Doctor/Executor/Journals.antt =====
-- crates/lattice-doctor/src/executor.rs: `EventLog` beside the world behind the transport, and the
-- calls of the transport.
use neon_hearth.Prelude.{◌++◌, String, List, [], ◌∷◌, length, Result, as_u32}
use neon_hearth.External.{Host}
use neon_hearth.Doctor.Check.{Measurement}
use neon_hearth.Doctor.Executor.Types.{RepairTransport, RepairEvent, RepairEventKind}
use neon_hearth.Doctor.Executor.Symptoms.{Symptom, symptom_of, and_finite}

pub record Journal (h : Host) (W : Type 0) : Type 0 where
  pub events : List (RepairEvent h)
  pub world : W

abbrev pub J : Host → Type 0 → Type 0 → Type 0
J h W A = Journal h W → A × Journal h W

infixl 5 ◌>>=◌ ◌>>◌
abbrev pub ◌>>=◌ : {h : Host} {W A B : Type 0} → J h W A → (A → J h W B) → J h W B
◌>>=◌ m f s = f (m s).0 (m s).1

abbrev pub ◌>>◌ : {h : Host} {W A B : Type 0} → J h W A → J h W B → J h W B
m >> k = m >>= λ _. k

abbrev pub pure : {h : Host} {W A : Type 0} → A → J h W A
pure a s = (a, s)

module _ (h : Host) {W : Type 0} (t : RepairTransport h W) where
  -- `EventLog::push`.
  unfoldable pub push : RepairEventKind h → J h W Unit
  push kind s =
      let time = t.now s.world in
      (
        tt,
        record {
          events =
              s.events
              ++ record { sequence = as_u32 (length s.events); at = time.0; kind = kind } ∷ [];
          world = time.1;
        },
      )

  -- A call of the transport leaves the events as they are.
  abbrev pub call : {A : Type 0} → (W → A × W) → J h W A
  call f s = let answer = f s.world in (answer.0, record s { world = answer.1 })

  -- `measure_symptom`, then `finite`.
  abbrev pub measure_symptom : Symptom h → J h W (Result (Measurement h) String)
  measure_symptom symptom = do
    answer ← call (t.measure symptom.check)
    pure (and_finite h (symptom_of h symptom answer))
