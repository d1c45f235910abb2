-- ===== src/Doctor/Engine/Resolvers.antt =====
-- crates/lattice-doctor/src/engine.rs: what the DNS check concludes from its resolvers.
use neon_hearth.Prelude.{
  ◌≤◌, ◌≡◌, refl, Bool, true, false, not, ◌&&◌, String, List, [], ◌∷◌, ◌++◌, length, any, All,
  arith, ltb,
}
use neon_hearth.External.{Host}
use neon_hearth.Doctor.Probe.{ProbeTransport}
use neon_hearth.Doctor.Check.{ResolverEvidence, DiagnosticBudget}
use neon_hearth.Doctor.Engine.Config.{DoctorConfig}
use neon_hearth.Doctor.Engine.Session.{Session}
use neon_hearth.Doctor.Engine.PathChecks.{
  is_answered, configured_failures, query_all, query_resolver,
}

module _ {h : Host} where
  -- A configured resolver that answered.
  abbrev pub has_answer : ResolverEvidence h → Bool
  has_answer r = not r.independent && is_answered r.outcome

  -- Fewer failures than configured resolvers are at least one answer.
  pub failures_answered :
      (rs : List (ResolverEvidence h)) (x : ResolverEvidence h)
      → All (λ r. r.independent ≡ false) rs
      → x.independent ≡ true
      → (configured_failures (rs ++ x ∷ []) ≤ length rs)
        × (ltb (configured_failures (rs ++ x ∷ [])) (length rs) ≡ any has_answer (rs ++ x ∷ []))
  failures_answered [] x a i = ground arith
  failures_answered (r ∷ rs) x a i = ground (arith, failures_answered rs x a.1 i)

module _ (h : Host) {W : Type 0} (t : ProbeTransport h W) (config : DoctorConfig h) where
  pub query_all-configured :
      (budget : DiagnosticBudget) (resolvers : List String) (s : Session W)
      → let found = (query_all h t config budget resolvers s).0 in
        (length found ≡ length resolvers) × All (λ r. r.independent ≡ false) found
  unfolding query_all query_resolver
  query_all-configured budget [] s = (refl, tt)
  query_all-configured budget (r ∷ rs) s =
      let (same, all) = query_all-configured budget rs _ in (omega arith, (refl, all))
