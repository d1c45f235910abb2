-- ===== src/Doctor/Mtu.antt =====
-- crates/lattice-doctor/src/engine.rs, diagnosis.rs and repair.rs: where the MTU of a repair comes
-- from.
use neon_hearth.Prelude.{
  ℕ, ◌≡◌, Bool, true, String, List, [], ◌∷◌, All, All-append, All-mono, Holds, Option, none, some,
  Result, ok, err, any, leb, ◌==◌, arith,
}
use neon_hearth.Prelude.Sorting.{min_by, All-min_by, All-sort_by, All-dedup}
use neon_hearth.External.{Host}
use neon_hearth.Doctor.Probe.{ProbeResponse, ProbeError, ProbeTransport}
use neon_hearth.Doctor.Check.{CheckKind, DiagnosticBudget, CheckDetail}
use neon_hearth.Doctor.Diagnosis.{kind_for, kind_of_detail}
use neon_hearth.Doctor.Repair.{ApprovalAction, RepairPlan, RepairContext, plan_repair}
use neon_hearth.Doctor.Engine.Config.{DoctorConfig}
use neon_hearth.Doctor.Engine.Session.{Session}
use neon_hearth.Doctor.Engine.Results.{conclude, failed_probe}
use neon_hearth.Doctor.Engine.PathChecks.{
  MtuSample, mtu_step, mtu_loop, probe_sizes, conclude_mtu, check_mtu,
}

-- The MTU that a plan sets.
abbrev pub planned_mtu : RepairPlan → Option ℕ
planned_mtu
      (RepairPlan.approval_required_reversible
        (ApprovalAction.set_interface_mtu interface mtu)
        why) =
    some mtu
planned_mtu _ = none

abbrev pub is_one_of : List ℕ → ℕ → Bool
is_one_of sizes n = any (λ m. m == n) sizes

module _ (h : Host) {W : Type 0} (t : ProbeTransport h W) (config : DoctorConfig h) where
  abbrev Configured : ℕ → Type 0
  Configured n = is_one_of config.mtu_probe_sizes n ≡ true

  -- A sample whose passing sizes are all configured.
  abbrev Sampled : Result MtuSample String → Type 0
  Sampled (err error) = Unit
  Sampled (ok sample) = All Configured sample.passing

  step-Sampled :
      (size : ℕ) (sample : MtuSample) (a : Result (ProbeResponse h) ProbeError)
      → Configured size
      → All Configured sample.passing
      → Sampled (mtu_step size sample a)
  step-Sampled size sample (ok (ProbeResponse.ping_reply rtt)) here all =
      All-append Configured sample.passing (size ∷ []) all (here, tt)
  step-Sampled size sample (ok ProbeResponse.ping_timeout) here all = all
  step-Sampled size sample (ok (ProbeResponse.fragmentation_needed next)) here all = all
  step-Sampled size sample (ok _) here all = tt
  step-Sampled size sample (err error) here all = tt

  loop-Sampled :
      (budget : DiagnosticBudget) (sizes : List ℕ) (sample : Result MtuSample String)
      (s : Session W)
      → All Configured sizes
      → Sampled sample
      → Sampled (mtu_loop h t config budget sizes sample s).0
  unfolding mtu_loop
  loop-Sampled budget [] sample s sizes all = all
  loop-Sampled budget (size ∷ rest) (err error) s sizes all = tt
  loop-Sampled budget (size ∷ rest) (ok sample) s sizes all =
      loop-Sampled budget rest _ _ sizes.1 (step-Sampled size sample _ sizes.0 all)

  any_here : (n : ℕ) (sizes : List ℕ) → is_one_of (n ∷ sizes) n ≡ true
  any_here n sizes = ground arith

  any_later : (n m : ℕ) (sizes : List ℕ) → is_one_of sizes n ≡ true → is_one_of (m ∷ sizes) n ≡ true
  any_later n m sizes e = ground arith

  All-one_of : (sizes : List ℕ) → All (λ n. is_one_of sizes n ≡ true) sizes
  All-one_of [] = tt
  All-one_of (n ∷ sizes) =
      (any_here n sizes, All-mono _ _ (λ m e. any_later m n sizes e) sizes (All-one_of sizes))

  probe_sizes-Configured : All Configured (probe_sizes h t config)
  unfolding probe_sizes
  probe_sizes-Configured =
      All-dedup Configured ◌==◌ _
        (All-sort_by Configured (λ a b. leb b a) _ (All-one_of config.mtu_probe_sizes))

  plan-Configured :
      (sample : Result MtuSample String) (context : RepairContext) (s : Session W)
      → Sampled sample
      → Holds Configured
          (planned_mtu (plan_repair (kind_for (conclude_mtu h t config sample s).0) context))
  unfolding conclude_mtu conclude failed_probe kind_for kind_of_detail plan_repair
  plan-Configured (err error) context s all = tt
  plan-Configured (ok sample) context s all =
      largest (min_by (λ a b. leb b a) sample.passing) (min_by leb sample.silent_failures)
        (All-min_by Configured (λ a b. leb b a) sample.passing all)
    where
      largest :
          (passing failing : Option ℕ)
          → Holds Configured passing
          → Holds Configured (
              planned_mtu (
                plan_repair
                  (kind_of_detail {h = h} CheckKind.mtu (some (CheckDetail.mtu passing failing)))
                  context))
      largest none failing held = tt
      largest (some n) failing held = held

  -- The MTU that the remedy of an MTU check would set, if it sets one, is one of the sizes that the
  -- configuration has tried, whatever the network answers.
  pub planned_mtu_configured :
      (budget : DiagnosticBudget) (context : RepairContext) (s : Session W)
      → let plan = plan_repair (kind_for (check_mtu h t config budget s).0) context in
        Holds (λ n. is_one_of config.mtu_probe_sizes n ≡ true) (planned_mtu plan)
  unfolding check_mtu
  planned_mtu_configured budget context s =
      plan-Configured _ context _ (loop-Sampled budget _ _ s probe_sizes-Configured tt)
