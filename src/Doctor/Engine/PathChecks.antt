-- ===== src/Doctor/Engine/PathChecks.antt =====
-- crates/lattice-doctor/src/engine.rs: the checks of the path beyond the host: gateway, router,
-- loss and latency, MTU, DNS, routes and internet.
use mathlib.Core.Option
use neon_hearth.Prelude.{
  ℕ, zero, suc, ◌+◌, Bool, true, false, ◌&&◌, not, String, List, [], ◌∷◌, ◌++◌, length, is_empty,
  Result, ok, err, leb, ltb, ◌==◌, is_none_or, is_some_and, as_u32, retain, if◌then◌else◌,
}
use neon_hearth.Prelude.Sorting.{sort_by, dedup, min_by}
use neon_hearth.External.{Host}
use neon_hearth.Doctor.Probe.{
  ProbeRequest, ProbeResponse, ProbeError, ProbeTransport, probe_error_text,
}
use neon_hearth.Doctor.Check.{
  CheckKind, CheckStatus, CheckDetail, CheckResult, Metric, MeasureUnit, DiagnosticBudget,
  ResolverEvidence, ResolverOutcome, high, medium, find_check,
}
use neon_hearth.Doctor.Engine.Config.{DoctorConfig, ping_payload_bytes}
use neon_hearth.Doctor.Engine.Session.{M, ◌>>=◌, pure, send, measurement}
use neon_hearth.Doctor.Engine.Results.{
  conclude, failed_probe, unexpected_response, bool_value, loss_percent, median,
}
use neon_hearth.Doctor.Engine.HostChecks.{measure_some}

abbrev pub is_passed : CheckStatus → Bool
is_passed CheckStatus.passed = true
is_passed _ = false

-- The silent and the passing sizes of an MTU check.
pub record MtuSample : Type 0 where
  pub passing : List ℕ
  pub silent_failures : List ℕ

module _ {h : Host} where
  abbrev pub is_answered : ResolverOutcome h → Bool
  is_answered (ResolverOutcome.answered latency_ms) = true
  is_answered _ = false

  abbrev pub latencies : List (ResolverEvidence h) → List h.Float
  latencies [] = []
  latencies (r ∷ rs) = elim r.outcome [
    | ResolverOutcome.answered l ↦ l ∷ latencies rs
    | _ ↦ latencies rs
  ]

  -- The configured resolvers that did not answer.
  abbrev pub configured_failures : List (ResolverEvidence h) → ℕ
  configured_failures rs =
      length (retain (λ r. not (is_answered r.outcome)) (retain (λ r. not r.independent) rs))

  abbrev pub resolver_outcome : Result (ProbeResponse h) ProbeError → ResolverOutcome h
  resolver_outcome (ok (ProbeResponse.dns_answer addresses latency_ms)) =
      ResolverOutcome.answered latency_ms
  resolver_outcome (ok (ProbeResponse.dns_failure reason)) = ResolverOutcome.failed reason
  resolver_outcome (ok _) = ResolverOutcome.unavailable unexpected_response
  resolver_outcome (err error) = ResolverOutcome.unavailable (probe_error_text error)

  -- What one sized echo adds to the MTU sample, or why the check fails.
  abbrev pub mtu_step :
      ℕ → MtuSample → Result (ProbeResponse h) ProbeError → Result MtuSample String
  mtu_step size sample (ok (ProbeResponse.ping_reply rtt_ms)) =
      ok (record sample { passing = sample.passing ++ size ∷ [] })
  mtu_step size sample (ok ProbeResponse.ping_timeout) =
      ok (record sample { silent_failures = sample.silent_failures ++ size ∷ [] })
  mtu_step size sample (ok (ProbeResponse.fragmentation_needed next_hop_mtu)) = ok sample
  mtu_step size sample (ok _) = err unexpected_response
  mtu_step size sample (err error) = err (probe_error_text error)

  -- The echoes that came back.
  abbrev pub add_reply : List h.Float → Result (ProbeResponse h) ProbeError → List h.Float
  add_reply rtts (ok (ProbeResponse.ping_reply rtt_ms)) = rtts ++ rtt_ms ∷ []
  add_reply rtts _ = rtts

module _ (h : Host) {W : Type 0} (t : ProbeTransport h W) (config : DoctorConfig h) where
  open h use {Float}
  open h.f64 use {from_ℕ, le, total_le}

  abbrev Answer : Type 0
  Answer = Result (ProbeResponse h) ProbeError

  -- The loop of `ping_sample`, over the echoes left; a `u8` bounds them, so `sent` does not wrap.
  unfoldable pub ping_loop : DiagnosticBudget → String → ℕ → ℕ → List Float → M W (ℕ × List Float)
  ping_loop budget target zero sent rtts = pure (sent, rtts)
  ping_loop budget target (suc left) sent rtts = do
    answer ← send h t budget (ProbeRequest.ping target ping_payload_bytes false)
    ping_loop budget target left (sent + 1) (add_reply rtts answer)

  unfoldable pub ping_sample : DiagnosticBudget → String → M W (ℕ × List Float)
  ping_sample budget target = ping_loop budget target config.ping_count 0 []

  unfoldable pub check_gateway : DiagnosticBudget → M W (CheckResult h)
  check_gateway budget = do
    sample ← ping_sample budget config.gateway
    let received = as_u32 (length sample.1)
    a ←
        measurement h t Metric.loss_percent (loss_percent h.f64 sample.0 received)
          MeasureUnit.percent
    rest ← measure_some h t config (min_by total_le sample.1) Metric.rtt_ms MeasureUnit.milliseconds
    pure (
        conclude CheckKind.gateway (leb 1 received) (a ∷ rest) high
          (CheckDetail.gateway_ping sample.0 received))

  unfoldable pub conclude_router : Answer → M W (CheckResult h)
  conclude_router (ok (ProbeResponse.router_status responsive uptime_seconds)) = do
    a ← measurement h t Metric.router_responsive (bool_value h.f64 responsive) MeasureUnit.boolean
    pure (
        conclude CheckKind.router_health responsive (a ∷ []) medium (CheckDetail.router responsive))
  conclude_router (ok _) = pure (failed_probe CheckKind.router_health unexpected_response)
  conclude_router (err error) = pure (failed_probe CheckKind.router_health (probe_error_text error))

  unfoldable pub check_router : DiagnosticBudget → M W (CheckResult h)
  check_router budget = do
    answer ← send h t budget ProbeRequest.router_status
    conclude_router answer

  unfoldable pub check_loss_latency : DiagnosticBudget → M W (CheckResult h)
  check_loss_latency budget = do
    sample ← ping_sample budget config.gateway
    let received = as_u32 (length sample.1)
    let loss = loss_percent h.f64 sample.0 received
    let median_rtt_ms = median h.f64 sample.1
    a ← measurement h t Metric.loss_percent loss MeasureUnit.percent
    rest ← measure_some h t config median_rtt_ms Metric.rtt_ms MeasureUnit.milliseconds
    let thresholds = config.thresholds
    pure (
        conclude CheckKind.loss_latency
          (le loss thresholds.degraded_loss_percent
            && is_none_or median_rtt_ms (λ m. le m thresholds.degraded_median_rtt_ms)
            && leb 1 received)
          (a ∷ rest) medium (CheckDetail.loss_latency loss median_rtt_ms))

  -- The loop of `check_mtu`, with its early return.
  unfoldable pub mtu_loop :
      DiagnosticBudget → List ℕ → Result MtuSample String → M W (Result MtuSample String)
  mtu_loop budget [] sample = pure sample
  mtu_loop budget (size ∷ sizes) (err error) = pure (err error)
  mtu_loop budget (size ∷ sizes) (ok sample) = do
    answer ← send h t budget (ProbeRequest.ping config.internet_probe_address size true)
    mtu_loop budget sizes (mtu_step size sample answer)

  -- `sort_unstable_by(|a, b| b.cmp(a))` and `dedup`.
  unfoldable pub probe_sizes : List ℕ
  unfolding sort_by dedup
  probe_sizes = dedup ◌==◌ (sort_by (λ a b. leb b a) config.mtu_probe_sizes)

  unfoldable pub conclude_mtu : Result MtuSample String → M W (CheckResult h)
  conclude_mtu (err error) = pure (failed_probe CheckKind.mtu error)
  conclude_mtu (ok sample) = do
    let largest_passing_bytes = min_by (λ a b. leb b a) sample.passing
    let smallest_failing_bytes = min_by leb sample.silent_failures
    a ←
        measure_some h t config (Option.map from_ℕ largest_passing_bytes) Metric.passing_mtu_bytes
          MeasureUnit.bytes
    b ←
        measure_some h t config (Option.map from_ℕ smallest_failing_bytes) Metric.failing_mtu_bytes
          MeasureUnit.bytes
    pure (
        conclude CheckKind.mtu (is_empty sample.silent_failures) (a ++ b) medium
          (CheckDetail.mtu largest_passing_bytes smallest_failing_bytes))

  unfoldable pub check_mtu : DiagnosticBudget → M W (CheckResult h)
  check_mtu budget = do
    sample ← mtu_loop budget probe_sizes (ok (record { passing = []; silent_failures = [] }))
    conclude_mtu sample

  unfoldable pub query_resolver : DiagnosticBudget → String → Bool → M W (ResolverEvidence h)
  query_resolver budget resolver independent = do
    answer ← send h t budget (ProbeRequest.dns_query resolver config.dns_probe_name)
    pure (record {
      resolver = resolver;
      independent = independent;
      outcome = resolver_outcome answer;
    })

  -- The loop over the configured resolvers.
  unfoldable pub query_all : DiagnosticBudget → List String → M W (List (ResolverEvidence h))
  query_all budget [] = pure []
  query_all budget (resolver ∷ rest) = do
    first ← query_resolver budget resolver false
    others ← query_all budget rest
    pure (first ∷ others)

  unfoldable pub check_dns : DiagnosticBudget → M W (CheckResult h)
  check_dns budget = do
    configured ← query_all budget config.configured_resolvers
    independent ← query_resolver budget config.independent_resolver true
    let resolvers = configured ++ independent ∷ []
    let failures = configured_failures resolvers
    a ← measurement h t Metric.resolver_failure_count (from_ℕ failures) MeasureUnit.count
    rest ←
        measure_some h t config (min_by total_le (latencies resolvers)) Metric.dns_latency_ms
          MeasureUnit.milliseconds
    pure (
        conclude CheckKind.dns (ltb failures (length config.configured_resolvers)) (a ∷ rest)
          (if failures == 0 then high else medium) (CheckDetail.dns resolvers))

  unfoldable pub conclude_route_vpn : Answer → M W (CheckResult h)
  conclude_route_vpn (ok (ProbeResponse.route_table default_routes)) = do
    let routes = length default_routes
    a ← measurement h t Metric.default_route_count (from_ℕ routes) MeasureUnit.count
    pure (
        conclude CheckKind.route_vpn (routes == 1) (a ∷ []) high
          (CheckDetail.route default_routes (ltb 1 routes)))
  conclude_route_vpn (ok _) = pure (failed_probe CheckKind.route_vpn unexpected_response)
  conclude_route_vpn (err error) = pure (failed_probe CheckKind.route_vpn (probe_error_text error))

  unfoldable pub check_route_vpn : DiagnosticBudget → M W (CheckResult h)
  check_route_vpn budget = do
    answer ← send h t budget ProbeRequest.route_table
    conclude_route_vpn answer

  unfoldable pub conclude_internet : Bool → Answer → M W (CheckResult h)
  conclude_internet lan_ok (ok (ProbeResponse.reachable latency_ms)) = do
    a ← measurement h t Metric.reachability_success (from_ℕ 1) MeasureUnit.boolean
    b ← measurement h t Metric.rtt_ms latency_ms MeasureUnit.milliseconds
    pure (
        conclude CheckKind.internet_reachability true (a ∷ b ∷ []) high
          (CheckDetail.internet true lan_ok))
  conclude_internet lan_ok (ok ProbeResponse.unreachable) = do
    a ← measurement h t Metric.reachability_success (from_ℕ 0) MeasureUnit.boolean
    pure (
        conclude CheckKind.internet_reachability false (a ∷ []) high
          (CheckDetail.internet false lan_ok))
  conclude_internet lan_ok (ok _) =
      pure (failed_probe CheckKind.internet_reachability unexpected_response)
  conclude_internet lan_ok (err error) =
      pure (failed_probe CheckKind.internet_reachability (probe_error_text error))

  -- Whether the gateway check passed.
  abbrev pub gateway_passed : List (CheckResult h) → Bool
  gateway_passed prior = is_some_and (find_check prior CheckKind.gateway) λ r. is_passed r.status

  unfoldable pub check_internet : DiagnosticBudget → List (CheckResult h) → M W (CheckResult h)
  check_internet budget prior = do
    answer ←
        send h t budget
          (ProbeRequest.reach_ip config.internet_probe_address config.internet_probe_port)
    conclude_internet (gateway_passed prior) answer
