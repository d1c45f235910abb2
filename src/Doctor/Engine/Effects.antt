-- ===== src/Doctor/Engine/Effects.antt =====
-- A rule for what checks do to the session: a relation that is graded by the probes sent and that
-- holds of `send` and of reading the clock holds of every check, at the check's cost.
use mathlib.Core.Option
use neon_hearth.Prelude.{
  ℕ, zero, suc, ◌+◌, ◌≤◌, Bool, true, false, String, List, [], ◌∷◌, length, Option, none, some,
  Result, ok, err, arith, Option-cases, inl, inr, ◌==◌, leb,
}
use neon_hearth.Prelude.Sorting.{sort_by, min_by, length-sort_by, length-dedup}
use neon_hearth.Doctor.Engine.{run_check}
use neon_hearth.External.{Host}
use neon_hearth.Doctor.Probe.{ProbeRequest, ProbeResponse, ProbeError, ProbeTransport}
use neon_hearth.Doctor.Check.{CheckKind, CheckResult, Metric, MeasureUnit, DiagnosticBudget}
use neon_hearth.Doctor.Engine.Config.{DoctorConfig}
use neon_hearth.Doctor.Engine.Session.{Session, M, send, measurement}
use neon_hearth.Doctor.Engine.HostChecks.{
  measure_some, conclude_collector, check_collector, conclude_link, check_adapter_link,
  conclude_address, check_address, conclude_duplicate_ip, check_duplicate_ip, conclude_wifi,
  check_wifi, confirmed_address,
}
use neon_hearth.Doctor.Engine.PathChecks.{
  MtuSample, ping_loop, ping_sample, check_gateway, conclude_router, check_router,
  check_loss_latency, mtu_loop, mtu_step, probe_sizes, conclude_mtu, check_mtu, query_resolver,
  query_all, check_dns, conclude_route_vpn, check_route_vpn, conclude_internet, check_internet,
  gateway_passed, add_reply,
}

module _ (h : Host) {W : Type 0} (t : ProbeTransport h W) (budget : DiagnosticBudget) where
  pub record Effects : Type 1 where
    pub Within : ℕ → Session W → Session W → Type 0
    pub stay : (s : Session W) → Within 0 s s
    pub widen : {j k : ℕ} {s u : Session W} → j ≤ k → Within j s u → Within k s u
    pub join : {j k : ℕ} {s u v : Session W} → Within j s u → Within k u v → Within (j + k) s v
    pub ask : (request : ProbeRequest) (s : Session W) → Within 1 s (send h t budget request s).1
    pub look :
        (metric : Metric) (value : h.Float) (measure_unit : MeasureUnit) (s : Session W)
        → Within 0 s (measurement h t metric value measure_unit s).1

-- The probes that a check may send, with no cast.
abbrev pub full_cost : {h : Host} → DoctorConfig h → CheckKind → ℕ
full_cost config CheckKind.gateway = config.ping_count
full_cost config CheckKind.loss_latency = config.ping_count
full_cost config CheckKind.mtu = length config.mtu_probe_sizes
full_cost config CheckKind.dns = length config.configured_resolvers + 1
full_cost config _ = 1

module _ (h : Host) {W : Type 0} (t : ProbeTransport h W) (config : DoctorConfig h)
    (budget : DiagnosticBudget) (e : Effects h t budget) where
  open e use {Within, stay, widen, join, ask, look}

  -- An action that sends at most `k` probes.
  abbrev Costs : {A : Type 0} → ℕ → M W A → Type 0
  Costs k m = (s : Session W) → Within k s (m s).1

  measure_some_cost :
      (value : Option h.Float) (metric : Metric) (measure_unit : MeasureUnit)
      → Costs 0 (measure_some h t config value metric measure_unit)
  measure_some_cost none metric measure_unit s = stay s
  measure_some_cost (some value) metric measure_unit s = look metric value measure_unit s

  collector_cost :
      (a : Result (ProbeResponse h) ProbeError) → Costs 0 (conclude_collector h t config a)
  unfolding conclude_collector
  collector_cost (ok (ProbeResponse.collector_status p c w)) s =
      join (look _ _ _ s) (join (look _ _ _ _) (look _ _ _ _))
  collector_cost (ok _) s = stay s
  collector_cost (err x) s = stay s

  link_cost : (a : Result (ProbeResponse h) ProbeError) → Costs 0 (conclude_link h t config a)
  unfolding conclude_link
  link_cost (ok (ProbeResponse.link_status up speed)) s =
      join (look _ _ _ s) (measure_some_cost _ _ _ _)
  link_cost (ok _) s = stay s
  link_cost (err x) s = stay s

  address_cost : (a : Result (ProbeResponse h) ProbeError) → Costs 0 (conclude_address h t config a)
  unfolding conclude_address
  address_cost (ok (ProbeResponse.ip_config address lease)) s = join (look _ _ _ s) (look _ _ _ _)
  address_cost (ok _) s = stay s
  address_cost (err x) s = stay s

  duplicate_ip_cost :
      (address : String) (a : Result (ProbeResponse h) ProbeError)
      → Costs 0 (conclude_duplicate_ip h t config address a)
  unfolding conclude_duplicate_ip
  duplicate_ip_cost address (ok (ProbeResponse.arp_probe macs)) s = look _ _ _ s
  duplicate_ip_cost address (ok _) s = stay s
  duplicate_ip_cost address (err x) s = stay s

  check_duplicate_ip_cost :
      (prior : List (CheckResult h)) → Costs 1 (check_duplicate_ip h t config budget prior)
  unfolding check_duplicate_ip
  check_duplicate_ip_cost prior s = elim (Option-cases (confirmed_address prior)) [
    | inl none_known ↦ rw (none_known, check_duplicate_ip) (widen (omega arith) (stay s))
    | inr (address, known) ↦
        rw (known, check_duplicate_ip) (join (ask _ s) (duplicate_ip_cost address _ _))
  ]

  wifi_cost : (a : Result (ProbeResponse h) ProbeError) → Costs 0 (conclude_wifi h t config a)
  unfolding conclude_wifi
  wifi_cost (ok (ProbeResponse.wifi_metrics false rssi retry)) s = stay s
  wifi_cost (ok (ProbeResponse.wifi_metrics true none retry)) s = stay s
  wifi_cost (ok (ProbeResponse.wifi_metrics true (some rssi) retry)) s =
      join (look _ _ _ s) (measure_some_cost retry _ _ _)
  wifi_cost (ok _) s = stay s
  wifi_cost (err x) s = stay s

  ping_cost :
      (target : String) (left sent : ℕ) (rtts : List h.Float)
      → Costs left (ping_loop h t config budget target left sent rtts)
  unfolding ping_loop
  ping_cost target zero sent rtts s = stay s
  ping_cost target (suc left) sent rtts s =
      widen (omega arith) (join (ask _ s) (ping_cost target left (sent + 1) (add_reply rtts _) _))

  ping_sample_cost :
      (target : String) → Costs config.ping_count (ping_sample h t config budget target)
  unfolding ping_sample
  ping_sample_cost target s = ping_cost target config.ping_count 0 [] s

  check_gateway_cost : Costs config.ping_count (check_gateway h t config budget)
  unfolding check_gateway
  check_gateway_cost s =
      widen (omega arith)
        (join (ping_sample_cost config.gateway s) (join (look _ _ _ _) (measure_some_cost _ _ _ _)))

  router_cost : (a : Result (ProbeResponse h) ProbeError) → Costs 0 (conclude_router h t config a)
  unfolding conclude_router
  router_cost (ok (ProbeResponse.router_status responsive uptime)) s = look _ _ _ s
  router_cost (ok _) s = stay s
  router_cost (err x) s = stay s

  check_loss_latency_cost : Costs config.ping_count (check_loss_latency h t config budget)
  unfolding check_loss_latency
  check_loss_latency_cost s =
      widen (omega arith)
        (join (ping_sample_cost config.gateway s) (join (look _ _ _ _) (measure_some_cost _ _ _ _)))

  mtu_loop_cost :
      (sizes : List ℕ) (sample : Result MtuSample String)
      → Costs (length sizes) (mtu_loop h t config budget sizes sample)
  unfolding mtu_loop
  mtu_loop_cost [] sample s = stay s
  mtu_loop_cost (size ∷ sizes) (err x) s = widen (omega arith) (stay s)
  mtu_loop_cost (size ∷ sizes) (ok sample) s =
      widen (omega arith) (join (ask _ s) (mtu_loop_cost sizes (mtu_step size sample _) _))

  mtu_cost : (sample : Result MtuSample String) → Costs 0 (conclude_mtu h t config sample)
  unfolding conclude_mtu
  mtu_cost (err x) s = stay s
  mtu_cost (ok sample) s =
      join
        (measure_some_cost (Option.map h.f64.from_ℕ (min_by (λ a b. leb b a) sample.passing))
          Metric.passing_mtu_bytes MeasureUnit.bytes s)
        (measure_some_cost (Option.map h.f64.from_ℕ (min_by leb sample.silent_failures))
          Metric.failing_mtu_bytes MeasureUnit.bytes _)

  length-probe_sizes : length (probe_sizes h t config) ≤ length config.mtu_probe_sizes
  unfolding probe_sizes
  length-probe_sizes = omega (
    arith,
    length-dedup ◌==◌ (sort_by (λ a b. leb b a) config.mtu_probe_sizes),
    length-sort_by (λ a b. leb b a) config.mtu_probe_sizes,
  )

  check_mtu_cost : Costs (length config.mtu_probe_sizes) (check_mtu h t config budget)
  unfolding check_mtu
  check_mtu_cost s =
      widen (omega (arith, length-probe_sizes))
        (join (mtu_loop_cost (probe_sizes h t config) _ s) (mtu_cost _ _))

  query_all_cost :
      (resolvers : List String) → Costs (length resolvers) (query_all h t config budget resolvers)
  unfolding query_all query_resolver
  query_all_cost [] s = stay s
  query_all_cost (r ∷ rs) s = widen (omega arith) (join (ask _ s) (query_all_cost rs _))

  check_dns_cost : Costs (length config.configured_resolvers + 1) (check_dns h t config budget)
  unfolding check_dns query_resolver
  check_dns_cost s = widen (omega arith) (
      join (query_all_cost config.configured_resolvers s)
        (join (ask _ _) (join (look _ _ _ _) (measure_some_cost _ _ _ _))))

  route_vpn_cost :
      (a : Result (ProbeResponse h) ProbeError) → Costs 0 (conclude_route_vpn h t config a)
  unfolding conclude_route_vpn
  route_vpn_cost (ok (ProbeResponse.route_table routes)) s = look _ _ _ s
  route_vpn_cost (ok _) s = stay s
  route_vpn_cost (err x) s = stay s

  internet_cost :
      (lan_ok : Bool) (a : Result (ProbeResponse h) ProbeError)
      → Costs 0 (conclude_internet h t config lan_ok a)
  unfolding conclude_internet
  internet_cost lan_ok (ok (ProbeResponse.reachable latency)) s = join (look _ _ _ s) (look _ _ _ _)
  internet_cost lan_ok (ok ProbeResponse.unreachable) s = look _ _ _ s
  internet_cost lan_ok (ok _) s = stay s
  internet_cost lan_ok (err x) s = stay s

  pub run_check-Within :
      (kind : CheckKind) (prior : List (CheckResult h)) (s : Session W)
      → Within
          (full_cost config kind)
          s
          (run_check h t (record { config = config; budget = budget }) kind prior s).1
  unfolding run_check check_collector check_adapter_link check_address check_wifi check_router
      check_route_vpn check_internet
  run_check-Within CheckKind.collector_health prior s = join (ask _ s) (collector_cost _ _)
  run_check-Within CheckKind.adapter_link prior s = join (ask _ s) (link_cost _ _)
  run_check-Within CheckKind.address_dhcp prior s = join (ask _ s) (address_cost _ _)
  run_check-Within CheckKind.duplicate_ip prior s = check_duplicate_ip_cost prior s
  run_check-Within CheckKind.wifi_quality prior s = join (ask _ s) (wifi_cost _ _)
  run_check-Within CheckKind.gateway prior s = check_gateway_cost s
  run_check-Within CheckKind.router_health prior s = join (ask _ s) (router_cost _ _)
  run_check-Within CheckKind.loss_latency prior s = check_loss_latency_cost s
  run_check-Within CheckKind.mtu prior s = check_mtu_cost s
  run_check-Within CheckKind.dns prior s = check_dns_cost s
  run_check-Within CheckKind.route_vpn prior s = join (ask _ s) (route_vpn_cost _ _)
  run_check-Within CheckKind.internet_reachability prior s =
      join (ask _ s) (internet_cost (gateway_passed h t config prior) _ _)
