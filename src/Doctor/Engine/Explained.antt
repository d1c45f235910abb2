-- ===== src/Doctor/Engine/Explained.antt =====
-- crates/lattice-doctor/src/engine.rs: every check that runs answers for its own kind, and the
-- detail that it reports accounts for its status.
use neon_hearth.Prelude.{
  refl, ap, inl, inr, Bool, true, false, String, List, none, some, Result, ok, err, arith, leb,
  Option-cases,
}
use neon_hearth.Prelude.Sorting.{is_some-min_by}
use neon_hearth.External.{Host}
use neon_hearth.Doctor.Probe.{ProbeResponse, ProbeError, ProbeTransport}
use neon_hearth.Doctor.Check.{CheckKind, CheckResult, DiagnosticBudget}
use neon_hearth.Doctor.Engine.{DiagnosticEngine, run_check}
use neon_hearth.Doctor.Engine.Config.{DoctorConfig}
use neon_hearth.Doctor.Engine.Session.{Session}
use neon_hearth.Doctor.Engine.Results.{conclude, failed_probe}
use neon_hearth.Doctor.Engine.HostChecks.{
  conclude_collector, check_collector, conclude_link, check_adapter_link, conclude_address,
  check_address, conclude_duplicate_ip, check_duplicate_ip, conclude_wifi, check_wifi,
  confirmed_address,
}
use neon_hearth.Doctor.Engine.PathChecks.{
  MtuSample, check_gateway, conclude_router, check_router, check_loss_latency, conclude_mtu,
  check_mtu, check_dns, conclude_route_vpn, check_route_vpn, conclude_internet, check_internet,
  gateway_passed, query_all, query_resolver,
}
use neon_hearth.Doctor.Engine.Resolvers.{failures_answered, query_all-configured}
use neon_hearth.Doctor.Engine.Details.{Explained, passes, loss_latency_accounted}

module _ (h : Host) {W : Type 0} (t : ProbeTransport h W) (config : DoctorConfig h) where
  collector-Explained :
      (a : Result (ProbeResponse h) ProbeError) (s : Session W)
      → Explained h config.thresholds CheckKind.collector_health
          (conclude_collector h t config a s).0
  unfolding conclude_collector conclude failed_probe
  collector-Explained (ok (ProbeResponse.collector_status p c w)) s = record {
    own_kind = refl;
    accounted = refl;
  }
  collector-Explained (ok _) s = record { own_kind = refl; accounted = refl }
  collector-Explained (err x) s = record { own_kind = refl; accounted = refl }

  wifi-Explained :
      (a : Result (ProbeResponse h) ProbeError) (s : Session W)
      → Explained h config.thresholds CheckKind.wifi_quality (conclude_wifi h t config a s).0
  unfolding conclude_wifi conclude failed_probe
  wifi-Explained (ok (ProbeResponse.wifi_metrics false rssi retry)) s = record {
    own_kind = refl;
    accounted = refl;
  }
  wifi-Explained (ok (ProbeResponse.wifi_metrics true none retry)) s = record {
    own_kind = refl;
    accounted = refl;
  }
  wifi-Explained (ok (ProbeResponse.wifi_metrics true (some rssi) retry)) s = record {
    own_kind = refl;
    accounted = refl;
  }
  wifi-Explained (ok _) s = record { own_kind = refl; accounted = refl }
  wifi-Explained (err x) s = record { own_kind = refl; accounted = refl }

  link-Explained :
      (a : Result (ProbeResponse h) ProbeError) (s : Session W)
      → Explained h config.thresholds CheckKind.adapter_link (conclude_link h t config a s).0
  unfolding conclude_link conclude failed_probe
  link-Explained (ok (ProbeResponse.link_status up speed)) s = record {
    own_kind = refl;
    accounted = refl;
  }
  link-Explained (ok _) s = record { own_kind = refl; accounted = refl }
  link-Explained (err x) s = record { own_kind = refl; accounted = refl }

  address-Explained :
      (a : Result (ProbeResponse h) ProbeError) (s : Session W)
      → Explained h config.thresholds CheckKind.address_dhcp (conclude_address h t config a s).0
  unfolding conclude_address conclude failed_probe
  address-Explained (ok (ProbeResponse.ip_config address lease)) s = record {
    own_kind = refl;
    accounted = refl;
  }
  address-Explained (ok _) s = record { own_kind = refl; accounted = refl }
  address-Explained (err x) s = record { own_kind = refl; accounted = refl }

  arp-Explained :
      (address : String) (a : Result (ProbeResponse h) ProbeError) (s : Session W)
      → Explained h config.thresholds CheckKind.duplicate_ip
          (conclude_duplicate_ip h t config address a s).0
  unfolding conclude_duplicate_ip conclude failed_probe
  arp-Explained address (ok (ProbeResponse.arp_probe macs)) s = record {
    own_kind = refl;
    accounted = refl;
  }
  arp-Explained address (ok _) s = record { own_kind = refl; accounted = refl }
  arp-Explained address (err x) s = record { own_kind = refl; accounted = refl }

  duplicate_ip-Explained :
      (budget : DiagnosticBudget) (prior : List (CheckResult h)) (s : Session W)
      → Explained h config.thresholds CheckKind.duplicate_ip
          (check_duplicate_ip h t config budget prior s).0
  unfolding check_duplicate_ip failed_probe
  duplicate_ip-Explained budget prior s = elim (Option-cases (confirmed_address prior)) [
    | inl e ↦ rw (e, check_duplicate_ip) (record { own_kind = refl; accounted = refl })
    | inr (address, e) ↦ rw (e, check_duplicate_ip) (arp-Explained address _ _)
  ]

  gateway-Explained :
      (budget : DiagnosticBudget) (s : Session W)
      → Explained h config.thresholds CheckKind.gateway (check_gateway h t config budget s).0
  unfolding check_gateway conclude
  gateway-Explained budget s = record { own_kind = refl; accounted = refl }

  router-Explained :
      (a : Result (ProbeResponse h) ProbeError) (s : Session W)
      → Explained h config.thresholds CheckKind.router_health (conclude_router h t config a s).0
  unfolding conclude_router conclude failed_probe
  router-Explained (ok (ProbeResponse.router_status responsive uptime)) s = record {
    own_kind = refl;
    accounted = refl;
  }
  router-Explained (ok _) s = record { own_kind = refl; accounted = refl }
  router-Explained (err x) s = record { own_kind = refl; accounted = refl }

  loss_latency-Explained :
      (budget : DiagnosticBudget) (s : Session W)
      → Explained h config.thresholds CheckKind.loss_latency
          (check_loss_latency h t config budget s).0
  unfolding check_loss_latency conclude
  loss_latency-Explained budget s = record {
    own_kind = refl;
    accounted = loss_latency_accounted h config.thresholds _ _;
  }

  mtu-Explained :
      (sample : Result MtuSample String) (s : Session W)
      → Explained h config.thresholds CheckKind.mtu (conclude_mtu h t config sample s).0
  unfolding conclude_mtu conclude failed_probe
  mtu-Explained (err x) s = record { own_kind = refl; accounted = refl }
  mtu-Explained (ok sample) s = record {
    own_kind = refl;
    accounted = ground (arith, is_some-min_by leb sample.silent_failures);
  }

  dns-Explained :
      (budget : DiagnosticBudget) (s : Session W)
      → Explained h config.thresholds CheckKind.dns (check_dns h t config budget s).0
  unfolding check_dns conclude query_resolver
  dns-Explained budget s =
      let (same, all) = query_all-configured h t config budget config.configured_resolvers s in
      let asked = query_all h t config budget config.configured_resolvers s in
      let control = query_resolver h t config budget config.independent_resolver true asked.1 in
      let (_, answered) = failures_answered asked.0 control.0 all refl in
      record { own_kind = refl; accounted = ap passes (rw same at answered) }

  route_vpn-Explained :
      (a : Result (ProbeResponse h) ProbeError) (s : Session W)
      → Explained h config.thresholds CheckKind.route_vpn (conclude_route_vpn h t config a s).0
  unfolding conclude_route_vpn conclude failed_probe
  route_vpn-Explained (ok (ProbeResponse.route_table routes)) s = record {
    own_kind = refl;
    accounted = (refl, refl);
  }
  route_vpn-Explained (ok _) s = record { own_kind = refl; accounted = refl }
  route_vpn-Explained (err x) s = record { own_kind = refl; accounted = refl }

  internet-Explained :
      (lan_ok : Bool) (a : Result (ProbeResponse h) ProbeError) (s : Session W)
      → Explained h config.thresholds CheckKind.internet_reachability
          (conclude_internet h t config lan_ok a s).0
  unfolding conclude_internet conclude failed_probe
  internet-Explained lan_ok (ok (ProbeResponse.reachable latency)) s = record {
    own_kind = refl;
    accounted = refl;
  }
  internet-Explained lan_ok (ok ProbeResponse.unreachable) s = record {
    own_kind = refl;
    accounted = refl;
  }
  internet-Explained lan_ok (ok _) s = record { own_kind = refl; accounted = refl }
  internet-Explained lan_ok (err x) s = record { own_kind = refl; accounted = refl }

module _ (h : Host) {W : Type 0} (t : ProbeTransport h W) (engine : DiagnosticEngine h) where
  open engine use {config, budget}

  -- Whatever the transport answers, a check that runs answers for its own kind, passes or fails,
  -- and its status follows from the detail that it reports and from the thresholds: a signal passes
  -- from the threshold on, and the pings pass only if the loss and the median of the answers, of
  -- which there is one, are within theirs, and fail only if one of the two is not or no answer is
  -- counted.
  pub run_check-Explained :
      (kind : CheckKind) (prior : List (CheckResult h)) (s : Session W)
      → Explained h config.thresholds kind (run_check h t engine kind prior s).0
  unfolding run_check check_collector check_adapter_link check_address check_wifi check_router
      check_mtu check_route_vpn check_internet
  run_check-Explained CheckKind.collector_health prior s = collector-Explained h t config _ _
  run_check-Explained CheckKind.adapter_link prior s = link-Explained h t config _ _
  run_check-Explained CheckKind.address_dhcp prior s = address-Explained h t config _ _
  run_check-Explained CheckKind.duplicate_ip prior s =
      duplicate_ip-Explained h t config budget prior s
  run_check-Explained CheckKind.wifi_quality prior s = wifi-Explained h t config _ _
  run_check-Explained CheckKind.gateway prior s = gateway-Explained h t config budget s
  run_check-Explained CheckKind.router_health prior s = router-Explained h t config _ _
  run_check-Explained CheckKind.loss_latency prior s = loss_latency-Explained h t config budget s
  run_check-Explained CheckKind.mtu prior s = mtu-Explained h t config _ _
  run_check-Explained CheckKind.dns prior s = dns-Explained h t config budget s
  run_check-Explained CheckKind.route_vpn prior s = route_vpn-Explained h t config _ _
  run_check-Explained CheckKind.internet_reachability prior s =
      internet-Explained h t config (gateway_passed h t config prior) _ _
