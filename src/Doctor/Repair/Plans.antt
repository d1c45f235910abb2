-- ===== src/Doctor/Repair/Plans.antt =====
-- crates/lattice-doctor/src/repair.rs: what a planned remedy rests on.
use neon_hearth.Prelude.{
  ℕ, ◌≡◌, true, false, ◌⊎◌, String, Option, none, some, arith, is_empty, head?, unwrap_or,
}
use neon_hearth.External.{Host}
use neon_hearth.Doctor.Diagnosis.{DiagnosisKind}
use neon_hearth.Doctor.Repair.{
  SafeAction, ApprovalAction, GuidedAction, RepairPlan, RepairContext, plan_repair,
}

-- The faults that the diagnoses of the checks name.
pub data Fault : Type 0 where
  collector_ill link_down no_address address_taken weak_signal gateway_down router_ill degraded
        oversized no_names contested_route provider_down all_down no_probe :
      Fault

module _ {h : Host} where
  abbrev fault_of : DiagnosisKind h → Fault
  fault_of (DiagnosisKind.collector_fault p c w) = Fault.collector_ill
  fault_of DiagnosisKind.adapter_link_down = Fault.link_down
  fault_of (DiagnosisKind.address_missing lease) = Fault.no_address
  fault_of (DiagnosisKind.duplicate_ip address macs) = Fault.address_taken
  fault_of (DiagnosisKind.weak_wifi_quality rssi) = Fault.weak_signal
  fault_of DiagnosisKind.gateway_unreachable = Fault.gateway_down
  fault_of DiagnosisKind.router_fault = Fault.router_ill
  fault_of (DiagnosisKind.loss_latency_degraded loss rtt) = Fault.degraded
  fault_of (DiagnosisKind.mtu_blackhole largest smallest) = Fault.oversized
  fault_of (DiagnosisKind.dns_failure resolvers) = Fault.no_names
  fault_of (DiagnosisKind.route_vpn_conflict routes) = Fault.contested_route
  fault_of (DiagnosisKind.internet_unreachable true) = Fault.provider_down
  fault_of (DiagnosisKind.internet_unreachable false) = Fault.all_down
  fault_of (DiagnosisKind.diagnostic_probe_failure check error) = Fault.no_probe

  -- The MTU that a diagnosis measured to pass.
  abbrev pub measured_mtu : DiagnosisKind h → Option ℕ
  measured_mtu (DiagnosisKind.mtu_blackhole largest smallest) = largest
  measured_mtu _ = none

  -- The address that two devices claim, and the first of those that do.
  abbrev claimed : DiagnosisKind h → Option (String × String)
  claimed (DiagnosisKind.duplicate_ip address macs) = some (unwrap_or (head? macs) "", address)
  claimed _ = none

  -- What the diagnosis and the environment must say for an action of a safe plan, ...
  abbrev SafeWarranted : DiagnosisKind h → RepairContext → SafeAction → Type 0
  SafeWarranted kind context SafeAction.restart_collector_worker =
      fault_of kind ≡ Fault.collector_ill
  SafeWarranted kind context SafeAction.refresh_app_caches = ⊥
  SafeWarranted kind context SafeAction.renew_collector_lease =
      (fault_of kind ≡ Fault.no_address)
      × (context.lease_renewal_severs_only_management_path ≡ false)
  SafeWarranted kind context SafeAction.retry_router_session = fault_of kind ≡ Fault.router_ill
  SafeWarranted kind context SafeAction.repair_tailscale_serve = ⊥

  -- ... for one that has to be approved, ...
  abbrev ApprovalWarranted : DiagnosisKind h → RepairContext → ApprovalAction → Type 0
  ApprovalWarranted kind context (ApprovalAction.reset_adapter interface) =
      (fault_of kind ≡ Fault.link_down) × (interface ≡ context.interface)
  ApprovalWarranted kind context (ApprovalAction.change_dns_servers servers) =
      (fault_of kind ≡ Fault.no_names)
      × (servers ≡ context.fallback_dns_servers)
      × (is_empty servers ≡ false)
  ApprovalWarranted kind context (ApprovalAction.set_dhcp_reservation device address) =
      claimed kind ≡ some (device, address)
  ApprovalWarranted kind context (ApprovalAction.block_device device) = ⊥
  ApprovalWarranted kind context (ApprovalAction.unblock_device device) = ⊥
  ApprovalWarranted kind context ApprovalAction.reboot_router =
      (fault_of kind ≡ Fault.gateway_down) ⊎ (fault_of kind ≡ Fault.all_down)
  ApprovalWarranted kind context (ApprovalAction.renew_dhcp_lease interface) =
      (fault_of kind ≡ Fault.no_address)
      × (interface ≡ context.interface)
      × (context.lease_renewal_severs_only_management_path ≡ true)
  ApprovalWarranted kind context (ApprovalAction.set_interface_mtu interface mtu) =
      (interface ≡ context.interface) × (measured_mtu kind ≡ some mtu)

  -- ... for one of the owner's own hands, ...
  abbrev GuidedWarranted : DiagnosisKind h → GuidedAction → Type 0
  GuidedWarranted kind GuidedAction.move_hardware = fault_of kind ≡ Fault.weak_signal
  GuidedWarranted kind GuidedAction.contact_isp = fault_of kind ≡ Fault.provider_down
  GuidedWarranted kind _ = ⊥

  -- ... and for none.
  abbrev NothingWarranted : DiagnosisKind h → RepairContext → Fault → Type 0
  NothingWarranted kind context Fault.degraded = Unit
  NothingWarranted kind context Fault.contested_route = Unit
  NothingWarranted kind context Fault.no_probe = Unit
  NothingWarranted kind context Fault.oversized = measured_mtu kind ≡ none
  NothingWarranted kind context Fault.no_names = is_empty context.fallback_dns_servers ≡ true
  NothingWarranted kind context _ = ⊥

  abbrev pub Warranted : DiagnosisKind h → RepairContext → RepairPlan → Type 0
  Warranted kind context (RepairPlan.safe_automatic action why) = SafeWarranted kind context action
  Warranted kind context (RepairPlan.approval_required_reversible action why) =
      ApprovalWarranted kind context action
  Warranted kind context (RepairPlan.guided_physical action why) = GuidedWarranted kind action
  Warranted kind context (RepairPlan.observation_only why) =
      NothingWarranted kind context (fault_of kind)

  -- Every plan is warranted. Only a fault of the collector restarts its worker, only one of the router's
  -- management retries the session, only a link that is down resets the adapter, and only an
  -- unreachable gateway, or internet with the LAN down as well, reboots the router; the provider is
  -- called for if the LAN is up, and hardware moved for a weak signal. A missing address renews the
  -- lease, unasked only where that cannot sever the only management path, and by approval only where
  -- it can. An MTU is set only to the size that was measured to pass, an address reserved only if it is
  -- the duplicate one, for the first that claims it, and resolvers changed only if they fail and to a
  -- known-good list that is not empty. Only the collector's own interface is touched, and nothing is
  -- done only for degradation, a conflict of routes, a failed probe, an MTU that was not measured or
  -- resolvers without a known-good list.
  pub plan_repair-Warranted :
      (kind : DiagnosisKind h) (context : RepairContext)
      → Warranted kind context (plan_repair kind context)
  unfolding plan_repair
  plan_repair-Warranted kind context = ground arith
