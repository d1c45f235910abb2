-- ===== src/Doctor/Repair.antt =====
-- crates/lattice-doctor/src/repair.rs: the remedy of a diagnosis, and the repairs that may run.
pub mod Plans
use neon_hearth.Prelude.{
  ℕ, ◌<◌, Bool, true, false, ◌||◌, String, List, [], ◌∷◌, Option, none, some, Result, ok, err, ltb,
  is_empty, head?, unwrap_or, if◌then◌else◌,
}
use neon_hearth.Text.{is_blank, byte_len, has_control, concat, display_ℕ, join}
use neon_hearth.External.{Host}
use neon_hearth.Doctor.Check.{DoctorError}
use neon_hearth.Doctor.Diagnosis.{DiagnosisKind}

abbrev pub max_approval_id_bytes : ℕ
max_approval_id_bytes = 128

pub record ApprovalId : Type 0 where
  pub token : String

-- `ApprovalId::try_new`.
unfoldable pub try_new : String → Result ApprovalId DoctorError
try_new token =
    if is_blank token || ltb max_approval_id_bytes (byte_len token) || has_control token
    then err DoctorError.invalid_approval
    else ok (record { token = token })

pub data RepairClass : Type 0 where
  safe_automatic approval_required_reversible guided_physical observation_only : RepairClass

pub data SafeAction : Type 0 where
  restart_collector_worker refresh_app_caches renew_collector_lease retry_router_session
        repair_tailscale_serve :
      SafeAction

pub data ApprovalAction : Type 0 where
  reset_adapter : (interface : String) → ApprovalAction
  change_dns_servers : (servers : List String) → ApprovalAction
  set_dhcp_reservation : (device address : String) → ApprovalAction
  block_device : (device : String) → ApprovalAction
  unblock_device : (device : String) → ApprovalAction
  reboot_router : ApprovalAction
  renew_dhcp_lease : (interface : String) → ApprovalAction
  set_interface_mtu : (interface : String) (mtu : ℕ) → ApprovalAction

pub data GuidedAction : Type 0 where
  check_cables move_hardware contact_isp factory_reset install_firmware : GuidedAction

pub data RepairPlan : Type 0 where
  safe_automatic : (action : SafeAction) (rationale : String) → RepairPlan
  approval_required_reversible : (action : ApprovalAction) (rationale : String) → RepairPlan
  guided_physical : (action : GuidedAction) (rationale : String) → RepairPlan
  observation_only : (rationale : String) → RepairPlan

-- `RepairPlan::class`.
unfoldable pub plan_class : RepairPlan → RepairClass
plan_class (RepairPlan.safe_automatic action rationale) = RepairClass.safe_automatic
plan_class (RepairPlan.approval_required_reversible action rationale) =
    RepairClass.approval_required_reversible
plan_class (RepairPlan.guided_physical action rationale) = RepairClass.guided_physical
plan_class (RepairPlan.observation_only rationale) = RepairClass.observation_only

pub record RepairContext : Type 0 where
  pub interface : String
  pub lease_renewal_severs_only_management_path : Bool
  pub fallback_dns_servers : List String

abbrev approve : ApprovalAction → String → RepairPlan
approve = RepairPlan.approval_required_reversible

unfoldable pub plan_repair : {h : Host} → DiagnosisKind h → RepairContext → RepairPlan
plan_repair (DiagnosisKind.collector_fault p c w) context =
    RepairPlan.safe_automatic SafeAction.restart_collector_worker
      "restarting the NeonHearth worker is local, safe, and reversible"
plan_repair DiagnosisKind.adapter_link_down context =
    approve (ApprovalAction.reset_adapter context.interface)
      "an adapter reset briefly disconnects the host and needs approval"
plan_repair (DiagnosisKind.address_missing lease) context =
    if context.lease_renewal_severs_only_management_path
    then approve (ApprovalAction.renew_dhcp_lease context.interface)
        "renewing this lease could sever the only management path, so it must be approved"
    else RepairPlan.safe_automatic SafeAction.renew_collector_lease
        "lease renewal cannot sever the management path here"
plan_repair (DiagnosisKind.duplicate_ip address macs) context =
    approve (ApprovalAction.set_dhcp_reservation (unwrap_or (head? macs) "") address)
      "a DHCP reservation change affects another device and needs approval"
plan_repair (DiagnosisKind.weak_wifi_quality rssi) context =
    RepairPlan.guided_physical GuidedAction.move_hardware
      "signal strength is a physical placement problem the Doctor cannot change remotely"
plan_repair DiagnosisKind.gateway_unreachable context =
    approve ApprovalAction.reboot_router
      "a router reboot disconnects every device and needs approval"
plan_repair DiagnosisKind.router_fault context =
    RepairPlan.safe_automatic SafeAction.retry_router_session
      "retrying the router management session is local and harmless"
plan_repair (DiagnosisKind.loss_latency_degraded loss rtt) context =
    RepairPlan.observation_only
      "degradation needs more samples before any disruptive change is worth proposing"
plan_repair (DiagnosisKind.mtu_blackhole (some mtu) smallest) context =
    approve (ApprovalAction.set_interface_mtu context.interface mtu)
      "lowering the interface MTU alters traffic for the whole host and needs approval"
plan_repair (DiagnosisKind.mtu_blackhole none smallest) context =
    RepairPlan.observation_only "no working MTU was measured, so no safe value can be proposed"
plan_repair (DiagnosisKind.dns_failure resolvers) context =
    if is_empty context.fallback_dns_servers
    then RepairPlan.observation_only "no known-good fallback resolver is configured"
    else approve (ApprovalAction.change_dns_servers context.fallback_dns_servers)
        "changing DNS servers alters resolution for the whole host and needs approval"
plan_repair (DiagnosisKind.route_vpn_conflict routes) context =
    RepairPlan.observation_only
      "route and VPN configuration belongs to the owner; the Doctor only reports the conflict"
plan_repair (DiagnosisKind.internet_unreachable true) context =
    RepairPlan.guided_physical GuidedAction.contact_isp
      "the LAN is healthy, so the outage is on the provider side"
plan_repair (DiagnosisKind.internet_unreachable false) context =
    approve ApprovalAction.reboot_router "both LAN and WAN are down; a router reboot needs approval"
plan_repair (DiagnosisKind.diagnostic_probe_failure check error) context =
    RepairPlan.observation_only "the probe itself failed; no repair can be justified from it"

pub data StateKey : Type 0 where
  worker_state cache_state dhcp_lease router_session tailscale_config adapter_config dns_servers
        dhcp_reservations firewall_rules :
      StateKey

pub record ApprovedRepair : Type 0 where
  pub action : ApprovalAction
  pub approval : ApprovalId

pub data ExecutableRepair : Type 0 where
  safe : (action : SafeAction) → ExecutableRepair
  approved : ApprovedRepair → ExecutableRepair

-- `ExecutableRepair::class`.
unfoldable pub repair_class : ExecutableRepair → RepairClass
repair_class (ExecutableRepair.safe action) = RepairClass.safe_automatic
repair_class (ExecutableRepair.approved repair) = RepairClass.approval_required_reversible

unfoldable pub reversible : ExecutableRepair → Bool
reversible (ExecutableRepair.safe SafeAction.refresh_app_caches) = true
reversible (ExecutableRepair.safe SafeAction.repair_tailscale_serve) = true
reversible (ExecutableRepair.safe _) = false
reversible (ExecutableRepair.approved repair) = true

safe_state_keys : SafeAction → List StateKey
safe_state_keys SafeAction.restart_collector_worker = StateKey.worker_state ∷ []
safe_state_keys SafeAction.refresh_app_caches = StateKey.cache_state ∷ []
safe_state_keys SafeAction.renew_collector_lease = StateKey.dhcp_lease ∷ []
safe_state_keys SafeAction.retry_router_session = StateKey.router_session ∷ []
safe_state_keys SafeAction.repair_tailscale_serve = StateKey.tailscale_config ∷ []

approved_state_keys : ApprovalAction → List StateKey
approved_state_keys (ApprovalAction.reset_adapter interface) = StateKey.adapter_config ∷ []
approved_state_keys (ApprovalAction.set_interface_mtu interface mtu) = StateKey.adapter_config ∷ []
approved_state_keys (ApprovalAction.change_dns_servers servers) = StateKey.dns_servers ∷ []
approved_state_keys (ApprovalAction.set_dhcp_reservation device address) =
    StateKey.dhcp_reservations ∷ []
approved_state_keys (ApprovalAction.block_device device) = StateKey.firewall_rules ∷ []
approved_state_keys (ApprovalAction.unblock_device device) = StateKey.firewall_rules ∷ []
approved_state_keys ApprovalAction.reboot_router = StateKey.router_session ∷ []
approved_state_keys (ApprovalAction.renew_dhcp_lease interface) = StateKey.dhcp_lease ∷ []

unfoldable pub state_keys : ExecutableRepair → List StateKey
unfolding safe_state_keys approved_state_keys
state_keys (ExecutableRepair.safe action) = safe_state_keys action
state_keys (ExecutableRepair.approved repair) = approved_state_keys repair.action

describe_safe : SafeAction → String
describe_safe SafeAction.restart_collector_worker = "restart_collector_worker"
describe_safe SafeAction.refresh_app_caches = "refresh_app_caches"
describe_safe SafeAction.renew_collector_lease = "renew_collector_lease"
describe_safe SafeAction.retry_router_session = "retry_router_session"
describe_safe SafeAction.repair_tailscale_serve = "repair_tailscale_serve"

describe_approved : ApprovalAction → String
describe_approved (ApprovalAction.reset_adapter interface) = concat "reset_adapter " interface
describe_approved (ApprovalAction.change_dns_servers servers) =
    concat "change_dns_servers " (join "," servers)
describe_approved (ApprovalAction.set_dhcp_reservation device address) =
    concat "set_dhcp_reservation " (concat device (concat " -> " address))
describe_approved (ApprovalAction.block_device device) = concat "block_device " device
describe_approved (ApprovalAction.unblock_device device) = concat "unblock_device " device
describe_approved ApprovalAction.reboot_router = "reboot_router"
describe_approved (ApprovalAction.renew_dhcp_lease interface) = concat "renew_dhcp_lease " interface
describe_approved (ApprovalAction.set_interface_mtu interface mtu) =
    concat "set_interface_mtu " (concat interface (concat " " (display_ℕ mtu)))

pub describe : ExecutableRepair → String
unfolding describe_safe describe_approved
describe (ExecutableRepair.safe action) = describe_safe action
describe (ExecutableRepair.approved repair) = describe_approved repair.action
