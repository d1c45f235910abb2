-- ===== src/Quarantine/Types.antt =====
-- crates/lattice-w6/src/lib.rs: the data of the connector, and its transport.
use neon_hearth.Prelude.{
  ℕ, Bool, true, false, ◌&&◌, not, String, List, [], ◌∷◌, any, Option, none, some, Result, leb,
  ◌==◌,
}
use neon_hearth.Prelude.Sorting.{sort_by, dedup}

pub data Capability : Type 0 where
  disconnect_now deny_wifi_association deny_internet deny_lan persistent_filter : Capability

-- The place of a capability in its declaration: the derived equality and order go by it.
abbrev pub capability_index : Capability → ℕ
capability_index Capability.disconnect_now = 0
capability_index Capability.deny_wifi_association = 1
capability_index Capability.deny_internet = 2
capability_index Capability.deny_lan = 3
capability_index Capability.persistent_filter = 4

abbrev pub same_capability : Capability → Capability → Bool
same_capability a b = capability_index a == capability_index b

-- `W6_PERSISTENT_FILTER_LIMIT`.
abbrev pub filter_limit : ℕ
filter_limit = 32

pub record Profile : Type 0 where
  pub fingerprint : String
  pub capabilities : List Capability
  pub filter_capacity : Option ℕ

abbrev pub advertises : Profile → Capability → Bool
advertises profile capability = any (λ x. same_capability x capability) profile.capabilities

pub data DiscoveryStatus : Type 0 where
  trusted read_only manual_required : DiscoveryStatus

pub data RequestedQuarantine : Type 0 where
  disconnect_now deny_wifi_association deny_internet deny_lan persistent_filter :
      RequestedQuarantine

-- `RequestedQuarantine::capability`.
abbrev pub capability_of : RequestedQuarantine → Capability
capability_of RequestedQuarantine.disconnect_now = Capability.disconnect_now
capability_of RequestedQuarantine.deny_wifi_association = Capability.deny_wifi_association
capability_of RequestedQuarantine.deny_internet = Capability.deny_internet
capability_of RequestedQuarantine.deny_lan = Capability.deny_lan
capability_of RequestedQuarantine.persistent_filter = Capability.persistent_filter

pub record DeviceState : Type 0 where
  pub disconnect_now : Bool
  pub deny_wifi_association : Bool
  pub deny_internet : Bool
  pub deny_lan : Bool
  pub persistent_filter : Bool
  pub filter_entries : ℕ

-- `DeviceState::enabled`.
abbrev pub is_enabled : DeviceState → Capability → Bool
is_enabled s Capability.disconnect_now = s.disconnect_now
is_enabled s Capability.deny_wifi_association = s.deny_wifi_association
is_enabled s Capability.deny_internet = s.deny_internet
is_enabled s Capability.deny_lan = s.deny_lan
is_enabled s Capability.persistent_filter = s.persistent_filter

abbrev pub same_bool : Bool → Bool → Bool
same_bool true b = b
same_bool false b = not b

-- The derived equality of states.
abbrev pub same_device_state : DeviceState → DeviceState → Bool
same_device_state a b =
    same_bool a.disconnect_now b.disconnect_now
    && same_bool a.deny_wifi_association b.deny_wifi_association
    && same_bool a.deny_internet b.deny_internet
    && same_bool a.deny_lan b.deny_lan
    && same_bool a.persistent_filter b.persistent_filter
    && a.filter_entries == b.filter_entries

-- The equality of stated capacities.
abbrev pub same_limit : Option ℕ → Option ℕ → Bool
same_limit none none = true
same_limit (some a) (some b) = a == b
same_limit _ _ = false

abbrev pub same_capabilities : List Capability → List Capability → Bool
same_capabilities [] [] = true
same_capabilities (x ∷ xs) (y ∷ ys) = same_capability x y && same_capabilities xs ys
same_capabilities _ _ = false

abbrev pub capability_le : Capability → Capability → Bool
capability_le a b = leb (capability_index a) (capability_index b)

abbrev pub capability_set : List Capability → List Capability
capability_set xs = dedup same_capability (sort_by capability_le xs)

unfoldable pub same_capability_set : List Capability → List Capability → Bool
same_capability_set left right = same_capabilities (capability_set left) (capability_set right)

pub data Verification : Type 0 where
  verified unverified : Verification

pub record MutationReport : Type 0 where
  pub verification : Verification
  pub capability : Capability
  pub previous : Option DeviceState
  pub used : ℕ
  pub remaining : Option ℕ

pub record PreparedMutation : Type 0 where
  pub capability : Capability
  pub previous : DeviceState

pub record FilterCapacity : Type 0 where
  pub used : ℕ
  pub remaining : ℕ
  pub limit : ℕ

pub data Error : Type 0 where
  transport authentication session_expired unknown_profile capability_unavailable capacity_exhausted
        invalid_capacity verification_failed manual_required read_only :
      Error

-- The `()` of a call that returns nothing.
abbrev pub Done : Type 0
Done = Unit

-- `Transport`, over the state `W` of what lies behind it.
pub record Transport (Secret W : Type 0) : Type 0 where
  pub login : String → Secret → W → Result Done Error × W
  pub renew : W → Result Done Error × W
  pub profile : W → Result Profile Error × W
  pub state : W → Result DeviceState Error × W
  pub apply : Capability → W → Result Done Error × W
  pub restore : DeviceState → W → Result Done Error × W

-- The connector owns its transport: `transport` is the state behind it.
pub record Connector (W : Type 0) : Type 0 where
  pub transport : W
  pub profile : Option Profile
  pub logged_in : Bool
  pub known_profiles : List Profile
  pub status : DiscoveryStatus
