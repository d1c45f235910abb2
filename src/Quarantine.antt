-- ===== src/Quarantine.antt =====
-- crates/lattice-w6/src/lib.rs: `Connector`, which quarantines devices on a W6 appliance behind a
-- transport.
pub mod Types
pub mod Sessions
pub mod Renewals
pub mod Chains
pub mod Verified
pub mod Logins
pub mod CapabilitySets
mod Tests
use neon_hearth.Prelude.{
  ℕ, ◌+◌, ◌-◌, Bool, true, false, ◌&&◌, ◌||◌, not, String, List, [], ◌∷◌, find, any, Option, none,
  some, Result, ok, err, ltb, leb, ◌==◌, if◌then◌else◌, is_some_and, checked_add_u32,
}
use neon_hearth.Text.{is_blank, same_text}
use neon_hearth.Quarantine.Types.{
  Capability, Profile, DiscoveryStatus, RequestedQuarantine, DeviceState, Verification,
  MutationReport, PreparedMutation, FilterCapacity, Error, Transport, Connector, capability_of,
  advertises, is_enabled, same_capability, same_device_state, same_limit, Done, same_capability_set,
  filter_limit,
}
use neon_hearth.Quarantine.Sessions.{
  Act, ◌>>=◌, ◌>>◌, pure, ensure, or_error, with_renewal, in_session,
}

abbrev pub is_filter : Capability → Bool
is_filter capability = same_capability capability Capability.persistent_filter

abbrev pub fixture_profile : Profile
fixture_profile = record {
  fingerprint = "fw-1";
  capabilities =
      Capability.disconnect_now ∷ Capability.deny_wifi_association ∷ Capability.deny_internet
      ∷ Capability.deny_lan ∷ Capability.persistent_filter ∷ [];
  filter_capacity = some filter_limit;
}

-- Whether the appliance shows what was asked of it.
unfoldable pub shows : Capability → Profile → DeviceState → DeviceState → Bool
shows capability profile before after =
    if is_filter capability
    then after.persistent_filter
      && is_some_and (checked_add_u32 before.filter_entries 1) (λ n. n == after.filter_entries)
      && is_some_and profile.filter_capacity (λ capacity. leb after.filter_entries capacity)
      && leb after.filter_entries filter_limit
    else is_enabled after capability

abbrev pub reported : Capability → Profile → DeviceState → DeviceState → MutationReport
reported capability profile before after = record {
  verification = Verification.verified;
  capability = capability;
  previous = some before;
  used = after.filter_entries;
  remaining = elim profile.filter_capacity [
    | none ↦ none
    | some n ↦ some (n - after.filter_entries)
  ];
}

module _ {W : Type 0} where
  -- `Connector::with_profiles` and `Connector::new`.
  unfoldable pub with_profiles : W → List Profile → Connector W
  with_profiles transport known_profiles = record {
    transport = transport;
    profile = none;
    logged_in = false;
    known_profiles = known_profiles;
    status = DiscoveryStatus.manual_required;
  }

  unfoldable pub new : W → Connector W
  unfolding with_profiles
  new transport = with_profiles transport (fixture_profile ∷ [])

  -- The end of `login`: whether the profile that the appliance reports is a known one.
  unfoldable pub recognise : Profile → Connector W → Result Profile Error × Connector W
  recognise p session =
      if is_blank p.fingerprint
      then (err Error.manual_required, session)
      else elim (find (λ k. same_text k.fingerprint p.fingerprint) session.known_profiles) [
        | none ↦ (err Error.manual_required, session)
        | some known ↦
            if not (same_capability_set known.capabilities p.capabilities)
              || not (same_limit known.filter_capacity p.filter_capacity)
            then (err Error.read_only, record session { status = DiscoveryStatus.read_only })
            else (ok p, record session { status = DiscoveryStatus.trusted; profile = some p })
      ]

  unfoldable pub require_trusted : Connector W → Act W Done
  require_trusted connector = elim connector.status [
    | DiscoveryStatus.trusted ↦ pure tt
    | DiscoveryStatus.read_only ↦ ensure false Error.read_only
    | DiscoveryStatus.manual_required ↦ ensure false Error.manual_required
  ]

  -- The capacity that a profile states for filters.
  unfoldable pub stated_capacity : Profile → Act W ℕ
  stated_capacity profile = or_error profile.filter_capacity Error.invalid_capacity >>= λ capacity.
      ensure (not (capacity == 0 || ltb filter_limit capacity)) Error.invalid_capacity
      >> pure capacity

  -- The room that a persistent filter needs, before it is applied.
  unfoldable pub check_room : Capability → Profile → DeviceState → Act W Done
  unfolding stated_capacity
  check_room capability profile previous =
      if is_filter capability
      then (stated_capacity profile >>= λ capacity.
          ensure (not (leb capacity previous.filter_entries)) Error.capacity_exhausted)
      else pure tt

module _ {Secret W : Type 0} where
  unfoldable pub login :
      Transport Secret W → String → Secret → Connector W → Result Profile Error × Connector W
  login t username password connector =
      let begun = record connector {
        profile = none;
        logged_in = false;
        status = DiscoveryStatus.manual_required;
      } in
      let entered = t.login username password connector.transport in
      elim entered.0 [
        | err e ↦ (err e, record begun { transport = entered.1 })
        | ok done ↦
            let answer = t.profile entered.1 in
            let session = record begun { transport = answer.1; logged_in = true } in
            elim answer.0 [ err e ↦ (err e, session) | ok p ↦ recognise p session ]
      ]

  unfoldable pub call_state : Transport Secret W → Act W DeviceState
  call_state t = with_renewal t t.state

  unfoldable pub apply_with_budget : Transport Secret W → Capability → Act W Done
  apply_with_budget t capability = with_renewal t (t.apply capability)

  -- The part of `quarantine` and of `apply_prepared` that changes the appliance and looks at it again.
  unfoldable pub apply_and_verify :
      Transport Secret W → Capability → Profile → DeviceState → Act W MutationReport
  apply_and_verify t capability profile before =
      apply_with_budget t capability >> call_state t >>= λ after.
      ensure (shows capability profile before after) Error.verification_failed
      >> pure (reported capability profile before after)

  unfoldable pub quarantine :
      Transport Secret W
      → RequestedQuarantine
      → Connector W
      → Result MutationReport Error × Connector W
  quarantine t request connector = in_session connector (
      require_trusted connector >> or_error connector.profile Error.unknown_profile >>= λ profile.
      ensure (advertises profile (capability_of request)) Error.capability_unavailable
      >> call_state t
      >>= λ before.
          check_room (capability_of request) profile before
          >> apply_and_verify t (capability_of request) profile before)

  unfoldable pub prepare_quarantine :
      Transport Secret W
      → RequestedQuarantine
      → Connector W
      → Result PreparedMutation Error × Connector W
  prepare_quarantine t request connector = in_session connector (
      require_trusted connector >> or_error connector.profile Error.unknown_profile >>= λ profile.
      ensure (advertises profile (capability_of request)) Error.capability_unavailable
      >> call_state t
      >>= λ previous.
          check_room (capability_of request) profile previous
          >> pure (record { capability = capability_of request; previous = previous }))

  unfoldable pub apply_prepared :
      Transport Secret W
      → PreparedMutation
      → Connector W
      → Result MutationReport Error × Connector W
  apply_prepared t prepared connector = in_session connector (
      require_trusted connector >> or_error connector.profile Error.unknown_profile >>= λ profile.
      call_state t >>= λ current.
      ensure (same_device_state current prepared.previous) Error.verification_failed
      >> apply_and_verify t prepared.capability profile prepared.previous)

  unfoldable pub restore :
      Transport Secret W → DeviceState → Connector W → Result Verification Error × Connector W
  restore t previous connector = in_session connector (
      require_trusted connector >> with_renewal t (t.restore previous) >> call_state t >>= λ after.
      ensure (same_device_state after previous) Error.verification_failed
      >> pure Verification.verified)

  unfoldable pub read_state :
      Transport Secret W → Connector W → Result DeviceState Error × Connector W
  read_state t connector = in_session connector (require_trusted connector >> call_state t)

  unfoldable pub persistent_filter_capacity :
      Transport Secret W → Connector W → Result FilterCapacity Error × Connector W
  persistent_filter_capacity t connector = in_session connector (
      or_error connector.profile Error.unknown_profile >>= λ profile.
      stated_capacity profile >>= λ limit. call_state t >>= λ state. pure (record {
        used = state.filter_entries;
        remaining = limit - state.filter_entries;
        limit = limit;
      }))
