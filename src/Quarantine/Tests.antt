-- ===== src/Quarantine/Tests.antt =====
-- crates/lattice-w6/src/lib.rs: the connector before an appliance of a few flags.
use neon_hearth.Prelude.{
  ℕ, ◌+◌, ◌≤◌, ◌↔◌, ◌≡◌, refl, Bool, true, false, [], ◌∷◌, some, ok, err, if◌then◌else◌,
}
use neon_hearth.Quarantine.Types.{
  Capability, RequestedQuarantine, DiscoveryStatus, DeviceState, MutationReport, Verification,
  Error, Transport, Connector, same_capability_set,
}
use neon_hearth.Quarantine.Sessions.{◌>>=◌, pure, ensure, or_error, with_renewal, in_session}
use neon_hearth.Quarantine.{
  new, with_profiles, recognise, login, call_state, apply_with_budget, require_trusted,
  stated_capacity, check_room, shows, apply_and_verify, quarantine, restore, fixture_profile,
}
use neon_hearth.Quarantine.Renewals.{counting, quarantine_renewals}
use neon_hearth.Quarantine.Verified.{
  IsProven, IsFilterReport, restore_verified, quarantine-IsProven, quarantine-IsFilterReport,
}
use neon_hearth.Quarantine.CapabilitySets.{has, same_capability_set_iff}
use neon_hearth.Quarantine.Chains.{LastCall}
use neon_hearth.Quarantine.Logins.{Recognised, login-Recognised}
use neon_hearth.Prelude.Sorting.{sort_by, dedup, insert}

abbrev quiet : DeviceState
quiet = record {
  disconnect_now = false;
  deny_wifi_association = false;
  deny_internet = false;
  deny_lan = false;
  persistent_filter = false;
  filter_entries = 4;
}

-- Whether the session is alive, and the state of the appliance.
abbrev Appliance : Type 0
Appliance = Bool × DeviceState

abbrev applied : Capability → DeviceState → DeviceState
applied Capability.disconnect_now s = record s { disconnect_now = true }
applied Capability.deny_wifi_association s = record s { deny_wifi_association = true }
applied Capability.deny_internet s = record s { deny_internet = true }
applied Capability.deny_lan s = record s { deny_lan = true }
applied Capability.persistent_filter s = record s {
  persistent_filter = true;
  filter_entries = s.filter_entries + 1;
}

abbrev appliance : Transport ℕ Appliance
appliance = record {
  login = λ username password w. (ok tt, (true, w.1));
  renew = λ w. (ok tt, (true, w.1));
  profile = λ w. (ok fixture_profile, w);
  state = λ w. if w.0 then (ok w.1, w) else (err Error.session_expired, w);
  apply = λ capability w.
      if w.0 then (ok tt, (true, applied capability w.1)) else (err Error.session_expired, w);
  restore = λ previous w. (ok tt, (true, previous));
}

-- A connector whose session has expired since the login.
abbrev stale : {W : Type 0} → W → Connector W
stale w = record {
  transport = w;
  profile = some fixture_profile;
  logged_in = true;
  known_profiles = fixture_profile ∷ [];
  status = DiscoveryStatus.trusted;
}

abbrev filter_report : MutationReport
filter_report = record {
  verification = Verification.verified;
  capability = Capability.persistent_filter;
  previous = some quiet;
  used = 5;
  remaining = some 27;
}

abbrev filtered : Connector Appliance
filtered = stale (true, applied Capability.persistent_filter quiet)

filter_reported :
    quarantine appliance RequestedQuarantine.persistent_filter (stale (false, quiet))
    ≡ (ok filter_report, filtered)
unfolding quarantine in_session require_trusted or_error ensure call_state with_renewal check_room
    stated_capacity apply_and_verify apply_with_budget shows pure ◌>>=◌
filter_reported = refl

quarantine_renewals_example :
    (quarantine
      (counting appliance)
      RequestedQuarantine.deny_lan
      (stale (0, (false, quiet)))).1.transport.0
    ≤ 0 + 1
quarantine_renewals_example =
    quarantine_renewals appliance RequestedQuarantine.deny_lan (stale (0, (false, quiet)))

quarantine-IsProven_example :
    IsProven appliance RequestedQuarantine.persistent_filter
      (stale (false, quiet))
      filter_report
      filtered.transport
quarantine-IsProven_example =
    quarantine-IsProven appliance RequestedQuarantine.persistent_filter (stale (false, quiet))
      filtered filter_report filter_reported

quarantine-IsFilterReport_example :
    IsFilterReport (stale {W = Appliance} (false, quiet)).profile filter_report
quarantine-IsFilterReport_example =
    quarantine-IsFilterReport appliance (stale (false, quiet)) filtered filter_report
      filter_reported

login-Recognised_example : Recognised (login appliance "owner" 0 (stale (false, quiet)))
login-Recognised_example = login-Recognised appliance "owner" 0 (stale (false, quiet))

login_trusted : (login appliance "owner" 0 (new (false, quiet))).0 ≡ ok fixture_profile
unfolding login new with_profiles recognise same_capability_set sort_by dedup insert
login_trusted = refl

restored :
    restore appliance quiet (stale (false, quiet)) ≡ (ok Verification.verified, stale (true, quiet))
unfolding restore in_session require_trusted ensure call_state with_renewal pure ◌>>=◌
restored = refl

restore_verified_example :
    ((stale {W = Appliance} (false, quiet)).status ≡ DiscoveryStatus.trusted)
    × LastCall appliance appliance.state quiet (stale {W = Appliance} (true, quiet)).transport
restore_verified_example =
    restore_verified appliance quiet (stale (false, quiet)) (stale (true, quiet))
      Verification.verified restored

same_capability_set_iff_example :
    (same_capability_set
        (Capability.deny_lan ∷ Capability.deny_internet ∷ [])
        (Capability.deny_internet ∷ Capability.deny_lan ∷ Capability.deny_internet ∷ [])
      ≡ true)
    ↔ ((capability : Capability)
        → has capability (Capability.deny_lan ∷ Capability.deny_internet ∷ [])
          ≡ has capability
              (Capability.deny_internet ∷ Capability.deny_lan ∷ Capability.deny_internet ∷ []))
same_capability_set_iff_example =
    same_capability_set_iff (Capability.deny_lan ∷ Capability.deny_internet ∷ [])
      (Capability.deny_internet ∷ Capability.deny_lan ∷ Capability.deny_internet ∷ [])
