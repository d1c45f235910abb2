-- ===== src/Quarantine/Verified.antt =====
-- crates/lattice-w6/src/lib.rs: what a report of a mutation proves.
use neon_hearth.Prelude.{
  ℕ, ◌+◌, ◌-◌, ◌≤◌, ◌≡◌, refl, sym, ap, ◌∙◌, inl, inr, Bool, true, false, Option, some, ok, arith,
  Option-cases, subst,
}
use neon_hearth.Quarantine.Types.{
  Capability, RequestedQuarantine, Profile, DiscoveryStatus, DeviceState, MutationReport,
  Verification, Error, Transport, Connector, capability_of, advertises, same_bool,
  same_device_state, filter_limit,
}
use neon_hearth.Quarantine.Sessions.{Turn, ◌>>=◌, ◌>>◌, pure, ensure, or_error}
use neon_hearth.Quarantine.{
  call_state, require_trusted, check_room, shows, reported, apply_and_verify, quarantine, restore,
}
use neon_hearth.Quarantine.Chains.{
  ok_injective, chained, ensure_ok, or_error_ok, ensure_still, require_trusted_ok, LastCall,
  with_renewal_ok, in_session_ok,
}

module _ {Secret W : Type 0} (t : Transport Secret W) where
  -- What a report proves: the appliance is trusted and its profile advertises what was asked of it, and
  -- in the last answer of the operation the appliance shows it.
  pub record IsProven (request : RequestedQuarantine) (connector : Connector W)
      (report : MutationReport) (left : W) : Type 0 where
    pub trusted : connector.status ≡ DiscoveryStatus.trusted
    pub profile : Profile
    pub known : connector.profile ≡ some profile
    pub advertised : advertises profile (capability_of request) ≡ true
    pub before : DeviceState
    pub after : DeviceState
    pub seen : LastCall t t.state after left
    pub shown : shows (capability_of request) profile before after ≡ true
    pub says : report ≡ reported (capability_of request) profile before after

  quarantine_chain :
      (request : RequestedQuarantine) (connector : Connector W) (report : MutationReport)
      (s new : Turn W)
      → (require_trusted connector
            >> or_error connector.profile Error.unknown_profile
            >>= λ profile.
                ensure (advertises profile (capability_of request)) Error.capability_unavailable
                >> call_state t
                >>= λ before.
                    check_room (capability_of request) profile before
                    >> apply_and_verify t (capability_of request) profile before)
          s
        ≡ (ok report, new)
      → IsProven request connector report new.transport
  unfolding apply_and_verify call_state pure
  quarantine_chain request connector report s new h =
      let c1 = chained _ _ s new report h in
      let c2 = chained _ _ s c1.middle c1.value c1.first in
      let c3 = chained _ _ c1.middle new report c1.second in
      let c4 = chained _ _ c1.middle c3.middle c3.value c3.first in
      let c5 = chained _ _ c3.middle new report c3.second in
      let c6 = chained _ _ c5.middle new report c5.second in
      let c7 = chained _ _ c5.middle c6.middle c6.value c6.first in
      let c8 = chained _ _ c6.middle new report c6.second in
      record {
        trusted = require_trusted_ok connector s c2.middle c2.value c2.first;
        profile = c1.value;
        known =
            or_error_ok connector.profile Error.unknown_profile c2.middle c1.middle c1.value
              c2.second;
        advertised = ensure_ok _ Error.capability_unavailable c1.middle c4.middle c4.value c4.first;
        before = c3.value;
        after = c6.value;
        seen =
            subst (λ left. LastCall t t.state c6.value left.transport)
              (sym (ensure_still _ Error.verification_failed c6.middle c8.middle c8.value c8.first)
                ∙ ap (λ x. x.1) c8.second)
              (with_renewal_ok t t.state c7.middle c6.middle c6.value c7.second);
        shown = ensure_ok _ Error.verification_failed c6.middle c8.middle c8.value c8.first;
        says = sym (ok_injective (ap (λ x. x.0) c8.second));
      }

  -- If `quarantine` returns a report, then the appliance was trusted, its profile advertises what was
  -- asked of it, and the last call of the operation read a state that shows it and that the report
  -- tells.
  pub quarantine-IsProven :
      (request : RequestedQuarantine) (connector new : Connector W) (report : MutationReport)
      → quarantine t request connector ≡ (ok report, new)
      → IsProven request connector report new.transport
  unfolding quarantine
  quarantine-IsProven request connector new report h =
      let (left, chain, same) = in_session_ok t connector new _ report h in
      subst (IsProven request connector report) same
        (quarantine_chain request connector report _ left chain)

-- What a report tells of a persistent filter: one entry more than before, and the room left of the
-- capacity that the profile states and that is not exceeded.
pub record IsFilterReport (profile : Option Profile) (report : MutationReport) : Type 0 where
  pub known_profile : Profile
  pub known : profile ≡ some known_profile
  pub before : DeviceState
  pub capacity : ℕ
  pub stated : known_profile.filter_capacity ≡ some capacity
  pub previous : report.previous ≡ some before
  pub added : report.used ≡ before.filter_entries + 1
  pub limited : report.used ≤ filter_limit
  pub room : report.remaining ≡ some (capacity - report.used)
  pub within : report.used ≤ capacity

shows_filter :
    (profile : Profile) (before after : DeviceState)
    → shows Capability.persistent_filter profile before after ≡ true
    → IsFilterReport (some profile) (reported Capability.persistent_filter profile before after)
unfolding shows
shows_filter profile before after h = elim (Option-cases profile.filter_capacity) [
  | inl unstated ↦ ground (arith, h, unstated)
  | inr (capacity, stated) ↦ record {
    known_profile = profile;
    known = refl;
    before = before;
    capacity = capacity;
    stated = stated;
    previous = refl;
    added = ground (arith, h);
    limited = ground (arith, h);
    room = simp stated;
    within = ground (arith, h, stated);
  }
]

-- If `quarantine` returns a report of a persistent filter, the appliance has one entry more than
-- before, no more than the 32 that a W6 appliance keeps and no more than the capacity that its
-- profile states, of which the report tells what remains.
pub quarantine-IsFilterReport :
    {Secret W : Type 0} (t : Transport Secret W) (connector new : Connector W)
    (report : MutationReport)
    → quarantine t RequestedQuarantine.persistent_filter connector ≡ (ok report, new)
    → IsFilterReport connector.profile report
quarantine-IsFilterReport t connector new report h =
    let p = quarantine-IsProven t RequestedQuarantine.persistent_filter connector new report h in
    subst (IsFilterReport connector.profile) (sym p.says) (
      subst
        (λ known.
          IsFilterReport known (reported Capability.persistent_filter p.profile p.before p.after))
        (sym p.known) (shows_filter p.profile p.before p.after p.shown))

same_bool-eq : (a b : Bool) → same_bool a b ≡ true → a ≡ b
same_bool-eq true b h = sym h
same_bool-eq false b h = ground (arith, h)

same_device_state-eq : (a b : DeviceState) → same_device_state a b ≡ true → a ≡ b
same_device_state-eq a b h =
    let e1 : a.disconnect_now ≡ b.disconnect_now = same_bool-eq _ _ (ground (arith, h)) in
    let e2 : a.deny_wifi_association ≡ b.deny_wifi_association =
      same_bool-eq _ _ (ground (arith, h)) in
    let e3 : a.deny_internet ≡ b.deny_internet = same_bool-eq _ _ (ground (arith, h)) in
    let e4 : a.deny_lan ≡ b.deny_lan = same_bool-eq _ _ (ground (arith, h)) in
    let e5 : a.persistent_filter ≡ b.persistent_filter = same_bool-eq _ _ (ground (arith, h)) in
    let e6 : a.filter_entries ≡ b.filter_entries = ground (arith, h) in cc (e1, e2, e3, e4, e5, e6)

-- If `restore` succeeds, then the appliance was trusted and the last call of the operation read the
-- very state that was to be restored.
pub restore_verified :
    {Secret W : Type 0} (t : Transport Secret W) (previous : DeviceState)
    (connector new : Connector W) (v : Verification)
    → restore t previous connector ≡ (ok v, new)
    → (connector.status ≡ DiscoveryStatus.trusted) × LastCall t t.state previous new.transport
unfolding restore call_state pure
restore_verified t previous connector new v h =
    let (left, chain, same) = in_session_ok t connector new _ v h in
    let c1 = chained _ _ _ left v chain in
    let c2 = chained _ _ _ c1.middle c1.value c1.first in
    let c3 = chained _ _ _ c2.middle c2.value c2.first in
    let c4 = chained _ _ c1.middle left v c1.second in
    let seen = with_renewal_ok t t.state c2.middle c1.middle c1.value c2.second in
    let still =
      sym (ensure_still _ Error.verification_failed c1.middle c4.middle c4.value c4.first)
      ∙ ap (λ x. x.1) c4.second in
    let equal =
      same_device_state-eq c1.value previous
        (ensure_ok _ Error.verification_failed c1.middle c4.middle c4.value c4.first) in
    (
      require_trusted_ok connector _ c3.middle c3.value c3.first,
      subst (LastCall t t.state previous) (ap (λ s. s.transport) still ∙ same)
          (subst (λ a. LastCall t t.state a c1.middle.transport) equal seen),
    )
