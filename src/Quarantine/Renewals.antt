-- ===== src/Quarantine/Renewals.antt =====
-- crates/lattice-w6/src/lib.rs: how often an operation renews its session.
use neon_hearth.Prelude.{
  ℕ, ◌+◌, ◌≤◌, Bool, true, false, Option, none, some, Result, ok, err, arith, if◌then◌else◌,
  if_intro,
}
use neon_hearth.Quarantine.Types.{
  Capability, RequestedQuarantine, Profile, DiscoveryStatus, DeviceState, Verification, Error, Done,
  Transport, Connector, capability_of,
}
use neon_hearth.Quarantine.Sessions.{
  Act, Turn, ◌>>=◌, pure, ensure, or_error, with_renewal, in_session, is_expired,
}
use neon_hearth.Quarantine.{
  call_state, apply_with_budget, require_trusted, stated_capacity, check_room, apply_and_verify,
  quarantine, restore, is_filter,
}

-- A call beside a count that it leaves alone.
abbrev passed : {W A : Type 0} → (W → A × W) → ℕ × W → A × (ℕ × W)
passed call s = let r = call s.1 in (r.0, (s.0, r.1))

-- A transport that counts its renewals.
abbrev pub counting : {Secret W : Type 0} → Transport Secret W → Transport Secret (ℕ × W)
counting t = record {
  login = λ username password. passed (t.login username password);
  renew = λ s. let r = t.renew s.1 in (r.0, (s.0 + 1, r.1));
  profile = passed t.profile;
  state = passed t.state;
  apply = λ capability. passed (t.apply capability);
  restore = λ previous. passed (t.restore previous);
}

module _ {Secret W : Type 0} (t : Transport Secret W) where
  -- A session that has renewed at most once since a count, and only if it says so.
  abbrev Spent : ℕ → Turn (ℕ × W) → Type 0
  Spent base s = s.transport.0 ≤ base + (if s.renewed then 1 else 0)

  abbrev Within : {A : Type 0} → ℕ → Result A Error × Turn (ℕ × W) → Type 0
  Within base (ok a, s) = Spent base s
  Within base (err e, s) = s.transport.0 ≤ base + 1

  -- Calls that renew at most once.
  abbrev Frugal : {A : Type 0} → Act (ℕ × W) A → Type 0
  Frugal m = (base : ℕ) (s : Turn (ℕ × W)) → Spent base s → Within base (m s)

  Spent-Within :
      {A : Type 0} (r : Result A Error) (base : ℕ) (s : Turn (ℕ × W))
      → Spent base s
      → Within base (r, s)
  Spent-Within (ok a) base s h = h
  Spent-Within (err e) base s h = ground (arith, h)

  renewed-Within :
      {A : Type 0} (renewal : Result Done Error) (second : Result A Error) (base : ℕ)
      (s : Turn (ℕ × W)) (after : ℕ × W)
      → s.transport.0 ≤ base + 1
      → after.0 ≤ base + 1
      → Within {A = A} base (elim renewal [
        | err e ↦ (err e, s)
        | ok done ↦ (second, record { transport = after; renewed = true })
      ])
  renewed-Within (err e) second base s after h k = h
  renewed-Within (ok done) second base s after h k = Spent-Within second base _ k

  with_renewal-Frugal :
      {A : Type 0} (call : W → Result A Error × W)
      → Frugal (with_renewal (counting t) (passed call))
  unfolding with_renewal
  with_renewal-Frugal {A} call base s h =
      let first = passed call s.transport in
      let renewal = (counting t).renew first.1 in
      let second = passed call renewal.1 in
      if_intro (Within {A = A} base) (is_expired first.0)
        (λ expired.
          if_intro (Within {A = A} base) s.renewed (λ renewed. ground (arith, h, renewed))
            (λ fresh.
              renewed-Within (t.renew first.1.1).0 second.0 base
                (record s { transport = renewal.1 }) second.1 (ground (arith, h, fresh))
                (ground (arith, h, fresh))))
        (λ served. Spent-Within first.0 base _ h)

  bind-Frugal :
      {A B : Type 0} (m : Act (ℕ × W) A) (f : A → Act (ℕ × W) B)
      → Frugal m
      → ((a : A) → Frugal (f a))
      → Frugal (m >>= f)
  unfolding ◌>>=◌
  bind-Frugal {A} {B} m f hm hf base s h = after (m s) (hm base s h)
    where
      after :
          (r : Result A Error × Turn (ℕ × W))
          → Within base r
          → Within {A = B} base (elim r.0 [ err e ↦ (err e, r.1) | ok a ↦ f a r.1 ])
      after (ok a, new) w = hf a base new w
      after (err e, new) w = w

  pure-Frugal : {A : Type 0} (a : A) → Frugal (pure a)
  unfolding pure
  pure-Frugal a base s h = h

  ensure-Frugal : (test : Bool) (e : Error) → Frugal (ensure test e)
  unfolding ensure
  ensure-Frugal true e base s h = h
  ensure-Frugal false e base s h = ground (arith, h)

  or_error-Frugal : {A : Type 0} (o : Option A) (e : Error) → Frugal (or_error o e)
  unfolding or_error
  or_error-Frugal none e base s h = ground (arith, h)
  or_error-Frugal (some a) e base s h = h

  require_trusted-Frugal : (connector : Connector (ℕ × W)) → Frugal (require_trusted connector)
  unfolding require_trusted
  require_trusted-Frugal connector = of_status connector.status
    where
      of_status :
          (status : DiscoveryStatus)
          → Frugal (elim status [
            | DiscoveryStatus.trusted ↦ pure tt
            | DiscoveryStatus.read_only ↦ ensure false Error.read_only
            | DiscoveryStatus.manual_required ↦ ensure false Error.manual_required
          ])
      of_status DiscoveryStatus.trusted = pure-Frugal tt
      of_status DiscoveryStatus.read_only = ensure-Frugal false Error.read_only
      of_status DiscoveryStatus.manual_required = ensure-Frugal false Error.manual_required

  stated_capacity-Frugal : (profile : Profile) → Frugal (stated_capacity profile)
  unfolding stated_capacity
  stated_capacity-Frugal profile =
      bind-Frugal _ _ (or_error-Frugal profile.filter_capacity Error.invalid_capacity) (λ capacity.
        bind-Frugal _ _ (ensure-Frugal _ Error.invalid_capacity) (λ done. pure-Frugal capacity))

  check_room-Frugal :
      (capability : Capability) (profile : Profile) (previous : DeviceState)
      → Frugal (check_room capability profile previous)
  unfolding check_room stated_capacity
  check_room-Frugal capability profile previous =
      if_intro Frugal (is_filter capability)
        (λ filter.
          bind-Frugal _ _ (stated_capacity-Frugal profile)
            (λ capacity. ensure-Frugal _ Error.capacity_exhausted))
        (λ other. pure-Frugal tt)

  call_state-Frugal : Frugal (call_state (counting t))
  unfolding call_state
  call_state-Frugal = with_renewal-Frugal t.state

  apply_and_verify-Frugal :
      (capability : Capability) (profile : Profile) (before : DeviceState)
      → Frugal (apply_and_verify (counting t) capability profile before)
  unfolding apply_and_verify apply_with_budget
  apply_and_verify-Frugal capability profile before =
      bind-Frugal _ _
        (bind-Frugal _ _ (with_renewal-Frugal (t.apply capability)) (λ done. call_state-Frugal))
        (λ after.
          bind-Frugal _ _ (ensure-Frugal _ Error.verification_failed) (λ done. pure-Frugal _))

  in_session_bound :
      {A : Type 0} (connector : Connector (ℕ × W)) (m : Act (ℕ × W) A)
      → Frugal m
      → (in_session connector m).1.transport.0 ≤ connector.transport.0 + 1
  unfolding in_session
  in_session_bound connector m frugal =
      bounded (m begun) (frugal connector.transport.0 begun (omega arith))
    where
      begun : Turn (ℕ × W)
      begun = record { transport = connector.transport; renewed = false }

      bounded :
          {B : Type 0} (r : Result B Error × Turn (ℕ × W))
          → Within connector.transport.0 r
          → r.1.transport.0 ≤ connector.transport.0 + 1
      bounded (ok b, s) w = ground (arith, w)
      bounded (err e, s) w = w

  -- `quarantine` renews its session at most once, whatever the appliance answers.
  pub quarantine_renewals :
      (request : RequestedQuarantine) (connector : Connector (ℕ × W))
      → (quarantine (counting t) request connector).1.transport.0 ≤ connector.transport.0 + 1
  unfolding quarantine
  quarantine_renewals request connector = in_session_bound connector _ (
      bind-Frugal _ _
        (bind-Frugal _ _ (require_trusted-Frugal connector)
          (λ done. or_error-Frugal connector.profile Error.unknown_profile))
        (λ profile.
          bind-Frugal _ _
            (bind-Frugal _ _ (ensure-Frugal _ Error.capability_unavailable)
              (λ done. call_state-Frugal))
            (λ before.
              bind-Frugal _ _ (check_room-Frugal (capability_of request) profile before)
                (λ done. apply_and_verify-Frugal (capability_of request) profile before))))

  -- `restore` renews its session at most once, whatever the appliance answers.
  pub restore_renewals :
      (previous : DeviceState) (connector : Connector (ℕ × W))
      → (restore (counting t) previous connector).1.transport.0 ≤ connector.transport.0 + 1
  unfolding restore
  restore_renewals previous connector = in_session_bound connector _ (
      bind-Frugal _ _
        (bind-Frugal _ _
          (bind-Frugal _ _ (require_trusted-Frugal connector)
            (λ done. with_renewal-Frugal (t.restore previous)))
          (λ done. call_state-Frugal))
        (λ after.
          bind-Frugal _ _ (ensure-Frugal _ Error.verification_failed)
            (λ done. pure-Frugal Verification.verified)))
