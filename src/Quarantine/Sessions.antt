-- ===== src/Quarantine/Sessions.antt =====
-- crates/lattice-w6/src/lib.rs: the calls of one operation, which stop at the first error (`?`) and
-- share one renewal of the session.
use neon_hearth.Prelude.{Bool, true, false, Option, none, some, Result, ok, err, if◌then◌else◌}
use neon_hearth.Quarantine.Types.{Error, Done, Transport, Connector}

-- The state behind the transport, and the flag `renewed`.
pub record Turn (W : Type 0) : Type 0 where
  pub transport : W
  pub renewed : Bool

abbrev pub Act : Type 0 → Type 0 → Type 0
Act W A = Turn W → Result A Error × Turn W

infixl 5 ◌>>=◌ ◌>>◌
unfoldable pub ◌>>=◌ : {W A B : Type 0} → Act W A → (A → Act W B) → Act W B
◌>>=◌ m f s = elim (m s).0 [ err e ↦ (err e, (m s).1) | ok a ↦ f a (m s).1 ]

abbrev pub ◌>>◌ : {W A B : Type 0} → Act W A → Act W B → Act W B
m >> k = m >>= λ _. k

module _ {W A : Type 0} where
  unfoldable pub pure : A → Act W A
  pure a s = (ok a, s)

  unfoldable pub or_error : Option A → Error → Act W A
  or_error none e s = (err e, s)
  or_error (some a) e s = (ok a, s)

module _ {W : Type 0} where
  unfoldable pub ensure : Bool → Error → Act W Done
  ensure true e s = (ok tt, s)
  ensure false e s = (err e, s)

abbrev pub is_expired : {A : Type 0} → Result A Error → Bool
is_expired (err Error.session_expired) = true
is_expired _ = false

module _ {Secret W A : Type 0} where
  -- A call that is made again after a renewal, if the session has expired and was not renewed yet:
  -- `call_state`, `apply_with_budget` and the call of `restore`.
  unfoldable pub with_renewal : Transport Secret W → (W → Result A Error × W) → Act W A
  with_renewal t call s =
      let first = call s.transport in
      let renewal = t.renew first.1 in
      let second = call renewal.1 in
      if is_expired first.0
      then if s.renewed
        then (err Error.session_expired, record s { transport = first.1 })
        else elim renewal.0 [
          | err e ↦ (err e, record s { transport = renewal.1 })
          | ok done ↦ (second.0, record { transport = second.1; renewed = true })
        ]
      else (first.0, record s { transport = first.1 })

module _ {W A : Type 0} where
  -- An operation begins without a renewal and leaves the connector with its transport.
  unfoldable pub in_session : Connector W → Act W A → Result A Error × Connector W
  in_session connector m =
      let answer = m (record { transport = connector.transport; renewed = false }) in
      (answer.0, record connector { transport = answer.1.transport })
