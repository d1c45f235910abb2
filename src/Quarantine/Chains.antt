-- ===== src/Quarantine/Chains.antt =====
-- crates/lattice-w6/src/lib.rs: chains of calls that succeed, taken apart.
use neon_hearth.Prelude.{
  ◌≡◌, refl, sym, ap, inl, inr, Bool, true, false, Option, none, some, Result, ok, err, arith,
  Bool-cases, Result-cases,
}
use neon_hearth.Quarantine.Types.{DiscoveryStatus, Error, Done, Transport, Connector}
use neon_hearth.Quarantine.Sessions.{
  Act, Turn, ◌>>=◌, ensure, or_error, with_renewal, in_session, is_expired,
}
use neon_hearth.Quarantine.{require_trusted}

pub ok_injective : {A : Type 0} {x y : A} → ◌≡◌ {A = Result A Error} (ok x) (ok y) → x ≡ y
ok_injective h = cc h

module _ {W A B : Type 0} where
  -- A chain that succeeds has two parts that do.
  pub record Chained (m : Act W A) (f : A → Act W B) (s : Turn W) (b : B) (new : Turn W)
      : Type 0 where
    pub value : A
    pub middle : Turn W
    pub first : m s ≡ (ok value, middle)
    pub second : f value middle ≡ (ok b, new)

  pub chained :
      (m : Act W A) (f : A → Act W B) (s new : Turn W) (b : B)
      → (m >>= f) s ≡ (ok b, new)
      → Chained m f s b new
  unfolding ◌>>=◌
  chained m f s new b h = of_answer (m s) refl h
    where
      of_answer :
          (r : Result A Error × Turn W)
          → m s ≡ r
          → ◌≡◌ {A = Result B Error × Turn W}
              (elim r.0 [ err e ↦ (err e, r.1) | ok a ↦ f a r.1 ])
              (ok b, new)
          → Chained m f s b new
      of_answer (ok a, middle) same h = record {
        value = a;
        middle = middle;
        first = same;
        second = h;
      }
      of_answer (err e, middle) same h = ground (arith, ap (λ x. x.0) h)

module _ {W : Type 0} where
  pub ensure_ok :
      (test : Bool) (e : Error) (s new : Turn W) (d : Done)
      → ensure test e s ≡ (ok d, new)
      → test ≡ true
  unfolding ensure
  ensure_ok true e s new d h = refl
  ensure_ok false e s new d h = ground (arith, ap (λ x. x.0) h)

  pub or_error_ok :
      {A : Type 0} (o : Option A) (e : Error) (s new : Turn W) (a : A)
      → or_error o e s ≡ (ok a, new)
      → o ≡ some a
  unfolding or_error
  or_error_ok none e s new a h = ground (arith, ap (λ x. x.0) h)
  or_error_ok (some x) e s new a h = ap some (ok_injective (ap (λ x. x.0) h))

  pub ensure_still :
      (test : Bool) (e : Error) (s new : Turn W) (d : Done)
      → ensure test e s ≡ (ok d, new)
      → new ≡ s
  unfolding ensure
  ensure_still true e s new d h = sym (ap (λ x. x.1) h)
  ensure_still false e s new d h = ground (arith, ap (λ x. x.0) h)

  pub require_trusted_ok :
      (connector : Connector W) (s new : Turn W) (d : Done)
      → require_trusted connector s ≡ (ok d, new)
      → connector.status ≡ DiscoveryStatus.trusted
  unfolding require_trusted ensure
  require_trusted_ok connector s new d h = ground (arith, ap (λ x. x.0) h)

module _ {Secret W : Type 0} (t : Transport Secret W) where
  -- The last call of some calls that succeed.
  pub record LastCall {A : Type 0} (call : W → Result A Error × W) (a : A) (left : W) : Type 0 where
    pub at : W
    pub answered : call at ≡ (ok a, left)

  answered_ok :
      {A : Type 0} (r : Result A Error) (left : W) (renewed : Bool) (a : A) (new : Turn W)
      → ◌≡◌ {A = Result A Error × Turn W}
          (r, record { transport = left; renewed = renewed })
          (ok a, new)
      → ◌≡◌ {A = Result A Error × W} (r, left) (ok a, new.transport)
  answered_ok r left renewed a new h = ap (λ x. (x.0, x.1.transport)) h

  pub with_renewal_ok :
      {A : Type 0} (call : W → Result A Error × W) (s new : Turn W) (a : A)
      → with_renewal t call s ≡ (ok a, new)
      → LastCall call a new.transport
  unfolding with_renewal
  with_renewal_ok call s new a h = elim (Bool-cases (is_expired (call s.transport).0)) [
    | inr served ↦ record {
      at = s.transport;
      answered = answered_ok _ _ s.renewed a new (simp (served, with_renewal) at h);
    }
    | inl expired ↦ elim (Bool-cases s.renewed) [
      | inl twice ↦ ground (arith, ap (λ x. x.0) (simp (expired, twice, with_renewal) at h))
      | inr once ↦ elim (Result-cases (t.renew (call s.transport).1).0) [
        | inr (e, failed) ↦
            ground (arith, ap (λ x. x.0) (simp (expired, once, failed, with_renewal) at h))
        | inl (done, renewed) ↦ record {
          at = (t.renew (call s.transport).1).1;
          answered = answered_ok _ _ true a new (simp (expired, once, renewed, with_renewal) at h);
        }
      ]
    ]
  ]

  pub in_session_ok :
      {A : Type 0} (connector new : Connector W) (m : Act W A) (a : A)
      → in_session connector m ≡ (ok a, new)
      → (left : Turn W) × (m (record { transport = connector.transport; renewed = false })
          ≡ (ok a, left))
        × (left.transport ≡ new.transport)
  unfolding in_session
  in_session_ok connector new m a h =
      let answer = m (record { transport = connector.transport; renewed = false }) in
      (answer.1, ap (λ r. (r, answer.1)) (ap (λ x. x.0) h), ap (λ x. x.1.transport) h)
