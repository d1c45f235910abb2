-- ===== src/Quarantine/Logins.antt =====
-- crates/lattice-w6/src/lib.rs: which appliances `login` trusts.
use neon_hearth.Prelude.{
  ◌≡◌, refl, inl, inr, Bool, true, false, ◌&&◌, ◌||◌, not, String, List, [], ◌∷◌, find, Option,
  none, some, Result, ok, err, arith, Bool-cases, Option-cases, Result-cases, if_intro, any, subst,
  sym,
}
use neon_hearth.Text.{is_blank, same_text}
use neon_hearth.Quarantine.Types.{
  Profile, DiscoveryStatus, Error, Transport, Connector, same_capability_set, same_limit,
}
use neon_hearth.Quarantine.{recognise, login}

abbrev is_trusted : DiscoveryStatus → Bool
is_trusted DiscoveryStatus.trusted = true
is_trusted _ = false

-- A profile that agrees with another.
abbrev agrees : Profile → Profile → Bool
agrees p known =
    same_text known.fingerprint p.fingerprint
    && same_capability_set known.capabilities p.capabilities
    && same_limit known.filter_capacity p.filter_capacity

some_injective : {x y : Profile} → ◌≡◌ {A = Option Profile} (some x) (some y) → x ≡ y
some_injective h = cc h

find-agrees :
    (p known : Profile) (profiles : List Profile)
    → find (λ k. same_text k.fingerprint p.fingerprint) profiles ≡ some known
    → same_capability_set known.capabilities p.capabilities ≡ true
    → same_limit known.filter_capacity p.filter_capacity ≡ true
    → any (agrees p) profiles ≡ true
find-agrees p known [] found set capacity = ground (arith, found)
find-agrees p known (k ∷ ks) found set capacity =
    elim (Bool-cases (same_text k.fingerprint p.fingerprint)) [
      | inl same ↦
          let here : k ≡ known = some_injective (simp (same) at found) in
          ground (
            arith,
            same,
            subst (λ x. same_capability_set x.capabilities p.capabilities ≡ true) (sym here) set,
            subst (λ x. same_limit x.filter_capacity p.filter_capacity ≡ true) (sym here) capacity,
          )
      | inr other ↦ ground (arith, find-agrees p known ks (simp (other) at found) set capacity)
    ]

module _ {W : Type 0} where
  -- What `login` leaves behind: a trusted connector with the profile that it returns, which has a
  -- fingerprint and agrees with a known one, or a connector without a profile that it does not trust.
  abbrev pub Recognised : Result Profile Error × Connector W → Type 0
  Recognised (ok p, connector) =
      (connector.status ≡ DiscoveryStatus.trusted)
      × (connector.profile ≡ some p)
      × (connector.logged_in ≡ true)
      × (is_blank p.fingerprint ≡ false)
      × (any (agrees p) connector.known_profiles ≡ true)
  Recognised (err e, connector) = (is_trusted connector.status ≡ false) × (connector.profile ≡ none)

  recognise-Recognised :
      (p : Profile) (session : Connector W)
      → is_trusted session.status ≡ false
      → session.profile ≡ none
      → session.logged_in ≡ true
      → Recognised (recognise p session)
  unfolding recognise
  recognise-Recognised p session untrusted no_profile entered =
      if_intro Recognised (is_blank p.fingerprint) (λ blank. (untrusted, no_profile))
        (λ named.
          elim (Option-cases
            (find (λ k. same_text k.fingerprint p.fingerprint) session.known_profiles)) [
              | inl unknown ↦ rw unknown (untrusted, no_profile)
              | inr (known, found) ↦ rw found (
                  if_intro Recognised
                    (not (same_capability_set known.capabilities p.capabilities)
                      || not (same_limit known.filter_capacity p.filter_capacity))
                    (λ differs. (refl, no_profile))
                    (λ same. (
                      refl,
                      refl,
                      entered,
                      named,
                      find-agrees p known session.known_profiles found (ground arith)
                          (ground arith),
                    )))
            ])

  -- After `login` the connector trusts the appliance and has its profile exactly if `login` returns
  -- this profile, which has a fingerprint and agrees with a known profile in it, in the set of
  -- capabilities and in the capacity; nothing of an earlier session is kept.
  pub login-Recognised :
      {Secret : Type 0} (t : Transport Secret W) (username : String) (password : Secret)
      (connector : Connector W)
      → Recognised (login t username password connector)
  unfolding login
  login-Recognised t username password connector =
      let entered = t.login username password connector.transport in
      let answer = t.profile entered.1 in
      elim (Result-cases entered.0) [
        | inr (e, refused) ↦ rw (refused, login) (refl, refl)
        | inl (done, welcome) ↦ elim (Result-cases answer.0) [
          | inr (e, silent) ↦ rw (welcome, silent, login) (refl, refl)
          | inl (p, told) ↦ rw (welcome, told, login) (recognise-Recognised p _ refl refl refl)
        ]
      ]
