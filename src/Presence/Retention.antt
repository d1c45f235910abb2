-- ===== src/Presence/Retention.antt =====
-- crates/lattice-intelligence/src/presence.rs: what the bounded history of a device keeps of its
-- transitions.
use mathlib.Core.List.{append_assoc, append-nil}
use neon_hearth.Prelude.{
  ℕ, ◌≤◌, ◌<◌, ◌≡◌, refl, sym, ap, ◌∙◌, inl, inr, List, [], ◌∷◌, ◌++◌, length, length-append,
  Option, none, some, arith, Bool-cases, is_some_and, leb, ◌==◌,
}
use neon_hearth.External.{Crates}
use neon_hearth.Presence.Types.{PresenceTransition, DevicePresence}
use neon_hearth.Presence.Histories.{shed, push_history}

module _ {c : Crates} where
  -- The number of the last of some transitions, if there are any.
  abbrev pub last_id : List (PresenceTransition c) → Option ℕ → Option ℕ
  last_id [] id = id
  last_id (t ∷ ts) id = last_id ts (some t.transition_id)

  pub last_id-append :
      (xs ys : List (PresenceTransition c)) (id : Option ℕ)
      → last_id (xs ++ ys) id ≡ last_id ys (last_id xs id)
  last_id-append [] ys id = refl
  last_id-append (x ∷ xs) ys id = last_id-append xs ys (some x.transition_id)

  abbrev pub history_of : Option (DevicePresence c) → List (PresenceTransition c)
  history_of none = []
  history_of (some d) = d.history

  abbrev pub evicted_of : Option (DevicePresence c) → Option ℕ
  evicted_of none = none
  evicted_of (some d) = d.evicted_through

  -- A device's history has taken some transitions at its end and dropped some from its front, and the
  -- device knows the last that it has dropped.
  pub record Advance (taken : List (PresenceTransition c)) (old new : Option (DevicePresence c))
      : Type 0 where
    pub dropped : List (PresenceTransition c)
    pub joined : history_of old ++ taken ≡ dropped ++ history_of new
    pub evicted : evicted_of new ≡ last_id dropped (evicted_of old)

  pub Advance-still :
      (old new : Option (DevicePresence c))
      → history_of new ≡ history_of old
      → evicted_of new ≡ evicted_of old
      → Advance [] old new
  Advance-still old new h e = record {
    dropped = [];
    joined = append-nil (history_of old) ∙ sym h;
    evicted = e;
  }

  pub Advance-trans :
      {xs ys : List (PresenceTransition c)} {a b d : Option (DevicePresence c)}
      → Advance xs a b
      → Advance ys b d
      → Advance (xs ++ ys) a d
  Advance-trans {xs} {ys} {a} {b} {d} p q = record {
    dropped = p.dropped ++ q.dropped;
    joined =
        sym (append_assoc (history_of a) xs ys)
        ∙ (ap (λ h. h ++ ys) p.joined
            ∙ (append_assoc p.dropped (history_of b) ys
                ∙ (ap (λ h. p.dropped ++ h) q.joined
                    ∙ sym (append_assoc p.dropped q.dropped (history_of d)))));
    evicted =
        q.evicted
        ∙ (ap (last_id q.dropped) p.evicted
            ∙ sym (last_id-append p.dropped q.dropped (evicted_of a)));
  }

module _ (c : Crates) where
  shed_drops :
      (max : ℕ) (parent evicted : Option ℕ) (ts : List (PresenceTransition c))
      → let r = shed c max parent evicted ts in
        (dropped : List (PresenceTransition c)) × (ts ≡ dropped ++ r.0)
        × (r.1 ≡ last_id dropped evicted)
  unfolding shed
  shed_drops max parent evicted [] = ([], refl, refl)
  shed_drops max parent evicted (t ∷ ts) =
      elim (Bool-cases
        (is_some_and parent (λ id. is_some_and t.correction_of (λ target. target == id)))) [
          | inl e ↦
              let (dropped, same, last) = shed_drops max parent (some t.transition_id) ts in
              rw e (t ∷ dropped, ap (λ r. t ∷ r) same, last)
          | inr e ↦ elim (Bool-cases (leb max (length (t ∷ ts)))) [
            | inl full ↦
                let (dropped, same, last) =
                  shed_drops max (some t.transition_id) (some t.transition_id) ts in
                rw (e, full) (t ∷ dropped, ap (λ r. t ∷ r) same, last)
            | inr room ↦ rw (e, room) ([], refl, refl)
          ]
        ]

  shed_room :
      (max : ℕ) (parent evicted : Option ℕ) (ts : List (PresenceTransition c))
      → 0 < max
      → length (shed c max parent evicted ts).0 < max
  unfolding shed
  shed_room max parent evicted [] pos = pos
  shed_room max parent evicted (t ∷ ts) pos = ground (
    arith,
    shed_room max parent (some t.transition_id) ts pos,
    shed_room max (some t.transition_id) (some t.transition_id) ts pos,
  )

  -- A transition that is kept is taken, and no other.
  pub push_history-Advance :
      (t : PresenceTransition c) (max : ℕ) (d : DevicePresence c)
      → Advance (t ∷ []) (some d) (some (push_history c t max d))
  unfolding push_history
  push_history-Advance t max d =
      let (dropped, same, last) = shed_drops max none d.evicted_through d.history in
      record {
        dropped = dropped;
        joined = ap (λ h. h ++ t ∷ []) same ∙ append_assoc dropped _ (t ∷ []);
        evicted = last;
      }

  -- A history stays within its bound.
  pub push_history_bound :
      (t : PresenceTransition c) (max : ℕ) (d : DevicePresence c)
      → 0 < max
      → length (push_history c t max d).history ≤ max
  unfolding push_history
  push_history_bound t max d pos = omega (
    arith,
    shed_room max none d.evicted_through d.history pos,
    length-append (shed c max none d.evicted_through d.history).0 (t ∷ []),
  )
