-- ===== src/Presence/Distinct.antt =====
-- crates/lattice-intelligence/src/presence.rs: what `distinct_count` and the latest instant say of the
-- single pieces of evidence.
use mathlib.Core.List.{Mem, mem-cons}
use mathlib.Core.Logic.Or
use neon_hearth.Prelude.{
  ℕ, ◌≤◌, ◌≡◌, refl, inl, inr, Bool, true, false, ◌&&◌, List, [], ◌∷◌, length, any, retain, All,
  All-mono, Option, arith, Bool-cases, Option-cases, is_none_or,
}
use neon_hearth.Text.{same_text}
use neon_hearth.External.{Crates, same_time, before}
use neon_hearth.Presence.Types.{PresenceEvidence, same_evidence_kind}
use neon_hearth.Presence.Evidence.{latest, distinct_count}
use neon_hearth.Presence.Candidates.{filter_map}

module _ {A : Type 0} where
  All-Mem : (xs : List A) → All (λ x. Mem x xs) xs
  All-Mem [] = tt
  All-Mem (x ∷ xs) =
      (mem-cons.1 (Or.inl refl), All-mono _ _ (λ y m. mem-cons.1 (Or.inr m)) xs (All-Mem xs))

  All-retain :
      (P : A → Type 0) (p : A → Bool) (xs : List A)
      → All P xs
      → All (λ x. P x × (p x ≡ true)) (retain p xs)
  All-retain P p [] every = tt
  All-retain P p (x ∷ xs) every = elim (Bool-cases (p x)) [
    | inl e ↦ rw e ((every.0, e), All-retain P p xs every.1)
    | inr e ↦ rw e (All-retain P p xs every.1)
  ]

  -- What is kept of a list is taken from it and passes the test.
  pub retain-taken : (p : A → Bool) (xs : List A) → All (λ x. Mem x xs × (p x ≡ true)) (retain p xs)
  retain-taken p xs = All-retain _ p xs (All-Mem xs)

  any-none : (p : A → Bool) (xs : List A) → any p xs ≡ false → All (λ x. p x ≡ false) xs
  any-none p [] h = tt
  any-none p (x ∷ xs) h = (ground (arith, h), any-none p xs (ground (arith, h)))

  All-zip : (P Q : A → Type 0) (xs : List A) → All P xs → All Q xs → All (λ x. P x × Q x) xs
  All-zip P Q [] p q = tt
  All-zip P Q (x ∷ xs) p q = ((p.0, q.0), All-zip P Q xs p.1 q.1)

module _ (c : Crates) where
  open c use {DateTime}

  -- Whether two pieces of evidence agree in source, kind and time.
  abbrev pub same_piece : PresenceEvidence c → PresenceEvidence c → Bool
  same_piece a b =
      same_text a.source b.source
      && same_evidence_kind a.kind b.kind
      && same_time c a.observed_at b.observed_at

  -- No two of them agree.
  abbrev pub Distinct : List (PresenceEvidence c) → Type 0
  Distinct [] = Unit
  Distinct (e ∷ es) = All (λ x. same_piece x e ≡ false) es × Distinct es

  -- At least so many distinct pieces of evidence, all of such a sort.
  pub record Pieces (least : ℕ) (Such : PresenceEvidence c → Type 0) : Type 0 where
    pub pieces : List (PresenceEvidence c)
    pub such : All Such pieces
    pub distinct : Distinct pieces
    pub enough : least ≤ length pieces

  pub distinct_count-Pieces :
      (Such : PresenceEvidence c → Type 0) (es : List (PresenceEvidence c))
      → All Such es
      → Pieces (distinct_count c es) Such
  unfolding distinct_count
  distinct_count-Pieces Such [] every = record {
    pieces = [];
    such = tt;
    distinct = tt;
    enough = omega arith;
  }
  distinct_count-Pieces Such (e ∷ es) every = elim (Bool-cases (any (λ x. same_piece x e) es)) [
    | inl again ↦ rw (again, distinct_count) (distinct_count-Pieces Such es every.1)
    | inr fresh ↦
        let rest =
          distinct_count-Pieces (λ x. Such x × (same_piece x e ≡ false)) es
            (All-zip Such (λ x. same_piece x e ≡ false) es every.1 (any-none _ es fresh)) in
        rw (fresh, distinct_count)
          (record {
            pieces = e ∷ rest.pieces;
            such = (every.0, All-mono _ Such (λ x both. both.0) rest.pieces rest.such);
            distinct = (All-mono _ _ (λ x both. both.1) rest.pieces rest.such, rest.distinct);
            enough = omega (arith, rest.enough);
          })
  ]

  -- Every instant is before one that the latest is before.
  latest_before :
      (t : DateTime) (xs : List DateTime)
      → is_none_or (latest c xs) (λ x. before c x t) ≡ true
      → All (λ x. before c x t ≡ true) xs
  unfolding latest
  latest_before t [] h = tt
  latest_before t (x ∷ xs) h = elim (Option-cases (latest c xs)) [
    | inl e ↦ (ground (arith, h, e), latest_before t xs (simp e))
    | inr (y, e) ↦ (ground (arith, h, e), latest_before t xs (ground (arith, h, e)))
  ]

  filter_map_back :
      (P : DateTime → Bool) (f : PresenceEvidence c → Option DateTime)
      (es : List (PresenceEvidence c))
      → All (λ x. P x ≡ true) (filter_map c f es)
      → All (λ e. is_none_or (f e) P ≡ true) es
  filter_map_back P f [] every = tt
  filter_map_back P f (e ∷ es) every = elim (Option-cases (f e)) [
    | inl gone ↦ (simp gone, filter_map_back P f es (rw (gone, All) at every))
    | inr (y, there) ↦
        let both : (P y ≡ true) × All (λ x. P x ≡ true) (filter_map c f es) =
          rw (there, All) at every in
        (simp (there, both.0), filter_map_back P f es both.1)
  ]

  -- What the latest of some instants is before, each of them is before.
  pub latest_of :
      (t : DateTime) (f : PresenceEvidence c → Option DateTime) (es : List (PresenceEvidence c))
      → is_none_or (latest c (filter_map c f es)) (λ x. before c x t) ≡ true
      → All (λ e. is_none_or (f e) (λ x. before c x t) ≡ true) es
  latest_of t f es h =
      filter_map_back (λ x. before c x t) f es (latest_before t (filter_map c f es) h)
