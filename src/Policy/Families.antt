-- ===== src/Policy/Families.antt =====
-- crates/lattice-policy/src/lib.rs: which evidence identifies a device, and so which deadline it
-- has.
use mathlib.Core.Logic.{◌↔◌}
use neon_hearth.Prelude.{
  ℕ, ◌≤◌, ◌≡◌, refl, ap, ◌≢◌, ◌∙◌, sym, Bool, true, false, List, [], ◌∷◌, length, arith, ◌==◌, any,
  inl, inr, Bool-cases,
}
use neon_hearth.Policy.Types.{EvidenceFamily, Identification}
use neon_hearth.Policy.{
  rank, collect_families, automatically_identified, automatic_identity_threshold_bps,
}

abbrev pub contains : EvidenceFamily → List EvidenceFamily → Bool
contains f = any (λ g. rank g == rank f)

rank_injective : (f g : EvidenceFamily) → rank f ≡ rank g → f ≡ g
unfolding rank
rank_injective f g h = ground arith

same_contains :
    (f g : EvidenceFamily) (fs : List EvidenceFamily)
    → rank f ≡ rank g
    → contains f fs ≡ contains g fs
same_contains f g fs e = ap (λ n. any (λ x. rank x == n) fs) e

contains-collect :
    (f : EvidenceFamily) (fs : List EvidenceFamily)
    → contains f (collect_families fs) ≡ contains f fs
unfolding collect_families
contains-collect f [] = refl
contains-collect f (g ∷ fs) =
    ground (arith, contains-collect f fs, contains-collect g fs, same_contains f g fs)

-- No family stands before itself.
abbrev Distinct : List EvidenceFamily → Type 0
Distinct [] = Unit
Distinct (f ∷ fs) = (contains f fs ≡ false) × Distinct fs

collect-Distinct : (fs : List EvidenceFamily) → Distinct (collect_families fs)
unfolding collect_families
collect-Distinct [] = tt
collect-Distinct (f ∷ fs) = elim (Bool-cases (contains f (collect_families fs))) [
  | inl old ↦ rw old (collect-Distinct fs)
  | inr new ↦ rw new (new, collect-Distinct fs)
]

-- Two families of a list that differ.
abbrev pub HasTwo : List EvidenceFamily → Type 0
HasTwo fs =
    (f : EvidenceFamily) × (g : EvidenceFamily) × (contains f fs ≡ true)
    × (contains g fs ≡ true)
    × (f ≢ g)

two_of_long : (fs : List EvidenceFamily) → Distinct fs → 2 ≤ length fs → HasTwo fs
two_of_long [] d h = absurd (omega arith)
two_of_long (f ∷ []) d h = absurd (omega arith)
two_of_long (f ∷ g ∷ fs) d h = (f, g, ground arith, ground arith, λ e. ground (arith, ap rank e))

long_of_two : (fs : List EvidenceFamily) → HasTwo fs → 2 ≤ length fs
long_of_two [] (f, g, hf, hg, ne) = absurd (cc hf)
long_of_two (x ∷ []) (f, g, hf, hg, ne) =
    absurd (ne (ground (arith, rank_injective x f, rank_injective x g)))
long_of_two (x ∷ y ∷ fs) t = omega arith

length-collect_iff : (fs : List EvidenceFamily) → (2 ≤ length (collect_families fs)) ↔ HasTwo fs
length-collect_iff fs = (
  λ h.
      let (f, g, hf, hg, ne) = two_of_long (collect_families fs) (collect-Distinct fs) h in
      (f, g, sym (contains-collect f fs) ∙ hf, sym (contains-collect g fs) ∙ hg, ne),
  λ t.
      let (f, g, hf, hg, ne) = t in
      long_of_two (collect_families fs)
        (f, g, contains-collect f fs ∙ hf, contains-collect g fs ∙ hg, ne),
)

-- A device counts as identified exactly when the confidence reaches 8500 basis points and the
-- evidence shows two different families; repeats of a family do not count.
pub identified_iff :
    (confidence : ℕ) (fs : List EvidenceFamily)
    → (automatically_identified (Identification.automatic confidence fs) ≡ true)
      ↔ ((automatic_identity_threshold_bps ≤ confidence) × HasTwo fs)
unfolding automatically_identified
identified_iff confidence fs = (
  λ h. (ground arith, (length-collect_iff fs).0 (ground arith)),
  λ h. let (high, two) = h in ground (arith, (length-collect_iff fs).1 two),
)
