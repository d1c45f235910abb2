-- ===== src/Quarantine/CapabilitySets.antt =====
-- crates/lattice-w6/src/lib.rs: `same_capability_set` compares sets.
use neon_hearth.Prelude.{
  ℕ, suc, ◌≤◌, ◌<◌, ◌≡◌, ◌↔◌, refl, sym, ap, ◌∙◌, inl, inr, Bool, true, false, ◌||◌, List, [], ◌∷◌,
  any, arith, leb, Bool-cases,
}
use neon_hearth.Prelude.Sorting.{insert, sort_by, dedup, drop_equal}
use neon_hearth.Quarantine.Types.{
  Capability, capability_index, same_capability, capability_le, capability_set, same_capabilities,
  same_capability_set,
}

abbrev pub has : Capability → List Capability → Bool
has capability = any (λ x. same_capability x capability)

-- Capabilities in order, with repetitions and without.
abbrev Ordered : ℕ → List Capability → Type 0
Ordered k [] = Unit
Ordered k (x ∷ xs) = (k ≤ capability_index x) × Ordered (capability_index x) xs

abbrev Rising : ℕ → List Capability → Type 0
Rising k [] = Unit
Rising k (x ∷ xs) = (k ≤ capability_index x) × Rising (suc (capability_index x)) xs

insert-Ordered :
    (k : ℕ) (x : Capability) (xs : List Capability)
    → k ≤ capability_index x
    → Ordered k xs
    → Ordered k (insert capability_le x xs)
unfolding insert
insert-Ordered k x [] le h = (le, tt)
insert-Ordered k x (y ∷ ys) le h = elim (Bool-cases (capability_le x y)) [
  | inl before ↦ rw before (le, (ground (arith, before), h.1))
  | inr behind ↦
      rw behind (h.0, insert-Ordered (capability_index y) x ys (ground (arith, behind)) h.1)
]

sort_by-Ordered : (xs : List Capability) → Ordered 0 (sort_by capability_le xs)
unfolding sort_by
sort_by-Ordered [] = tt
sort_by-Ordered (x ∷ xs) =
    insert-Ordered 0 x (sort_by capability_le xs) (omega arith) (sort_by-Ordered xs)

Ordered-le : (j k : ℕ) (xs : List Capability) → j ≤ k → Ordered k xs → Ordered j xs
Ordered-le j k [] le h = tt
Ordered-le j k (x ∷ xs) le h = (omega (arith, le, h.0), h.1)

drop_equal-Rising :
    (k : ℕ) (x : Capability) (xs : List Capability)
    → k ≤ capability_index x
    → Ordered (capability_index x) xs
    → Rising k (drop_equal same_capability x xs)
unfolding drop_equal
drop_equal-Rising k x [] le h = (le, tt)
drop_equal-Rising k x (y ∷ ys) le h = elim (Bool-cases (same_capability x y)) [
  | inl same ↦ rw same (drop_equal-Rising k x ys le (Ordered-le _ _ ys (ground (arith, same)) h.1))
  | inr differs ↦
      rw differs
        (le, drop_equal-Rising (suc (capability_index x)) y ys (ground (arith, h.0, differs)) h.1)
]

dedup-Rising : (xs : List Capability) → Ordered 0 xs → Rising 0 (dedup same_capability xs)
unfolding dedup
dedup-Rising [] h = tt
dedup-Rising (x ∷ xs) h = drop_equal-Rising 0 x xs (omega arith) h.1

-- Neither step changes what a list has.
has-insert :
    (c x : Capability) (xs : List Capability)
    → has c (insert capability_le x xs) ≡ (same_capability x c || has c xs)
unfolding insert
has-insert c x [] = refl
has-insert c x (y ∷ ys) = ground (arith, has-insert c x ys)

has-sort_by : (c : Capability) (xs : List Capability) → has c (sort_by capability_le xs) ≡ has c xs
unfolding sort_by
has-sort_by c [] = refl
has-sort_by c (x ∷ xs) =
    has-insert c x (sort_by capability_le xs)
    ∙ ap (λ b. same_capability x c || b) (has-sort_by c xs)

has-drop_equal :
    (c x : Capability) (xs : List Capability)
    → has c (drop_equal same_capability x xs) ≡ (same_capability x c || has c xs)
unfolding drop_equal
has-drop_equal c x [] = refl
has-drop_equal c x (y ∷ ys) = ground (arith, has-drop_equal c x ys, has-drop_equal c y ys)

has-dedup : (c : Capability) (xs : List Capability) → has c (dedup same_capability xs) ≡ has c xs
unfolding dedup
has-dedup c [] = refl
has-dedup c (x ∷ xs) = has-drop_equal c x xs

has-capability_set : (c : Capability) (xs : List Capability) → has c (capability_set xs) ≡ has c xs
has-capability_set c xs = has-dedup c (sort_by capability_le xs) ∙ has-sort_by c xs

has_above :
    (c : Capability) (k : ℕ) (xs : List Capability)
    → Rising k xs
    → capability_index c < k
    → has c xs ≡ false
has_above c k [] h lt = refl
has_above c k (x ∷ xs) h lt =
    ground (arith, h.0, lt, has_above c (suc (capability_index x)) xs h.1 (omega (arith, h.0, lt)))

same_capabilities-has :
    (c : Capability) (xs ys : List Capability)
    → same_capabilities xs ys ≡ true
    → has c xs ≡ has c ys
same_capabilities-has c [] [] h = refl
same_capabilities-has c [] (y ∷ ys) h = ground (arith, h)
same_capabilities-has c (x ∷ xs) [] h = ground (arith, h)
same_capabilities-has c (x ∷ xs) (y ∷ ys) h =
    ground (arith, h, same_capabilities-has c xs ys (ground (arith, h)))

-- Of two rising lists that have the same, the first elements are the same.
head_le :
    (x y : Capability) (j : ℕ) (xs ys : List Capability)
    → Rising (suc (capability_index y)) ys
    → has x (x ∷ xs) ≡ has x (y ∷ ys)
    → capability_index y ≤ capability_index x
head_le x y j xs ys rising h = elim (Bool-cases (leb (capability_index y) (capability_index x))) [
  | inl le ↦ ground (arith, le)
  | inr gt ↦
      ground (arith, gt, h, has_above x (suc (capability_index y)) ys rising (ground (arith, gt)))
]

tail_has :
    (x y c : Capability) (xs ys : List Capability)
    → capability_index x ≡ capability_index y
    → Rising (suc (capability_index x)) xs
    → Rising (suc (capability_index y)) ys
    → has c (x ∷ xs) ≡ has c (y ∷ ys)
    → has c xs ≡ has c ys
tail_has x y c xs ys same hx hy h = elim (Bool-cases (same_capability x c)) [
  | inl first ↦
      has_above c (suc (capability_index x)) xs hx (ground (arith, first))
      ∙ sym (has_above c (suc (capability_index y)) ys hy (ground (arith, first, same)))
  | inr other ↦ ground (arith, h, other, same)
]

Rising-same :
    (j k : ℕ) (xs ys : List Capability)
    → Rising j xs
    → Rising k ys
    → ((c : Capability) → has c xs ≡ has c ys)
    → same_capabilities xs ys ≡ true
Rising-same j k [] [] hx hy h = refl
Rising-same j k [] (y ∷ ys) hx hy h = ground (arith, h y)
Rising-same j k (x ∷ xs) [] hx hy h = ground (arith, h x)
Rising-same j k (x ∷ xs) (y ∷ ys) hx hy h =
    let le = head_le x y 0 xs ys hy.1 (h x) in
    let ge = head_le y x 0 ys xs hx.1 (sym (h y)) in
    let same : capability_index x ≡ capability_index y = omega (arith, le, ge) in
    ground (
      arith,
      same,
      Rising-same _ _ xs ys hx.1 hy.1 (λ c. tail_has x y c xs ys same hx.1 hy.1 (h c)),
    )

capability_set-Rising : (xs : List Capability) → Rising 0 (capability_set xs)
capability_set-Rising xs = dedup-Rising (sort_by capability_le xs) (sort_by-Ordered xs)

-- `same_capability_set` answers that two lists are the same exactly if they have the same
-- capabilities, however often and in whatever order.
pub same_capability_set_iff :
    (left right : List Capability)
    → (same_capability_set left right ≡ true)
      ↔ ((capability : Capability) → has capability left ≡ has capability right)
unfolding same_capability_set
same_capability_set_iff left right = (
  λ same capability.
      sym (has-capability_set capability left)
      ∙ (same_capabilities-has capability (capability_set left) (capability_set right) same
          ∙ has-capability_set capability right),
  λ has_same.
      Rising-same 0 0 (capability_set left) (capability_set right) (capability_set-Rising left)
        (capability_set-Rising right)
        (λ capability.
          has-capability_set capability left
          ∙ (has_same capability ∙ sym (has-capability_set capability right))),
)
