-- ===== src/Prelude/Sorting.antt =====
-- `sort_by`, `dedup`, `min_by` and `max` on lists, over a Boolean order.
use neon_hearth.Prelude.Tests.{if◌then◌else◌, Bool-cases}
use neon_hearth.Prelude.Lists.{length, is_empty, All}
use neon_hearth.Prelude.Outcome.{is_some, Holds}
use Prim.Native.Nat.{ℕ, zero, suc, ◌≤◌}
use mathlib.Core.Path.{◌≡◌, refl}
use native.Mathlib.Omega.{arith}
use mathlib.Core.Logic.{inl, inr}
use mathlib.Core.Bool.{Bool, not}
use mathlib.Core.List.{List, [], ◌∷◌}
use mathlib.Core.Option.{Option, none, some}

module _ {ℓ} {A : Type ℓ} where
  abbrev pub get_elem? : List A → ℕ → Option A
  get_elem? [] i = none
  get_elem? (x ∷ xs) zero = some x
  get_elem? (x ∷ xs) (suc i) = get_elem? xs i

  -- Insertion keeps the order of equal elements, as `sort_by` does.
  unfoldable pub insert : (A → A → Bool) → A → List A → List A
  insert le x [] = x ∷ []
  insert le x (y ∷ ys) = if le x y then x ∷ y ∷ ys else y ∷ insert le x ys

  unfoldable pub sort_by : (A → A → Bool) → List A → List A
  sort_by le [] = []
  sort_by le (x ∷ xs) = insert le x (sort_by le xs)

  -- The first of the least elements.
  unfoldable pub min_by : (A → A → Bool) → List A → Option A
  min_by le [] = none
  min_by le (x ∷ xs) = elim (min_by le xs) [
    | none ↦ some x
    | some y ↦ some (if le x y then x else y)
  ]

  unfoldable pub drop_equal : (A → A → Bool) → A → List A → List A
  drop_equal eq x [] = x ∷ []
  drop_equal eq x (y ∷ ys) = if eq x y then drop_equal eq x ys else x ∷ drop_equal eq y ys

  -- `dedup`: of a run of equal elements the first.
  unfoldable pub dedup : (A → A → Bool) → List A → List A
  unfolding drop_equal
  dedup eq [] = []
  dedup eq (x ∷ xs) = drop_equal eq x xs

module _ {ℓ} {A : Type ℓ} (le : A → A → Bool) where
  length-insert : (x : A) (xs : List A) → length (insert le x xs) ≡ suc (length xs)
  unfolding insert
  length-insert x [] = refl
  length-insert x (y ∷ ys) = ground (arith, length-insert x ys)

  pub length-sort_by : (xs : List A) → length (sort_by le xs) ≡ length xs
  unfolding sort_by
  length-sort_by [] = refl
  length-sort_by (x ∷ xs) = omega (arith, length-insert x (sort_by le xs), length-sort_by xs)

  length-drop_equal : (x : A) (xs : List A) → length (drop_equal le x xs) ≤ suc (length xs)
  unfolding drop_equal
  length-drop_equal x [] = omega arith
  length-drop_equal x (y ∷ ys) = ground (arith, length-drop_equal x ys, length-drop_equal y ys)

  pub length-dedup : (xs : List A) → length (dedup le xs) ≤ length xs
  unfolding dedup
  length-dedup [] = omega arith
  length-dedup (x ∷ xs) = length-drop_equal x xs

  pub is_some-min_by : (xs : List A) → is_some (min_by le xs) ≡ not (is_empty xs)
  unfolding min_by
  is_some-min_by [] = refl
  is_some-min_by (x ∷ xs) = ground arith

-- What holds of every element of a list holds of what these make of it.
module _ {ℓ κ} {A : Type ℓ} (P : A → Type κ) (le : A → A → Bool) where
  pub All-insert : (x : A) (xs : List A) → P x → All P xs → All P (insert le x xs)
  unfolding insert
  All-insert x [] p ps = (p, tt)
  All-insert x (y ∷ ys) p ps = elim (Bool-cases (le x y)) [
    | inl e ↦ rw e (p, ps)
    | inr e ↦ rw e (ps.0, All-insert x ys p ps.1)
  ]

  pub All-sort_by : (xs : List A) → All P xs → All P (sort_by le xs)
  unfolding sort_by
  All-sort_by [] ps = tt
  All-sort_by (x ∷ xs) ps = All-insert x (sort_by le xs) ps.0 (All-sort_by xs ps.1)

  All-insert_back : (x : A) (xs : List A) → All P (insert le x xs) → P x × All P xs
  unfolding insert
  All-insert_back x [] ps = ps
  All-insert_back x (y ∷ ys) ps = elim (Bool-cases (le x y)) [
    | inl e ↦ rw e at ps
    | inr e ↦
        let rest : P y × All P (insert le x ys) = rw e at ps in
        let found = All-insert_back x ys rest.1 in (found.0, (rest.0, found.1))
  ]

  -- What holds of every element of a sorted list held before.
  pub All-sort_by_back : (xs : List A) → All P (sort_by le xs) → All P xs
  unfolding sort_by
  All-sort_by_back [] ps = tt
  All-sort_by_back (x ∷ xs) ps =
      let found = All-insert_back x (sort_by le xs) ps in (found.0, All-sort_by_back xs found.1)

  All-drop_equal : (x : A) (xs : List A) → P x → All P xs → All P (drop_equal le x xs)
  unfolding drop_equal
  All-drop_equal x [] p ps = (p, tt)
  All-drop_equal x (y ∷ ys) p ps = elim (Bool-cases (le x y)) [
    | inl e ↦ rw e (All-drop_equal x ys p ps.1)
    | inr e ↦ rw e (p, All-drop_equal y ys ps.0 ps.1)
  ]

  pub All-dedup : (xs : List A) → All P xs → All P (dedup le xs)
  unfolding dedup
  All-dedup [] ps = tt
  All-dedup (x ∷ xs) ps = All-drop_equal x xs ps.0 ps.1

  pub All-min_by : (xs : List A) → All P xs → Holds P (min_by le xs)
  unfolding min_by
  All-min_by [] ps = tt
  All-min_by (x ∷ xs) ps = least (min_by le xs) (All-min_by xs ps.1)
    where
      least :
          (found : Option A)
          → Holds P found
          → Holds P (elim found [ none ↦ some x | some y ↦ some (if le x y then x else y) ])
      least none held = ps.0
      least (some y) held = elim (Bool-cases (le x y)) [ inl e ↦ rw e ps.0 | inr e ↦ rw e held ]
