-- ===== src/Common/Sort.antt =====
-- `sort.Sort` of the Go library over a total order: insertion sort. Which algorithm is used does not
-- show in the result where elements that the order does not tell apart are equal.
use mathlib.Core.Path.{◌≡◌, refl}
use mathlib.Core.Bool.{Bool, true, false}
use mathlib.Core.Option.{some}
use mathlib.Core.List.{List, [], ◌∷◌}
use mathlib.Core.Logic.{inl, inr}
use Prim.Native.Nat.{ℕ, zero, suc, ◌+◌, ◌≤◌, ◌<◌}
use native.Mathlib.Omega.{arith}
use btcchain.Common.Tests.{if◌then◌else◌, Bool-cases}
use btcchain.Common.Lists.{length, All, get_elem?}

module _ {ℓ} {A : Type ℓ} where
  -- How many elements pass the test.
  abbrev pub count : (A → Bool) → List A → ℕ
  count p [] = 0
  count p (x ∷ xs) = (if p x then 1 else 0) + count p xs

  get_elem?-lt : (xs : List A) (i : ℕ) → i < length xs → (m : A) × (get_elem? xs i ≡ some m)
  get_elem?-lt [] i h = absurd (omega arith)
  get_elem?-lt (x ∷ xs) zero h = (x, refl)
  get_elem?-lt (x ∷ xs) (suc i) h = get_elem?-lt xs i (omega arith)

module _ {ℓ} {A : Type ℓ} (le : A → A → Bool) where
  unfoldable pub insert_sorted : A → List A → List A
  insert_sorted a [] = a ∷ []
  insert_sorted a (x ∷ xs) = if le a x then a ∷ x ∷ xs else x ∷ insert_sorted a xs

  unfoldable pub sort : List A → List A
  unfolding insert_sorted
  sort [] = []
  sort (x ∷ xs) = insert_sorted x (sort xs)

  count-insert_sorted :
      (p : A → Bool) (a : A) (xs : List A) → count p (insert_sorted a xs) ≡ count p (a ∷ xs)
  unfolding insert_sorted
  count-insert_sorted p a [] = refl
  count-insert_sorted p a (x ∷ xs) = elim (Bool-cases (le a x)) [
    | inl e ↦ rw e refl
    | inr e ↦ rw e (omega (arith, count-insert_sorted p a xs))
  ]

  -- The sorted list has the same elements, each as often.
  pub count-sort : (p : A → Bool) (xs : List A) → count p (sort xs) ≡ count p xs
  unfolding sort
  count-sort p [] = refl
  count-sort p (x ∷ xs) = omega (arith, count-insert_sorted p x (sort xs), count-sort p xs)

  length-insert_sorted : (a : A) (xs : List A) → length (insert_sorted a xs) ≡ suc (length xs)
  unfolding insert_sorted
  length-insert_sorted a [] = refl
  length-insert_sorted a (x ∷ xs) = ground (arith, length-insert_sorted a xs)

  pub length-sort : (xs : List A) → length (sort xs) ≡ length xs
  unfolding sort
  length-sort [] = refl
  length-sort (x ∷ xs) = omega (arith, length-insert_sorted x (sort xs), length-sort xs)

  -- Each entry is below all that follow it.
  abbrev pub IsSorted : List A → Type 0
  IsSorted [] = Unit {0}
  IsSorted (x ∷ xs) = All (λ y. le x y ≡ true) xs × IsSorted xs

-- A total order, by its test.
pub record IsTotalOrder {ℓ} {A : Type ℓ} (le : A → A → Bool) : Type ℓ where
  pub total : (a b : A) → le a b ≡ false → le b a ≡ true
  pub trans : (a b c : A) → le a b ≡ true → le b c ≡ true → le a c ≡ true

module _ {A : Type 0} (le : A → A → Bool) (order : IsTotalOrder le) where
  open order use {total, trans}

  le_refl : (a : A) → le a a ≡ true
  le_refl a = elim (Bool-cases (le a a)) [ inl e ↦ e | inr e ↦ total a a e ]

  All-le_trans :
      (a x : A) (xs : List A)
      → le a x ≡ true
      → All (λ y. le x y ≡ true) xs
      → All (λ y. le a y ≡ true) xs
  All-le_trans a x [] h all = tt
  All-le_trans a x (y ∷ xs) h all = (trans a x y h all.0, All-le_trans a x xs h all.1)

  All-insert_sorted :
      (b a : A) (xs : List A)
      → le b a ≡ true
      → All (λ y. le b y ≡ true) xs
      → All (λ y. le b y ≡ true) (insert_sorted le a xs)
  unfolding insert_sorted
  All-insert_sorted b a [] h all = (h, tt)
  All-insert_sorted b a (x ∷ xs) h all = elim (Bool-cases (le a x)) [
    | inl e ↦ rw e (h, all)
    | inr e ↦ rw e (all.0, All-insert_sorted b a xs h all.1)
  ]

  insert_sorted-IsSorted :
      (a : A) (xs : List A) → IsSorted le xs → IsSorted le (insert_sorted le a xs)
  unfolding insert_sorted
  insert_sorted-IsSorted a [] s = (tt, tt)
  insert_sorted-IsSorted a (x ∷ xs) s = elim (Bool-cases (le a x)) [
    | inl e ↦ rw e ((e, All-le_trans a x xs e s.0), s)
    | inr e ↦ rw e (All-insert_sorted x a xs (total a x e) s.0, insert_sorted-IsSorted a xs s.1)
  ]

  sort-IsSorted : (xs : List A) → IsSorted le (sort le xs)
  unfolding sort
  sort-IsSorted [] = tt
  sort-IsSorted (x ∷ xs) = insert_sorted-IsSorted x (sort le xs) (sort-IsSorted xs)

  All-get_elem? :
      (x m : A) (xs : List A) (i : ℕ)
      → All (λ y. le x y ≡ true) xs
      → get_elem? xs i ≡ some m
      → le x m ≡ true
  All-get_elem? x m [] i all e = absurd (cc)
  All-get_elem? x m (y ∷ xs) zero all e = let q : y ≡ m = cc in rw⁻¹ q all.0
  All-get_elem? x m (y ∷ xs) (suc i) all e = All-get_elem? x m xs i all.1 e

  count-All : (m : A) (xs : List A) → All (λ y. le m y ≡ true) xs → count (le m) xs ≡ length xs
  count-All m [] all = refl
  count-All m (x ∷ xs) all = rw (all.0) (omega (arith, count-All m xs all.1))

  -- At most m: the entries up to m's place. At least m: the entries from m's place on.
  count_low :
      (m : A) (xs : List A) (i : ℕ)
      → IsSorted le xs
      → get_elem? xs i ≡ some m
      → i < count (λ y. le y m) xs
  count_low m [] i s e = absurd (cc)
  count_low m (x ∷ xs) zero s e = let q : x ≡ m = cc in rw (q, le_refl m) (omega arith)
  count_low m (x ∷ xs) (suc i) s e =
      rw (All-get_elem? x m xs i s.0 e) (omega (arith, count_low m xs i s.1 e))

  count_high :
      (m : A) (xs : List A) (i : ℕ)
      → IsSorted le xs
      → get_elem? xs i ≡ some m
      → length xs ≤ count (le m) xs + i
  count_high m [] i s e = absurd (cc)
  count_high m (x ∷ xs) zero s e =
      let q : x ≡ m = cc in rw (q, le_refl m) (omega (arith, count-All m xs (rw⁻¹ q s.0)))
  count_high m (x ∷ xs) (suc i) s e = omega (arith, count_high m xs i s.1 e)

  -- The entry at place i of the sorted list: more than i entries of the list are at most it, and all
  -- but i are at least it.
  pub sort-get_elem? :
      (xs : List A) (i : ℕ)
      → i < length xs
      → (m : A) × (get_elem? (sort le xs) i ≡ some m)
        × (i < count (λ y. le y m) xs)
        × (length xs ≤ count (le m) xs + i)
  sort-get_elem? xs i h =
      let (m, e) = get_elem?-lt (sort le xs) i (omega (arith, length-sort le xs)) in
      (
        m,
        e,
        omega (
          arith,
          count-sort le (λ y. le y m) xs,
          count_low m (sort le xs) i (sort-IsSorted xs) e,
        ),
        omega (
          arith,
          count-sort le (le m) xs,
          length-sort le xs,
          count_high m (sort le xs) i (sort-IsSorted xs) e,
        ),
      )
