-- ===== src/Bench/Stats/Sort.antt =====
-- Sorting finite numbers: the result is in order and has the same numbers, as often.
use zopa.Base.{ℕ, suc, ◌+◌, ◌≡◌, refl, inl, inr, Bool, true, false, List, [], ◌∷◌, arith}
use zopa.Base.Tests.{if◌then◌else◌, Bool-cases}
use zopa.Base.Lists.{length, All}
use zopa.Base.Number.{Numbers, IsOrdered}
use zopa.Bench.Stats.{insert_sorted, sort}

module _ {A : Type 0} where
  -- How many elements pass a test.
  unfoldable pub count_by : (A → Bool) → List A → ℕ
  count_by f [] = 0
  count_by f (x ∷ xs) = (if f x then 1 else 0) + count_by f xs

module _ (N : Numbers) where
  abbrev pub Finite : List N.Num → Type 0
  Finite xs = All (λ x. N.is_finite x ≡ true) xs

  abbrev pub Sorted : List N.Num → Type 0
  Sorted [] = Unit
  Sorted (x ∷ xs) = All (λ y. N.le x y ≡ true) xs × Sorted xs

  All-insert_sorted :
      (P : N.Num → Type 0) (x : N.Num) (xs : List N.Num)
      → P x
      → All P xs
      → All P (insert_sorted N x xs)
  unfolding insert_sorted
  All-insert_sorted P x [] p a = (p, a)
  All-insert_sorted P x (y ∷ ys) p (q, a) = elim (Bool-cases (N.le x y)) [
    | inl e ↦ rw e (p, (q, a))
    | inr e ↦ rw e (q, All-insert_sorted P x ys p a)
  ]

  count_by-insert_sorted :
      (f : N.Num → Bool) (x : N.Num) (xs : List N.Num)
      → count_by f (insert_sorted N x xs) ≡ (if f x then 1 else 0) + count_by f xs
  unfolding insert_sorted count_by
  count_by-insert_sorted f x [] = refl
  count_by-insert_sorted f x (y ∷ ys) = elim (Bool-cases (N.le x y)) [
    | inl e ↦ rw e
    | inr e ↦ rw e (omega (arith, count_by-insert_sorted f x ys))
  ]

  pub count_by-sort : (f : N.Num → Bool) (xs : List N.Num) → count_by f (sort N xs) ≡ count_by f xs
  unfolding sort count_by
  count_by-sort f [] = refl
  count_by-sort f (x ∷ xs) =
      omega (arith, count_by-insert_sorted f x (sort N xs), count_by-sort f xs)

  length-insert_sorted :
      (x : N.Num) (xs : List N.Num) → length (insert_sorted N x xs) ≡ suc (length xs)
  unfolding insert_sorted
  length-insert_sorted x [] = refl
  length-insert_sorted x (y ∷ ys) = elim (Bool-cases (N.le x y)) [
    | inl e ↦ rw e
    | inr e ↦ rw e (omega (arith, length-insert_sorted x ys))
  ]

  pub length-sort : (xs : List N.Num) → length (sort N xs) ≡ length xs
  unfolding sort
  length-sort [] = refl
  length-sort (x ∷ xs) = omega (arith, length-insert_sorted x (sort N xs), length-sort xs)

  pub sort-All : (P : N.Num → Type 0) (xs : List N.Num) → All P xs → All P (sort N xs)
  unfolding sort
  sort-All P [] a = a
  sort-All P (x ∷ xs) (p, a) = All-insert_sorted P x (sort N xs) p (sort-All P xs a)

  module _ (ord : IsOrdered N) where
    All-le_trans :
        (x y : N.Num) (ys : List N.Num)
        → N.le x y ≡ true
        → All (λ z. N.le y z ≡ true) ys
        → All (λ z. N.le x z ≡ true) ys
    All-le_trans x y [] h _ = tt
    All-le_trans x y (z ∷ zs) h (k, ks) = (ord.le_trans x y z h k, All-le_trans x y zs h ks)

    insert_sorted-Sorted :
        (x : N.Num) (xs : List N.Num)
        → N.is_finite x ≡ true
        → Finite xs
        → Sorted xs
        → Sorted (insert_sorted N x xs)
    unfolding insert_sorted
    insert_sorted-Sorted x [] f _ _ = (tt, tt)
    insert_sorted-Sorted x (y ∷ ys) f (g, fs) (a, s) = elim (Bool-cases (N.le x y)) [
      | inl e ↦ rw e ((e, All-le_trans x y ys e a), (a, s))
      | inr e ↦ rw e (
        All-insert_sorted (λ z. N.le y z ≡ true) x ys (other_way e) a,
        insert_sorted-Sorted x ys f fs s,
      )
    ]
      where
        other_way : N.le x y ≡ false → N.le y x ≡ true
        other_way e = elim (ord.le_total x y f g) [ inl h ↦ absurd (cc) | inr h ↦ h ]

    pub sort-Sorted : (xs : List N.Num) → Finite xs → Sorted (sort N xs)
    unfolding sort
    sort-Sorted [] _ = tt
    sort-Sorted (x ∷ xs) (f, fs) =
        insert_sorted-Sorted x (sort N xs) f (sort-All (λ z. N.is_finite z ≡ true) xs fs)
          (sort-Sorted xs fs)
