-- ===== src/Json/Members/InsertionSort.antt =====
-- An insertion sort, which does what is asked of `std.sort.heap`, for the tests.
use mathlib.Core.List.{Mem, Pairwise, Perm, eq-or-mem_of_mem-cons, not-mem-nil}
use mathlib.Core.List.Perm
use mathlib.Core.Logic.Or
use zopa.Base.{◌≡◌, Bool, true, false, inl, inr, List, [], ◌∷◌}
use zopa.Base.Tests.{if◌then◌else◌, Bool-cases}
use zopa.Json.Members.{Slot}
use zopa.Json.Members.Sorted.{IsSort, IsStrictOrder}

unfoldable pub place : (Slot → Slot → Bool) → Slot → List Slot → List Slot
place lt x [] = x ∷ []
place lt x (y ∷ l) = let rest = place lt x l in if lt y x then y ∷ rest else x ∷ y ∷ l

unfoldable pub insertion_sort : (Slot → Slot → Bool) → List Slot → List Slot
unfolding place
insertion_sort lt [] = []
insertion_sort lt (x ∷ l) = place lt x (insertion_sort lt l)

place-Perm : (lt : Slot → Slot → Bool) (x : Slot) (l : List Slot) → Perm (x ∷ l) (place lt x l)
unfolding place
place-Perm lt x [] = Perm.refl (x ∷ [])
place-Perm lt x (y ∷ l) = elim (Bool-cases (lt y x)) [
  | inl e ↦ rw e (Perm.trans (Perm.swap y x l) (Perm.cons y (place-Perm lt x l)))
  | inr e ↦ rw e (Perm.refl (x ∷ y ∷ l))
]

insertion_sort-Perm : (lt : Slot → Slot → Bool) (l : List Slot) → Perm l (insertion_sort lt l)
unfolding insertion_sort
insertion_sort-Perm lt [] = Perm.refl []
insertion_sort-Perm lt (x ∷ l) =
    Perm.trans (Perm.cons x (insertion_sort-Perm lt l)) (place-Perm lt x (insertion_sort lt l))

module _ (lt : Slot → Slot → Bool) (strict : IsStrictOrder lt) where
  abbrev NotAfter : Slot → Slot → Type 0
  NotAfter a b = lt b a ≡ false

  place-Pairwise :
      (x : Slot) (l : List Slot) → Pairwise NotAfter l → Pairwise NotAfter (place lt x l)
  unfolding place
  place-Pairwise x [] p = Pairwise.cons (λ a t. absurd (not-mem-nil t)) Pairwise.nil
  place-Pairwise x (y ∷ l) (Pairwise.cons h p) = elim (Bool-cases (lt y x)) [
    | inl e ↦ rw e (Pairwise.cons (after_head e) (place-Pairwise x l p))
    | inr e ↦ rw e (Pairwise.cons (after_new e) (Pairwise.cons h p))
  ]
    where
      after_head : lt y x ≡ true → (a : Slot) → Mem a (place lt x l) → lt a y ≡ false
      after_head e a t =
          Or.elim (hlevel) (eq-or-mem_of_mem-cons ((Perm.mem_iff (place-Perm lt x l)).1 t))
            (λ q. rw q (strict.0 y x e)) (λ u. h a u)

      after_new : lt y x ≡ false → (a : Slot) → Mem a (y ∷ l) → lt a x ≡ false
      after_new e a t =
          Or.elim (hlevel) (eq-or-mem_of_mem-cons t) (λ q. rw q e) (λ u. strict.1 a y x (h a u) e)

  insertion_sort-Pairwise : (l : List Slot) → Pairwise NotAfter (insertion_sort lt l)
  unfolding insertion_sort
  insertion_sort-Pairwise [] = Pairwise.nil
  insertion_sort-Pairwise (x ∷ l) =
      place-Pairwise x (insertion_sort lt l) (insertion_sort-Pairwise l)

pub insertion_sort-IsSort : IsSort insertion_sort
insertion_sort-IsSort = record { permutes = insertion_sort-Perm; orders = insertion_sort-Pairwise }
