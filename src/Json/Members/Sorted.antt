-- ===== src/Json/Members/Sorted.antt =====
-- What is asked of `std.sort.heap`, and that `lessThan` is an order that it can sort by.
use mathlib.Core.List.{Pairwise, Perm}
use zopa.Base.{◌≡◌, refl, Bool, true, false, List, [], ◌∷◌, arith}
use zopa.Base.Text.{Text, same_iff}
use zopa.Json.Members.{Slot, Cell, less, text_lt, key_at}
use zopa.Json.Members.Order.{text_lt_antisym}

abbrev pub IsStrictOrder : (Slot → Slot → Bool) → Type 0
IsStrictOrder lt =
    ((a b : Slot) → lt a b ≡ true → lt b a ≡ false)
    × ((a b c : Slot) → lt a b ≡ false → lt b c ≡ false → lt a c ≡ false)

-- The documented behaviour of the sort: it permutes, and nothing is less than what stands before it.
pub record IsSort (sort : (Slot → Slot → Bool) → List Slot → List Slot) : Type 0 where
  pub permutes : (lt : Slot → Slot → Bool) (l : List Slot) → Perm l (sort lt l)
  pub orders :
      (lt : Slot → Slot → Bool)
      → IsStrictOrder lt
      → (l : List Slot) → Pairwise (λ a b. lt b a ≡ false) (sort lt l)

text_lt_asym : (a b : Text) → text_lt a b ≡ true → text_lt b a ≡ false
unfolding text_lt
text_lt_asym [] [] h = cc
text_lt_asym (c ∷ a) [] h = cc
text_lt_asym [] (d ∷ b) h = refl
text_lt_asym (c ∷ a) (d ∷ b) h = ground (arith, text_lt_asym a b)

text_lt_trans : (a b c : Text) → text_lt a b ≡ false → text_lt b c ≡ false → text_lt a c ≡ false
unfolding text_lt
text_lt_trans a b [] h g = refl
text_lt_trans [] [] (e ∷ c) h g = cc
text_lt_trans [] (d ∷ b) (e ∷ c) h g = cc
text_lt_trans (x ∷ a) [] (e ∷ c) h g = cc
text_lt_trans (x ∷ a) (d ∷ b) (e ∷ c) h g = ground (arith, text_lt_trans a b c)

module _ {V : Type 0} (ms : List (Cell V)) where
  abbrev at : Slot → Text
  at s = key_at ms s.pos

  less_asym : (a b : Slot) → less ms a b ≡ true → less ms b a ≡ false
  unfolding less
  less_asym a b h =
      ground (arith, text_lt_asym (at a) (at b), same_iff (at a) (at b), same_iff (at b) (at a))

  less_trans : (a b c : Slot) → less ms a b ≡ false → less ms b c ≡ false → less ms a c ≡ false
  unfolding less
  less_trans a b c h g = ground (
    arith,
    text_lt_trans (at a) (at b) (at c),
    same_iff (at a) (at b),
    same_iff (at b) (at c),
    same_iff (at a) (at c),
    text_lt_antisym (at a) (at b),
    text_lt_antisym (at b) (at c),
  )

  pub less-IsStrictOrder : IsStrictOrder (less ms)
  less-IsStrictOrder = (less_asym, less_trans)
