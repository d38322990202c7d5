-- ===== src/Json/Members/Tests.antt =====
-- Runs of the members of an object, with an insertion sort for `std.sort.heap` and the sum of the code
-- units for the hash.
use zopa.Base.{ℕ, ◌+◌, ◌≡◌, refl, List, [], ◌∷◌, ◌++◌}
use zopa.Base.Text.{Text, codes, same}
use zopa.Base.Dict.{insert}
use zopa.Json.Members.{
  add_member, add_members, finish_members, dedupe_wide, cells, less, slots, close_runs, close_run,
  same_run, copy_value, set_value, shadow_all, shadow, last_slot, key_at, text_lt, survivors,
}
use zopa.Json.Members.Inserts.{inserts}
use zopa.Json.Members.InsertionSort.{insertion_sort, place, insertion_sort-IsSort}
use zopa.Json.Members.Dedupe.{finish_members-inserts}

abbrev sum : Text → ℕ
sum [] = 0
sum (c ∷ s) = c + sum s

abbrev twelve : List (Text × ℕ)
twelve =
    (codes "a", 1)
    ∷ (codes "b", 2)
    ∷ (codes "c", 3)
    ∷ (codes "d", 4)
    ∷ (codes "e", 5)
    ∷ (codes "f", 6)
    ∷ (codes "g", 7)
    ∷ (codes "h", 8)
    ∷ (codes "i", 9)
    ∷ (codes "j", 10)
    ∷ (codes "k", 11)
    ∷ (codes "l", 12)
    ∷ []

-- Two keys of one hash, one of them again, and a key of the first sixteen again, twice.
abbrev wide_members : List (Text × ℕ)
wide_members =
    twelve
    ++ (codes "ad", 13)
      ∷ (codes "bc", 14)
      ∷ (codes "m", 15)
      ∷ (codes "n", 16)
      ∷ (codes "a", 17)
      ∷ (codes "ad", 18)
      ∷ (codes "o", 19)
      ∷ (codes "a", 20)
      ∷ []

wide_run :
    finish_members sum insertion_sort (add_members wide_members [])
    ≡ (codes "a", 20)
      ∷ (codes "b", 2)
      ∷ (codes "c", 3)
      ∷ (codes "d", 4)
      ∷ (codes "e", 5)
      ∷ (codes "f", 6)
      ∷ (codes "g", 7)
      ∷ (codes "h", 8)
      ∷ (codes "i", 9)
      ∷ (codes "j", 10)
      ∷ (codes "k", 11)
      ∷ (codes "l", 12)
      ∷ (codes "ad", 18)
      ∷ (codes "bc", 14)
      ∷ (codes "m", 15)
      ∷ (codes "n", 16)
      ∷ (codes "o", 19)
      ∷ []
unfolding finish_members dedupe_wide add_members add_member cells less slots close_runs close_run
    same_run copy_value set_value shadow_all shadow last_slot key_at text_lt survivors
    insertion_sort place insert same
wide_run = refl

finish_members-inserts_example :
    finish_members sum insertion_sort (add_members wide_members []) ≡ inserts wide_members []
finish_members-inserts_example =
    finish_members-inserts sum insertion_sort insertion_sort-IsSort wide_members
