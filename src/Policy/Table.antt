-- ===== src/Policy/Table.antt =====
-- src/policy.zig: a handle, a slot, and the table of slots.
pub mod Handles
pub mod Reuse
pub mod Changed
use zopa.Base.{
  ℕ, zero, suc, ◌+◌, ◌-◌, ◌*◌, ◌/◌, ◌%◌, Bool, true, false, ◌||◌, ◌&&◌, Option, none, some, List,
  [], ◌∷◌,
}
use zopa.Base.Tests.{ltb, ◌==◌, if◌then◌else◌}
use zopa.Base.Lists.{length, get_elem?}

abbrev pub max_slots : ℕ
max_slots = 65_535

abbrev pub max_generation : ℕ
max_generation = 32_767

-- `(generation << 16) | (index + 1)` on 32 bits. The bits are disjoint, since an index is below
-- `max_slots`, so the sum is written.
unfoldable pub encode : ℕ → ℕ → ℕ
encode index generation = generation * 65_536 % 4_294_967_296 + suc index

-- `handle & index_mask`
abbrev pub index_of : ℕ → ℕ
index_of handle = handle % 65_536

-- `handle >> index_bits`
abbrev pub generation_of : ℕ → ℕ
generation_of handle = handle / 65_536

pub record Slot (E : Type 0) : Type 0 where
  pub entry : Option E
  pub generation : ℕ

module _ {E : Type 0} where
  abbrev pub is_empty : Option E → Bool
  is_empty none = true
  is_empty (some _) = false

  -- `slot.entry == null and slot.generation < max_generation`
  unfoldable pub is_reusable : Slot E → Bool
  is_reusable s = is_empty s.entry && ltb s.generation max_generation

  unfoldable pub filled : E → Slot E → Slot E
  filled e s = record { entry = some e; generation = suc s.generation }

  abbrev pub behind : Slot E → Option (ℕ × List (Slot E)) → Option (ℕ × List (Slot E))
  behind s none = none
  behind s (some (h, ss)) = some (h, s ∷ ss)

  -- The loop of `install`, from the slot of that index on: the handle and the changed table.
  unfoldable pub reuse : E → ℕ → List (Slot E) → Option (ℕ × List (Slot E))
  unfolding is_reusable filled encode
  reuse e i [] = none
  reuse e i (s ∷ ss) =
      let rest = reuse e (suc i) ss in
      if is_reusable s then some (encode i (suc s.generation), filled e s ∷ ss) else behind s rest

  abbrev pub resolve : ℕ → Option (Slot E) → Option E
  resolve generation none = none
  resolve generation (some s) = if s.generation == generation then s.entry else none

  -- `lookup`, where `none` is `error.InvalidHandle`
  unfoldable pub lookup : ℕ → List (Slot E) → Option E
  lookup handle ss =
      let index = index_of handle in
      if (index == 0) || ltb (length ss) index
      then none
      else resolve (generation_of handle) (get_elem? ss (index - 1))

  abbrev pub vacated : Slot E → Slot E
  vacated s = record s { entry = none }

  -- The table after `release`: the slot of that index is emptied.
  unfoldable pub vacate : ℕ → List (Slot E) → List (Slot E)
  vacate i [] = []
  vacate zero (s ∷ ss) = vacated s ∷ ss
  vacate (suc i) (s ∷ ss) = s ∷ vacate i ss

  abbrev pub one_if_live : Option E → ℕ
  one_if_live none = 0
  one_if_live (some _) = 1

  unfoldable pub live_count : List (Slot E) → ℕ
  live_count [] = 0
  live_count (s ∷ ss) = one_if_live s.entry + live_count ss
