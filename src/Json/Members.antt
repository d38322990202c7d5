-- ===== src/Json/Members.antt =====
-- src/json.zig: the members of an object. A small object is deduped as it is read, and a wide one at
-- the end, by sorting. `std.sort.heap` and the hash are parameters.
pub mod Inserts
pub mod Reading
pub mod Expected
pub mod Order
pub mod Places
pub mod Runs
pub mod Sorted
pub mod Wide
pub mod Dedupe
pub mod InsertionSort
mod Tests
use zopa.Base.{ℕ, zero, suc, Bool, true, false, ◌&&◌, Option, none, some, List, [], ◌∷◌, ◌++◌}
use zopa.Base.Tests.{ltb, ◌==◌, if◌then◌else◌}
use zopa.Base.Lists.{length, get_elem?}
use zopa.Base.Text.{Text, codes, same}
use zopa.Base.Dict.{Dict, insert}

-- const object_scan_max
abbrev pub object_scan_max : ℕ
object_scan_max = 16

-- `std.mem.order(u8, a, b) == .lt`
unfoldable pub text_lt : Text → Text → Bool
text_lt a [] = false
text_lt [] (d ∷ b) = true
text_lt (c ∷ a) (d ∷ b) = let rest = text_lt a b in if c == d then rest else ltb c d

-- A key, or the address of `shadowed_key`, which no document's key has.
pub data Key : Type 0 where
  kept : Text → Key
  shadowed : Key

abbrev pub text_of : Key → Text
text_of (kept k) = k
text_of shadowed = 0 ∷ codes "shadowed"

pub record Slot : Type 0 where
  pub hash : ℕ
  pub pos : ℕ

pub record Cell (V : Type 0) : Type 0 where
  pub key : Key
  pub value : V

unfoldable pub last_slot : Slot → List Slot → Slot
last_slot o [] = o
last_slot o (p ∷ os) = last_slot p os

module _ {V : Type 0} where
  unfoldable pub cells : Dict V → List (Cell V)
  cells [] = []
  cells ((k, v) ∷ m) = record { key = kept k; value = v } ∷ cells m

  abbrev pub key_of : Option (Cell V) → Text
  key_of none = []
  key_of (some c) = text_of c.key

  -- `members[i].key`
  unfoldable pub key_at : List (Cell V) → ℕ → Text
  key_at ms i = key_of (get_elem? ms i)

  -- `lessThan`
  unfoldable pub less : List (Cell V) → Slot → Slot → Bool
  unfolding key_at text_lt
  less ms a b =
      if a.hash == b.hash
      then (if same (key_at ms a.pos) (key_at ms b.pos)
          then ltb a.pos b.pos
          else text_lt (key_at ms a.pos) (key_at ms b.pos))
      else ltb a.hash b.hash

  -- The slots of the members from the position i on.
  unfoldable pub slots : (Text → ℕ) → ℕ → Dict V → List Slot
  slots hash i [] = []
  slots hash i ((k, v) ∷ m) = record { hash = hash k; pos = i } ∷ slots hash (suc i) m

  unfoldable pub set_value : V → ℕ → List (Cell V) → List (Cell V)
  set_value v i [] = []
  set_value v zero (c ∷ ms) = record c { value = v } ∷ ms
  set_value v (suc i) (c ∷ ms) = c ∷ set_value v i ms

  abbrev pub put_from : Option (Cell V) → ℕ → List (Cell V) → List (Cell V)
  put_from none i ms = ms
  put_from (some c) i ms = set_value c.value i ms

  -- `members[i].value = members[j].value`
  unfoldable pub copy_value : ℕ → ℕ → List (Cell V) → List (Cell V)
  unfolding set_value
  copy_value j i ms = put_from (get_elem? ms j) i ms

  -- `members[i].key = shadowed_key`
  unfoldable pub shadow : ℕ → List (Cell V) → List (Cell V)
  shadow i [] = []
  shadow zero (c ∷ ms) = record c { key = shadowed } ∷ ms
  shadow (suc i) (c ∷ ms) = c ∷ shadow i ms

  unfoldable pub shadow_all : List Slot → List (Cell V) → List (Cell V)
  unfolding shadow
  shadow_all [] ms = ms
  shadow_all (o ∷ os) ms = shadow_all os (shadow o.pos ms)

  -- What is done with `order[run..end]`, a head and what follows it.
  unfoldable pub close_run : Slot → List Slot → List (Cell V) → List (Cell V)
  unfolding copy_value shadow_all last_slot
  close_run o os ms = shadow_all os (copy_value (last_slot o os).pos o.pos ms)

  unfoldable pub same_run : List (Cell V) → Slot → Slot → Bool
  unfolding key_at
  same_run ms x o = (x.hash == o.hash) && same (key_at ms x.pos) (key_at ms o.pos)

  -- The loop over the runs, with a run's head and what follows it so far: the inner loop is the
  -- first branch.
  unfoldable pub close_runs : Slot → List Slot → List Slot → List (Cell V) → List (Cell V)
  unfolding close_run same_run
  close_runs o os [] ms = close_run o os ms
  close_runs o os (x ∷ xs) ms =
      let longer = close_runs o (os ++ x ∷ []) xs ms in
      let next = close_runs x [] xs (close_run o os ms) in if same_run ms x o then longer else next

  abbrev pub all_runs : List Slot → List (Cell V) → List (Cell V)
  all_runs [] ms = ms
  all_runs (o ∷ os) ms = close_runs o [] os ms

  abbrev pub keep : Key → V → Dict V → Dict V
  keep (kept k) v m = (k, v) ∷ m
  keep shadowed v m = m

  -- The loop that closes the gaps.
  unfoldable pub survivors : List (Cell V) → Dict V
  survivors [] = []
  survivors (c ∷ ms) = keep c.key c.value (survivors ms)

  -- What `parseObject` does with a member that it has read.
  unfoldable pub add_member : Text → V → Dict V → Dict V
  add_member k v m = if ltb (length m) object_scan_max then insert k v m else m ++ (k, v) ∷ []

  unfoldable pub add_members : List (Text × V) → Dict V → Dict V
  unfolding add_member
  add_members [] m = m
  add_members ((k, v) ∷ l) m = add_members l (add_member k v m)

  module _ (hash : Text → ℕ) (sort : (Slot → Slot → Bool) → List Slot → List Slot) where
    -- fn dedupeWide
    unfoldable pub dedupe_wide : Dict V → Dict V
    unfolding cells less slots close_runs survivors
    dedupe_wide m = survivors (all_runs (sort (less (cells m)) (slots hash 0 m)) (cells m))

    -- `members`, from the entries that were read
    unfoldable pub finish_members : Dict V → Dict V
    unfolding dedupe_wide
    finish_members m = if ltb object_scan_max (length m) then dedupe_wide m else m
