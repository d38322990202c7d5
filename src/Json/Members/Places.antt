-- ===== src/Json/Members/Places.antt =====
-- The members of a wide object one position at a time, while its runs are closed.
use mathlib.Core.Logic.Or
use mathlib.Core.List.{Mem, mem-cons_self, mem-cons_of_mem, eq-or-mem_of_mem-cons, not-mem-nil}
use zopa.Base.{
  ℕ, zero, suc, ◌<◌, ◌≡◌, refl, ap, Bool, true, false, ◌||◌, inl, inr, Option, none, some, List, [],
  ◌∷◌, ◌++◌, arith,
}
use zopa.Base.Tests.{◌==◌, if◌then◌else◌, Bool-cases}
use zopa.Base.Lists.{length, get_elem?}
use zopa.Base.Text.{Text}
use zopa.Base.Dict.{Dict, map_option}
use zopa.Json.Members.{
  Slot, Cell, kept, shadowed, cells, key_at, set_value, copy_value, shadow, shadow_all,
}
use zopa.Json.Members.Expected.{nth_key}

unfoldable pub has_pos : ℕ → List Slot → Bool
has_pos j [] = false
has_pos j (s ∷ os) = (s.pos == j) || has_pos j os

pub has_pos-later :
    (j : ℕ) (o : Slot) (os : List Slot) → has_pos j os ≡ true → has_pos j (o ∷ os) ≡ true
unfolding has_pos
has_pos-later j o os h = ground arith

pub has_pos-append :
    (j : ℕ) (l₁ l₂ : List Slot) → has_pos j (l₁ ++ l₂) ≡ (has_pos j l₁ || has_pos j l₂)
unfolding has_pos
has_pos-append j [] l₂ = refl
has_pos-append j (s ∷ l₁) l₂ = ground (arith, has_pos-append j l₁ l₂)

pub has_pos-Mem : (s : Slot) (l : List Slot) → Mem s l → has_pos s.pos l ≡ true
unfolding has_pos
has_pos-Mem s [] h = absurd (not-mem-nil h)
has_pos-Mem s (x ∷ l) h =
    Or.elim (hlevel) (eq-or-mem_of_mem-cons h) (λ e. ground (arith, ap (λ (t : Slot). t.pos) e))
      (λ t. ground (arith, has_pos-Mem s l t))

pub slot_at : (j : ℕ) (l : List Slot) → has_pos j l ≡ true → (s : Slot) × Mem s l × (s.pos ≡ j)
unfolding has_pos
slot_at j [] h = absurd (cc)
slot_at j (x ∷ l) h = elim (Bool-cases (x.pos == j)) [
  | inl e ↦ (x, mem-cons_self, ground arith)
  | inr e ↦ let (s, t, q) = slot_at j l (ground arith) in (s, mem-cons_of_mem x t, q)
]

module _ {V : Type 0} where
  abbrev pub revalued : V → Cell V → Cell V
  revalued v c = record c { value = v }

  abbrev pub hidden : Cell V → Cell V
  hidden c = record c { key = shadowed }

  pub get-set_value :
      (v : V) (i : ℕ) (ms : List (Cell V)) (j : ℕ)
      → get_elem? (set_value v i ms) j
        ≡ (if i == j then map_option (revalued v) (get_elem? ms j) else get_elem? ms j)
  unfolding set_value
  get-set_value v i [] j = ground arith
  get-set_value v zero (c ∷ ms) zero = refl
  get-set_value v zero (c ∷ ms) (suc j) = ground arith
  get-set_value v (suc i) (c ∷ ms) zero = ground arith
  get-set_value v (suc i) (c ∷ ms) (suc j) = ground (arith, get-set_value v i ms j)

  get-shadow :
      (i : ℕ) (ms : List (Cell V)) (j : ℕ)
      → get_elem? (shadow i ms) j
        ≡ (if i == j then map_option hidden (get_elem? ms j) else get_elem? ms j)
  unfolding shadow
  get-shadow i [] j = ground arith
  get-shadow zero (c ∷ ms) zero = refl
  get-shadow zero (c ∷ ms) (suc j) = ground arith
  get-shadow (suc i) (c ∷ ms) zero = ground arith
  get-shadow (suc i) (c ∷ ms) (suc j) = ground (arith, get-shadow i ms j)

  hidden-twice :
      (o : Option (Cell V)) → map_option hidden (map_option hidden o) ≡ map_option hidden o
  hidden-twice none = refl
  hidden-twice (some c) = refl

  pub get-shadow_all :
      (os : List Slot) (ms : List (Cell V)) (j : ℕ)
      → get_elem? (shadow_all os ms) j
        ≡ (if has_pos j os then map_option hidden (get_elem? ms j) else get_elem? ms j)
  unfolding shadow_all has_pos
  get-shadow_all [] ms j = refl
  get-shadow_all (o ∷ os) ms j = ground (
    arith,
    get-shadow_all os (shadow o.pos ms) j,
    get-shadow o.pos ms j,
    hidden-twice (get_elem? ms j),
  )

  pub copy_value-set_value :
      (src i : ℕ) (ms : List (Cell V)) (c : Cell V)
      → get_elem? ms src ≡ some c
      → copy_value src i ms ≡ set_value c.value i ms
  unfolding copy_value
  copy_value-set_value src i ms c h = rw h

  pub get-cells :
      (m : Dict V) (j : ℕ) (k : Text) (v : V)
      → get_elem? m j ≡ some (k, v)
      → get_elem? (cells m) j ≡ some (record { key = kept k; value = v })
  unfolding cells
  get-cells [] j k v h = absurd (cc)
  get-cells ((a, b) ∷ m) zero k v h = cc
  get-cells ((a, b) ∷ m) (suc j) k v h = get-cells m j k v h

  -- The member at a position that there is.
  pub nth_member :
      (m : Dict V) (j : ℕ) → j < length m → (v : V) × (get_elem? m j ≡ some (nth_key m j, v))
  unfolding cells key_at
  nth_member [] j h = elim h [ ]
  nth_member ((a, b) ∷ m) zero h = (b, refl)
  nth_member ((a, b) ∷ m) (suc j) h = nth_member m j (omega arith)
