-- ===== src/Policy/Table/Handles.antt =====
-- What a handle resolves to, by the slot of its index.
use zopa.Base.{
  ℕ, zero, suc, ◌+◌, ◌-◌, ◌≤◌, ◌<◌, ◌≡◌, ◌≢◌, refl, false, inl, inr, none, some, List, [], ◌∷◌,
  ◌++◌, arith,
}
use zopa.Base.Tests.{ltb, ◌==◌, if◌then◌else◌, Bool-cases}
use zopa.Base.Lists.{length, get_elem?}
use zopa.Policy.Table.{
  encode, index_of, generation_of, Slot, resolve, lookup, vacated, vacate, live_count,
}

-- A handle's two parts, within the bounds of the table.
pub index_of-encode : (i g : ℕ) → i < 65_535 → index_of (encode i g) ≡ suc i
unfolding encode
index_of-encode i g h = omega arith

pub generation_of-encode : (i g : ℕ) → i < 65_535 → g ≤ 32_767 → generation_of (encode i g) ≡ g
unfolding encode
generation_of-encode i g h k = omega arith

pub encode-bounds :
    (i g : ℕ) → i < 65_535 → g ≤ 32_767 → (0 < encode i g) × (encode i g < 2_147_483_648)
unfolding encode
encode-bounds i g h k = (omega arith, omega arith)

module _ {E : Type 0} where
  pub get_elem?-range :
      (ss : List (Slot E)) (i : ℕ) (s : Slot E) → get_elem? ss i ≡ some s → i < length ss
  get_elem?-range [] i s h = absurd (cc)
  get_elem?-range (x ∷ ss) zero s h = omega arith
  get_elem?-range (x ∷ ss) (suc i) s h = omega (arith, get_elem?-range ss i s h)

  pub get_elem?-past : (ss : List (Slot E)) (i : ℕ) → length ss ≤ i → get_elem? ss i ≡ none
  get_elem?-past [] i h = refl
  get_elem?-past (x ∷ ss) zero h = absurd (omega arith)
  get_elem?-past (x ∷ ss) (suc i) h = get_elem?-past ss i (omega arith)

  pub lookup-zero : (h : ℕ) (ss : List (Slot E)) → index_of h ≡ 0 → lookup h ss ≡ none
  unfolding lookup
  lookup-zero h ss e = rw e refl

  -- Past the guards of `lookup`
  guarded :
      (g i : ℕ) (ss : List (Slot E))
      → (if ltb (length ss) (suc i) then none else resolve g (get_elem? ss i))
        ≡ resolve g (get_elem? ss i)
  guarded g i ss = elim (Bool-cases (ltb (length ss) (suc i))) [
    | inl k ↦ rw (k, get_elem?-past ss i (ground arith)) refl
    | inr k ↦ rw k refl
  ]

  pub lookup-resolve :
      (h i : ℕ) (ss : List (Slot E))
      → index_of h ≡ suc i
      → lookup h ss ≡ resolve (generation_of h) (get_elem? ss i)
  unfolding lookup
  lookup-resolve h i ss e =
      let positive : (suc i == 0) ≡ false = ground arith in
      let pred : suc i - 1 ≡ i = omega arith in
      rw (e, positive, pred) (guarded (generation_of h) i ss)

  pub length-vacate : (i : ℕ) (ss : List (Slot E)) → length (vacate i ss) ≡ length ss
  unfolding vacate
  length-vacate i [] = refl
  length-vacate zero (s ∷ ss) = refl
  length-vacate (suc i) (s ∷ ss) = omega (arith, length-vacate i ss)

  pub get_elem?-vacate :
      (i : ℕ) (ss : List (Slot E)) (s : Slot E)
      → get_elem? ss i ≡ some s
      → get_elem? (vacate i ss) i ≡ some (vacated s)
  unfolding vacate
  get_elem?-vacate i [] s h = absurd (cc)
  get_elem?-vacate zero (x ∷ ss) s h = cc
  get_elem?-vacate (suc i) (x ∷ ss) s h = get_elem?-vacate i ss s h

  pub get_elem?-vacate_other :
      (i j : ℕ) (ss : List (Slot E)) → j ≢ i → get_elem? (vacate i ss) j ≡ get_elem? ss j
  unfolding vacate
  get_elem?-vacate_other i j [] k = refl
  get_elem?-vacate_other zero zero (x ∷ ss) k = absurd (k refl)
  get_elem?-vacate_other zero (suc j) (x ∷ ss) k = refl
  get_elem?-vacate_other (suc i) zero (x ∷ ss) k = refl
  get_elem?-vacate_other (suc i) (suc j) (x ∷ ss) k =
      get_elem?-vacate_other i j ss (λ e. k (omega arith))

  pub live_count-vacate :
      (i : ℕ) (ss : List (Slot E)) (s : Slot E) (e : E)
      → get_elem? ss i ≡ some s
      → s.entry ≡ some e
      → live_count ss ≡ suc (live_count (vacate i ss))
  unfolding vacate live_count
  live_count-vacate i [] s e h k = absurd (cc)
  live_count-vacate zero (x ∷ ss) s e h k =
      let x_entry : x.entry ≡ some e = cc in rw x_entry (omega arith)
  live_count-vacate (suc i) (x ∷ ss) s e h k = omega (arith, live_count-vacate i ss s e h k)

  pub get_elem?-append_other :
      (ss : List (Slot E)) (s : Slot E) (i : ℕ)
      → i ≢ length ss
      → get_elem? (ss ++ s ∷ []) i ≡ get_elem? ss i
  get_elem?-append_other [] s zero k = absurd (k refl)
  get_elem?-append_other [] s (suc i) k = refl
  get_elem?-append_other (x ∷ ss) s zero k = refl
  get_elem?-append_other (x ∷ ss) s (suc i) k = get_elem?-append_other ss s i (λ e. k (omega arith))

  pub get_elem?-append_last :
      (ss : List (Slot E)) (s : Slot E) → get_elem? (ss ++ s ∷ []) (length ss) ≡ some s
  get_elem?-append_last [] s = refl
  get_elem?-append_last (x ∷ ss) s = get_elem?-append_last ss s

  pub live_count-append :
      (ss ts : List (Slot E)) → live_count (ss ++ ts) ≡ live_count ss + live_count ts
  unfolding live_count
  live_count-append [] ts = omega arith
  live_count-append (x ∷ ss) ts = omega (arith, live_count-append ss ts)
