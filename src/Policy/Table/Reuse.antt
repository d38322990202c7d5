-- ===== src/Policy/Table/Reuse.antt =====
-- What the loop of `install` does to the table.
use zopa.Base.{
  ℕ, zero, suc, ◌+◌, ◌≡◌, ◌≢◌, refl, ap, ◌∙◌, true, inl, inr, Option, none, some, List, [], ◌∷◌,
  arith,
}
use zopa.Base.Tests.{Bool-cases, Option-cases}
use zopa.Base.Lists.{length, get_elem?}
use zopa.Policy.Table.{encode, Slot, is_reusable, filled, reuse, live_count, one_if_live}

module _ {E : Type 0} (e : E) where
  -- One slot that can be reused is filled, and its handle is given.
  pub record IsReused (i : ℕ) (ss : List (Slot E)) (h : ℕ) (ts : List (Slot E)) : Type 0 where
    pub place : ℕ
    pub slot : Slot E
    pub was : get_elem? ss place ≡ some slot
    pub reusable : is_reusable slot ≡ true
    pub handle : h ≡ encode (i + place) (suc slot.generation)
    pub is : get_elem? ts place ≡ some (filled e slot)
    pub others : (j : ℕ) → j ≢ place → get_elem? ts j ≡ get_elem? ss j
    pub same_length : length ts ≡ length ss
    pub live : live_count ts ≡ suc (live_count ss)

  filled_live : (s : Slot E) → is_reusable s ≡ true → one_if_live s.entry ≡ 0
  unfolding is_reusable
  filled_live s h = ground arith

  beyond :
      (s t : Slot E) (ss : List (Slot E)) (j : ℕ)
      → j ≢ 0
      → get_elem? (t ∷ ss) j ≡ get_elem? (s ∷ ss) j
  beyond s t ss zero k = absurd (k refl)
  beyond s t ss (suc j) k = refl

  behind_place :
      (s : Slot E) (ss ts : List (Slot E)) (p : ℕ)
      → ((j : ℕ) → j ≢ p → get_elem? ts j ≡ get_elem? ss j)
      → (j : ℕ) → j ≢ suc p
      → get_elem? (s ∷ ts) j ≡ get_elem? (s ∷ ss) j
  behind_place s ss ts p same zero k = refl
  behind_place s ss ts p same (suc j) k = same j (λ q. k (omega arith))

  IsReused-here :
      (i : ℕ) (s : Slot E) (ss : List (Slot E))
      → is_reusable s ≡ true
      → IsReused i (s ∷ ss) (encode i (suc s.generation)) (filled e s ∷ ss)
  unfolding live_count filled
  IsReused-here i s ss r = record {
    place = 0;
    slot = s;
    was = refl;
    reusable = r;
    handle = ap (λ j. encode j (suc s.generation)) (omega arith);
    is = refl;
    others = beyond s (filled e s) ss;
    same_length = refl;
    live = omega (arith, filled_live s r);
  }

  IsReused-later :
      (i : ℕ) (s : Slot E) (ss : List (Slot E)) (h : ℕ) (ts : List (Slot E))
      → IsReused (suc i) ss h ts
      → IsReused i (s ∷ ss) h (s ∷ ts)
  unfolding live_count
  IsReused-later i s ss h ts r = record {
    place = suc r.place;
    slot = r.slot;
    was = r.was;
    reusable = r.reusable;
    handle = r.handle ∙ ap (λ j. encode j (suc r.slot.generation)) (omega arith);
    is = r.is;
    others = λ j k. behind_place s ss ts r.place r.others j k;
    same_length = omega (arith, r.same_length);
    live = omega (arith, r.live);
  }

  some_pair :
      {m n : ℕ} {xs ys : List (Slot E)}
      → ◌≡◌ {A = Option (ℕ × List (Slot E))} (some (m, xs)) (some (n, ys))
      → (m ≡ n) × (xs ≡ ys)
  some_pair h = (cc, cc)

  pub reuse-IsReused :
      (i : ℕ) (ss : List (Slot E)) (h : ℕ) (ts : List (Slot E))
      → reuse e i ss ≡ some (h, ts)
      → IsReused i ss h ts
  unfolding reuse
  reuse-IsReused i [] h ts g = absurd (cc)
  reuse-IsReused i (s ∷ ss) h ts g = elim (Bool-cases (is_reusable s)) [
    | inl r ↦
        let q : some (encode i (suc s.generation), filled e s ∷ ss) ≡ some (h, ts) = rw r at g in
        let (a, b) = some_pair q in rw (← a, ← b) (IsReused-here i s ss r)
    | inr r ↦ elim (Option-cases (reuse e (suc i) ss)) [
      | inl k ↦ absurd (let q : none ≡ some (h, ts) = rw (r, k) at g in cc)
      | inr ((h', ts'), k) ↦
          let q : some (h', s ∷ ts') ≡ some (h, ts) = rw (r, k) at g in
          let (a, b) = some_pair q in
          rw (← a, ← b) (IsReused-later i s ss h' ts' (reuse-IsReused (suc i) ss h' ts' k))
    ]
  ]
