-- ===== src/Policy/Table/Changed.antt =====
-- One slot of the table is filled or emptied: what every handle resolves to after it, and which
-- handles are past ones.
use zopa.Base.{
  ℕ, suc, ◌-◌, ◌≤◌, ◌<◌, ◌≡◌, ◌≢◌, refl, sym, ap, ◌∙◌, inl, inr, Option, none, some, List, arith,
}
use zopa.Base.Tests.{
  ◌==◌, if◌then◌else◌, same_or_not, ==-self, ==-ne, Bool-cases, Option-cases, eq_of_==,
}
use zopa.Base.Lists.{get_elem?}
use zopa.Policy.Table.{encode, index_of, generation_of, Slot, resolve, lookup, vacated, vacate}
use zopa.Policy.Table.Handles.{
  index_of-encode, generation_of-encode, lookup-zero, lookup-resolve, get_elem?-vacate,
  get_elem?-vacate_other,
}

-- A handle is its two parts.
same_parts : (g h : ℕ) → index_of g ≡ index_of h → generation_of g ≡ generation_of h → g ≡ h
same_parts g h p q = omega arith

module _ {E : Type 0} where
  abbrev pub generation_at : Option (Slot E) → ℕ
  generation_at none = 0
  generation_at (some s) = s.generation

  -- The slot of the handle has been filled in the handle's generation, or in a later one.
  abbrev pub Past : ℕ → List (Slot E) → Type 0
  Past h ss = (i : ℕ) × (index_of h ≡ suc i) × (generation_of h ≤ generation_at (get_elem? ss i))

  pub record Changed (p : ℕ) (was is : Option (Slot E)) (ss ts : List (Slot E)) : Type 0 where
    pub before : get_elem? ss p ≡ was
    pub after : get_elem? ts p ≡ is
    pub others : (j : ℕ) → j ≢ p → get_elem? ts j ≡ get_elem? ss j

  module _ (p : ℕ) (was is : Option (Slot E)) (ss ts : List (Slot E))
      (c : Changed p was is ss ts) where
    lookup_elsewhere : (g : ℕ) → index_of g ≢ suc p → lookup g ts ≡ lookup g ss
    lookup_elsewhere g k = elim (same_or_not (index_of g) 0) [
      | inl z ↦ lookup-zero g ts z ∙ sym (lookup-zero g ss z)
      | inr l ↦
          let i = index_of g - 1 in
          let e : index_of g ≡ suc i = omega arith in
          rw (lookup-resolve g i ts e, lookup-resolve g i ss e, c.others i (λ q. k (omega arith)))
            refl
    ]

    lookup_there : (g : ℕ) → index_of g ≡ suc p → lookup g ts ≡ resolve (generation_of g) is
    lookup_there g e = lookup-resolve g p ts e ∙ ap (resolve (generation_of g)) c.after

    lookup_was : (g : ℕ) → index_of g ≡ suc p → lookup g ss ≡ resolve (generation_of g) was
    lookup_was g e = lookup-resolve g p ss e ∙ ap (resolve (generation_of g)) c.before

    -- Generations never go back.
    pub Past-Changed : generation_at was ≤ generation_at is → (g : ℕ) → Past g ss → Past g ts
    Past-Changed m g (i, e, old) = elim (same_or_not i p) [
      | inl q ↦
          let was_at : get_elem? ss i ≡ was = ap (get_elem? ss) q ∙ c.before in
          let is_at : get_elem? ts i ≡ is = ap (get_elem? ts) q ∙ c.after in
          let old' : generation_of g ≤ generation_at was = rw was_at at old in
          (i, e, rw is_at (omega arith))
      | inr l ↦ (i, e, rw (c.others i l) old)
    ]

  -- `install` has put e at a place that held no policy, and given h for it.
  pub record IsFilled (e : E) (ss : List (Slot E)) (h : ℕ) (ts : List (Slot E)) : Type 0 where
    pub place : ℕ
    pub was : Option (Slot E)
    pub empty : (g : ℕ) → resolve g was ≡ none
    pub in_table : place < 65_535
    pub not_last : generation_at was < 32_767
    pub handle : h ≡ encode place (suc (generation_at was))
    pub changed :
        Changed place was
          (some (record { entry = some e; generation = suc (generation_at was) }))
          ss
          ts

  module _ (e : E) (ss : List (Slot E)) (h : ℕ) (ts : List (Slot E)) (f : IsFilled e ss h ts) where
    index_of_new : index_of h ≡ suc f.place
    index_of_new = rw f.handle (index_of-encode _ _ f.in_table)

    generation_of_new : generation_of h ≡ suc (generation_at f.was)
    generation_of_new = rw f.handle (generation_of-encode _ _ f.in_table f.not_last)

    filled_resolves :
        (g : ℕ)
        → suc (generation_at f.was) ≡ g
        → resolve g (some (record { entry = some e; generation = suc (generation_at f.was) }))
          ≡ some e
    filled_resolves g q = rw (q, ==-self g) refl

    filled_refuses :
        (g : ℕ)
        → suc (generation_at f.was) ≢ g
        → resolve g (some (record { entry = some e; generation = suc (generation_at f.was) }))
          ≡ none
    filled_refuses g k = rw (==-ne _ g k) refl

    pub lookup-IsFilled : (g : ℕ) → lookup g ts ≡ (if g == h then some e else lookup g ss)
    lookup-IsFilled g = elim (same_or_not g h) [
      | inl q ↦
          rw (q, ==-self h)
            (lookup_there f.place _ _ ss ts f.changed h index_of_new
              ∙ filled_resolves (generation_of h) (sym generation_of_new))
      | inr k ↦ rw (==-ne g h k) (elim (same_or_not (index_of g) (suc f.place)) [
        | inr l ↦ lookup_elsewhere f.place _ _ ss ts f.changed g l
        | inl q ↦
            lookup_there f.place _ _ ss ts f.changed g q
            ∙ filled_refuses (generation_of g)
                (λ r. k (same_parts g h (q ∙ sym index_of_new) (sym r ∙ sym generation_of_new)))
            ∙ sym (lookup_was f.place _ _ ss ts f.changed g q ∙ f.empty (generation_of g))
      ])
    ]

    pub lookup-fresh : lookup h ss ≡ none
    lookup-fresh = lookup_was f.place _ _ ss ts f.changed h index_of_new ∙ f.empty (generation_of h)

    pub Past-new : Past h ts
    Past-new = (f.place, index_of_new, rw (f.changed.after, generation_of_new) (omega arith))

    pub not_Past : ¬ Past h ss
    not_Past (i, q, old) =
        let place : i ≡ f.place = omega (arith, index_of_new) in
        let was_at : get_elem? ss i ≡ f.was = ap (get_elem? ss) place ∙ f.changed.before in
        let old' : generation_of h ≤ generation_at f.was = rw was_at at old in
        absurd (omega (arith, generation_of_new))

    pub Past-IsFilled : (g : ℕ) → Past g ss → Past g ts
    Past-IsFilled g p = Past-Changed f.place _ _ ss ts f.changed (omega arith) g p

  -- Emptying the slot of a handle that resolves ends that handle, and no other.
  module _ (h : ℕ) (ss : List (Slot E)) (e : E) (r : lookup h ss ≡ some e) where
    abbrev emptied : List (Slot E)
    emptied = vacate (index_of h - 1) ss

    pub record IsLive : Type 0 where
      pub slot : Slot E
      pub place : get_elem? ss (index_of h - 1) ≡ some slot
      pub index : index_of h ≡ suc (index_of h - 1)
      pub generation : slot.generation ≡ generation_of h
      pub entry : slot.entry ≡ some e

    resolved :
        (s : Slot E) (g : ℕ) → resolve g (some s) ≡ some e → (s.generation ≡ g) × (s.entry ≡ some e)
    resolved s g q = elim (Bool-cases (s.generation == g)) [
      | inl k ↦ (eq_of_== _ _ k, rw k at q)
      | inr k ↦ absurd (let w : none ≡ some e = rw k at q in cc)
    ]

    vacated_resolves : (s : Slot E) (g : ℕ) → resolve g (some (vacated s)) ≡ none
    vacated_resolves s g = elim (Bool-cases (s.generation == g)) [
      | inl k ↦ rw k refl
      | inr k ↦ rw k refl
    ]

    pub IsLive-lookup : IsLive
    IsLive-lookup = elim (same_or_not (index_of h) 0) [
      | inl z ↦ absurd (let q : none ≡ some e = sym (lookup-zero h ss z) ∙ r in cc)
      | inr k ↦
          let i = index_of h - 1 in
          let index : index_of h ≡ suc i = omega arith in
          let found = sym (lookup-resolve h i ss index) ∙ r in
          elim (Option-cases (get_elem? ss i)) [
            | inl q ↦ absurd (let w : none ≡ some e = rw q at found in cc)
            | inr (s, q) ↦
                let (same, entry) = resolved s (generation_of h) (rw q at found) in
                record { slot = s; place = q; index = index; generation = same; entry = entry }
          ]
    ]

    vacate-Changed :
        (l : IsLive) → Changed (index_of h - 1) (some l.slot) (some (vacated l.slot)) ss emptied
    vacate-Changed l = record {
      before = l.place;
      after = get_elem?-vacate _ ss l.slot l.place;
      others = λ j k. get_elem?-vacate_other _ j ss k;
    }

    other_generation :
        (l : IsLive) (g : ℕ)
        → generation_of g ≢ generation_of h
        → resolve (generation_of g) (some l.slot) ≡ none
    other_generation l g k =
        rw (==-ne l.slot.generation (generation_of g) (λ m. k (sym m ∙ l.generation))) refl

    pub lookup-vacate : (g : ℕ) → lookup g emptied ≡ (if g == h then none else lookup g ss)
    lookup-vacate g =
        let l = IsLive-lookup in
        let p = index_of h - 1 in
        let c = vacate-Changed l in
        elim (same_or_not g h) [
          | inl q ↦
              rw (q, ==-self h)
                (lookup_there p _ _ ss emptied c h l.index
                  ∙ vacated_resolves l.slot (generation_of h))
          | inr k ↦ rw (==-ne g h k) (elim (same_or_not (index_of g) (suc p)) [
            | inr m ↦ lookup_elsewhere p _ _ ss emptied c g m
            | inl q ↦
                lookup_there p _ _ ss emptied c g q
                ∙ vacated_resolves l.slot (generation_of g)
                ∙ sym (
                    lookup_was p _ _ ss emptied c g q
                    ∙ other_generation l g (λ m. k (same_parts g h (q ∙ sym l.index) m)))
          ])
        ]

    pub Past-vacate : (g : ℕ) → Past g ss → Past g emptied
    Past-vacate g p =
        let l = IsLive-lookup in Past-Changed _ _ _ ss emptied (vacate-Changed l) (omega arith) g p
