-- ===== src/Json/Members/Runs.antt =====
-- One run of slots with the same key: the positions of its head, which takes the last value, and of
-- the others, which are dropped.
use mathlib.Core.Path.{subst}
use mathlib.Core.List.{Pairwise, mem-cons_self}
use zopa.Base.{
  ℕ, ◌≤◌, ◌<◌, ◌≡◌, ◌≢◌, sym, ap, ◌∙◌, true, false, inl, inr, some, List, [], ◌∷◌, arith,
}
use zopa.Base.Tests.{◌==◌, if◌then◌else◌, Bool-cases}
use zopa.Base.Lists.{length, get_elem?}
use zopa.Base.Text.{Text}
use zopa.Base.Dict.{Dict, map_option}
use zopa.Json.Members.{Slot, Cell, kept, cells, last_slot, close_run, copy_value}
use zopa.Json.Members.Inserts.{expected}
use zopa.Json.Members.Expected.{nth_key, expected-dropped, expected-first}
use zopa.Json.Members.Places.{
  has_pos, slot_at, get-shadow_all, get-set_value, copy_value-set_value, get-cells, nth_member,
  hidden, revalued,
}

abbrev pub Rises : Slot → Slot → Type 0
Rises a b = a.pos < b.pos

last_slot-max :
    (o : Slot) (os : List Slot) (p : ℕ)
    → Pairwise Rises (o ∷ os)
    → has_pos p (o ∷ os) ≡ true
    → p ≤ (last_slot o os).pos
unfolding last_slot has_pos
last_slot-max o [] p r h = ground arith
last_slot-max o (q ∷ os) p (Pairwise.cons l r) h = elim (Bool-cases (o.pos == p)) [
  | inl e ↦ ground (arith, l q mem-cons_self, last_slot-max q os q.pos r)
  | inr e ↦ last_slot-max q os p r (ground arith)
]

has_pos-last_slot : (o : Slot) (os : List Slot) → has_pos (last_slot o os).pos (o ∷ os) ≡ true
unfolding has_pos last_slot
has_pos-last_slot o [] = ground arith
has_pos-last_slot o (q ∷ os) = ground (arith, has_pos-last_slot q os)

head_slot-min :
    (o : Slot) (os : List Slot) (p : ℕ) → Pairwise Rises (o ∷ os) → has_pos p os ≡ true → o.pos < p
head_slot-min o os p (Pairwise.cons l r) h =
    let (s, t, q) = slot_at p os h in omega (arith, l s t, q)

module _ {V : Type 0} (m : Dict V) where
  -- What a run is when it is closed: the slots of all the members with one key, in order, not changed.
  pub record IsRun (o : Slot) (os : List Slot) (ms : List (Cell V)) : Type 0 where
    pub rises : Pairwise Rises (o ∷ os)
    pub one_key : (p : ℕ) → has_pos p (o ∷ os) ≡ true → nth_key m p ≡ nth_key m o.pos
    pub whole : (p : ℕ) → p < length m → nth_key m p ≡ nth_key m o.pos → has_pos p (o ∷ os) ≡ true
    pub inside : (p : ℕ) → has_pos p (o ∷ os) ≡ true → p < length m
    pub untouched : (p : ℕ) → has_pos p (o ∷ os) ≡ true → get_elem? ms p ≡ get_elem? (cells m) p

  module _ (o : Slot) (os : List Slot) (ms : List (Cell V)) (run : IsRun o os ms) where
    head_in : has_pos o.pos (o ∷ os) ≡ true
    unfolding has_pos
    head_in = ground arith

    tail_in : (j : ℕ) → has_pos j os ≡ true → has_pos j (o ∷ os) ≡ true
    unfolding has_pos
    tail_in j h = ground arith

    head_slot-min_all : (p : ℕ) → has_pos p (o ∷ os) ≡ true → o.pos ≤ p
    unfolding has_pos
    head_slot-min_all p h = ground (arith, head_slot-min o os p run.rises)

    abbrev last_pos : ℕ
    last_pos = (last_slot o os).pos

    close_run-value :
        (w : V)
        → get_elem? m last_pos ≡ some (nth_key m last_pos, w)
        → (j : ℕ)
        → get_elem? (close_run o os ms) j ≡ (
            if has_pos j os
            then map_option hidden (get_elem? ms j)
            else (if o.pos == j then map_option (revalued w) (get_elem? ms j) else get_elem? ms j))
    unfolding close_run
    close_run-value w h j =
        let c =
          run.untouched last_pos (has_pos-last_slot o os)
          ∙ get-cells m last_pos (nth_key m last_pos) w h in
        ground (
          arith,
          get-shadow_all os (copy_value last_pos o.pos ms) j,
          copy_value-set_value last_pos o.pos ms
              (record { key = kept (nth_key m last_pos); value = w }) c,
          get-set_value w o.pos ms j,
          head_slot-min o os j run.rises,
        )

    close_run-tail :
        (j : ℕ)
        → has_pos j os ≡ true
        → get_elem? (close_run o os ms) j ≡ get_elem? (expected [] m) j
    close_run-tail j h =
        let i = tail_in j h in
        let (w, e) = nth_member m last_pos (run.inside last_pos (has_pos-last_slot o os)) in
        let (v, f) = nth_member m j (run.inside j i) in
        let x =
          expected-dropped m j (nth_key m j) v f
            (o.pos, head_slot-min o os j run.rises h, sym (run.one_key j i)) in
        ground (arith, close_run-value w e j, run.untouched j i, get-cells m j (nth_key m j) v f, x)

    close_run-head :
        has_pos o.pos os ≡ false
        → get_elem? (close_run o os ms) o.pos ≡ get_elem? (expected [] m) o.pos
    close_run-head h =
        let i = has_pos-last_slot o os in
        let k = run.one_key last_pos i in
        let (w, e) = nth_member m last_pos (run.inside last_pos i) in
        let (v, f) = nth_member m o.pos (run.inside o.pos head_in) in
        let x =
          expected-first m o.pos last_pos (nth_key m o.pos) v w f none_before
            (last_slot-max o os o.pos run.rises head_in) (e ∙ ap (λ (t : Text). some (t, w)) k)
            none_after in
        ground (
          arith,
          close_run-value w e o.pos,
          run.untouched o.pos head_in,
          get-cells m o.pos (nth_key m o.pos) v f,
          x,
        )
      where
        none_before : (p : ℕ) → p < o.pos → nth_key m p ≢ nth_key m o.pos
        none_before p l q =
            omega
              (arith, head_slot-min_all p (run.whole p (omega (arith, run.inside o.pos head_in)) q))

        none_after : (p : ℕ) → last_pos < p → p < length m → nth_key m p ≢ nth_key m o.pos
        none_after p l b q = omega (arith, last_slot-max o os p run.rises (run.whole p b q))

    pub get-close_run :
        (j : ℕ)
        → get_elem? (close_run o os ms) j
          ≡ (if has_pos j (o ∷ os) then get_elem? (expected [] m) j else get_elem? ms j)
    unfolding has_pos
    get-close_run j = elim (Bool-cases (has_pos j os)) [
      | inl e ↦ ground (arith, close_run-tail j e)
      | inr e ↦ elim (Bool-cases (o.pos == j)) [
        | inl q ↦
            let r : o.pos ≡ j = ground arith in
            rw q (
              subst
                (λ i.
                  has_pos i os ≡ false
                  → get_elem? (close_run o os ms) i ≡ get_elem? (expected [] m) i)
                r close_run-head e)
        | inr q ↦
            let (w, d) = nth_member m last_pos (run.inside last_pos (has_pos-last_slot o os)) in
            ground (arith, close_run-value w d j)
      ]
    ]
