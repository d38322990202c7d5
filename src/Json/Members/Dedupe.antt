-- ===== src/Json/Members/Dedupe.antt =====
-- The members of an object, small or wide, against a dict that they are written to.
use mathlib.Core.Path.{subst}
use mathlib.Core.List.{Mem, Pairwise, eq-or-mem_of_mem-cons, not-mem-nil, Pairwise-and_iff}
use mathlib.Core.List.Perm
use mathlib.Core.Logic.Or
use native.Mathlib.Bridge.{le_prop}
use zopa.Base.{
  ℕ, zero, suc, ◌+◌, ◌≤◌, ◌<◌, ◌-◌, ◌≡◌, ◌≢◌, ◌↔◌, refl, sym, ap, ◌∙◌, Bool, true, inl, inr, none,
  List, [], ◌∷◌, arith,
}
use zopa.Base.Tests.{ltb, if◌then◌else◌, Bool-cases}
use zopa.Base.Lists.{length, get_elem?}
use zopa.Base.Text.{Text}
use zopa.Base.Dict.{Dict, insert, NodupKeys}
use zopa.Json.Members.{
  Slot, cells, key_at, less, slots, all_runs, survivors, dedupe_wide, add_members, finish_members,
  object_scan_max,
}
use zopa.Json.Members.Inserts.{inserts, expected, inserts-survivors, inserts-fresh}
use zopa.Json.Members.Reading.{inserts-add_members, add_members-IsScanned}
use zopa.Json.Members.Expected.{nth_key}
use zopa.Json.Members.Order.{Genuine}
use zopa.Json.Members.Places.{has_pos, has_pos-Mem, slot_at}
use zopa.Json.Members.Sorted.{IsSort, less-IsStrictOrder}
use zopa.Json.Members.Wide.{AreOpen, HasKey-one, get-close_runs}

module _ {V : Type 0} where
  length-cells : (m : Dict V) → length (cells m) ≡ length m
  unfolding cells
  length-cells [] = refl
  length-cells ((k, v) ∷ m) = ap suc (length-cells m)

  length-expected : (s m : Dict V) → length (expected s m) ≡ length m
  unfolding expected
  length-expected s [] = refl
  length-expected s ((k, v) ∷ m) = ap suc (length-expected (insert k v s) m)

-- Slots of different members.
abbrev Differ : Slot → Slot → Type 0
Differ a b = a.pos ≢ b.pos

module _ {A : Type 0} where
  get_elem?-past : (xs : List A) (j : ℕ) → length xs ≤ j → get_elem? xs j ≡ none
  get_elem?-past [] j h = refl
  get_elem?-past (x ∷ xs) zero h = absurd (omega arith)
  get_elem?-past (x ∷ xs) (suc j) h = get_elem?-past xs j (omega arith)

  eq_of_get_elem? : (xs ys : List A) → ((j : ℕ) → get_elem? xs j ≡ get_elem? ys j) → xs ≡ ys
  eq_of_get_elem? [] [] h = refl
  eq_of_get_elem? [] (y ∷ ys) h = absurd (let e = h 0 in cc)
  eq_of_get_elem? (x ∷ xs) [] h = absurd (let e = h 0 in cc)
  eq_of_get_elem? (x ∷ xs) (y ∷ ys) h =
      let e = h 0 in let r = eq_of_get_elem? xs ys (λ j. h (suc j)) in cc

module _ {V : Type 0} (hash : Text → ℕ) where
  has_pos-slots :
      (i : ℕ) (m : Dict V) (p : ℕ) → p < length m → has_pos (i + p) (slots hash i m) ≡ true
  unfolding has_pos slots
  has_pos-slots i [] p h = elim h [ ]
  has_pos-slots i ((k, v) ∷ m) zero h = ground arith
  has_pos-slots i ((k, v) ∷ m) (suc p) h = ground (arith, has_pos-slots (suc i) m p)

  -- A slot that was made from the position i on.
  abbrev IsMade : ℕ → Dict V → Slot → Type 0
  IsMade i m s = (i ≤ s.pos) × (s.hash ≡ hash (nth_key m (s.pos - i))) × (s.pos - i < length m)

  IsMade-later :
      (i : ℕ) (k : Text) (v : V) (m : Dict V) (s : Slot)
      → IsMade (suc i) m s
      → IsMade i ((k, v) ∷ m) s
  unfolding cells key_at
  IsMade-later i k v m s (l, h, b) =
      let q : s.pos - i ≡ suc (s.pos - suc i) = omega arith in rw q (omega arith, h, omega arith)

  IsMade-first :
      (i : ℕ) (k : Text) (v : V) (m : Dict V)
      → IsMade i ((k, v) ∷ m) (record { hash = hash k; pos = i })
  unfolding cells key_at
  IsMade-first i k v m = let q : i - i ≡ 0 = omega arith in rw q (omega arith, refl, omega arith)

  IsMade-prop : (i : ℕ) (m : Dict V) (s : Slot) → IsProp (IsMade i m s)
  IsMade-prop i m s = hlevel (le_prop)

  slots-IsMade : (i : ℕ) (m : Dict V) (s : Slot) → Mem s (slots hash i m) → IsMade i m s
  unfolding slots
  slots-IsMade i [] s t = absurd (not-mem-nil t)
  slots-IsMade i ((k, v) ∷ m) s t =
      Or.elim (IsMade-prop i ((k, v) ∷ m) s) (eq-or-mem_of_mem-cons t)
        (λ e. subst (IsMade i ((k, v) ∷ m)) (sym e) (IsMade-first i k v m))
        (λ u. IsMade-later i k v m s (slots-IsMade (suc i) m s u))

  slots-Genuine : (m : Dict V) (s : Slot) → Mem s (slots hash 0 m) → Genuine hash m s
  slots-Genuine m s t =
      let (_, h, b) = slots-IsMade 0 m s t in
      let q : s.pos - 0 ≡ s.pos = omega arith in
      (subst (λ p. s.hash ≡ hash (nth_key m p)) q h, omega arith)

  slots-Differ : (i : ℕ) (m : Dict V) → Pairwise Differ (slots hash i m)
  unfolding slots
  slots-Differ i [] = Pairwise.nil
  slots-Differ i ((k, v) ∷ m) =
      Pairwise.cons (λ s t e. absurd (omega (arith, (slots-IsMade (suc i) m s t).0, e)))
        (slots-Differ (suc i) m)

  module _ (sort : (Slot → Slot → Bool) → List Slot → List Slot) (sorts : IsSort sort)
      (m : Dict V) where
    abbrev order : List Slot
    order = sort (less (cells m)) (slots hash 0 m)

    in_order : (s : Slot) → Mem s (slots hash 0 m) ↔ Mem s order
    in_order s = Perm.mem_iff (sorts.permutes (less (cells m)) (slots hash 0 m))

    has_pos-order : (p : ℕ) → p < length m → has_pos p order ≡ true
    has_pos-order p l =
        let (s, t, e) =
          slot_at p (slots hash 0 m) (
            subst (λ i. has_pos i (slots hash 0 m) ≡ true) (omega arith) (has_pos-slots 0 m p l)) in
        subst (λ i. has_pos i order ≡ true) e (has_pos-Mem s order ((in_order s).0 t))

    order-AreOpen : AreOpen hash m order (cells m)
    order-AreOpen = record {
      genuine = λ s t. slots-Genuine m s ((in_order s).1 t);
      sorted = Pairwise-and_iff.1 (
        sorts.orders (less (cells m)) (less-IsStrictOrder (cells m)) (slots hash 0 m),
        Perm.pairwise (λ a b. hlevel) (λ a b n e. n (sym e))
            (sorts.permutes (less (cells m)) (slots hash 0 m)) (slots-Differ 0 m),
      );
      closed = λ i p h l q. has_pos-order p l;
      untouched = λ p h. refl;
    }

    get-all_runs :
        (l : List Slot) (j : ℕ)
        → AreOpen hash m l (cells m)
        → get_elem? (all_runs l (cells m)) j
          ≡ (if has_pos j l then get_elem? (expected [] m) j else get_elem? (cells m) j)
    unfolding has_pos
    get-all_runs [] j a = refl
    get-all_runs (o ∷ os) j a = get-close_runs hash m o [] os (cells m) a (HasKey-one hash m o) j

    at_position : (j : ℕ) → get_elem? (all_runs order (cells m)) j ≡ get_elem? (expected [] m) j
    at_position j = elim (Bool-cases (ltb j (length m))) [
      | inl e ↦ ground (arith, get-all_runs order j order-AreOpen, has_pos-order j)
      | inr e ↦ ground (
        arith,
        get-all_runs order j order-AreOpen,
        get_elem?-past (cells m) j,
        get_elem?-past (expected [] m) j,
        length-cells m,
        length-expected [] m,
      )
    ]

    all_runs-expected : all_runs order (cells m) ≡ expected [] m
    all_runs-expected = eq_of_get_elem? (all_runs order (cells m)) (expected [] m) at_position

    dedupe_wide-inserts : dedupe_wide hash sort m ≡ inserts m []
    unfolding dedupe_wide
    dedupe_wide-inserts = ap survivors all_runs-expected ∙ sym (inserts-survivors m)

  -- Whatever members are read for an object, few or many, it ends up with the members of a dict that
  -- each of them is written to in turn: the values of the last ones, in the places of the first ones.
  -- The condition is that the sort does what is asked of it.
  pub finish_members-inserts :
      (sort : (Slot → Slot → Bool) → List Slot → List Slot)
      → IsSort sort
      → (l : List (Text × V)) → finish_members hash sort (add_members l []) ≡ inserts l []
  unfolding finish_members inserts
  finish_members-inserts sort sorts l =
      elim (Bool-cases (ltb object_scan_max (length (add_members l [])))) [
        | inl e ↦ rw e (dedupe_wide-inserts sort sorts (add_members l []) ∙ read)
        | inr e ↦ rw e (sym (inserts-fresh (add_members l []) (scanned (ground arith))) ∙ read)
      ]
    where
      scanned : length (add_members l []) ≤ object_scan_max → NodupKeys (add_members l [])
      scanned = add_members-IsScanned l [] (λ _. tt)

      read : inserts (add_members l []) [] ≡ inserts l []
      read = inserts-add_members l [] (λ _. tt)
