-- ===== src/Engines/Heap/Bump.antt =====
-- A memory that hands out the addresses 1, 2, … until it is full, for the tests of the engines that
-- use a wasm module's memory.
use zopa.Base.{
  ℕ, zero, suc, ◌≤◌, ◌<◌, ◌≡◌, refl, ◌∙◌, ◌≢◌, Bool, Option, none, some, inl, inr, List, [], ◌∷◌,
  arith,
}
use zopa.Base.Tests.{◌==◌, if◌then◌else◌, Bool-cases, ==-self, ==-ne, eq_of_==}
use zopa.Base.Lists.{length}
use zopa.Engines.Heap.{Memory, IsAllocated, IsHeap}

pub record Blocks : Type 0 where
  pub next : ℕ
  pub block : ℕ → Option (List ℕ)
  pub positive : 0 < next
  pub above : (q : ℕ) → next ≤ q → block q ≡ none

abbrev pub no_blocks : Blocks
no_blocks = record { next = 1; block = λ q. none; positive = omega arith; above = λ q h. refl }

abbrev pub zeros : ℕ → List ℕ
zeros zero = []
zeros (suc n) = 0 ∷ zeros n

abbrev pub update : ℕ → Option (List ℕ) → (ℕ → Option (List ℕ)) → ℕ → Option (List ℕ)
update p o f q = if q == p then o else f q

update_same : (p : ℕ) (o : Option (List ℕ)) (f : ℕ → Option (List ℕ)) → update p o f p ≡ o
update_same p o f = rw (==-self p) refl

pub update_other :
    (p : ℕ) (o : Option (List ℕ)) (f : ℕ → Option (List ℕ)) (q : ℕ) → q ≢ p → update p o f q ≡ f q
update_other p o f q h = rw (==-ne q p h) refl

abbrev pub replaced : Option (List ℕ) → List ℕ → Option (List ℕ)
replaced none bs = none
replaced (some _) bs = some bs

length-zeros : (n : ℕ) → length (zeros n) ≡ n
length-zeros zero = refl
length-zeros (suc n) = omega (arith, length-zeros n)

abbrev pub take_block : ℕ → Blocks → Blocks
take_block n w = record {
  next = suc w.next;
  block = update w.next (some (zeros n)) w.block;
  positive = omega arith;
  above = λ q h. update_other w.next _ w.block q (omega arith) ∙ w.above q (omega arith);
}

-- A freed block, and a block with other bytes.
abbrev pub release : ℕ → Blocks → Blocks
release p w = record {
  next = w.next;
  block = update p none w.block;
  positive = w.positive;
  above = λ q h. elim (Bool-cases (q == p)) [ inl e ↦ rw e refl | inr e ↦ rw e (w.above q h) ];
}

abbrev pub fill : ℕ → List ℕ → Blocks → Blocks
fill p bs w = record {
  next = w.next;
  block = update p (replaced (w.block p) bs) w.block;
  positive = w.positive;
  above = λ q h. elim (Bool-cases (q == p)) [
    | inl e ↦ rw (e, ← eq_of_== q p e, w.above q h) refl
    | inr e ↦ rw e (w.above q h)
  ];
}

-- `full` says at which address there is no room.
abbrev pub bump : (ℕ → Bool) → Memory
bump full = record {
  World = Blocks;
  malloc = λ n w. if full w.next then (0, w) else (w.next, take_block n w);
  free = release;
  set_bytes = fill;
  content = λ w q. w.block q;
}

module _ (full : ℕ → Bool) where
  bump-IsAllocated :
      (n : ℕ) (w : Blocks) → ((bump full).malloc n w).0 ≢ 0 → IsAllocated (bump full) n w
  bump-IsAllocated n w h = elim (Bool-cases (full w.next)) [
    | inl e ↦ absurd (h (rw e refl))
    | inr e ↦ record {
      fresh = rw e (w.above w.next (omega arith));
      bytes = zeros n;
      length_bytes = length-zeros n;
      there = rw e (update_same w.next (some (zeros n)) w.block);
      others = rw e (λ q k. update_other w.next (some (zeros n)) w.block q k);
    }
  ]

  bump-refused :
      (n : ℕ) (w : Blocks)
      → ((bump full).malloc n w).0 ≡ 0
      → (q : ℕ) → ((bump full).malloc n w).1.block q ≡ w.block q
  bump-refused n w h q = elim (Bool-cases (full w.next)) [
    | inl e ↦ rw e refl
    | inr e ↦ let z : w.next ≡ 0 = rw e at h in absurd (omega (arith, w.positive))
  ]

  pub bump-IsHeap : IsHeap (bump full)
  bump-IsHeap = record {
    allocated = bump-IsAllocated;
    refused = bump-refused;
    freed = λ p w bs h. (update_same p none w.block, update_other p none w.block);
    written = λ p w old bs h k. (
      update_same p (replaced (w.block p) bs) w.block ∙ rw h refl,
      update_other p (replaced (w.block p) bs) w.block,
    );
  }
