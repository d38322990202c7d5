-- ===== src/Engines/OpaWasm/Rewind.antt =====
-- The heap of a compiled policy over the calls of bench/engines/opa-wasm.mjs.
use zopa.Base.{ℕ, ◌+◌, ◌≤◌, ◌≡◌, refl, ◌∙◌, Option, none, some, inl, inr, List, [], ◌∷◌, arith}
use zopa.Base.Tests.{◌==◌, Bool-cases}
use zopa.Base.Lists.{length}
use zopa.Base.Exec.{Result, ok, threw, stuck, Exec, pure, continue, ◌>>=◌}
use zopa.Engines.OpaWasm.{
  Tools, Instance, write_str, on_wasm, set_input, rewind, write_input, prepare, eval_at,
  read_decision, decide, decide_each,
}

module _ (T : Tools) where
  -- The allocator of a compiled policy: setting the heap's pointer sets it, an allocation moves it by
  -- the size and at most `pad` more, and writing bytes leaves it.
  pub record BumpsBy (pad : ℕ) : Type 0 where
    pub set_heap : (h : ℕ) (w : T.Wasm) → T.opa_heap_ptr_get (T.opa_heap_ptr_set h w) ≡ h
    pub malloc_heap :
        (n : ℕ) (w : T.Wasm)
        → T.opa_heap_ptr_get (T.opa_malloc n w).1 ≤ T.opa_heap_ptr_get w + n + pad
    pub write_heap :
        (p : ℕ) (bs : List ℕ) (w : T.Wasm)
        → T.opa_heap_ptr_get (T.set_bytes p bs w) ≡ T.opa_heap_ptr_get w

  -- The action leaves the mark of the heap.
  pub record KeepsBase {A : Type 0} (m : Exec (Instance T) A) : Type 0 where
    pub at : (s : Instance T) → (m s).1.base_heap ≡ s.base_heap

  base-continue :
      {A B : Type 0} (r : Result A) (f : A → Exec (Instance T) B) (s : Instance T)
      → ((a : A) → KeepsBase (f a))
      → (continue r f s).1.base_heap ≡ s.base_heap
  base-continue (ok a) f s h = (h a).at s
  base-continue threw f s h = refl
  base-continue stuck f s h = refl

  keeps_step :
      {A B : Type 0} {m : Exec (Instance T) A} {f : A → Exec (Instance T) B}
      → KeepsBase m
      → ((a : A) → KeepsBase (f a))
      → KeepsBase (m >>= f)
  unfolding ◌>>=◌
  keeps_step {m} {f} h k = record { at = λ s. base-continue (m s).0 f (m s).1 k ∙ h.at s }

  set_input-KeepsBase : (d : Option T.Doc) → KeepsBase (set_input T d)
  unfolding set_input
  set_input-KeepsBase none = record { at = λ s. refl }
  set_input-KeepsBase (some d) = record { at = λ s. refl }

  decide-KeepsBase : (fuel : ℕ) (d : Option T.Doc) → KeepsBase (decide T fuel d)
  unfolding decide prepare rewind write_input eval_at on_wasm read_decision
  decide-KeepsBase fuel d =
      keeps_step
        (keeps_step (set_input-KeepsBase d)
          λ _. keeps_step (record { at = λ s. refl }) λ _. record { at = λ s. refl })
        λ text. keeps_step (record { at = λ s. refl }) λ addr. record { at = λ s. refl }

  decide_each-KeepsBase : (fuel : ℕ) (ds : List (Option T.Doc)) → KeepsBase (decide_each T fuel ds)
  unfolding decide_each pure
  decide_each-KeepsBase fuel [] = record { at = λ s. refl }
  decide_each-KeepsBase fuel (d ∷ ds) =
      keeps_step (decide-KeepsBase fuel d)
        λ _. keeps_step (decide_each-KeepsBase fuel ds) λ _. record { at = λ s. refl }

  module _ (pad : ℕ) (bumps : BumpsBy pad) where
    heap-write_str :
        (bs : List ℕ) (w : T.Wasm)
        → T.opa_heap_ptr_get (write_str T bs w).1 ≤ T.opa_heap_ptr_get w + length bs + pad
    unfolding write_str
    heap-write_str bs w =
        let (p, v) = T.opa_malloc (length bs) w in
        let h = bumps.malloc_heap (length bs) w in
        elim (Bool-cases (p == 0)) [ inl e ↦ rw e h | inr e ↦ rw (e, bumps.write_heap p bs v) h ]

    heap-prepare :
        (d : Option T.Doc) (s : Instance T)
        → T.opa_heap_ptr_get (prepare T d s).1.wasm
          ≤ s.base_heap + length (prepare T d s).1.input_json + pad
    unfolding prepare set_input rewind write_input on_wasm ◌>>=◌
    heap-prepare none s =
        let w = T.opa_heap_ptr_set s.base_heap s.wasm in
        omega (arith, heap-write_str s.input_json w, bumps.set_heap s.base_heap s.wasm)
    heap-prepare (some d) s =
        let w = T.opa_heap_ptr_set s.base_heap s.wasm in
        omega (arith, heap-write_str (T.encode d) w, bumps.set_heap s.base_heap s.wasm)

    -- However many decisions were made before, and however they ended, the heap's pointer that
    -- `opa_eval` is called with is above the mark that `setup` took by at most the input's length
    -- and the padding of one allocation.
    pub heap-prepare-decide_each :
        (fuel : ℕ) (ds : List (Option T.Doc)) (d : Option T.Doc) (s : Instance T)
        → let ready = (prepare T d (decide_each T fuel ds s).1).1 in
          T.opa_heap_ptr_get ready.wasm ≤ s.base_heap + length ready.input_json + pad
    heap-prepare-decide_each fuel ds d s =
        omega
          (arith, (decide_each-KeepsBase fuel ds).at s, heap-prepare d (decide_each T fuel ds s).1)
