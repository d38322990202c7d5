-- ===== src/Engines/ZopaCompiled/Started.antt =====
-- How `setup` of bench/engines/zopa-compiled.mjs ends.
use zopa.Base.{ℕ, ◌≡◌, refl, ◌∙◌, sym, true, false, List, inl, inr}
use zopa.Base.Tests.{same_or_not}
use zopa.Base.Integers.{ℤ, is_positive}
use zopa.Base.Lists.{length}
use zopa.Base.Exec.{Result, ok, threw, Exec, pure, ◌>>=◌, ◌>>◌}
use zopa.Bench.Engine.{Decision}
use zopa.Engines.Heap.{write, IsHeap}
use zopa.Engines.Heap.Written.{IsWritten, write-IsWritten, write_refused}
use zopa.Engines.ZopaCompiled.{Exports, Instance, free_buffer, compile_buffer, check_handle, setup}
use zopa.Engines.ZopaCompiled.Policies.{SameContent, SamePolicies, IsCompiled, HasPolicies}
use zopa.Engines.ZopaCompiled.Held.{Ready, after-SamePolicies}

module _ (X : Exports) where
  -- `setup` up to the release of the policy's buffer.
  unfoldable pub compiling : X.Doc → Exec X.memory.World ℤ
  compiling a = do
    ast ← write X.memory (X.encode a)
    handle ← compile_buffer X ast
    free_buffer X ast
    pure handle

  module _ (heap : IsHeap X.memory) (decision : List ℕ → List ℕ → Decision)
      (policies : HasPolicies X decision) where
    -- The policy's buffer is gone after it is compiled.
    free-IsWritten :
        (bytes : List ℕ) (w v : X.memory.World) (b : IsWritten X.memory bytes w)
        → SameContent X b.after v
        → SameContent X w (X.memory.free b.buffer.ptr v)
    free-IsWritten bytes w v b same q =
        let (gone, kept) = heap.freed b.buffer.ptr v _ (same _ ∙ b.holds.there) in
        elim (same_or_not q b.buffer.ptr) [
          | inl e ↦ rw e (gone ∙ sym b.fresh)
          | inr k ↦ kept q k ∙ same q ∙ b.others q k
        ]

    -- How `setup` ends. It throws: `malloc` gives 0 for the policy; or the handle is not positive,
    -- and then nothing is left behind; or `malloc` gives 0 for the input. Or it gives an instance
    -- that is ready.
    pub data Started (a i : X.Doc) (w : X.memory.World)
        : Result Instance × X.memory.World → Type 0 where
      no_buffer :
          (v : X.memory.World)
          → (X.memory.malloc (length (X.encode a)) w).0 ≡ 0
          → Started a i w (threw, v)
      not_compiled :
          (h : ℤ) (v : X.memory.World)
          → compiling a w ≡ (ok h, v)
          → is_positive h ≡ false
          → SameContent X w v
          → SamePolicies X w v
          → Started a i w (threw, v)
      no_first :
          (h : ℤ) (u v : X.memory.World)
          → compiling a w ≡ (ok h, u)
          → is_positive h ≡ true
          → (X.memory.malloc (length (X.encode i)) u).0 ≡ 0
          → Started a i w (threw, v)
      set_up :
          (inst : Instance) (v : X.memory.World)
          → Ready X w a i (record { world = v; inst = inst })
          → Started a i w (ok inst, v)

    compiling_gives :
        (a : X.Doc) (w : X.memory.World) (b : IsWritten X.memory (X.encode a) w)
        → let (h, v) = X.policy_compile b.buffer.ptr (length (X.encode a)) b.after in
          compiling a w ≡ (ok h, X.memory.free b.buffer.ptr v)
    unfolding compiling compile_buffer free_buffer ◌>>=◌ pure
    compiling_gives a w b = rw (b.gives, b.holds.length_there) refl

    Ready-compiled :
        (a i : X.Doc) (w : X.memory.World) (b : IsWritten X.memory (X.encode a) w)
        → let (h, v) = X.policy_compile b.buffer.ptr (length (X.encode a)) b.after in
          let u = X.memory.free b.buffer.ptr v in
          IsCompiled X (X.encode a) b.after v h
          → (c : IsWritten X.memory (X.encode i) u)
          → Ready X w a i
              (record { world = c.after; inst = record { handle = h; input = c.buffer } })
    Ready-compiled a i w b comp c =
        let (h, v) = X.policy_compile b.buffer.ptr (length (X.encode a)) b.after in
        let u = X.memory.free b.buffer.ptr v in
        let written = after-SamePolicies X heap decision policies (X.encode i) u c in
        let freed = free-IsWritten (X.encode a) w v b comp.content in
        record {
          policy = written h ∙ policies.free_keeps _ v h ∙ comp.there;
          input = c.holds;
          new_policy =
              sym (after-SamePolicies X heap decision policies (X.encode a) w b h) ∙ comp.fresh;
          new_input = sym (freed c.buffer.ptr) ∙ c.fresh;
          other_policies = λ g k.
              written g
              ∙ policies.free_keeps _ v g
              ∙ comp.others g k
              ∙ after-SamePolicies X heap decision policies (X.encode a) w b g;
          others = λ q k. c.others q k ∙ freed q;
        }

    Started-compiled :
        (a i : X.Doc) (w : X.memory.World) (b : IsWritten X.memory (X.encode a) w)
        → (let (h, v) = X.policy_compile b.buffer.ptr (length (X.encode a)) b.after in
            IsCompiled X (X.encode a) b.after v h)
        → Started a i w (setup X a i w)
    unfolding setup compile_buffer free_buffer check_handle ◌>>=◌ pure
    Started-compiled a i w b comp =
        let (h, v) = X.policy_compile b.buffer.ptr (length (X.encode a)) b.after in
        let u = X.memory.free b.buffer.ptr v in
        elim (same_or_not (X.memory.malloc (length (X.encode i)) u).0 0) [
          | inl e ↦
              rw
                (
                  b.gives,
                  b.holds.length_there,
                  comp.positive,
                  write_refused X.memory (X.encode i) u e,
                )
                (no_first h u _ (compiling_gives a w b) comp.positive e)
          | inr l ↦
              let c = write-IsWritten X.memory heap (X.encode i) u l in
              rw (b.gives, b.holds.length_there, comp.positive, c.gives)
                (set_up _ _ (Ready-compiled a i w b comp c))
        ]

    pub Started-setup : (a i : X.Doc) (w : X.memory.World) → Started a i w (setup X a i w)
    unfolding setup compile_buffer free_buffer check_handle ◌>>=◌ pure
    Started-setup a i w = elim (same_or_not (X.memory.malloc (length (X.encode a)) w).0 0) [
      | inl e ↦ rw (write_refused X.memory (X.encode a) w e) (no_buffer _ e)
      | inr k ↦
          let b = write-IsWritten X.memory heap (X.encode a) w k in
          let (h, v) = X.policy_compile b.buffer.ptr (length (X.encode a)) b.after in
          elim (policies.compiled b.buffer.ptr (X.encode a) b.after b.holds.there) [
            | inl comp ↦ Started-compiled a i w b comp
            | inr rej ↦
                rw (b.gives, b.holds.length_there, rej.not_positive)
                  (not_compiled h _ (compiling_gives a w b) rej.not_positive
                    (free-IsWritten (X.encode a) w v b rej.content)
                    (λ g.
                      policies.free_keeps b.buffer.ptr v g
                      ∙ rej.policies g
                      ∙ after-SamePolicies X heap decision policies (X.encode a) w b g))
          ]
    ]
