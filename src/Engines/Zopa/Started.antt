-- ===== src/Engines/Zopa/Started.antt =====
-- How `setup` of bench/engines/zopa.mjs ends.
use zopa.Base.{◌≡◌, ◌⊎◌, ◌≢◌, refl, ◌∙◌, sym, inl, inr}
use zopa.Base.Tests.{same_or_not}
use zopa.Base.Lists.{length}
use zopa.Base.Exec.{ok, threw, pure, ◌>>=◌}
use zopa.Engines.Heap.{IsHeap, write}
use zopa.Engines.Heap.Written.{write-IsWritten, write_refused, Holds-other, ne_of_some}
use zopa.Engines.Zopa.{Exports, Instance, setup}
use zopa.Engines.Zopa.Buffers.{Ready}

module _ (X : Exports) where
  -- `malloc` gives 0 for the policy, or for the first input after the policy is written.
  abbrev pub IsSetUpRefused : X.Doc → X.Doc → X.memory.World → Type 0
  IsSetUpRefused a i w =
      ((X.memory.malloc (length (X.encode a)) w).0 ≡ 0)
      ⊎ ((X.memory.malloc (length (X.encode i)) (write X.memory (X.encode a) w).1).0 ≡ 0)

  module _ (heap : IsHeap X.memory) where
    -- `setup` gives an instance that is ready.
    pub record IsSetUp (a i : X.Doc) (w : X.memory.World) : Type 0 where
      pub inst : Instance
      pub after : X.memory.World
      pub gives : setup X a i w ≡ (ok inst, after)
      pub ready : Ready X w a i (record { world = after; inst = inst })

    setup-IsSetUp :
        (a i : X.Doc) (w : X.memory.World)
        → (X.memory.malloc (length (X.encode a)) w).0 ≢ 0
        → (X.memory.malloc (length (X.encode i)) (write X.memory (X.encode a) w).1).0 ≢ 0
        → IsSetUp a i w
    setup-IsSetUp a i w k l =
        let b = write-IsWritten X.memory heap (X.encode a) w k in
        let c = write-IsWritten X.memory heap (X.encode i) b.after (rw b.gives at l) in
        let apart = ne_of_some X.memory b.after b.buffer.ptr c.buffer.ptr _ b.holds.there c.fresh in
        record {
          inst = record { ast = b.buffer; input = c.buffer };
          after = c.after;
          gives = unfold setup ◌>>=◌ pure in rw (b.gives, c.gives) refl;
          ready = record {
            ast =
                Holds-other X.memory b.after c.after c.buffer.ptr b.buffer _ c.others apart b.holds;
            input = c.holds;
            apart = apart;
            new_ast = b.fresh;
            new_input = sym (b.others c.buffer.ptr (λ e. apart (sym e))) ∙ c.fresh;
            others = λ q k l. c.others q l ∙ b.others q k;
          };
        }

    setup-threw :
        (a i : X.Doc) (w : X.memory.World)
        → (X.memory.malloc (length (X.encode a)) w).0 ≢ 0
        → (X.memory.malloc (length (X.encode i)) (write X.memory (X.encode a) w).1).0 ≡ 0
        → (setup X a i w).0 ≡ threw
    unfolding setup ◌>>=◌
    setup-threw a i w k l =
        let b = write-IsWritten X.memory heap (X.encode a) w k in
        rw (b.gives, write_refused X.memory (X.encode i) b.after (rw b.gives at l)) refl

    -- Either `malloc` gives 0 and `setup` throws, or it gives an instance that is ready.
    pub setup_cases :
        (a i : X.Doc) (w : X.memory.World)
        → (IsSetUpRefused a i w × ((setup X a i w).0 ≡ threw)) ⊎ (IsSetUp a i w)
    setup_cases a i w = elim (same_or_not (X.memory.malloc (length (X.encode a)) w).0 0) [
      | inl e ↦ inl (inl e, unfold setup ◌>>=◌ in rw (write_refused X.memory (X.encode a) w e) refl)
      | inr k ↦
          elim (same_or_not
            (X.memory.malloc (length (X.encode i)) (write X.memory (X.encode a) w).1).0 0) [
              | inl e ↦ inl (inr e, setup-threw a i w k e)
              | inr l ↦ inr (setup-IsSetUp a i w k l)
            ]
    ]
