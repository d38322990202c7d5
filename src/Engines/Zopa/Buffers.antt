-- ===== src/Engines/Zopa/Buffers.antt =====
-- What bench/engines/zopa.mjs needs of its two buffers, and the steps that keep it.
use zopa.Base.{ℕ, ◌≡◌, ◌⊎◌, refl, ◌∙◌, sym, ◌≢◌, Option, none, some, List, inl, inr}
use zopa.Base.Tests.{same_or_not}
use zopa.Base.Lists.{length}
use zopa.Base.Exec.{Result, ok, threw, pure, ◌>>=◌}
use zopa.Bench.Engine.{Decision}
use zopa.Engines.Heap.{IsHeap}
use zopa.Engines.Heap.Written.{Holds, write-IsWritten, write_refused, Holds-other, ne_of_some}
use zopa.Engines.Decisions.{latest, IsAnswer}
use zopa.Engines.Zopa.{
  Exports, State, outside, set_input, free_input, next_input, evaluate, decide, close,
}

module _ (X : Exports) where
  -- The result of `evaluate` on two blocks is `decision` of their bytes, the input's first, or -1,
  -- and it leaves the blocks alone.
  pub record Evaluates (decision : List ℕ → List ℕ → Decision) : Type 0 where
    pub at :
        (ip ap : ℕ) (i a : List ℕ) (w : X.memory.World)
        → X.memory.content w ip ≡ some i
        → X.memory.content w ap ≡ some a
        → IsAnswer (decision i a) (X.evaluate ip (length i) ap (length a) w).0
          × ((q : ℕ)
              → X.memory.content (X.evaluate ip (length i) ap (length a) w).1 q
                ≡ X.memory.content w q)

  -- `malloc` gives 0 for the next input, where its predecessor is freed.
  abbrev pub IsRefused : Option X.Doc → State X → Type 0
  IsRefused none s = ⊥
  IsRefused (some d) s =
      (X.memory.malloc (length (X.encode d)) (X.memory.free s.inst.input.ptr s.world)).0 ≡ 0

  abbrev pub HasRoomFor : Option X.Doc → State X → Type 0
  HasRoomFor none s = Unit
  HasRoomFor (some d) s =
      (X.memory.malloc (length (X.encode d)) (X.memory.free s.inst.input.ptr s.world)).0 ≢ 0

  pub room_cases : (d : Option X.Doc) (s : State X) → (IsRefused d s) ⊎ (HasRoomFor d s)
  room_cases none s = inr tt
  room_cases (some d) s = same_or_not _ 0

  pub decide-threw : (d : Option X.Doc) (s : State X) → IsRefused d s → (decide X d s).0 ≡ threw
  unfolding decide next_input free_input outside ◌>>=◌
  decide-threw none s h = absurd h
  decide-threw (some d) s h =
      rw (write_refused X.memory (X.encode d) (X.memory.free s.inst.input.ptr s.world) h) refl

  -- The instance's buffers hold a policy and an input, and the rest of the heap is that of w.
  pub record Ready (w : X.memory.World) (ast_doc input_doc : X.Doc) (s : State X) : Type 0 where
    pub ast : Holds X.memory s.world s.inst.ast (X.encode ast_doc)
    pub input : Holds X.memory s.world s.inst.input (X.encode input_doc)
    pub apart : s.inst.ast.ptr ≢ s.inst.input.ptr
    pub new_ast : X.memory.content w s.inst.ast.ptr ≡ none
    pub new_input : X.memory.content w s.inst.input.ptr ≡ none
    pub others :
        (q : ℕ)
        → q ≢ s.inst.ast.ptr
        → q ≢ s.inst.input.ptr
        → X.memory.content s.world q ≡ X.memory.content w q

  module _ (heap : IsHeap X.memory) where
    -- The step of an instance with the result r.
    pub record Goes {A : Type 0} (w : X.memory.World) (a i : X.Doc) (r : A) (m : Result A × State X)
        : Type 0 where
      pub after : State X
      pub gives : m ≡ (ok r, after)
      pub ready : Ready w a i after

    -- The step of an instance with the result e or -1.
    pub record GoesAnswered (w : X.memory.World) (a i : X.Doc) (e : Decision)
        (m : Result Decision × State X) : Type 0 where
      pub answer : Decision
      pub right : IsAnswer e answer
      pub goes : Goes w a i answer m

    Goes-replaced :
        (w : X.memory.World) (a i d : X.Doc) (s : State X)
        → HasRoomFor (some d) s
        → Ready w a i s
        → Goes w a d tt (next_input X (some d) s)
    Goes-replaced w a i d s room r =
        let p = s.inst.input.ptr in
        let (gone, kept) = heap.freed p s.world _ r.input.there in
        let v = X.memory.free p s.world in
        let b = write-IsWritten X.memory heap (X.encode d) v room in
        let there = Holds-other X.memory s.world v p s.inst.ast _ kept r.apart r.ast in
        let apart = ne_of_some X.memory v s.inst.ast.ptr b.buffer.ptr _ there.there b.fresh in
        let rest : (q : ℕ) → q ≢ s.inst.ast.ptr → X.memory.content v q ≡ X.memory.content w q =
          λ q k. elim (same_or_not q p) [
            | inl e ↦ rw e (gone ∙ sym r.new_input)
            | inr l ↦ kept q l ∙ r.others q k l
          ] in
        record {
          after = record { world = b.after; inst = record { ast = s.inst.ast; input = b.buffer } };
          gives = unfold next_input free_input outside set_input ◌>>=◌ pure in rw b.gives refl;
          ready = record {
            ast = Holds-other X.memory v b.after b.buffer.ptr s.inst.ast _ b.others apart there;
            input = b.holds;
            apart = apart;
            new_ast = r.new_ast;
            new_input = sym (rest b.buffer.ptr (λ e. apart (sym e))) ∙ b.fresh;
            others = λ q k l. b.others q l ∙ rest q k;
          };
        }

    Goes-evaluate :
        (decision : List ℕ → List ℕ → Decision)
        → Evaluates decision
        → (w : X.memory.World) (a i : X.Doc) (s : State X) → Ready w a i s
        → GoesAnswered w a i (decision (X.encode i) (X.encode a)) (evaluate X s)
    Goes-evaluate decision ev w a i s r =
        let inst = s.inst in
        let (answer, kept) =
          ev.at inst.input.ptr inst.ast.ptr _ _ s.world r.input.there r.ast.there in
        let v =
          (X.evaluate inst.input.ptr (length (X.encode i)) inst.ast.ptr (length (X.encode a))
            s.world).1 in
        record {
          answer = _;
          right = answer;
          goes = record {
            after = record { world = v; inst = inst };
            gives = unfold evaluate in rw (r.input.length_there, r.ast.length_there) refl;
            ready = record {
              ast = record { there = kept _ ∙ r.ast.there; length_there = r.ast.length_there };
              input = record {
                there = kept _ ∙ r.input.there;
                length_there = r.input.length_there;
              };
              apart = r.apart;
              new_ast = r.new_ast;
              new_input = r.new_input;
              others = λ q k l. kept q ∙ r.others q k l;
            };
          };
        }

    Goes-next_input :
        (w : X.memory.World) (a i : X.Doc) (d : Option X.Doc) (s : State X)
        → HasRoomFor d s
        → Ready w a i s
        → Goes w a (latest d i) tt (next_input X d s)
    Goes-next_input w a i (some d) s room r = Goes-replaced w a i d s room r
    Goes-next_input w a i none s room r = record {
      after = s;
      gives = unfold next_input pure in refl;
      ready = r;
    }

    pub Goes-decide :
        (decision : List ℕ → List ℕ → Decision)
        → Evaluates decision
        → (w : X.memory.World) (a i : X.Doc) (d : Option X.Doc) (s : State X) → HasRoomFor d s
        → Ready w a i s
        → GoesAnswered w a
            (latest d i)
            (decision (X.encode (latest d i)) (X.encode a))
            (decide X d s)
    Goes-decide decision ev w a i d s room r =
        let first = Goes-next_input w a i d s room r in
        let second = Goes-evaluate decision ev w a (latest d i) first.after first.ready in
        record {
          answer = second.answer;
          right = second.right;
          goes = record {
            after = second.goes.after;
            gives = unfold decide ◌>>=◌ in rw first.gives second.goes.gives;
            ready = second.goes.ready;
          };
        }

    -- After `close` the heap is as it was.
    pub close-Ready :
        (w : X.memory.World) (a i : X.Doc) (s : State X)
        → Ready w a i s
        → (q : ℕ) → X.memory.content (close X s) q ≡ X.memory.content w q
    unfolding close
    close-Ready w a i s r q =
        let p = s.inst.input.ptr in
        let (gone_input, kept) = heap.freed p s.world _ r.input.there in
        let there =
          Holds-other X.memory s.world (X.memory.free p s.world) p s.inst.ast _ kept r.apart
            r.ast in
        let (gone_ast, kept') = heap.freed s.inst.ast.ptr (X.memory.free p s.world) _ there.there in
        elim (same_or_not q s.inst.ast.ptr) [
          | inl e ↦ rw e (gone_ast ∙ sym r.new_ast)
          | inr k ↦ elim (same_or_not q p) [
            | inl e ↦ kept' q k ∙ rw e (gone_input ∙ sym r.new_input)
            | inr l ↦ kept' q k ∙ kept q l ∙ r.others q k l
          ]
        ]
