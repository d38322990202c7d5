-- ===== src/Engines/ZopaCompiled/Held.antt =====
-- What bench/engines/zopa-compiled.mjs needs of its handle and its buffer, and the steps that keep
-- it.
use zopa.Base.{ℕ, ◌≡◌, ◌≢◌, ◌⊎◌, refl, ◌∙◌, sym, Option, none, some, List, inl, inr}
use zopa.Base.Tests.{◌==◌, Bool-cases, same_or_not}
use zopa.Base.Integers.{same_or_not_integer}
use zopa.Base.Lists.{length}
use zopa.Base.Exec.{Result, ok, threw, pure, ◌>>=◌}
use zopa.Bench.Engine.{Decision}
use zopa.Engines.Heap.{write, SameBut, IsHeap}
use zopa.Engines.Heap.Written.{Holds, IsWritten, write-IsWritten, write_refused}
use zopa.Engines.Decisions.{latest, IsAnswer}
use zopa.Engines.ZopaCompiled.{
  Exports, State, outside, set_input, free_input, next_input, evaluate, decide, close,
}
use zopa.Engines.ZopaCompiled.Policies.{SameContent, SamePolicies, SamePoliciesBut, HasPolicies}

module _ (X : Exports) where
  -- `malloc` gives 0 for the next input, where its predecessor is freed.
  abbrev pub IsRefused : Option X.Doc → State X → Type 0
  IsRefused none s = ⊥
  IsRefused (some d) s =
      (X.memory.malloc (length (X.encode d)) (X.memory.free s.inst.input.ptr s.world)).0 ≡ 0

  abbrev pub HasRoomFor : Option X.Doc → State X → Type 0
  HasRoomFor none s = Unit
  HasRoomFor (some d) s =
      (X.memory.malloc (length (X.encode d)) (X.memory.free s.inst.input.ptr s.world)).0 ≢ 0

  pub room_cases : (d : Option X.Doc) (s : State X) → (IsRefused d s) ⊎ (HasRoomFor d s)
  room_cases none s = inr tt
  room_cases (some d) s = same_or_not _ 0

  pub decide-threw : (d : Option X.Doc) (s : State X) → IsRefused d s → (decide X d s).0 ≡ threw
  unfolding decide next_input free_input outside ◌>>=◌
  decide-threw none s h = absurd h
  decide-threw (some d) s h =
      rw (write_refused X.memory (X.encode d) (X.memory.free s.inst.input.ptr s.world) h) refl

  -- The handle has the policy, the buffer the input, and the rest of the world is that of w.
  pub record Ready (w : X.memory.World) (a i : X.Doc) (s : State X) : Type 0 where
    pub policy : X.policy s.world s.inst.handle ≡ some (X.encode a)
    pub input : Holds X.memory s.world s.inst.input (X.encode i)
    pub new_policy : X.policy w s.inst.handle ≡ none
    pub new_input : X.memory.content w s.inst.input.ptr ≡ none
    pub other_policies : SamePoliciesBut X s.inst.handle w s.world
    pub others : SameBut X.memory s.inst.input.ptr w s.world

  module _ (heap : IsHeap X.memory) (decision : List ℕ → List ℕ → Decision)
      (policies : HasPolicies X decision) where
    write-SamePolicies :
        (bytes : List ℕ) (w : X.memory.World) → SamePolicies X w (write X.memory bytes w).1
    unfolding write
    write-SamePolicies bytes w g =
        let (p, v) = X.memory.malloc (length bytes) w in
        elim (Bool-cases (p == 0)) [
          | inl e ↦ rw e (policies.malloc_keeps (length bytes) w g)
          | inr e ↦ rw e (policies.set_keeps p bytes v g ∙ policies.malloc_keeps (length bytes) w g)
        ]

    pub after-SamePolicies :
        (bytes : List ℕ) (w : X.memory.World) (b : IsWritten X.memory bytes w)
        → SamePolicies X w b.after
    after-SamePolicies bytes w b g = rw b.gives at (write-SamePolicies bytes w g)

    -- A step of an instance with the result r.
    pub record Goes {A : Type 0} (w : X.memory.World) (a i : X.Doc) (r : A) (m : Result A × State X)
        : Type 0 where
      pub after : State X
      pub gives : m ≡ (ok r, after)
      pub ready : Ready w a i after

    -- The step of an instance with the result e or -1.
    pub record GoesAnswered (w : X.memory.World) (a i : X.Doc) (e : Decision)
        (m : Result Decision × State X) : Type 0 where
      pub answer : Decision
      pub right : IsAnswer e answer
      pub goes : Goes w a i answer m

    Goes-replaced :
        (w : X.memory.World) (a i d : X.Doc) (s : State X)
        → HasRoomFor (some d) s
        → Ready w a i s
        → Goes w a d tt (next_input X (some d) s)
    Goes-replaced w a i d s room r =
        let p = s.inst.input.ptr in
        let h = s.inst.handle in
        let (gone, kept) = heap.freed p s.world _ r.input.there in
        let v = X.memory.free p s.world in
        let b = write-IsWritten X.memory heap (X.encode d) v room in
        let written = after-SamePolicies (X.encode d) v b in
        let rest : SameContent X w v = λ q. elim (same_or_not q p) [
          | inl e ↦ rw e (gone ∙ sym r.new_input)
          | inr l ↦ kept q l ∙ r.others q l
        ] in
        record {
          after = record { world = b.after; inst = record { handle = h; input = b.buffer } };
          gives = unfold next_input free_input outside set_input ◌>>=◌ pure in rw b.gives refl;
          ready = record {
            policy = written h ∙ policies.free_keeps p s.world h ∙ r.policy;
            input = b.holds;
            new_policy = r.new_policy;
            new_input = sym (rest b.buffer.ptr) ∙ b.fresh;
            other_policies =
                λ g k. written g ∙ policies.free_keeps p s.world g ∙ r.other_policies g k;
            others = λ q l. b.others q l ∙ rest q;
          };
        }

    Goes-evaluate :
        (w : X.memory.World) (a i : X.Doc) (s : State X)
        → Ready w a i s
        → GoesAnswered w a i (decision (X.encode i) (X.encode a)) (evaluate X s)
    Goes-evaluate w a i s r =
        let inst = s.inst in
        let e = policies.evaluated inst.handle inst.input.ptr _ _ s.world r.policy r.input.there in
        let v = (X.evaluate_compiled inst.handle inst.input.ptr (length (X.encode i)) s.world).1 in
        record {
          answer = _;
          right = e.answer;
          goes = record {
            after = record { world = v; inst = inst };
            gives = unfold evaluate in rw r.input.length_there refl;
            ready = record {
              policy = e.policies _ ∙ r.policy;
              input = record {
                there = e.content _ ∙ r.input.there;
                length_there = r.input.length_there;
              };
              new_policy = r.new_policy;
              new_input = r.new_input;
              other_policies = λ g k. e.policies g ∙ r.other_policies g k;
              others = λ q l. e.content q ∙ r.others q l;
            };
          };
        }

    Goes-next_input :
        (w : X.memory.World) (a i : X.Doc) (d : Option X.Doc) (s : State X)
        → HasRoomFor d s
        → Ready w a i s
        → Goes w a (latest d i) tt (next_input X d s)
    Goes-next_input w a i (some d) s room r = Goes-replaced w a i d s room r
    Goes-next_input w a i none s room r = record {
      after = s;
      gives = unfold next_input pure in refl;
      ready = r;
    }

    pub Goes-decide :
        (w : X.memory.World) (a i : X.Doc) (d : Option X.Doc) (s : State X)
        → HasRoomFor d s
        → Ready w a i s
        → GoesAnswered w a
            (latest d i)
            (decision (X.encode (latest d i)) (X.encode a))
            (decide X d s)
    Goes-decide w a i d s room r =
        let first = Goes-next_input w a i d s room r in
        let second = Goes-evaluate w a (latest d i) first.after first.ready in
        record {
          answer = second.answer;
          right = second.right;
          goes = record {
            after = second.goes.after;
            gives = unfold decide ◌>>=◌ in rw first.gives second.goes.gives;
            ready = second.goes.ready;
          };
        }

    -- After `close` the heap and the policies are as they were.
    pub close-Ready :
        (w : X.memory.World) (a i : X.Doc) (s : State X)
        → Ready w a i s
        → SameContent X w (close X s) × SamePolicies X w (close X s)
    unfolding close
    close-Ready w a i s r =
        let p = s.inst.input.ptr in
        let h = s.inst.handle in
        let v = X.memory.free p s.world in
        let (gone, kept) = heap.freed p s.world _ r.input.there in
        let rel = policies.released h _ v (policies.free_keeps p s.world h ∙ r.policy) in
        (
          λ q. elim (same_or_not q p) [
            | inl e ↦ rel.content q ∙ rw e (gone ∙ sym r.new_input)
            | inr l ↦ rel.content q ∙ kept q l ∙ r.others q l
          ],
          λ g. elim (same_or_not_integer g h) [
            | inl e ↦ rw e (rel.gone ∙ sym r.new_policy)
            | inr k ↦ rel.others g k ∙ policies.free_keeps p s.world g ∙ r.other_policies g k
          ],
        )
