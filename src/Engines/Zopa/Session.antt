-- ===== src/Engines/Zopa/Session.antt =====
-- The use of an instance of bench/engines/zopa.mjs from `setup` to `close`.
use zopa.Base.{ℕ, ◌∙◌, ◌≡◌, ◌⊎◌, refl, Option, none, some, List, [], ◌∷◌, inl, inr}
use zopa.Base.Lists.{length}
use zopa.Base.Exec.{Result, ok, threw, pure, continue, ◌>>=◌}
use zopa.Bench.Engine.{Decision}
use zopa.Engines.Heap.{IsHeap, write}
use zopa.Engines.Decisions.{latest, expected, IsAnswer, AreAnswers}
use zopa.Engines.Zopa.{
  Exports, Instance, State, setup, close, free_input, outside, next_input, decide, decide_each,
  session,
}
use zopa.Engines.Zopa.Buffers.{
  IsRefused, room_cases, decide-threw, Evaluates, Ready, Goes-decide, close-Ready,
}
use zopa.Engines.Zopa.Started.{IsSetUpRefused, IsSetUp, setup_cases}

module _ (X : Exports) where
  -- `malloc` gives 0 for one of these inputs, after the decisions before it.
  abbrev pub Refused : List (Option X.Doc) → State X → Type 0
  Refused [] s = ⊥
  Refused (d ∷ ds) s = IsRefused X d s ⊎ Refused ds (decide X d s).1

  module _ (heap : IsHeap X.memory) where
    -- How decisions of an instance that is ready end: each is as expected, or -1, and the instance
    -- is ready after that; or `malloc` gives 0 for an input, and they throw.
    data Decided (decision : List ℕ → List ℕ → Decision) (w : X.memory.World) (a i : X.Doc)
        (ds : List (Option X.Doc)) (s : State X) : Result (List Decision) × State X → Type 0 where
      decided :
          (rs : List Decision) (last : X.Doc) (after : State X)
          → AreAnswers (expected X.encode decision a i ds) rs
          → Ready X w a last after
          → Decided decision w a i ds s (ok rs, after)
      ran_out : (after : State X) → Refused ds s → Decided decision w a i ds s (threw, after)

    Decided-cons :
        (decision : List ℕ → List ℕ → Decision) (w : X.memory.World) (a i : X.Doc)
        (d : Option X.Doc) (ds : List (Option X.Doc)) (r : Decision) (s s' : State X)
        (m : Result (List Decision) × State X)
        → decide X d s ≡ (ok r, s')
        → IsAnswer (decision (X.encode (latest d i)) (X.encode a)) r
        → Decided decision w a (latest d i) ds s' m
        → Decided decision w a i
            (d ∷ ds)
            s
            (continue {B = List Decision} m.0 (λ rs. pure (r ∷ rs)) m.1)
    unfolding expected pure
    Decided-cons decision w a i d ds r s s' _ e h (decided rs last after k ready) =
        decided (r ∷ rs) last after (h, k) ready
    Decided-cons decision w a i d ds r s s' _ e h (ran_out after k) = ran_out after (inr (rw e k))

    Decided-decide_each :
        (decision : List ℕ → List ℕ → Decision)
        → Evaluates X decision
        → (w : X.memory.World) (a : X.Doc) (ds : List (Option X.Doc)) (i : X.Doc) (s : State X)
        → Ready X w a i s
        → Decided decision w a i ds s (decide_each X ds s)
    unfolding decide_each expected pure ◌>>=◌
    Decided-decide_each decision ev w a [] i s r = decided [] i s tt r
    Decided-decide_each decision ev w a (d ∷ ds) i s r = elim (room_cases X d s) [
      | inl h ↦ rw (decide-threw X d s h) (ran_out _ (inl h))
      | inr h ↦
          let first = Goes-decide X heap decision ev w a i d s h r in
          let goes = first.goes in
          rw goes.gives (
            Decided-cons decision w a i d ds first.answer s goes.after _ goes.gives first.right
              (Decided-decide_each decision ev w a ds (latest d i) goes.after goes.ready))
    ]

    -- How a session ends. It returns the decisions, each as expected or -1, and each address has
    -- the block that it had before the session, or none as before; or it throws, and the `malloc`
    -- of this session for the policy, the first input or a next input gave 0.
    pub data Answered (decision : List ℕ → List ℕ → Decision) (a i : X.Doc)
        (ds : List (Option X.Doc)) (w : X.memory.World)
        : Result (List Decision) × X.memory.World → Type 0 where
      returned :
          (rs : List Decision) (v : X.memory.World)
          → AreAnswers (expected X.encode decision a i ds) rs
          → ((q : ℕ) → X.memory.content v q ≡ X.memory.content w q)
          → Answered decision a i ds w (ok rs, v)
      no_setup :
          (v : X.memory.World) → IsSetUpRefused X a i w → Answered decision a i ds w (threw, v)
      no_input :
          (inst : Instance) (u v : X.memory.World)
          → setup X a i w ≡ (ok inst, u)
          → Refused ds (record { world = u; inst = inst })
          → Answered decision a i ds w (threw, v)

    Answered-Decided :
        (decision : List ℕ → List ℕ → Decision) (a i : X.Doc) (ds : List (Option X.Doc))
        (w : X.memory.World) (start : IsSetUp X heap a i w) (m : Result (List Decision) × State X)
        → Decided decision w a i ds (record { world = start.after; inst = start.inst }) m
        → Answered decision a i ds w (m.0, close X m.1)
    Answered-Decided decision a i ds w start _ (decided rs last after h ready) =
        returned rs _ h (close-Ready X heap w a last after ready)
    Answered-Decided decision a i ds w start _ (ran_out after h) =
        no_input start.inst start.after _ start.gives h

    -- Where the exports keep a heap and `evaluate` decides by the bytes of its two blocks or gives
    -- -1, a session from `setup` to `close` returns unless one of its calls of `malloc` gives 0.
    -- Then each decision is that of the policy and the latest input, or -1, and in the end each
    -- address has the block that it had before the session, or none as before.
    pub Answered-session :
        (decision : List ℕ → List ℕ → Decision)
        → Evaluates X decision
        → (a i : X.Doc) (ds : List (Option X.Doc)) (w : X.memory.World)
        → Answered decision a i ds w (session X a i ds w)
    unfolding session
    Answered-session decision ev a i ds w = elim (setup_cases X heap a i w) [
      | inl (refusal, e) ↦ rw e (no_setup _ refusal)
      | inr start ↦ rw start.gives (
          Answered-Decided decision a i ds w start _
            (Decided-decide_each decision ev w a ds i _ start.ready))
    ]

    -- Where `malloc` has no room for the new input, `decide(nextInput)` throws, the variable `input`
    -- is unchanged, and at its address there is no block any more.
    pub decide_refused :
        (w : X.memory.World) (a i d : X.Doc) (s : State X)
        → Ready X w a i s
        → (X.memory.malloc (length (X.encode d)) (X.memory.free s.inst.input.ptr s.world)).0 ≡ 0
        → let (r, after) = decide X (some d) s in
          (r ≡ threw)
          × (after.inst ≡ s.inst)
          × (X.memory.content after.world after.inst.input.ptr ≡ none)
    unfolding decide next_input free_input outside write ◌>>=◌
    decide_refused w a i d s r h =
        let (gone, kept) = heap.freed s.inst.input.ptr s.world _ r.input.there in
        rw h (refl, refl, heap.refused _ _ h _ ∙ gone)
