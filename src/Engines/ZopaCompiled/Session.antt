-- ===== src/Engines/ZopaCompiled/Session.antt =====
-- The use of an instance of bench/engines/zopa-compiled.mjs from `setup` to `close`.
use zopa.Base.{ℕ, ◌≡◌, ◌⊎◌, refl, inl, inr, true, false, Option, List, [], ◌∷◌}
use zopa.Base.Integers.{ℤ, is_positive}
use zopa.Base.Lists.{length}
use zopa.Base.Exec.{Result, ok, threw, pure, continue, ◌>>=◌}
use zopa.Bench.Engine.{Decision}
use zopa.Engines.Heap.{IsHeap}
use zopa.Engines.Decisions.{latest, expected, IsAnswer, AreAnswers}
use zopa.Engines.ZopaCompiled.{
  Exports, Instance, State, setup, decide, decide_each, close, use_instance, session,
}
use zopa.Engines.ZopaCompiled.Policies.{SameContent, SamePolicies, HasPolicies}
use zopa.Engines.ZopaCompiled.Held.{
  IsRefused, room_cases, decide-threw, Ready, Goes-decide, close-Ready,
}
use zopa.Engines.ZopaCompiled.Started.{
  compiling, Started, no_buffer, not_compiled, no_first, set_up, Started-setup,
}

module _ (X : Exports) where
  -- `malloc` gives 0 for one of these inputs, after the decisions before it.
  abbrev pub Refused : List (Option X.Doc) → State X → Type 0
  Refused [] s = ⊥
  Refused (d ∷ ds) s = IsRefused X d s ⊎ Refused ds (decide X d s).1

  module _ (decision : List ℕ → List ℕ → Decision) where
    -- How decisions of an instance that is ready end: each is as expected, or -1, and the instance
    -- is ready after that; or `malloc` gives 0 for an input, and they throw.
    data Decided (w : X.memory.World) (a i : X.Doc) (ds : List (Option X.Doc)) (s : State X)
        : Result (List Decision) × State X → Type 0 where
      decided :
          (rs : List Decision) (last : X.Doc) (after : State X)
          → AreAnswers (expected X.encode decision a i ds) rs
          → Ready X w a last after
          → Decided w a i ds s (ok rs, after)
      ran_out : (after : State X) → Refused ds s → Decided w a i ds s (threw, after)

    Decided-cons :
        (w : X.memory.World) (a i : X.Doc) (d : Option X.Doc) (ds : List (Option X.Doc))
        (r : Decision) (s s' : State X) (m : Result (List Decision) × State X)
        → decide X d s ≡ (ok r, s')
        → IsAnswer (decision (X.encode (latest d i)) (X.encode a)) r
        → Decided w a (latest d i) ds s' m
        → Decided w a i (d ∷ ds) s (continue {B = List Decision} m.0 (λ rs. pure (r ∷ rs)) m.1)
    unfolding expected pure
    Decided-cons w a i d ds r s s' _ e h (decided rs last after k ready) =
        decided (r ∷ rs) last after (h, k) ready
    Decided-cons w a i d ds r s s' _ e h (ran_out after k) = ran_out after (inr (rw e k))

    -- How a session ends. It returns the decisions, each as expected or -1, and the blocks and the
    -- policies are those before the session. Or it throws: `policy_compile` gave no positive
    -- handle, and the blocks and the policies are those before the session, or the `malloc` of this
    -- session for the policy, the first input or a next input gave 0.
    pub data Served (a i : X.Doc) (ds : List (Option X.Doc)) (w : X.memory.World)
        : Result (List Decision) × X.memory.World → Type 0 where
      returned :
          (rs : List Decision) (v : X.memory.World)
          → AreAnswers (expected X.encode decision a i ds) rs
          → SameContent X w v
          → SamePolicies X w v
          → Served a i ds w (ok rs, v)
      no_policy :
          (h : ℤ) (v : X.memory.World)
          → compiling X a w ≡ (ok h, v)
          → is_positive h ≡ false
          → SameContent X w v
          → SamePolicies X w v
          → Served a i ds w (threw, v)
      no_room_for_policy :
          (v : X.memory.World)
          → (X.memory.malloc (length (X.encode a)) w).0 ≡ 0
          → Served a i ds w (threw, v)
      no_room_for_input :
          (h : ℤ) (u v : X.memory.World)
          → compiling X a w ≡ (ok h, u)
          → is_positive h ≡ true
          → (X.memory.malloc (length (X.encode i)) u).0 ≡ 0
          → Served a i ds w (threw, v)
      no_room_for_next :
          (inst : Instance) (u v : X.memory.World)
          → setup X a i w ≡ (ok inst, u)
          → Refused ds (record { world = u; inst = inst })
          → Served a i ds w (threw, v)

    module _ (heap : IsHeap X.memory) (policies : HasPolicies X decision) where
      Decided-decide_each :
          (w : X.memory.World) (a : X.Doc) (ds : List (Option X.Doc)) (i : X.Doc) (s : State X)
          → Ready X w a i s
          → Decided w a i ds s (decide_each X ds s)
      unfolding decide_each expected pure ◌>>=◌
      Decided-decide_each w a [] i s r = decided [] i s tt r
      Decided-decide_each w a (d ∷ ds) i s r = elim (room_cases X d s) [
        | inl h ↦ rw (decide-threw X d s h) (ran_out _ (inl h))
        | inr h ↦
            let first = Goes-decide X heap decision policies w a i d s h r in
            let goes = first.goes in
            rw goes.gives (
              Decided-cons w a i d ds first.answer s goes.after _ goes.gives first.right
                (Decided-decide_each w a ds (latest d i) goes.after goes.ready))
      ]

      Served-Decided :
          (a i : X.Doc) (ds : List (Option X.Doc)) (w : X.memory.World) (inst : Instance)
          (u : X.memory.World) (m : Result (List Decision) × State X)
          → setup X a i w ≡ (ok inst, u)
          → Decided w a i ds (record { world = u; inst = inst }) m
          → Served a i ds w (m.0, close X m.1)
      Served-Decided a i ds w inst u _ e (decided rs last after h ready) =
          let (blocks, held) = close-Ready X heap decision policies w a last after ready in
          returned rs _ h blocks held
      Served-Decided a i ds w inst u _ e (ran_out after h) = no_room_for_next inst u _ e h

      Served-Started :
          (a i : X.Doc) (ds : List (Option X.Doc)) (w : X.memory.World)
          (m : Result Instance × X.memory.World)
          → setup X a i w ≡ m
          → Started X heap decision policies a i w m
          → Served a i ds w (use_instance X ds m.0 m.1)
      Served-Started a i ds w _ e (no_buffer v h) = no_room_for_policy v h
      Served-Started a i ds w _ e (not_compiled h v c n blocks held) = no_policy h v c n blocks held
      Served-Started a i ds w _ e (no_first h u v c k r) = no_room_for_input h u v c k r
      Served-Started a i ds w _ e (set_up inst v ready) =
          Served-Decided a i ds w inst v _ e (Decided-decide_each w a ds i _ ready)

      -- Where the exports keep a heap, and policies behind handles, a session from `setup` to
      -- `close` returns unless `policy_compile` gives no positive handle or one of the session's
      -- calls of `malloc` gives 0. Then each decision is that of the policy and the latest input, or
      -- -1. If it returns, or throws for want of a handle, the blocks and the policies in the end
      -- are those before the session.
      pub Served-session :
          (a i : X.Doc) (ds : List (Option X.Doc)) (w : X.memory.World)
          → Served a i ds w (session X a i ds w)
      unfolding session
      Served-session a i ds w =
          Served-Started a i ds w (setup X a i w) refl
            (Started-setup X heap decision policies a i w)
