-- ===== src/Engines/Zopa/Tests.antt =====
-- Sessions of bench/engines/zopa.mjs on a small memory.
use zopa.Base.{ℕ, ◌≡◌, refl, Bool, false, Option, none, some, List, [], ◌∷◌, inl, arith}
use zopa.Base.Tests.{◌==◌, ==-ne, leb, if◌then◌else◌}
use zopa.Base.Lists.{length}
use zopa.Base.Exec.{Result, ok, threw, pure, ◌>>=◌}
use zopa.Bench.Engine.{Decision, allow, deny, failed}
use zopa.Engines.Heap.Bump.{Blocks, no_blocks, bump, bump-IsHeap}
use zopa.Engines.Heap.{write}
use zopa.Engines.Zopa.{
  Exports, State, setup, free_input, outside, set_input, next_input, evaluate, decide, decide_each,
  close, session,
}
use zopa.Engines.Zopa.Buffers.{Evaluates, Ready}
use zopa.Engines.Zopa.Session.{Answered, Answered-session, decide_refused}

-- An input is allowed if it is as long as the policy.
abbrev same_length : List ℕ → List ℕ → Decision
same_length i a = if length i == length a then allow else deny

abbrev on_blocks : Option (List ℕ) → Option (List ℕ) → Decision
on_blocks (some i) (some a) = same_length i a
on_blocks _ _ = failed

abbrev small : (ℕ → Bool) → Exports
small full = record {
  memory = bump full;
  evaluate = λ ip il ap al w. (on_blocks (w.block ip) (w.block ap), w);
  Doc = List ℕ;
  encode = λ d. d;
}

small-Evaluates : (full : ℕ → Bool) → Evaluates (small full) same_length
small-Evaluates full = record { at = λ ip ap i a w h k. (inl (rw (h, k) refl), λ q. refl) }

abbrev roomy : Exports
roomy = small (λ n. false)

abbrev inputs : List (Option (List ℕ))
inputs = none ∷ some (7 ∷ 8 ∷ []) ∷ none ∷ some [] ∷ []

roomy_session : Result (List Decision) × Blocks
unfolding session setup write decide_each decide next_input free_input outside set_input evaluate
    close ◌>>=◌ pure
roomy_session = session roomy (1 ∷ 2 ∷ []) (3 ∷ []) inputs no_blocks

roomy_decisions : roomy_session.0 ≡ ok (deny ∷ allow ∷ allow ∷ deny ∷ [])
unfolding roomy_session
roomy_decisions = refl

Answered-session_example :
    Answered roomy
      (bump-IsHeap (λ n. false))
      same_length
      (1 ∷ 2 ∷ [])
      (3 ∷ [])
      inputs
      no_blocks
      (session roomy (1 ∷ 2 ∷ []) (3 ∷ []) inputs no_blocks)
Answered-session_example =
    Answered-session roomy (bump-IsHeap (λ n. false)) same_length (small-Evaluates (λ n. false))
      (1 ∷ 2 ∷ []) (3 ∷ []) inputs no_blocks

-- There is room for two blocks.
abbrev tight : Exports
tight = small (λ n. leb 3 n)

abbrev two_buffers : State tight
two_buffers = record {
  world =
      ((bump (λ n. leb 3 n)).set_bytes 2 (3 ∷ [])
        ((bump (λ n. leb 3 n)).malloc 1 (
          (bump (λ n. leb 3 n)).set_bytes 1 (1 ∷ 2 ∷ [])
            ((bump (λ n. leb 3 n)).malloc 2 no_blocks).1)).1);
  inst = record { ast = record { ptr = 1; len = 2 }; input = record { ptr = 2; len = 1 } };
}

two_buffers_set_up :
    setup tight (1 ∷ 2 ∷ []) (3 ∷ []) no_blocks ≡ (ok two_buffers.inst, two_buffers.world)
unfolding roomy_session
two_buffers_set_up = refl

two_buffers-Ready : Ready tight no_blocks (1 ∷ 2 ∷ []) (3 ∷ []) two_buffers
two_buffers-Ready = record {
  ast = record { there = refl; length_there = refl };
  input = record { there = refl; length_there = refl };
  apart = omega arith;
  new_ast = refl;
  new_input = refl;
  others = λ q k l. rw (==-ne q 1 k, ==-ne q 2 l) refl;
}

decide_refused_example :
    let (r, after) = decide tight (some (7 ∷ [])) two_buffers in
    (r ≡ threw) × (after.inst ≡ two_buffers.inst) × (after.world.block after.inst.input.ptr ≡ none)
decide_refused_example =
    decide_refused tight (bump-IsHeap (λ n. leb 3 n)) no_blocks (1 ∷ 2 ∷ []) (3 ∷ []) (7 ∷ [])
      two_buffers two_buffers-Ready refl
