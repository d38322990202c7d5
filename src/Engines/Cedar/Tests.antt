-- ===== src/Engines/Cedar/Tests.antt =====
-- Instances of bench/engines/cedar.mjs over a small binding: a policy is a limit on the input.
use zopa.Base.{ℕ, ◌≡◌, refl, true, Option, none, some, List, [], ◌∷◌}
use zopa.Base.Tests.{◌==◌, ==-self, ==-ne, leb, if◌then◌else◌}
use zopa.Base.Exec.{ok, pure, ◌>>=◌}
use zopa.Bench.Engine.{deny}
use zopa.Engines.Cedar.{
  Response, failure, decided, Binding, succeeded, decision_of, State, Instance, preparse, ask,
  check, setup, decide, set_context, next_context, put, Step, set_up, decide_on, steps, latest_of,
}
use zopa.Engines.Cedar.Own.{IsCache, decide-steps}

abbrev judge : ℕ → ℕ → Response
judge limit i = decided (leb i limit)

abbrev answer : Option ℕ → ℕ → Response
answer none i = failure
answer (some limit) i = judge limit i

abbrev put_limit : ℕ → ℕ → (ℕ → Option ℕ) → ℕ → Option ℕ
put_limit id limit w k = if k == id then some limit else w k

abbrev limits : Binding
limits = record {
  World = ℕ → Option ℕ;
  Policies = ℕ;
  Input = ℕ;
  preparse = λ id limit w. (true, put_limit id limit w);
  is_authorized = λ id i w. (answer (w id) i, w);
}

limits-IsCache : IsCache limits (λ w id. w id) judge
limits-IsCache = record {
  preparsed = λ id ps w e. rw (==-self id) refl;
  others = λ id k ps w h. rw (==-ne k id h) refl;
  answers = λ id ps i w h. rw h refl;
  keeps = λ id k i w. refl;
}

abbrev empty : State limits
empty = record { world = λ id. none; next_policy_set_id = 0; contexts = λ id. 0 }

abbrev first : Instance limits
first = record { policy_set_id = 0 }

abbrev second : Instance limits
second = record { policy_set_id = 1 }

abbrev calls : List (Step limits)
calls = set_up 1 2 ∷ decide_on first (some 9) ∷ decide_on second (some 3) ∷ []

first_set_up : (setup limits 5 3 empty).0 ≡ ok first
unfolding setup preparse ask check set_context succeeded put ◌>>=◌ pure
first_set_up = refl

-- `decide(9)` stays the input of the instance.
denies_after :
    (decide limits first none (steps limits calls (setup limits 5 3 empty).1)).0 ≡ ok deny
unfolding setup preparse ask check set_context next_context succeeded decide steps decision_of put
    ◌>>=◌ pure
denies_after = refl

decide-steps_example :
    (decide limits first none (steps limits calls (setup limits 5 3 empty).1)).0
    ≡ ok (decision_of (judge 5 9))
unfolding latest_of
decide-steps_example =
    decide-steps limits (λ w id. w id) judge limits-IsCache 5 3 empty first calls none first_set_up
