-- ===== src/Engines/Cedar.antt =====
-- bench/engines/cedar.mjs: each instance preparses its policies under an id of its own. The Cedar
-- binding is a parameter: it keeps the preparsed policies by their id.
pub mod Own
mod Tests
use zopa.Base.{ℕ, suc, Bool, true, false, Option, none, some, List, [], ◌∷◌}
use zopa.Base.Tests.{◌==◌, if◌then◌else◌}
use zopa.Base.Exec.{Result, ok, threw, stuck, Exec, pure, ◌>>=◌, ◌>>◌}
use zopa.Bench.Engine.{Decision, allow, deny, failed}
use zopa.Engines.Decisions.{latest}

-- `result`: its type is not `success`, or its decision is `allow`, or not
pub data Response : Type 0 where
  failure : Response
  decided : Bool → Response

-- `preparse` is `preparsePolicySet`, with whether its result is a success; `is_authorized` is
-- `statefulIsAuthorized` for the id and the context of `call`.
pub record Binding : Type 1 where
  pub World : Type 0
  pub Policies : Type 0
  pub Input : Type 0
  pub preparse : ℕ → Policies → World → Bool × World
  pub is_authorized : ℕ → Input → World → Response × World

unfoldable pub succeeded : Response → Bool
succeeded failure = false
succeeded (decided _) = true

-- What `decide` returns.
unfoldable pub decision_of : Response → Decision
decision_of failure = failed
decision_of (decided true) = allow
decision_of (decided false) = deny

unfoldable pub put {ℓ} : {A : Type ℓ} → ℕ → A → (ℕ → A) → ℕ → A
put id a f k = if k == id then a else f k

module _ (B : Binding) where
  -- The variable `nextPolicySetId` and the binding's world, with the field `context` of the object
  -- `call` of each instance, by its policy set's id: the instance's calls share this object.
  pub record State : Type 0 where
    pub world : B.World
    pub next_policy_set_id : ℕ
    pub contexts : ℕ → B.Input

  -- The other field of `call` that differs between instances.
  pub record Instance : Type 0 where
    pub policy_set_id : ℕ

  unfoldable pub preparse : B.Policies → Exec State (ℕ × Bool)
  preparse ps s =
      let (b, w) = B.preparse s.next_policy_set_id ps s.world in
      (
        ok (s.next_policy_set_id, b),
        record s { world = w; next_policy_set_id = suc s.next_policy_set_id },
      )

  -- `call` with this context: made by `setup`, or changed by `decide`
  unfoldable pub set_context : ℕ → B.Input → Exec State (Unit {0})
  set_context id i s = (ok tt, record s { contexts = put id i s.contexts })

  unfoldable pub next_context : ℕ → Option B.Input → Exec State (Unit {0})
  unfolding set_context
  next_context id none s = (ok tt, s)
  next_context id (some i) s = set_context id i s

  unfoldable pub ask : ℕ → Exec State Response
  ask id s =
      let (r, w) = B.is_authorized id (s.contexts id) s.world in (ok r, record s { world = w })

  unfoldable pub check : Bool → Exec State (Unit {0})
  check b s = if b then (ok tt, s) else (threw, s)

  unfoldable pub setup : B.Policies → B.Input → Exec State Instance
  unfolding preparse set_context ask check
  setup ps input = do
    (id, parsed) ← preparse ps
    check parsed
    set_context id input
    probe ← ask id
    check (succeeded probe)
    pure (record { policy_set_id = id })

  unfoldable pub decide : Instance → Option B.Input → Exec State Decision
  unfolding next_context ask
  decide inst next_input = do
    next_context inst.policy_set_id next_input
    r ← ask inst.policy_set_id
    pure (decision_of r)

  -- The calls that are made of `setup` and of the instances' `decide`.
  pub data Step : Type 0 where
    set_up : B.Policies → B.Input → Step
    decide_on : Instance → Option B.Input → Step

  unfoldable pub steps : List Step → State → State
  unfolding setup decide
  steps [] s = s
  steps (set_up ps i ∷ xs) s = steps xs (setup ps i s).1
  steps (decide_on inst i ∷ xs) s = steps xs (decide inst i s).1

  -- The input that an instance has after these calls, from the one it has before.
  unfoldable pub latest_of : Instance → B.Input → List Step → B.Input
  latest_of inst i [] = i
  latest_of inst i (set_up _ _ ∷ xs) = latest_of inst i xs
  latest_of inst i (decide_on called d ∷ xs) =
      latest_of inst (if called.policy_set_id == inst.policy_set_id then latest d i else i) xs
