-- ===== src/Engines/Cedar/Own.antt =====
-- An instance of bench/engines/cedar.mjs is answered by its own policies.
use zopa.Base.{
  ℕ, ◌<◌, ◌≡◌, refl, sym, ◌∙◌, ◌≢◌, Bool, true, false, Option, none, some, List, [], ◌∷◌, inl, inr,
  arith,
}
use zopa.Base.Tests.{if◌then◌else◌, ◌==◌, ==-self, ==-ne, same_or_not, Bool-cases}
use zopa.Base.Exec.{Result, ok, threw, pure, ◌>>=◌, ◌>>◌}
use zopa.Engines.Decisions.{latest}
use zopa.Engines.Cedar.{
  Response, Binding, succeeded, decision_of, State, Instance, preparse, ask, check, setup, decide,
  set_context, next_context, put, Step, set_up, decide_on, steps, latest_of,
}

module _ (B : Binding) where
  -- The binding keeps policies by their id, and answers by `judge` of the policies and the input.
  pub record IsCache (held : B.World → ℕ → Option B.Policies)
      (judge : B.Policies → B.Input → Response) : Type 0 where
    pub preparsed :
        (id : ℕ) (ps : B.Policies) (w : B.World)
        → (B.preparse id ps w).0 ≡ true
        → held (B.preparse id ps w).1 id ≡ some ps
    pub others :
        (id k : ℕ) (ps : B.Policies) (w : B.World)
        → k ≢ id
        → held (B.preparse id ps w).1 k ≡ held w k
    pub answers :
        (id : ℕ) (ps : B.Policies) (i : B.Input) (w : B.World)
        → held w id ≡ some ps
        → (B.is_authorized id i w).0 ≡ judge ps i
    pub keeps :
        (id k : ℕ) (i : B.Input) (w : B.World) → held (B.is_authorized id i w).1 k ≡ held w k

  module _ (held : B.World → ℕ → Option B.Policies) (judge : B.Policies → B.Input → Response)
      (cache : IsCache held judge) where
    -- The policies stand under an id that is taken, and its `call` has this context.
    record Owns (id : ℕ) (ps : B.Policies) (i : B.Input) (s : State B) : Type 0 where
      taken : id < s.next_policy_set_id
      there : held s.world id ≡ some ps
      context : s.contexts id ≡ i

    Owns-ask :
        (id k : ℕ) (ps : B.Policies) (i : B.Input) (s : State B)
        → Owns id ps i s
        → Owns id ps i (ask B k s).1
    unfolding ask
    Owns-ask id k ps i s o = record {
      taken = o.taken;
      there = cache.keeps k id (s.contexts k) s.world ∙ o.there;
      context = o.context;
    }

    Owns-preparse :
        (id : ℕ) (ps qs : B.Policies) (i : B.Input) (s : State B)
        → Owns id ps i s
        → Owns id ps i (preparse B qs s).1
    unfolding preparse
    Owns-preparse id ps qs i s o = record {
      taken = omega (arith, o.taken);
      there =
          cache.others s.next_policy_set_id id qs s.world (λ e. omega (arith, o.taken)) ∙ o.there;
      context = o.context;
    }

    Owns-set_context :
        (id k : ℕ) (ps : B.Policies) (i j : B.Input) (s : State B)
        → Owns id ps i s
        → Owns id ps (if k == id then j else i) (set_context B k j s).1
    unfolding set_context put
    Owns-set_context id k ps i j s o = record {
      taken = o.taken;
      there = o.there;
      context = elim (same_or_not k id) [
        | inl e ↦ rw (e, ==-self id) refl
        | inr e ↦ rw (==-ne k id e, ==-ne id k (λ f. e (sym f))) o.context
      ];
    }

    if_same : {A : Type 0} (b : Bool) (a : A) → a ≡ (if b then a else a)
    if_same true a = refl
    if_same false a = refl

    Owns-next_context :
        (id k : ℕ) (ps : B.Policies) (i : B.Input) (d : Option B.Input) (s : State B)
        → Owns id ps i s
        → Owns id ps (if k == id then latest d i else i) (next_context B k d s).1
    unfolding next_context
    Owns-next_context id k ps i none s o = rw (if_same (k == id) i) at o
    Owns-next_context id k ps i (some j) s o = Owns-set_context id k ps i j s o

    Owns-decide :
        (id : ℕ) (ps : B.Policies) (i : B.Input) (inst : Instance B) (d : Option B.Input)
        (s : State B)
        → Owns id ps i s
        → Owns id ps (if inst.policy_set_id == id then latest d i else i) (decide B inst d s).1
    unfolding decide ◌>>=◌ pure
    Owns-decide id ps i inst none s o =
        Owns-ask id _ ps _ _ (Owns-next_context id inst.policy_set_id ps i none s o)
    Owns-decide id ps i inst (some j) s o =
        Owns-ask id _ ps _ _ (Owns-next_context id inst.policy_set_id ps i (some j) s o)

    checked :
        {A : Type 0} (b : Bool) (a : A) (s : State B)
        → (check B b >> pure a) s ≡ (if b then (ok a, s) else (threw, s))
    unfolding ◌>>=◌ check pure
    checked true a s = refl
    checked false a s = refl

    -- `setup` after `preparsePolicySet`.
    probed : ℕ → B.Input → State B → Result (Instance B) × State B
    probed n i t =
        let (r, u) = ask B n (set_context B n i t).1 in
        (check B (elim r [ ok p ↦ succeeded p | _ ↦ false ]) >> pure (record { policy_set_id = n }))
          u

    setup_cases :
        (qs : B.Policies) (i : B.Input) (s : State B)
        → let t = (preparse B qs s).1 in
          setup B qs i s ≡ (
            if (B.preparse s.next_policy_set_id qs s.world).0
            then probed s.next_policy_set_id i t
            else (threw, t))
    unfolding setup ◌>>=◌ preparse check ask set_context probed
    setup_cases qs i s = elim (Bool-cases (B.preparse s.next_policy_set_id qs s.world).0) [
      | inl e ↦ rw e refl
      | inr e ↦ rw e refl
    ]

    Owns-if :
        {A : Type 0} (id : ℕ) (ps : B.Policies) (i : B.Input) (b : Bool) (m k : Result A × State B)
        → Owns id ps i m.1
        → Owns id ps i k.1
        → Owns id ps i (if b then m else k).1
    Owns-if id ps i true m k h l = h
    Owns-if id ps i false m k h l = l

    Owns-probed :
        (id n : ℕ) (ps : B.Policies) (i j : B.Input) (t : State B)
        → Owns id ps i t
        → Owns id ps (if n == id then j else i) (probed n j t).1
    unfolding probed
    Owns-probed id n ps i j t o =
        let v = (set_context B n j t).1 in
        let u = (ask B n v).1 in
        let o' = Owns-ask id n ps _ v (Owns-set_context id n ps i j t o) in
        rw (checked {A = Instance B} _ (record { policy_set_id = n }) u)
          (Owns-if id ps _ _ _ _ o' o')

    -- `setup` takes an id of its own.
    Owns-setup :
        (id : ℕ) (ps qs : B.Policies) (i j : B.Input) (s : State B)
        → Owns id ps i s
        → Owns id ps i (setup B qs j s).1
    Owns-setup id ps qs i j s o =
        let n = s.next_policy_set_id in
        let o' = Owns-preparse id ps qs i s o in
        let p = Owns-probed id n ps i j _ o' in
        let e = ==-ne n id (λ k. omega (arith, o.taken)) in
        rw (setup_cases qs j s) (Owns-if id ps i _ _ _ (rw e at p) o')

    Owns-steps :
        (inst : Instance B) (ps : B.Policies) (xs : List (Step B)) (i : B.Input) (s : State B)
        → Owns inst.policy_set_id ps i s
        → Owns inst.policy_set_id ps (latest_of B inst i xs) (steps B xs s)
    unfolding steps latest_of
    Owns-steps inst ps [] i s o = o
    Owns-steps inst ps (set_up qs j ∷ xs) i s o =
        Owns-steps inst ps xs i _ (Owns-setup inst.policy_set_id ps qs i j s o)
    Owns-steps inst ps (decide_on called d ∷ xs) i s o =
        Owns-steps inst ps xs _ _ (Owns-decide inst.policy_set_id ps i called d s o)

    -- The policies stand, but no `call` is made yet.
    Owns-new :
        (ps : B.Policies) (s : State B)
        → (B.preparse s.next_policy_set_id ps s.world).0 ≡ true
        → let t = (preparse B ps s).1 in
          Owns s.next_policy_set_id ps (t.contexts s.next_policy_set_id) t
    unfolding preparse
    Owns-new ps s e = record {
      taken = omega arith;
      there = cache.preparsed _ ps s.world e;
      context = refl;
    }

    if_given :
        {A : Type 0} (b : Bool) (a c : A) (u : State B)
        → (if◌then◌else◌ {A = Result A × State B} b (ok a, u) (threw, u)).0 ≡ ok c
        → c ≡ a
    if_given true a c u h = ground arith
    if_given false a c u h = absurd (cc)

    probed_given :
        (n : ℕ) (i : B.Input) (t : State B) (inst : Instance B)
        → (probed n i t).0 ≡ ok inst
        → inst ≡ record { policy_set_id = n }
    unfolding probed
    probed_given n i t inst h =
        let u = (ask B n (set_context B n i t).1).1 in
        if_given _ _ inst u (rw (checked {A = Instance B} _ (record { policy_set_id = n }) u) at h)

    if_probed :
        (b : Bool) (n : ℕ) (ps : B.Policies) (i : B.Input) (t : State B) (inst : Instance B)
        → (b ≡ true → Owns n ps (t.contexts n) t)
        → (if◌then◌else◌ {A = Result (Instance B) × State B} b (probed n i t) (threw, t)).0
          ≡ ok inst
        → (inst ≡ record { policy_set_id = n })
          × Owns n ps i
              (if◌then◌else◌ {A = Result (Instance B) × State B} b (probed n i t) (threw, t)).1
    if_probed true n ps i t inst o h =
        let p = Owns-probed n n ps _ i t (o refl) in
        (probed_given n i t inst h, rw (==-self n) at p)
    if_probed false n ps i t inst o h = absurd (cc)

    setup_given :
        (ps : B.Policies) (i : B.Input) (s : State B) (inst : Instance B)
        → (setup B ps i s).0 ≡ ok inst
        → (inst ≡ record { policy_set_id = s.next_policy_set_id })
          × Owns s.next_policy_set_id ps i (setup B ps i s).1
    setup_given ps i s inst h = rw (setup_cases ps i s) (
        if_probed _ s.next_policy_set_id ps i (preparse B ps s).1 inst (Owns-new ps s)
          (rw (setup_cases ps i s) at h))

    Owns-decision :
        (inst : Instance B) (ps : B.Policies) (i : B.Input) (d : Option B.Input) (s : State B)
        → Owns inst.policy_set_id ps i s
        → (decide B inst d s).0 ≡ ok (decision_of (judge ps (latest d i)))
    unfolding decide ◌>>=◌ ask pure next_context set_context put
    Owns-decision inst ps i none s o =
        rw (cache.answers inst.policy_set_id ps _ s.world o.there, o.context) refl
    Owns-decision inst ps i (some j) s o =
        rw (==-self inst.policy_set_id, cache.answers inst.policy_set_id ps j s.world o.there) refl

    -- An instance that `setup` gave, after any calls of `setup`, of other instances and of itself,
    -- decides by the policies it was set up with, and by the next input; where there is none, by
    -- the last one that its own calls gave, or the one of `setup` where they gave none.
    pub decide-steps :
        (ps : B.Policies) (i : B.Input) (s : State B) (inst : Instance B) (xs : List (Step B))
        (d : Option B.Input)
        → (setup B ps i s).0 ≡ ok inst
        → (decide B inst d (steps B xs (setup B ps i s).1)).0
          ≡ ok (decision_of (judge ps (latest d (latest_of B inst i xs))))
    decide-steps ps i s inst xs d h =
        let (e, o) = setup_given ps i s inst h in
        rw e (
          Owns-decision _ ps _ d _
            (Owns-steps (record { policy_set_id = s.next_policy_set_id }) ps xs i _ o))
