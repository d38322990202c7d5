-- ===== src/Engines/ZopaCompiled/Policies.antt =====
-- What bench/engines/zopa-compiled.mjs may rely on: policies behind handles, beside the heap.
use zopa.Base.{ℕ, ◌≡◌, ◌⊎◌, ◌≢◌, true, false, none, some, List}
use zopa.Base.Integers.{ℤ, is_positive}
use zopa.Base.Lists.{length}
use zopa.Bench.Engine.{Decision}
use zopa.Engines.Decisions.{IsAnswer}
use zopa.Engines.ZopaCompiled.{Exports}

module _ (X : Exports) where
  abbrev pub SameContent : X.memory.World → X.memory.World → Type 0
  SameContent w v = (q : ℕ) → X.memory.content v q ≡ X.memory.content w q

  abbrev pub SamePolicies : X.memory.World → X.memory.World → Type 0
  SamePolicies w v = (g : ℤ) → X.policy v g ≡ X.policy w g

  abbrev pub SamePoliciesBut : ℤ → X.memory.World → X.memory.World → Type 0
  SamePoliciesBut h w v = (g : ℤ) → g ≢ h → X.policy v g ≡ X.policy w g

  -- A policy that compiles has a new handle, which is positive.
  pub record IsCompiled (a : List ℕ) (w v : X.memory.World) (h : ℤ) : Type 0 where
    pub positive : is_positive h ≡ true
    pub fresh : X.policy w h ≡ none
    pub there : X.policy v h ≡ some a
    pub others : SamePoliciesBut h w v
    pub content : SameContent w v

  pub record IsRejected (w v : X.memory.World) (h : ℤ) : Type 0 where
    pub not_positive : is_positive h ≡ false
    pub policies : SamePolicies w v
    pub content : SameContent w v

  pub record IsReleased (w v : X.memory.World) (h : ℤ) : Type 0 where
    pub gone : X.policy v h ≡ none
    pub others : SamePoliciesBut h w v
    pub content : SameContent w v

  pub record IsEvaluated (d e : Decision) (w v : X.memory.World) : Type 0 where
    pub answer : IsAnswer e d
    pub policies : SamePolicies w v
    pub content : SameContent w v

  -- `policy_compile` gives a new handle, or a number that is not positive: the policy may be wrong,
  -- the table be full, or memory run out. `decision` decides by the input's bytes and the policy's.
  pub record HasPolicies (decision : List ℕ → List ℕ → Decision) : Type 0 where
    pub malloc_keeps : (n : ℕ) (w : X.memory.World) → SamePolicies w (X.memory.malloc n w).1
    pub free_keeps : (p : ℕ) (w : X.memory.World) → SamePolicies w (X.memory.free p w)
    pub set_keeps :
        (p : ℕ) (bs : List ℕ) (w : X.memory.World) → SamePolicies w (X.memory.set_bytes p bs w)
    pub compiled :
        (p : ℕ) (a : List ℕ) (w : X.memory.World)
        → X.memory.content w p ≡ some a
        → let (h, v) = X.policy_compile p (length a) w in (IsCompiled a w v h) ⊎ (IsRejected w v h)
    pub released :
        (h : ℤ) (a : List ℕ) (w : X.memory.World)
        → X.policy w h ≡ some a
        → IsReleased w (X.policy_release h w) h
    pub evaluated :
        (h : ℤ) (p : ℕ) (a i : List ℕ) (w : X.memory.World)
        → X.policy w h ≡ some a
        → X.memory.content w p ≡ some i
        → let (d, v) = X.evaluate_compiled h p (length i) w in IsEvaluated d (decision i a) w v
