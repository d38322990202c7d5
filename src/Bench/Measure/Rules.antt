-- ===== src/Bench/Measure/Rules.antt =====
-- What keeps the actions of bench/run.mjs from hanging, and the rules for actions that end.
use zopa.Base.{ℕ, ◌≤◌, ◌<◌, ◌≡◌, refl, ◌≢◌, Bool, true, false, Option, none, some}
use zopa.Base.Tests.{if◌then◌else◌}
use zopa.Base.Number.{Numbers}
use zopa.Base.Exec.{
  Result, ok, threw, stuck, Exec, pure, caught, attempt, continue, settle, then_run, ◌>>=◌, finally,
}
use zopa.Bench.Engine.{Figures, Host, Engine}
use zopa.Bench.Measure.{State, M, outside, modify, now}

-- The call ends, and its value, if there is one, has the property.
abbrev pub Good : {A : Type 0} → (A → Type 0) → Result A → Type 0
Good P (ok a) = P a
Good P threw = Unit
Good P stuck = ⊥

abbrev pub Any : {A : Type 0} → A → Type 0
Any a = Unit

abbrev pub Maybe : {A : Type 0} → (A → Type 0) → Option A → Type 0
Maybe P none = Unit
Maybe P (some a) = P a

module _ (N : Numbers) (H : Host N) where
  -- `time` is the time at which a world stands. Reading the clock gives a time between the world's
  -- before and after.
  pub record Clock (time : H.World → ℕ) : Type 0 where
    pub not_before : (w : H.World) → time w ≤ (H.clock w).0
    pub not_after : (w : H.World) → (H.clock w).0 ≤ time (H.clock w).1

  -- An engine whose calls end, and whose `decide` takes time.
  pub record Responsive (time : H.World → ℕ) (m : Engine N H) : Type 0 where
    pub setup_ends : (f : H.Fixture) (w : H.World) → (m.setup f w).0 ≢ stuck
    pub decide_ends : (i : H.Instance) (w : H.World) → (m.decide i w).0 ≢ stuck
    pub decide_takes : (i : H.Instance) (w : H.World) → time w < time (m.decide i w).1
    pub close_ends : (i : H.Instance) (w : H.World) → (m.close i w).0 ≢ stuck
    pub memory_ends : (i : H.Instance) (w : H.World) → (m.memory_bytes i w).0 ≢ stuck
    pub artifact_ends : (i : H.Instance) (w : H.World) → (m.artifact_bytes i w).0 ≢ stuck
    pub measure_ends :
        (g : H.Fixture → Exec H.World (Figures N)) (f : H.Fixture) (w : H.World)
        → m.measure ≡ some g
        → (g f w).0 ≢ stuck

  pub record Returns {A : Type 0} (P : A → Type 0) (m : M N H A) : Type 0 where
    pub at : (s : State N H) → Good P (m s).0

  pub Returns-pure : {A : Type 0} (P : A → Type 0) (a : A) → P a → Returns P (pure a)
  unfolding pure
  Returns-pure P a p = record { at = λ s. p }

  pub Returns-modify : (f : State N H → State N H) → Returns Any (modify N H f)
  unfolding modify
  Returns-modify f = record { at = λ s. tt }

  Good-ne : {A : Type 0} (r : Result A) → r ≢ stuck → Good Any r
  Good-ne (ok a) h = tt
  Good-ne threw h = tt
  Good-ne stuck h = h refl

  pub Returns-outside :
      {A : Type 0} (m : Exec H.World A)
      → ((w : H.World) → (m w).0 ≢ stuck)
      → Returns Any (outside N H m)
  unfolding outside
  Returns-outside m h = record { at = λ s. Good-ne (m s.world).0 (h s.world) }

  pub Returns-now : Returns Any (now N H)
  unfolding now
  Returns-now = record { at = λ s. tt }

  pub Returns-if :
      {A : Type 0} {P : A → Type 0} (b : Bool) (m k : M N H A)
      → Returns P m
      → Returns P k
      → Returns P (if b then m else k)
  Returns-if true m k h l = h
  Returns-if false m k h l = l

  pub Good-continue :
      {A B : Type 0} (P : A → Type 0) (Q : B → Type 0) (r : Result A) (f : A → M N H B)
      (s : State N H)
      → Good P r
      → ((a : A) → P a → Returns Q (f a))
      → Good Q (continue r f s).0
  Good-continue P Q (ok a) f s h k = (k a h).at s
  Good-continue P Q threw f s h k = tt
  Good-continue P Q stuck f s h k = absurd h

  -- The rule for a step of a `do` block.
  pub Returns-step :
      {A B : Type 0} {P : A → Type 0} {Q : B → Type 0} {m : M N H A} {f : A → M N H B}
      → Returns P m
      → ((a : A) → P a → Returns Q (f a))
      → Returns Q (m >>= f)
  unfolding ◌>>=◌
  Returns-step {P} {Q} {m} {f} h k = record {
    at = λ s. Good-continue P Q (m s).0 f (m s).1 (h.at s) k;
  }

  Good-caught :
      {A : Type 0} (P : A → Type 0) (r : Result A) (s : State N H)
      → Good P r
      → Good (Maybe P) (caught r s).0
  Good-caught P (ok a) s h = h
  Good-caught P threw s h = tt
  Good-caught P stuck s h = h

  pub Returns-attempt :
      {A : Type 0} (P : A → Type 0) (m : M N H A) → Returns P m → Returns (Maybe P) (attempt m)
  unfolding attempt
  Returns-attempt P m h = record { at = λ s. Good-caught P (m s).0 (m s).1 (h.at s) }

  Good-settle :
      {A B : Type 0} (P : A → Type 0) (Q : B → Type 0) (r : Result A) (q : Result B)
      → Good P r
      → Good Q q
      → Good P (settle r q)
  Good-settle P Q r (ok b) h k = h
  Good-settle P Q r threw h k = tt
  Good-settle P Q r stuck h k = k

  Good-then_run :
      {A B : Type 0} (P : A → Type 0) (Q : B → Type 0) (r : Result A) (fin : M N H B)
      (s : State N H)
      → Good P r
      → Returns Q fin
      → Good P (then_run r fin s).0
  Good-then_run P Q (ok a) fin s h k = Good-settle P Q (ok a) (fin s).0 h (k.at s)
  Good-then_run P Q threw fin s h k = Good-settle P Q threw (fin s).0 h (k.at s)
  Good-then_run P Q stuck fin s h k = h

  pub Returns-finally :
      {A B : Type 0} (P : A → Type 0) (Q : B → Type 0) (m : M N H A) (fin : M N H B)
      → Returns P m
      → Returns Q fin
      → Returns P (finally m fin)
  unfolding finally
  Returns-finally P Q m fin h k = record {
    at = λ s. Good-then_run P Q (m s).0 fin (m s).1 (h.at s) k;
  }
