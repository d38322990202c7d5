-- ===== src/Bench/Driver/Balanced.antt =====
-- How often an instance of bench/run.mjs is opened and closed, and the rules for actions that do both
-- as often.
use zopa.Base.{ℕ, zero, suc, ◌+◌, ◌≡◌, refl, ◌≢◌, Bool, true, false, List, [], ◌∷◌, arith}
use zopa.Base.Tests.{◌==◌, ltb, if◌then◌else◌}
use zopa.Base.Number.{Numbers}
use zopa.Base.Exec.{Result, ok, threw, stuck, Exec, pure, gets, caught, attempt, continue, ◌>>=◌}
use zopa.Bench.Args.{Budget}
use zopa.Bench.Engine.{Host}
use zopa.Bench.Measure.{
  Event, opened, closed, State, Live, M, outside, modify, now, decide, warm_up, samples, window,
  windows, throughput,
}

-- How often the instance n was opened, and closed.
unfoldable pub opens : ℕ → List Event → ℕ
opens n [] = 0
opens n (opened k ∷ es) = if k == n then suc (opens n es) else opens n es
opens n (closed k ∷ es) = opens n es

unfoldable pub closes : ℕ → List Event → ℕ
closes n [] = 0
closes n (opened k ∷ es) = closes n es
closes n (closed k ∷ es) = if k == n then suc (closes n es) else closes n es

module _ (N : Numbers) (H : Host N) (n : ℕ) where
  -- From s to s', the instance was opened i times more than it was closed, plus j.
  abbrev pub Moves : ℕ → ℕ → State N H → State N H → Type 0
  Moves i j s s' =
      opens n s'.events + closes n s.events + j ≡ closes n s'.events + opens n s.events + i

  -- The action, unless it hangs, closes the instance as often as it opens it.
  pub record Balanced {A : Type 0} (m : M N H A) : Type 0 where
    pub at : (s : State N H) → (m s).0 ≢ stuck → Moves 0 0 s (m s).1

  pub Balanced-pure : {A : Type 0} (a : A) → Balanced {A = A} (pure a)
  unfolding pure
  Balanced-pure a = record { at = λ s h. omega arith }

  pub Balanced-gets : {A : Type 0} (f : State N H → A) → Balanced {A = A} (gets f)
  unfolding gets
  Balanced-gets f = record { at = λ s h. omega arith }

  Balanced-hang : {A : Type 0} → Balanced {A = A} (λ s. (stuck, s))
  Balanced-hang = record { at = λ s h. omega arith }

  pub Balanced-outside : {A : Type 0} (m : Exec H.World A) → Balanced (outside N H m)
  unfolding outside
  Balanced-outside m = record { at = λ s h. omega arith }

  pub Balanced-modify :
      (f : State N H → State N H)
      → ((s : State N H) → (f s).events ≡ s.events)
      → Balanced (modify N H f)
  unfolding modify
  Balanced-modify f e = record { at = λ s h. rw (e s) (omega arith) }

  pub Balanced-now : Balanced (now N H)
  unfolding now
  Balanced-now = record { at = λ s h. omega arith }

  pub Balanced-decide : (e : Live N H) → Balanced (decide N H e)
  unfolding decide
  Balanced-decide e = Balanced-outside (e.mod_.decide e.inst)

  pub Balanced-if :
      {A : Type 0} (b : Bool) (m k : M N H A)
      → Balanced m
      → Balanced k
      → Balanced (if b then m else k)
  Balanced-if true m k bm bk = bm
  Balanced-if false m k bm bk = bk

  Moves-continue :
      {A B : Type 0} (r : Result A) (f : A → M N H B) (s s' : State N H)
      → ((a : A) → Balanced (f a))
      → (r ≢ stuck → Moves 0 0 s s')
      → (continue r f s').0 ≢ stuck
      → Moves 0 0 s (continue r f s').1
  Moves-continue (ok a) f s s' bf h c = omega (arith, h (λ e. cc), (bf a).at s' c)
  Moves-continue threw f s s' bf h c = h (λ e. cc)
  Moves-continue stuck f s s' bf h c = absurd (c refl)

  Balanced-bind :
      {A B : Type 0} (m : M N H A) (f : A → M N H B)
      → Balanced m
      → ((a : A) → Balanced (f a))
      → Balanced (m >>= f)
  unfolding ◌>>=◌
  Balanced-bind m f bm bf = record { at = λ s c. Moves-continue (m s).0 f s (m s).1 bf (bm.at s) c }

  Moves-caught :
      {A : Type 0} (r : Result A) (s s' : State N H)
      → (r ≢ stuck → Moves 0 0 s s')
      → (caught r s').0 ≢ stuck
      → Moves 0 0 s (caught r s').1
  Moves-caught (ok a) s s' h c = h (λ e. cc)
  Moves-caught threw s s' h c = h (λ e. cc)
  Moves-caught stuck s s' h c = absurd (c refl)

  pub Balanced-attempt : {A : Type 0} (m : M N H A) → Balanced m → Balanced (attempt m)
  unfolding attempt
  Balanced-attempt m bm = record { at = λ s c. Moves-caught (m s).0 s (m s).1 (bm.at s) c }

  -- The rule for a step of a `do` block.
  pub step :
      {A B : Type 0} {m : M N H A} {f : A → M N H B}
      → Balanced m
      → ((a : A) → Balanced (f a))
      → Balanced (m >>= f)
  step {m} {f} bm bf = Balanced-bind m f bm bf

  pub Balanced-warm_up : (k : ℕ) (e : Live N H) → Balanced (warm_up N H k e)
  unfolding warm_up
  Balanced-warm_up zero e = Balanced-pure tt
  Balanced-warm_up (suc k) e = step (Balanced-decide e) λ _. Balanced-warm_up k e

  pub Balanced-samples : (floor : N.Num) (k : ℕ) (e : Live N H) → Balanced (samples N H floor k e)
  unfolding samples
  Balanced-samples floor zero e = Balanced-pure []
  Balanced-samples floor (suc k) e = step Balanced-now λ t0.
      step (Balanced-decide e)
        λ _. step Balanced-now λ t1. step (Balanced-samples floor k e) λ rest. Balanced-pure _

  Balanced-window : (fuel deadline k : ℕ) (e : Live N H) → Balanced (window N H fuel deadline k e)
  unfolding window
  Balanced-window zero deadline k e = Balanced-hang
  Balanced-window (suc fuel) deadline k e = step Balanced-now λ t.
      Balanced-if (ltb t deadline) _ _
        (step (Balanced-decide e) λ _. Balanced-window fuel deadline (suc k) e) (Balanced-pure k)

  Balanced-windows : (fuel ms k : ℕ) (e : Live N H) → Balanced (windows N H fuel ms k e)
  unfolding windows
  Balanced-windows fuel ms zero e = Balanced-pure []
  Balanced-windows fuel ms (suc k) e = step Balanced-now λ t.
      step (Balanced-window fuel _ 0 e)
        λ count. step (Balanced-windows fuel ms k e) λ counts. Balanced-pure _

  pub Balanced-throughput :
      (fuel : ℕ) (b : Budget) (e : Live N H) → Balanced (throughput N H fuel b e)
  unfolding throughput
  Balanced-throughput fuel b e =
      step (Balanced-windows fuel _ b.throughput_runs e) λ ns. Balanced-pure _
