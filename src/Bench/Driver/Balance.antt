-- ===== src/Bench/Driver/Balance.antt =====
-- Actions of bench/run.mjs that close an instance as often as they open it.
use zopa.Base.{ℕ, suc, ◌≡◌, refl, ◌≢◌, Option, none, some, List, [], ◌∷◌, arith}
use zopa.Base.Tests.{◌==◌, if◌then◌else◌}
use zopa.Base.Dict.{Dict}
use zopa.Base.Number.{Numbers}
use zopa.Base.Exec.{Result, ok, threw, stuck, Exec, continue, then_run, ◌>>=◌, finally}
use zopa.Bench.Args.{Budget}
use zopa.Bench.Engine.{Decision, Figures, Host, Engine}
use zopa.Bench.Measure.{State, Live, M, open_instance, close_instance, cold_start}
use zopa.Bench.Driver.{
  decide_all, gate, timed_figures, after_measure, time_by, time_engines, agree_then_time,
}
use zopa.Bench.Driver.Balanced.{
  opens, closes, Balanced, Balanced-attempt, Balanced-decide, Balanced-gets, Balanced-if,
  Balanced-modify, Balanced-now, Balanced-outside, Balanced-pure, Balanced-samples,
  Balanced-throughput, Balanced-warm_up, Moves, step,
}

module _ (N : Numbers) (H : Host N) (n : ℕ) where
  -- The instances of a list, as often as n is among them.
  abbrev pub held : List (Live N H) → ℕ
  held [] = 0
  held (e ∷ es) = if e.serial == n then suc (held es) else held es

  pub Moves-close :
      (e : Live N H) (s : State N H) → Moves N H n 0 (held (e ∷ [])) s (close_instance N H e s).1
  unfolding close_instance ◌>>=◌ opens closes
  Moves-close e s = ground arith

  -- What `open_instance` does to the count, by its result.
  abbrev pub gained : Result (Live N H) → ℕ
  gained (ok e) = held (e ∷ [])
  gained threw = 0
  gained stuck = 0

  pub Moves-open :
      (m : Engine N H) (f : H.Fixture) (s : State N H)
      → Moves N H n (gained (open_instance N H m f s).0) 0 s (open_instance N H m f s).1
  unfolding open_instance ◌>>=◌ opens closes
  Moves-open m f s = ground arith

  Moves-then_run :
      {A B : Type 0} (j : ℕ) (r : Result A) (fin : M N H B) (s s' : State N H)
      → ((t : State N H) → (fin t).0 ≢ stuck → Moves N H n 0 j t (fin t).1)
      → (r ≢ stuck → Moves N H n 0 0 s s')
      → (then_run r fin s').0 ≢ stuck
      → Moves N H n 0 j s (then_run r fin s').1
  Moves-then_run j (ok a) fin s s' hf h c = omega (arith, h (λ e. cc), hf s' (λ e. c (rw e)))
  Moves-then_run j threw fin s s' hf h c = omega (arith, h (λ e. cc), hf s' (λ e. c (rw e)))
  Moves-then_run j stuck fin s s' hf h c = absurd (c refl)

  pub Moves-finally :
      {A B : Type 0} (j : ℕ) (m : M N H A) (fin : M N H B)
      → Balanced N H n m
      → ((t : State N H) → (fin t).0 ≢ stuck → Moves N H n 0 j t (fin t).1)
      → (s : State N H) → (finally m fin s).0 ≢ stuck
      → Moves N H n 0 j s (finally m fin s).1
  unfolding finally
  Moves-finally j m fin bm hf s c = Moves-then_run j (m s).0 fin s (m s).1 hf (bm.at s) c

  -- An instance that is opened, used and closed.
  Moves-with_instance :
      {A : Type 0} (r : Result (Live N H)) (k : Live N H → M N H A) (s s' : State N H)
      → ((e : Live N H) → Balanced N H n (k e))
      → Moves N H n (gained r) 0 s s'
      → (continue r (λ e. finally (k e) (close_instance N H e)) s').0 ≢ stuck
      → Moves N H n 0 0 s (continue r (λ e. finally (k e) (close_instance N H e)) s').1
  Moves-with_instance (ok e) k s s' bk h c = omega (
    arith,
    h,
    Moves-finally (held (e ∷ [])) (k e) (close_instance N H e) (bk e) (λ t _. Moves-close e t) s' c,
  )
  Moves-with_instance threw k s s' bk h c = h
  Moves-with_instance stuck k s s' bk h c = absurd (c refl)

  Balanced-with_instance :
      {A : Type 0} (m : Engine N H) (f : H.Fixture) (k : Live N H → M N H A)
      → ((e : Live N H) → Balanced N H n (k e))
      → Balanced N H n (open_instance N H m f >>= λ e. finally (k e) (close_instance N H e))
  unfolding ◌>>=◌
  Balanced-with_instance m f k bk = record {
    at = λ s c.
        let (r, s') = open_instance N H m f s in
        Moves-with_instance r k s s' bk (Moves-open m f s) c;
  }

  Balanced-cold_start : (m : Engine N H) (f : H.Fixture) → Balanced N H n (cold_start N H m f)
  unfolding cold_start
  Balanced-cold_start m f = step N H n (Balanced-now N H n) λ t0. Balanced-with_instance m f _ λ e.
      step N H n (Balanced-decide N H n e)
        λ _. step N H n (Balanced-now N H n) λ t1. Balanced-pure N H n _

  Balanced-timed_figures :
      (fuel : ℕ) (b : Budget) (floor : N.Num) (f : H.Fixture) (e : Live N H)
      → Balanced N H n (timed_figures N H fuel b floor f e)
  unfolding timed_figures
  Balanced-timed_figures fuel b floor f e = step N H n (Balanced-warm_up N H n b.warmup e) λ _.
      step N H n (Balanced-throughput N H n fuel b e) λ rate.
        step N H n (Balanced-samples N H n floor b.iters e) λ xs.
          step N H n (Balanced-outside N H n _) λ memory.
            step N H n (Balanced-outside N H n _)
              λ artifact. step N H n (Balanced-cold_start e.mod_ f) λ cold. Balanced-pure N H n _

  events-after_measure :
      (f : H.Fixture) (ds : Dict Decision) (e : Live N H) (figures : Option (Figures N))
      (s : State N H)
      → (after_measure N H f ds e figures s).events ≡ s.events
  unfolding after_measure
  events-after_measure f ds e none s = refl
  events-after_measure f ds e (some figures) s = refl

  Balanced-time_by :
      (measure : Option (H.Fixture → Exec H.World (Figures N))) (fuel : ℕ) (b : Budget)
      (floor : N.Num) (f : H.Fixture) (ds : Dict Decision) (e : Live N H)
      → Balanced N H n (time_by N H measure fuel b floor f ds e)
  unfolding time_by
  Balanced-time_by (some measure) fuel b floor f ds e =
      step N H n (Balanced-attempt N H n _ (Balanced-outside N H n (measure f)))
        λ figures. Balanced-modify N H n _ (events-after_measure f ds e figures)
  Balanced-time_by none fuel b floor f ds e =
      step N H n (Balanced-timed_figures fuel b floor f e)
        λ figures. Balanced-modify N H n _ λ s. refl

  Balanced-time_engines :
      (fuel : ℕ) (b : Budget) (floor : N.Num) (f : H.Fixture) (ds : Dict Decision)
      (es : List (Live N H))
      → Balanced N H n (time_engines N H fuel b floor f ds es)
  unfolding time_engines
  Balanced-time_engines fuel b floor f ds [] = Balanced-pure N H n tt
  Balanced-time_engines fuel b floor f ds (e ∷ es) =
      step N H n (Balanced-time_by e.mod_.measure fuel b floor f ds e)
        λ _. Balanced-time_engines fuel b floor f ds es

  Balanced-decide_all :
      (es : List (Live N H)) (ds : Dict Decision) → Balanced N H n (decide_all N H es ds)
  unfolding decide_all
  Balanced-decide_all [] ds = Balanced-pure N H n ds
  Balanced-decide_all (e ∷ es) ds =
      step N H n (Balanced-decide N H n e) λ d. Balanced-decide_all es _

  Balanced-gate : (es : List (Live N H)) → Balanced N H n (gate N H es)
  unfolding gate
  Balanced-gate es =
      step N H n (Balanced-decide_all es [])
        λ ds. step N H n (Balanced-modify N H n _ λ s. refl) λ _. Balanced-pure N H n ds

  pub Balanced-agree_then_time :
      (fuel : ℕ) (b : Budget) (floor : N.Num) (f : H.Fixture) (es : List (Live N H))
      → Balanced N H n (agree_then_time N H fuel b floor f es)
  unfolding agree_then_time
  Balanced-agree_then_time fuel b floor f es = step N H n (Balanced-gate es) λ ds.
      step N H n (Balanced-gets N H n _) λ d.
        Balanced-if N H n (d == 0) _ _ (Balanced-time_engines fuel b floor f ds es)
          (Balanced-pure N H n tt)
