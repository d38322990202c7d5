-- ===== src/Bench/Driver/Ends.antt =====
-- The driver of bench/run.mjs comes to an end.
use zopa.Base.{ℕ, ◌*◌, ◌<◌, ◌≡◌, refl, ◌≢◌, Option, none, some, inl, inr, List, [], ◌∷◌}
use zopa.Base.Tests.{◌==◌, Bool-cases}
use zopa.Base.Lists.{All}
use zopa.Base.Dict.{Dict, insert}
use zopa.Base.Number.{Numbers}
use zopa.Base.Exec.{Result, ok, threw, stuck, Exec, gets}
use zopa.Bench.Args.{Budget}
use zopa.Bench.Stats.{window_ms}
use zopa.Bench.Engine.{Decision, Figures, Host, Engine}
use zopa.Bench.Measure.{State, Live}
use zopa.Bench.Measure.Rules.{
  Good, Any, Maybe, Clock, Responsive, Returns, Returns-pure, Returns-modify, Returns-outside,
  Returns-if, Returns-step, Returns-attempt, Returns-finally,
}
use zopa.Bench.Measure.Returns.{
  Returns-decide, Returns-open_instance, Returns-close_instance, Returns-warm_up, Returns-samples,
  Returns-throughput, Returns-cold_start,
}
use zopa.Bench.Driver.{
  note_failure, keep, setup_engines, decide_all, gate, timed_figures, time_by, time_engines,
  agree_then_time, close_all, runnable, run_fixture, run_fixtures, running, finish, start, drive,
}

module _ (N : Numbers) (H : Host N) (time : H.World → ℕ) (clock : Clock N H time) where
  AllLive : List (Live N H) → Type 0
  AllLive es = All (λ e. Responsive N H time e.mod_) es

  AllEngines : List (Engine N H) → Type 0
  AllEngines ms = All (λ m. Responsive N H time m) ms

  All-keep :
      (e : Option (Live N H)) (es : List (Live N H))
      → Maybe (λ l. Responsive N H time l.mod_) e
      → AllLive es
      → AllLive (keep N H e es)
  unfolding AllLive keep
  All-keep none es h k = k
  All-keep (some e) es h k = (h, k)

  All-runnable :
      (f : H.Fixture) (ms : List (Engine N H)) → AllEngines ms → AllEngines (runnable N H f ms)
  unfolding AllEngines runnable
  All-runnable f [] h = tt
  All-runnable f (m ∷ ms) (h, hs) = elim (Bool-cases (m.supports f)) [
    | inl e ↦ rw e (h, All-runnable f ms hs)
    | inr e ↦ rw e (All-runnable f ms hs)
  ]

  Returns-setup_engines :
      (f : H.Fixture) (ms : List (Engine N H))
      → AllEngines ms
      → Returns N H AllLive (setup_engines N H f ms)
  unfolding setup_engines AllEngines AllLive
  Returns-setup_engines f [] h = Returns-pure N H AllLive [] tt
  Returns-setup_engines f (m ∷ ms) (h, hs) =
      Returns-step N H (Returns-attempt N H _ _ (Returns-open_instance N H time clock m f h))
        λ e re. Returns-step N H (Returns-modify N H (note_failure N H e)) λ _ _.
          Returns-step N H (Returns-setup_engines f ms hs)
            λ es res. Returns-pure N H AllLive _ (All-keep e es re res)

  Returns-close_all : (es : List (Live N H)) → AllLive es → Returns N H Any (close_all N H es)
  unfolding close_all AllLive
  Returns-close_all [] h = Returns-pure N H Any tt tt
  Returns-close_all (e ∷ es) (h, hs) =
      Returns-step N H (Returns-attempt N H _ _ (Returns-close_instance N H time clock e h))
        λ _ _. Returns-close_all es hs

  Returns-decide_all :
      (es : List (Live N H)) (ds : Dict Decision)
      → AllLive es
      → Returns N H Any (decide_all N H es ds)
  unfolding decide_all AllLive
  Returns-decide_all [] ds h = Returns-pure N H Any ds tt
  Returns-decide_all (e ∷ es) ds (h, hs) =
      Returns-step N H (Returns-decide N H time clock e h)
        λ d _. Returns-decide_all es (insert e.mod_.id d ds) hs

  Returns-gate : (es : List (Live N H)) → AllLive es → Returns N H Any (gate N H es)
  unfolding gate
  Returns-gate es h =
      Returns-step N H (Returns-decide_all es [] h)
        λ ds _. Returns-step N H (Returns-modify N H _) λ _ _. Returns-pure N H Any ds tt

  Returns-gets : {A : Type 0} (f : State N H → A) → Returns N H Any (gets f)
  unfolding gets
  Returns-gets f = record { at = λ s. tt }

  module _ (fuel : ℕ) (b : Budget) (floor : N.Num)
      (enough : window_ms N b.throughput_ms b.throughput_runs * 1_000_000 < fuel) where
    Returns-timed_figures :
        (f : H.Fixture) (e : Live N H)
        → Responsive N H time e.mod_
        → Returns N H Any (timed_figures N H fuel b floor f e)
    unfolding timed_figures
    Returns-timed_figures f e r =
        Returns-step N H (Returns-warm_up N H time clock b.warmup e r) λ _ _.
          Returns-step N H (Returns-throughput N H time clock fuel b e r enough) λ rate _.
            Returns-step N H (Returns-samples N H time clock floor b.iters e r) λ xs _.
              Returns-step N H (Returns-outside N H _ (r.memory_ends e.inst)) λ memory _.
                Returns-step N H (Returns-outside N H _ (r.artifact_ends e.inst)) λ artifact _.
                  Returns-step N H (Returns-cold_start N H time clock e.mod_ f r)
                    λ cold _. Returns-pure N H Any _ tt

    Returns-time_by :
        (g : Option (H.Fixture → Exec H.World (Figures N))) (f : H.Fixture) (ds : Dict Decision)
        (e : Live N H)
        → e.mod_.measure ≡ g
        → Responsive N H time e.mod_
        → Returns N H Any (time_by N H g fuel b floor f ds e)
    unfolding time_by
    Returns-time_by (some g) f ds e p r =
        Returns-step N H
          (Returns-attempt N H _ _ (Returns-outside N H (g f) (λ w. r.measure_ends g f w p)))
          λ figures _. Returns-modify N H _
    Returns-time_by none f ds e p r =
        Returns-step N H (Returns-timed_figures f e r) λ figures _. Returns-modify N H _

    Returns-time_engines :
        (f : H.Fixture) (ds : Dict Decision) (es : List (Live N H))
        → AllLive es
        → Returns N H Any (time_engines N H fuel b floor f ds es)
    unfolding time_engines AllLive
    Returns-time_engines f ds [] h = Returns-pure N H Any tt tt
    Returns-time_engines f ds (e ∷ es) (h, hs) =
        Returns-step N H (Returns-time_by e.mod_.measure f ds e refl h)
          λ _ _. Returns-time_engines f ds es hs

    Returns-agree_then_time :
        (f : H.Fixture) (es : List (Live N H))
        → AllLive es
        → Returns N H Any (agree_then_time N H fuel b floor f es)
    unfolding agree_then_time
    Returns-agree_then_time f es h = Returns-step N H (Returns-gate es h) λ ds _.
        Returns-step N H (Returns-gets _) λ n _.
          Returns-if N H (n == 0) _ _ (Returns-time_engines f ds es h) (Returns-pure N H Any tt tt)

    Returns-run_fixture :
        (live : List (Engine N H)) (f : H.Fixture)
        → AllEngines live
        → Returns N H Any (run_fixture N H fuel b floor live f)
    unfolding run_fixture
    Returns-run_fixture live f h =
        Returns-step N H (Returns-setup_engines f (runnable N H f live) (All-runnable f live h))
          λ es hs.
            Returns-finally N H Any Any _ _ (Returns-agree_then_time f es hs)
              (Returns-close_all es hs)

    Returns-run_fixtures :
        (live : List (Engine N H)) (fs : List H.Fixture)
        → AllEngines live
        → Returns N H Any (run_fixtures N H fuel b floor live fs)
    unfolding run_fixtures
    Returns-run_fixtures live [] h = Returns-pure N H Any tt tt
    Returns-run_fixtures live (f ∷ fs) h =
        Returns-step N H (Returns-run_fixture live f h) λ _ _. Returns-run_fixtures live fs h

    finish-ne-running :
        (r : Result (Unit {0})) (s : State N H) → Good Any r → finish N H (r, s) ≢ running
    unfolding finish
    finish-ne-running (ok _) s h e = elim (Bool-cases (s.disagreements == 0)) [
      | inl c ↦ cc (rw c at e)
      | inr c ↦ cc (rw c at e)
    ]
    finish-ne-running threw s h e = cc
    finish-ne-running stuck s h e = h

    -- The driver comes to an end: where reading the clock gives a time not before the world's and
    -- not after the next one's, every call of an engine ends, each `decide` takes time, and the
    -- fuel is above the nanoseconds of a timing window.
    pub drive-ne-running :
        (live : List (Engine N H)) (fs : List H.Fixture) (w : H.World)
        → All (λ m. Responsive N H time m) live
        → drive N H fuel b floor live fs w ≢ running
    unfolding drive AllEngines
    drive-ne-running live fs w h =
        finish-ne-running _ _ ((Returns-run_fixtures live fs h).at (start N H w))
