-- ===== src/Bench/Measure/Returns.antt =====
-- Actions of bench/run.mjs that come to an end. The loop of a timing window ends by the clock, so
-- the engines' calls have to return, and `decide` has to take time.
use zopa.Base.{ℕ, zero, suc, ◌+◌, ◌*◌, ◌<◌, refl, ◌≢◌, inl, inr, [], arith}
use zopa.Base.Tests.{ltb, Bool-cases}
use zopa.Base.Number.{Numbers}
use zopa.Base.Exec.{Result, ok, threw, stuck, pure, continue, ◌>>=◌}
use zopa.Bench.Args.{Budget}
use zopa.Bench.Stats.{window_ms}
use zopa.Bench.Engine.{Decision, Host, Engine}
use zopa.Bench.Measure.{
  State, Live, outside, now, enter, open_instance, close_instance, decide, warm_up, samples, window,
  windows, throughput, cold_start,
}
use zopa.Bench.Measure.Rules.{
  Good, Any, Clock, Good-continue, Responsive, Returns, Returns-finally, Returns-modify,
  Returns-now, Returns-outside, Returns-pure, Returns-step,
}

module _ (N : Numbers) (H : Host N) where
  module _ (time : H.World → ℕ) (clock : Clock N H time) where
    Good-round :
        (r : Result Decision) (fuel deadline n : ℕ) (e : Live N H) (s : State N H)
        → r ≢ stuck
        → Good Any (window N H fuel deadline n e s).0
        → Good Any (continue r (λ _. window N H fuel deadline n e) s).0
    Good-round (ok d) fuel deadline n e s h k = k
    Good-round threw fuel deadline n e s h k = tt
    Good-round stuck fuel deadline n e s h k = h refl

    -- The window ends with more fuel than there is time left.
    Good-window :
        (fuel deadline n : ℕ) (e : Live N H) (s : State N H)
        → Responsive N H time e.mod_
        → deadline < time s.world + fuel
        → 0 < fuel
        → Good Any (window N H fuel deadline n e s).0
    unfolding window now decide outside ◌>>=◌ pure
    Good-window zero deadline n e s r h k = absurd (omega arith)
    Good-window (suc fuel) deadline n e s r h k =
        let (t, w) = H.clock s.world in
        let before = clock.not_before s.world in
        let after = clock.not_after s.world in
        let later = r.decide_takes e.inst w in
        elim (Bool-cases (ltb t deadline)) [
          | inr c ↦ rw c tt
          | inl c ↦
              let less : t < deadline = ground arith in
              rw c (
                Good-round (e.mod_.decide e.inst w).0 fuel deadline (suc n) e _
                  (r.decide_ends e.inst w)
                  (Good-window fuel deadline (suc n) e _ r (omega arith) (omega arith)))
        ]

    pub Returns-decide :
        (e : Live N H) → Responsive N H time e.mod_ → Returns N H Any (decide N H e)
    unfolding decide
    Returns-decide e r = Returns-outside N H (e.mod_.decide e.inst) (r.decide_ends e.inst)

    pub Returns-open_instance :
        (m : Engine N H) (f : H.Fixture)
        → Responsive N H time m
        → Returns N H (λ e. Responsive N H time e.mod_) (open_instance N H m f)
    unfolding open_instance enter
    Returns-open_instance m f r =
        Returns-step N H (Returns-outside N H (m.setup f) (r.setup_ends f))
          λ i _. record { at = λ s. r }

    pub Returns-close_instance :
        (e : Live N H) → Responsive N H time e.mod_ → Returns N H Any (close_instance N H e)
    unfolding close_instance
    Returns-close_instance e r =
        Returns-step N H (Returns-modify N H _)
          λ _ _. Returns-outside N H (e.mod_.close e.inst) (r.close_ends e.inst)

    pub Returns-warm_up :
        (k : ℕ) (e : Live N H) → Responsive N H time e.mod_ → Returns N H Any (warm_up N H k e)
    unfolding warm_up
    Returns-warm_up zero e r = Returns-pure N H Any tt tt
    Returns-warm_up (suc k) e r = Returns-step N H (Returns-decide e r) λ _ _. Returns-warm_up k e r

    pub Returns-samples :
        (floor : N.Num) (k : ℕ) (e : Live N H)
        → Responsive N H time e.mod_
        → Returns N H Any (samples N H floor k e)
    unfolding samples
    Returns-samples floor zero e r = Returns-pure N H Any [] tt
    Returns-samples floor (suc k) e r = Returns-step N H (Returns-now N H) λ t0 _.
        Returns-step N H (Returns-decide e r) λ _ _.
          Returns-step N H (Returns-now N H) λ t1 _.
            Returns-step N H (Returns-samples floor k e r) λ rest _. Returns-pure N H Any _ tt

    pub Returns-windows :
        (fuel ms k : ℕ) (e : Live N H)
        → Responsive N H time e.mod_
        → ms * 1_000_000 < fuel
        → Returns N H Any (windows N H fuel ms k e)
    unfolding windows now ◌>>=◌
    Returns-windows fuel ms zero e r h = Returns-pure N H Any [] tt
    Returns-windows fuel ms (suc k) e r h = record {
      at = λ s.
          let (t, w) = H.clock s.world in
          let after = clock.not_after s.world in
          Good-continue N H Any Any _ _ _
            (Good-window fuel (t + ms * 1_000_000) 0 e _ r (omega arith) (omega arith))
            λ n _.
              Returns-step N H (Returns-windows fuel ms k e r h) λ ns _. Returns-pure N H Any _ tt;
    }

    pub Returns-throughput :
        (fuel : ℕ) (b : Budget) (e : Live N H)
        → Responsive N H time e.mod_
        → window_ms N b.throughput_ms b.throughput_runs * 1_000_000 < fuel
        → Returns N H Any (throughput N H fuel b e)
    unfolding throughput
    Returns-throughput fuel b e r h =
        Returns-step N H (Returns-windows fuel _ b.throughput_runs e r h)
          λ ns _. Returns-pure N H Any _ tt

    pub Returns-cold_start :
        (m : Engine N H) (f : H.Fixture)
        → Responsive N H time m
        → Returns N H Any (cold_start N H m f)
    unfolding cold_start
    Returns-cold_start m f r = Returns-step N H (Returns-now N H) λ t0 _.
        Returns-step N H (Returns-open_instance m f r) λ e re.
          Returns-finally N H Any Any _ _
            (Returns-step N H (Returns-decide e re)
              λ _ _. Returns-step N H (Returns-now N H) λ t1 _. Returns-pure N H Any _ tt)
            (Returns-close_instance e re)
