-- ===== src/Bench/Stats.antt =====
-- The statistics of bench/run.mjs. Samples are finite numbers, and a percentile of none is
-- `undefined`.
pub mod Sort
pub mod Percentile
mod Tests
use zopa.Base.{
  ℕ, suc, ◌+◌, ◌-◌, ◌*◌, ◌/◌, min, max, Bool, true, false, Option, List, [], ◌∷◌, foldl,
}
use zopa.Base.Tests.{if◌then◌else◌}
use zopa.Base.Lists.{length, get_elem?}
use zopa.Base.Number.{Numbers, hundredths}

module _ (N : Numbers) where
  insert_sorted : N.Num → List N.Num → List N.Num
  insert_sorted x [] = x ∷ []
  insert_sorted x (y ∷ ys) = if N.le x y then x ∷ y ∷ ys else y ∷ insert_sorted x ys

  -- `Float64Array.prototype.sort`, which orders by value
  unfoldable pub sort : List N.Num → List N.Num
  unfolding insert_sorted
  sort [] = []
  sort (x ∷ xs) = insert_sorted x (sort xs)

  -- The index that `percentile` reads of a list of `n` numbers, where `n` is not 0.
  abbrev pub rank : ℕ → N.Num → ℕ
  rank n p = min (n - 1) (N.floor_mul n p)

  unfoldable pub percentile : List N.Num → N.Num → Option N.Num
  percentile sorted p = get_elem? sorted (rank (length sorted) p)

  unfoldable pub mean : List N.Num → N.Num
  mean xs = N.div (foldl N.add (N.of_nat 0) xs) (N.of_nat (length xs))

  pub record Summary : Type 0 where
    pub p50 : Option N.Num
    pub p95 : Option N.Num
    pub p99 : Option N.Num
    pub mean : N.Num

  unfoldable pub summarise : List N.Num → Summary
  unfolding sort percentile mean
  summarise samples =
      let sorted = sort samples in
      record {
        p50 = percentile sorted (hundredths N 50);
        p95 = percentile sorted (hundredths N 95);
        p99 = percentile sorted (hundredths N 99);
        mean = mean sorted;
      }

  -- The clock counts nanoseconds and does not go back.
  unfoldable pub micros : ℕ → ℕ → N.Num
  micros t0 t1 = N.div (N.of_nat (t1 - t0)) (N.of_nat 1000)

  -- The middle of the probes, each the time between two readings of the clock.
  unfoldable pub timer_floor_micros : List N.Num → Option N.Num
  unfolding sort
  timer_floor_micros probes = get_elem? (sort probes) (length probes / 2)

  -- Math.max(0, x - TIMER_FLOOR)
  unfoldable pub corrected : N.Num → N.Num → N.Num
  corrected floor x = let y = N.sub x floor in if N.lt y (N.of_nat 0) then N.of_nat 0 else y

  -- `Math.max(1, Math.round(ms / runs))`, for whole numbers with `runs` above 0
  unfoldable pub window_ms : ℕ → ℕ → ℕ
  window_ms ms runs = max 1 ((2 * ms + runs) / (2 * runs))

  -- `best = Math.max(best, (n * 1000) / windowMs)` over the counts of the windows
  unfoldable pub best_rate : ℕ → N.Num → List ℕ → N.Num
  best_rate window best [] = best
  best_rate window best (n ∷ ns) =
      let rate = N.div (N.of_nat (n * 1000)) (N.of_nat window) in
      best_rate window (if N.lt best rate then rate else best) ns
