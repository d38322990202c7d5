-- ===== src/Bench/Stats/Tests.antt =====
-- The statistics at small samples.
use zopa.Base.{ℕ, ◌≤◌, ◌*◌, ◌/◌, true, ◌≡◌, refl, some, [], ◌∷◌, arith}
use zopa.Base.Tests.{leb}
use zopa.Base.Number.{IsOrdered}
use zopa.Base.Number.Fraction.{cents}
use zopa.Bench.Stats.{summarise}
use zopa.Bench.Stats.Percentile.{Percentiles, summarise-Percentiles}

summary :
    summarise cents (300 ∷ 100 ∷ 900 ∷ 200 ∷ [])
    ≡ record { p50 = some 300; p95 = some 900; p99 = some 900; mean = 375 }
unfolding summarise
summary = refl

product : (n a b : ℕ) → a ≤ b → n * a / 100 ≤ n * b / 100
product n a b h = let k : n * a ≤ n * b = grind arith in omega arith

leb→le : (a b : ℕ) → leb a b ≡ true → a ≤ b
leb→le a b h = ground arith

cents-IsOrdered : IsOrdered cents
cents-IsOrdered = record {
  le_refl = λ a _. ground arith;
  le_trans = λ a b c h k. ground arith;
  le_total = λ a b _ _. ground arith;
  le-hundredths = λ a b h k. ground arith;
  floor_mul_mono = λ n a b h. product n a b (leb→le a b h);
}

summarise-Percentiles_example :
    Percentiles cents (300 ∷ 100 ∷ 900 ∷ 200 ∷ []) (summarise cents (300 ∷ 100 ∷ 900 ∷ 200 ∷ []))
summarise-Percentiles_example =
    summarise-Percentiles cents cents-IsOrdered (300 ∷ 100 ∷ 900 ∷ 200 ∷ []) (λ e. cc)
      (refl, (refl, (refl, (refl, tt))))
