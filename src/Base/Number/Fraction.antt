-- ===== src/Base/Number/Fraction.antt =====
-- Nonnegative fractions with their infinity (n/0) and their NaN (0/0), for the examples.
use zopa.Base.{ℕ, ◌+◌, ◌-◌, ◌*◌, ◌/◌, Bool, true, ◌&&◌, ◌||◌, not}
use zopa.Base.Tests.{ltb, leb, ◌==◌}
use zopa.Base.Number.{Numbers}

pub record Fraction : Type 0 where
  pub num : ℕ
  pub den : ℕ

abbrev is_nan : Fraction → Bool
is_nan a = (a.num == 0) && (a.den == 0)

abbrev pub fraction : ℕ → ℕ → Fraction
fraction n d = record { num = n; den = d }

abbrev pub fractions : Numbers
fractions = record {
  Num = Fraction;
  is_finite = λ a. not (a.den == 0);
  lt = λ a b. not (is_nan a || is_nan b) && ltb (a.num * b.den) (b.num * a.den);
  le = λ a b. not (is_nan a || is_nan b) && leb (a.num * b.den) (b.num * a.den);
  add = λ a b. fraction (a.num * b.den + b.num * a.den) (a.den * b.den);
  sub = λ a b. fraction (a.num * b.den - b.num * a.den) (a.den * b.den);
  div = λ a b. fraction (a.num * b.den) (a.den * b.num);
  of_nat = λ n. fraction n 1;
  floor_mul = λ n a. n * a.num / a.den;
}

-- Fixed-point numbers with two digits behind the point, rounded down.
abbrev pub cents : Numbers
cents = record {
  Num = ℕ;
  is_finite = λ a. true;
  lt = ltb;
  le = leb;
  add = λ a b. a + b;
  sub = λ a b. a - b;
  div = λ a b. a * 100 / b;
  of_nat = λ n. n * 100;
  floor_mul = λ n a. n * a / 100;
}
