-- ===== src/Base/Number.antt =====
-- The interface of JavaScript's `Number`, as far as the harness computes with it, and what is
-- documented of its doubles. `Fraction` is a concrete instance for the examples.
pub mod Fraction
use zopa.Base.{ℕ, ◌≤◌, ◌≡◌, ◌⊎◌, Bool, true, false}

pub record Numbers : Type 1 where
  pub Num : Type 0
  -- `Number.isFinite(x)`, `a < b`, `a <= b`
  pub is_finite : Num → Bool
  pub lt : Num → Num → Bool
  pub le : Num → Num → Bool
  pub add : Num → Num → Num
  pub sub : Num → Num → Num
  pub div : Num → Num → Num
  -- `Number(n)`
  pub of_nat : ℕ → Num
  -- `Math.floor(n * x)`, for a count `n` and `0 <= x`
  pub floor_mul : ℕ → Num → ℕ

-- A number of hundredths, such as `0.95`.
abbrev pub hundredths : (N : Numbers) → ℕ → N.Num
hundredths N n = N.div (N.of_nat n) (N.of_nat 100)

-- The finite doubles are totally ordered, the numbers of hundredths stand in their order, and a
-- product with a count, rounded and floored, grows with the factor.
pub record IsOrdered (N : Numbers) : Type 0 where
  pub le_refl : (a : N.Num) → N.is_finite a ≡ true → N.le a a ≡ true
  pub le_trans : (a b c : N.Num) → N.le a b ≡ true → N.le b c ≡ true → N.le a c ≡ true
  pub le_total :
      (a b : N.Num)
      → N.is_finite a ≡ true
      → N.is_finite b ≡ true
      → (N.le a b ≡ true) ⊎ (N.le b a ≡ true)
  pub le-hundredths : (a b : ℕ) → a ≤ b → b ≤ 100 → N.le (hundredths N a) (hundredths N b) ≡ true
  pub floor_mul_mono : (n : ℕ) (a b : N.Num) → N.le a b ≡ true → N.floor_mul n a ≤ N.floor_mul n b

-- A JSON value where the program expects a number.
pub data JsValue (A : Type 0) : Type 0 where
  number : A → JsValue A
  other : JsValue A
