-- ===== src/Base/Integers.antt =====
-- The integers that a wasm export returns.
use Prim.Native.Nat.{ℕ, zero, suc}
use mathlib.Core.Path.{◌≡◌}
use mathlib.Core.Logic.{◌≢◌, ◌⊎◌, inl, inr}
use mathlib.Core.Bool.{Bool, true, false}
use native.Mathlib.Omega.{arith}
use zopa.Base.Tests.{same_or_not}

pub data ℤ : Type 0 where
  pos : ℕ → ℤ
  negsuc : ℕ → ℤ

-- `0 < n`, so that `n <= 0` is its negation
abbrev pub is_positive : ℤ → Bool
is_positive (pos zero) = false
is_positive (pos (suc _)) = true
is_positive (negsuc _) = false

pub same_or_not_integer : (m n : ℤ) → (m ≡ n) ⊎ (m ≢ n)
same_or_not_integer (pos a) (pos b) = elim (same_or_not a b) [
  | inl e ↦ inl (cc)
  | inr k ↦ inr (λ e. k (ground arith))
]
same_or_not_integer (negsuc a) (negsuc b) = elim (same_or_not a b) [
  | inl e ↦ inl (cc)
  | inr k ↦ inr (λ e. k (ground arith))
]
same_or_not_integer (pos a) (negsuc b) = inr (λ e. cc)
same_or_not_integer (negsuc a) (pos b) = inr (λ e. cc)
