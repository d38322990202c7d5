-- ===== src/Base/Text.antt =====
-- JavaScript strings as lists of code units, with the operations that the harness uses.
pub mod Keys
use Prim.Native.Nat.{ℕ}
use Prim.Native.Char.{code}
use Prim.Native.String.{String}
use mathlib.Core.Path.{◌≡◌, refl}
use mathlib.Core.Logic.{◌↔◌}
use mathlib.Core.Bool.{Bool, true, false, ◌&&◌}
use mathlib.Core.List.{List, [], ◌∷◌, ◌++◌}
use native.Mathlib.Omega.{arith}
use zopa.Base.Tests.{◌==◌, eq_of_==, and_left, and_right}

abbrev pub Text : Type 0
Text = List ℕ

-- The code units of an ASCII literal.
abbrev pub codes : String → Text
codes String.[] = []
codes (String.◌∷◌ c s) = code c ∷ codes s

-- `a === b` on strings.
unfoldable pub same : Text → Text → Bool
same [] [] = true
same [] (y ∷ ys) = false
same (x ∷ xs) [] = false
same (x ∷ xs) (y ∷ ys) = (x == y) && same xs ys

pub same_self : (a : Text) → same a a ≡ true
unfolding same
same_self [] = refl
same_self (x ∷ xs) = ground (arith, same_self xs)

pub eq_of_same : (a b : Text) → same a b ≡ true → a ≡ b
unfolding same
eq_of_same [] [] h = refl
eq_of_same [] (y ∷ ys) h = cc
eq_of_same (x ∷ xs) [] h = cc
eq_of_same (x ∷ xs) (y ∷ ys) h = ground (
  arith,
  eq_of_== x y (and_left (x == y) (same xs ys) h),
  eq_of_same xs ys (and_right (x == y) (same xs ys) h),
)

pub same_iff : (a b : Text) → (same a b ≡ true) ↔ (a ≡ b)
same_iff a b = (eq_of_same a b, λ e. ground (arith, same_self a))

-- `text.startsWith(prefix)`, prefix first.
unfoldable pub starts_with : Text → Text → Bool
starts_with [] s = true
starts_with (c ∷ p) [] = false
starts_with (c ∷ p) (d ∷ s) = (c == d) && starts_with p s

pub starts_with-append : (p s : Text) → starts_with p (p ++ s) ≡ true
unfolding starts_with
starts_with-append [] s = refl
starts_with-append (c ∷ p) s = ground (arith, starts_with-append p s)

-- `text.includes(c)` for one code unit.
unfoldable pub has : ℕ → Text → Bool
has c [] = false
has c (d ∷ s) = elim (c == d) [ true ↦ true | false ↦ has c s ]
