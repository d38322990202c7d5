-- ===== src/Json/Scan/Shorter.antt =====
-- The bytes that the steps of the parser leave.
use zopa.Base.{
  ℕ, zero, suc, ◌-◌, ◌≤◌, ◌<◌, ◌≡◌, Bool, true, false, ◌||◌, inl, inr, Option, none, some, [], ◌∷◌,
  arith,
}
use zopa.Base.Tests.{◌==◌, if◌then◌else◌, Bool-cases}
use zopa.Base.Lists.{length, drop}
use zopa.Base.Text.{Text, codes, starts_with}
use zopa.Json.Values.{
  number, Outcome, ok, error, no_fuel, then_with, Std, unexpected_token, invalid_number,
}
use zopa.Json.Scan.{
  skip_ws, has_digit, skip_digits, match_literal, skip_one, scan_int, scan_digits, scan_frac,
  skip_sign, scan_exp, and_then, scan_number, number_text, number_from, parse_number, parse_bool,
  parse_null, bool_from, null_from, expect, take,
}

-- A result, which leaves fewer than n bytes if it is no error.
abbrev pub Leaves : {A : Type 0} → ℕ → Outcome A → Type 0
Leaves n (ok a s) = length s < n
Leaves n (error e) = Unit
Leaves n no_fuel = ⊥

module _ {A B : Type 0} where
  pub Leaves-then_with :
      (n k : ℕ) (r : Outcome A) (f : A → Text → Outcome B)
      → Leaves n r
      → ((a : A) (s : Text) → length s < n → Leaves k (f a s))
      → Leaves k (then_with r f)
  Leaves-then_with n k (ok a s) f h g = g a s h
  Leaves-then_with n k (error e) f h g = tt
  Leaves-then_with n k no_fuel f h g = h

module _ {A : Type 0} where
  pub Leaves-if :
      (n : ℕ) (b : Bool) (r q : Outcome A) → Leaves n r → Leaves n q → Leaves n (if b then r else q)
  Leaves-if n true r q h g = h
  Leaves-if n false r q h g = g

  pub Leaves-mono : (n k : ℕ) (r : Outcome A) → n ≤ k → Leaves n r → Leaves k r
  Leaves-mono n k (ok a s) l h = omega arith
  Leaves-mono n k (error e) l h = tt
  Leaves-mono n k no_fuel l h = h

abbrev LeavesText : ℕ → Option Text → Type 0
LeavesText n none = Unit
LeavesText n (some s) = length s < n

LeavesText-and_then :
    (n k : ℕ) (o : Option Text) (f : Text → Option Text)
    → LeavesText n o
    → ((s : Text) → length s < n → LeavesText k (f s))
    → LeavesText k (and_then o f)
LeavesText-and_then n k none f h g = tt
LeavesText-and_then n k (some s) f h g = g s h

LeavesText-mono : (n k : ℕ) (o : Option Text) → n ≤ k → LeavesText n o → LeavesText k o
LeavesText-mono n k none l h = tt
LeavesText-mono n k (some s) l h = omega arith

LeavesText-if :
    (n : ℕ) (b : Bool) (o p : Option Text)
    → LeavesText n o
    → LeavesText n p
    → LeavesText n (if b then o else p)
LeavesText-if n true o p h g = h
LeavesText-if n false o p h g = g

pub length-skip_ws : (s : Text) → length (skip_ws s) ≤ length s
unfolding skip_ws
length-skip_ws [] = omega arith
length-skip_ws (c ∷ s) = ground (arith, length-skip_ws s)

length-skip_digits : (s : Text) → length (skip_digits s) ≤ length s
unfolding skip_digits
length-skip_digits [] = omega arith
length-skip_digits (c ∷ s) = ground (arith, length-skip_digits s)

length-skip_one : (c : ℕ) (s : Text) → length (skip_one c s) ≤ length s
unfolding skip_one
length-skip_one c [] = omega arith
length-skip_one c (d ∷ s) = ground arith

length-skip_sign : (s : Text) → length (skip_sign s) ≤ length s
unfolding skip_sign
length-skip_sign [] = omega arith
length-skip_sign (d ∷ s) = ground arith

scan_int-Leaves : (s : Text) → LeavesText (length s) (scan_int s)
unfolding scan_int
scan_int-Leaves [] = tt
scan_int-Leaves (c ∷ s) = ground (arith, length-skip_digits s)

scan_digits-Leaves : (s : Text) → LeavesText (length s) (scan_digits s)
unfolding scan_digits has_digit skip_digits
scan_digits-Leaves [] = tt
scan_digits-Leaves (c ∷ s) = ground (arith, length-skip_digits s)

scan_frac-Leaves : (s : Text) → LeavesText (suc (length s)) (scan_frac s)
unfolding scan_frac
scan_frac-Leaves [] = omega arith
scan_frac-Leaves (c ∷ s) =
    LeavesText-if (suc (length (c ∷ s))) (c == b'.') (scan_digits s) (some (c ∷ s))
      (LeavesText-mono (length s) (suc (length (c ∷ s))) (scan_digits s) (omega arith)
        (scan_digits-Leaves s))
      (omega arith)

scan_exp-Leaves : (s : Text) → LeavesText (suc (length s)) (scan_exp s)
unfolding scan_exp
scan_exp-Leaves [] = omega arith
scan_exp-Leaves (c ∷ s) =
    LeavesText-if (suc (length (c ∷ s))) ((c == b'e') || (c == b'E')) (scan_digits (skip_sign s))
      (some (c ∷ s))
      (LeavesText-mono (length (skip_sign s)) (suc (length (c ∷ s))) (scan_digits (skip_sign s))
        (omega (arith, length-skip_sign s)) (scan_digits-Leaves (skip_sign s)))
      (omega arith)

scan_number-Leaves : (s : Text) → LeavesText (length s) (scan_number s)
unfolding scan_number
scan_number-Leaves s =
    LeavesText-and_then (length s) (length s) (and_then (scan_int (skip_one b'-' s)) scan_frac)
      scan_exp
      (LeavesText-and_then (length s) (length s) (scan_int (skip_one b'-' s)) scan_frac
        (LeavesText-mono (length (skip_one b'-' s)) (length s) (scan_int (skip_one b'-' s))
          (length-skip_one b'-' s) (scan_int-Leaves (skip_one b'-' s)))
        (λ t l. LeavesText-mono (suc (length t)) (length s) (scan_frac t) l (scan_frac-Leaves t)))
      (λ t l. LeavesText-mono (suc (length t)) (length s) (scan_exp t) l (scan_exp-Leaves t))

pub length-drop : (n : ℕ) (s : Text) → length (drop n s) ≤ length s
length-drop zero s = omega arith
length-drop (suc n) [] = omega arith
length-drop (suc n) (c ∷ s) = omega (arith, length-drop n s)

pub length-drop_prefix :
    (c : ℕ) (lit s : Text)
    → starts_with (c ∷ lit) s ≡ true
    → length (drop (length (c ∷ lit)) s) < length s
unfolding starts_with
length-drop_prefix c lit [] h = absurd (cc)
length-drop_prefix c lit (d ∷ s) h = omega (arith, length-drop (length lit) s)

match_literal-Leaves : (c : ℕ) (lit s : Text) → LeavesText (length s) (match_literal (c ∷ lit) s)
unfolding match_literal
match_literal-Leaves c lit s = elim (Bool-cases (starts_with (c ∷ lit) s)) [
  | inl e ↦ rw e (length-drop_prefix c lit s e)
  | inr e ↦ rw e tt
]

pub expect-Leaves : (c : ℕ) (s : Text) → Leaves (length s) (expect c s)
unfolding expect
expect-Leaves c [] = tt
expect-Leaves c (d ∷ s) =
    Leaves-if (length (d ∷ s)) (d == c) (ok tt s) (error unexpected_token) (omega arith) tt

module _ {F : Type 0} (std : Std F) where
  pub parse_bool-Leaves : (s : Text) → Leaves (length s) (parse_bool {F = F} s)
  unfolding parse_bool
  parse_bool-Leaves s =
      go (match_literal (codes "true") s) (match_literal (codes "false") s)
        (match_literal-Leaves b't' (codes "rue") s) (match_literal-Leaves b'f' (codes "alse") s)
    where
      go :
          (o p : Option Text)
          → LeavesText (length s) o
          → LeavesText (length s) p
          → Leaves (length s) (bool_from {F = F} o p)
      go (some r) p h g = h
      go none (some r) h g = g
      go none none h g = tt

  pub parse_null-Leaves : (s : Text) → Leaves (length s) (parse_null {F = F} s)
  unfolding parse_null
  parse_null-Leaves s =
      go (match_literal (codes "null") s) (match_literal-Leaves b'n' (codes "ull") s)
    where
      go : (o : Option Text) → LeavesText (length s) o → Leaves (length s) (null_from {F = F} o)
      go (some r) h = h
      go none h = tt

  pub parse_number-Leaves : (s : Text) → Leaves (length s) (parse_number std s)
  unfolding parse_number
  parse_number-Leaves s = go (scan_number s) (scan_number-Leaves s)
    where
      from :
          (o : Option F) (r : Text) → length r < length s → Leaves (length s) (number_from std o r)
      from none r h = tt
      from (some f) r h =
          Leaves-if (length s) (std.is_inf f) (error invalid_number) (ok (number f) r) tt h

      go : (o : Option Text) → LeavesText (length s) o → Leaves (length s) (number_text std s o)
      go none h = tt
      go (some r) h = from (std.parse_float (take (length s - length r) s)) r h
