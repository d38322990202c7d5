-- ===== src/Json/Scan.antt =====
-- src/json.zig: white space, literals, numbers and strings. The parser's position is the list of the
-- bytes that are left.
pub mod Shorter
pub mod Grammar
pub mod Numbers
use zopa.Base.{
  ℕ, zero, suc, ◌+◌, ◌-◌, ◌*◌, Bool, true, false, ◌&&◌, ◌||◌, not, Option, none, some, List, [],
  ◌∷◌, ◌++◌,
}
use zopa.Base.Tests.{ltb, leb, ◌==◌, if◌then◌else◌}
use zopa.Base.Lists.{length, drop}
use zopa.Base.Text.{Text, codes, starts_with}
use zopa.Json.Values.{
  Value, nil, boolean, number, ParseError, unexpected_token, unexpected_eof, invalid_number,
  invalid_string, invalid_escape, invalid_unicode, invalid_literal, Outcome, ok, error, then_with,
  Std,
}

abbrev pub is_ws : ℕ → Bool
is_ws c = (c == b' ') || (c == 9) || (c == 10) || (c == 13)

unfoldable pub skip_ws : Text → Text
skip_ws [] = []
skip_ws (c ∷ s) = let rest = skip_ws s in if is_ws c then rest else c ∷ s

abbrev pub is_digit : ℕ → Bool
is_digit c = leb b'0' c && leb c b'9'

unfoldable pub has_digit : Text → Bool
has_digit [] = false
has_digit (c ∷ s) = is_digit c

unfoldable pub skip_digits : Text → Text
skip_digits [] = []
skip_digits (c ∷ s) = let rest = skip_digits s in if is_digit c then rest else c ∷ s

-- fn matchLiteral
unfoldable pub match_literal : Text → Text → Option Text
match_literal lit s = if starts_with lit s then some (drop (length lit) s) else none

unfoldable pub take : ℕ → Text → Text
take zero s = []
take (suc n) [] = []
take (suc n) (c ∷ s) = c ∷ take n s

unfoldable pub skip_one : ℕ → Text → Text
skip_one c [] = []
skip_one c (d ∷ s) = if d == c then s else d ∷ s

-- The int part, with `lead` peeked.
unfoldable pub scan_int : Text → Option Text
unfolding has_digit skip_digits
scan_int [] = none
scan_int (lead ∷ s) =
    if lead == b'0'
    then (if has_digit s then none else some s)
    else (if leb b'1' lead && leb lead b'9' then some (skip_digits s) else none)

-- The digits that must follow.
unfoldable pub scan_digits : Text → Option Text
unfolding has_digit skip_digits
scan_digits s = if has_digit s then some (skip_digits s) else none

unfoldable pub scan_frac : Text → Option Text
unfolding scan_digits
scan_frac [] = some []
scan_frac (c ∷ s) = if c == b'.' then scan_digits s else some (c ∷ s)

unfoldable pub skip_sign : Text → Text
skip_sign [] = []
skip_sign (c ∷ s) = if (c == b'+') || (c == b'-') then s else c ∷ s

unfoldable pub scan_exp : Text → Option Text
unfolding scan_digits skip_sign
scan_exp [] = some []
scan_exp (c ∷ s) = if (c == b'e') || (c == b'E') then scan_digits (skip_sign s) else some (c ∷ s)

abbrev pub and_then : Option Text → (Text → Option Text) → Option Text
and_then none f = none
and_then (some s) f = f s

-- The grammar of `parseNumber`: what is left behind the number.
unfoldable pub scan_number : Text → Option Text
unfolding skip_one scan_int scan_frac scan_exp
scan_number s = and_then (and_then (scan_int (skip_one b'-' s)) scan_frac) scan_exp

module _ {F : Type 0} (std : Std F) where
  abbrev pub number_from : Option F → Text → Outcome (Value F)
  number_from none rest = error invalid_number
  number_from (some f) rest = if std.is_inf f then error invalid_number else ok (number f) rest

  abbrev pub number_text : Text → Option Text → Outcome (Value F)
  number_text s none = error invalid_number
  number_text s (some rest) = number_from (std.parse_float (take (length s - length rest) s)) rest

  -- fn parseNumber
  unfoldable pub parse_number : Text → Outcome (Value F)
  unfolding scan_number take
  parse_number s = number_text s (scan_number s)

module _ {F : Type 0} where
  abbrev pub bool_from : Option Text → Option Text → Outcome (Value F)
  bool_from (some rest) o = ok (boolean true) rest
  bool_from none (some rest) = ok (boolean false) rest
  bool_from none none = error invalid_literal

  -- fn parseBool
  unfoldable pub parse_bool : Text → Outcome (Value F)
  unfolding match_literal
  parse_bool s = bool_from (match_literal (codes "true") s) (match_literal (codes "false") s)

  abbrev pub null_from : Option Text → Outcome (Value F)
  null_from (some rest) = ok nil rest
  null_from none = error invalid_literal

  -- fn parseNull
  unfoldable pub parse_null : Text → Outcome (Value F)
  unfolding match_literal
  parse_null s = null_from (match_literal (codes "null") s)

-- fn expect
unfoldable pub expect : ℕ → Text → Outcome Unit
expect c [] = error unexpected_eof
expect c (d ∷ s) = if d == c then ok tt s else error unexpected_token
