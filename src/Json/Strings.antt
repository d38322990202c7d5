-- ===== src/Json/Strings.antt =====
-- src/json.zig: strings and their escapes.
pub mod Shorter
use zopa.Base.{
  ℕ, zero, suc, ◌+◌, ◌-◌, ◌*◌, Bool, true, false, ◌&&◌, ◌||◌, not, Option, none, some, List, [],
  ◌∷◌, ◌++◌,
}
use zopa.Base.Tests.{ltb, leb, ◌==◌, if◌then◌else◌}
use zopa.Base.Lists.{length, drop}
use zopa.Base.Text.{Text, codes, starts_with}
use zopa.Json.Values.{
  ParseError, unexpected_eof, invalid_string, invalid_escape, invalid_unicode, Outcome, ok, error,
  then_with, Std,
}
use zopa.Json.Scan.{take, expect}

pub data Decoded (A : Type 0) : Type 0 where
  decoded : A → Decoded A
  broken : ParseError → Decoded A

-- The byte that an escape of one letter stands for.
unfoldable pub letter : ℕ → Option ℕ
letter e =
    if (e == b'"') || (e == b'\\') || (e == b'/')
    then some e
    else if e == b'b'
    then some 8
    else if e == b'f'
    then some 12
    else if e == b'n'
    then some 10
    else if e == b'r'
    then some 13
    else if e == b't'
    then some 9
    else none

abbrev pub encoded : Option Text → ℕ → Decoded (Text × ℕ)
encoded none n = broken invalid_unicode
encoded (some b) n = decoded (b, n)

abbrev pub letter_or : Option ℕ → Decoded (Text × ℕ) → Decoded (Text × ℕ)
letter_or (some b) d = decoded (b ∷ [], 1)
letter_or none d = d

abbrev pub put_before : Text → Decoded Text → Decoded Text
put_before b (broken e) = broken e
put_before b (decoded t) = decoded (b ++ t)

abbrev pub go_on : Decoded (Text × ℕ) → (ℕ → Decoded Text) → Decoded Text
go_on (broken e) f = broken e
go_on (decoded (b, n)) f = put_before b (f n)

-- The loop of `parseString`: behind a backslash or not, whether one was seen, the raw bytes.
unfoldable pub scan_string : Bool → Bool → Text → Text → Outcome (Bool × Text)
scan_string behind saw raw [] = error unexpected_eof
scan_string true saw raw (c ∷ s) = scan_string false saw (raw ++ c ∷ []) s
scan_string false saw raw (c ∷ s) =
    let rest = scan_string (c == b'\\') (saw || (c == b'\\')) (raw ++ c ∷ []) s in
    if c == b'"' then ok (saw, raw) s else (if ltb c 32 then error invalid_string else rest)

abbrev pub string_from : Decoded Text → Text → Outcome Text
string_from (decoded t) s = ok t s
string_from (broken e) s = error e

module _ {F : Type 0} (std : Std F) where
  abbrev pub surrogate_pair : ℕ → Option ℕ → Decoded (Text × ℕ)
  surrogate_pair cu1 none = broken invalid_unicode
  surrogate_pair cu1 (some cu2) =
      if ltb cu2 56_320 || ltb 57_343 cu2
      then broken invalid_unicode
      else encoded (std.utf8_encode (65_536 + (cu1 - 55_296) * 1_024 + (cu2 - 56_320))) 11

  -- After the four digits of the first unit.
  abbrev pub after_unit : Text → Option ℕ → Decoded (Text × ℕ)
  after_unit s none = broken invalid_unicode
  after_unit s (some cu1) =
      if leb 55_296 cu1 && leb cu1 56_319
      then (if ltb (length s) 6 || not (starts_with (b'\\' ∷ b'u' ∷ []) s)
          then broken invalid_unicode
          else surrogate_pair cu1 (std.parse_int (take 4 (drop 2 s))))
      else (if leb 56_320 cu1 && leb cu1 57_343
          then broken invalid_unicode
          else encoded (std.utf8_encode cu1) 5)

  unfoldable pub unicode_escape : Text → Decoded (Text × ℕ)
  unfolding starts_with take
  unicode_escape s =
      if ltb (length s) 4
      then broken invalid_unicode
      else after_unit (drop 4 s) (std.parse_int (take 4 s))

  -- The bytes of an escape, from behind its backslash, and how many it takes there.
  unfoldable pub escape : Text → Decoded (Text × ℕ)
  unfolding letter unicode_escape
  escape [] = broken unexpected_eof
  escape (e ∷ s) =
      letter_or (letter e) (if e == b'u' then unicode_escape s else broken invalid_escape)

  -- fn decodeEscapes, with how many bytes the escape before has taken already
  unfoldable pub decode_escapes : ℕ → Text → Decoded Text
  unfolding escape
  decode_escapes n [] = decoded []
  decode_escapes (suc n) (c ∷ s) = decode_escapes n s
  decode_escapes zero (c ∷ s) =
      go_on (if c == b'\\' then escape s else decoded (c ∷ [], 0)) (λ n. decode_escapes n s)

  abbrev pub raw_or_decoded : Bool × Text → Text → Outcome Text
  raw_or_decoded (saw, raw) s = if saw then string_from (decode_escapes 0 raw) s else ok raw s

  -- fn parseString
  unfoldable pub parse_string : Text → Outcome Text
  unfolding expect scan_string decode_escapes
  parse_string s =
      then_with (expect b'"' s) (λ _ t. then_with (scan_string false false [] t) raw_or_decoded)
