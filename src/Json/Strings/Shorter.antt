-- ===== src/Json/Strings/Shorter.antt =====
-- The bytes that a string leaves.
use zopa.Base.{ℕ, suc, ◌<◌, Bool, true, false, ◌||◌, [], ◌∷◌, ◌++◌, arith}
use zopa.Base.Tests.{ltb, ◌==◌, if◌then◌else◌}
use zopa.Base.Lists.{length}
use zopa.Base.Text.{Text}
use zopa.Json.Values.{ok, error, then_with, Std, invalid_string}
use zopa.Json.Scan.{expect}
use zopa.Json.Scan.Shorter.{Leaves, Leaves-then_with, Leaves-if, Leaves-mono, expect-Leaves}
use zopa.Json.Strings.{
  Decoded, decoded, broken, scan_string, string_from, raw_or_decoded, decode_escapes, parse_string,
}

scan_string-Leaves :
    (behind saw : Bool) (raw s : Text) → Leaves (length s) (scan_string behind saw raw s)
unfolding scan_string
scan_string-Leaves behind saw raw [] = tt
scan_string-Leaves true saw raw (c ∷ s) =
    Leaves-mono (length s) (suc (length s)) (scan_string false saw (raw ++ c ∷ []) s) (omega arith)
      (scan_string-Leaves false saw (raw ++ c ∷ []) s)
scan_string-Leaves false saw raw (c ∷ s) =
    let ih = scan_string-Leaves (c == b'\\') (saw || (c == b'\\')) (raw ++ c ∷ []) s in
    let rest = scan_string (c == b'\\') (saw || (c == b'\\')) (raw ++ c ∷ []) s in
    Leaves-if (suc (length s)) (c == b'"') (ok (saw, raw) s)
      (if ltb c 32 then error invalid_string else rest) (omega arith)
      (Leaves-if (suc (length s)) (ltb c 32) (error invalid_string) rest tt
        (Leaves-mono (length s) (suc (length s)) rest (omega arith) ih))

string_from-Leaves :
    (n : ℕ) (d : Decoded Text) (s : Text) → length s < n → Leaves n (string_from d s)
string_from-Leaves n (decoded t) s h = h
string_from-Leaves n (broken e) s h = tt

module _ {F : Type 0} (std : Std F) where
  raw_or_decoded-Leaves :
      (n : ℕ) (a : Bool × Text) (s : Text) → length s < n → Leaves n (raw_or_decoded std a s)
  raw_or_decoded-Leaves n (saw, raw) s h =
      Leaves-if n saw (string_from (decode_escapes std 0 raw) s) (ok raw s)
        (string_from-Leaves n (decode_escapes std 0 raw) s h) h

  pub parse_string-Leaves : (s : Text) → Leaves (length s) (parse_string std s)
  unfolding parse_string
  parse_string-Leaves s =
      Leaves-then_with (length s) (length s) (expect b'"' s)
        (λ _ t. then_with (scan_string false false [] t) (raw_or_decoded std))
        (expect-Leaves b'"' s)
        (λ _ t h.
          Leaves-then_with (length t) (length s) (scan_string false false [] t) (raw_or_decoded std)
            (scan_string-Leaves false false [] t)
            (λ a r l. raw_or_decoded-Leaves (length s) a r (omega arith)))
