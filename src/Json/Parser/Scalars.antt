-- ===== src/Json/Parser/Scalars.antt =====
-- The values that the parser accepts by itself, with no array or object.
use zopa.Base.{ℕ, ◌-◌, Option, none, some}
use zopa.Base.Lists.{length}
use zopa.Base.Text.{Text, codes}
use zopa.Json.Values.{Value, number, string, Outcome, ok, error, Std, invalid_number}
use zopa.Json.Scan.{
  parse_bool, parse_null, parse_number, bool_from, null_from, number_from, number_text,
  match_literal, scan_number, take,
}
use zopa.Json.Strings.{parse_string}
use zopa.Json.Parser.{dispatch}
use zopa.Json.Parser.Cases.{dispatch-elim}
use zopa.Json.Parser.Sound.{IsSound, Accepts, Accepts-then_with, Accepts-if, any_result}

module _ {F : Type 0} (std : Std F) where
  -- A value that is no array, object or set is sound in any room.
  bool_from-Accepts :
      (room : ℕ) (o p : Option Text) → Accepts (IsSound {F = F} room) (bool_from o p)
  unfolding IsSound
  bool_from-Accepts room (some r) p = tt
  bool_from-Accepts room none (some r) = tt
  bool_from-Accepts room none none = tt

  null_from-Accepts : (room : ℕ) (o : Option Text) → Accepts (IsSound {F = F} room) (null_from o)
  unfolding IsSound
  null_from-Accepts room (some r) = tt
  null_from-Accepts room none = tt

  number_from-Accepts :
      (room : ℕ) (o : Option F) (r : Text) → Accepts (IsSound room) (number_from std o r)
  unfolding IsSound
  number_from-Accepts room none r = tt
  number_from-Accepts room (some f) r =
      Accepts-if (IsSound room) (std.is_inf f) (error invalid_number) (ok (number f) r) tt tt

  number_text-Accepts :
      (room : ℕ) (s : Text) (o : Option Text) → Accepts (IsSound room) (number_text std s o)
  number_text-Accepts room s none = tt
  number_text-Accepts room s (some r) =
      number_from-Accepts room (std.parse_float (take (length s - length r) s)) r

  pub dispatch-Accepts :
      (room : ℕ) (obj arr : Text → Outcome (Value F)) (s : Text)
      → Accepts (IsSound room) (obj s)
      → Accepts (IsSound room) (arr s)
      → Accepts (IsSound room) (dispatch std obj arr s)
  unfolding parse_bool parse_null parse_number IsSound
  dispatch-Accepts room obj arr s o a =
      dispatch-elim std (Accepts (IsSound room)) obj arr s tt o a
        (Accepts-then_with (λ _. Unit) (IsSound room) (parse_string std s) (λ t r. ok (string t) r)
          (any_result (λ _. Unit) (parse_string std s) (λ _. tt)) (λ t r _. tt))
        (bool_from-Accepts room (match_literal (codes "true") s) (match_literal (codes "false") s))
        (null_from-Accepts room (match_literal (codes "null") s))
        (number_text-Accepts room s (scan_number s)) tt
