-- ===== src/Json/Parser/Cases.antt =====
-- The results of the `switch` of `parseValue`, one by one.
use zopa.Base.{Bool, true, false, [], ◌∷◌}
use zopa.Base.Tests.{if◌then◌else◌}
use zopa.Base.Text.{Text}
use zopa.Json.Values.{
  Value, string, Outcome, ok, error, then_with, Std, unexpected_token, unexpected_eof,
}
use zopa.Json.Scan.{parse_bool, parse_null, parse_number}
use zopa.Json.Strings.{parse_string}
use zopa.Json.Parser.{dispatch}

if-elim : {A : Type 0} (P : A → Type 0) (b : Bool) (x y : A) → P x → P y → P (if b then x else y)
if-elim P true x y h g = h
if-elim P false x y h g = g

module _ {F : Type 0} (std : Std F) (P : Outcome (Value F) → Type 0) where
  pub dispatch-elim :
      (obj arr : Text → Outcome (Value F)) (s : Text)
      → P (error unexpected_eof)
      → P (obj s)
      → P (arr s)
      → P (then_with (parse_string std s) (λ t r. ok (string t) r))
      → P (parse_bool s)
      → P (parse_null s)
      → P (parse_number std s)
      → P (error unexpected_token)
      → P (dispatch std obj arr s)
  unfolding dispatch
  dispatch-elim obj arr [] e o a t b n m u = e
  dispatch-elim obj arr (c ∷ s) e o a t b n m u = if-elim P _ _ _ o (
      if-elim P _ _ _ a
        (if-elim P _ _ _ t (if-elim P _ _ _ b (if-elim P _ _ _ n (if-elim P _ _ _ m u)))))
