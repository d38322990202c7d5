-- ===== src/Json/Parser.antt =====
-- src/json.zig: arrays, objects and the whole document. `room` is `max_depth - self.depth`.
pub mod Cases
pub mod Total
pub mod Sound
pub mod Scalars
pub mod Accepted
pub mod Nesting
mod Tests
use zopa.Base.{ℕ, zero, suc, ◌+◌, Bool, true, false, ◌||◌, Option, none, some, List, [], ◌∷◌, ◌++◌}
use zopa.Base.Tests.{◌==◌, if◌then◌else◌}
use zopa.Base.Lists.{length, drop}
use zopa.Base.Text.{Text, starts_with}
use zopa.Base.Dict.{Dict}
use zopa.Json.Members.{add_member, finish_members}
use zopa.Json.Values.{
  Value, string, array, object, no_items, no_members, ParseError, unexpected_token, unexpected_eof,
  nesting_too_deep, Outcome, ok, error, no_fuel, then_with, Std, items_of, members_of,
}
use zopa.Json.Scan.{skip_ws, is_digit, expect, parse_bool, parse_null, parse_number}
use zopa.Json.Strings.{parse_string}

-- const max_depth
abbrev pub max_depth : ℕ
max_depth = 64

module _ {A : Type 0} where
  -- What stands between the parts of an array or an object.
  unfoldable pub separator : ℕ → Text → (Text → Outcome A) → (Text → Outcome A) → Outcome A
  separator close [] more finish = error unexpected_eof
  separator close (c ∷ s) more finish =
      let m = more s in
      let f = finish s in if c == b',' then m else if c == close then f else error unexpected_token

module _ {F : Type 0} (std : Std F) where
  -- One round of the loop of `parseObject`, up to the value.
  unfoldable pub parse_member : (Text → Outcome (Value F)) → Text → Outcome (Text × Value F)
  unfolding parse_string skip_ws expect
  parse_member pv s =
      then_with (parse_string std (skip_ws s))
        (λ k t. then_with (expect b':' (skip_ws t)) (λ _ u. then_with (pv u) (λ v w. ok (k, v) w)))

  -- The loop of `parseObject`.
  unfoldable pub object_loop :
      (Text → Outcome (Value F)) → ℕ → Dict (Value F) → Text → Outcome (Dict (Value F))
  unfolding parse_member separator add_member
  object_loop pv zero acc s = no_fuel
  object_loop pv (suc n) acc s = then_with (parse_member pv s) (λ e w.
      separator b'}' (skip_ws w) (λ r. object_loop pv n (add_member e.0 e.1 acc) r)
        (λ r. ok (add_member e.0 e.1 acc) r))

  abbrev pub object_of : Dict (Value F) → Value F
  object_of m = object (members_of (finish_members std.hash std.sort m))

  -- `parseObject` behind its brace.
  unfoldable pub object_body : (Text → Outcome (Value F)) → Text → Outcome (Value F)
  unfolding object_loop starts_with
  object_body pv t =
      let full = then_with (object_loop pv (suc (length t)) [] t) (λ m r. ok (object_of m) r) in
      if starts_with (b'}' ∷ []) t then ok (object no_members) (drop 1 t) else full

  -- `parseObject` behind `enter`.
  unfoldable pub parse_object : (Text → Outcome (Value F)) → Text → Outcome (Value F)
  unfolding object_body expect skip_ws
  parse_object pv s = then_with (expect b'{' s) (λ _ t. object_body pv (skip_ws t))

  -- The loop of `parseArray`.
  unfoldable pub array_loop :
      (Text → Outcome (Value F)) → ℕ → List (Value F) → Text → Outcome (List (Value F))
  unfolding separator skip_ws
  array_loop pv zero acc s = no_fuel
  array_loop pv (suc n) acc s = then_with (pv s) (λ v w.
      separator b']' (skip_ws w) (λ r. array_loop pv n (acc ++ v ∷ []) r)
        (λ r. ok (acc ++ v ∷ []) r))

  -- `parseArray` behind its bracket.
  unfoldable pub array_body : (Text → Outcome (Value F)) → Text → Outcome (Value F)
  unfolding array_loop starts_with
  array_body pv t =
      let full =
        then_with (array_loop pv (suc (length t)) [] t) (λ vs r. ok (array (items_of vs)) r) in
      if starts_with (b']' ∷ []) t then ok (array no_items) (drop 1 t) else full

  -- `parseArray` behind `enter`.
  unfoldable pub parse_array : (Text → Outcome (Value F)) → Text → Outcome (Value F)
  unfolding array_body expect skip_ws
  parse_array pv s = then_with (expect b'[' s) (λ _ t. array_body pv (skip_ws t))

  -- The `switch` of `parseValue`.
  unfoldable pub dispatch :
      (Text → Outcome (Value F)) → (Text → Outcome (Value F)) → Text → Outcome (Value F)
  unfolding parse_string parse_bool parse_null parse_number
  dispatch obj arr [] = error unexpected_eof
  dispatch obj arr (c ∷ s) =
      let o = obj (c ∷ s) in
      let a = arr (c ∷ s) in
      if c == b'{'
      then o
      else if c == b'['
      then a
      else if c == b'"'
      then then_with (parse_string std (c ∷ s)) (λ t r. ok (string t) r)
      else if (c == b't') || (c == b'f')
      then parse_bool (c ∷ s)
      else if c == b'n'
      then parse_null (c ∷ s)
      else if (c == b'-') || is_digit c
      then parse_number std (c ∷ s)
      else error unexpected_token

  -- fn parseValue
  unfoldable pub parse_value : ℕ → Text → Outcome (Value F)
  unfolding dispatch skip_ws parse_object parse_array
  parse_value zero s =
      dispatch (λ t. error nesting_too_deep) (λ t. error nesting_too_deep) (skip_ws s)
  parse_value (suc room) s =
      dispatch (parse_object (parse_value room)) (parse_array (parse_value room)) (skip_ws s)

  abbrev pub at_end : Value F → Text → Outcome (Value F)
  at_end v [] = ok v []
  at_end v (c ∷ s) = error unexpected_token

  -- fn parse
  unfoldable pub parse : Text → Outcome (Value F)
  unfolding parse_value skip_ws
  parse src = then_with (parse_value max_depth (skip_ws src)) (λ v r. at_end v (skip_ws r))
