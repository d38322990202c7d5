-- ===== src/Json/Values.antt =====
-- src/json.zig: the values, the errors, and the functions of Zig's standard library that the parser
-- calls, which are parameters. An allocation does not fail here.
use zopa.Base.{ℕ, Bool, Option, List, ◌∷◌}
use zopa.Base.Text.{Text}
use zopa.Base.Dict.{Dict}
use zopa.Json.Members.{Slot}

mutual
  -- const Value
  pub data Value (F : Type 0) : Type 0 where
    nil : Value F
    boolean : Bool → Value F
    number : F → Value F
    string : Text → Value F
    array : Items F → Value F
    object : Members F → Value F
    set : Items F → Value F

  -- []const Value
  pub data Items (F : Type 0) : Type 0 where
    no_items : Items F
    item : Value F → Items F → Items F

  -- []const Member
  pub data Members (F : Type 0) : Type 0 where
    no_members : Members F
    member : Text → Value F → Members F → Members F

-- const ParseError
pub data ParseError : Type 0 where
  unexpected_token : ParseError
  unexpected_eof : ParseError
  invalid_number : ParseError
  invalid_string : ParseError
  invalid_escape : ParseError
  invalid_unicode : ParseError
  invalid_literal : ParseError
  nesting_too_deep : ParseError

-- A result with the bytes that are left, or an error. `no_fuel` is no result of the code.
pub data Outcome (A : Type 0) : Type 0 where
  ok : A → Text → Outcome A
  error : ParseError → Outcome A
  no_fuel : Outcome A

abbrev pub then_with : {A B : Type 0} → Outcome A → (A → Text → Outcome B) → Outcome B
then_with (ok a s) f = f a s
then_with (error e) f = error e
then_with no_fuel f = no_fuel

-- `Fnv1a_32.hash`, `std.sort.heap`, `parseInt(u16, _, 16)`, `utf8Encode`, `parseFloat(f64, _)` and
-- `isInf`.
pub record Std (F : Type 0) : Type 0 where
  pub hash : Text → ℕ
  pub sort : (Slot → Slot → Bool) → List Slot → List Slot
  pub parse_int : Text → Option ℕ
  pub utf8_encode : ℕ → Option Text
  pub parse_float : Text → Option F
  pub is_inf : F → Bool

module _ {F : Type 0} where
  unfoldable pub items_of : List (Value F) → Items F
  items_of List.[] = no_items
  items_of (v ∷ vs) = item v (items_of vs)

  unfoldable pub members_of : Dict (Value F) → Members F
  members_of List.[] = no_members
  members_of ((k, v) ∷ m) = member k v (members_of m)
