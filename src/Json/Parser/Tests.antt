-- ===== src/Json/Parser/Tests.antt =====
-- Runs of the parser on small documents, with numbers as their texts and code points of one byte.
use zopa.Base.{ℕ, ◌+◌, ◌-◌, ◌*◌, ◌≡◌, ◌⊎◌, ◌↔◌, refl, ◌&&◌, Option, none, some, [], ◌∷◌, ◌++◌}
use zopa.Base.Tests.{ltb, leb, if◌then◌else◌}
use zopa.Base.Text.{Text, codes, same, starts_with}
use zopa.Base.Dict.{insert}
use zopa.Json.Members.{add_member, finish_members}
use zopa.Json.Members.InsertionSort.{insertion_sort, insertion_sort-IsSort}
use zopa.Json.Values.{
  Value, nil, number, array, object, no_items, no_members, member, ParseError, ok, error, Std,
  items_of, members_of, nesting_too_deep,
}
use zopa.Json.Scan
use zopa.Json.Parser.{
  max_depth, separator, parse_member, object_loop, object_body, parse_object, array_loop,
  array_body, parse_array, dispatch, parse_value, parse,
}
use zopa.Json.Parser.Sound.{IsSound}
use zopa.Json.Scan.{parse_number}
use zopa.Json.Scan.Numbers.{Reads, goes_on, parse_number_iff}
use zopa.Json.Parser.Nesting.{brackets, nested, parse-brackets}
use zopa.Json.Parser.Accepted.{parse-decides}

abbrev sum : Text → ℕ
sum [] = 0
sum (c ∷ s) = c + sum s

abbrev digit_of : ℕ → Option ℕ
digit_of c =
    if leb b'0' c && leb c b'9'
    then some (c - b'0')
    else if leb b'a' c && leb c b'f'
    then some (c - b'a' + 10)
    else if leb b'A' c && leb c b'F'
    then some (c - b'A' + 10)
    else none

abbrev with_digit : Option ℕ → Option ℕ → Option ℕ
with_digit (some a) (some d) = some (a * 16 + d)
with_digit _ _ = none

abbrev hex_from : Option ℕ → Text → Option ℕ
hex_from a [] = a
hex_from a (c ∷ s) = hex_from (with_digit a (digit_of c)) s

abbrev small_std : Std Text
small_std = record {
  hash = sum;
  sort = insertion_sort;
  parse_int = hex_from (some 0);
  utf8_encode = λ c. if leb c 127 then some (c ∷ []) else none;
  parse_float = λ t. some t;
  is_inf = λ t. same t (codes "1e999");
}

abbrev document : Text
document =
    codes " {"
    ++ b'"' ∷ codes "a"
    ++ b'"' ∷ codes ": [1, -2.5e+3,true] ,"
    ++ b'"' ∷ codes "b"
    ++ b'"' ∷ codes ":null, "
    ++ b'"' ∷ codes "\\u0061"
    ++ b'"' ∷ codes ":[] }"

document_run :
    parse small_std document
    ≡ ok (object (member (codes "a") (array no_items) (member (codes "b") nil no_members))) []
unfolding parse parse_value dispatch parse_array array_body array_loop parse_object object_body
    object_loop parse_member separator Scan.skip_ws add_member finish_members insert same
    starts_with items_of members_of
document_run = refl

parse-decides_example :
    ((v : Value Text) × (parse small_std document ≡ ok v []) × IsSound max_depth v)
    ⊎ ((e : ParseError) × (parse small_std document ≡ error e))
parse-decides_example = parse-decides small_std insertion_sort-IsSort document

parse-brackets_example :
    parse small_std (brackets 65 [])
    ≡ (if ltb 64 max_depth then ok (nested 64) [] else error nesting_too_deep)
parse-brackets_example = parse-brackets small_std 64

parse_number_iff_example :
    (parse_number small_std (codes "-12.5e+3,") ≡ ok (number (codes "-12.5e+3")) (codes ","))
    ↔ Reads small_std (codes "-12.5e+3,") (number (codes "-12.5e+3")) (codes ",")
unfolding goes_on
parse_number_iff_example =
    parse_number_iff small_std (codes "-12.5e+3,") (codes ",") (number (codes "-12.5e+3")) refl
