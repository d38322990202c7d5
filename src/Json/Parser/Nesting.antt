-- ===== src/Json/Parser/Nesting.antt =====
-- Arrays in arrays, against the limit on the nesting.
use zopa.Base.{ℕ, zero, suc, ◌≤◌, ◌≡◌, refl, sym, ap, ◌∙◌, Bool, inl, inr, List, [], ◌∷◌, arith}
use zopa.Base.Tests.{ltb, if◌then◌else◌, Bool-cases}
use zopa.Base.Lists.{length}
use zopa.Base.Text.{Text, starts_with}
use zopa.Json.Values.{
  Value, array, no_items, item, Outcome, ok, error, then_with, Std, items_of, nesting_too_deep,
}
use zopa.Json.Scan.{skip_ws, expect}
use zopa.Json.Parser.{
  max_depth, separator, array_loop, array_body, parse_array, parse_object, dispatch, parse_value,
  at_end, parse,
}

-- So many brackets, around nothing, before the rest.
unfoldable pub brackets : ℕ → Text → Text
brackets zero rest = rest
brackets (suc n) rest = b'[' ∷ brackets n (b']' ∷ rest)

module _ {F : Type 0} where
  unfoldable pub nested : ℕ → Value F
  nested zero = array no_items
  nested (suc n) = array (item (nested n) no_items)

module _ {F : Type 0} (std : Std F) where
  skip_ws-brackets : (n : ℕ) (rest : Text) → skip_ws (brackets (suc n) rest) ≡ brackets (suc n) rest
  unfolding skip_ws brackets
  skip_ws-brackets n rest = refl

  dispatch-brackets :
      (obj arr : Text → Outcome (Value F)) (n : ℕ) (rest : Text)
      → dispatch std obj arr (brackets (suc n) rest) ≡ arr (brackets (suc n) rest)
  unfolding dispatch brackets
  dispatch-brackets obj arr n rest = refl

  abbrev closed : Outcome (List (Value F)) → Outcome (Value F)
  closed r = then_with r (λ vs t. ok (array (items_of vs)) t)

  -- An array around a text that the value parser reads in the way r.
  array_body-item :
      (pv : Text → Outcome (Value F)) (n : ℕ) (rest : Text)
      → array_body std pv (brackets (suc n) rest)
        ≡ closed
            (array_loop std pv (suc (length (brackets (suc n) rest))) [] (brackets (suc n) rest))
  unfolding array_body brackets starts_with
  array_body-item pv n rest = refl

  parse_array-brackets :
      (pv : Text → Outcome (Value F)) (n : ℕ) (rest : Text)
      → parse_array std pv (brackets (suc (suc n)) rest)
        ≡ array_body std pv (brackets (suc n) (b']' ∷ rest))
  unfolding parse_array brackets expect skip_ws
  parse_array-brackets pv n rest = refl

  parse_array-empty :
      (pv : Text → Outcome (Value F)) (rest : Text)
      → parse_array std pv (brackets 1 rest) ≡ ok (array no_items) rest
  unfolding parse_array brackets expect skip_ws array_body starts_with
  parse_array-empty pv rest = refl

  array_loop-error :
      (pv : Text → Outcome (Value F)) (k : ℕ) (s : Text)
      → pv s ≡ error nesting_too_deep
      → array_loop std pv (suc k) [] s ≡ error nesting_too_deep
  unfolding array_loop
  array_loop-error pv k s h = rw h

  array_loop-one :
      (pv : Text → Outcome (Value F)) (k : ℕ) (s : Text) (v : Value F) (rest : Text)
      → pv s ≡ ok v (b']' ∷ rest)
      → array_loop std pv (suc k) [] s ≡ ok (v ∷ []) rest
  unfolding array_loop separator skip_ws
  array_loop-one pv k s v rest h = rw h

  value-brackets :
      (room n : ℕ) (rest : Text)
      → parse_value std (suc room) (brackets (suc n) rest)
        ≡ parse_array std (parse_value std room) (brackets (suc n) rest)
  unfolding parse_value
  value-brackets room n rest =
      let pv = parse_value std room in
      ap (dispatch std (parse_object std pv) (parse_array std pv)) (skip_ws-brackets n rest)
      ∙ dispatch-brackets (parse_object std pv) (parse_array std pv) n rest

  too_deep :
      (room n : ℕ) (rest : Text)
      → room ≤ n
      → parse_value std room (brackets (suc n) rest) ≡ error nesting_too_deep
  unfolding parse_value
  too_deep zero n rest h =
      ap (dispatch std (λ t. error nesting_too_deep) (λ t. error nesting_too_deep))
        (skip_ws-brackets n rest)
      ∙ dispatch-brackets (λ t. error nesting_too_deep) (λ t. error nesting_too_deep) n rest
  too_deep (suc room) zero rest h = absurd (omega arith)
  too_deep (suc room) (suc n) rest h =
      let pv = parse_value std room in
      let t = brackets (suc n) (b']' ∷ rest) in
      value-brackets room (suc n) rest
      ∙ parse_array-brackets pv n rest
      ∙ array_body-item pv n (b']' ∷ rest)
      ∙ ap closed (array_loop-error pv (length t) t (too_deep room n (b']' ∷ rest) (omega arith)))

  deep_enough :
      (room n : ℕ) (rest : Text)
      → n ≤ room
      → parse_value std (suc room) (brackets (suc n) rest) ≡ ok (nested n) rest
  unfolding nested items_of
  deep_enough room zero rest h =
      value-brackets room 0 rest ∙ parse_array-empty (parse_value std room) rest
  deep_enough zero (suc n) rest h = absurd (omega arith)
  deep_enough (suc room) (suc n) rest h =
      let pv = parse_value std (suc room) in
      let t = brackets (suc n) (b']' ∷ rest) in
      value-brackets (suc room) (suc n) rest
      ∙ parse_array-brackets pv n rest
      ∙ array_body-item pv n (b']' ∷ rest)
      ∙ ap closed (
          array_loop-one pv (length t) t (nested n) rest
            (deep_enough room n (b']' ∷ rest) (omega arith)))

  abbrev ended : Outcome (Value F) → Outcome (Value F)
  ended r = then_with r (λ v t. at_end std v (skip_ws t))

  parse-ended :
      (room n : ℕ)
      → ended (parse_value std room (skip_ws (brackets (suc n) [])))
        ≡ ended (parse_value std room (brackets (suc n) []))
  parse-ended room n = ap (λ t. ended (parse_value std room t)) (skip_ws-brackets n [])

  ended-nested : (n : ℕ) → ended (ok (nested n) []) ≡ ok (nested n) []
  unfolding skip_ws
  ended-nested n = refl

  abbrev within : ℕ → Bool → Outcome (Value F)
  within n b = if b then ok (nested n) [] else error nesting_too_deep

  -- Of arrays that hold one array each, down to an empty one, up to `max_depth` are read as they stand,
  -- and with one more or any number more the parser gives the error that they nest too deep.
  pub parse-brackets :
      (n : ℕ)
      → parse std (brackets (suc n) [])
        ≡ (if ltb n max_depth then ok (nested n) [] else error nesting_too_deep)
  unfolding parse
  parse-brackets n = elim (Bool-cases (ltb n max_depth)) [
    | inl e ↦
        parse-ended max_depth n
        ∙ ap ended (deep_enough 63 n [] (ground arith))
        ∙ ended-nested n
        ∙ ap (within n) (sym e)
    | inr e ↦
        parse-ended max_depth n
        ∙ ap ended (too_deep max_depth n [] (ground arith))
        ∙ ap (within n) (sym e)
  ]
