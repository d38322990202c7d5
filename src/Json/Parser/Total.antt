-- ===== src/Json/Parser/Total.antt =====
-- The rounds that the loops of the parser are given, against the bytes that its steps take.
use zopa.Base.{ℕ, zero, suc, ◌<◌, inl, inr, List, [], ◌∷◌, ◌++◌, arith}
use zopa.Base.Tests.{◌==◌, if◌then◌else◌, Bool-cases}
use zopa.Base.Lists.{length}
use zopa.Base.Text.{Text, starts_with}
use zopa.Base.Dict.{Dict}
use zopa.Json.Members.{add_member}
use zopa.Json.Values.{
  Value, array, string, Outcome, ok, error, then_with, Std, items_of, unexpected_token,
  nesting_too_deep,
}
use zopa.Json.Scan.{skip_ws, expect}
use zopa.Json.Scan.Shorter.{
  Leaves, Leaves-then_with, Leaves-if, Leaves-mono, expect-Leaves, length-skip_ws,
  length-drop_prefix, parse_bool-Leaves, parse_null-Leaves, parse_number-Leaves,
}
use zopa.Json.Strings.{parse_string}
use zopa.Json.Strings.Shorter.{parse_string-Leaves}
use zopa.Json.Parser.Cases.{dispatch-elim}
use zopa.Json.Parser.{
  max_depth, separator, parse_member, object_loop, object_of, object_body, parse_object, array_loop,
  array_body, parse_array, dispatch, parse_value, at_end, parse,
}

module _ {A : Type 0} where
  separator-Leaves :
      (n close : ℕ) (s : Text) (more finish : Text → Outcome A)
      → length s < n
      → ((t : Text) → length t < length s → Leaves n (more t))
      → ((t : Text) → length t < length s → Leaves n (finish t))
      → Leaves n (separator close s more finish)
  unfolding separator
  separator-Leaves n close [] more finish h f g = tt
  separator-Leaves n close (c ∷ s) more finish h f g =
      Leaves-if n (c == b',') (more s) (if c == close then finish s else error unexpected_token)
        (f s (omega arith))
        (Leaves-if n (c == close) (finish s) (error unexpected_token) (g s (omega arith)) tt)

module _ {F : Type 0} (std : Std F) where
  abbrev pub IsTotal : (Text → Outcome (Value F)) → Type 0
  IsTotal pv = (s : Text) → Leaves (length s) (pv s)

  -- `dispatch` is as total as what it calls.
  dispatch-IsTotal :
      (obj arr : Text → Outcome (Value F))
      → IsTotal obj
      → IsTotal arr
      → IsTotal (dispatch std obj arr)
  dispatch-IsTotal obj arr o a s =
      dispatch-elim std (Leaves (length s)) obj arr s tt (o s) (a s)
        (Leaves-then_with (length s) (length s) (parse_string std s) (λ t r. ok (string t) r)
          (parse_string-Leaves std s) (λ t r l. l))
        (parse_bool-Leaves std s) (parse_null-Leaves std s) (parse_number-Leaves std s) tt

  module _ (pv : Text → Outcome (Value F)) (total : IsTotal pv) where
    parse_member-Leaves : (s : Text) → Leaves (length s) (parse_member std pv s)
    unfolding parse_member
    parse_member-Leaves s =
        Leaves-then_with (length s) (length s) (parse_string std (skip_ws s)) colon
          (Leaves-mono (length (skip_ws s)) (length s) (parse_string std (skip_ws s))
            (length-skip_ws s) (parse_string-Leaves std (skip_ws s)))
          (λ k t l.
            Leaves-then_with (length (skip_ws t)) (length s) (expect b':' (skip_ws t)) (valued k)
              (expect-Leaves b':' (skip_ws t))
              (λ _ u m.
                Leaves-then_with (length u) (length s) (pv u) (λ v w. ok (k, v) w) (total u)
                  (λ v w q. omega (arith, length-skip_ws t))))
      where
        valued : Text → Unit {0} → Text → Outcome (Text × Value F)
        valued k _ u = then_with (pv u) (λ v w. ok (k, v) w)

        colon : Text → Text → Outcome (Text × Value F)
        colon k t = then_with (expect b':' (skip_ws t)) (valued k)

    object_loop-Leaves :
        (n : ℕ) (acc : Dict (Value F)) (s : Text)
        → length s < n
        → Leaves (length s) (object_loop std pv n acc s)
    unfolding object_loop
    object_loop-Leaves zero acc s h = absurd (omega arith)
    object_loop-Leaves (suc n) acc s h =
        Leaves-then_with (length s) (length s) (parse_member std pv s)
          (λ e w.
            separator b'}' (skip_ws w) (λ r. object_loop std pv n (add_member e.0 e.1 acc) r)
              (λ r. ok (add_member e.0 e.1 acc) r))
          (parse_member-Leaves s)
          (λ e w l.
            separator-Leaves (length s) b'}' (skip_ws w)
              (λ r. object_loop std pv n (add_member e.0 e.1 acc) r)
              (λ r. ok (add_member e.0 e.1 acc) r) (omega (arith, length-skip_ws w))
              (λ t k.
                Leaves-mono (length t) (length s) (object_loop std pv n (add_member e.0 e.1 acc) t)
                  (omega (arith, length-skip_ws w))
                  (object_loop-Leaves n (add_member e.0 e.1 acc) t
                    (omega (arith, length-skip_ws w))))
              (λ t k. omega (arith, length-skip_ws w)))

    array_loop-Leaves :
        (n : ℕ) (acc : List (Value F)) (s : Text)
        → length s < n
        → Leaves (length s) (array_loop std pv n acc s)
    unfolding array_loop
    array_loop-Leaves zero acc s h = absurd (omega arith)
    array_loop-Leaves (suc n) acc s h =
        Leaves-then_with (length s) (length s) (pv s)
          (λ v w.
            separator b']' (skip_ws w) (λ r. array_loop std pv n (acc ++ v ∷ []) r)
              (λ r. ok (acc ++ v ∷ []) r))
          (total s)
          (λ v w l.
            separator-Leaves (length s) b']' (skip_ws w)
              (λ r. array_loop std pv n (acc ++ v ∷ []) r) (λ r. ok (acc ++ v ∷ []) r)
              (omega (arith, length-skip_ws w))
              (λ t k.
                Leaves-mono (length t) (length s) (array_loop std pv n (acc ++ v ∷ []) t)
                  (omega (arith, length-skip_ws w))
                  (array_loop-Leaves n (acc ++ v ∷ []) t (omega (arith, length-skip_ws w))))
              (λ t k. omega (arith, length-skip_ws w)))

    object_body-Leaves : (t : Text) → Leaves (length t) (object_body std pv t)
    unfolding object_body
    object_body-Leaves t = elim (Bool-cases (starts_with (b'}' ∷ []) t)) [
      | inl e ↦ rw e (length-drop_prefix b'}' [] t e)
      | inr e ↦ rw e (
          Leaves-then_with (length t) (length t) (object_loop std pv (suc (length t)) [] t)
            (λ m r. ok (object_of std m) r) (object_loop-Leaves (suc (length t)) [] t (omega arith))
            (λ m r l. l))
    ]

    array_body-Leaves : (t : Text) → Leaves (length t) (array_body std pv t)
    unfolding array_body
    array_body-Leaves t = elim (Bool-cases (starts_with (b']' ∷ []) t)) [
      | inl e ↦ rw e (length-drop_prefix b']' [] t e)
      | inr e ↦ rw e (
          Leaves-then_with (length t) (length t) (array_loop std pv (suc (length t)) [] t)
            (λ vs r. ok (array (items_of vs)) r)
            (array_loop-Leaves (suc (length t)) [] t (omega arith)) (λ vs r l. l))
    ]

    parse_object-IsTotal : IsTotal (parse_object std pv)
    unfolding parse_object
    parse_object-IsTotal s =
        Leaves-then_with (length s) (length s) (expect b'{' s)
          (λ _ t. object_body std pv (skip_ws t)) (expect-Leaves b'{' s)
          (λ _ t l.
            Leaves-mono (length (skip_ws t)) (length s) (object_body std pv (skip_ws t))
              (omega (arith, length-skip_ws t)) (object_body-Leaves (skip_ws t)))

    parse_array-IsTotal : IsTotal (parse_array std pv)
    unfolding parse_array
    parse_array-IsTotal s =
        Leaves-then_with (length s) (length s) (expect b'[' s)
          (λ _ t. array_body std pv (skip_ws t)) (expect-Leaves b'[' s)
          (λ _ t l.
            Leaves-mono (length (skip_ws t)) (length s) (array_body std pv (skip_ws t))
              (omega (arith, length-skip_ws t)) (array_body-Leaves (skip_ws t)))

  pub parse_value-IsTotal : (room : ℕ) → IsTotal (parse_value std room)
  unfolding parse_value
  parse_value-IsTotal zero s =
      Leaves-mono (length (skip_ws s)) (length s)
        (dispatch std (λ t. error nesting_too_deep) (λ t. error nesting_too_deep) (skip_ws s))
        (length-skip_ws s)
        (dispatch-IsTotal (λ t. error nesting_too_deep) (λ t. error nesting_too_deep) (λ t. tt)
          (λ t. tt) (skip_ws s))
  parse_value-IsTotal (suc room) s =
      let pv = parse_value std room in
      let t = parse_value-IsTotal room in
      Leaves-mono (length (skip_ws s)) (length s)
        (dispatch std (parse_object std pv) (parse_array std pv) (skip_ws s)) (length-skip_ws s)
        (dispatch-IsTotal (parse_object std pv) (parse_array std pv) (parse_object-IsTotal pv t)
          (parse_array-IsTotal pv t) (skip_ws s))

  at_end-Leaves : (v : Value F) (s : Text) → Leaves 1 (at_end std v s)
  at_end-Leaves v [] = omega arith
  at_end-Leaves v (c ∷ s) = tt

  pub parse-Leaves : (src : Text) → Leaves 1 (parse std src)
  unfolding parse
  parse-Leaves src =
      Leaves-then_with (length (skip_ws src)) 1 (parse_value std max_depth (skip_ws src))
        (λ v r. at_end std v (skip_ws r)) (parse_value-IsTotal max_depth (skip_ws src))
        (λ v r l. at_end-Leaves v (skip_ws r))
