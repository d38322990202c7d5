-- ===== src/Json/Parser/Accepted.antt =====
-- The nesting and the keys of the values that the parser accepts.
use zopa.Base.{ℕ, zero, suc, ◌⊎◌, ◌≡◌, refl, sym, ap, ◌∙◌, inl, inr, List, [], ◌∷◌, ◌++◌, arith}
use zopa.Base.Lists.{length, drop, All, All-append}
use zopa.Base.Text.{Text, starts_with}
use zopa.Base.Dict.{Dict}
use zopa.Json.Members.{add_member, add_members, finish_members}
use zopa.Json.Members.Inserts.{inserts, inserts-NodupKeys}
use zopa.Json.Members.Sorted.{IsSort}
use zopa.Json.Members.Dedupe.{finish_members-inserts}
use zopa.Json.Values.{
  Value, array, object, no_items, no_members, ParseError, Outcome, ok, error, no_fuel, then_with,
  Std, items_of, nesting_too_deep,
}
use zopa.Json.Scan.Shorter.{Leaves}
use zopa.Json.Parser.Total.{parse-Leaves}
use zopa.Json.Scan.{skip_ws, expect}
use zopa.Json.Strings.{parse_string}
use zopa.Json.Parser.{
  max_depth, separator, parse_member, object_loop, object_of, object_body, parse_object, array_loop,
  array_body, parse_array, parse_value, at_end, parse,
}
use zopa.Json.Parser.Scalars.{dispatch-Accepts}
use zopa.Json.Parser.Sound.{
  IsSound, AllSound, MembersSound, Accepts, Accepts-then_with, Accepts-if, any_result,
  separator-Accepts, members_of-Sound, items_of-Sound, inserts-Sound, add_members-append,
}

module _ {F : Type 0} where
  decided :
      (room : ℕ) (r : Outcome (Value F))
      → Leaves 1 r
      → Accepts (IsSound room) r
      → ((v : Value F) × (r ≡ ok v []) × IsSound room v) ⊎ ((e : ParseError) × (r ≡ error e))
  decided room (ok v []) h a = inl (v, refl, a)
  decided room (ok v (c ∷ s)) h a = absurd (omega arith)
  decided room (error e) h a = inr (e, refl)
  decided room no_fuel h a = absurd h

module _ {F : Type 0} (std : Std F) where
  no_members-Sound : (room : ℕ) → IsSound {F = F} (suc room) (object no_members)
  unfolding IsSound MembersSound
  no_members-Sound room = tt

  no_items-Sound : (room : ℕ) → IsSound {F = F} (suc room) (array no_items)
  unfolding IsSound AllSound
  no_items-Sound room = tt

  array-Sound :
      (room : ℕ) (vs : List (Value F))
      → All (IsSound room) vs
      → IsSound (suc room) (array (items_of vs))
  unfolding IsSound
  array-Sound room vs a = items_of-Sound room vs a

  none_added : [] ≡ add_members {V = Value F} [] []
  unfolding add_members
  none_added = refl

  -- What `object_loop` has collected: some members, as they were added.
  abbrev Collected : ℕ → Dict (Value F) → Type 0
  Collected room m =
      (l : Dict (Value F)) × (m ≡ add_members l [])
      × All (λ (e : Text × Value F). IsSound room e.1) l

  Collected-add :
      (room : ℕ) (m : Dict (Value F)) (k : Text) (v : Value F)
      → Collected room m
      → IsSound room v
      → Collected room (add_member k v m)
  Collected-add room m k v (l, q, a) h = (
    l ++ (k, v) ∷ [],
    ap (add_member k v) q ∙ sym (add_members-append l k v []),
    All-append (λ (e : Text × Value F). IsSound room e.1) l ((k, v) ∷ []) a (h, tt),
  )

  module _ (room : ℕ) (pv : Text → Outcome (Value F))
      (sound : (s : Text) → Accepts (IsSound room) (pv s)) where
    parse_member-Accepts : (s : Text) → Accepts (λ e. IsSound room e.1) (parse_member std pv s)
    unfolding parse_member
    parse_member-Accepts s =
        Accepts-then_with (λ _. Unit) (λ e. IsSound room e.1) (parse_string std (skip_ws s)) colon
          (any_result (λ _. Unit) (parse_string std (skip_ws s)) (λ _. tt))
          (λ k t _.
            Accepts-then_with (λ _. Unit) (λ e. IsSound room e.1) (expect b':' (skip_ws t))
              (valued k) (any_result (λ _. Unit) (expect b':' (skip_ws t)) (λ _. tt))
              (λ _ u _.
                Accepts-then_with (IsSound room) (λ e. IsSound room e.1) (pv u) (λ v w. ok (k, v) w)
                  (sound u) (λ v w h. h)))
      where
        valued : Text → Unit {0} → Text → Outcome (Text × Value F)
        valued k _ u = then_with (pv u) (λ v w. ok (k, v) w)

        colon : Text → Text → Outcome (Text × Value F)
        colon k t = then_with (expect b':' (skip_ws t)) (valued k)

    object_loop-Accepts :
        (n : ℕ) (acc : Dict (Value F)) (s : Text)
        → Collected room acc
        → Accepts (Collected room) (object_loop std pv n acc s)
    unfolding object_loop
    object_loop-Accepts zero acc s c = tt
    object_loop-Accepts (suc n) acc s c =
        Accepts-then_with (λ e. IsSound room e.1) (Collected room) (parse_member std pv s)
          (λ e w.
            separator b'}' (skip_ws w) (λ r. object_loop std pv n (add_member e.0 e.1 acc) r)
              (λ r. ok (add_member e.0 e.1 acc) r))
          (parse_member-Accepts s)
          (λ e w h.
            let d = Collected-add room acc e.0 e.1 c h in
            separator-Accepts (Collected room) b'}' (skip_ws w)
              (λ r. object_loop std pv n (add_member e.0 e.1 acc) r)
              (λ r. ok (add_member e.0 e.1 acc) r)
              (λ t. object_loop-Accepts n (add_member e.0 e.1 acc) t d) (λ t. d))

    array_loop-Accepts :
        (n : ℕ) (acc : List (Value F)) (s : Text)
        → All (IsSound room) acc
        → Accepts (All (IsSound room)) (array_loop std pv n acc s)
    unfolding array_loop
    array_loop-Accepts zero acc s c = tt
    array_loop-Accepts (suc n) acc s c =
        Accepts-then_with (IsSound room) (All (IsSound room)) (pv s)
          (λ v w.
            separator b']' (skip_ws w) (λ r. array_loop std pv n (acc ++ v ∷ []) r)
              (λ r. ok (acc ++ v ∷ []) r))
          (sound s)
          (λ v w h.
            let a = All-append (IsSound room) acc (v ∷ []) c (h, tt) in
            separator-Accepts (All (IsSound room)) b']' (skip_ws w)
              (λ r. array_loop std pv n (acc ++ v ∷ []) r) (λ r. ok (acc ++ v ∷ []) r)
              (λ t. array_loop-Accepts n (acc ++ v ∷ []) t a) (λ t. a))

    module _ (sorts : IsSort std.sort) where
      object_of-Sound :
          (m : Dict (Value F)) → Collected room m → IsSound (suc room) (object_of std m)
      unfolding IsSound
      object_of-Sound m (l, q, a) =
          let r : finish_members std.hash std.sort m ≡ inserts l [] =
            ap (finish_members std.hash std.sort) q
            ∙ finish_members-inserts std.hash std.sort sorts l in
          rw r (
            members_of-Sound room (inserts l []) (inserts-NodupKeys l [] tt)
              (inserts-Sound room l [] a tt))

      object_body-Accepts : (t : Text) → Accepts (IsSound (suc room)) (object_body std pv t)
      unfolding object_body
      object_body-Accepts t =
          Accepts-if (IsSound (suc room)) (starts_with (b'}' ∷ []) t)
            (ok (object no_members) (drop 1 t))
            (then_with (object_loop std pv (suc (length t)) [] t) (λ m r. ok (object_of std m) r))
            (no_members-Sound room)
            (Accepts-then_with (Collected room) (IsSound (suc room))
              (object_loop std pv (suc (length t)) [] t) (λ m r. ok (object_of std m) r)
              (object_loop-Accepts (suc (length t)) [] t ([], none_added, tt))
              (λ m r c. object_of-Sound m c))

      array_body-Accepts : (t : Text) → Accepts (IsSound (suc room)) (array_body std pv t)
      unfolding array_body
      array_body-Accepts t =
          Accepts-if (IsSound (suc room)) (starts_with (b']' ∷ []) t)
            (ok (array no_items) (drop 1 t))
            (then_with (array_loop std pv (suc (length t)) [] t)
              (λ vs r. ok (array (items_of vs)) r))
            (no_items-Sound room)
            (Accepts-then_with (All (IsSound room)) (IsSound (suc room))
              (array_loop std pv (suc (length t)) [] t) (λ vs r. ok (array (items_of vs)) r)
              (array_loop-Accepts (suc (length t)) [] t tt) (λ vs r c. array-Sound room vs c))

      parse_object-Accepts : (s : Text) → Accepts (IsSound (suc room)) (parse_object std pv s)
      unfolding parse_object
      parse_object-Accepts s =
          Accepts-then_with (λ _. Unit) (IsSound (suc room)) (expect b'{' s)
            (λ _ t. object_body std pv (skip_ws t))
            (any_result (λ _. Unit) (expect b'{' s) (λ _. tt))
            (λ _ t _. object_body-Accepts (skip_ws t))

      parse_array-Accepts : (s : Text) → Accepts (IsSound (suc room)) (parse_array std pv s)
      unfolding parse_array
      parse_array-Accepts s =
          Accepts-then_with (λ _. Unit) (IsSound (suc room)) (expect b'[' s)
            (λ _ t. array_body std pv (skip_ws t))
            (any_result (λ _. Unit) (expect b'[' s) (λ _. tt))
            (λ _ t _. array_body-Accepts (skip_ws t))

  module _ (sorts : IsSort std.sort) where
    parse_value-Accepts : (room : ℕ) (s : Text) → Accepts (IsSound room) (parse_value std room s)
    unfolding parse_value
    parse_value-Accepts zero s =
        dispatch-Accepts std zero (λ t. error nesting_too_deep) (λ t. error nesting_too_deep)
          (skip_ws s) tt tt
    parse_value-Accepts (suc room) s =
        let pv = parse_value std room in
        let sound = parse_value-Accepts room in
        dispatch-Accepts std (suc room) (parse_object std pv) (parse_array std pv) (skip_ws s)
          (parse_object-Accepts room pv sound sorts (skip_ws s))
          (parse_array-Accepts room pv sound sorts (skip_ws s))

    at_end-Accepts :
        (room : ℕ) (v : Value F) (s : Text)
        → IsSound room v
        → Accepts (IsSound room) (at_end std v s)
    at_end-Accepts room v [] h = h
    at_end-Accepts room v (c ∷ s) h = tt

    parse-Accepts : (src : Text) → Accepts (IsSound max_depth) (parse std src)
    unfolding parse
    parse-Accepts src =
        Accepts-then_with (IsSound max_depth) (IsSound max_depth)
          (parse_value std max_depth (skip_ws src)) (λ v r. at_end std v (skip_ws r))
          (parse_value-Accepts max_depth (skip_ws src))
          (λ v r h. at_end-Accepts max_depth v (skip_ws r) h)

  -- The parser comes to an end on every text: it gives an error, or a value with nothing left, and
  -- then the value nests arrays and objects at most `max_depth` deep and each of its objects has each
  -- key once. The condition is that the sort does what is asked of it.
  pub parse-decides :
      IsSort std.sort
      → (src : Text)
      → ((v : Value F) × (parse std src ≡ ok v []) × IsSound max_depth v)
        ⊎ ((e : ParseError) × (parse std src ≡ error e))
  parse-decides sorts src =
      decided max_depth (parse std src) (parse-Leaves std src) (parse-Accepts sorts src)
