-- ===== src/Json/Scan/Numbers.antt =====
-- The numbers of the grammar, as `parseNumber` reads them.
use mathlib.Core.List.{append_assoc}
use zopa.Base.{
  ◌-◌, ◌≡◌, ◌↔◌, refl, sym, ap, ◌∙◌, Bool, true, false, ◌||◌, not, inl, inr, Option, none, some, [],
  ◌∷◌, ◌++◌, arith,
}
use zopa.Base.Tests.{◌==◌, Bool-cases, Option-cases}
use zopa.Base.Lists.{length, length-append}
use zopa.Base.Text.{Text}
use zopa.Json.Values.{Value, number, ok, Std}
use zopa.Json.Scan.{
  is_digit, has_digit, skip_digits, scan_digits, skip_one, scan_int, scan_frac, skip_sign, scan_exp,
  and_then, scan_number, take, number_from, parse_number,
}
use zopa.Json.Scan.Grammar.{
  Scanned, SomeDigits, IsInt, IsFrac, IsSign, IsExp, IsMinus, IsNumber, scan_int-Scanned,
  scan_frac-Scanned, scan_exp-Scanned, scan_int-append, scan_digits-append,
}

-- A rest that a fraction or an exponent begins.
unfoldable pub goes_on : Text → Bool
goes_on [] = false
goes_on (c ∷ s) = (c == b'.') || ((c == b'e') || (c == b'E'))

-- A rest that no longer number can reach into.
unfoldable ends : Text → Bool
ends [] = true
ends (c ∷ s) = not (is_digit c || ((c == b'.') || ((c == b'e') || (c == b'E'))))

-- A rest that no longer int, and no longer frac, can reach into.
unfoldable ends_frac : Text → Bool
ends_frac [] = true
ends_frac (c ∷ s) = not (is_digit c || (c == b'.'))

ends-goes_on : (r : Text) → goes_on r ≡ false → has_digit r ≡ false → ends r ≡ true
unfolding ends goes_on has_digit
ends-goes_on [] g h = refl
ends-goes_on (c ∷ r) g h = ground arith

skip_digits-no_digit : (s : Text) → has_digit (skip_digits s) ≡ false
unfolding has_digit skip_digits
skip_digits-no_digit [] = refl
skip_digits-no_digit (c ∷ s) = ground (arith, skip_digits-no_digit s)

scan_digits-no_digit : (s r : Text) → scan_digits s ≡ some r → has_digit r ≡ false
unfolding scan_digits
scan_digits-no_digit s r h = ground (arith, skip_digits-no_digit s)

scan_int-no_digit : (s r : Text) → scan_int s ≡ some r → has_digit r ≡ false
unfolding scan_int
scan_int-no_digit [] r h = absurd (cc)
scan_int-no_digit (c ∷ s) r h = ground (arith, skip_digits-no_digit s)

scan_frac-no_digit : (s r : Text) → has_digit s ≡ false → scan_frac s ≡ some r → has_digit r ≡ false
unfolding scan_frac
scan_frac-no_digit [] r d h = ground arith
scan_frac-no_digit (c ∷ s) r d h = ground (arith, scan_digits-no_digit s r)

scan_exp-no_digit : (s r : Text) → has_digit s ≡ false → scan_exp s ≡ some r → has_digit r ≡ false
unfolding scan_exp
scan_exp-no_digit [] r d h = ground arith
scan_exp-no_digit (c ∷ s) r d h = ground (arith, scan_digits-no_digit (skip_sign s) r)

ends-no_digit : (r : Text) → ends r ≡ true → has_digit r ≡ false
unfolding ends has_digit
ends-no_digit [] h = refl
ends-no_digit (c ∷ r) h = ground arith

ends_frac-no_digit : (r : Text) → ends_frac r ≡ true → has_digit r ≡ false
unfolding ends_frac has_digit
ends_frac-no_digit [] h = refl
ends_frac-no_digit (c ∷ r) h = ground arith

exp-ends_frac : (t r : Text) → IsExp t → ends r ≡ true → ends_frac (t ++ r) ≡ true
unfolding ends_frac ends
exp-ends_frac t [] (inl q) h = rw q refl
exp-ends_frac t (c ∷ r) (inl q) h = rw q (ground arith)
exp-ends_frac t r (inr (e, g, ds, q, k, i, d)) h = rw q (ground arith)

frac-no_digit : (t r : Text) → IsFrac t → ends_frac r ≡ true → has_digit (t ++ r) ≡ false
unfolding has_digit
frac-no_digit t r (inl q) h = rw q (ends_frac-no_digit r h)
frac-no_digit t r (inr (ds, q, d)) h = rw q (ground arith)

skip_one-minus : (m t r : Text) → IsMinus m → IsInt t → skip_one b'-' (m ++ (t ++ r)) ≡ t ++ r
unfolding skip_one
skip_one-minus m t r (inl q) (inl p) = rw (q, p) (ground arith)
skip_one-minus m t r (inl q) (inr (c, ds, p, k, d)) = rw (q, p) (ground arith)
skip_one-minus m t r (inr q) i = rw q (ground arith)

skip_one-Scanned : (s : Text) → Scanned IsMinus s (skip_one b'-' s)
unfolding skip_one
skip_one-Scanned [] = ([], refl, inl refl)
skip_one-Scanned (c ∷ s) = elim (Bool-cases (c == b'-')) [
  | inl e ↦ rw e (b'-' ∷ [], ground arith, inr refl)
  | inr e ↦ rw e ([], refl, inl refl)
]

skip_sign-append : (g ds r : Text) → IsSign g → SomeDigits ds → skip_sign ((g ++ ds) ++ r) ≡ ds ++ r
unfolding skip_sign
skip_sign-append g ds r (inl q) (d, es, p, k) =
    rw (q, p) (let e : is_digit d ≡ true = k.0 in ground arith)
skip_sign-append g ds r (inr (c, q, e)) d = rw q (rw e refl)

scan_exp-append : (t r : Text) → IsExp t → ends r ≡ true → scan_exp (t ++ r) ≡ some r
unfolding scan_exp ends
scan_exp-append t [] (inl q) h = rw q refl
scan_exp-append t (c ∷ r) (inl q) h = rw q (ground arith)
scan_exp-append t r (inr (e, g, ds, q, k, i, d)) h =
    rw q
      (ground (arith, skip_sign-append g ds r i d, scan_digits-append ds r d (ends-no_digit r h)))

scan_frac-append : (t r : Text) → IsFrac t → ends_frac r ≡ true → scan_frac (t ++ r) ≡ some r
unfolding scan_frac ends_frac
scan_frac-append t [] (inl q) h = rw q refl
scan_frac-append t (c ∷ r) (inl q) h = rw q (ground arith)
scan_frac-append t r (inr (ds, q, d)) h =
    rw q (ground (arith, scan_digits-append ds r d (ends_frac-no_digit r h)))

regroup : (m i f e r : Text) → (m ++ (i ++ (f ++ e))) ++ r ≡ m ++ (i ++ (f ++ (e ++ r)))
regroup m i f e r =
    append_assoc m (i ++ (f ++ e)) r
    ∙ ap (λ (u : Text). m ++ u)
        (append_assoc i (f ++ e) r ∙ ap (λ (u : Text). i ++ u) (append_assoc f e r))

scan_number-append : (t r : Text) → IsNumber t → ends r ≡ true → scan_number (t ++ r) ≡ some r
unfolding scan_number
scan_number-append t r (m, i, f, e, q, im, ii, jf, ie) h =
    let ef = exp-ends_frac e r ie h in
    let whole = ap (λ (u : Text). u ++ r) q ∙ regroup m i f e r in
    rw
      (
        whole,
        skip_one-minus m i (f ++ (e ++ r)) im ii,
        scan_int-append i (f ++ (e ++ r)) ii (frac-no_digit f (e ++ r) jf ef),
        scan_frac-append f (e ++ r) jf ef,
        scan_exp-append e r ie h,
      )
      refl

and_then-some :
    (o : Option Text) (f : Text → Option Text) (r : Text)
    → and_then o f ≡ some r
    → (u : Text) × (o ≡ some u) × (f u ≡ some r)
and_then-some none f r h = absurd (cc)
and_then-some (some u) f r h = (u, refl, h)

scan_number-Scanned : (s r : Text) → scan_number s ≡ some r → Scanned IsNumber s r
unfolding scan_number
scan_number-Scanned s r h =
    let u = skip_one b'-' s in
    let (m, qm, im) = skip_one-Scanned s in
    let (b, p, h_exp) = and_then-some (and_then (scan_int u) scan_frac) scan_exp r h in
    let (a, h_int, h_frac) = and_then-some (scan_int u) scan_frac b p in
    let (i, qi, ii) = scan_int-Scanned u a h_int in
    let (f, qf, jf) = scan_frac-Scanned a b h_frac in
    let (e, qe, ie) = scan_exp-Scanned b r h_exp in
    let split : s ≡ m ++ (i ++ (f ++ (e ++ r))) =
      qm
      ∙ ap (λ (x : Text). m ++ x)
          (qi ∙ ap (λ (x : Text). i ++ x) (qf ∙ ap (λ (x : Text). f ++ x) qe)) in
    (m ++ (i ++ (f ++ e)), split ∙ sym (regroup m i f e r), (m, i, f, e, refl, im, ii, jf, ie))

scan_number-no_digit : (s r : Text) → scan_number s ≡ some r → has_digit r ≡ false
unfolding scan_number
scan_number-no_digit s r h =
    let u = skip_one b'-' s in
    let (b, p, h_exp) = and_then-some (and_then (scan_int u) scan_frac) scan_exp r h in
    let (a, h_int, h_frac) = and_then-some (scan_int u) scan_frac b p in
    scan_exp-no_digit b r (scan_frac-no_digit a b (scan_int-no_digit u a h_int) h_frac) h_exp

take-length : (t r : Text) → take (length t) (t ++ r) ≡ t
unfolding take
take-length [] r = refl
take-length (c ∷ t) r = ap (λ (u : Text). c ∷ u) (take-length t r)

take-append : (t r : Text) → take (length (t ++ r) - length r) (t ++ r) ≡ t
take-append t r =
    let e : length (t ++ r) - length r ≡ length t = omega (arith, length-append t r) in
    rw e (take-length t r)

module _ {F : Type 0} (std : Std F) where
  -- The text before the rest is a number of the grammar that no digit follows, and the value is what
  -- `parseFloat` makes of it.
  abbrev pub Reads : Text → Value F → Text → Type 0
  Reads s v r =
      (t : Text) × (f : F) × (s ≡ t ++ r)
      × IsNumber t
      × (has_digit r ≡ false)
      × (std.parse_float t ≡ some f)
      × (std.is_inf f ≡ false)
      × (v ≡ number f)

  accepted_from :
      (o : Option F) (v : Value F) (a r : Text)
      → number_from std o a ≡ ok v r
      → (f : F) × (o ≡ some f) × (std.is_inf f ≡ false) × (v ≡ number f) × (a ≡ r)
  accepted_from none v a r h = absurd (cc)
  accepted_from (some f) v a r h = elim (Bool-cases (std.is_inf f)) [
    | inl e ↦ absurd (ground arith)
    | inr e ↦ let g : ok (number f) a ≡ ok v r = rw e at h in (f, refl, e, cc, cc)
  ]

  parse_number-Reads : (s r : Text) (v : Value F) → parse_number std s ≡ ok v r → Reads s v r
  unfolding parse_number
  parse_number-Reads s r v h = elim (Option-cases (scan_number s)) [
    | inl e ↦ absurd (ground arith)
    | inr (a, e) ↦
        let from : number_from std (std.parse_float (take (length s - length a) s)) a ≡ ok v r =
          rw e at h in
        let (f, p, i, w, q) =
          accepted_from (std.parse_float (take (length s - length a) s)) v a r from in
        let (t, k, n) = scan_number-Scanned s r (e ∙ ap some q) in
        let cut : take (length s - length a) s ≡ t =
          ap (λ (x : Text). take (length x - length a) x) k
          ∙ ap (λ (x : Text). take (length (t ++ r) - length x) (t ++ r)) q
          ∙ take-append t r in
        (
          t,
          f,
          k,
          n,
          scan_number-no_digit s r (e ∙ ap some q),
          ap std.parse_float (sym cut) ∙ p,
          i,
          w,
        )
  ]

  Reads-parse_number :
      (s r : Text) (v : Value F) → goes_on r ≡ false → Reads s v r → parse_number std s ≡ ok v r
  unfolding parse_number
  Reads-parse_number s r v g (t, f, k, n, d, p, i, w) =
      rw (k, scan_number-append t r n (ends-goes_on r g d), take-append t r, p, i, w) refl

  -- Before a rest that does not begin with a dot or an e, `parseNumber` accepts exactly the numbers of
  -- the grammar that no digit follows and whose text `parseFloat` reads as a finite number, and that
  -- number is the value.
  pub parse_number_iff :
      (s r : Text) (v : Value F) → goes_on r ≡ false → (parse_number std s ≡ ok v r) ↔ Reads s v r
  parse_number_iff s r v g = (parse_number-Reads s r v, Reads-parse_number s r v g)
