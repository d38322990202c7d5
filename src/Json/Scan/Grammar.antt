-- ===== src/Json/Scan/Grammar.antt =====
-- The numbers of RFC 8259, as the comment above `parseNumber` writes them, and the scan for one.
use mathlib.Core.List.{append_assoc}
use zopa.Base.{
  ℕ, ◌≡◌, ◌⊎◌, refl, sym, ap, ◌∙◌, true, false, ◌&&◌, ◌||◌, inl, inr, some, [], ◌∷◌, ◌++◌, arith,
}
use zopa.Base.Tests.{leb, ◌==◌, Bool-cases}
use zopa.Base.Lists.{All}
use zopa.Base.Text.{Text}
use zopa.Json.Scan.{
  is_digit, has_digit, skip_digits, scan_int, scan_digits, scan_frac, skip_sign, scan_exp,
}

abbrev pub Digits : Text → Type 0
Digits t = All (λ (c : ℕ). is_digit c ≡ true) t

-- 1*DIGIT
abbrev pub SomeDigits : Text → Type 0
SomeDigits t = (d : ℕ) × (ds : Text) × (t ≡ d ∷ ds) × Digits (d ∷ ds)

-- "0" / ( digit1-9 *DIGIT )
abbrev pub IsInt : Text → Type 0
IsInt t =
    (t ≡ b'0' ∷ [])
    ⊎ ((c : ℕ) × (ds : Text) × (t ≡ c ∷ ds) × ((leb b'1' c && leb c b'9') ≡ true) × Digits ds)

-- [ "." 1*DIGIT ]
abbrev pub IsFrac : Text → Type 0
IsFrac t = (t ≡ []) ⊎ ((ds : Text) × (t ≡ b'.' ∷ ds) × SomeDigits ds)

abbrev pub IsSign : Text → Type 0
IsSign t = (t ≡ []) ⊎ ((c : ℕ) × (t ≡ c ∷ []) × (((c == b'+') || (c == b'-')) ≡ true))

-- [ ( "e" / "E" ) [ "+" / "-" ] 1*DIGIT ]
abbrev pub IsExp : Text → Type 0
IsExp t =
    (t ≡ [])
    ⊎ ((e : ℕ) × (sign : Text) × (ds : Text) × (t ≡ e ∷ (sign ++ ds))
        × (((e == b'e') || (e == b'E')) ≡ true)
        × IsSign sign
        × SomeDigits ds)

abbrev pub IsMinus : Text → Type 0
IsMinus t = (t ≡ []) ⊎ (t ≡ b'-' ∷ [])

-- [ "-" ] int [ frac ] [ exp ]
abbrev pub IsNumber : Text → Type 0
IsNumber t =
    (minus : Text) × (int : Text) × (frac : Text) × (exp : Text) × (t
      ≡ minus ++ (int ++ (frac ++ exp)))
    × IsMinus minus
    × IsInt int
    × IsFrac frac
    × IsExp exp

-- What stands before a rest, in a scan.
abbrev pub Scanned : (Text → Type 0) → Text → Text → Type 0
Scanned P s r = (t : Text) × (s ≡ t ++ r) × P t

skip_digits-Scanned : (s : Text) → Scanned Digits s (skip_digits s)
unfolding skip_digits
skip_digits-Scanned [] = ([], refl, tt)
skip_digits-Scanned (c ∷ s) = elim (Bool-cases (is_digit c)) [
  | inl e ↦
      let (t, q, d) = skip_digits-Scanned s in rw e (c ∷ t, ap (λ (u : Text). c ∷ u) q, (e, d))
  | inr e ↦ rw e ([], refl, tt)
]

skip_digits-append : (ds r : Text) → Digits ds → has_digit r ≡ false → skip_digits (ds ++ r) ≡ r
unfolding skip_digits has_digit
skip_digits-append [] [] d h = refl
skip_digits-append [] (c ∷ r) d h = ground arith
skip_digits-append (c ∷ ds) r (e, d) h = rw e (skip_digits-append ds r d h)

scan_digits-Scanned : (s r : Text) → scan_digits s ≡ some r → Scanned SomeDigits s r
unfolding scan_digits has_digit skip_digits
scan_digits-Scanned [] r h = absurd (cc)
scan_digits-Scanned (c ∷ s) r h = elim (Bool-cases (is_digit c)) [
  | inl e ↦
      let (t, q, d) = skip_digits-Scanned s in
      let f : skip_digits s ≡ r = ground arith in
      (c ∷ t, ap (λ (u : Text). c ∷ u) (q ∙ ap (λ (u : Text). t ++ u) f), (c, t, refl, (e, d)))
  | inr e ↦ absurd (ground arith)
]

pub scan_digits-append :
    (ds r : Text) → SomeDigits ds → has_digit r ≡ false → scan_digits (ds ++ r) ≡ some r
unfolding scan_digits has_digit
scan_digits-append ds r (d, es, q, k) h =
    rw q (let e : is_digit d ≡ true = k.0 in ground (arith, skip_digits-append (d ∷ es) r k h))

pub scan_int-Scanned : (s r : Text) → scan_int s ≡ some r → Scanned IsInt s r
unfolding scan_int
scan_int-Scanned [] r h = absurd (cc)
scan_int-Scanned (c ∷ s) r h = elim (Bool-cases (c == b'0')) [
  | inl e ↦ (b'0' ∷ [], ground arith, inl refl)
  | inr e ↦ elim (Bool-cases (leb b'1' c && leb c b'9')) [
    | inl k ↦
        let (t, q, d) = skip_digits-Scanned s in
        let f : skip_digits s ≡ r = ground arith in
        (c ∷ t, ap (λ (u : Text). c ∷ u) (q ∙ ap (λ (u : Text). t ++ u) f), inr (c, t, refl, k, d))
    | inr k ↦ absurd (ground arith)
  ]
]

pub scan_int-append : (t r : Text) → IsInt t → has_digit r ≡ false → scan_int (t ++ r) ≡ some r
unfolding scan_int
scan_int-append t r (inl q) h = rw q (ground arith)
scan_int-append t r (inr (c, ds, q, k, d)) h = rw q (ground (arith, skip_digits-append ds r d h))

pub scan_frac-Scanned : (s r : Text) → scan_frac s ≡ some r → Scanned IsFrac s r
unfolding scan_frac
scan_frac-Scanned [] r h = ([], ground arith, inl refl)
scan_frac-Scanned (c ∷ s) r h = elim (Bool-cases (c == b'.')) [
  | inl e ↦
      let (t, q, d) = scan_digits-Scanned s r (ground arith) in
      (b'.' ∷ t, ground arith, inr (t, refl, d))
  | inr e ↦ ([], ground arith, inl refl)
]

skip_sign-Scanned : (s : Text) → Scanned IsSign s (skip_sign s)
unfolding skip_sign
skip_sign-Scanned [] = ([], refl, inl refl)
skip_sign-Scanned (c ∷ s) = elim (Bool-cases ((c == b'+') || (c == b'-'))) [
  | inl e ↦ rw e (c ∷ [], refl, inr (c, refl, e))
  | inr e ↦ rw e ([], refl, inl refl)
]

pub scan_exp-Scanned : (s r : Text) → scan_exp s ≡ some r → Scanned IsExp s r
unfolding scan_exp
scan_exp-Scanned [] r h = ([], ground arith, inl refl)
scan_exp-Scanned (c ∷ s) r h = elim (Bool-cases ((c == b'e') || (c == b'E'))) [
  | inl e ↦
      let (g, q, i) = skip_sign-Scanned s in
      let (t, p, d) = scan_digits-Scanned (skip_sign s) r (ground arith) in
      let f : s ≡ (g ++ t) ++ r = q ∙ ap (λ (u : Text). g ++ u) p ∙ sym (append_assoc g t r) in
      (c ∷ (g ++ t), ap (λ (u : Text). c ∷ u) f, inr (c, g, t, refl, e, i, d))
  | inr e ↦ ([], ground arith, inl refl)
]
