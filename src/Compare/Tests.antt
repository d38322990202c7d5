-- ===== src/Compare/Tests.antt =====
-- Runs of bench/compare.mjs on the data of bench/compare.test.mjs, and its theorems at such data.
use native.Mathlib.Nat.{mul-div-mul_left, mul_assoc}
use zopa.Base.{ℕ, ap, ◌≡◌, refl, ◌↔◌, inl, inr, false, some, none, [], ◌∷◌, arith, ◌*◌}
use zopa.Base.Text.{Text, codes, same, has}
use zopa.Base.Dict.{Dict, lookup, insert}
use zopa.Base.Number.{JsValue, number}
use zopa.Base.Number.Fraction.{Fraction, fraction, fractions, cents}
use zopa.Compare.{
  reference, pair_key, includes, Row, Run, Baseline, usable, finite, add_row, engine_ratios, ratios,
  tally_row, finds_member, json_ratios, Outcome, threw, passed, seeded, no_reference,
  nothing_compared, absent, compared, status, default_threshold, compare_main,
}
use zopa.Compare.Gate.{Passes, status-zero_iff}
use zopa.Compare.Pairs.{last_cost}
use zopa.Compare.Ratios.{ratio_of, lookup-ratios}
use zopa.Compare.Scale.{IsScale, IsCostOf, scale_run, compare_main-scale}
use zopa.Compare.Seed.{AllFinite, status-seeded}

abbrev f1 : Text
f1 = codes "f1"

abbrev opa : Text
opa = codes "opa-wasm"

abbrev row : Text → Text → Fraction → Row fractions
row f e x = record { fixture = f; engine = e; amortized_micros = number x }

-- `rows(compiled, other)`
abbrev one_fixture : Fraction → Fraction → Run fractions
one_fixture compiled rival = record {
  engines = reference ∷ opa ∷ [];
  results = row f1 reference compiled ∷ row f1 opa rival ∷ [];
}

abbrev baseline : Baseline fractions
baseline = record {
  threshold = number (fraction 3 2);
  ratios = some ((pair_key f1 opa, number (fraction 4 1)) ∷ []);
}

run : Run fractions → Outcome fractions
unfolding compare_main includes finds_member usable add_row engine_ratios tally_row json_ratios
    insert lookup same
run r = compare_main fractions r (some baseline)

ratio_unchanged :
    run (one_fixture (fraction 2 1) (fraction 8 1))
    ≡ passed (compared (pair_key f1 opa) (fraction 4 1) (fraction 8 2) (fraction 8 8) false ∷ [])
unfolding run
ratio_unchanged = refl

ground_lost : status fractions (run (one_fixture (fraction 4 1) (fraction 4 1))) ≡ 1
unfolding run status
ground_lost = refl

reference_missing :
    run (record { engines = opa ∷ []; results = row f1 opa (fraction 4 1) ∷ [] }) ≡ no_reference
unfolding run
reference_missing = refl

not_finite :
    run (one_fixture (fraction 1 0) (fraction 4 1))
    ≡ nothing_compared (absent (pair_key f1 opa) (fraction 4 1) ∷ [])
unfolding run
not_finite = refl

-- An entry of the baseline named `constructor` is no row that the run skipped: the script throws.
named_like_member :
    compare_main fractions (one_fixture (fraction 2 1) (fraction 8 1)) (
      some (record {
        threshold = number (fraction 3 2);
        ratios = some (
            (codes "constructor", number (fraction 1 1))
            ∷ (pair_key f1 opa, number (fraction 4 1))
            ∷ []);
      }))
    ≡ threw
unfolding run
named_like_member = refl

abbrev two_to_eight : Run fractions
two_to_eight = one_fixture (fraction 2 1) (fraction 8 1)

status-zero_iff_example :
    (status fractions (compare_main fractions two_to_eight (some baseline)) ≡ 0)
    ↔ ((es : Dict (JsValue Fraction)) × Passes fractions two_to_eight baseline es)
status-zero_iff_example = status-zero_iff fractions two_to_eight baseline

lookup-ratios_example :
    lookup (pair_key f1 opa) (ratios fractions two_to_eight)
    ≡ ratio_of fractions opa
        (last_cost fractions f1 opa two_to_eight.results)
        (last_cost fractions f1 reference two_to_eight.results)
unfolding has
lookup-ratios_example = lookup-ratios fractions two_to_eight f1 opa (refl, (refl, tt)) refl

lookup-ratios_value :
    ratio_of fractions opa
      (last_cost fractions f1 opa two_to_eight.results)
      (last_cost fractions f1 reference two_to_eight.results)
    ≡ some (fraction 8 2)
unfolding last_cost usable finite same
lookup-ratios_value = refl

abbrev own_baseline : Baseline fractions
own_baseline = record {
  threshold = number (default_threshold fractions);
  ratios = some ((pair_key f1 opa, number (fraction 8 2)) ∷ []);
}

seeds : compare_main fractions two_to_eight none ≡ seeded own_baseline
unfolding run
seeds = refl

two_to_eight-AllFinite : AllFinite fractions (ratios fractions two_to_eight)
unfolding run
two_to_eight-AllFinite k x (inl e) =
    let p : fraction 8 2 ≡ x = ap (λ (y : Text × Fraction). y.1) e in rw (← p)
two_to_eight-AllFinite k x (inr h) = elim h [ ]

self_ratio : (x : Fraction) → fractions.lt (default_threshold fractions) (fractions.div x x) ≡ false
self_ratio x = ground arith

status-seeded_example :
    status fractions (compare_main fractions two_to_eight (some own_baseline)) ≡ 0
status-seeded_example =
    status-seeded fractions two_to_eight own_baseline seeds two_to_eight-AllFinite self_ratio

abbrev cents_row : Text → Text → ℕ → Row cents
cents_row f e x = record { fixture = f; engine = e; amortized_micros = number x }

abbrev cents_run : Run cents
cents_run = record {
  engines = reference ∷ opa ∷ [];
  results = cents_row f1 reference 2 ∷ cents_row f1 opa 8 ∷ [];
}

abbrev double : ℕ → ℕ
double x = 2 * x

double-IsScale : IsScale cents double (IsCostOf cents cents_run.results)
double-IsScale = record {
  is_finite-scale = λ x h. refl;
  le_zero-scale = λ x h. ground arith;
  div-scale = λ x y h k. rw mul_assoc (mul-div-mul_left (x * 100) y (omega arith));
}

compare_main-scale_example :
    compare_main cents (scale_run cents double cents_run) none ≡ compare_main cents cents_run none
compare_main-scale_example = compare_main-scale cents double cents_run none double-IsScale
