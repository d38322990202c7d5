-- ===== src/Compare/Scale.antt =====
-- A slower machine: every cost of a run is scaled by one factor.
use mathlib.Core.Path.{subst}
use zopa.Base.{
  ◌≡◌, refl, sym, ap, ◌∙◌, inl, inr, Bool, true, false, Option, none, some, List, [], ◌∷◌, arith,
  map,
}
use zopa.Base.Tests.{if◌then◌else◌, Option-cases}
use zopa.Base.Lists.{All, In}
use zopa.Base.Text.{Text, same}
use zopa.Base.Dict.{
  Dict, lookup, map_values, map_values-nil, map_values-cons, map_option, lookup-map_values,
  insert-map_values, All-insert, lookup-All,
}
use zopa.Base.Number.{Numbers, JsValue, number, other}
use zopa.Compare.{
  reference, Row, Run, Baseline, finite, usable, positive, or_new, add_row, by_fixture,
  engine_ratios, fixture_ratios, fixture_round, put_ratio, ratios, compare_main, includes, branch,
  no_reference,
}

-- The factor keeps what the gate reads of these costs: whether one is finite, whether it is at most
-- 0, and the quotient of two.
pub record IsScale (N : Numbers) (s : N.Num → N.Num) (IsCost : N.Num → Type 0) : Type 0 where
  pub is_finite-scale : (x : N.Num) → IsCost x → N.is_finite (s x) ≡ N.is_finite x
  pub le_zero-scale : (x : N.Num) → IsCost x → N.le (s x) (N.of_nat 0) ≡ N.le x (N.of_nat 0)
  pub div-scale : (x y : N.Num) → IsCost x → IsCost y → N.div (s x) (s y) ≡ N.div x y

-- The number is the cost of one of the rows.
abbrev pub IsCostOf : (N : Numbers) → List (Row N) → N.Num → Type 0
IsCostOf N rs x = In (number x) (map (λ (r : Row N). r.amortized_micros) rs)

module _ (N : Numbers) (s : N.Num → N.Num) where
  abbrev pub scale_value : JsValue N.Num → JsValue N.Num
  scale_value (number x) = number (s x)
  scale_value other = other

  abbrev pub scale_row : Row N → Row N
  scale_row r = record r { amortized_micros = scale_value r.amortized_micros }

  abbrev pub scale_run : Run N → Run N
  scale_run run = record run { results = map scale_row run.results }

  abbrev scale_dict : Dict (JsValue N.Num) → Dict (JsValue N.Num)
  scale_dict = map_values scale_value

  add_row-scale :
      (m : Dict (Dict (JsValue N.Num))) (r : Row N)
      → add_row N (map_values scale_dict m) (scale_row r) ≡ map_values scale_dict (add_row N m r)
  unfolding add_row
  add_row-scale m r =
      rw (lookup-map_values, or_new-scale (lookup r.fixture m))
        (rw (insert-map_values scale_value) (rw (insert-map_values scale_dict)))
    where
      or_new-scale :
          (o : Option (Dict (JsValue N.Num)))
          → or_new N (map_option scale_dict o) ≡ scale_dict (or_new N o)
      or_new-scale none = rw map_values-nil
      or_new-scale (some d) = refl

  by_fixture-scale :
      (rs : List (Row N)) (m : Dict (Dict (JsValue N.Num)))
      → by_fixture N (map scale_row rs) (map_values scale_dict m)
        ≡ map_values scale_dict (by_fixture N rs m)
  unfolding by_fixture
  by_fixture-scale [] m = refl
  by_fixture-scale (r ∷ rs) m =
      ap (by_fixture N (map scale_row rs)) (add_row-scale m r) ∙ by_fixture-scale rs (add_row N m r)

  module _ (IsCost : N.Num → Type 0) where
    abbrev IsCostValue : JsValue N.Num → Type 0
    IsCostValue (number x) = IsCost x
    IsCostValue other = Unit

    abbrev AreCosts : Dict (JsValue N.Num) → Type 0
    AreCosts = All (λ e. IsCostValue e.1)

    or_new-AreCosts :
        (f : Text) (m : Dict (Dict (JsValue N.Num)))
        → All (λ e. AreCosts e.1) m
        → AreCosts (or_new N (lookup f m))
    or_new-AreCosts f m h = elim (Option-cases (lookup f m)) [
      | inl e ↦ rw e tt
      | inr (d, e) ↦ rw e (lookup-All AreCosts f d m h e)
    ]

    by_fixture-AreCosts :
        (rs : List (Row N)) (m : Dict (Dict (JsValue N.Num)))
        → All IsCostValue (map (λ (r : Row N). r.amortized_micros) rs)
        → All (λ e. AreCosts e.1) m
        → All (λ e. AreCosts e.1) (by_fixture N rs m)
    unfolding by_fixture add_row
    by_fixture-AreCosts [] m h k = k
    by_fixture-AreCosts (r ∷ rs) m (h, hs) k = by_fixture-AreCosts rs (add_row N m r) hs (
        All-insert (λ e. AreCosts e.1) r.fixture _ m
          (All-insert (λ e. IsCostValue e.1) r.engine r.amortized_micros _ h
            (or_new-AreCosts r.fixture m k))
          k)

    finite-IsCost : (v : JsValue N.Num) (x : N.Num) → IsCostValue v → finite N v ≡ some x → IsCost x
    unfolding finite
    finite-IsCost (number y) x p h = let e : y ≡ x = ground arith in subst IsCost e p
    finite-IsCost other x p h = absurd (cc)

    usable-IsCost :
        (k : Text) (es : Dict (JsValue N.Num)) (x : N.Num)
        → AreCosts es
        → usable N (lookup k es) ≡ some x
        → IsCost x
    unfolding usable
    usable-IsCost k es x p h = elim (Option-cases (lookup k es)) [
      | inl e ↦ absurd (cc (rw e at h))
      | inr (v, e) ↦
          finite-IsCost v x (lookup-All IsCostValue k v es p e)
            (of_positive (finite N v) (rw e at h))
    ]
      where
        of_positive : (o : Option N.Num) → positive N o ≡ some x → o ≡ some x
        of_positive none f = f
        of_positive (some y) f = ground arith

  module _ (IsCost : N.Num → Type 0) (law : IsScale N s IsCost) where
    finite-scale :
        (v : JsValue N.Num)
        → IsCostValue IsCost v
        → finite N (scale_value v) ≡ map_option s (finite N v)
    unfolding finite
    finite-scale (number x) p = ground (arith, law.is_finite-scale x p)
    finite-scale other p = refl

    positive-scale :
        (o : Option N.Num)
        → ((x : N.Num) → o ≡ some x → IsCost x)
        → positive N (map_option s o) ≡ map_option s (positive N o)
    positive-scale none p = refl
    positive-scale (some x) p = ground (arith, law.le_zero-scale x (p x refl))

    usable-scale :
        (o : Option (JsValue N.Num))
        → ((v : JsValue N.Num) → o ≡ some v → IsCostValue IsCost v)
        → usable N (map_option scale_value o) ≡ map_option s (usable N o)
    unfolding usable
    usable-scale none p = refl
    usable-scale (some v) p =
        rw (finite-scale v (p v refl))
          (positive-scale (finite N v) (λ x. finite-IsCost IsCost v x (p v refl)))

    put_ratio-scale :
        (f e : Text) (ref : N.Num) (c : Option N.Num) (out : Dict N.Num)
        → IsCost ref
        → ((x : N.Num) → c ≡ some x → IsCost x)
        → put_ratio N f e (s ref) (map_option s c) out ≡ put_ratio N f e ref c out
    put_ratio-scale f e ref none out p q = refl
    put_ratio-scale f e ref (some c) out p q = rw (law.div-scale c ref (q c refl) p) refl

    engine_step-scale :
        (f e : Text) (ref : N.Num) (cost : JsValue N.Num) (out : Dict N.Num) (skip : Bool)
        → IsCost ref
        → IsCostValue IsCost cost
        → (if skip then out else put_ratio N f e (s ref) (finite N (scale_value cost)) out)
          ≡ (if skip then out else put_ratio N f e ref (finite N cost) out)
    engine_step-scale f e ref cost out true p q = refl
    engine_step-scale f e ref cost out false p q =
        ap (λ c. put_ratio N f e (s ref) c out) (finite-scale cost q)
        ∙ put_ratio-scale f e ref (finite N cost) out p (λ x. finite-IsCost IsCost cost x q)

    engine_ratios-scale :
        (f : Text) (ref : N.Num) (es : Dict (JsValue N.Num)) (out : Dict N.Num)
        → IsCost ref
        → AreCosts IsCost es
        → engine_ratios N f (s ref) (scale_dict es) out ≡ engine_ratios N f ref es out
    unfolding engine_ratios
    engine_ratios-scale f ref [] out p q = rw (map_values-nil, engine_ratios)
    engine_ratios-scale f ref ((e, cost) ∷ es) out p (q, qs) = rw map_values-cons (
        ap (engine_ratios N f (s ref) (scale_dict es))
          (engine_step-scale f e ref cost out (same e reference) p q)
        ∙ engine_ratios-scale f ref es _ p qs)

    fixture_round-scale :
        (f : Text) (es : Dict (JsValue N.Num)) (ref : Option N.Num) (out : Dict N.Num)
        → ((x : N.Num) → ref ≡ some x → IsCost x)
        → AreCosts IsCost es
        → fixture_round N f (scale_dict es) (map_option s ref) out ≡ fixture_round N f es ref out
    fixture_round-scale f es none out p q = refl
    fixture_round-scale f es (some ref) out p q = engine_ratios-scale f ref es out (p ref refl) q

    fixture_ratios-scale :
        (m : Dict (Dict (JsValue N.Num))) (out : Dict N.Num)
        → All (λ e. AreCosts IsCost e.1) m
        → fixture_ratios N (map_values scale_dict m) out ≡ fixture_ratios N m out
    unfolding fixture_ratios
    fixture_ratios-scale [] out q = rw (map_values-nil, fixture_ratios)
    fixture_ratios-scale ((f, es) ∷ m) out (q, qs) = rw map_values-cons (
        ap (fixture_ratios N (map_values scale_dict m)) (
          ap (λ o. fixture_round N f (scale_dict es) o out)
            (ap (usable N) (lookup-map_values scale_value reference es)
              ∙ usable-scale (lookup reference es)
                  (λ v. lookup-All (IsCostValue IsCost) reference v es q))
          ∙ fixture_round-scale f es (usable N (lookup reference es)) out
              (λ x. usable-IsCost IsCost reference es x q) q)
        ∙ fixture_ratios-scale m _ qs)

  own-IsCostOf :
      (us vs : List (JsValue N.Num))
      → ((x : N.Num) → In (number x) us → In (number x) vs)
      → All (IsCostValue (λ x. In (number x) vs)) us
  own-IsCostOf [] vs h = tt
  own-IsCostOf (number x ∷ us) vs h = (h x (inl refl), own-IsCostOf us vs (λ y m. h y (inr m)))
  own-IsCostOf (other ∷ us) vs h = (tt, own-IsCostOf us vs (λ y m. h y (inr m)))

  ratios-scale :
      (run : Run N) → IsScale N s (IsCostOf N run.results) → ratios N (scale_run run) ≡ ratios N run
  unfolding ratios
  ratios-scale run law =
      ap (λ m. fixture_ratios N m [])
        (ap (by_fixture N (map scale_row run.results)) (sym (map_values-nil scale_dict))
          ∙ by_fixture-scale run.results [])
      ∙ fixture_ratios-scale _ law (by_fixture N run.results []) []
          (by_fixture-AreCosts _ run.results [] (own-IsCostOf _ _ (λ x m. m)) tt)

  -- Where every cost of a run is scaled by one factor that keeps whether each cost of this run is
  -- finite and whether it is at most 0, and the quotient of each two, the script ends in the same
  -- way, with the same lines, whether it seeds a baseline or compares with one.
  pub compare_main-scale :
      (run : Run N) (b : Option (Baseline N))
      → IsScale N s (IsCostOf N run.results)
      → compare_main N (scale_run run) b ≡ compare_main N run b
  unfolding compare_main
  compare_main-scale run b law =
      ap (λ current. if includes reference run.engines then branch N current b else no_reference)
        (ratios-scale run law)
