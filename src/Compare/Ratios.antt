-- ===== src/Compare/Ratios.antt =====
-- What `ratios` of bench/compare.mjs computes, against the rows of the run themselves.
use zopa.Base.{◌≡◌, refl, ap, ◌∙◌, ◌≢◌, inl, inr, false, Option, none, some}
use zopa.Base.{List, [], ◌∷◌, arith}
use zopa.Base.Tests.{Bool-cases, Option-cases}
use mathlib.Core.Path.{ap₂}
use zopa.Base.Lists.{All}
use zopa.Base.Text.{Text, same, same_iff, eq_of_same, has}
use zopa.Base.Dict.{Dict, lookup, insert, NodupKeys, insert-NodupKeys, All-insert, lookup-All}
use zopa.Base.Number.{Numbers}
use zopa.Compare.{
  reference, pair_key, Row, Run, usable, add_row, by_fixture, fixture_ratios, fixture_round, or_new,
  ratios,
}
use zopa.Compare.Pairs.{
  or_else, or_else-none, Flat, Value, entry, last_cost, lookup-engine_ratios,
  lookup-engine_ratios_ne, lookup_pair, lookup_pair-by_fixture,
}

module _ (N : Numbers) where
  abbrev from_ref : Text → Dict (Value N) → Option N.Num → Option N.Num
  from_ref e es none = none
  from_ref e es (some ref) = entry N e ref (lookup e es)

  abbrev from_fixture : Text → Option (Dict (Value N)) → Option N.Num
  from_fixture e none = none
  from_fixture e (some es) = from_ref e es (usable N (lookup reference es))

  abbrev IsTidy : Text × Dict (Value N) → Type 0
  IsTidy x = NodupKeys x.1 × All (Flat N) x.1

  lookup-fixture_round :
      (f e : Text) (es : Dict (Value N)) (ref : Option N.Num) (out : Dict N.Num)
      → NodupKeys es
      → lookup (pair_key f e) (fixture_round N f es ref out)
        ≡ or_else (from_ref e es ref) (lookup (pair_key f e) out)
  lookup-fixture_round f e es none out u = refl
  lookup-fixture_round f e es (some ref) out u = lookup-engine_ratios N f e ref es out u

  lookup-fixture_round_ne :
      (f f' e : Text) (es : Dict (Value N)) (ref : Option N.Num) (out : Dict N.Num)
      → f' ≢ f
      → has b'/' e ≡ false
      → All (Flat N) es
      → lookup (pair_key f e) (fixture_round N f' es ref out) ≡ lookup (pair_key f e) out
  lookup-fixture_round_ne f f' e es none out n h a = refl
  lookup-fixture_round_ne f f' e es (some ref) out n h a =
      lookup-engine_ratios_ne N f f' e ref es out n h a

  lookup-fixture_ratios :
      (f e : Text) (m : Dict (Dict (Value N))) (out : Dict N.Num)
      → has b'/' e ≡ false
      → NodupKeys m
      → All IsTidy m
      → lookup (pair_key f e) (fixture_ratios N m out)
        ≡ or_else (from_fixture e (lookup f m)) (lookup (pair_key f e) out)
  unfolding fixture_ratios lookup
  lookup-fixture_ratios f e [] out h _ _ = refl
  lookup-fixture_ratios f e ((f', es) ∷ m) out h (fresh, u) ((v, a), rest) =
      let ref = usable N (lookup reference es) in
      let rounds = lookup-fixture_ratios f e m (fixture_round N f' es ref out) h u rest in
      elim (Bool-cases (same f' f)) [
        | inl s ↦
            let p : f' ≡ f = eq_of_same f' f s in
            let fresh' : lookup f m ≡ none = rw p at fresh in
            let first : lookup (pair_key f e) (fixture_round N f' es ref out)
                ≡ or_else (from_ref e es ref) (lookup (pair_key f e) out) =
              rw p (lookup-fixture_round f e es ref out v) in
            rw (s, rounds, fresh', first)
        | inr s ↦
            let n : f' ≢ f = λ p. cc ((same_iff f' f).1 p) in
            rw (s, rounds, lookup-fixture_round_ne f f' e es ref out n h a)
      ]

  -- `byFixture` keeps one entry for each fixture and engine.
  or_new-IsTidy :
      (f : Text) (m : Dict (Dict (Value N))) → All IsTidy m → IsTidy (f, or_new N (lookup f m))
  or_new-IsTidy f m t = elim (Option-cases (lookup f m)) [
    | inl e ↦ rw e (tt, tt)
    | inr (es, e) ↦ rw e (lookup-All (λ d. NodupKeys d × All (Flat N) d) f es m t e)
  ]

  add_row-IsTidy :
      (m : Dict (Dict (Value N))) (r : Row N)
      → has b'/' r.engine ≡ false
      → NodupKeys m
      → All IsTidy m
      → NodupKeys (add_row N m r) × All IsTidy (add_row N m r)
  unfolding add_row
  add_row-IsTidy m r h u t =
      let (v, a) = or_new-IsTidy r.fixture m t in
      let es = or_new N (lookup r.fixture m) in
      let es' = insert r.engine r.amortized_micros es in
      (
        insert-NodupKeys r.fixture es' m u,
        All-insert IsTidy r.fixture es' m
            (
              insert-NodupKeys r.engine r.amortized_micros es v,
              All-insert (Flat N) r.engine r.amortized_micros es h a,
            )
            t,
      )

  by_fixture-IsTidy :
      (rs : List (Row N)) (m : Dict (Dict (Value N)))
      → All (λ (r : Row N). has b'/' r.engine ≡ false) rs
      → NodupKeys m
      → All IsTidy m
      → NodupKeys (by_fixture N rs m) × All IsTidy (by_fixture N rs m)
  unfolding by_fixture
  by_fixture-IsTidy [] m _ u t = (u, t)
  by_fixture-IsTidy (r ∷ rs) m (h, hs) u t =
      let (u', t') = add_row-IsTidy m r h u t in by_fixture-IsTidy rs (add_row N m r) hs u' t'

  -- The ratio of an engine on a fixture, from the last cost of the engine there and the last cost
  -- of the reference.
  abbrev pub ratio_of : Text → Option (Value N) → Option (Value N) → Option N.Num
  ratio_of e cost ref = elim (usable N ref) [ none ↦ none | some r ↦ entry N e r cost ]

  from_fixture-eq-ratio_of :
      (e : Text) (o : Option (Dict (Value N)))
      → from_fixture e o ≡ ratio_of e (lookup e (or_new N o)) (lookup reference (or_new N o))
  unfolding usable lookup
  from_fixture-eq-ratio_of e none = refl
  from_fixture-eq-ratio_of e (some es) = ground arith

  ratios_lem : (run : Run N) → ratios N run ≡ fixture_ratios N (by_fixture N run.results []) []
  unfolding ratios
  ratios_lem run = refl

  last_pair :
      (f e : Text) (rs : List (Row N)) → lookup_pair N f e (by_fixture N rs []) ≡ last_cost N f e rs
  last_pair f e rs =
      lookup_pair-by_fixture N f e rs [] ∙ unfold lookup in or_else-none (last_cost N f e rs)

  -- Where no engine's name has a slash, the ratio under `fixture/engine` is the engine's cost
  -- divided by the reference's, each from the last row of that fixture and engine. There is none
  -- for the reference itself, where either row is missing, where either cost is not a finite
  -- number, and where the reference's cost is not above 0.
  pub lookup-ratios :
      (run : Run N) (f e : Text)
      → All (λ (r : Row N). has b'/' r.engine ≡ false) run.results
      → has b'/' e ≡ false
      → lookup (pair_key f e) (ratios N run)
        ≡ ratio_of e (last_cost N f e run.results) (last_cost N f reference run.results)
  unfolding lookup
  lookup-ratios run f e flat h =
      let (u, t) = by_fixture-IsTidy run.results [] flat tt tt in
      let m = by_fixture N run.results [] in
      ap (lookup (pair_key f e)) (ratios_lem run)
      ∙ lookup-fixture_ratios f e m [] h u t
      ∙ or_else-none (from_fixture e (lookup f m))
      ∙ from_fixture-eq-ratio_of e (lookup f m)
      ∙ ap₂ (ratio_of e) (last_pair f e run.results) (last_pair f reference run.results)
