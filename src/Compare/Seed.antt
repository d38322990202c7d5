-- ===== src/Compare/Seed.antt =====
-- The baseline that bench/compare.mjs prints when it is given none.
use zopa.Base.{◌≡◌, refl, ap, ◌∙◌, inl, inr, Bool, true, false, Option, none, some}
use zopa.Base.{List, [], ◌∷◌, arith}
use zopa.Base.Tests.{if◌then◌else◌, Bool-cases}
use zopa.Base.Lists.{In}
use zopa.Base.Text.{Text, same, same_iff, eq_of_same, same_self}
use zopa.Base.Dict.{Dict, lookup, NodupKeys, insert-NodupKeys}
use zopa.Base.Number.{Numbers, JsValue, number}
use zopa.Compare.{
  reference, includes, pair_key, Run, Baseline, finite, usable, by_fixture, engine_ratios,
  fixture_ratios, fixture_round, put_ratio, ratios, seeded, status, default_threshold, to_json,
  json_ratios, seed, threshold_of, finds_member, compare_main,
}
use zopa.Compare.Rounds.{Holds, Overlap}
use zopa.Compare.Gate.{Passes, status_of_Passes}

module _ (N : Numbers) where
  put_ratio-NodupKeys :
      (f e : Text) (ref : N.Num) (c : Option N.Num) (out : Dict N.Num)
      → NodupKeys out
      → NodupKeys (put_ratio N f e ref c out)
  put_ratio-NodupKeys f e ref none out u = u
  put_ratio-NodupKeys f e ref (some c) out u = insert-NodupKeys (pair_key f e) (N.div c ref) out u

  engine_ratios-NodupKeys :
      (f : Text) (ref : N.Num) (es : List (Text × JsValue N.Num)) (out : Dict N.Num)
      → NodupKeys out
      → NodupKeys (engine_ratios N f ref es out)
  unfolding engine_ratios
  engine_ratios-NodupKeys f ref [] out u = u
  engine_ratios-NodupKeys f ref ((e, cost) ∷ es) out u =
      engine_ratios-NodupKeys f ref es _ (kept (same e reference))
    where
      kept : (b : Bool) → NodupKeys (if b then out else put_ratio N f e ref (finite N cost) out)
      kept true = u
      kept false = put_ratio-NodupKeys f e ref (finite N cost) out u

  fixture_round-NodupKeys :
      (f : Text) (es : Dict (JsValue N.Num)) (ref : Option N.Num) (out : Dict N.Num)
      → NodupKeys out
      → NodupKeys (fixture_round N f es ref out)
  fixture_round-NodupKeys f es none out u = u
  fixture_round-NodupKeys f es (some ref) out u = engine_ratios-NodupKeys f ref es out u

  fixture_ratios-NodupKeys :
      (m : List (Text × Dict (JsValue N.Num))) (out : Dict N.Num)
      → NodupKeys out
      → NodupKeys (fixture_ratios N m out)
  unfolding fixture_ratios
  fixture_ratios-NodupKeys [] out u = u
  fixture_ratios-NodupKeys ((f, es) ∷ m) out u =
      let ref = usable N (lookup reference es) in
      fixture_ratios-NodupKeys m (fixture_round N f es ref out)
        (fixture_round-NodupKeys f es ref out u)

  -- No key stands twice in the ratios.
  pub ratios-NodupKeys : (run : Run N) → NodupKeys (ratios N run)
  unfolding ratios
  ratios-NodupKeys run = fixture_ratios-NodupKeys (by_fixture N run.results []) [] tt

  lookup-In :
      (k : Text) (x : N.Num) (m : Dict N.Num) → NodupKeys m → In (k, x) m → lookup k m ≡ some x
  unfolding lookup
  lookup-In k x [] u h = absurd h
  lookup-In k x ((j, y) ∷ m) (fresh, u) (inl e) =
      let q : (j ≡ k) × (y ≡ x) = ground arith in ground (arith, same_iff j k)
  lookup-In k x ((j, y) ∷ m) (fresh, u) (inr h) = elim (Bool-cases (same j k)) [
    | inl s ↦
        let p : j ≡ k = eq_of_same j k s in
        absurd (cc (lookup-In k x m u h, fresh, ap (λ i. lookup i m) p))
    | inr s ↦ rw s (lookup-In k x m u h)
  ]

  -- Every ratio is a finite number.
  abbrev pub AllFinite : Dict N.Num → Type 0
  AllFinite m = (k : Text) (x : N.Num) → In (k, x) m → N.is_finite x ≡ true

  In-json_ratios :
      (m : Dict N.Num) (k : Text) (v : JsValue N.Num)
      → In (k, v) (json_ratios N m)
      → (x : N.Num) × (In (k, x) m) × (v ≡ to_json N x)
  unfolding json_ratios
  In-json_ratios [] k v h = absurd h
  In-json_ratios ((j, y) ∷ m) k v (inl e) = (y, inl (ground arith), ground arith)
  In-json_ratios ((j, y) ∷ m) k v (inr h) = let (x, i, e) = In-json_ratios m k v h in (x, inr i, e)

  to_json_finite : (x : N.Num) → N.is_finite x ≡ true → to_json N x ≡ number x
  to_json_finite x h = rw h

  json_ratios-numbers :
      (m : Dict N.Num)
      → AllFinite m
      → (k : Text) (v : JsValue N.Num) → In (k, v) (json_ratios N m)
      → (w : N.Num) × (v ≡ number w) × (In (k, w) m)
  json_ratios-numbers m fin k v h =
      let (x, i, e) = In-json_ratios m k v h in (x, e ∙ to_json_finite x (fin k x i), i)

  own-Holds :
      (threshold : N.Num) (m : Dict N.Num)
      → NodupKeys m
      → AllFinite m
      → ((x : N.Num) → N.lt threshold (N.div x x) ≡ false)
      → Holds N threshold m (json_ratios N m)
  own-Holds threshold m u fin law = record {
    numbers = λ k v i. let (w, e, _) = json_ratios-numbers m fin k v i in (w, e);
    no_member = λ k was i.
        let (w, _, i') = json_ratios-numbers m fin k (number was) i in
        unfold finds_member in rw (lookup-In k w m u i') refl;
    within = λ k was now i e.
        let (w, p, i') = json_ratios-numbers m fin k (number was) i in
        let q : was ≡ w = ground arith in
        let r : now ≡ w = ground (arith, lookup-In k w m u i') in rw (q, r) (law w);
  }

  own-Overlap :
      (k : Text) (x : N.Num) (m : Dict N.Num)
      → AllFinite ((k, x) ∷ m)
      → Overlap N ((k, x) ∷ m) (json_ratios N ((k, x) ∷ m))
  unfolding json_ratios lookup
  own-Overlap k x m fin = (
    k,
    x,
    x,
    inl (ap (λ (v : JsValue N.Num). (k, v)) (to_json_finite x (fin k x (inl refl)))),
    rw same_self,
  )

  -- What seeding has shown, and the document that it prints.
  seed_parts :
      (run : Run N) (b : Baseline N)
      → compare_main N run none ≡ seeded b
      → (includes reference run.engines ≡ true) × (seed N (ratios N run) ≡ seeded b)
  unfolding compare_main
  seed_parts run b h = elim (Bool-cases (includes reference run.engines)) [
    | inl e ↦ (e, rw e at h)
    | inr e ↦ absurd (cc (rw e at h))
  ]

  seeded-Passes :
      (run : Run N) (b : Baseline N) (m : Dict N.Num)
      → ratios N run ≡ m
      → includes reference run.engines ≡ true
      → seed N m ≡ seeded b
      → AllFinite m
      → ((x : N.Num) → N.lt (default_threshold N) (N.div x x) ≡ false)
      → Passes N run b (json_ratios N m)
  unfolding seed threshold_of
  seeded-Passes run b [] e ran h fin law = absurd (cc)
  seeded-Passes run b ((k, x) ∷ m) e ran h fin law =
      let b' : Baseline N = record {
        threshold = number (default_threshold N);
        ratios = some (json_ratios N ((k, x) ∷ m));
      } in
      let p : b ≡ b' = ground arith in
      rw p (record {
        ran = ran;
        entries = refl;
        overlap = rw e (own-Overlap k x m fin);
        holds =
            rw e (
              own-Holds (default_threshold N) ((k, x) ∷ m) (rw e at (ratios-NodupKeys run)) fin
                law);
      })

  -- A run compared with the baseline that it seeds itself exits with status 0, where each of its
  -- ratios is a finite number and no number divided by itself is above the default threshold.
  pub status-seeded :
      (run : Run N) (b : Baseline N)
      → compare_main N run none ≡ seeded b
      → AllFinite (ratios N run)
      → ((x : N.Num) → N.lt (default_threshold N) (N.div x x) ≡ false)
      → status N (compare_main N run (some b)) ≡ 0
  status-seeded run b h fin law =
      let (ran, s) = seed_parts run b h in
      status_of_Passes N run b (json_ratios N (ratios N run))
        (seeded-Passes run b (ratios N run) refl ran s fin law)
