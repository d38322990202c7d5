-- ===== src/Compare/Gate.antt =====
-- When bench/compare.mjs passes a run against a baseline.
use zopa.Base.{◌<◌, ◌≡◌, refl, ◌↔◌, Bool, true, false, Option, none, some}
use zopa.Base.{List, arith}
use zopa.Base.Tests.{if◌then◌else◌}
use zopa.Base.Text.{Text}
use zopa.Base.Dict.{Dict}
use zopa.Base.Number.{Numbers, JsValue}
use zopa.Compare.{
  reference, includes, Run, Baseline, ratios, Tally, no_lines, compare_loop, threshold_of,
  compare_ratios, no_reference, verdict, status, compare_main,
}
use zopa.Compare.Rounds.{
  Holds, Overlap, loop-Overlap, loop-compared, loop-kept, loop-no_member, loop-numbers, loop-total,
  loop-within,
}

module _ (N : Numbers) where
  verdict-passes :
      (t : Tally N) → 0 < t.compared_count → t.failures ≡ 0 → status N (verdict N (some t)) ≡ 0
  unfolding status verdict
  verdict-passes t c f = ground arith

  verdict-passed :
      (o : Option (Tally N))
      → status N (verdict N o) ≡ 0
      → (t : Tally N) × (o ≡ some t) × (0 < t.compared_count) × (t.failures ≡ 0)
  unfolding status verdict
  verdict-passed none h = absurd (omega arith)
  verdict-passed (some t) h = (t, refl, ground arith, ground arith)

  -- What a passing comparison has shown.
  pub record Passes (run : Run N) (b : Baseline N) (es : List (Text × JsValue N.Num)) : Type 0 where
    pub ran : includes reference run.engines ≡ true
    pub entries : b.ratios ≡ some es
    pub overlap : Overlap N (ratios N run) es
    pub holds : Holds N (threshold_of N b.threshold) (ratios N run) es

  passed_ratios :
      (current : Dict N.Num) (threshold : N.Num) (o : Option (Dict (JsValue N.Num)))
      → status N (compare_ratios N current threshold o) ≡ 0
      → (es : List (Text × JsValue N.Num)) × (o ≡ some es)
        × Overlap N current es
        × Holds N threshold current es
  passed_ratios current threshold none h = absurd (unfold status in omega arith)
  passed_ratios current threshold (some es) h =
      let (t, e, c, f) = verdict-passed (compare_loop N threshold current es (no_lines N)) h in
      (
        es,
        refl,
        loop-Overlap N threshold current es (no_lines N) t e c,
        record {
          numbers = loop-numbers N threshold current es (no_lines N) t e;
          no_member = loop-no_member N threshold current es (no_lines N) t e;
          within = loop-within N threshold current es (no_lines N) t e f;
        },
      )

  passed_branch :
      (run : Run N) (b : Baseline N) (ran : Bool)
      → status N (
          if ran
          then compare_ratios N (ratios N run) (threshold_of N b.threshold) b.ratios
          else no_reference)
        ≡ 0
      → includes reference run.engines ≡ ran
      → (es : List (Text × JsValue N.Num)) × Passes run b es
  passed_branch run b false h e = absurd (unfold status in omega arith)
  passed_branch run b true h e =
      let (es, entries, overlap, holds) =
        passed_ratios (ratios N run) (threshold_of N b.threshold) b.ratios h in
      (es, record { ran = e; entries = entries; overlap = overlap; holds = holds })

  pub Passes-of_status :
      (run : Run N) (b : Baseline N)
      → status N (compare_main N run (some b)) ≡ 0
      → (es : List (Text × JsValue N.Num)) × Passes run b es
  Passes-of_status run b h =
      passed_branch run b (includes reference run.engines) (unfold compare_main in h) refl

  pub status_of_Passes :
      (run : Run N) (b : Baseline N) (es : List (Text × JsValue N.Num))
      → Passes run b es
      → status N (compare_main N run (some b)) ≡ 0
  status_of_Passes run b es p =
      let threshold : N.Num = threshold_of N b.threshold in
      let (t, e) =
        loop-total N threshold (ratios N run) es (no_lines N) p.holds.numbers p.holds.no_member in
      unfold compare_main in
      rw (p.ran, p.entries, e)
        (verdict-passes t (loop-compared N threshold (ratios N run) es (no_lines N) t e p.overlap)
          (loop-kept N threshold (ratios N run) es (no_lines N) t e refl p.holds.within))

  -- Compared with a baseline, the script exits with status 0 exactly when the reference engine ran,
  -- the baseline has a table of numbers, at least one of its entries is in the run, for each of its
  -- entries that is in the run the baseline's ratio divided by the run's is not above the baseline's
  -- threshold (1.5 if it has none), and no entry that is not in the run has the name of a member of
  -- `Object.prototype`.
  pub status-zero_iff :
      (run : Run N) (b : Baseline N)
      → (status N (compare_main N run (some b)) ≡ 0)
        ↔ ((es : List (Text × JsValue N.Num)) × Passes run b es)
  status-zero_iff run b = (Passes-of_status run b, λ (es, p). status_of_Passes run b es p)
