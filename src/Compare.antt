-- ===== src/Compare.antt =====
-- bench/compare.mjs: the regression gate. Costs are kept as ratios to the reference engine's cost
-- on the same fixture of the same run, and a run is compared with a committed baseline.
pub mod Pairs
pub mod Rounds
pub mod Gate
pub mod Ratios
pub mod Seed
pub mod Scale
mod Tests
use zopa.Base.{ℕ, suc, Bool, true, false, Option, none, some, List, [], ◌∷◌, ◌++◌}
use zopa.Base.Tests.{◌==◌, if◌then◌else◌}
use zopa.Base.Text.{Text, codes, same}
use zopa.Base.Dict.{Dict, lookup, insert}
use zopa.Base.Number.{Numbers, JsValue, number, other}

-- const REFERENCE
abbrev pub reference : Text
reference = codes "zopa-compiled"

-- The key `${fixture}/${engine}`.
abbrev pub pair_key : Text → Text → Text
pair_key fixture engine = fixture ++ (codes "/" ++ engine)

-- `run.engines.includes(id)`
unfoldable pub includes : Text → List Text → Bool
includes id [] = false
includes id (e ∷ es) = elim (same e id) [ true ↦ true | false ↦ includes id es ]

-- The members that the object `current` has from `Object.prototype`. None of them is a number.
abbrev pub object_members : List Text
object_members =
    codes "constructor"
    ∷ codes "__defineGetter__"
    ∷ codes "__defineSetter__"
    ∷ codes "hasOwnProperty"
    ∷ codes "__lookupGetter__"
    ∷ codes "__lookupSetter__"
    ∷ codes "isPrototypeOf"
    ∷ codes "propertyIsEnumerable"
    ∷ codes "toString"
    ∷ codes "valueOf"
    ∷ codes "__proto__"
    ∷ codes "toLocaleString"
    ∷ []

-- `current[key]` is such a member: the key is one of their names, and `current` has no own entry.
unfoldable pub finds_member {ℓ} : {A : Type ℓ} → Text → Option A → Bool
finds_member key (some now) = false
finds_member key none = includes key object_members

module _ (N : Numbers) where
  -- const THRESHOLD = 1.5
  abbrev pub default_threshold : N.Num
  default_threshold = N.div (N.of_nat 3) (N.of_nat 2)

  pub record Row : Type 0 where
    pub fixture : Text
    pub engine : Text
    pub amortized_micros : JsValue N.Num

  pub record Run : Type 0 where
    pub engines : List Text
    pub results : List Row

  -- What the gate reads of a baseline: `typeof baseline.threshold === 'number'`, and the entries of
  -- `baseline.ratios`, which is missing in a document of another shape.
  pub record Baseline : Type 0 where
    pub threshold : JsValue N.Num
    pub ratios : Option (Dict (JsValue N.Num))

  -- `Number.isFinite(v)`, with the number
  unfoldable pub finite : JsValue N.Num → Option N.Num
  finite (number x) = if N.is_finite x then some x else none
  finite other = none

  abbrev positive : Option N.Num → Option N.Num
  positive none = none
  positive (some x) = if N.le x (N.of_nat 0) then none else some x

  -- The reference cost, unless `!Number.isFinite(ref) || ref <= 0`.
  unfoldable pub usable : Option (JsValue N.Num) → Option N.Num
  unfolding finite
  usable none = none
  usable (some v) = positive (finite v)

  abbrev or_new : Option (Dict (JsValue N.Num)) → Dict (JsValue N.Num)
  or_new none = []
  or_new (some m) = m

  -- One round of the loop that fills `byFixture`.
  unfoldable pub add_row : Dict (Dict (JsValue N.Num)) → Row → Dict (Dict (JsValue N.Num))
  add_row m r =
      insert r.fixture (insert r.engine r.amortized_micros (or_new (lookup r.fixture m))) m

  unfoldable pub by_fixture : List Row → Dict (Dict (JsValue N.Num)) → Dict (Dict (JsValue N.Num))
  by_fixture [] m = m
  by_fixture (r ∷ rs) m = by_fixture rs (add_row m r)

  abbrev put_ratio : Text → Text → N.Num → Option N.Num → Dict N.Num → Dict N.Num
  put_ratio fixture engine ref none out = out
  put_ratio fixture engine ref (some cost) out =
      insert (pair_key fixture engine) (N.div cost ref) out

  -- `for (const [engine, cost] of engines)`, with its two `continue`s
  unfoldable pub engine_ratios :
      Text → N.Num → List (Text × JsValue N.Num) → Dict N.Num → Dict N.Num
  engine_ratios fixture ref [] out = out
  engine_ratios fixture ref ((engine, cost) ∷ es) out =
      engine_ratios fixture ref es
        (if same engine reference then out else put_ratio fixture engine ref (finite cost) out)

  abbrev fixture_round : Text → Dict (JsValue N.Num) → Option N.Num → Dict N.Num → Dict N.Num
  fixture_round fixture engines none out = out
  fixture_round fixture engines (some ref) out = engine_ratios fixture ref engines out

  unfoldable pub fixture_ratios : List (Text × Dict (JsValue N.Num)) → Dict N.Num → Dict N.Num
  fixture_ratios [] out = out
  fixture_ratios ((fixture, engines) ∷ fs) out =
      fixture_ratios fs (fixture_round fixture engines (usable (lookup reference engines)) out)

  -- function ratios(run)
  unfoldable pub ratios : Run → Dict N.Num
  unfolding by_fixture fixture_ratios
  ratios run = fixture_ratios (by_fixture run.results []) []

  -- One line of the table: the baseline's ratio, and the current one with the change, if any.
  pub data Line : Type 0 where
    absent : Text → N.Num → Line
    compared : Text → N.Num → N.Num → N.Num → Bool → Line

  pub record Tally : Type 0 where
    pub lines : List Line
    pub compared_count : ℕ
    pub failures : ℕ

  -- One round of the comparison for a baseline number `was`; `now` is `current[key]`.
  unfoldable pub tally_row : N.Num → Text → N.Num → Option N.Num → Tally → Tally
  tally_row threshold key was none t = record t { lines = t.lines ++ (absent key was ∷ []) }
  tally_row threshold key was (some now) t =
      let change = N.div was now in
      let bad = N.lt threshold change in
      record {
        lines = t.lines ++ (compared key was now change bad ∷ []);
        compared_count = suc t.compared_count;
        failures = if bad then suc t.failures else t.failures;
      }

  -- The loop over `Object.entries(baseline.ratios)`. A baseline value that is no number has no
  -- `toFixed`, and the call throws (`none`). So it does for `now` if that is no ratio but a member
  -- of `Object.prototype`.
  unfoldable pub compare_loop :
      N.Num → Dict N.Num → List (Text × JsValue N.Num) → Tally → Option Tally
  compare_loop threshold current [] t = some t
  compare_loop threshold current ((key, other) ∷ rest) t = none
  compare_loop threshold current ((key, number was) ∷ rest) t =
      if finds_member key (lookup key current)
      then none
      else compare_loop threshold current rest (tally_row threshold key was (lookup key current) t)

  -- How the script ends. `seeded` carries the document that is printed.
  pub data Outcome : Type 0 where
    no_reference : Outcome
    empty_baseline : Outcome
    seeded : Baseline → Outcome
    threw : Outcome
    nothing_compared : List Line → Outcome
    regressed : ℕ → List Line → Outcome
    passed : List Line → Outcome

  -- The exit status: an uncaught exception exits with 1.
  unfoldable pub status : Outcome → ℕ
  status (seeded b) = 0
  status (passed ls) = 0
  status no_reference = 1
  status empty_baseline = 1
  status threw = 1
  status (nothing_compared ls) = 1
  status (regressed n ls) = 1

  abbrev to_json : N.Num → JsValue N.Num
  to_json x = if N.is_finite x then number x else other

  -- `JSON.stringify` of the ratios, read back: a number that is not finite is written as `null`.
  unfoldable pub json_ratios : Dict N.Num → Dict (JsValue N.Num)
  json_ratios [] = []
  json_ratios ((k, x) ∷ m) = (k, to_json x) ∷ json_ratios m

  -- The branch without a baseline argument.
  unfoldable pub seed : Dict N.Num → Outcome
  seed [] = empty_baseline
  seed ((k, x) ∷ m) =
      seeded
        (record { threshold = number default_threshold; ratios = some (json_ratios ((k, x) ∷ m)) })

  -- `typeof baseline.threshold === 'number' ? baseline.threshold : THRESHOLD`
  unfoldable pub threshold_of : JsValue N.Num → N.Num
  threshold_of (number t) = t
  threshold_of other = default_threshold

  -- The exits after the loop.
  unfoldable pub verdict : Option Tally → Outcome
  verdict none = threw
  verdict (some t) =
      if t.compared_count == 0
      then nothing_compared t.lines
      else if t.failures == 0
      then passed t.lines
      else regressed t.failures t.lines

  abbrev pub no_lines : Tally
  no_lines = record { lines = []; compared_count = 0; failures = 0 }

  abbrev pub compare_ratios : Dict N.Num → N.Num → Option (Dict (JsValue N.Num)) → Outcome
  compare_ratios current threshold none = threw
  compare_ratios current threshold (some entries) =
      verdict (compare_loop threshold current entries no_lines)

  abbrev pub branch : Dict N.Num → Option Baseline → Outcome
  branch current none = seed current
  branch current (some b) = compare_ratios current (threshold_of b.threshold) b.ratios

  -- The script, on the parsed run and the parsed baseline (`none` without the second argument).
  unfoldable pub compare_main : Run → Option Baseline → Outcome
  unfolding ratios seed compare_loop verdict threshold_of
  compare_main run baseline =
      if includes reference run.engines then branch (ratios run) baseline else no_reference
