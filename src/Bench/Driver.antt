-- ===== src/Bench/Driver.antt =====
-- The driver of bench/run.mjs: engines are set up for a fixture, must agree on its decision, are
-- timed, and are closed.
mod Balanced
mod Balance
mod Closed
mod Pushes
mod Settled
pub mod Closing
pub mod Agreement
pub mod Report
pub mod Ends
mod Tests
use zopa.Base.{ℕ, suc, ◌+◌, Bool, true, false, Option, none, some, List, [], ◌∷◌, ◌++◌}
use zopa.Base.Tests.{◌==◌, if◌then◌else◌}
use zopa.Base.Text.{Text, codes}
use zopa.Base.Dict.{Dict, lookup, insert}
use zopa.Base.Number.{Numbers}
use zopa.Base.Exec.{Result, ok, threw, stuck, Exec, pure, gets, attempt, ◌>>=◌, ◌>>◌, finally}
use zopa.Bench.Args.{Budget}
use zopa.Bench.Stats.{Summary, summarise}
use zopa.Bench.Engine.{Decision, failed, same_decision, Figures, Host, Engine}
use zopa.Bench.Measure.{
  ResultRow, State, Live, M, outside, modify, open_instance, close_instance, decide, warm_up,
  samples, throughput, cold_start,
}

-- The id of the engine under test, `zopa.id`.
abbrev pub zopa_id : Text
zopa_id = codes "zopa"

abbrev differs : Decision → Option Decision → Bool
differs d none = true
differs d (some r) = if same_decision d r then false else true

-- The loop of the agreement gate: decisions that are not the reference.
unfoldable pub disagreeing : Option Decision → Dict Decision → ℕ
disagreeing reference [] = 0
disagreeing reference ((id, d) ∷ ds) =
    let rest = disagreeing reference ds in if differs d reference then suc rest else rest

abbrev errors : Option Decision → ℕ
errors none = 0
errors (some d) = if same_decision d failed then 1 else 0

-- What the gate adds to `disagreements` for a fixture.
unfoldable pub gate_count : Dict Decision → ℕ
unfolding disagreeing
gate_count ds = let reference = lookup zopa_id ds in disagreeing reference ds + errors reference

module _ (N : Numbers) (H : Host N) where
  note_failure : Option (Live N H) → (State N H) → (State N H)
  note_failure none s = record s { exit_code = 1 }
  note_failure (some e) s = s

  keep : Option (Live N H) → List (Live N H) → List (Live N H)
  keep none es = es
  keep (some e) es = e ∷ es

  -- The loop that fills `engines`. A failed setup is reported, and the others go on.
  unfoldable pub setup_engines : H.Fixture → List (Engine N H) → M N H (List (Live N H))
  unfolding open_instance modify note_failure keep
  setup_engines f [] = pure []
  setup_engines f (m ∷ ms) = do
    e ← attempt (open_instance N H m f)
    modify N H (note_failure e)
    es ← setup_engines f ms
    pure (keep e es)

  -- The decisions, by the engine's id.
  unfoldable pub decide_all : List (Live N H) → Dict Decision → M N H (Dict Decision)
  unfolding decide
  decide_all [] ds = pure ds
  decide_all (e ∷ es) ds = do d ← decide N H e; decide_all es (insert e.mod_.id d ds)

  -- The agreement gate.
  unfoldable pub gate : List (Live N H) → M N H (Dict Decision)
  unfolding decide_all modify gate_count
  gate es = do
    ds ← decide_all es []
    modify N H (λ s. record s { disagreements = s.disagreements + gate_count ds })
    pure ds

  unfoldable pub row : H.Fixture → Dict Decision → (Live N H) → Figures N → (ResultRow N H)
  row f ds e figures = record {
    fixture = H.name f;
    engine = e.mod_.id;
    label = e.mod_.label;
    decision = lookup e.mod_.id ds;
    figures = figures;
  }

  push_row : (ResultRow N H) → (State N H) → (State N H)
  push_row r s = record s { results = s.results ++ (r ∷ []) }

  -- The figures of an engine that is timed from here.
  unfoldable pub timed_figures : ℕ → Budget → N.Num → H.Fixture → (Live N H) → M N H (Figures N)
  unfolding warm_up throughput samples cold_start outside
  timed_figures fuel b floor f e = do
    warm_up N H b.warmup e
    rate ← throughput N H fuel b e
    xs ← samples N H floor b.iters e
    memory ← outside N H (e.mod_.memory_bytes e.inst)
    artifact ← outside N H (e.mod_.artifact_bytes e.inst)
    cold ← cold_start N H e.mod_ f
    let summary = summarise N xs
    pure (record {
      p50 = summary.p50;
      p95 = summary.p95;
      p99 = summary.p99;
      mean = summary.mean;
      ops_per_sec = rate;
      amortized_micros = N.div (N.of_nat 1_000_000) rate;
      memory_bytes = memory;
      artifact_bytes = artifact;
      cold_start_ms = cold;
      eval_only_micros = none;
    })

  after_measure :
      H.Fixture → Dict Decision → (Live N H) → Option (Figures N) → (State N H) → (State N H)
  unfolding push_row row
  after_measure f ds e none s = record s { exit_code = 1 }
  after_measure f ds e (some figures) s = push_row (row f ds e figures) s

  time_by :
      Option (H.Fixture → Exec H.World (Figures N))
      → ℕ
      → Budget
      → N.Num
      → H.Fixture
      → Dict Decision
      → (Live N H)
      → M N H (Unit {0})
  unfolding after_measure timed_figures outside modify
  time_by (some measure) fuel b floor f ds e = do
    figures ← attempt (outside N H (measure f))
    modify N H (after_measure f ds e figures)
  time_by none fuel b floor f ds e = do
    figures ← timed_figures fuel b floor f e
    modify N H (push_row (row f ds e figures))

  unfoldable pub time_engines :
      ℕ → Budget → N.Num → H.Fixture → Dict Decision → List (Live N H) → M N H (Unit {0})
  unfolding time_by
  time_engines fuel b floor f ds [] = pure tt
  time_engines fuel b floor f ds (e ∷ es) = do
    time_by e.mod_.measure fuel b floor f ds e
    time_engines fuel b floor f ds es

  -- The body of the `try` for a fixture. No engine is timed after a disagreement.
  unfoldable pub agree_then_time :
      ℕ → Budget → N.Num → H.Fixture → List (Live N H) → M N H (Unit {0})
  unfolding gate time_engines
  agree_then_time fuel b floor f es = do
    ds ← gate es
    disagreements ← gets (λ s. s.disagreements)
    if disagreements == 0 then time_engines fuel b floor f ds es else pure tt

  -- The loop of the `finally`: one engine failing to close does not strand the others.
  unfoldable pub close_all : List (Live N H) → M N H (Unit {0})
  unfolding close_instance
  close_all [] = pure tt
  close_all (e ∷ es) = do attempt (close_instance N H e); close_all es

  -- `live.filter((m) => m.supports(fixture))`
  unfoldable pub runnable : H.Fixture → List (Engine N H) → List (Engine N H)
  runnable f [] = []
  runnable f (m ∷ ms) = let rest = runnable f ms in if m.supports f then m ∷ rest else rest

  unfoldable pub run_fixture : ℕ → Budget → N.Num → List (Engine N H) → H.Fixture → M N H (Unit {0})
  unfolding setup_engines agree_then_time close_all runnable
  run_fixture fuel b floor live f = do
    es ← setup_engines f (runnable f live)
    finally (agree_then_time fuel b floor f es) (close_all es)

  -- `for (const fixture of fixtures)`
  unfoldable pub run_fixtures :
      ℕ → Budget → N.Num → List (Engine N H) → List H.Fixture → M N H (Unit {0})
  unfolding run_fixture
  run_fixtures fuel b floor live [] = pure tt
  run_fixtures fuel b floor live (f ∷ fs) = do
    run_fixture fuel b floor live f
    run_fixtures fuel b floor live fs

  -- How the script ends after the loop: the rows that are reported, and the exit status.
  pub data Outcome : Type 0 where
    report : List (ResultRow N H) → ℕ → Outcome
    disagreed : ℕ → Outcome
    crashed : Outcome
    running : Outcome

  unfoldable pub finish : Result (Unit {0}) × (State N H) → Outcome
  finish (ok _, s) =
      if s.disagreements == 0 then report s.results s.exit_code else disagreed s.disagreements
  finish (threw, s) = crashed
  finish (stuck, s) = running

  abbrev pub start : H.World → (State N H)
  start w = record {
    world = w;
    results = [];
    disagreements = 0;
    exit_code = 0;
    events = [];
    next = 0;
  }

  unfoldable pub drive : ℕ → Budget → N.Num → List (Engine N H) → List H.Fixture → H.World → Outcome
  unfolding run_fixtures finish
  drive fuel b floor live fs w = finish (run_fixtures fuel b floor live fs (start w))
