-- ===== src/Bench/Driver/Tests.antt =====
-- Runs of the driver of bench/run.mjs with small engines over a clock that ticks at each reading.
use zopa.Base.{suc, arith, ℕ, ◌+◌, ◌≡◌, refl, ◌≢◌, Bool, true, false, none, List, [], ◌∷◌}
use zopa.Base.Text.{Text, codes, same}
use zopa.Base.Dict.{lookup, insert}
use zopa.Base.Number.Fraction.{cents}
use zopa.Base.Exec.{Result, ok, threw, stuck, attempt, ◌>>=◌, finally}
use zopa.Bench.Args.{Budget}
use zopa.Bench.Engine.{Decision, allow, deny, failed, same_decision, Host, Engine}
use zopa.Bench.Stats.{summarise, micros, corrected, best_rate, window_ms}
use zopa.Bench.Measure.{opened, closed, ResultRow, State, enter}
use zopa.Bench.Driver.{Outcome, report, running, disagreed, gate_count, run_fixtures, start, drive}
use zopa.Bench.Driver.Closing.{opens-eq-closes}
use zopa.Bench.Driver.Balanced.{opens, closes}
use zopa.Bench.Measure.Rules.{Clock, Responsive}
use zopa.Bench.Driver.Ends.{drive-ne-running}
use zopa.Bench.Driver.Report.{Agreed, Agreed-of_report}

-- The world is the clock, and a fixture its name.
abbrev bench : Host cents
bench = record {
  World = ℕ;
  Instance = Decision;
  Fixture = Text;
  name = λ f. f;
  clock = λ w. (w, w + 400_000);
}

-- An engine that always gives one decision; a `broken` one cannot be set up.
abbrev engine : Text → Decision → Bool → Result (Unit {0}) → Engine cents bench
engine id d broken closing = record {
  id = id;
  label = id;
  supports = λ f. true;
  setup = λ f w. (elim broken [ true ↦ threw | false ↦ ok d ], w);
  decide = λ i w. (ok i, w);
  close = λ i w. (closing, w);
  memory_bytes = λ i w. (ok none, w);
  artifact_bytes = λ i w. (ok none, w);
  measure = none;
}

abbrev tiny : Budget
tiny = record { warmup = 1; iters = 2; throughput_ms = 2; throughput_runs = 1 }

run : List (Engine cents bench) → Outcome cents bench
unfolding drive gate_count same_decision same lookup insert summarise micros corrected best_rate
    window_ms enter attempt finally ◌>>=◌
run live = drive cents bench 10 tiny 0 live (codes "f" ∷ []) 0

abbrev zopa_engine : Engine cents bench
zopa_engine = engine (codes "zopa") allow false (ok tt)

abbrev engines_of : Outcome cents bench → List Text
engines_of (report [] code) = []
engines_of (report (r ∷ rs) code) = r.engine ∷ engines_of (report rs code)
engines_of _ = []

two_agree :
    engines_of (run (zopa_engine ∷ engine (codes "opa") allow false (ok tt) ∷ []))
    ≡ codes "zopa" ∷ codes "opa" ∷ []
unfolding run
two_agree = refl

one_differs : run (zopa_engine ∷ engine (codes "opa") deny false (ok tt) ∷ []) ≡ disagreed 1
unfolding run
one_differs = refl

error_path : run (engine (codes "zopa") failed false (ok tt) ∷ []) ≡ disagreed 1
unfolding run
error_path = refl

broken_engine :
    engines_of (run (engine (codes "opa") allow true (ok tt) ∷ zopa_engine ∷ []))
    ≡ codes "zopa" ∷ []
unfolding run
broken_engine = refl

abbrev two : List (Engine cents bench)
two = zopa_engine ∷ engine (codes "opa") allow false (ok tt) ∷ []

abbrev reported_rows : Outcome cents bench → List (ResultRow cents bench)
reported_rows (report rs code) = rs
reported_rows _ = []

two_report : drive cents bench 10 tiny 0 two (codes "f" ∷ []) 0 ≡ report (reported_rows (run two)) 0
unfolding run
two_report = refl

Agreed-of_report_example : Agreed cents bench (codes "f" ∷ []) (reported_rows (run two))
Agreed-of_report_example =
    Agreed-of_report cents bench 10 tiny 0 two (codes "f" ∷ []) 0 (reported_rows (run two)) 0
      two_report

-- `close` throws for these engines, and one of them cannot be set up.
abbrev three : List (Engine cents bench)
three =
    engine (codes "cedar") allow true (ok tt)
    ∷ engine (codes "zopa") allow false threw
    ∷ engine (codes "opa") allow false threw
    ∷ []

three_end : Result (Unit {0}) × State cents bench
unfolding run
three_end = run_fixtures cents bench 10 tiny 0 three (codes "f" ∷ []) (start cents bench 0)

-- The cold start's `close` throws too, which ends the run after the first engine was timed.
three-throws : three_end.0 ≡ threw
unfolding three_end
three-throws = refl

three_events :
    three_end.1.events ≡ closed 1 ∷ closed 0 ∷ closed 2 ∷ opened 2 ∷ opened 1 ∷ opened 0 ∷ []
unfolding three_end
three_events = refl

three-ne-stuck : three_end.0 ≢ stuck
three-ne-stuck e = cc three-throws

opens-eq-closes_example : opens 1 three_end.1.events ≡ closes 1 three_end.1.events
unfolding three_end
opens-eq-closes_example =
    opens-eq-closes cents bench 10 tiny 0 three (codes "f" ∷ []) 0 1 three-ne-stuck

-- An engine whose decision takes a nanosecond.
abbrev timed_engine : Text → Decision → Engine cents bench
timed_engine id d = record (engine id d false (ok tt)) {
  decide = λ (i : Decision) (w : ℕ). (ok i, suc w);
}

abbrev timed : List (Engine cents bench)
timed = timed_engine (codes "zopa") allow ∷ timed_engine (codes "opa") allow ∷ []

ticking : Clock cents bench (λ w. w)
ticking = record { not_before = λ w. omega arith; not_after = λ w. omega arith }

timed_engine-Responsive :
    (id : Text) (d : Decision) → Responsive cents bench (λ w. w) (timed_engine id d)
timed_engine-Responsive id d = record {
  setup_ends = λ f w e. cc;
  decide_ends = λ i w e. cc;
  decide_takes = λ i w. omega arith;
  close_ends = λ i w e. cc;
  memory_ends = λ i w e. cc;
  artifact_ends = λ i w e. cc;
  measure_ends = λ g f w p e. cc;
}

drive-ne-running_example : drive cents bench 2_000_001 tiny 0 timed (codes "f" ∷ []) 0 ≢ running
unfolding window_ms
drive-ne-running_example =
    drive-ne-running cents bench (λ w. w) ticking 2_000_001 tiny 0 (omega arith) timed
      (codes "f" ∷ []) 0
      (
        timed_engine-Responsive (codes "zopa") allow,
        (timed_engine-Responsive (codes "opa") allow, tt),
      )
