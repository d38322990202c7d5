-- ===== src/Engines/CedarNative/Tests.antt =====
-- Runs of bench/engines/cedar-native.mjs with a program that succeeds and one that fails.
use zopa.Base.{ℕ, suc, ◌≤◌, ◌≡◌, refl, ◌≢◌, true, none, some, List, [], ◌∷◌}
use zopa.Base.Text.{codes, same}
use zopa.Base.Dict.{lookup, insert}
use zopa.Base.Number.Fraction.{cents}
use zopa.Base.Exec.{Result, ok, threw, stuck, pure, attempt, ◌>>=◌}
use zopa.Bench.Args.{Budget}
use zopa.Bench.Engine.{allow}
use zopa.Engines.CedarNative.{
  NativeRow, Tools, State, build, outside, cargo_version, start_program, by_name, run_harness, rows,
  found, row_for, setup, measure, Call, set_up, measure_it, call, calls, loaded,
}
use zopa.Engines.CedarNative.Cache.{runs-calls_le}
use zopa.Engines.CedarNative.Again.{rows-rows}

abbrev row_a : NativeRow cents
row_a = record {
  name = codes "a";
  decision = allow;
  p50 = 1;
  p95 = 2;
  p99 = 3;
  mean = 1;
  ops_per_sec = 5;
  amortized_micros = 2;
  cold_start_ms = 1;
  eval_only = none;
}

-- The world counts the runs of `cargo build`.
abbrev tools : Result (List (NativeRow cents)) → Tools cents
tools r = record {
  World = ℕ;
  has_cargo = λ w. (true, w);
  cargo_build = λ w. (ok tt, suc w);
  program = λ b w. (r, w);
}

abbrev tiny : Budget
tiny = record { warmup = 1; iters = 2; throughput_ms = 2; throughput_runs = 1 }

abbrev session : List Call
session =
    set_up (codes "b") (some tiny)
    ∷ set_up (codes "a") none
    ∷ set_up (codes "a") (some tiny)
    ∷ measure_it (codes "a") tiny
    ∷ []

abbrev one_row : Tools cents
one_row = tools (ok (row_a ∷ []))

abbrev no_rows : Tools cents
no_rows = tools threw

after_calls : State cents one_row
unfolding calls call setup row_for rows run_harness build outside cargo_version start_program
    by_name found measure lookup insert same attempt ◌>>=◌ pure
after_calls = (calls cents one_row session (loaded cents one_row 0)).1

built_once : after_calls.world ≡ 1
unfolding after_calls
built_once = refl

started_once : after_calls.runs ≡ 1
unfolding after_calls
started_once = refl

failed_once : (calls cents no_rows session (loaded cents no_rows 0)).1.world ≡ 1
unfolding after_calls
failed_once = refl

decided_a : (setup cents one_row (codes "a") (some tiny) after_calls).0 ≡ ok allow
unfolding after_calls
decided_a = refl

runs-calls_le_example : (calls cents no_rows session (loaded cents no_rows 0)).1.runs ≤ 1
runs-calls_le_example = runs-calls_le cents no_rows session 0

rows-ne-stuck : (rows cents no_rows tiny (loaded cents no_rows 0)).0 ≢ stuck
unfolding after_calls
rows-ne-stuck e = cc

rows-rows_example :
    rows cents no_rows tiny (rows cents no_rows tiny (loaded cents no_rows 0)).1
    ≡ rows cents no_rows tiny (loaded cents no_rows 0)
rows-rows_example = rows-rows cents no_rows tiny tiny (loaded cents no_rows 0) rows-ne-stuck
