-- ===== src/Bench/Written/Tests.antt =====
-- What bench/run.mjs writes for small results, and bench/compare.mjs on it.
use zopa.Base.{ℕ, ◌+◌, ◌≡◌, refl, ◌↔◌, false, none, some, List, [], ◌∷◌}
use zopa.Base.Text.{Text, codes, same}
use zopa.Base.Number.Fraction.{Fraction, fraction, fractions}
use zopa.Bench.Engine.{Decision, allow, Host}
use zopa.Bench.Measure.{ResultRow}
use zopa.Bench.Written.{engine_ids, collect, set_add, written_run}
use zopa.Bench.Written.Reference.{has_row, compare_main-written_run}
use zopa.Compare.{includes, reference, compare_main, no_reference}

abbrev bench : Host fractions
bench = record {
  World = ℕ;
  Instance = Decision;
  Fixture = Text;
  name = λ f. f;
  clock = λ w. (w, w + 1);
}

abbrev result : Text → Text → Fraction → ResultRow fractions bench
result fixture engine cost = record {
  fixture = fixture;
  engine = engine;
  label = engine;
  decision = some allow;
  figures = record {
    p50 = none;
    p95 = none;
    p99 = none;
    mean = cost;
    ops_per_sec = cost;
    amortized_micros = cost;
    memory_bytes = none;
    artifact_bytes = none;
    cold_start_ms = cost;
    eval_only_micros = none;
  };
}

abbrev results : List (ResultRow fractions bench)
results =
    result (codes "rbac") (codes "zopa") (fraction 3 2)
    ∷ result (codes "rbac") (codes "opa") (fraction 1 0)
    ∷ result (codes "jwt") (codes "zopa") (fraction 2 1)
    ∷ []

two_engines : engine_ids fractions bench results ≡ codes "zopa" ∷ codes "opa" ∷ []
unfolding engine_ids collect set_add includes same
two_engines = refl

refused : compare_main fractions (written_run fractions bench results) none ≡ no_reference
unfolding compare_main written_run engine_ids collect set_add includes same
refused = refl

compare_main-written_run_example :
    (compare_main fractions (written_run fractions bench results) none ≡ no_reference)
    ↔ (has_row fractions bench reference results ≡ false)
compare_main-written_run_example = compare_main-written_run fractions bench results none
