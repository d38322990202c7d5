-- ===== src/Bench/Printed/Tests.antt =====
-- Tables over fixed-point numbers.
use zopa.Base.{
  ℕ, zero, suc, ◌+◌, ◌/◌, ◌%◌, ◌≡◌, refl, Option, none, some, List, [], ◌∷◌, ◌++◌, arith,
}
use zopa.Base.Tests.{ltb, if◌then◌else◌}
use zopa.Base.Lists.{All}
use zopa.Base.Text.{Text, codes}
use zopa.Base.Number.Fraction.{cents}
use zopa.Bench.Engine.{Decision, allow, Host}
use zopa.Bench.Measure.{ResultRow}
use zopa.Bench.Printed.{
  Format, latency_table, latency_row, throughput_table, throughput_row, self_measured_lines,
  pad_end, pad_start, repeat, num, kib, decision_text,
}
use zopa.Bench.Printed.Aligned.{LatencyFits, ThroughputFits, HasWidth, tables-HasWidth}

-- The decimal digits, at most as many as the fuel.
digits : ℕ → ℕ → Text
digits zero n = []
digits (suc fuel) n =
    let rest = digits fuel (n / 10) in
    if ltb n 10 then (48 + n) ∷ [] else rest ++ ((48 + n % 10) ∷ [])

abbrev fixed_point : ℕ → ℕ → Text
fixed_point x zero = digits 12 (x / 100)
fixed_point x (suc d) = digits 12 (x / 100) ++ (46 ∷ (48 + x / 10 % 10) ∷ (48 + x % 10) ∷ [])

abbrev format : Format cents
format = record { fixed = fixed_point; other_text = λ n. codes "other" }

abbrev bench : Host cents
bench = record {
  World = ℕ;
  Instance = Decision;
  Fixture = Text;
  name = λ f. f;
  clock = λ w. (w, w + 1);
}

abbrev result : Text → Option ℕ → Option ℕ → ResultRow cents bench
result engine p memory = record {
  fixture = codes "rbac";
  engine = engine;
  label = engine;
  decision = some allow;
  figures = record {
    p50 = p;
    p95 = p;
    p99 = p;
    mean = 125;
    ops_per_sec = 80_000_000;
    amortized_micros = 125;
    memory_bytes = memory;
    artifact_bytes = none;
    cold_start_ms = 4210;
    eval_only_micros = p;
  };
}

abbrev rows : List (ResultRow cents bench)
rows =
    result (codes "zopa") (some 131) (some 13_107_200)
    ∷ result (codes "cedar-native") none none
    ∷ []

printed_row :
    latency_row cents format bench (result (codes "zopa") (some 131) none)
    ≡ codes "rbac            | zopa          |   1 |   1.31 |   1.31 |   1.31 |   1.25"
unfolding latency_row pad_end pad_start repeat num decision_text digits
printed_row = refl

printed_throughput :
    throughput_row cents format bench (result (codes "zopa") (some 131) (some 13_107_200))
    ≡ codes "rbac            | zopa          |     800000 |     128 |            - |   42.10"
unfolding throughput_row pad_end pad_start repeat num kib digits
printed_throughput = refl

-- Only a row that has the figure is self-measured.
printed_self :
    self_measured_lines cents format bench rows
    ≡ codes
        "  rbac             zopa              1.25 us end to end,    1.31 us evaluating a request it already holds"
      ∷ []
unfolding self_measured_lines pad_end pad_start repeat num digits
printed_self = refl

fitting : All (LatencyFits cents format bench) rows
unfolding decision_text digits
fitting = (
  record {
    names = record { fixture = omega arith; engine = omega arith };
    decision = omega arith;
    p50 = omega arith;
    p95 = omega arith;
    p99 = omega arith;
    amort = omega arith;
  },
  (
    record {
      names = record { fixture = omega arith; engine = omega arith };
      decision = omega arith;
      p50 = tt;
      p95 = tt;
      p99 = tt;
      amort = omega arith;
    },
    tt,
  ),
)

fitting_throughput : All (ThroughputFits cents format bench) rows
unfolding digits
fitting_throughput = (
  record {
    names = record { fixture = omega arith; engine = omega arith };
    ops_per_sec = omega arith;
    memory = omega arith;
    artifact = tt;
    cold_start = omega arith;
  },
  (
    record {
      names = record { fixture = omega arith; engine = omega arith };
      ops_per_sec = omega arith;
      memory = tt;
      artifact = tt;
      cold_start = omega arith;
    },
    tt,
  ),
)

tables-HasWidth_example :
    All (HasWidth cents format bench 73) (latency_table cents format bench rows)
    × All (HasWidth cents format bench 79) (throughput_table cents format bench rows)
tables-HasWidth_example = tables-HasWidth cents format bench rows rows fitting fitting_throughput
