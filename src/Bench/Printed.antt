-- ===== src/Bench/Printed.antt =====
-- The tables that bench/run.mjs prints: the latencies, the throughput, and the rows that an engine
-- measured itself. `Number.prototype.toFixed` is a parameter.
pub mod Aligned
mod Tests
use zopa.Base.{ℕ, zero, suc, ◌-◌, Option, none, some, List, [], ◌∷◌, ◌++◌, map}
use zopa.Base.Lists.{length}
use zopa.Base.Text.{Text, codes}
use zopa.Base.Number.{Numbers}
use zopa.Bench.Engine.{Decision, allow, deny, failed, other_value, Host}
use zopa.Bench.Measure.{ResultRow}

-- The text of n times a code unit.
unfoldable pub repeat : ℕ → ℕ → Text
repeat c zero = []
repeat c (suc n) = c ∷ repeat c n

-- `s.padEnd(n)` and `s.padStart(n)`
unfoldable pub pad_end : Text → ℕ → Text
unfolding repeat
pad_end s n = s ++ repeat 32 (n - length s)

unfoldable pub pad_start : Text → ℕ → Text
unfolding repeat
pad_start s n = repeat 32 (n - length s) ++ s

abbrev pub bar : Text
bar = codes " |"

-- `x.toFixed(d)`, and `String(v)` of a decision that is none of 1, 0 and -1
pub record Format (N : Numbers) : Type 0 where
  pub fixed : N.Num → ℕ → Text
  pub other_text : ℕ → Text

module _ (N : Numbers) (F : Format N) where
  unfoldable pub decision_text : Option Decision → Text
  decision_text none = codes "undefined"
  decision_text (some allow) = codes "1"
  decision_text (some deny) = codes "0"
  decision_text (some failed) = codes "-1"
  decision_text (some (other_value n)) = F.other_text n

  -- const num
  unfoldable pub num : Option N.Num → ℕ → ℕ → Text
  unfolding pad_start
  num none n d = pad_start (codes "-") n
  num (some x) n d = pad_start (F.fixed x d) n

  -- const kib
  unfoldable pub kib : Option N.Num → ℕ → Text
  unfolding pad_start
  kib none n = pad_start (codes "-") n
  kib (some b) n = pad_start (F.fixed (N.div b (N.of_nat 1024)) 0) n

  module _ (H : Host N) where
    unfoldable pub latency_header : Text
    unfolding pad_end
    latency_header =
        pad_end (codes "fixture") 16
        ++ codes "| "
        ++ pad_end (codes "engine") 14
        ++ codes "| dec |    p50 |    p95 |    p99 |  amort"

    unfoldable pub latency_rule : Text
    unfolding repeat
    latency_rule =
        repeat 45 16
        ++ codes "+"
        ++ repeat 45 15
        ++ codes "+-----+--------+--------+--------+-------"

    unfoldable pub latency_row : ResultRow N H → Text
    unfolding pad_end pad_start decision_text num
    latency_row r =
        pad_end r.fixture 16
        ++ codes "| "
        ++ pad_end r.engine 14
        ++ codes "|"
        ++ pad_start (decision_text r.decision) 4
        ++ bar
        ++ num r.figures.p50 7 2
        ++ bar
        ++ num r.figures.p95 7 2
        ++ bar
        ++ num r.figures.p99 7 2
        ++ bar
        ++ num (some r.figures.amortized_micros) 7 2

    unfoldable pub latency_table : List (ResultRow N H) → List Text
    unfolding latency_header latency_rule latency_row
    latency_table rs = latency_header ∷ latency_rule ∷ map latency_row rs

    unfoldable pub throughput_header : Text
    unfolding pad_end
    throughput_header =
        pad_end (codes "fixture") 16
        ++ codes "| "
        ++ pad_end (codes "engine") 14
        ++ codes "|      ops/s | mem KiB | artifact KiB | cold ms"

    unfoldable pub throughput_rule : Text
    unfolding repeat
    throughput_rule =
        repeat 45 16
        ++ codes "+"
        ++ repeat 45 15
        ++ codes "+------------+---------+--------------+--------"

    unfoldable pub throughput_row : ResultRow N H → Text
    unfolding pad_end num kib
    throughput_row r =
        pad_end r.fixture 16
        ++ codes "| "
        ++ pad_end r.engine 14
        ++ codes "|"
        ++ num (some r.figures.ops_per_sec) 11 0
        ++ bar
        ++ kib r.figures.memory_bytes 8
        ++ bar
        ++ kib r.figures.artifact_bytes 13
        ++ bar
        ++ num (some r.figures.cold_start_ms) 8 2

    unfoldable pub throughput_table : List (ResultRow N H) → List Text
    unfolding throughput_header throughput_rule throughput_row
    throughput_table rs = throughput_header ∷ throughput_rule ∷ map throughput_row rs

    abbrev pub self_measured_line : ResultRow N H → N.Num → Text
    self_measured_line r evaluating =
        codes "  "
        ++ pad_end r.fixture 16
        ++ codes " "
        ++ pad_end r.engine 14
        ++ codes " "
        ++ num (some r.figures.amortized_micros) 7 2
        ++ codes " us end to end, "
        ++ num (some evaluating) 7 2
        ++ codes " us evaluating a request it already holds"

    abbrev pub with_line : ResultRow N H → Option N.Num → List Text → List Text
    with_line r none ls = ls
    with_line r (some x) ls = self_measured_line r x ∷ ls

    -- const selfMeasured, and the lines of its loop
    unfoldable pub self_measured_lines : List (ResultRow N H) → List Text
    self_measured_lines [] = []
    self_measured_lines (r ∷ rs) = with_line r r.figures.eval_only_micros (self_measured_lines rs)
