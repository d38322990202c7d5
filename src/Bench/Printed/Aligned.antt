-- ===== src/Bench/Printed/Aligned.antt =====
-- The lines of a table have one width.
use zopa.Base.{
  ℕ, zero, suc, ◌+◌, ◌-◌, ◌≤◌, ◌≡◌, refl, Option, none, some, List, [], ◌∷◌, ◌++◌, map, arith,
}
use zopa.Base.Lists.{length, length-append, All}
use zopa.Base.Text.{Text, codes}
use zopa.Base.Number.{Numbers}
use zopa.Bench.Engine.{Host}
use zopa.Bench.Measure.{ResultRow}
use zopa.Bench.Printed.{
  repeat, pad_end, pad_start, Format, decision_text, num, kib, bar, latency_header, latency_rule,
  latency_row, latency_table, throughput_header, throughput_rule, throughput_row, throughput_table,
}

length-repeat : (c n : ℕ) → length (repeat c n) ≡ n
unfolding repeat
length-repeat c zero = refl
length-repeat c (suc n) = omega (arith, length-repeat c n)

length-pad_end : (s : Text) (n : ℕ) → length s ≤ n → length (pad_end s n) ≡ n
unfolding pad_end
length-pad_end s n h =
    omega (arith, length-append s (repeat 32 (n - length s)), length-repeat 32 (n - length s))

length-pad_start : (s : Text) (n : ℕ) → length s ≤ n → length (pad_start s n) ≡ n
unfolding pad_start
length-pad_start s n h =
    omega (arith, length-append (repeat 32 (n - length s)) s, length-repeat 32 (n - length s))

-- A piece of a line with its width, and pieces put together.
record Wide (s : Text) (n : ℕ) : Type 0 where
  pub width : length s ≡ n

wide : (s : Text) → Wide s (length s)
wide s = record { width = refl }

infixl 20 ◌then◌
◌then◌ : {a b : Text} {m n : ℕ} → Wide a m → Wide b n → Wide (a ++ b) (m + n)
◌then◌ {a = a} {b = b} h k = record { width = omega (arith, length-append a b, h.width, k.width) }

module _ (N : Numbers) (F : Format N) where
  -- The text of a figure, `-` where it is missing, is no longer than its column.
  abbrev pub NumFits : Option N.Num → ℕ → ℕ → Type 0
  NumFits none n d = Unit
  NumFits (some x) n d = length (F.fixed x d) ≤ n

  abbrev pub KibFits : Option N.Num → ℕ → Type 0
  KibFits none n = Unit
  KibFits (some b) n = length (F.fixed (N.div b (N.of_nat 1024)) 0) ≤ n

  length-num : (o : Option N.Num) (n d : ℕ) → 1 ≤ n → NumFits o n d → length (num N F o n d) ≡ n
  unfolding num
  length-num none n d l h = length-pad_start (codes "-") n l
  length-num (some x) n d l h = length-pad_start (F.fixed x d) n h

  length-kib : (o : Option N.Num) (n : ℕ) → 1 ≤ n → KibFits o n → length (kib N F o n) ≡ n
  unfolding kib
  length-kib none n l h = length-pad_start (codes "-") n l
  length-kib (some x) n l h = length-pad_start _ n h

  module _ (H : Host N) where
    pub record NamesFit (r : ResultRow N H) : Type 0 where
      pub fixture : length r.fixture ≤ 16
      pub engine : length r.engine ≤ 14

    pub record LatencyFits (r : ResultRow N H) : Type 0 where
      pub names : NamesFit r
      pub decision : length (decision_text N F r.decision) ≤ 4
      pub p50 : NumFits r.figures.p50 7 2
      pub p95 : NumFits r.figures.p95 7 2
      pub p99 : NumFits r.figures.p99 7 2
      pub amort : NumFits (some r.figures.amortized_micros) 7 2

    pub record ThroughputFits (r : ResultRow N H) : Type 0 where
      pub names : NamesFit r
      pub ops_per_sec : NumFits (some r.figures.ops_per_sec) 11 0
      pub memory : KibFits r.figures.memory_bytes 8
      pub artifact : KibFits r.figures.artifact_bytes 13
      pub cold_start : NumFits (some r.figures.cold_start_ms) 8 2

    abbrev pub HasWidth : ℕ → Text → Type 0
    HasWidth n l = length l ≡ n

    latency_row-HasWidth : (r : ResultRow N H) → LatencyFits r → HasWidth 73 (latency_row N F H r)
    unfolding latency_row pad_end pad_start num kib
    latency_row-HasWidth r f =
        (record { width = length-pad_end r.fixture 16 f.names.fixture }
          then wide (codes "| ")
          then record { width = length-pad_end r.engine 14 f.names.engine }
          then wide (codes "|")
          then record { width = length-pad_start _ 4 f.decision }
          then wide bar
          then record { width = length-num r.figures.p50 7 2 (omega arith) f.p50 }
          then wide bar
          then record { width = length-num r.figures.p95 7 2 (omega arith) f.p95 }
          then wide bar
          then record { width = length-num r.figures.p99 7 2 (omega arith) f.p99 }
          then wide bar
          then record {
            width = length-num (some r.figures.amortized_micros) 7 2 (omega arith) f.amort;
          }).width

    throughput_row-HasWidth :
        (r : ResultRow N H) → ThroughputFits r → HasWidth 79 (throughput_row N F H r)
    unfolding throughput_row pad_end num kib
    throughput_row-HasWidth r f =
        (record { width = length-pad_end r.fixture 16 f.names.fixture }
          then wide (codes "| ")
          then record { width = length-pad_end r.engine 14 f.names.engine }
          then wide (codes "|")
          then record {
            width = length-num (some r.figures.ops_per_sec) 11 0 (omega arith) f.ops_per_sec;
          }
          then wide bar
          then record { width = length-kib r.figures.memory_bytes 8 (omega arith) f.memory }
          then wide bar
          then record { width = length-kib r.figures.artifact_bytes 13 (omega arith) f.artifact }
          then wide bar
          then record {
            width = length-num (some r.figures.cold_start_ms) 8 2 (omega arith) f.cold_start;
          }).width

    rows-HasWidth :
        (P : ResultRow N H → Type 0) (line : ResultRow N H → Text) (n : ℕ)
        → ((r : ResultRow N H) → P r → HasWidth n (line r))
        → (rs : List (ResultRow N H)) → All P rs
        → All (HasWidth n) (map line rs)
    rows-HasWidth P line n each [] _ = tt
    rows-HasWidth P line n each (r ∷ rs) (p, ps) = (each r p, rows-HasWidth P line n each rs ps)

    -- Where the names, the decisions and the figures are no longer than their columns, the lines of
    -- the table of latencies, its head and its rule included, are 73 characters wide.
    latency_table-HasWidth :
        (rs : List (ResultRow N H))
        → All LatencyFits rs
        → All (HasWidth 73) (latency_table N F H rs)
    unfolding latency_table latency_header latency_rule pad_end repeat
    latency_table-HasWidth rs fs =
        (refl, (refl, rows-HasWidth LatencyFits _ 73 latency_row-HasWidth rs fs))

    throughput_table-HasWidth :
        (rs : List (ResultRow N H))
        → All ThroughputFits rs
        → All (HasWidth 79) (throughput_table N F H rs)
    unfolding throughput_table throughput_header throughput_rule pad_end repeat
    throughput_table-HasWidth rs fs =
        (refl, (refl, rows-HasWidth ThroughputFits _ 79 throughput_row-HasWidth rs fs))

    -- Where the names, the decisions and the figures are no longer than their columns, the lines of
    -- each table, its head and its rule included, are of one width: 73 characters in the table of
    -- latencies, and 79 in the table of throughput.
    pub tables-HasWidth :
        (rs ts : List (ResultRow N H))
        → All LatencyFits rs
        → All ThroughputFits ts
        → All (HasWidth 73) (latency_table N F H rs) × All (HasWidth 79) (throughput_table N F H ts)
    tables-HasWidth rs ts fs gs = (latency_table-HasWidth rs fs, throughput_table-HasWidth ts gs)
