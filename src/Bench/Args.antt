-- ===== src/Bench/Args.antt =====
-- `parseArgs` of bench/run.mjs, and the selection of engines.
pub mod Accepts
pub mod CommandLine
mod Tests
use zopa.Base.{ℕ, Bool, true, false, not, Option, none, some, List, [], ◌∷◌}
use zopa.Base.Tests.{◌==◌, if◌then◌else◌}
use zopa.Base.Lists.{drop}
use zopa.Base.Text.{Text, codes, same, starts_with}

pub record Opts : Type 0 where
  pub wasm_path : Text
  pub engines : Option (List Text)
  pub quick : Bool
  pub json : Option Text

abbrev pub quick_flag : Text
quick_flag = codes "--quick"

abbrev pub engines_flag : Text
engines_flag = codes "--engines="

abbrev pub json_flag : Text
json_flag = codes "--json="

abbrev push_head : ℕ → List Text → List Text
push_head c [] = (c ∷ []) ∷ []
push_head c (w ∷ ws) = (c ∷ w) ∷ ws

-- `s.split(',')`
unfoldable pub split : ℕ → Text → List Text
split sep [] = [] ∷ []
split sep (c ∷ s) = let rest = split sep s in if c == sep then [] ∷ rest else push_head c rest

-- `.filter(Boolean)` on strings
unfoldable pub non_empty : List Text → List Text
non_empty [] = []
non_empty ([] ∷ ws) = non_empty ws
non_empty ((c ∷ w) ∷ ws) = (c ∷ w) ∷ non_empty ws

-- One round of the loop; `none` is the error for an unknown flag.
unfoldable pub parse_arg : Text → Opts → Option Opts
unfolding split non_empty
parse_arg arg o =
    if same arg quick_flag
    then some (record o { quick = true })
    else if starts_with engines_flag arg
    then some (record o { engines = some (non_empty (split b',' (drop 10 arg))) })
    else if starts_with json_flag arg
    then some (record o { json = some (drop 7 arg) })
    else if starts_with (codes "--") arg
    then none
    else some (record o { wasm_path = arg })

-- `opts`, or the error `unknown flag: ${arg}`
pub data Parsed : Type 0 where
  parsed : Opts → Parsed
  unknown_flag : Text → Parsed

unfoldable pub parse_loop : List Text → Opts → Parsed
parse_loop [] o = parsed o
parse_loop (arg ∷ argv) o = elim (parse_arg arg o) [
  | none ↦ unknown_flag arg
  | some o' ↦ parse_loop argv o'
]

-- The path of the default wasm file comes from `node:path`.
abbrev pub defaults : Text → Opts
defaults wasm = record { wasm_path = wasm; engines = none; quick = false; json = none }

unfoldable pub parse_args : Text → List Text → Parsed
unfolding parse_loop parse_arg
parse_args wasm argv = parse_loop argv (defaults wasm)

-- const BUDGET
pub record Budget : Type 0 where
  pub warmup : ℕ
  pub iters : ℕ
  pub throughput_ms : ℕ
  pub throughput_runs : ℕ

unfoldable pub budget : Opts → Budget
budget o =
    if o.quick
    then record { warmup = 50; iters = 300; throughput_ms = 150; throughput_runs = 3 }
    else record { warmup = 1000; iters = 10_000; throughput_ms = 1500; throughput_runs = 5 }
