-- ===== src/Engines/CedarNative.antt =====
-- bench/engines/cedar-native.mjs: the Rust program that measures itself, run once for all fixtures.
-- The calls of `cargo` and of the program are parameters over an unknown world; `runs` is no state
-- of the module, it counts the runs of the program.
pub mod Cache
pub mod Again
pub mod Offered
mod Tests
use zopa.Base.{ℕ, suc, Bool, true, false, Option, none, some, List, [], ◌∷◌}
use zopa.Base.Tests.{if◌then◌else◌}
use zopa.Base.Text.{Text}
use zopa.Base.Dict.{Dict, lookup, insert}
use zopa.Base.Number.{Numbers}
use zopa.Base.Exec.{Result, ok, threw, stuck, Exec, pure, gets, attempt, ◌>>=◌, ◌>>◌}
use zopa.Bench.Args.{Budget}
use zopa.Bench.Engine.{Decision, Figures}

-- A call of the module from bench/run.mjs.
pub data Call : Type 0 where
  set_up : Text → Option Budget → Call
  measure_it : Text → Budget → Call

module _ (N : Numbers) where
  -- A row that the program prints for a fixture; `evalOnly` may be missing.
  pub record NativeRow : Type 0 where
    pub name : Text
    pub decision : Decision
    pub p50 : N.Num
    pub p95 : N.Num
    pub p99 : N.Num
    pub mean : N.Num
    pub ops_per_sec : N.Num
    pub amortized_micros : N.Num
    pub cold_start_ms : N.Num
    pub eval_only : Option N.Num

  -- `cargo --version` and `cargo build --release --locked`, and the program with the parsed rows of
  -- its output.
  pub record Tools : Type 1 where
    pub World : Type 0
    pub has_cargo : World → Bool × World
    pub cargo_build : Exec World (Unit {0})
    pub program : Budget → Exec World (List NativeRow)

  module _ (T : Tools) where
    -- The module's variables `pending` and `failure`.
    pub record State : Type 0 where
      pub world : T.World
      pub pending : Option (Dict NativeRow)
      pub failure : Bool
      pub runs : ℕ

    unfoldable pub outside : {A : Type 0} → Exec T.World A → Exec State A
    outside m s = let (r, w) = m s.world in (r, record s { world = w })

    unfoldable pub cargo_version : Exec State Bool
    cargo_version s = let (b, w) = T.has_cargo s.world in (ok b, record s { world = w })

    -- function build
    unfoldable pub build : Exec State (Unit {0})
    unfolding outside cargo_version
    build = do cargo ← cargo_version; if cargo then outside T.cargo_build else pure tt

    unfoldable pub start_program : Budget → Exec State (List NativeRow)
    unfolding outside
    start_program b s = outside (T.program b) (record s { runs = suc s.runs })

    -- `byName`
    unfoldable pub by_name : List NativeRow → Dict NativeRow → Dict NativeRow
    by_name [] m = m
    by_name (r ∷ rs) m = by_name rs (insert r.name r m)

    -- function runHarness
    unfoldable pub run_harness : Budget → Exec State (Dict NativeRow)
    unfolding build start_program by_name
    run_harness b = do build; rows ← start_program b; pure (by_name rows [])

    -- The `try` of `rows`: the result is kept, and so is a failure.
    abbrev pub settle : Result (Dict NativeRow) → State → Result (Dict NativeRow) × State
    settle (ok m) s = (ok m, record s { pending = some m })
    settle threw s = (threw, record s { failure = true })
    settle stuck s = (stuck, s)

    abbrev pub from_pending :
        Option (Dict NativeRow) → Budget → State → Result (Dict NativeRow) × State
    from_pending (some m) b s = (ok m, s)
    from_pending none b s = let (r, s') = run_harness b s in settle r s'

    -- function rows
    unfoldable pub rows : Budget → Exec State (Dict NativeRow)
    unfolding run_harness
    rows b s = if s.failure then (threw, s) else from_pending s.pending b s

    unfoldable pub found : Option NativeRow → Exec State NativeRow
    found none s = (threw, s)
    found (some r) s = (ok r, s)

    -- function rowFor
    unfoldable pub row_for : Text → Budget → Exec State NativeRow
    unfolding rows found
    row_for name b = do m ← rows b; found (lookup name m)

    -- `setup`, as far as the decision that the instance gives; `opts.budget` may be missing.
    unfoldable pub setup : Text → Option Budget → Exec State Decision
    unfolding row_for
    setup name none = λ s. (threw, s)
    setup name (some b) = do r ← row_for name b; pure r.decision

    figures : NativeRow → Figures N
    figures r = record {
      p50 = some r.p50;
      p95 = some r.p95;
      p99 = some r.p99;
      mean = r.mean;
      ops_per_sec = r.ops_per_sec;
      amortized_micros = r.amortized_micros;
      memory_bytes = none;
      artifact_bytes = none;
      cold_start_ms = r.cold_start_ms;
      eval_only_micros = r.eval_only;
    }

    unfoldable pub measure : Text → Budget → Exec State (Figures N)
    unfolding row_for figures
    measure name b = do r ← row_for name b; pure (figures r)

    -- One call after the other: a throw of a call is caught, and the next call is made.
    unfoldable pub call : Call → Exec State (Unit {0})
    unfolding setup measure
    call (set_up name b) = do setup name b; pure tt
    call (measure_it name b) = do measure name b; pure tt

    unfoldable pub calls : List Call → Exec State (Unit {0})
    unfolding call
    calls [] = pure tt
    calls (c ∷ cs) = do attempt (call c); calls cs

    abbrev pub loaded : T.World → State
    loaded w = record { world = w; pending = none; failure = false; runs = 0 }
