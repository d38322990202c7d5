-- ===== src/Engines/OpaWasm/Tests.antt =====
-- Runs of bench/engines/opa-wasm.mjs with the small policy.
use zopa.Base.{ℕ, ◌+◌, ◌≤◌, ◌≡◌, refl, Option, none, some, List, [], ◌∷◌, arith}
use zopa.Base.Text.{codes, same}
use zopa.Base.Dict.{lookup, insert}
use zopa.Base.Lists.{length}
use zopa.Base.Exec.{Result, ok, pure, gets, ◌>>=◌}
use zopa.Bench.Engine.{allow, deny}
use zopa.Engines.Decisions.{expected}
use zopa.Engines.OpaWasm.{
  Built, State, Instance, outside, build, remember, build_and_remember, compile, has_eval,
  write_str, instantiate, parse_data, load_data, loaded, setup, find_end, subarray, read_c_str,
  decision_of, parsed, set_input, on_wasm, rewind, write_input, eval_at, prepare, read_decision,
  decide, decide_each,
}
use zopa.Engines.OpaWasm.Compiled.{compiles, compile-compiles}
use zopa.Engines.OpaWasm.Strings.{read_c_str-CString}
use zopa.Engines.OpaWasm.Rewind.{BumpsBy, heap-prepare-decide_each}
use zopa.Engines.OpaWasm.Session.{policy_decision, decide_each-setup}
use zopa.Engines.OpaWasm.Small.{
  write, reply, answers, tools, Any, LoadedAnywhere, tools-IsPolicy, reply_short, reply_json,
}

abbrev fresh : State tools
fresh = record { world = 0; compiled = [] }

set_up : Result (Instance tools) × State tools
unfolding setup compile build_and_remember build remember outside instantiate has_eval load_data
    write_str parse_data loaded lookup insert same gets pure ◌>>=◌
set_up = setup tools (codes "p") (5 ∷ []) fresh

abbrev first : Instance tools
first = record {
  wasm = (3, write 1 (b'{' ∷ b'}' ∷ []) (λ q. 0));
  data_addr = 1;
  base_heap = 3;
  input_json = 5 ∷ [];
  size = 1;
}

set_up_first : (setup tools (codes "p") (5 ∷ []) fresh).0 ≡ ok first
unfolding set_up
set_up_first = refl

abbrev inputs : List (Option (List ℕ))
inputs = none ∷ some [] ∷ none ∷ some (9 ∷ []) ∷ []

first_decisions : (decide_each tools 2 inputs first).0 ≡ ok (allow ∷ deny ∷ deny ∷ allow ∷ [])
unfolding set_up decide_each decide prepare set_input rewind write_input on_wasm eval_at
    read_decision read_c_str find_end subarray parsed decision_of
first_decisions = refl

decide_each-setup_example :
    (decide_each tools 2 inputs first).0
    ≡ ok (expected tools.encode (policy_decision tools answers) [] (5 ∷ []) inputs)
decide_each-setup_example =
    decide_each-setup tools Any LoadedAnywhere (λ i. reply (length i)) tools-IsPolicy 2 answers
      reply_short reply_json (codes "p") (5 ∷ []) [] inputs fresh first (λ b v w c d. tt)
      set_up_first

tools-BumpsBy : BumpsBy tools 1
tools-BumpsBy = record {
  set_heap = λ h w. refl;
  malloc_heap = λ n w. omega arith;
  write_heap = λ p bs w. refl;
}

heap-prepare-decide_each_example :
    let ready = (prepare tools none (decide_each tools 2 inputs first).1).1 in
    ready.wasm.0 ≤ 3 + length ready.input_json + 1
heap-prepare-decide_each_example =
    heap-prepare-decide_each tools 1 tools-BumpsBy 2 inputs none first

abbrev built : Built
built = record { dir = codes "d"; bytes = 7 ∷ []; size = 1 }

built_first : (compile tools (codes "p") fresh).0 ≡ ok built
unfolding set_up
built_first = refl

compile-compiles_example :
    let later = compiles tools (codes "q" ∷ codes "p" ∷ []) (compile tools (codes "p") fresh).1 in
    compile tools (codes "p") later ≡ (ok built, later)
compile-compiles_example =
    compile-compiles tools (codes "p") (codes "q" ∷ codes "p" ∷ []) fresh built built_first

read_c_str-CString_example :
    read_c_str tools 3 (9, write 4 (7 ∷ 8 ∷ []) (λ q. 0)) 4 ≡ some (7 ∷ 8 ∷ [])
read_c_str-CString_example =
    read_c_str-CString tools (9, write 4 (7 ∷ 8 ∷ []) (λ q. 0)) (7 ∷ 8 ∷ []) 4 3
      (refl, (λ e. omega arith), (refl, (λ e. omega arith), refl)) (omega arith)
