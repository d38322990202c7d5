-- ===== src/Engines/OpaAgreement/Tests.antt =====
-- The small policy under the two engines that ask OPA.
use zopa.Base.{ℕ, ◌≡◌, refl, Bool, true, false, Option, none, some, List, [], ◌∷◌}
use zopa.Base.Tests.{◌==◌, if◌then◌else◌}
use zopa.Base.Text.{codes, same}
use zopa.Base.Dict.{lookup, insert}
use zopa.Base.Lists.{length}
use zopa.Base.Exec.{ok, pure, gets, ◌>>=◌}
use zopa.Engines.OpaWasm as OpaWasm
use zopa.Engines.OpaHttp as OpaHttp
use zopa.Engines.OpaWasm.{
  compile, build_and_remember, build, remember, instantiate, has_eval, load_data, write_str,
  parse_data, loaded,
}
use zopa.Engines.OpaWasm.Small.{
  write, reply, answers, tools, Any, LoadedAnywhere, tools-IsPolicy, reply_short, reply_json,
}
use zopa.Engines.OpaAgreement.{SameOutcome, undefined, holds, inputs, decide_each_agree}

abbrev value : List ℕ → Option OpaHttp.Value
value d = if length d == 1 then some OpaHttp.Value.is_true else none

abbrev server : OpaHttp.Host
server = record {
  World = ℕ;
  Child = ℕ;
  Doc = List ℕ;
  Num = ℕ;
  make_dir = λ w. (ok (codes "d"), w);
  write_rego = λ d r w. (ok tt, w);
  random_port = λ w. (18_000, w);
  spawn = λ d port w. (ok 7, w);
  exit_code = λ c w. none;
  now = λ w. (w, w);
  health = λ port w. (ok true, w);
  sleep = λ ms w. w;
  kill = λ c w. (ok tt, w);
  remove_dir = λ d w. (ok tt, w);
  post = λ port d w. (ok (OpaHttp.Response.body (value d)), w);
  metrics = λ port w. (ok (codes "x"), w);
  metric = λ key text. none;
}

abbrev asked : OpaHttp.Running server
asked = record {
  state = record { world = 0; log = [] };
  inst = record { dir = codes "d"; port = 18_000; child = 7; body = 5 ∷ [] };
}

abbrev fresh : OpaWasm.State tools
fresh = record { world = 0; compiled = [] }

abbrev inst : OpaWasm.Instance tools
inst = record {
  wasm = (3, write 1 (b'{' ∷ b'}' ∷ []) (λ q. 0));
  data_addr = 1;
  base_heap = 3;
  input_json = 5 ∷ [];
  size = 1;
}

inst_set_up : (OpaWasm.setup tools (codes "p") (5 ∷ []) fresh).0 ≡ ok inst
unfolding OpaWasm.setup compile build_and_remember build remember OpaWasm.outside instantiate
    has_eval load_data write_str parse_data loaded lookup insert same gets pure ◌>>=◌
inst_set_up = refl

value-SameOutcome : (d : List ℕ) → SameOutcome (answers d) (value d)
value-SameOutcome d =
    elim (length d == 1)
      as (λ (b : Bool).
        SameOutcome (if◌then◌else◌ {A = List OpaWasm.Answer} b (OpaWasm.Answer.is_true ∷ []) [])
          (if◌then◌else◌ {A = Option OpaHttp.Value} b (some OpaHttp.Value.is_true) none)) [
            | true ↦ holds
            | false ↦ undefined
          ]

abbrev questions : List (Option (List ℕ))
questions = none ∷ some (1 ∷ 2 ∷ []) ∷ some (9 ∷ []) ∷ none ∷ []

decide_each_agree_example :
    (OpaWasm.decide_each tools 2 (inputs tools server (λ d. d) questions) inst).0
    ≡ (OpaHttp.decide_each server questions asked).0
decide_each_agree_example =
    decide_each_agree tools server (λ d. d) Any LoadedAnywhere (λ i. reply (length i))
      tools-IsPolicy 2 answers reply_short reply_json value (codes "p") fresh inst asked questions
      (λ b v w c d. tt) inst_set_up (λ d w. refl) value-SameOutcome
