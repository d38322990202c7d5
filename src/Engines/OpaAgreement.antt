-- ===== src/Engines/OpaAgreement.antt =====
-- The two engines that ask OPA, bench/engines/opa-wasm.mjs and bench/engines/opa-http.mjs, side by
-- side: what the agreement gate of bench/run.mjs compares.
mod Tests
use zopa.Base.{ℕ, ◌<◌, ◌≡◌, refl, ◌∙◌, sym, Option, none, some, List, [], ◌∷◌}
use mathlib.Core.Path.{ap}
use zopa.Base.Lists.{length}
use zopa.Base.Text.{Text}
use zopa.Base.Exec.{Result, ok}
use zopa.Bench.Engine.{Decision}
use zopa.Engines.Decisions.{latest, expected, decisions}
use zopa.Engines.OpaWasm as OpaWasm
use zopa.Engines.OpaHttp as OpaHttp
use zopa.Engines.OpaWasm.Session as WasmSession
use zopa.Engines.OpaHttp.Mapping as HttpMapping

-- One outcome of a policy as the two engines read it: `[]` and no `result` where it is undefined,
-- `[{"result": v}]` and `{"result": v}` where it has a value.
pub data SameOutcome : List OpaWasm.Answer → Option OpaHttp.Value → Type 0 where
  undefined : SameOutcome [] none
  holds : SameOutcome (OpaWasm.Answer.is_true ∷ []) (some OpaHttp.Value.is_true)
  otherwise : SameOutcome (OpaWasm.Answer.other ∷ []) (some OpaHttp.Value.other)

module _ (T : OpaWasm.Tools) (H : OpaHttp.Host) (doc : H.Doc → T.Doc) where
  abbrev pub inputs : List (Option H.Doc) → List (Option T.Doc)
  inputs [] = []
  inputs (none ∷ ds) = none ∷ inputs ds
  inputs (some d ∷ ds) = some (doc d) ∷ inputs ds

  same_decision :
      (answers : List OpaWasm.Answer) (value : Option OpaHttp.Value)
      → SameOutcome answers value
      → OpaWasm.decision_of T answers ≡ OpaHttp.decision_of H value
  unfolding OpaWasm.decision_of OpaHttp.decision_of
  same_decision [] none undefined = refl
  same_decision [] (some _) h = elim h [ ]
  same_decision (_ ∷ _) none h = elim h [ ]
  same_decision (_ ∷ _) (some _) holds = refl
  same_decision (_ ∷ _) (some _) otherwise = refl

  expected-decisions :
      (decide_wasm : List ℕ → List ℕ → Decision) (decide_http : H.Doc → Decision) (a : T.Doc)
      (i : H.Doc) (ds : List (Option H.Doc))
      → ((d : H.Doc) → decide_wasm (T.encode (doc d)) (T.encode a) ≡ decide_http d)
      → expected T.encode decide_wasm a (doc i) (inputs ds) ≡ decisions decide_http i ds
  unfolding expected decisions
  expected-decisions f g a i [] h = refl
  expected-decisions f g a i (none ∷ ds) h = rw (h i, expected-decisions f g a i ds h) refl
  expected-decisions f g a i (some d ∷ ds) h = rw (h d, expected-decisions f g a d ds h) refl

  -- For one policy, an instance of opa-wasm that `setup` gave and a server of opa-http that answers
  -- each input with its value decide alike, call after call, where each input has one outcome in
  -- both and the first input is the same. The conditions on the policy's wasm memories are those of
  -- its own theorem.
  pub decide_each_agree :
      (Of : T.Wasm → Type 0) (Loaded : T.Wasm → ℕ → ℕ → Type 0) (answer : List ℕ → List ℕ)
      (policy : WasmSession.IsPolicy T Of Loaded answer) (fuel : ℕ)
      (answers : List ℕ → List OpaWasm.Answer) (short : (i : List ℕ) → length (answer i) < fuel)
      (json : (i : List ℕ) → T.json_parse (answer i) ≡ some (answers i))
      (value : H.Doc → Option OpaHttp.Value) (rego : Text) (s : OpaWasm.State T)
      (inst : OpaWasm.Instance T) (r : OpaHttp.Running H) (ds : List (Option H.Doc))
      → ((b : OpaWasm.Built) (v : T.World) (w : T.Wasm)
          → (OpaWasm.compile T rego s).0 ≡ ok b
          → (T.instantiate b.bytes v).0 ≡ ok w
          → Of w)
      → (OpaWasm.setup T rego (doc r.inst.body) s).0 ≡ ok inst
      → HttpMapping.Serves H value r.inst.port
      → ((d : H.Doc) → SameOutcome (answers (T.encode (doc d))) (value d))
      → (OpaWasm.decide_each T fuel (inputs ds) inst).0 ≡ (OpaHttp.decide_each H ds r).0
  decide_each_agree Of Loaded answer policy fuel answers short json value rego s inst r ds of up
        serves same =
      WasmSession.decide_each-setup T Of Loaded answer policy fuel answers short json rego
        (doc r.inst.body) (doc r.inst.body) (inputs ds) s inst of up
      ∙ ap ok (
          expected-decisions (WasmSession.policy_decision T answers)
            (λ d. OpaHttp.decision_of H (value d)) (doc r.inst.body) r.inst.body ds
            λ d. same_decision (answers (T.encode (doc d))) (value d) (same d))
      ∙ sym (HttpMapping.decide_each-decisions H value ds r serves)
