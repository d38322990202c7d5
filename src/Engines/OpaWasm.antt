-- ===== src/Engines/OpaWasm.antt =====
-- bench/engines/opa-wasm.mjs: a policy compiled to wasm by `opa build`, driven through `opa_eval`.
-- The tools, the file system, the exports of a compiled policy and `JSON.parse` are parameters.
pub mod Compiled
pub mod Strings
pub mod Rewind
pub mod Session
pub mod Small
mod Tests
use zopa.Base.{ℕ, zero, suc, ◌+◌, ◌-◌, ◌≡◌, Bool, true, false, Option, none, some, List, [], ◌∷◌}
use zopa.Base.Tests.{◌==◌, leb, if◌then◌else◌}
use zopa.Base.Lists.{length}
use zopa.Base.Text.{Text}
use zopa.Base.Dict.{Dict, lookup, insert}
use zopa.Base.Exec.{Result, ok, threw, stuck, Exec, pure, gets, ◌>>=◌, ◌>>◌}
use zopa.Bench.Engine.{Decision, allow, deny}

-- What `build` gives; its path of the wasm file is read by nothing else.
pub record Built : Type 0 where
  pub dir : Text
  pub bytes : List ℕ
  pub size : ℕ

-- `parsed[0].result === true`, or not
pub data Answer : Type 0 where
  is_true other : Answer

-- `mkdtempSync`, `writeFileSync`, `opa build`, `tar`, and the reading of the wasm file; and
-- `WebAssembly.instantiate` for its bytes, with the two version globals, which may be missing.
-- `byte` gives `none` beyond the memory's end.
pub record Tools : Type 1 where
  pub World : Type 0
  pub make_dir : Exec World Text
  pub write_rego : Text → Text → Exec World (Unit {0})
  pub opa_build : Text → Exec World (Unit {0})
  pub untar : Text → Exec World (Unit {0})
  pub read_wasm : Text → Exec World (List ℕ)
  pub stat_size : Text → Exec World ℕ
  pub Wasm : Type 0
  pub instantiate : List ℕ → Exec World Wasm
  pub abi_version : Wasm → Option ℕ
  pub abi_minor_version : Wasm → Option ℕ
  pub opa_malloc : ℕ → Wasm → ℕ × Wasm
  pub set_bytes : ℕ → List ℕ → Wasm → Wasm
  pub byte : Wasm → ℕ → Option ℕ
  pub opa_json_parse : ℕ → ℕ → Wasm → ℕ × Wasm
  pub opa_heap_ptr_get : Wasm → ℕ
  pub opa_heap_ptr_set : ℕ → Wasm → Wasm
  pub opa_eval : ℕ → ℕ → ℕ → ℕ → Exec Wasm ℕ
  pub json_parse : List ℕ → Option (List Answer)
  pub Doc : Type 0
  pub encode : Doc → List ℕ

module _ (T : Tools) where
  -- The module's variable `compiled`, with the world.
  pub record State : Type 0 where
    pub world : T.World
    pub compiled : Dict Built

  unfoldable pub outside : {A : Type 0} → Exec T.World A → Exec State A
  outside m s = let (r, w) = m s.world in (r, record s { world = w })

  -- function build
  unfoldable pub build : Text → Exec T.World Built
  build rego = do
    dir ← T.make_dir
    T.write_rego dir rego
    T.opa_build dir
    T.untar dir
    bytes ← T.read_wasm dir
    size ← T.stat_size dir
    pure (record { dir = dir; bytes = bytes; size = size })

  unfoldable pub remember : Text → Built → Exec State (Unit {0})
  remember rego b s = (ok tt, record s { compiled = insert rego b s.compiled })

  unfoldable pub build_and_remember : Text → Exec State Built
  unfolding outside build remember
  build_and_remember rego = do b ← outside (build rego); remember rego b; pure b

  abbrev pub or_build : Option Built → Text → State → Result Built × State
  or_build (some b) rego s = (ok b, s)
  or_build none rego s = build_and_remember rego s

  -- function compile
  unfoldable pub compile : Text → Exec State Built
  unfolding build_and_remember
  compile rego s = or_build (lookup rego s.compiled) rego s

  -- `major !== 1 || !(minor >= 2)`; `undefined` is no number that is 1, or at least 2
  unfoldable pub has_eval : Option ℕ → Option ℕ → Bool
  has_eval (some major) (some minor) = if major == 1 then leb 2 minor else false
  has_eval _ _ = false

  -- The variables of `setup` that an instance holds. The memory and the exports are `wasm`.
  pub record Instance : Type 0 where
    pub wasm : T.Wasm
    pub data_addr : ℕ
    pub base_heap : ℕ
    pub input_json : List ℕ
    pub size : ℕ

  -- `writeStr`, on the bytes of the string
  unfoldable pub write_str : List ℕ → Exec T.Wasm (ℕ × ℕ)
  write_str bytes w =
      let (p, w') = T.opa_malloc (length bytes) w in
      if p == 0 then (threw, w') else (ok (p, length bytes), T.set_bytes p bytes w')

  -- function instantiate
  unfoldable pub instantiate : List ℕ → Exec T.World T.Wasm
  unfolding has_eval
  instantiate bytes = do
    w ← T.instantiate bytes
    if has_eval (T.abi_version w) (T.abi_minor_version w) then pure w else λ s. (threw, s)

  unfoldable pub parse_data : ℕ × ℕ → Exec T.Wasm ℕ
  parse_data (p, n) w = let (a, w') = T.opa_json_parse p n w in (ok a, w')

  -- The wasm memory after the data is loaded: the data's address and the mark of the heap.
  unfoldable pub load_data : Exec T.Wasm (ℕ × ℕ)
  unfolding write_str parse_data
  load_data = do
    text ← write_str (b'{' ∷ b'}' ∷ [])
    addr ← parse_data text
    base ← gets T.opa_heap_ptr_get
    pure (addr, base)

  -- `let inputJson = …`, and the instance
  unfoldable pub loaded : ℕ → T.Doc → Result (ℕ × ℕ) × T.Wasm → Result Instance
  loaded size input (ok (addr, base), w) = ok (record {
    wasm = w;
    data_addr = addr;
    base_heap = base;
    input_json = T.encode input;
    size = size;
  })
  loaded size input (threw, w) = threw
  loaded size input (stuck, w) = stuck

  unfoldable pub setup : Text → T.Doc → Exec State Instance
  unfolding compile outside instantiate load_data loaded
  setup rego input = do
    built ← compile rego
    w ← outside (instantiate built.bytes)
    λ s. (loaded built.size input (load_data w), s)

  -- `while (u8[end] !== 0) end++`: without fuel the loop has not ended.
  unfoldable pub find_end : ℕ → T.Wasm → ℕ → Option ℕ
  find_end zero w end = none
  find_end (suc fuel) w end =
      let rest = find_end fuel w (suc end) in
      elim (T.byte w end) [ none ↦ rest | some b ↦ if b == 0 then some end else rest ]

  -- `u8.subarray(ptr, ptr + n)`, which stops at the memory's end
  unfoldable pub subarray : T.Wasm → ℕ → ℕ → List ℕ
  subarray w p zero = []
  subarray w p (suc n) =
      let rest = subarray w (suc p) n in elim (T.byte w p) [ none ↦ [] | some b ↦ b ∷ rest ]

  -- `readCStr`, as bytes
  unfoldable pub read_c_str : ℕ → T.Wasm → ℕ → Option (List ℕ)
  unfolding find_end subarray
  read_c_str fuel w p = elim (find_end fuel w p) [
    | none ↦ none
    | some end ↦ some (subarray w p (end - p))
  ]

  -- `if (parsed.length === 0) return 0; return parsed[0].result === true ? 1 : 0;`
  unfoldable pub decision_of : List Answer → Decision
  decision_of [] = deny
  decision_of (is_true ∷ _) = allow
  decision_of (other ∷ _) = deny

  unfoldable pub parsed : Option (List ℕ) → Result Decision
  unfolding decision_of
  parsed none = stuck
  parsed (some text) = elim (T.json_parse text) [
    | none ↦ threw
    | some answers ↦ ok (decision_of answers)
  ]

  unfoldable pub set_input : Option T.Doc → Exec Instance (Unit {0})
  set_input none s = (ok tt, s)
  set_input (some doc) s = (ok tt, record s { input_json = T.encode doc })

  unfoldable pub on_wasm : {A : Type 0} → Exec T.Wasm A → Exec Instance A
  on_wasm m s = let (r, w) = m s.wasm in (r, record s { wasm = w })

  unfoldable pub rewind : Exec Instance (Unit {0})
  rewind s = (ok tt, record s { wasm = T.opa_heap_ptr_set s.base_heap s.wasm })

  unfoldable pub write_input : Exec Instance (ℕ × ℕ)
  unfolding on_wasm
  write_input s = on_wasm (write_str s.input_json) s

  unfoldable pub eval_at : ℕ × ℕ → Exec Instance ℕ
  unfolding on_wasm
  eval_at (p, n) s = on_wasm (T.opa_eval s.data_addr p n (T.opa_heap_ptr_get s.wasm)) s

  -- `decide` up to the call of `opa_eval`
  unfoldable pub prepare : Option T.Doc → Exec Instance (ℕ × ℕ)
  unfolding set_input rewind write_input
  prepare next_input = do set_input next_input; rewind; write_input

  unfoldable pub read_decision : ℕ → ℕ → Exec Instance Decision
  unfolding parsed
  read_decision fuel addr s = (parsed (read_c_str fuel s.wasm addr), s)

  unfoldable pub decide : ℕ → Option T.Doc → Exec Instance Decision
  unfolding prepare eval_at read_decision
  decide fuel next_input = do
    text ← prepare next_input
    result_addr ← eval_at text
    read_decision fuel result_addr

  unfoldable pub decide_each : ℕ → List (Option T.Doc) → Exec Instance (List Decision)
  unfolding decide
  decide_each fuel [] = pure []
  decide_each fuel (doc ∷ docs) = do d ← decide fuel doc; ds ← decide_each fuel docs; pure (d ∷ ds)
