-- ===== src/Engines/OpaWasm/Session.antt =====
-- The decisions of bench/engines/opa-wasm.mjs.
use mathlib.Core.Path.{subst, ap}
use zopa.Base.Text.{Text}
use zopa.Base.{
  ℕ, suc, ◌≤◌, ◌<◌, ◌≡◌, refl, ◌∙◌, ◌≢◌, Bool, true, false, Option, none, some, List, [], ◌∷◌,
  arith,
}
use zopa.Base.Tests.{==-ne, if◌then◌else◌}
use zopa.Base.Lists.{length}
use zopa.Base.Exec.{Result, ok, threw, pure, gets, continue_ok, ok_inj, ◌>>=◌}
use zopa.Bench.Engine.{Decision}
use zopa.Engines.Decisions.{latest, expected}
use zopa.Engines.OpaWasm.{
  Answer, Built, Tools, State, outside, compile, instantiate, setup, Instance, write_str, on_wasm,
  set_input, rewind, write_input, prepare, eval_at, read_decision, parsed, decision_of, decide,
  decide_each, parse_data, load_data, loaded,
}
use zopa.Engines.OpaWasm.Strings.{CString, read_c_str-CString}

module _ (T : Tools) where
  -- The bytes stand in the memory from the address on.
  abbrev pub BytesAt : T.Wasm → ℕ → List ℕ → Type 0
  BytesAt w p [] = Unit
  BytesAt w p (b ∷ bs) = (T.byte w p ≡ some b) × BytesAt w (suc p) bs

  -- The decision for an input's bytes.
  abbrev pub policy_decision : (List ℕ → List Answer) → List ℕ → List ℕ → Decision
  policy_decision answers i _ = decision_of T (answers i)

  -- `opa_eval` on an input's bytes: a text in the memory, with the data still loaded.
  pub record IsAnswered (Loaded : T.Wasm → ℕ → ℕ → Type 0) (a b : ℕ) (text : List ℕ)
      (m : Result ℕ × T.Wasm) : Type 0 where
    pub addr : ℕ
    pub after : T.Wasm
    pub gives : m ≡ (ok addr, after)
    pub there : CString T after addr text
    pub still : Loaded after a b

  -- What a compiled policy promises, where `Of` holds of its memories: `Loaded w a b` says that the data document stands at `a`, below
  -- the heap's mark `b`. It lasts while nothing below the mark is written. `answer` is the text of
  -- the policy's answer to an input's bytes.
  pub record IsPolicy (Of : T.Wasm → Type 0) (Loaded : T.Wasm → ℕ → ℕ → Type 0)
      (answer : List ℕ → List ℕ) : Type 0 where
    pub malloc_of : (n : ℕ) (w : T.Wasm) → Of w → Of (T.opa_malloc n w).1
    pub write_of : (p : ℕ) (bs : List ℕ) (w : T.Wasm) → Of w → Of (T.set_bytes p bs w)
    pub room : (n : ℕ) (w : T.Wasm) → (T.opa_malloc n w).0 ≢ 0
    pub set_heap : (h : ℕ) (w : T.Wasm) → T.opa_heap_ptr_get (T.opa_heap_ptr_set h w) ≡ h
    pub malloc_above : (n : ℕ) (w : T.Wasm) → T.opa_heap_ptr_get w ≤ (T.opa_malloc n w).0
    pub written :
        (bs : List ℕ) (w : T.Wasm)
        → let (p, v) = T.opa_malloc (length bs) w in BytesAt (T.set_bytes p bs v) p bs
    pub parsed_data :
        (p : ℕ) (w : T.Wasm)
        → Of w
        → BytesAt w p (b'{' ∷ b'}' ∷ [])
        → let (a, v) = T.opa_json_parse p 2 w in Loaded v a (T.opa_heap_ptr_get v)
    pub set_keeps : (a b : ℕ) (w : T.Wasm) → Loaded w a b → Loaded (T.opa_heap_ptr_set b w) a b
    pub malloc_keeps :
        (a b n : ℕ) (w : T.Wasm)
        → Loaded w a b
        → b ≤ T.opa_heap_ptr_get w
        → Loaded (T.opa_malloc n w).1 a b
    pub write_keeps :
        (a b p : ℕ) (bs : List ℕ) (w : T.Wasm)
        → Loaded w a b
        → b ≤ p
        → Loaded (T.set_bytes p bs w) a b
    pub evaluated :
        (a b p : ℕ) (i : List ℕ) (w : T.Wasm)
        → Loaded w a b
        → b ≤ p
        → BytesAt w p i
        → IsAnswered Loaded a b (answer i) (T.opa_eval a p (length i) (T.opa_heap_ptr_get w) w)

  module _ (Of : T.Wasm → Type 0) (Loaded : T.Wasm → ℕ → ℕ → Type 0) (answer : List ℕ → List ℕ)
      (policy : IsPolicy Of Loaded answer) where
    -- The data is loaded, and the input's text is kept.
    pub record Ready (i : T.Doc) (s : Instance T) : Type 0 where
      pub data_there : Loaded s.wasm s.data_addr s.base_heap
      pub input : s.input_json ≡ T.encode i

    record IsWritten (a b : ℕ) (bs : List ℕ) (w : T.Wasm) : Type 0 where
      ptr : ℕ
      after : T.Wasm
      gives : write_str T bs w ≡ (ok (ptr, length bs), after)
      above : b ≤ ptr
      there : BytesAt after ptr bs
      still : Loaded after a b

    write_str-IsWritten :
        (a b : ℕ) (bs : List ℕ) (w : T.Wasm)
        → Loaded w a b
        → b ≤ T.opa_heap_ptr_get w
        → IsWritten a b bs w
    write_str-IsWritten a b bs w l h =
        let (p, v) = T.opa_malloc (length bs) w in
        let above : b ≤ p = omega (arith, policy.malloc_above (length bs) w) in
        record {
          ptr = p;
          after = T.set_bytes p bs v;
          gives = unfold write_str in rw (==-ne p 0 (policy.room (length bs) w)) refl;
          above = above;
          there = policy.written bs w;
          still = policy.write_keeps a b p bs v (policy.malloc_keeps a b (length bs) w l h) above;
        }

    record Decides (fuel : ℕ) (i : T.Doc) (d : Decision) (m : Result Decision × Instance T)
        : Type 0 where
      after : Instance T
      gives : m ≡ (ok d, after)
      ready : Ready i after

    module _ (fuel : ℕ) (answers : List ℕ → List Answer)
        (short : (i : List ℕ) → length (answer i) < fuel)
        (json : (i : List ℕ) → T.json_parse (answer i) ≡ some (answers i)) where
      -- `decide` once the input is set.
      Decides-rewound :
          (i : T.Doc) (s : Instance T)
          → Ready i s
          → Decides fuel i (decision_of T (answers (T.encode i))) (decide T fuel none s)
      unfolding decide prepare set_input rewind write_input eval_at on_wasm read_decision parsed
          ◌>>=◌
      Decides-rewound i s r =
          let b = s.base_heap in
          let v = T.opa_heap_ptr_set b s.wasm in
          let h : b ≤ T.opa_heap_ptr_get v = omega (arith, policy.set_heap b s.wasm) in
          let l = policy.set_keeps s.data_addr b s.wasm r.data_there in
          let c = write_str-IsWritten s.data_addr b s.input_json v l h in
          let e =
            policy.evaluated s.data_addr b c.ptr s.input_json c.after c.still c.above c.there in
          record {
            after = record s { wasm = e.after };
            gives =
                rw
                  (
                    ← r.input,
                    c.gives,
                    e.gives,
                    read_c_str-CString T e.after _ e.addr fuel e.there (short _),
                    parsed,
                    json _,
                  )
                  refl;
            ready = record { data_there = e.still; input = r.input };
          }

      Decides-decide :
          (i : T.Doc) (d : Option T.Doc) (s : Instance T)
          → Ready i s
          → Decides fuel
              (latest d i)
              (policy_decision answers (T.encode (latest d i)) [])
              (decide T fuel d s)
      unfolding decide prepare set_input ◌>>=◌
      Decides-decide i none s r = Decides-rewound i s r
      Decides-decide i (some d) s r =
          Decides-rewound d (record s { input_json = T.encode d })
            (record { data_there = r.data_there; input = refl })

      record GoesOn (i a : T.Doc) (ds : List (Option T.Doc)) (s : Instance T) : Type 0 where
        after : Instance T
        gives :
            decide_each T fuel ds s
            ≡ (ok (expected T.encode (policy_decision answers) a i ds), after)

      GoesOn-decide_each :
          (i a : T.Doc) (ds : List (Option T.Doc)) (s : Instance T) → Ready i s → GoesOn i a ds s
      unfolding decide_each expected pure ◌>>=◌
      GoesOn-decide_each i a [] s r = record { after = s; gives = refl }
      GoesOn-decide_each i a (d ∷ ds) s r =
          let first = Decides-decide i d s r in
          let rest = GoesOn-decide_each (latest d i) a ds first.after first.ready in
          record { after = rest.after; gives = rw (first.gives, rest.gives) refl }

      if_given :
          (b : Bool) (x w : T.Wasm) (v : T.World)
          → ((if b then pure x else λ (u : T.World). (threw, u)) v).0 ≡ ok w
          → x ≡ w
      unfolding pure
      if_given true x w v h = ok_inj x w h
      if_given false x w v h = absurd (cc)

      instantiate_given :
          (bytes : List ℕ) (v : T.World) (w : T.Wasm)
          → (instantiate T bytes v).0 ≡ ok w
          → (T.instantiate bytes v).0 ≡ ok w
      unfolding instantiate ◌>>=◌
      instantiate_given bytes v w h =
          let (x, e, k) = continue_ok (T.instantiate bytes v).0 _ (T.instantiate bytes v).1 w h in
          e ∙ ap ok (if_given _ x w _ k)

      data_text : List ℕ
      data_text = b'{' ∷ b'}' ∷ []

      loaded-Ready :
          (size : ℕ) (input : T.Doc) (w : T.Wasm) (inst : Instance T)
          → Of w
          → loaded T size input (load_data T w) ≡ ok inst
          → Ready input inst
      unfolding loaded load_data write_str parse_data ◌>>=◌ gets pure data_text
      loaded-Ready size input w inst o h =
          let (p, v) = T.opa_malloc 2 w in
          let there = policy.written data_text w in
          let u = T.set_bytes p data_text v in
          let here = policy.write_of p data_text v (policy.malloc_of 2 w o) in
          let l = policy.parsed_data p u here there in
          let e = rw (==-ne p 0 (policy.room 2 w)) at h in
          subst (Ready input) (ok_inj _ inst e) (record { data_there = l; input = refl })

      -- An instance that `setup` gave decides as the policy's answers say about the latest input,
      -- call after call. The conditions: the artifact of the policy is instantiated to memories
      -- that are `Of` it, its answers are JSON, and the fuel is above their length.
      pub decide_each-setup :
          (rego : Text) (input a : T.Doc) (ds : List (Option T.Doc)) (s : State T)
          (inst : Instance T)
          → ((b : Built) (v : T.World) (w : T.Wasm)
              → (compile T rego s).0 ≡ ok b
              → (T.instantiate b.bytes v).0 ≡ ok w
              → Of w)
          → (setup T rego input s).0 ≡ ok inst
          → (decide_each T fuel ds inst).0
            ≡ ok (expected T.encode (policy_decision answers) a input ds)
      unfolding setup instantiate outside ◌>>=◌
      decide_each-setup rego input a ds s inst of h =
          let (b, built, h1) = continue_ok (compile T rego s).0 _ (compile T rego s).1 inst h in
          let v = (compile T rego s).1.world in
          let (w, there, h2) =
            continue_ok (instantiate T b.bytes v).0 _
              (record (compile T rego s).1 { world = (instantiate T b.bytes v).1 }) inst h1 in
          let r =
            loaded-Ready b.size input w inst (of b v w built (instantiate_given b.bytes v w there))
              h2 in
          let go = GoesOn-decide_each input a ds inst r in rw go.gives refl
