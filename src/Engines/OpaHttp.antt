-- ===== src/Engines/OpaHttp.antt =====
-- bench/engines/opa-http.mjs: an OPA server as a child process, asked over HTTP. The file system, the
-- processes, `fetch`, the clock and the reading of JSON and of metrics are parameters. `log` is no
-- variable of the module: it records the directories and processes that were made and removed.
pub mod Ready
pub mod Quiet
pub mod Started
pub mod Cleanup
pub mod Mapping
mod Tests
use zopa.Base.{ℕ, zero, suc, ◌+◌, Bool, true, false, Option, none, some, List, [], ◌∷◌}
use zopa.Base.Tests.{ltb, if◌then◌else◌}
use zopa.Base.Integers.{ℤ}
use zopa.Base.Text.{Text, codes}
use zopa.Base.Exec.{Result, ok, threw, stuck, Exec, pure, gets, attempt, ◌>>=◌, ◌>>◌, finally}
use zopa.Bench.Engine.{Decision, allow, deny}
use zopa.Engines.Decisions.{latest}

-- `json.result === true`, or not
pub data Value : Type 0 where
  is_true other : Value

-- What `fetch` resolves to: its status is no success, its body is no JSON, or the JSON with its
-- `result`, which may be missing.
pub data Response : Type 0 where
  refused not_json : Response
  body : Option Value → Response

pub record Host : Type 1 where
  pub World : Type 0
  pub Child : Type 0
  pub Doc : Type 0
  pub Num : Type 0
  pub make_dir : Exec World Text
  pub write_rego : Text → Text → Exec World (Unit {0})
  pub random_port : World → ℕ × World
  pub spawn : Text → ℕ → Exec World Child
  pub exit_code : Child → World → Option ℤ
  pub now : World → ℕ × World
  pub health : ℕ → Exec World Bool
  pub sleep : ℕ → World → World
  pub kill : Child → Exec World (Unit {0})
  pub remove_dir : Text → Exec World (Unit {0})
  pub post : ℕ → Doc → Exec World Response
  pub metrics : ℕ → Exec World Text
  pub metric : Text → Text → Option Num

abbrev pub ready_timeout_ms : ℕ
ready_timeout_ms = 20_000

module _ (H : Host) where
  pub data Event : Type 0 where
    made_dir removed_dir : Text → Event
    started killed : H.Child → Event

  pub record State : Type 0 where
    pub world : H.World
    pub log : List Event

  abbrev pub M : Type 0 → Type 0
  M A = Exec State A

  unfoldable pub outside : {A : Type 0} → Exec H.World A → M A
  outside m s = let (r, w) = m s.world in (r, record s { world = w })

  unfoldable pub note : Event → M (Unit {0})
  note e s = (ok tt, record s { log = e ∷ s.log })

  unfoldable pub now : M ℕ
  now s = let (t, w) = H.now s.world in (ok t, record s { world = w })

  unfoldable pub sleep : ℕ → M (Unit {0})
  sleep ms s = (ok tt, record s { world = H.sleep ms s.world })

  unfoldable pub throw_error : {A : Type 0} → M A
  throw_error s = (threw, s)

  abbrev pub is_ready : Option Bool → Bool
  is_ready none = false
  is_ready (some is_ok) = is_ok

  -- `if (child.exitCode !== null) throw …`, and the request. A failed `fetch` is not listening yet.
  unfoldable pub probe_unless : Option ℤ → ℕ → M Bool
  unfolding outside throw_error
  probe_unless (some code) port = throw_error
  probe_unless none port = do answer ← attempt (outside (H.health port)); pure (is_ready answer)

  unfoldable pub probe : ℕ → H.Child → M Bool
  unfolding probe_unless
  probe port child s = probe_unless (H.exit_code child s.world) port s

  -- The body of the loop, and what follows if the server is not ready.
  unfoldable pub round : ℕ → H.Child → M (Unit {0}) → M (Unit {0})
  unfolding sleep probe
  round port child again = do
    ready ← probe port child
    if ready then pure tt else (do sleep 25; again)

  -- `while (Date.now() < deadline)`: without fuel the loop has not ended.
  unfoldable pub wait_until : ℕ → ℕ → ℕ → H.Child → M (Unit {0})
  unfolding now throw_error
  wait_until zero deadline port child s = (stuck, s)
  wait_until (suc fuel) deadline port child s =
      let again = wait_until fuel deadline port child in
      (do t ← now; if ltb t deadline then round port child again else throw_error) s

  -- function waitReady
  unfoldable pub wait_ready : ℕ → ℕ → H.Child → M (Unit {0})
  unfolding wait_until
  wait_ready fuel port child = do t ← now; wait_until fuel (t + ready_timeout_ms) port child

  -- The variables of `setup` that an instance holds. `body` is the input of the text `body`.
  pub record Instance : Type 0 where
    pub dir : Text
    pub port : ℕ
    pub child : H.Child
    pub body : H.Doc

  unfoldable pub make_dir : M Text
  unfolding outside note
  make_dir = do dir ← outside H.make_dir; note (made_dir dir); pure dir

  unfoldable pub start_child : Text → ℕ → M H.Child
  unfolding outside note
  start_child dir port = do child ← outside (H.spawn dir port); note (started child); pure child

  unfoldable pub random_port : M ℕ
  random_port s = let (p, w) = H.random_port s.world in (ok p, record s { world = w })

  -- `child.kill(…)` and `rmSync(dir, …)`
  unfoldable pub discard : Text → H.Child → M (Unit {0})
  unfolding outside note
  discard dir child = do
    note (killed child)
    outside (H.kill child)
    note (removed_dir dir)
    outside (H.remove_dir dir)

  -- The `catch` of `setup`.
  unfoldable pub ready_or_discard : Text → H.Child → Option (Unit {0}) → M (Unit {0})
  unfolding discard throw_error
  ready_or_discard dir child (some _) = pure tt
  ready_or_discard dir child none = do discard dir child; throw_error

  unfoldable pub setup : ℕ → Text → H.Doc → M Instance
  unfolding make_dir start_child random_port wait_ready ready_or_discard outside
  setup fuel rego input = do
    dir ← make_dir
    outside (H.write_rego dir rego)
    port ← random_port
    child ← start_child dir port
    ready ← attempt (wait_ready fuel port child)
    ready_or_discard dir child ready
    pure (record { dir = dir; port = port; child = child; body = input })

  -- `if (!('result' in json)) return 0; return json.result === true ? 1 : 0;`
  unfoldable pub decision_of : Option Value → Decision
  decision_of none = deny
  decision_of (some is_true) = allow
  decision_of (some other) = deny

  unfoldable pub read_response : Response → M Decision
  unfolding decision_of throw_error
  read_response refused = throw_error
  read_response not_json = throw_error
  read_response (body v) = pure (decision_of v)

  -- The state with the variables of an instance.
  pub record Running : Type 0 where
    pub state : State
    pub inst : Instance

  unfoldable pub on_host : {A : Type 0} → (Instance → M A) → Exec Running A
  on_host m r = let (q, s) = m r.inst r.state in (q, record r { state = s })

  -- `if (nextInput !== undefined)`
  unfoldable pub set_body : Option H.Doc → Exec Running (Unit {0})
  set_body next_input r =
      (ok tt, record r { inst = record r.inst { body = latest next_input r.inst.body } })

  unfoldable pub post_body : Instance → M Response
  unfolding outside
  post_body inst = outside (H.post inst.port inst.body)

  unfoldable pub decide : Option H.Doc → Exec Running Decision
  unfolding on_host set_body post_body read_response
  decide next_input = do
    set_body next_input
    response ← on_host post_body
    on_host (λ inst. read_response response)

  -- The loop over the two names: the first that the text has.
  unfoldable pub first_metric : List Text → Text → Option H.Num
  first_metric [] text = none
  first_metric (key ∷ keys) text = elim (H.metric key text) [
    | none ↦ first_metric keys text
    | some n ↦ some n
  ]

  unfoldable pub memory_bytes : Instance → M (Option H.Num)
  unfolding outside first_metric
  memory_bytes inst = do
    text ← attempt (outside (H.metrics inst.port))
    pure (elim text [
      | none ↦ none
      | some t ↦
          first_metric (codes "process_resident_memory_bytes" ∷ codes "go_memstats_sys_bytes" ∷ [])
            t
    ])

  unfoldable pub close : Instance → M (Unit {0})
  unfolding discard
  close inst = discard inst.dir inst.child

  unfoldable pub decide_each : List (Option H.Doc) → Exec Running (List Decision)
  unfolding decide
  decide_each [] = pure []
  decide_each (doc ∷ docs) = do d ← decide doc; ds ← decide_each docs; pure (d ∷ ds)

  -- What a client does: it lets the instance decide, and closes it, after a throw too.
  unfoldable pub use_then_close : List (Option H.Doc) → Exec Running (List Decision)
  unfolding decide_each close on_host
  use_then_close docs = finally (decide_each docs) (on_host close)

  abbrev pub with_instance :
      List (Option H.Doc) → Result Instance → State → Result (List Decision) × State
  with_instance docs (ok inst) s =
      let (r, u) = use_then_close docs (record { state = s; inst = inst }) in (r, u.state)
  with_instance docs threw s = (threw, s)
  with_instance docs stuck s = (stuck, s)

  unfoldable pub session : ℕ → Text → H.Doc → List (Option H.Doc) → M (List Decision)
  unfolding setup use_then_close
  session fuel rego input docs s = let (r, s') = setup fuel rego input s in with_instance docs r s'
