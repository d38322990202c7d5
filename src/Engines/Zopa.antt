-- ===== src/Engines/Zopa.antt =====
-- bench/engines/zopa.mjs: an instance holds the buffer of the policy and the buffer of the input.
-- The export `evaluate` and `JSON.stringify` are parameters.
pub mod Buffers
pub mod Started
pub mod Session
mod Tests
use zopa.Base.{ℕ, ◌≡◌, Bool, true, false, Option, none, some, List, [], ◌∷◌}
use zopa.Base.Tests.{◌==◌, if◌then◌else◌}
use zopa.Base.Lists.{length}
use zopa.Base.Exec.{Result, ok, threw, stuck, Exec, pure, gets, ◌>>=◌, ◌>>◌}
use zopa.Bench.Engine.{Decision}
use zopa.Engines.Heap.{Memory, Buffer, write}

-- A document's text is its bytes as `enc.encode(JSON.stringify(obj))` gives them.
pub record Exports : Type 1 where
  pub memory : Memory
  pub evaluate : ℕ → ℕ → ℕ → ℕ → memory.World → Decision × memory.World
  pub Doc : Type 0
  pub encode : Doc → List ℕ

-- The variables `ast` and `input` of `setup`.
pub record Instance : Type 0 where
  pub ast : Buffer
  pub input : Buffer

module _ (X : Exports) where
  -- The world with the variables of an instance.
  pub record State : Type 0 where
    pub world : X.memory.World
    pub inst : Instance

  unfoldable pub setup : X.Doc → X.Doc → Exec X.memory.World Instance
  unfolding write
  setup ast_doc input_doc = do
    ast ← write X.memory (X.encode ast_doc)
    input ← write X.memory (X.encode input_doc)
    pure (record { ast = ast; input = input })

  unfoldable pub outside : {A : Type 0} → Exec X.memory.World A → Exec State A
  outside m s = let (r, w) = m s.world in (r, record s { world = w })

  unfoldable pub set_input : Buffer → Exec State (Unit {0})
  set_input b s = (ok tt, record s { inst = record s.inst { input = b } })

  unfoldable pub free_input : Exec State (Unit {0})
  free_input s = (ok tt, record s { world = X.memory.free s.inst.input.ptr s.world })

  -- `if (nextInput !== undefined)`
  unfoldable pub next_input : Option X.Doc → Exec State (Unit {0})
  unfolding write outside set_input free_input
  next_input none = pure tt
  next_input (some doc) = do free_input; b ← outside (write X.memory (X.encode doc)); set_input b

  unfoldable pub evaluate : Exec State Decision
  evaluate s =
      let (d, w) =
        X.evaluate s.inst.input.ptr s.inst.input.len s.inst.ast.ptr s.inst.ast.len s.world in
      (ok d, record s { world = w })

  unfoldable pub decide : Option X.Doc → Exec State Decision
  unfolding next_input evaluate
  decide doc = do next_input doc; evaluate

  unfoldable pub close : State → X.memory.World
  close s = X.memory.free s.inst.ast.ptr (X.memory.free s.inst.input.ptr s.world)

  unfoldable pub decide_each : List (Option X.Doc) → Exec State (List Decision)
  unfolding decide
  decide_each [] = pure []
  decide_each (doc ∷ docs) = do d ← decide doc; ds ← decide_each docs; pure (d ∷ ds)

  abbrev pub use_instance :
      List (Option X.Doc)
      → Result Instance
      → X.memory.World
      → Result (List Decision) × X.memory.World
  use_instance docs (ok inst) w =
      let (r, s) = decide_each docs (record { world = w; inst = inst }) in (r, close s)
  use_instance docs threw w = (threw, w)
  use_instance docs stuck w = (stuck, w)

  -- What a client does: it sets up an instance, lets it decide, and closes it, after a throw too.
  unfoldable pub session : X.Doc → X.Doc → List (Option X.Doc) → Exec X.memory.World (List Decision)
  unfolding setup decide_each close
  session ast_doc input_doc docs w =
      let (r, w') = setup ast_doc input_doc w in use_instance docs r w'
