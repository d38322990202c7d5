-- ===== src/Engines/ZopaCompiled.antt =====
-- bench/engines/zopa-compiled.mjs: an instance holds a policy's handle and the buffer of the input.
-- The exports `policy_compile`, `policy_release` and `evaluate_compiled`, and `JSON.stringify`, are
-- parameters.
pub mod Policies
pub mod Held
pub mod Started
pub mod Session
mod Tests
use zopa.Base.{ℕ, ◌≡◌, Bool, true, false, Option, none, some, List, [], ◌∷◌}
use zopa.Base.Tests.{if◌then◌else◌}
use zopa.Base.Integers.{ℤ, is_positive}
use zopa.Base.Exec.{Result, ok, threw, stuck, Exec, pure, ◌>>=◌, ◌>>◌}
use zopa.Bench.Engine.{Decision}
use zopa.Engines.Heap.{Memory, Buffer, write}

-- `policy` is the text of the policy that a handle stands for, if it stands for one.
pub record Exports : Type 1 where
  pub memory : Memory
  pub policy_compile : ℕ → ℕ → memory.World → ℤ × memory.World
  pub policy_release : ℤ → memory.World → memory.World
  pub evaluate_compiled : ℤ → ℕ → ℕ → memory.World → Decision × memory.World
  pub policy : memory.World → ℤ → Option (List ℕ)
  pub Doc : Type 0
  pub encode : Doc → List ℕ

-- The variables `handle` and `input` of `setup`.
pub record Instance : Type 0 where
  pub handle : ℤ
  pub input : Buffer

module _ (X : Exports) where
  -- The world with the variables of an instance.
  pub record State : Type 0 where
    pub world : X.memory.World
    pub inst : Instance

  unfoldable pub free_buffer : Buffer → Exec X.memory.World (Unit {0})
  free_buffer b w = (ok tt, X.memory.free b.ptr w)

  unfoldable pub compile_buffer : Buffer → Exec X.memory.World ℤ
  compile_buffer b w = let (h, w') = X.policy_compile b.ptr b.len w in (ok h, w')

  unfoldable pub check_handle : ℤ → Exec X.memory.World (Unit {0})
  check_handle h w = if is_positive h then (ok tt, w) else (threw, w)

  unfoldable pub setup : X.Doc → X.Doc → Exec X.memory.World Instance
  unfolding free_buffer compile_buffer check_handle
  setup ast_doc input_doc = do
    ast ← write X.memory (X.encode ast_doc)
    handle ← compile_buffer ast
    free_buffer ast
    check_handle handle
    input ← write X.memory (X.encode input_doc)
    pure (record { handle = handle; input = input })

  unfoldable pub outside : {A : Type 0} → Exec X.memory.World A → Exec State A
  outside m s = let (r, w) = m s.world in (r, record s { world = w })

  unfoldable pub set_input : Buffer → Exec State (Unit {0})
  set_input b s = (ok tt, record s { inst = record s.inst { input = b } })

  unfoldable pub free_input : Exec State (Unit {0})
  free_input s = (ok tt, record s { world = X.memory.free s.inst.input.ptr s.world })

  -- `if (nextInput !== undefined)`
  unfoldable pub next_input : Option X.Doc → Exec State (Unit {0})
  unfolding outside set_input free_input
  next_input none = pure tt
  next_input (some doc) = do free_input; b ← outside (write X.memory (X.encode doc)); set_input b

  unfoldable pub evaluate : Exec State Decision
  evaluate s =
      let (d, w) = X.evaluate_compiled s.inst.handle s.inst.input.ptr s.inst.input.len s.world in
      (ok d, record s { world = w })

  unfoldable pub decide : Option X.Doc → Exec State Decision
  unfolding next_input evaluate
  decide doc = do next_input doc; evaluate

  unfoldable pub close : State → X.memory.World
  close s = X.policy_release s.inst.handle (X.memory.free s.inst.input.ptr s.world)

  unfoldable pub decide_each : List (Option X.Doc) → Exec State (List Decision)
  unfolding decide
  decide_each [] = pure []
  decide_each (doc ∷ docs) = do d ← decide doc; ds ← decide_each docs; pure (d ∷ ds)

  abbrev pub use_instance :
      List (Option X.Doc)
      → Result Instance
      → X.memory.World
      → Result (List Decision) × X.memory.World
  use_instance docs (ok inst) w =
      let (r, s) = decide_each docs (record { world = w; inst = inst }) in (r, close s)
  use_instance docs threw w = (threw, w)
  use_instance docs stuck w = (stuck, w)

  -- What a client does: it sets up an instance, lets it decide, and closes it, after a throw too.
  unfoldable pub session : X.Doc → X.Doc → List (Option X.Doc) → Exec X.memory.World (List Decision)
  unfolding setup decide_each close
  session ast_doc input_doc docs w =
      let (r, w') = setup ast_doc input_doc w in use_instance docs r w'
