-- ===== src/Bench/Measure.antt =====
-- The state of bench/run.mjs while it runs, its calls of an engine's instance, and its measurements.
-- The loops for engines with `isAsync` and for the others make the same calls, and are one here.
-- `events` and `next` are no state of the script: they record which instances were opened and
-- closed.
pub mod Rules
pub mod Returns
use zopa.Base.{ℕ, zero, suc, ◌+◌, ◌*◌, Option, List, [], ◌∷◌}
use zopa.Base.Tests.{ltb, if◌then◌else◌}
use zopa.Base.Text.{Text}
use zopa.Base.Number.{Numbers}
use zopa.Base.Exec.{ok, stuck, Exec, pure, ◌>>=◌, ◌>>◌, finally}
use zopa.Bench.Args.{Budget}
use zopa.Bench.Stats.{micros, corrected, window_ms, best_rate}
use zopa.Bench.Engine.{Decision, Figures, Host, Engine}

-- A call of `setup` that gave the n-th instance, and a call of that instance's `close`.
pub data Event : Type 0 where
  opened : ℕ → Event
  closed : ℕ → Event

module _ (N : Numbers) (H : Host N) where
  pub record ResultRow : Type 0 where
    pub fixture : Text
    pub engine : Text
    pub label : Text
    pub decision : Option Decision
    pub figures : Figures N

  pub record State : Type 0 where
    pub world : H.World
    pub results : List ResultRow
    pub disagreements : ℕ
    pub exit_code : ℕ
    pub events : List Event
    pub next : ℕ

  -- An element of the list `engines`.
  pub record Live : Type 0 where
    pub mod_ : Engine N H
    pub inst : H.Instance
    pub serial : ℕ

  abbrev pub M : Type 0 → Type 0
  M A = Exec State A

  unfoldable pub outside : {A : Type 0} → Exec H.World A → M A
  outside m s = let (r, w) = m s.world in (r, record s { world = w })

  unfoldable pub modify : (State → State) → M (Unit {0})
  modify f s = (ok tt, f s)

  unfoldable pub now : M ℕ
  now s = let (t, w) = H.clock s.world in (ok t, record s { world = w })

  unfoldable pub enter : Engine N H → H.Instance → M Live
  enter m i s = (
    ok (record { mod_ = m; inst = i; serial = s.next }),
    record s { events = opened s.next ∷ s.events; next = suc s.next },
  )

  -- `await mod.setup(fixture, opts)`
  unfoldable pub open_instance : Engine N H → H.Fixture → M Live
  unfolding outside enter
  open_instance m f = do i ← outside (m.setup f); enter m i

  -- `inst.close()`
  unfoldable pub close_instance : Live → M (Unit {0})
  unfolding outside modify
  close_instance e = do
    modify (λ s. record s { events = closed e.serial ∷ s.events })
    outside (e.mod_.close e.inst)

  unfoldable pub decide : Live → M Decision
  unfolding outside
  decide e = outside (e.mod_.decide e.inst)

  -- `for (let k = 0; k < n; k++) await inst.decide()`
  unfoldable pub warm_up : ℕ → Live → M (Unit {0})
  warm_up zero e = pure tt
  warm_up (suc n) e = do decide e; warm_up n e

  -- function latency: one sample for each round
  unfoldable pub samples : N.Num → ℕ → Live → M (List N.Num)
  samples floor zero e = pure []
  samples floor (suc n) e = do
    t0 ← now
    decide e
    t1 ← now
    rest ← samples floor n e
    pure (corrected N floor (micros N t0 t1) ∷ rest)

  -- `while (hrtime() < deadline) { decide(); n++; }`
  unfoldable pub window : ℕ → ℕ → ℕ → Live → M ℕ
  window zero deadline n e = λ s. (stuck, s)
  window (suc fuel) deadline n e = do
    t ← now
    let next = window fuel deadline (suc n) e
    if ltb t deadline then (do decide e; next) else pure n

  unfoldable pub windows : ℕ → ℕ → ℕ → Live → M (List ℕ)
  unfolding window
  windows fuel ms zero e = pure []
  windows fuel ms (suc runs) e = do
    t ← now
    n ← window fuel (t + ms * 1_000_000) 0 e
    ns ← windows fuel ms runs e
    pure (n ∷ ns)

  -- function throughput
  unfoldable pub throughput : ℕ → Budget → Live → M N.Num
  unfolding windows
  throughput fuel b e = do
    let ms = window_ms N b.throughput_ms b.throughput_runs
    ns ← windows fuel ms b.throughput_runs e
    pure (best_rate N ms (N.of_nat 0) ns)

  -- function coldStart
  unfoldable pub cold_start : Engine N H → H.Fixture → M N.Num
  unfolding open_instance close_instance decide now
  cold_start m f = do
    t0 ← now
    e ← open_instance m f
    finally (do decide e; t1 ← now; pure (N.div (micros N t0 t1) (N.of_nat 1000)))
        (close_instance e)
