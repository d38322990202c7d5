-- ===== src/Bench/Engine.antt =====
-- What bench/run.mjs asks of an engine module and of the host. The engines stand in
-- bench/engines/*.mjs; the clock is `process.hrtime.bigint`.
use zopa.Base.{ℕ, Bool, true, false, Option}
use zopa.Base.Tests.{◌==◌}
use zopa.Base.Text.{Text}
use zopa.Base.Number.{Numbers}
use zopa.Base.Exec.{Exec}

-- What `decide()` returns: 1, 0, -1, or another value.
pub data Decision : Type 0 where
  allow deny failed : Decision
  other_value : ℕ → Decision

-- `a === b` on decisions
unfoldable pub same_decision : Decision → Decision → Bool
same_decision allow allow = true
same_decision deny deny = true
same_decision failed failed = true
same_decision (other_value a) (other_value b) = a == b
same_decision _ _ = false

module _ (N : Numbers) where
  -- The figures of a result row.
  pub record Figures : Type 0 where
    pub p50 : Option N.Num
    pub p95 : Option N.Num
    pub p99 : Option N.Num
    pub mean : N.Num
    pub ops_per_sec : N.Num
    pub amortized_micros : N.Num
    pub memory_bytes : Option N.Num
    pub artifact_bytes : Option N.Num
    pub cold_start_ms : N.Num
    pub eval_only_micros : Option N.Num

  pub record Host : Type 1 where
    pub World : Type 0
    pub Instance : Type 0
    pub Fixture : Type 0
    pub name : Fixture → Text
    pub clock : World → ℕ × World

  -- The exports of an engine module. `memory_bytes` and `artifact_bytes` are `none` where the
  -- instance has no such method or it gives `null`.
  pub record Engine (H : Host) : Type 0 where
    pub id : Text
    pub label : Text
    pub supports : H.Fixture → Bool
    pub setup : H.Fixture → Exec H.World H.Instance
    pub decide : H.Instance → Exec H.World Decision
    pub close : H.Instance → Exec H.World (Unit {0})
    pub memory_bytes : H.Instance → Exec H.World (Option N.Num)
    pub artifact_bytes : H.Instance → Exec H.World (Option N.Num)
    pub measure : Option (H.Fixture → Exec H.World Figures)
