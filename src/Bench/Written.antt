-- ===== src/Bench/Written.antt =====
-- What bench/run.mjs writes to the file of `--json`, as far as bench/compare.mjs reads it.
pub mod Reference
mod Tests
use zopa.Base.{List, [], ◌∷◌, ◌++◌, Bool}
use zopa.Base.Tests.{if◌then◌else◌}
use zopa.Base.Text.{Text}
use zopa.Base.Number.{Numbers, JsValue, number, other}
use zopa.Bench.Engine.{Host}
use zopa.Bench.Measure.{ResultRow}
use zopa.Compare.{Row, Run, includes}

-- A `Set` of strings, in insertion order: `set.add(id)`.
unfoldable pub set_add : Text → List Text → List Text
unfolding includes
set_add id ids = if includes id ids then ids else ids ++ id ∷ []

module _ (N : Numbers) (H : Host N) where
  -- `new Set(…)` of the rows' engines, after those in `ids`
  unfoldable pub collect : List (ResultRow N H) → List Text → List Text
  unfolding set_add
  collect [] ids = ids
  collect (r ∷ rs) ids = collect rs (set_add r.engine ids)

  -- const engineIds
  unfoldable pub engine_ids : List (ResultRow N H) → List Text
  unfolding collect
  engine_ids rs = collect rs []

  -- `JSON.stringify` of a number, read back: one that is not finite is written as `null`.
  unfoldable pub written_number : N.Num → JsValue N.Num
  written_number x = if N.is_finite x then number x else other

  unfoldable pub written_rows : List (ResultRow N H) → List (Row N)
  unfolding written_number
  written_rows [] = []
  written_rows (r ∷ rs) =
      record {
        fixture = r.fixture;
        engine = r.engine;
        amortized_micros = written_number r.figures.amortized_micros;
      }
      ∷ written_rows rs

  -- The fields `engines` and `results` of the document.
  unfoldable pub written_run : List (ResultRow N H) → Run N
  unfolding engine_ids written_rows
  written_run rs = record { engines = engine_ids rs; results = written_rows rs }
