-- ===== src/Bench/Select.antt =====
-- The choice of engines in bench/run.mjs, before the loop over the fixtures. An engine module is
-- known by its `id` and its `available`.
mod Tests
pub mod Live
use zopa.Base.{◌≡◌, Bool, true, false, Option, none, some, List, [], ◌∷◌}
use zopa.Base.Tests.{if◌then◌else◌}
use zopa.Base.Text.{Text, same}
use zopa.Base.Exec.{Result, ok, threw, stuck, Exec, pure, ◌>>=◌, ◌>>◌}
use zopa.Bench.Driver.{zopa_id}

-- `ids.includes(id)`
unfoldable pub includes_id : Text → List Text → Bool
includes_id id [] = false
includes_id id (i ∷ is) = if same i id then true else includes_id id is

module _ {World E : Type 0} (id : E → Text) (available : E → Exec World Bool) where
  -- `ALL_ENGINES.some((m) => m.id === e)`
  unfoldable pub some_id : Text → List E → Bool
  some_id e [] = false
  some_id e (m ∷ ms) = if same (id m) e then true else some_id e ms

  unfoldable pub filter_ids : List Text → List E → List E
  filter_ids ids [] = []
  filter_ids ids (m ∷ ms) =
      let rest = filter_ids ids ms in if includes_id (id m) ids then m ∷ rest else rest

  -- `selected`
  unfoldable pub selected : Option (List Text) → List E → List E
  unfolding filter_ids
  selected none all = all
  selected (some ids) all = filter_ids ids all

  -- `unknown`
  unfoldable pub unknown : List Text → List E → List Text
  unfolding some_id
  unknown [] all = []
  unknown (e ∷ es) all = let rest = unknown es all in if some_id e all then rest else e ∷ rest

  abbrev throw_if_any : List Text → Exec World (Unit {0})
  throw_if_any [] w = (ok tt, w)
  throw_if_any (_ ∷ _) w = (threw, w)

  unfoldable pub check_known : Option (List Text) → List E → Exec World (Unit {0})
  unfolding unknown
  check_known none all = pure tt
  check_known (some ids) all = throw_if_any (unknown ids all)

  -- The loop that fills `live`.
  unfoldable pub find_live : List E → Exec World (List E)
  find_live [] = pure []
  find_live (m ∷ ms) = do
    ready ← available m
    rest ← find_live ms
    pure (if ready then m ∷ rest else rest)

  -- The engines to run, or `none` where the script exits with status 1 without zopa.
  unfoldable pub choose : Option (List Text) → List E → Exec World (Option (List E))
  unfolding check_known selected find_live some_id
  choose ids all = do
    check_known ids all
    live ← find_live (selected ids all)
    pure (if some_id zopa_id live then some live else none)
