-- ===== src/Bench/Select/Live.antt =====
-- The engines that bench/run.mjs chooses.
use zopa.Base.{◌&&◌, ◌≡◌, refl, Bool, true, Option, none, some, List, [], ◌∷◌, inl, inr}
use zopa.Base.Tests.{if◌then◌else◌, Bool-cases}
use zopa.Base.Text.{Text}
use zopa.Base.Exec.{ok, threw, Exec, pure, ◌>>=◌}
use zopa.Bench.Driver.{zopa_id}
use zopa.Bench.Select.{
  includes_id, some_id, filter_ids, selected, unknown, check_known, find_live, choose,
}

module _ {World E : Type 0} (id : E → Text) (available : E → Exec World Bool) where
  pub filter : (E → Bool) → List E → List E
  filter p [] = []
  filter p (m ∷ ms) = let rest = filter p ms in if p m then m ∷ rest else rest

  pub requested : Option (List Text) → E → Bool
  requested none m = true
  requested (some ids) m = includes_id (id m) ids

  pub every_known : Option (List Text) → List E → Bool
  every_known none all = true
  every_known (some []) all = true
  every_known (some (e ∷ es)) all = some_id id available e all && every_known (some es) all

  check_known-every :
      (ids : Option (List Text)) (all : List E) (w : World)
      → check_known id available ids all w
        ≡ (if every_known ids all then (ok tt, w) else (threw, w))
  unfolding check_known unknown every_known pure
  check_known-every none all w = refl
  check_known-every (some []) all w = refl
  check_known-every (some (e ∷ es)) all w = elim (Bool-cases (some_id id available e all)) [
    | inl k ↦ rw k (check_known-every (some es) all w)
    | inr k ↦ rw k refl
  ]

  module _ (ok_check : E → Bool) where
    -- A check gives a fixed answer, whatever the world.
    abbrev pub Answers : Type 0
    Answers = (m : E) (w : World) → (available m w).0 ≡ ok (ok_check m)

    find_live-filter :
        Answers
        → (ms : List E) (w : World) → (find_live id available ms w).0 ≡ ok (filter ok_check ms)
    unfolding find_live filter ◌>>=◌ pure
    find_live-filter h [] w = refl
    find_live-filter h (m ∷ ms) w =
        let w' = (available m w).1 in rw (h m w, find_live-filter h ms w') refl

    filter-selected :
        (ids : Option (List Text)) (ms : List E)
        → filter ok_check (selected id available ids ms)
          ≡ filter (λ m. requested ids m && ok_check m) ms
    unfolding selected filter_ids filter requested
    filter-selected none ms = refl
    filter-selected (some ids) [] = refl
    filter-selected (some ids) (m ∷ ms) =
        let ih = filter-selected (some ids) ms in
        elim (Bool-cases (includes_id (id m) ids)) [
          | inl k ↦ rw (k, ih) refl
          | inr k ↦ rw (k, ih) refl
        ]

    -- Where each engine's check gives a fixed answer, the script throws if a requested id is no
    -- engine's. Otherwise the engines to run are the requested ones, or all if none are requested,
    -- whose check says yes, in the order of `ALL_ENGINES`; without zopa among them there are none.
    pub choose-filter :
        Answers
        → (ids : Option (List Text)) (all : List E) (w : World)
        → let live = filter (λ m. requested ids m && ok_check m) all in
          (choose id available ids all w).0 ≡ (
            if every_known ids all
            then ok (if some_id id available zopa_id live then some live else none)
            else threw)
    unfolding choose ◌>>=◌ pure
    choose-filter h ids all w =
        let live = find_live-filter h (selected id available ids all) w in
        elim (Bool-cases (every_known ids all)) [
          | inl k ↦ rw (check_known-every ids all w, k, live, filter-selected ids all) refl
          | inr k ↦ rw (check_known-every ids all w, k) refl
        ]
