-- ===== src/Engines/CedarNative/Again.antt =====
-- The row cache of bench/engines/cedar-native.mjs: the first result of `rows` is its result for good.
use zopa.Base.{◌≡◌, refl, ◌∙◌, inl, inr, ◌≢◌, Bool, true, false, Option, none, some, List, []}
use zopa.Base.Tests.{if◌then◌else◌, Bool-cases}
use zopa.Base.Dict.{Dict}
use zopa.Base.Number.{Numbers}
use zopa.Base.Exec.{Result, ok, threw, stuck, pure, continue, ◌>>=◌}
use zopa.Bench.Args.{Budget}
use zopa.Engines.CedarNative.{
  NativeRow, Tools, State, outside, cargo_version, build, start_program, by_name, run_harness,
  settle, from_pending, rows,
}

module _ (N : Numbers) (T : Tools N) where
  failure-cargo :
      (b : Bool) (s : State N T)
      → ((if b then outside N T T.cargo_build else pure tt) s).1.failure ≡ s.failure
  unfolding outside pure
  failure-cargo true s = refl
  failure-cargo false s = refl

  failure-build : (s : State N T) → (build N T s).1.failure ≡ s.failure
  unfolding build cargo_version ◌>>=◌
  failure-build s =
      failure-cargo (T.has_cargo s.world).0 (record s { world = (T.has_cargo s.world).1 })

  failure-started :
      (r : Result (List (NativeRow N))) (s : State N T)
      → (continue r (λ rs. pure (by_name N T rs [])) s).1.failure ≡ s.failure
  unfolding pure
  failure-started (ok rs) s = refl
  failure-started threw s = refl
  failure-started stuck s = refl

  failure-built :
      (r : Result (Unit {0})) (b : Budget) (s : State N T)
      → (continue r (λ _. start_program N T b >>= λ rs. pure (by_name N T rs [])) s).1.failure
        ≡ s.failure
  unfolding start_program outside ◌>>=◌
  failure-built (ok _) b s = failure-started (T.program b s.world).0 _
  failure-built threw b s = refl
  failure-built stuck b s = refl

  failure-run_harness : (b : Budget) (s : State N T) → (run_harness N T b s).1.failure ≡ s.failure
  unfolding run_harness ◌>>=◌
  failure-run_harness b s = failure-built (build N T s).0 b (build N T s).1 ∙ failure-build s

  rows-settle :
      (r : Result (Dict (NativeRow N))) (c : Budget) (s : State N T)
      → s.failure ≡ false
      → (settle N T r s).0 ≢ stuck
      → rows N T c (settle N T r s).1 ≡ settle N T r s
  unfolding rows
  rows-settle (ok m) c s h k = rw h refl
  rows-settle threw c s h k = refl
  rows-settle stuck c s h k = absurd (k refl)

  rows-from_pending :
      (o : Option (Dict (NativeRow N))) (b c : Budget) (s : State N T)
      → s.failure ≡ false
      → s.pending ≡ o
      → (from_pending N T o b s).0 ≢ stuck
      → rows N T c (from_pending N T o b s).1 ≡ from_pending N T o b s
  unfolding rows
  rows-from_pending (some m) b c s h p k = rw (h, p) refl
  rows-from_pending none b c s h p k =
      rows-settle (run_harness N T b s).0 c (run_harness N T b s).1 (failure-run_harness b s ∙ h) k

  rows_failed : (b : Budget) (s : State N T) → s.failure ≡ true → rows N T b s ≡ (threw, s)
  unfolding rows
  rows_failed b s e = rw e refl

  rows_going :
      (b : Budget) (s : State N T)
      → s.failure ≡ false
      → rows N T b s ≡ from_pending N T s.pending b s
  unfolding rows
  rows_going b s e = rw e refl

  -- Once `rows` has given the rows or has thrown, each later call gives the same result, with any
  -- budget, and changes nothing.
  pub rows-rows :
      (b c : Budget) (s : State N T)
      → (rows N T b s).0 ≢ stuck
      → rows N T c (rows N T b s).1 ≡ rows N T b s
  rows-rows b c s k = elim (Bool-cases s.failure) [
    | inl e ↦ rw (rows_failed b s e, rows_failed c s e) refl
    | inr e ↦
        rw (rows_going b s e)
          (rows-from_pending s.pending b c s e refl (rw (rows_going b s e) at k))
  ]
