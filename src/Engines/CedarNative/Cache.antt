-- ===== src/Engines/CedarNative/Cache.antt =====
-- The row cache of bench/engines/cedar-native.mjs over any sequence of calls of the module.
use zopa.Base.{ℕ, ◌≤◌, ◌≡◌, refl, ◌∙◌, Bool, true, false, Option, none, some, List, [], ◌∷◌, arith}
use zopa.Base.Tests.{if◌then◌else◌}
use zopa.Base.Text.{Text}
use zopa.Base.Dict.{Dict, lookup}
use zopa.Base.Number.{Numbers}
use zopa.Base.Exec.{Result, ok, threw, stuck, Exec, pure, caught, attempt, continue, ◌>>=◌}
use zopa.Bench.Args.{Budget}
use zopa.Engines.CedarNative.{
  NativeRow, Tools, State, outside, cargo_version, build, start_program, by_name, run_harness,
  settle, from_pending, rows, found, row_for, setup, measure, Call, set_up, measure_it, call, calls,
  loaded,
}

module _ (N : Numbers) (T : Tools N) where
  -- The runs that a state of the two variables allows.
  Once : Option (Dict (NativeRow N)) → Bool → ℕ → Type 0
  Once _ true n = n ≤ 1
  Once (some _) false n = n ≡ 1
  Once none false n = n ≡ 0

  Kept : State N T → Type 0
  Kept s = Once s.pending s.failure s.runs

  -- After a call that hangs, nothing more is called.
  After : {A : Type 0} → Result A × State N T → Type 0
  unfolding Kept Once
  After (ok _, s) = Kept s
  After (threw, s) = Kept s
  After (stuck, s) = s.runs ≤ 1

  Once-le : (o : Option (Dict (NativeRow N))) (b : Bool) (n : ℕ) → Once o b n → n ≤ 1
  unfolding Once
  Once-le o true n h = h
  Once-le (some m) false n h = omega arith
  Once-le none false n h = omega arith

  After-le : {A : Type 0} (r : Result A) (s : State N T) → After (r, s) → s.runs ≤ 1
  unfolding After Kept
  After-le (ok a) s h = Once-le s.pending s.failure s.runs h
  After-le threw s h = Once-le s.pending s.failure s.runs h
  After-le stuck s h = h

  After-continue :
      {A B : Type 0} (r : Result A) (f : A → Exec (State N T) B) (s : State N T)
      → ((a : A) (t : State N T) → Kept t → After (f a t))
      → After (r, s)
      → After (continue r f s)
  unfolding After
  After-continue (ok a) f s h k = h a s k
  After-continue threw f s h k = k
  After-continue stuck f s h k = k

  After-caught : {A : Type 0} (r : Result A) (s : State N T) → After (r, s) → After (caught r s)
  unfolding After
  After-caught (ok a) s k = k
  After-caught threw s k = k
  After-caught stuck s k = k

  runs-cargo :
      (b : Bool) (s : State N T)
      → ((if b then outside N T T.cargo_build else pure tt) s).1.runs ≡ s.runs
  unfolding outside pure
  runs-cargo true s = refl
  runs-cargo false s = refl

  runs-build : (s : State N T) → (build N T s).1.runs ≡ s.runs
  unfolding build cargo_version ◌>>=◌
  runs-build s = runs-cargo (T.has_cargo s.world).0 (record s { world = (T.has_cargo s.world).1 })

  -- The program has run once if there are rows.
  Ran : {A : Type 0} → Result A × State N T → Type 0
  Ran (ok _, s) = s.runs ≡ 1
  Ran (threw, s) = s.runs ≤ 1
  Ran (stuck, s) = s.runs ≤ 1

  Ran-started :
      (r : Result (List (NativeRow N))) (f : List (NativeRow N) → Dict (NativeRow N))
      (s : State N T)
      → s.runs ≡ 1
      → Ran (continue r (λ rs. pure (f rs)) s)
  unfolding Ran pure
  Ran-started (ok rs) f s h = h
  Ran-started threw f s h = omega arith
  Ran-started stuck f s h = omega arith

  Ran-built :
      (r : Result (Unit {0})) (b : Budget) (s : State N T)
      → s.runs ≡ 0
      → Ran (continue r (λ _. start_program N T b >>= λ rs. pure (by_name N T rs [])) s)
  unfolding Ran start_program outside ◌>>=◌
  Ran-built (ok _) b s h =
      Ran-started (T.program b s.world).0 (λ rs. by_name N T rs []) _ (omega arith)
  Ran-built threw b s h = omega arith
  Ran-built stuck b s h = omega arith

  Ran-run_harness : (b : Budget) (s : State N T) → s.runs ≡ 0 → Ran (run_harness N T b s)
  unfolding run_harness ◌>>=◌
  Ran-run_harness b s h = Ran-built (build N T s).0 b (build N T s).1 (runs-build s ∙ h)

  After-settle :
      (r : Result (Dict (NativeRow N))) (s : State N T) → Ran (r, s) → After (settle N T r s)
  unfolding Ran After Kept Once
  After-settle (ok m) s h = Once-rows m s.failure s.runs h
    where
      Once-rows : (m : Dict (NativeRow N)) (b : Bool) (n : ℕ) → n ≡ 1 → Once (some m) b n
      Once-rows m true n h = omega arith
      Once-rows m false n h = h
  After-settle threw s h = Once-failed s.pending s.runs h
    where
      Once-failed : (o : Option (Dict (NativeRow N))) (n : ℕ) → n ≤ 1 → Once o true n
      Once-failed o n h = h
  After-settle stuck s h = h

  After-from_pending :
      (o : Option (Dict (NativeRow N))) (b : Budget) (s : State N T)
      → Kept s
      → Once o false s.runs
      → After (from_pending N T o b s)
  unfolding After Once
  After-from_pending (some m) b s k h = k
  After-from_pending none b s k h =
      After-settle (run_harness N T b s).0 (run_harness N T b s).1 (Ran-run_harness b s h)

  After-rows : (b : Budget) (s : State N T) → Kept s → After (rows N T b s)
  unfolding rows After Kept
  After-rows b s k = go s.failure k
    where
      go :
          (d : Bool)
          → Once s.pending d s.runs
          → After (if d then (threw, s) else from_pending N T s.pending b s)
      go true h = k
      go false h = After-from_pending s.pending b s k h

  After-found : (o : Option (NativeRow N)) (s : State N T) → Kept s → After (found N T o s)
  unfolding found After
  After-found none s k = k
  After-found (some r) s k = k

  After-row_for : (name : Text) (b : Budget) (s : State N T) → Kept s → After (row_for N T name b s)
  unfolding row_for ◌>>=◌
  After-row_for name b s k =
      After-continue (rows N T b s).0 _ (rows N T b s).1 (λ m. After-found (lookup name m))
        (After-rows b s k)

  After-then :
      {A B : Type 0} (r : Result A) (f : A → B) (s : State N T)
      → After (r, s)
      → After (continue r (λ a. pure (f a)) s)
  unfolding pure After
  After-then r f s h = After-continue r _ s (λ a t k. k) h

  After-setup :
      (name : Text) (b : Option Budget) (s : State N T) → Kept s → After (setup N T name b s)
  unfolding setup ◌>>=◌ After
  After-setup name none s k = k
  After-setup name (some b) s k = After-then (row_for N T name b s).0 _ _ (After-row_for name b s k)

  After-measure : (name : Text) (b : Budget) (s : State N T) → Kept s → After (measure N T name b s)
  unfolding measure ◌>>=◌
  After-measure name b s k = After-then (row_for N T name b s).0 _ _ (After-row_for name b s k)

  After-call : (c : Call) (s : State N T) → Kept s → After (call N T c s)
  unfolding call ◌>>=◌
  After-call (set_up name b) s k = After-then (setup N T name b s).0 _ _ (After-setup name b s k)
  After-call (measure_it name b) s k =
      After-then (measure N T name b s).0 _ _ (After-measure name b s k)

  After-calls : (cs : List Call) (s : State N T) → Kept s → After (calls N T cs s)
  unfolding calls ◌>>=◌ attempt After pure
  After-calls [] s k = k
  After-calls (c ∷ cs) s k =
      let (r, t) = call N T c s in
      After-continue (caught r t).0 _ (caught r t).1 (λ _. After-calls cs)
        (After-caught r t (After-call c s k))

  -- Whatever the calls of `setup` and `measure`, in any order, with any results of `cargo` and of
  -- the program, throws included, the program is started at most once.
  pub runs-calls_le : (cs : List Call) (w : T.World) → (calls N T cs (loaded N T w)).1.runs ≤ 1
  unfolding Kept Once
  runs-calls_le cs w =
      After-le (calls N T cs (loaded N T w)).0 (calls N T cs (loaded N T w)).1
        (After-calls cs (loaded N T w) refl)
