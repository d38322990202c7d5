-- ===== src/Bench/Driver/Pushes.antt =====
-- Actions of bench/run.mjs that leave the count of disagreements alone and only add result rows.
use mathlib.Core.List.{append-nil, append_assoc}
use zopa.Base.{
  ℕ, zero, suc, ◌≡◌, refl, sym, ap, ◌∙◌, Bool, true, false, Option, none, some, List, [], ◌∷◌, ◌++◌,
}
use zopa.Base.Tests.{ltb, if◌then◌else◌}
use zopa.Base.Dict.{Dict}
use zopa.Base.Lists.{All, All-append}
use zopa.Base.Number.{Numbers}
use zopa.Base.Exec.{
  Result, ok, threw, stuck, Exec, pure, gets, caught, attempt, continue, then_run, ◌>>=◌, finally,
}
use zopa.Bench.Args.{Budget}
use zopa.Bench.Engine.{Decision, Figures, Host, Engine}
use zopa.Bench.Measure.{
  ResultRow, State, Live, M, outside, modify, now, enter, open_instance, close_instance, decide,
  warm_up, samples, window, windows, throughput, cold_start,
}
use zopa.Bench.Driver.{
  note_failure, setup_engines, decide_all, row, push_row, timed_figures, after_measure, time_by,
  time_engines, close_all,
}

module _ (N : Numbers) (H : Host N) (P : ResultRow N H → Type 0) where
  -- From s to s' rows with P were added at the end, and no disagreement was counted.
  pub record Grows (s s' : State N H) : Type 0 where
    pub same : s'.disagreements ≡ s.disagreements
    pub rows : List (ResultRow N H)
    pub added : s'.results ≡ s.results ++ rows
    pub holds : All P rows

  pub record Pushes {A : Type 0} (m : M N H A) : Type 0 where
    pub at : (s : State N H) → Grows s (m s).1

  pub Grows-still :
      (s s' : State N H) → s'.disagreements ≡ s.disagreements → s'.results ≡ s.results → Grows s s'
  Grows-still s s' d r = record {
    same = d;
    rows = [];
    added = r ∙ sym (append-nil s.results);
    holds = tt;
  }

  pub Grows-trans : (s t u : State N H) → Grows s t → Grows t u → Grows s u
  Grows-trans s t u g h = record {
    same = h.same ∙ g.same;
    rows = g.rows ++ h.rows;
    added = h.added ∙ ap (λ rs. rs ++ h.rows) g.added ∙ append_assoc s.results g.rows h.rows;
    holds = All-append P g.rows h.rows g.holds h.holds;
  }

  pub Pushes-pure : {A : Type 0} (a : A) → Pushes {A = A} (pure a)
  unfolding pure
  Pushes-pure a = record { at = λ s. Grows-still s s refl refl }

  Pushes-gets : {A : Type 0} (f : State N H → A) → Pushes {A = A} (gets f)
  unfolding gets
  Pushes-gets f = record { at = λ s. Grows-still s s refl refl }

  Pushes-hang : {A : Type 0} → Pushes {A = A} (λ s. (stuck, s))
  Pushes-hang = record { at = λ s. Grows-still s s refl refl }

  pub Pushes-outside : {A : Type 0} (m : Exec H.World A) → Pushes (outside N H m)
  unfolding outside
  Pushes-outside m = record { at = λ s. Grows-still s _ refl refl }

  Pushes-modify :
      (f : State N H → State N H) → ((s : State N H) → Grows s (f s)) → Pushes (modify N H f)
  unfolding modify
  Pushes-modify f g = record { at = g }

  Pushes-now : Pushes (now N H)
  unfolding now
  Pushes-now = record { at = λ s. Grows-still s _ refl refl }

  pub Pushes-decide : (e : Live N H) → Pushes (decide N H e)
  unfolding decide
  Pushes-decide e = Pushes-outside (e.mod_.decide e.inst)

  Pushes-if :
      {A : Type 0} (b : Bool) (m k : M N H A) → Pushes m → Pushes k → Pushes (if b then m else k)
  Pushes-if true m k pm pk = pm
  Pushes-if false m k pm pk = pk

  Grows-continue :
      {A B : Type 0} (r : Result A) (f : A → M N H B) (s s' : State N H)
      → ((a : A) → Pushes (f a))
      → Grows s s'
      → Grows s (continue r f s').1
  Grows-continue (ok a) f s s' pf g = Grows-trans s s' (f a s').1 g ((pf a).at s')
  Grows-continue threw f s s' pf g = g
  Grows-continue stuck f s s' pf g = g

  -- The rule for a step of a `do` block.
  pub step :
      {A B : Type 0} {m : M N H A} {f : A → M N H B}
      → Pushes m
      → ((a : A) → Pushes (f a))
      → Pushes (m >>= f)
  unfolding ◌>>=◌
  step {m} {f} pm pf = record { at = λ s. Grows-continue (m s).0 f s (m s).1 pf (pm.at s) }

  Grows-caught :
      {A : Type 0} (r : Result A) (s s' : State N H) → Grows s s' → Grows s (caught r s').1
  Grows-caught (ok a) s s' g = g
  Grows-caught threw s s' g = g
  Grows-caught stuck s s' g = g

  Pushes-attempt : {A : Type 0} {m : M N H A} → Pushes m → Pushes (attempt m)
  unfolding attempt
  Pushes-attempt {m} pm = record { at = λ s. Grows-caught (m s).0 s (m s).1 (pm.at s) }

  Grows-then_run :
      {A B : Type 0} (r : Result A) (fin : M N H B) (s s' : State N H)
      → Pushes fin
      → Grows s s'
      → Grows s (then_run r fin s').1
  Grows-then_run (ok a) fin s s' pf g = Grows-trans s s' (fin s').1 g (pf.at s')
  Grows-then_run threw fin s s' pf g = Grows-trans s s' (fin s').1 g (pf.at s')
  Grows-then_run stuck fin s s' pf g = g

  pub Pushes-finally :
      {A B : Type 0} {m : M N H A} {fin : M N H B} → Pushes m → Pushes fin → Pushes (finally m fin)
  unfolding finally
  Pushes-finally {m} {fin} pm pf = record {
    at = λ s. Grows-then_run (m s).0 fin s (m s).1 pf (pm.at s);
  }

  Pushes-open : (m : Engine N H) (f : H.Fixture) → Pushes (open_instance N H m f)
  unfolding open_instance enter
  Pushes-open m f =
      step (Pushes-outside (m.setup f)) λ i. record { at = λ s. Grows-still s _ refl refl }

  Pushes-close : (e : Live N H) → Pushes (close_instance N H e)
  unfolding close_instance
  Pushes-close e = step (Pushes-modify _ λ s. Grows-still s _ refl refl) λ _. Pushes-outside _

  Pushes-warm_up : (k : ℕ) (e : Live N H) → Pushes (warm_up N H k e)
  unfolding warm_up
  Pushes-warm_up zero e = Pushes-pure tt
  Pushes-warm_up (suc k) e = step (Pushes-decide e) λ _. Pushes-warm_up k e

  Pushes-samples : (floor : N.Num) (k : ℕ) (e : Live N H) → Pushes (samples N H floor k e)
  unfolding samples
  Pushes-samples floor zero e = Pushes-pure []
  Pushes-samples floor (suc k) e = step Pushes-now λ t0.
      step (Pushes-decide e)
        λ _. step Pushes-now λ t1. step (Pushes-samples floor k e) λ rest. Pushes-pure _

  Pushes-window : (fuel deadline k : ℕ) (e : Live N H) → Pushes (window N H fuel deadline k e)
  unfolding window
  Pushes-window zero deadline k e = Pushes-hang
  Pushes-window (suc fuel) deadline k e = step Pushes-now λ t.
      Pushes-if (ltb t deadline) _ _
        (step (Pushes-decide e) λ _. Pushes-window fuel deadline (suc k) e) (Pushes-pure k)

  Pushes-windows : (fuel ms k : ℕ) (e : Live N H) → Pushes (windows N H fuel ms k e)
  unfolding windows
  Pushes-windows fuel ms zero e = Pushes-pure []
  Pushes-windows fuel ms (suc k) e = step Pushes-now λ t.
      step (Pushes-window fuel _ 0 e)
        λ count. step (Pushes-windows fuel ms k e) λ counts. Pushes-pure _

  Pushes-throughput : (fuel : ℕ) (b : Budget) (e : Live N H) → Pushes (throughput N H fuel b e)
  unfolding throughput
  Pushes-throughput fuel b e = step (Pushes-windows fuel _ b.throughput_runs e) λ ns. Pushes-pure _

  Pushes-cold_start : (m : Engine N H) (f : H.Fixture) → Pushes (cold_start N H m f)
  unfolding cold_start
  Pushes-cold_start m f = step Pushes-now λ t0. step (Pushes-open m f) λ e.
      Pushes-finally (step (Pushes-decide e) λ _. step Pushes-now λ t1. Pushes-pure _)
        (Pushes-close e)

  Pushes-timed_figures :
      (fuel : ℕ) (b : Budget) (floor : N.Num) (f : H.Fixture) (e : Live N H)
      → Pushes (timed_figures N H fuel b floor f e)
  unfolding timed_figures
  Pushes-timed_figures fuel b floor f e = step (Pushes-warm_up b.warmup e) λ _.
      step (Pushes-throughput fuel b e) λ rate. step (Pushes-samples floor b.iters e) λ xs.
        step (Pushes-outside _) λ memory.
          step (Pushes-outside _)
            λ artifact. step (Pushes-cold_start e.mod_ f) λ cold. Pushes-pure _

  pub Pushes-setup_engines :
      (f : H.Fixture) (ms : List (Engine N H)) → Pushes (setup_engines N H f ms)
  unfolding setup_engines note_failure
  Pushes-setup_engines f [] = Pushes-pure []
  Pushes-setup_engines f (m ∷ ms) = step (Pushes-attempt (Pushes-open m f)) λ o.
      step (Pushes-modify _ (failure o)) λ _. step (Pushes-setup_engines f ms) λ es. Pushes-pure _
    where
      failure : (o : Option (Live N H)) (s : State N H) → Grows s (note_failure N H o s)
      failure none s = Grows-still s _ refl refl
      failure (some e) s = Grows-still s _ refl refl

  pub Pushes-close_all : (es : List (Live N H)) → Pushes (close_all N H es)
  unfolding close_all
  Pushes-close_all [] = Pushes-pure tt
  Pushes-close_all (e ∷ es) = step (Pushes-attempt (Pushes-close e)) λ _. Pushes-close_all es

  pub Pushes-decide_all :
      (es : List (Live N H)) (ds : Dict Decision) → Pushes (decide_all N H es ds)
  unfolding decide_all
  Pushes-decide_all [] ds = Pushes-pure ds
  Pushes-decide_all (e ∷ es) ds = step (Pushes-decide e) λ d. Pushes-decide_all es _

  Grows-push_row : (r : ResultRow N H) → P r → (s : State N H) → Grows s (push_row N H r s)
  unfolding push_row
  Grows-push_row r p s = record { same = refl; rows = r ∷ []; added = refl; holds = (p, tt) }

  module _ (f : H.Fixture) (ds : Dict Decision) where
    -- Each row that the loop may push has P.
    abbrev pub RowHolds : Live N H → Type 0
    RowHolds e = (figures : Figures N) → P (row N H f ds e figures)

    Pushes-time_by :
        (measure : Option (H.Fixture → Exec H.World (Figures N))) (fuel : ℕ) (b : Budget)
        (floor : N.Num) (e : Live N H)
        → RowHolds e
        → Pushes (time_by N H measure fuel b floor f ds e)
    unfolding time_by
    Pushes-time_by (some measure) fuel b floor e p =
        step (Pushes-attempt (Pushes-outside (measure f)))
          λ figures. Pushes-modify _ (measured figures)
      where
        measured :
            (figures : Option (Figures N)) (s : State N H)
            → Grows s (after_measure N H f ds e figures s)
        measured none s = Grows-still s _ refl refl
        measured (some figures) s = Grows-push_row (row N H f ds e figures) (p figures) s
    Pushes-time_by none fuel b floor e p =
        step (Pushes-timed_figures fuel b floor f e)
          λ figures. Pushes-modify _ (Grows-push_row (row N H f ds e figures) (p figures))

    pub Pushes-time_engines :
        (fuel : ℕ) (b : Budget) (floor : N.Num) (es : List (Live N H))
        → All RowHolds es
        → Pushes (time_engines N H fuel b floor f ds es)
    unfolding time_engines
    Pushes-time_engines fuel b floor [] _ = Pushes-pure tt
    Pushes-time_engines fuel b floor (e ∷ es) (p, ps) =
        step (Pushes-time_by e.mod_.measure fuel b floor e p)
          λ _. Pushes-time_engines fuel b floor es ps
