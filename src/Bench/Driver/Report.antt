-- ===== src/Bench/Driver/Report.antt =====
-- What bench/run.mjs reports when it ends without a disagreement.
use mathlib.Core.List.{append-nil, append_assoc}
use mathlib.Core.Path.{subst}
use zopa.Base.{ℕ, ◌≡◌, refl, sym, ap, ◌∙◌, ◌≢◌, inl, inr, List, [], ◌∷◌, ◌++◌, arith}
use zopa.Base.Tests.{◌==◌, Bool-cases, eq_of_==}
use zopa.Base.Lists.{All}
use zopa.Base.Number.{Numbers}
use zopa.Base.Exec.{Result, ok, threw, stuck, pure, continue, ◌>>=◌}
use zopa.Bench.Args.{Budget}
use zopa.Bench.Engine.{Decision, failed, Host, Engine}
use zopa.Bench.Measure.{ResultRow, State}
use zopa.Bench.Driver.{run_fixture, run_fixtures, report, finish, start, drive}
use zopa.Bench.Driver.Agreement.{Agrees, Group, Group-run_fixture}

module _ (N : Numbers) (H : Host N) where
  -- The rows fall into one group for each fixture, in their order. In a group all rows are the
  -- fixture's and have one decision, which is not the error value.
  abbrev pub Agreed : List H.Fixture → List (ResultRow N H) → Type 0
  Agreed [] rows = rows ≡ []
  Agreed (f ∷ fs) rows =
      (group : List (ResultRow N H)) × (rest : List (ResultRow N H)) × (d : Decision) × (rows
        ≡ group ++ rest)
      × All (Agrees N H f d) group
      × (d ≢ failed)
      × Agreed fs rest

  -- What the loop over the fixtures adds.
  record Adds (fs : List H.Fixture) (s s' : State N H) : Type 0 where
    none_before : s.disagreements ≡ 0
    rows : List (ResultRow N H)
    added : s'.results ≡ s.results ++ rows
    agreed : Agreed fs rows

  module _ (fuel : ℕ) (b : Budget) (floor : N.Num) (live : List (Engine N H)) where
    Adds-cons :
        (f : H.Fixture) (fs : List H.Fixture) (s t u : State N H)
        → Group N H f s t
        → Adds fs t u
        → Adds (f ∷ fs) s u
    Adds-cons f fs s t u g h = record {
      none_before = g.none_before;
      rows = g.grows.rows ++ h.rows;
      added =
          h.added
          ∙ ap (λ rs. rs ++ h.rows) g.grows.added
          ∙ append_assoc s.results g.grows.rows h.rows;
      agreed = (g.grows.rows, h.rows, g.decision, refl, g.grows.holds, g.ne_failed, h.agreed);
    }

    Adds-run_fixtures :
        (fs : List H.Fixture) (s : State N H)
        → (run_fixtures N H fuel b floor live fs s).0 ≡ ok tt
        → (run_fixtures N H fuel b floor live fs s).1.disagreements ≡ 0
        → Adds fs s (run_fixtures N H fuel b floor live fs s).1
    unfolding run_fixtures pure ◌>>=◌
    Adds-run_fixtures [] s h z = record {
      none_before = z;
      rows = [];
      added = sym (append-nil s.results);
      agreed = refl;
    }
    Adds-run_fixtures (f ∷ fs) s h z =
        go (run_fixture N H fuel b floor live f s).0 (run_fixture N H fuel b floor live f s).1
          (Group-run_fixture N H fuel b floor f live s)
          (Adds-run_fixtures fs (run_fixture N H fuel b floor live f s).1) h z
      where
        go :
            (r : Result (Unit {0})) (t : State N H)
            → (t.disagreements ≡ 0 → Group N H f s t)
            → ((run_fixtures N H fuel b floor live fs t).0 ≡ ok tt
                → (run_fixtures N H fuel b floor live fs t).1.disagreements ≡ 0
                → Adds fs t (run_fixtures N H fuel b floor live fs t).1)
            → (continue r (λ _. run_fixtures N H fuel b floor live fs) t).0 ≡ ok tt
            → (continue r (λ _. run_fixtures N H fuel b floor live fs) t).1.disagreements ≡ 0
            → Adds (f ∷ fs) s (continue r (λ _. run_fixtures N H fuel b floor live fs) t).1
        go (ok a) t g ih h z = let rest = ih h z in Adds-cons f fs s t _ (g rest.none_before) rest
        go threw t g ih h z = absurd (cc)
        go stuck t g ih h z = absurd (cc)

    reported :
        (r : Result (Unit {0})) (s : State N H) (rows : List (ResultRow N H)) (code : ℕ)
        → finish N H (r, s) ≡ report rows code
        → (r ≡ ok tt) × (s.disagreements ≡ 0) × (s.results ≡ rows)
    unfolding finish
    reported (ok tt) s rows code h = elim (Bool-cases (s.disagreements == 0)) [
      | inl e ↦ (refl, eq_of_== s.disagreements 0 e, ground arith)
      | inr e ↦ absurd (cc (rw e at h))
    ]
    reported threw s rows code h = absurd (cc)
    reported stuck s rows code h = absurd (cc)

    -- If the run ends in a report, its rows fall into one group for each fixture, in their order.
    -- In a group all rows are the fixture's and have one decision, and it is not the error value
    -- -1.
    pub Agreed-of_report :
        (fs : List H.Fixture) (w : H.World) (rows : List (ResultRow N H)) (code : ℕ)
        → drive N H fuel b floor live fs w ≡ report rows code
        → Agreed fs rows
    Agreed-of_report fs w rows code h =
        let (r, s) = run_fixtures N H fuel b floor live fs (start N H w) in
        let (e, z, p) = reported r s rows code (unfold drive in h) in
        let a = Adds-run_fixtures fs (start N H w) e z in
        subst (Agreed fs) (sym a.added ∙ p) a.agreed
