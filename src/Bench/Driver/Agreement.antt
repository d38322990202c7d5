-- ===== src/Bench/Driver/Agreement.antt =====
-- No timing of bench/run.mjs is reported unless the engines agreed on the decisions.
use zopa.Base.{ℕ, ◌+◌, ◌≡◌, refl, sym, ap, ◌∙◌, ◌≢◌, inl, inr, true, some, List, [], ◌∷◌, arith}
use zopa.Base.Tests.{◌==◌, if◌then◌else◌, Bool-cases, eq_of_==}
use zopa.Base.Dict.{Dict}
use zopa.Base.Lists.{All}
use zopa.Base.Number.{Numbers}
use zopa.Base.Exec.{Result, ok, threw, stuck, pure, gets, continue, then_run, ◌>>=◌, ◌>>◌, finally}
use zopa.Bench.Args.{Budget}
use zopa.Bench.Engine.{Decision, allow, failed, Host, Engine}
use zopa.Bench.Measure.{ResultRow, State, Live, M, modify}
use zopa.Bench.Driver.{
  gate_count, setup_engines, decide_all, gate, row, time_engines, agree_then_time, close_all,
  runnable, run_fixture,
}
use zopa.Bench.Driver.Pushes.{
  Grows, Grows-trans, Grows-still, Pushes-setup_engines, Pushes-close_all, Pushes-decide_all,
  Pushes-time_engines, RowHolds,
}
use zopa.Bench.Driver.Settled.{Settled, Settled-gate_count, Has, decide_all-Has}

module _ (N : Numbers) (H : Host N) where
  -- A row of the fixture with the decision.
  pub record Agrees (f : H.Fixture) (d : Decision) (r : ResultRow N H) : Type 0 where
    pub fixture : r.fixture ≡ H.name f
    pub decision : r.decision ≡ some d

  -- What a fixture adds to the results: rows with one decision, which is no error.
  pub record Group (f : H.Fixture) (s s' : State N H) : Type 0 where
    pub none_before : s.disagreements ≡ 0
    pub decision : Decision
    pub ne_failed : decision ≢ failed
    pub grows : Grows N H (Agrees f decision) s s'

  rows-hold :
      (f : H.Fixture) (ds : Dict Decision) (settled : Settled ds) (es : List (Live N H))
      → All (Has N H ds) es
      → All (RowHolds N H (Agrees f settled.decision) f ds) es
  unfolding row
  rows-hold f ds settled [] _ = tt
  rows-hold f ds settled (e ∷ es) ((d, l), hs) = (
    λ figures. record { fixture = refl; decision = l ∙ ap some (settled.each e.mod_.id d l) },
    rows-hold f ds settled es hs,
  )

  module _ (fuel : ℕ) (b : Budget) (floor : N.Num) (f : H.Fixture) where
    -- The end of the body, from the state after the gate.
    abbrev timing : Dict Decision → List (Live N H) → ℕ → M N H (Unit {0})
    timing ds es d = if d == 0 then time_engines N H fuel b floor f ds es else pure tt

    abbrev counted : Dict Decision → State N H → State N H
    counted ds s = record s { disagreements = s.disagreements + gate_count ds }

    Group-timing :
        (es : List (Live N H)) (ds : Dict Decision) (s s1 : State N H)
        → All (Has N H ds) es
        → ((P : ResultRow N H → Type 0) → Grows N H P s s1)
        → (timing ds es (counted ds s1).disagreements (counted ds s1)).1.disagreements ≡ 0
        → Group f s (timing ds es (counted ds s1).disagreements (counted ds s1)).1
    Group-timing es ds s s1 has g h = elim (Bool-cases ((s1.disagreements + gate_count ds) == 0)) [
      | inr e ↦ absurd (unfold pure in ground arith)
      | inl e ↦ rw e (settled_case e)
    ]
      where
        settled_case :
            ((s1.disagreements + gate_count ds) == 0) ≡ true
            → Group f s (time_engines N H fuel b floor f ds es (counted ds s1)).1
        settled_case e =
            let zero_sum = eq_of_== (s1.disagreements + gate_count ds) 0 e in
            let z : gate_count ds ≡ 0 = omega (arith, zero_sum) in
            let settled = Settled-gate_count ds z in
            let P = Agrees f settled.decision in
            let timed =
              (Pushes-time_engines N H P f ds fuel b floor es (rows-hold f ds settled es has)).at
                (counted ds s1) in
            record {
              none_before = omega (arith, zero_sum, (g P).same);
              decision = settled.decision;
              ne_failed = settled.ne_failed;
              grows = Grows-trans N H P s s1 _ (g P) (
                  Grows-trans N H P s1 (counted ds s1) _
                    (Grows-still N H P s1 (counted ds s1) (omega (arith, z)) refl) timed);
            }

    Group-quiet :
        (s s' : State N H)
        → ((P : ResultRow N H → Type 0) → Grows N H P s s')
        → s'.disagreements ≡ 0
        → Group f s s'
    Group-quiet s s' g z =
        let q = g (Agrees f allow) in
        record { none_before = sym q.same ∙ z; decision = allow; ne_failed = λ e. cc; grows = q }

    Group-before :
        (s t u : State N H)
        → ((P : ResultRow N H → Type 0) → Grows N H P s t)
        → Group f t u
        → Group f s u
    Group-before s t u g h =
        let q = g (Agrees f h.decision) in
        record {
          none_before = sym q.same ∙ h.none_before;
          decision = h.decision;
          ne_failed = h.ne_failed;
          grows = Grows-trans N H (Agrees f h.decision) s t u q h.grows;
        }

    Group-after :
        (s t u : State N H)
        → Group f s t
        → ((P : ResultRow N H → Type 0) → Grows N H P t u)
        → Group f s u
    Group-after s t u h g = record {
      none_before = h.none_before;
      decision = h.decision;
      ne_failed = h.ne_failed;
      grows = Grows-trans N H (Agrees f h.decision) s t u h.grows (g (Agrees f h.decision));
    }

    Group-body :
        (es : List (Live N H)) (r : Result (Dict Decision)) (s s1 : State N H)
        → ((ds : Dict Decision) → r ≡ ok ds → All (Has N H ds) es)
        → ((P : ResultRow N H → Type 0) → Grows N H P s s1)
        → (continue r
            (λ ds t. timing ds es (counted ds t).disagreements (counted ds t))
            s1).1.disagreements
          ≡ 0
        → Group f s
            (continue r (λ ds t. timing ds es (counted ds t).disagreements (counted ds t)) s1).1
    Group-body es (ok ds) s s1 has g z = Group-timing es ds s s1 (has ds refl) g z
    Group-body es threw s s1 has g z = Group-quiet s s1 g z
    Group-body es stuck s s1 has g z = Group-quiet s s1 g z

    agree_then_time-unfold :
        (es : List (Live N H)) (s : State N H)
        → agree_then_time N H fuel b floor f es s
          ≡ continue
              (decide_all N H es [] s).0
              (λ ds t. timing ds es (counted ds t).disagreements (counted ds t))
              (decide_all N H es [] s).1
    unfolding agree_then_time gate ◌>>=◌ modify
    agree_then_time-unfold es s = go (decide_all N H es [] s).0 (decide_all N H es [] s).1
      where
        go :
            (r : Result (Dict Decision)) (t : State N H)
            → continue
                (continue r (λ ds. modify N H (λ s. counted ds s) >> pure ds) t).0
                (λ ds. gets (λ s. s.disagreements) >>= timing ds es)
                (continue r (λ ds. modify N H (λ s. counted ds s) >> pure ds) t).1
              ≡ continue r (λ ds t. timing ds es (counted ds t).disagreements (counted ds t)) t
        go (ok ds) t = refl
        go threw t = refl
        go stuck t = refl

    Group-agree_then_time :
        (es : List (Live N H)) (s : State N H)
        → (agree_then_time N H fuel b floor f es s).1.disagreements ≡ 0
        → Group f s (agree_then_time N H fuel b floor f es s).1
    Group-agree_then_time es s z = rw agree_then_time-unfold (
        Group-body es (decide_all N H es [] s).0 s (decide_all N H es [] s).1
          (λ ds e. decide_all-Has N H es [] ds s e) (λ P. (Pushes-decide_all N H P es []).at s)
          (rw agree_then_time-unfold at z))

    Group-finally :
        (es : List (Live N H)) (s : State N H)
        → (finally (agree_then_time N H fuel b floor f es) (close_all N H es) s).1.disagreements ≡ 0
        → Group f s (finally (agree_then_time N H fuel b floor f es) (close_all N H es) s).1
    unfolding finally
    Group-finally es s z =
        go (agree_then_time N H fuel b floor f es s).0 (agree_then_time N H fuel b floor f es s).1
          (Group-agree_then_time es s) z
      where
        go :
            (r : Result (Unit {0})) (t : State N H)
            → (t.disagreements ≡ 0 → Group f s t)
            → (then_run r (close_all N H es) t).1.disagreements ≡ 0
            → Group f s (then_run r (close_all N H es) t).1
        go (ok a) t h z =
            let g = λ (P : ResultRow N H → Type 0). (Pushes-close_all N H P es).at t in
            Group-after s t _ (h (sym (g (Agrees f allow)).same ∙ z)) g
        go threw t h z =
            let g = λ (P : ResultRow N H → Type 0). (Pushes-close_all N H P es).at t in
            Group-after s t _ (h (sym (g (Agrees f allow)).same ∙ z)) g
        go stuck t h z = h z

    pub Group-run_fixture :
        (live : List (Engine N H)) (s : State N H)
        → (run_fixture N H fuel b floor live f s).1.disagreements ≡ 0
        → Group f s (run_fixture N H fuel b floor live f s).1
    unfolding run_fixture ◌>>=◌
    Group-run_fixture live s z =
        go (setup_engines N H f (runnable N H f live) s).0
          (setup_engines N H f (runnable N H f live) s).1
          (λ P. (Pushes-setup_engines N H P f (runnable N H f live)).at s) z
      where
        go :
            (r : Result (List (Live N H))) (t : State N H)
            → ((P : ResultRow N H → Type 0) → Grows N H P s t)
            → (continue r
                (λ es. finally (agree_then_time N H fuel b floor f es) (close_all N H es))
                t).1.disagreements
              ≡ 0
            → Group f s
                (continue r
                  (λ es. finally (agree_then_time N H fuel b floor f es) (close_all N H es))
                  t).1
        go (ok es) t g z = Group-before s t _ g (Group-finally es t z)
        go threw t g z = Group-quiet s t g z
        go stuck t g z = Group-quiet s t g z
