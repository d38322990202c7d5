-- ===== src/Bench/Driver/Closing.antt =====
-- Every instance that bench/run.mjs opens is closed, on every path: a failed setup, a throw while
-- the engines decide or are timed, a throw of `close` itself.
use zopa.Base.{ℕ, ◌+◌, ◌≡◌, refl, ◌≢◌, Option, none, some, List, [], ◌∷◌, arith}
use zopa.Base.Number.{Numbers}
use zopa.Base.Exec.{Result, ok, threw, stuck, pure, caught, attempt, continue, ◌>>=◌, ◌>>◌, finally}
use zopa.Bench.Args.{Budget}
use zopa.Bench.Engine.{Host, Engine}
use zopa.Bench.Measure.{State, Live, M, modify, open_instance}
use zopa.Bench.Driver.{
  note_failure, keep, setup_engines, agree_then_time, close_all, runnable, run_fixture,
  run_fixtures, start,
}
use zopa.Bench.Driver.Balanced.{opens, closes, Moves, Balanced, Balanced-pure, step}
use zopa.Bench.Driver.Balance.{held, gained, Moves-finally, Moves-open, Balanced-agree_then_time}
use zopa.Bench.Driver.Closed.{Moves-close_all, attempt-ne-threw, held-cons}

module _ (N : Numbers) (H : Host N) (n : ℕ) where
  -- The list of a setup loop holds what the loop opened.
  abbrev gained_all : Result (List (Live N H)) → ℕ
  gained_all (ok es) = held N H n es
  gained_all threw = 0
  gained_all stuck = 0

  abbrev gained_one : Result (Option (Live N H)) → ℕ
  gained_one (ok none) = 0
  gained_one (ok (some e)) = held N H n (e ∷ [])
  gained_one threw = 0
  gained_one stuck = 0

  Moves-attempt_open :
      (r : Result (Live N H)) (s s' : State N H)
      → Moves N H n (gained N H n r) 0 s s'
      → Moves N H n (gained_one (caught r s').0) 0 s (caught r s').1
  Moves-attempt_open (ok e) s s' h = h
  Moves-attempt_open threw s s' h = h
  Moves-attempt_open stuck s s' h = h

  held-keep :
      (o : Option (Live N H)) (es : List (Live N H))
      → held N H n (keep N H o es) ≡ gained_one (ok o) + held N H n es
  unfolding keep
  held-keep none es = omega arith
  held-keep (some e) es = held-cons N H n e es

  -- The rest of the setup loop, after the attempt at one engine.
  setup_rest : H.Fixture → List (Engine N H) → Option (Live N H) → M N H (List (Live N H))
  setup_rest f ms o = do
    modify N H (note_failure N H o)
    es ← setup_engines N H f ms
    pure (keep N H o es)

  events-note_failure :
      (o : Option (Live N H)) (s : State N H) → (note_failure N H o s).events ≡ s.events
  unfolding note_failure
  events-note_failure none s = refl
  events-note_failure (some e) s = refl

  -- A setup loop that returns holds what it opened.
  record Held (f : H.Fixture) (ms : List (Engine N H)) : Type 0 where
    at :
        (s : State N H)
        → (setup_engines N H f ms s).0 ≢ stuck
        → Moves N H n (gained_all (setup_engines N H f ms s).0) 0 s (setup_engines N H f ms s).1
    returns : (s : State N H) → (setup_engines N H f ms s).0 ≢ threw

  Moves-setup_keep :
      (o : Option (Live N H)) (r : Result (List (Live N H))) (i : ℕ) (s s' : State N H)
      → i ≡ gained_one (ok o)
      → r ≢ threw
      → (r ≢ stuck → Moves N H n (i + gained_all r) 0 s s')
      → (continue r (λ es. pure (keep N H o es)) s').0 ≢ stuck
      → Moves N H n
          (gained_all (continue r (λ es. pure (keep N H o es)) s').0)
          0
          s
          (continue r (λ es. pure (keep N H o es)) s').1
  unfolding pure
  Moves-setup_keep o (ok es) i s s' e t h c = omega (arith, h (λ q. cc), e, held-keep o es)
  Moves-setup_keep o threw i s s' e t h c = absurd (t refl)
  Moves-setup_keep o stuck i s s' e t h c = absurd (c refl)

  keep-ne-threw :
      (o : Option (Live N H)) (r : Result (List (Live N H))) (s : State N H)
      → r ≢ threw
      → (continue r (λ es. pure (keep N H o es)) s).0 ≢ threw
  unfolding pure
  keep-ne-threw o (ok es) s t e = cc
  keep-ne-threw o threw s t e = t refl
  keep-ne-threw o stuck s t e = cc

  module _ (f : H.Fixture) (ms : List (Engine N H)) (ih : Held f ms) where
    setup_rest-ne-threw : (o : Option (Live N H)) (s : State N H) → (setup_rest f ms o s).0 ≢ threw
    unfolding setup_rest ◌>>=◌ modify
    setup_rest-ne-threw o s =
        let s1 = note_failure N H o s in
        keep-ne-threw o (setup_engines N H f ms s1).0 (setup_engines N H f ms s1).1 (ih.returns s1)

    Moves-note_failure :
        (o : Option (Live N H)) (i : ℕ) (s s' : State N H)
        → Moves N H n i 0 s s'
        → Moves N H n i 0 s (note_failure N H o s')
    Moves-note_failure o i s s' h = rw (events-note_failure o s') h

    Moves-setup_rest :
        (o : Option (Live N H)) (s s' : State N H)
        → Moves N H n (gained_one (ok o)) 0 s s'
        → (setup_rest f ms o s').0 ≢ stuck
        → Moves N H n (gained_all (setup_rest f ms o s').0) 0 s (setup_rest f ms o s').1
    unfolding setup_rest ◌>>=◌ modify
    Moves-setup_rest o s s' h c =
        let s1 = note_failure N H o s' in
        let (r, s2) = setup_engines N H f ms s1 in
        let h1 : Moves N H n (gained_one (ok o)) 0 s s1 = Moves-note_failure o _ s s' h in
        Moves-setup_keep o r (gained_one (ok o)) s s2 refl (ih.returns s1)
          (λ q. omega (arith, h1, ih.at s1 q)) c

    Moves-setup_first :
        (r : Result (Option (Live N H))) (s s' : State N H)
        → r ≢ threw
        → Moves N H n (gained_one r) 0 s s'
        → (continue r (setup_rest f ms) s').0 ≢ stuck
        → Moves N H n
            (gained_all (continue r (setup_rest f ms) s').0)
            0
            s
            (continue r (setup_rest f ms) s').1
    Moves-setup_first (ok o) s s' t h c = Moves-setup_rest o s s' h c
    Moves-setup_first threw s s' t h c = absurd (t refl)
    Moves-setup_first stuck s s' t h c = absurd (c refl)

    setup_first-ne-threw :
        (r : Result (Option (Live N H))) (s : State N H)
        → r ≢ threw
        → (continue r (setup_rest f ms) s).0 ≢ threw
    setup_first-ne-threw (ok o) s t e = setup_rest-ne-threw o s e
    setup_first-ne-threw threw s t e = t refl
    setup_first-ne-threw stuck s t e = cc

    Held-cons : (m : Engine N H) → Held f (m ∷ ms)
    unfolding setup_engines setup_rest ◌>>=◌
    Held-cons m = record {
      at = λ s c.
          let (r, s') = open_instance N H m f s in
          Moves-setup_first (attempt (open_instance N H m f) s).0 s
            (attempt (open_instance N H m f) s).1 (attempt-ne-threw N H n (open_instance N H m f) s)
            (unfold attempt in Moves-attempt_open r s s' (Moves-open N H n m f s)) c;
      returns = λ s.
          setup_first-ne-threw (attempt (open_instance N H m f) s).0
            (attempt (open_instance N H m f) s).1
            (attempt-ne-threw N H n (open_instance N H m f) s);
    }

  Held-setup_engines : (f : H.Fixture) (ms : List (Engine N H)) → Held f ms
  unfolding setup_engines pure
  Held-setup_engines f [] = record { at = λ s c. omega arith; returns = λ s e. cc }
  Held-setup_engines f (m ∷ ms) = Held-cons f ms (Held-setup_engines f ms) m

  module _ (fuel : ℕ) (b : Budget) (floor : N.Num) where
    Moves-run :
        (f : H.Fixture) (r : Result (List (Live N H))) (s s' : State N H)
        → r ≢ threw
        → (r ≢ stuck → Moves N H n (gained_all r) 0 s s')
        → (continue r
            (λ es. finally (agree_then_time N H fuel b floor f es) (close_all N H es))
            s').0
          ≢ stuck
        → Moves N H n 0 0 s
            (continue r
              (λ es. finally (agree_then_time N H fuel b floor f es) (close_all N H es))
              s').1
    Moves-run f (ok es) s s' t h c = omega (
      arith,
      h (λ e. cc),
      Moves-finally N H n (held N H n es) (agree_then_time N H fuel b floor f es) (close_all N H es)
          (Balanced-agree_then_time N H n fuel b floor f es) (Moves-close_all N H n es) s' c,
    )
    Moves-run f threw s s' t h c = absurd (t refl)
    Moves-run f stuck s s' t h c = absurd (c refl)

    Balanced-run_fixture :
        (live : List (Engine N H)) (f : H.Fixture)
        → Balanced N H n (run_fixture N H fuel b floor live f)
    unfolding run_fixture ◌>>=◌
    Balanced-run_fixture live f = record {
      at = λ s c.
          let ms = runnable N H f live in
          let held_all = Held-setup_engines f ms in
          Moves-run f (setup_engines N H f ms s).0 s (setup_engines N H f ms s).1
            (held_all.returns s) (held_all.at s) c;
    }

    Balanced-run_fixtures :
        (live : List (Engine N H)) (fs : List H.Fixture)
        → Balanced N H n (run_fixtures N H fuel b floor live fs)
    unfolding run_fixtures
    Balanced-run_fixtures live [] = Balanced-pure N H n tt
    Balanced-run_fixtures live (f ∷ fs) =
        step N H n (Balanced-run_fixture live f) λ _. Balanced-run_fixtures live fs

-- When the loop over the fixtures returns or throws, every instance that was set up, by the driver
-- or for a cold start, has been closed exactly as often as it was opened. A run that hangs, in an
-- engine's call or for lack of fuel in a timing window, is left out.
pub opens-eq-closes :
    (N : Numbers) (H : Host N) (fuel : ℕ) (b : Budget) (floor : N.Num) (live : List (Engine N H))
    (fs : List H.Fixture) (w : H.World) (n : ℕ)
    → (run_fixtures N H fuel b floor live fs (start N H w)).0 ≢ stuck
    → let events = (run_fixtures N H fuel b floor live fs (start N H w)).1.events in
      opens n events ≡ closes n events
unfolding opens closes
opens-eq-closes N H fuel b floor live fs w n c =
    omega (arith, (Balanced-run_fixtures N H n fuel b floor live fs).at (start N H w) c)
