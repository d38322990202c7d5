-- ===== src/Engines/OpaHttp/Tests.antt =====
-- Sessions of bench/engines/opa-http.mjs with a server that is ready after 60 milliseconds, and with
-- one that exits at once.
use zopa.Base.{ℕ, ◌+◌, ◌≡◌, refl, ◌≢◌, Bool, true, false, Option, none, some, List, [], ◌∷◌, arith}
use zopa.Base.Tests.{◌==◌, ltb, if◌then◌else◌}
use zopa.Base.Integers.{ℤ, pos}
use zopa.Base.Text.{codes}
use zopa.Base.Lists.{length}
use zopa.Base.Exec.{Result, ok, threw, stuck, pure, gets, attempt, ◌>>=◌, finally}
use zopa.Bench.Engine.{Decision, allow, deny}
use zopa.Engines.Decisions.{decisions}
use zopa.Engines.OpaHttp.{
  Host, Value, is_true, body, refused, made_dir, removed_dir, started, killed, State, outside, note,
  now, sleep, throw_error, probe_unless, probe, round, wait_until, wait_ready, make_dir,
  start_child, random_port, discard, ready_or_discard, setup, read_response, decision_of, Running,
  on_host, set_body, post_body, decide, decide_each, close, use_then_close, first_metric,
  memory_bytes, session,
}
use zopa.Engines.OpaHttp.Ready.{Timed, Waited, Waited-wait_ready}
use zopa.Engines.OpaHttp.Mapping.{decide_each-decisions}

-- An input of one byte is allowed, and for any other the policy is undefined.
abbrev value : List ℕ → Option Value
value d = if length d == 1 then some is_true else none

-- The world is the time. An empty input is refused.
abbrev server : Option ℤ → Host
server code = record {
  World = ℕ;
  Child = ℕ;
  Doc = List ℕ;
  Num = ℕ;
  make_dir = λ w. (ok (codes "d"), w);
  write_rego = λ d r w. (ok tt, w);
  random_port = λ w. (18_000, w);
  spawn = λ d port w. (ok 7, w);
  exit_code = λ c w. code;
  now = λ w. (w, w);
  health = λ port w. (if ltb w 60 then threw else ok true, w);
  sleep = λ ms w. w + ms;
  kill = λ c w. (ok tt, w);
  remove_dir = λ d w. (ok tt, w);
  post = λ port d w. (ok (if length d == 0 then refused else body (value d)), w);
  metrics = λ port w. (ok (codes "x"), w);
  metric = λ key text. if length key == 21 then some 5 else none;
}

abbrev good : Host
good = server none

abbrev start : (c : Option ℤ) → State (server c)
start c = record { world = 0; log = [] }

run : (c : Option ℤ) → List (Option (List ℕ)) → Result (List Decision) × State (server c)
unfolding session setup make_dir start_child random_port wait_ready wait_until round probe
    probe_unless ready_or_discard discard outside note now sleep throw_error use_then_close
    decide_each decide on_host set_body post_body read_response decision_of close attempt finally
    gets pure ◌>>=◌
run c ds = session (server c) 10 (codes "p") (1 ∷ []) ds (start c)

two_decisions : (run none (none ∷ some (1 ∷ 2 ∷ []) ∷ [])).0 ≡ ok (allow ∷ deny ∷ [])
unfolding run
two_decisions = refl

cleaned_up :
    (run none (none ∷ [])).1.log
    ≡ removed_dir (codes "d") ∷ killed 7 ∷ started 7 ∷ made_dir (codes "d") ∷ []
unfolding run
cleaned_up = refl

ready_after_three_rounds : (run none []).1.world ≡ 75
unfolding run
ready_after_three_rounds = refl

early_exit : (run (some (pos 1)) []).0 ≡ threw
unfolding run
early_exit = refl

early_exit_cleaned :
    (run (some (pos 1)) []).1.log
    ≡ removed_dir (codes "d") ∷ killed 7 ∷ started 7 ∷ made_dir (codes "d") ∷ []
unfolding run
early_exit_cleaned = refl

abbrev up : Running good
up = record {
  state = start none;
  inst = record { dir = codes "d"; port = 18_000; child = 7; body = 1 ∷ [] };
}

second_metric : (memory_bytes good up.inst (start none)).0 ≡ ok (some 5)
unfolding run memory_bytes first_metric
second_metric = refl

health-ne-stuck : (b : Bool) → (if◌then◌else◌ {A = Result Bool} b threw (ok true)) ≢ stuck
health-ne-stuck true e = cc
health-ne-stuck false e = cc

good-Timed : Timed good (λ w. w)
good-Timed = record {
  not_before = λ w. omega arith;
  not_after = λ w. omega arith;
  health_ends = λ port w. health-ne-stuck (ltb w 60);
  health_forward = λ port w. omega arith;
  sleep_takes = λ ms w h. omega (arith, h);
}

Waited-wait_ready_example : Waited good 18_000 (wait_ready good 20_001 18_000 7 (start none))
Waited-wait_ready_example =
    Waited-wait_ready good (λ w. w) good-Timed 20_001 18_000 7 (start none) (omega arith)

abbrev always : Host
always = record good { post = λ (port : ℕ) (d : List ℕ) (w : ℕ). (ok (body (value d)), w) }

abbrev asked : Running always
asked = record {
  state = record { world = 0; log = [] };
  inst = record { dir = codes "d"; port = 18_000; child = 7; body = 1 ∷ [] };
}

decide_each-decisions_example :
    (decide_each always (none ∷ some [] ∷ none ∷ []) asked).0
    ≡ ok (decisions (λ d. decision_of always (value d)) (1 ∷ []) (none ∷ some [] ∷ none ∷ []))
decide_each-decisions_example =
    decide_each-decisions always value (none ∷ some [] ∷ none ∷ []) asked (λ d w. refl)
