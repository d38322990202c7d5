-- ===== src/Bench/Driver/Closed.antt =====
-- The loop of bench/run.mjs that closes the instances closes each of them.
use zopa.Base.{ℕ, ◌+◌, ◌≡◌, refl, ◌≢◌, Option, List, [], ◌∷◌, arith}
use zopa.Base.Number.{Numbers}
use zopa.Base.Exec.{Result, ok, threw, stuck, pure, caught, attempt, continue, ◌>>=◌}
use zopa.Bench.Engine.{Host}
use zopa.Bench.Measure.{State, Live, M, close_instance}
use zopa.Bench.Driver.{close_all}
use zopa.Bench.Driver.Balanced.{Moves}
use zopa.Bench.Driver.Balance.{held, Moves-close}

module _ (N : Numbers) (H : Host N) (n : ℕ) where
  Moves-attempt_close :
      (e : Live N H) (s : State N H)
      → Moves N H n 0 (held N H n (e ∷ [])) s (attempt (close_instance N H e) s).1
  unfolding attempt
  Moves-attempt_close e s = let (r, s') = close_instance N H e s in go r s' (Moves-close N H n e s)
    where
      go :
          (r : Result (Unit {0})) (s' : State N H)
          → Moves N H n 0 (held N H n (e ∷ [])) s s'
          → Moves N H n 0 (held N H n (e ∷ [])) s (caught r s').1
      go (ok a) s' h = h
      go threw s' h = h
      go stuck s' h = h

  caught-ne-threw : {A : Type 0} (r : Result A) (s : State N H) → (caught r s).0 ≢ threw
  caught-ne-threw (ok a) s e = cc
  caught-ne-threw threw s e = cc
  caught-ne-threw stuck s e = cc

  pub attempt-ne-threw : {A : Type 0} (m : M N H A) (s : State N H) → (attempt m s).0 ≢ threw
  unfolding attempt
  attempt-ne-threw m s = caught-ne-threw (m s).0 (m s).1

  pub held-cons :
      (e : Live N H) (es : List (Live N H))
      → held N H n (e ∷ es) ≡ held N H n (e ∷ []) + held N H n es
  held-cons e es = ground arith

  Moves-close_rest :
      (e : Live N H) (es : List (Live N H)) (r : Result (Option (Unit {0}))) (s s' : State N H)
      → ((t : State N H)
          → (close_all N H es t).0 ≢ stuck
          → Moves N H n 0 (held N H n es) t (close_all N H es t).1)
      → r ≢ threw
      → Moves N H n 0 (held N H n (e ∷ [])) s s'
      → (continue r (λ _. close_all N H es) s').0 ≢ stuck
      → Moves N H n 0 (held N H n (e ∷ es)) s (continue r (λ _. close_all N H es) s').1
  Moves-close_rest e es (ok o) s s' ih t h c = omega (arith, h, ih s' c, held-cons e es)
  Moves-close_rest e es threw s s' ih t h c = absurd (t refl)
  Moves-close_rest e es stuck s s' ih t h c = absurd (c refl)

  pub Moves-close_all :
      (es : List (Live N H)) (s : State N H)
      → (close_all N H es s).0 ≢ stuck
      → Moves N H n 0 (held N H n es) s (close_all N H es s).1
  unfolding close_all ◌>>=◌
  Moves-close_all [] s c = unfold pure in omega arith
  Moves-close_all (e ∷ es) s c =
      let (r, s') = attempt (close_instance N H e) s in
      Moves-close_rest e es r s s' (λ t. Moves-close_all es t)
        (attempt-ne-threw (close_instance N H e) s) (Moves-attempt_close e s) c
