-- ===== src/Engines/OpaHttp/Quiet.antt =====
-- Actions of bench/engines/opa-http.mjs that make and remove nothing.
use zopa.Base.{ℕ, zero, suc, ◌≡◌, refl, ◌∙◌, Bool, true, false, Option, none, some}
use zopa.Base.Tests.{ltb, if◌then◌else◌}
use zopa.Base.Integers.{ℤ}
use zopa.Base.Exec.{Result, ok, threw, stuck, Exec, pure, caught, attempt, continue, ◌>>=◌}
use zopa.Engines.OpaHttp.{
  Host, State, M, outside, now, sleep, throw_error, probe_unless, probe, round, wait_until,
  wait_ready,
}

module _ (H : Host) where
  -- The action makes and removes nothing.
  pub record Quiet {A : Type 0} (m : M H A) : Type 0 where
    pub at : (s : State H) → (m s).1.log ≡ s.log

  log-continue :
      {A B : Type 0} (r : Result A) (f : A → M H B) (s : State H)
      → ((a : A) → Quiet (f a))
      → (continue r f s).1.log ≡ s.log
  log-continue (ok a) f s h = (h a).at s
  log-continue threw f s h = refl
  log-continue stuck f s h = refl

  pub Quiet-step :
      {A B : Type 0} {m : M H A} {f : A → M H B}
      → Quiet m
      → ((a : A) → Quiet (f a))
      → Quiet (m >>= f)
  unfolding ◌>>=◌
  Quiet-step {m} {f} h k = record { at = λ s. log-continue (m s).0 f (m s).1 k ∙ h.at s }

  log-caught : {A : Type 0} (r : Result A) (s : State H) → (caught r s).1.log ≡ s.log
  log-caught (ok a) s = refl
  log-caught threw s = refl
  log-caught stuck s = refl

  Quiet-attempt : {A : Type 0} (m : M H A) → Quiet m → Quiet (attempt m)
  unfolding attempt
  Quiet-attempt m h = record { at = λ s. log-caught (m s).0 (m s).1 ∙ h.at s }

  Quiet-if : {A : Type 0} (b : Bool) (m k : M H A) → Quiet m → Quiet k → Quiet (if b then m else k)
  Quiet-if true m k h l = h
  Quiet-if false m k h l = l

  pub Quiet-outside : {A : Type 0} (m : Exec H.World A) → Quiet (outside H m)
  unfolding outside
  Quiet-outside m = record { at = λ s. refl }

  pub Quiet-pure : {A : Type 0} (a : A) → Quiet (pure a)
  unfolding pure
  Quiet-pure a = record { at = λ s. refl }

  pub Quiet-throw_error : {A : Type 0} → Quiet (throw_error H {A = A})
  unfolding throw_error
  Quiet-throw_error = record { at = λ s. refl }

  Quiet-now : Quiet (now H)
  unfolding now
  Quiet-now = record { at = λ s. refl }

  Quiet-sleep : (ms : ℕ) → Quiet (sleep H ms)
  unfolding sleep
  Quiet-sleep ms = record { at = λ s. refl }

  Quiet-probe_unless : (c : Option ℤ) (port : ℕ) → Quiet (probe_unless H c port)
  unfolding probe_unless
  Quiet-probe_unless (some code) port = Quiet-throw_error
  Quiet-probe_unless none port =
      Quiet-step (Quiet-attempt _ (Quiet-outside (H.health port))) λ a. Quiet-pure _

  Quiet-probe : (port : ℕ) (child : H.Child) → Quiet (probe H port child)
  unfolding probe
  Quiet-probe port child = record {
    at = λ s. (Quiet-probe_unless (H.exit_code child s.world) port).at s;
  }

  Quiet-round :
      (port : ℕ) (child : H.Child) (again : M H (Unit {0}))
      → Quiet again
      → Quiet (round H port child again)
  unfolding round
  Quiet-round port child again h =
      Quiet-step (Quiet-probe port child)
        λ b. Quiet-if b _ _ (Quiet-pure tt) (Quiet-step (Quiet-sleep 25) λ _. h)

  Quiet-hang : {A : Type 0} → Quiet {A = A} (λ s. (stuck, s))
  Quiet-hang = record { at = λ s. refl }

  Quiet-wait_until :
      (fuel deadline port : ℕ) (child : H.Child) → Quiet (wait_until H fuel deadline port child)
  unfolding wait_until
  Quiet-wait_until zero deadline port child = record { at = λ s. refl }
  Quiet-wait_until (suc fuel) deadline port child =
      let again = Quiet-wait_until fuel deadline port child in
      let whole =
        Quiet-step Quiet-now
          λ t. Quiet-if (ltb t deadline) _ _ (Quiet-round port child _ again) Quiet-throw_error in
      record { at = λ s. whole.at s }

  pub Quiet-wait_ready : (fuel port : ℕ) (child : H.Child) → Quiet (wait_ready H fuel port child)
  unfolding wait_ready
  Quiet-wait_ready fuel port child = Quiet-step Quiet-now λ t. Quiet-wait_until fuel _ port child
