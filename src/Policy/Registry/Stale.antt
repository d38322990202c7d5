-- ===== src/Policy/Registry/Stale.antt =====
-- A given handle through any calls of the exports: it is never given again, and it answers by its
-- own policy until it is released.
use zopa.Base.{
  ℕ, zero, suc, ◌<◌, ◌≡◌, ◌≢◌, refl, ap, ◌∙◌, Bool, true, false, inl, inr, Option, none, some, List,
  arith,
}
use zopa.Base.Tests.{if◌then◌else◌, Option-cases, ==-self}
use zopa.Base.Text.{Text}
use zopa.Base.Integers.{ℤ, pos, negsuc}
use zopa.Bench.Engine.{Decision, failed}
use zopa.Policy.Table.{lookup}
use zopa.Policy.Table.Changed.{Past, Past-new, not_Past}
use zopa.Policy.Registry.{
  Parts, Call, State, evaluate_addressed, policy_compile, evaluate_compiled_addressed, answer, run,
  init,
}
use zopa.Policy.Registry.Handles.{IsIssued, Compiled-IsIssued}
use zopa.Policy.Registry.Installed.{Fits, Compiled, compile-Ends}
use zopa.Policy.Registry.Lasting.{is_released, Lasts-run}
use zopa.Policy.Registry.Leaks.{IsSound, run-IsSound, init-IsSound, compile-IsSound}

module _ (P : Parts) where
  given :
      (bytes : List ℕ) (s : State P) (h : ℕ) (s' : State P)
      → Fits s.slots
      → policy_compile P bytes s ≡ (pos h, s')
      → Compiled P bytes s h s'
  unfolding policy_compile
  given bytes s h s' f g = elim (compile-Ends P bytes s f) [
    | inl (i, t, k, c) ↦
        let q : ◌≡◌ {A = ℤ × State P} (pos i, t) (pos h, s') = rw k at g in
        let same_handle : i ≡ h = cc in
        let same_state : t ≡ s' = cc in rw (← same_handle, ← same_state) c
    | inr (t, k, r) ↦
        absurd (let q : ◌≡◌ {A = ℤ × State P} (negsuc 0, t) (pos h, s') = rw k at g in cc)
  ]

  -- The state after calls of the exports, with a handle that the next one has given.
  record IsGiven (bytes : List ℕ) (s : State P) (h : ℕ) (s' : State P) : Type 0 where
    pub issue : IsIssued P bytes s h s'
    pub past : Past h s'.slots
    pub not_past : ¬ Past h s.slots
    pub sound : IsSound P s'

  IsGiven-policy_compile :
      (bytes : List ℕ) (s : State P) (h : ℕ) (s' : State P)
      → IsSound P s
      → policy_compile P bytes s ≡ (pos h, s')
      → IsGiven bytes s h s'
  IsGiven-policy_compile bytes s h s' v g =
      let c = given bytes s h s' v.fits g in
      let f = c.installed.filled in
      record {
        issue = Compiled-IsIssued P bytes s h s' c;
        past = Past-new c.bundle s.slots h s'.slots f;
        not_past = not_Past c.bundle s.slots h s'.slots f;
        sound = rw g at (compile-IsSound P bytes s v);
      }

  answer_of : Option P.Bundle → List ℕ → Text → Text → P.World → Decision
  answer_of none input pkg rule w = failed
  answer_of (some e) input pkg rule w = answer P (P.evaluate e input pkg rule w).0

  evaluate-answer :
      (h : ℕ) (input : List ℕ) (pkg rule : Text) (s : State P)
      → 0 < h
      → (evaluate_compiled_addressed P (pos h) input pkg rule s).0
        ≡ answer_of (lookup h s.slots) input pkg rule s.world
  unfolding evaluate_compiled_addressed evaluate_addressed answer_of
  evaluate-answer zero input pkg rule s l = absurd (omega arith)
  evaluate-answer (suc n) input pkg rule s l = elim (Option-cases (lookup (suc n) s.slots)) [
    | inl k ↦ rw k refl
    | inr (e, k) ↦ rw k refl
  ]

  answer_of-left :
      (b : Bool) (e : P.Bundle) (input : List ℕ) (pkg rule : Text) (w : P.World)
      → answer_of (if b then none else some e) input pkg rule w
        ≡ (if b then failed else answer P (P.evaluate e input pkg rule w).0)
  unfolding answer_of
  answer_of-left true e input pkg rule w = refl
  answer_of-left false e input pkg rule w = refl

  -- A handle that `policy_compile` has given, after any calls before it, stands for the policy
  -- built from the bytes: whatever the host calls afterwards, `evaluate_compiled_addressed` gives
  -- the answer of that policy's evaluation as long as no call has released the handle, and -1
  -- from then on, also when other policies have been compiled since.
  pub evaluate_compiled_addressed-issued :
      (cs ds : List Call) (w : P.World) (bytes input : List ℕ) (pkg rule : Text) (h : ℕ)
      (s : State P)
      → policy_compile P bytes (run P cs (init P w)) ≡ (pos h, s)
      → (e : P.Bundle) × ((P.build bytes (P.create (run P cs (init P w)).world).1).0 ≡ some e)
        × ((evaluate_compiled_addressed P (pos h) input pkg rule (run P ds s)).0 ≡ (
            if is_released h ds
            then failed
            else answer P (P.evaluate e input pkg rule (run P ds s).world).0))
  evaluate_compiled_addressed-issued cs ds w bytes input pkg rule h s g =
      let v = run-IsSound P cs (init P w) (init-IsSound P w) in
      let i = IsGiven-policy_compile bytes (run P cs (init P w)) h s v g in
      let now : lookup h s.slots ≡ some i.issue.bundle = i.issue.lookups h ∙ rw (==-self h) refl in
      let last = Lasts-run P h ds s i.issue.positive i.sound i.past in
      (
        i.issue.bundle,
        i.issue.builds,
        evaluate-answer h input pkg rule (run P ds s) i.issue.positive
            ∙ ap (λ o. answer_of o input pkg rule (run P ds s).world) (last.resolves ∙ rw now refl)
            ∙ answer_of-left (is_released h ds) i.issue.bundle input pkg rule (run P ds s).world,
      )

  -- `policy_compile` never gives a handle again that it has given before, released or not.
  pub policy_compile-New :
      (cs ds : List Call) (w : P.World) (bytes bytes' : List ℕ) (h h' : ℕ) (s s' : State P)
      → policy_compile P bytes (run P cs (init P w)) ≡ (pos h, s)
      → policy_compile P bytes' (run P ds s) ≡ (pos h', s')
      → h' ≢ h
  policy_compile-New cs ds w bytes bytes' h h' s s' g g' e =
      let v = run-IsSound P cs (init P w) (init-IsSound P w) in
      let i = IsGiven-policy_compile bytes (run P cs (init P w)) h s v g in
      let i' = IsGiven-policy_compile bytes' (run P ds s) h' s' (run-IsSound P ds s i.sound) g' in
      i'.not_past (rw e (Lasts-run P h ds s i.issue.positive i.sound i.past).past)
