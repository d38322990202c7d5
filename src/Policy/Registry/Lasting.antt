-- ===== src/Policy/Registry/Lasting.antt =====
-- What becomes of a handle that has been given, whatever the host calls.
use zopa.Base.{
  ℕ, zero, suc, ◌<◌, ◌≡◌, ◌≢◌, refl, ap, ◌∙◌, Bool, true, false, ◌||◌, inl, inr, Option, none, List,
  [], ◌∷◌, arith,
}
use zopa.Base.Tests.{◌==◌, if◌then◌else◌, Option-cases, ==-ne}
use zopa.Base.Text.{Text}
use zopa.Base.Integers.{pos, negsuc}
use zopa.Policy.Table.{lookup}
use zopa.Policy.Table.Changed.{Past, lookup-IsFilled, not_Past, Past-IsFilled, Past-vacate}
use zopa.Policy.Registry.{
  Parts, Call, compiles, releases, evaluates, State, release, evaluate_addressed, policy_compile,
  policy_release, evaluate_compiled_addressed, step, run,
}
use zopa.Policy.Registry.Handles.{policy_release-lookup}
use zopa.Policy.Registry.Installed.{Fits, compile-Ends}
use zopa.Policy.Registry.Leaks.{IsSound, step-IsSound}

-- Whether one of the calls releases the handle.
abbrev pub is_release : ℕ → Call → Bool
is_release h (compiles bytes) = false
is_release h (releases (pos n)) = h == n
is_release h (releases (negsuc n)) = false
is_release h (evaluates g input pkg rule) = false

unfoldable pub is_released : ℕ → List Call → Bool
is_released h [] = false
is_released h (c ∷ cs) = is_release h c || is_released h cs

module _ (P : Parts) where
  -- What the calls make of a handle that has been given.
  pub record Lasts (h : ℕ) (now : Option P.Bundle) (s' : State P) : Type 0 where
    pub past : Past h s'.slots
    pub resolves : lookup h s'.slots ≡ now

  Lasts-compile :
      (h : ℕ) (bytes : List ℕ) (s : State P)
      → Fits s.slots
      → Past h s.slots
      → Lasts h (lookup h s.slots) (policy_compile P bytes s).1
  unfolding policy_compile
  Lasts-compile h bytes s f p = elim (compile-Ends P bytes s f) [
    | inl (h', s', g, c) ↦
        let i = c.installed.filled in
        let other : h ≢ h' = λ q. not_Past c.bundle s.slots h' s'.slots i (rw q at p) in
        rw g record {
          past = Past-IsFilled c.bundle s.slots h' s'.slots i h p;
          resolves = lookup-IsFilled c.bundle s.slots h' s'.slots i h ∙ rw (==-ne h h' other) refl;
        }
    | inr (s', g, r) ↦ rw g record { past = rw r.same_slots p; resolves = rw r.same_slots refl }
  ]

  Past-release : (h g : ℕ) (s : State P) → Past h s.slots → Past h (release P g s).1.slots
  unfolding release
  Past-release h g s p = elim (Option-cases (lookup g s.slots)) [
    | inl k ↦ rw k p
    | inr (e, k) ↦ rw k (Past-vacate g s.slots e k h p)
  ]

  Lasts-release :
      (h n : ℕ) (s : State P)
      → Past h s.slots
      → Lasts h (if h == suc n then none else lookup h s.slots) (policy_release P (pos (suc n)) s).1
  Lasts-release h n s p = record {
    past = unfold policy_release in Past-release h (suc n) s p;
    resolves = (policy_release-lookup P n s).1 h;
  }

  Lasts-evaluate :
      (h g : ℕ) (input : List ℕ) (pkg rule : Text) (s : State P)
      → Past h s.slots
      → Lasts h (lookup h s.slots) (evaluate_addressed P g input pkg rule s).1
  unfolding evaluate_addressed
  Lasts-evaluate h g input pkg rule s p = elim (Option-cases (lookup g s.slots)) [
    | inl k ↦ rw k record { past = p; resolves = refl }
    | inr (e, k) ↦ rw k record { past = p; resolves = refl }
  ]

  -- What a call leaves of a handle.
  abbrev left : ℕ → Call → Option P.Bundle → Option P.Bundle
  left h c o = if is_release h c then none else o

  Lasts-step :
      (h : ℕ) (c : Call) (s : State P)
      → 0 < h
      → Fits s.slots
      → Past h s.slots
      → Lasts h (left h c (lookup h s.slots)) (step P c s)
  unfolding step evaluate_compiled_addressed
  Lasts-step h (compiles bytes) s l f p = Lasts-compile h bytes s f p
  Lasts-step h (releases (negsuc n)) s l f p =
      unfold policy_release in record { past = p; resolves = refl }
  Lasts-step h (releases (pos zero)) s l f p =
      unfold policy_release in
      rw (==-ne h 0 (λ e. absurd (omega arith))) record { past = p; resolves = refl }
  Lasts-step h (releases (pos (suc n))) s l f p = Lasts-release h n s p
  Lasts-step h (evaluates (negsuc n) input pkg rule) s l f p = record { past = p; resolves = refl }
  Lasts-step h (evaluates (pos zero) input pkg rule) s l f p = record { past = p; resolves = refl }
  Lasts-step h (evaluates (pos (suc n)) input pkg rule) s l f p =
      Lasts-evaluate h (suc n) input pkg rule s p

  twice :
      (a b : Bool) (o : Option P.Bundle)
      → (if b then none else (if a then none else o)) ≡ (if a || b then none else o)
  twice true true o = refl
  twice true false o = refl
  twice false true o = refl
  twice false false o = refl

  pub Lasts-run :
      (h : ℕ) (cs : List Call) (s : State P)
      → 0 < h
      → IsSound P s
      → Past h s.slots
      → Lasts h (if is_released h cs then none else lookup h s.slots) (run P cs s)
  unfolding run is_released
  Lasts-run h [] s l v p = record { past = p; resolves = refl }
  Lasts-run h (c ∷ cs) s l v p =
      let a = Lasts-step h c s l v.fits p in
      let b = Lasts-run h cs (step P c s) l (step-IsSound P c s v) a.past in
      record {
        past = b.past;
        resolves =
            b.resolves
            ∙ ap (λ o. if is_released h cs then none else o) a.resolves
            ∙ twice (is_release h c) (is_released h cs) (lookup h s.slots);
      }
