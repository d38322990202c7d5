-- ===== src/Policy/Registry/Handles.antt =====
-- What `policy_compile` and `policy_release` do to what the handles stand for.
use zopa.Base.{ℕ, suc, ◌<◌, ◌≡◌, refl, ap, ◌∙◌, ◌⊎◌, inl, inr, none, some, List}
use zopa.Base.Tests.{◌==◌, if◌then◌else◌, Bool-cases, Option-cases, eq_of_==}
use zopa.Base.Integers.{pos, negsuc}
use zopa.Policy.Table.{is_empty, Slot, lookup}
use zopa.Policy.Table.Handles.{encode-bounds}
use zopa.Policy.Table.Changed.{lookup-IsFilled, lookup-fresh, lookup-vacate}
use zopa.Policy.Registry.{Parts, Call, State, release, policy_compile, policy_release, run, init}
use zopa.Policy.Registry.Installed.{Compiled, compile-Ends}
use zopa.Policy.Registry.Leaks.{run-IsSound, init-IsSound}

module _ (P : Parts) where
  -- The handle h is new, and now stands for a policy built from the bytes; no other handle changed.
  pub record IsIssued (bytes : List ℕ) (s : State P) (h : ℕ) (s' : State P) : Type 0 where
    pub positive : 0 < h
    pub within_i32 : h < 2_147_483_648
    pub bundle : P.Bundle
    pub builds : (P.build bytes (P.create s.world).1).0 ≡ some bundle
    pub unused : lookup h s.slots ≡ none
    pub lookups : (g : ℕ) → lookup g s'.slots ≡ (if g == h then some bundle else lookup g s.slots)

  pub Compiled-IsIssued :
      (bytes : List ℕ) (s : State P) (h : ℕ) (s' : State P)
      → Compiled P bytes s h s'
      → IsIssued bytes s h s'
  Compiled-IsIssued bytes s h s' c =
      let f = c.installed.filled in
      let (low, high) = encode-bounds f.place _ f.in_table f.not_last in
      record {
        positive = rw f.handle low;
        within_i32 = rw f.handle high;
        bundle = c.bundle;
        builds = c.builds;
        unused = lookup-fresh c.bundle s.slots h s'.slots f;
        lookups = lookup-IsFilled c.bundle s.slots h s'.slots f;
      }

  -- After any calls of the exports, `policy_compile` either gives a handle that is positive and
  -- below 2^31, that stood for nothing and now stands for the built policy while every other number
  -- resolves as before, or it gives -1 and no slot and no number of entries has changed.
  pub policy_compile-IsIssued :
      (cs : List Call) (w : P.World) (bytes : List ℕ)
      → let s = run P cs (init P w) in
        let (z, s') = policy_compile P bytes s in
        ((h : ℕ) × (z ≡ pos h) × IsIssued bytes s h s')
        ⊎ ((z ≡ negsuc 0) × (s'.slots ≡ s.slots) × (s'.entries ≡ s.entries))
  unfolding policy_compile
  policy_compile-IsIssued cs w bytes =
      let s = run P cs (init P w) in
      let v = run-IsSound P cs (init P w) (init-IsSound P w) in
      elim (compile-Ends P bytes s v.fits) [
        | inl (h, s', g, c) ↦ rw g (inl (h, refl, Compiled-IsIssued bytes s h s' c))
        | inr (s', g, r) ↦ rw g (inr (refl, r.same_slots, r.same_entries))
      ]

  nothing_released :
      (h g : ℕ) (ss : List (Slot P.Bundle))
      → lookup h ss ≡ none
      → lookup g ss ≡ (if g == h then none else lookup g ss)
  nothing_released h g ss k = elim (Bool-cases (g == h)) [
    | inl e ↦ rw e (ap (λ n. lookup n ss) (eq_of_== g h e) ∙ k)
    | inr e ↦ rw e refl
  ]

  -- `policy_release` of a positive handle answers 1 where the handle stands for a policy and 0 where
  -- it does not, and after it the handle stands for none, while every other number resolves as
  -- before.
  pub policy_release-lookup :
      (n : ℕ) (s : State P)
      → let (z, s') = policy_release P (pos (suc n)) s in
        (z ≡ (if is_empty (lookup (suc n) s.slots) then pos 0 else pos 1))
        × ((g : ℕ) → lookup g s'.slots ≡ (if g == suc n then none else lookup g s.slots))
  unfolding policy_release release
  policy_release-lookup n s = elim (Option-cases (lookup (suc n) s.slots)) [
    | inl k ↦ rw k (refl, λ g. nothing_released (suc n) g s.slots k)
    | inr (e, k) ↦ rw k (refl, λ g. lookup-vacate (suc n) s.slots e k g)
  ]
