-- ===== src/Policy/Registry/Leaks.antt =====
-- Each call keeps the table within its bounds and an entry for each held policy.
use zopa.Base.{ℕ, zero, suc, ◌-◌, ◌≤◌, ◌≡◌, refl, inl, inr, List, [], ◌∷◌, arith}
use zopa.Base.Tests.{Option-cases}
use zopa.Base.Integers.{pos, negsuc}
use zopa.Base.Lists.{length}
use zopa.Base.Text.{Text}
use zopa.Policy.Table.{max_slots, index_of, lookup, live_count}
use zopa.Policy.Table.Handles.{length-vacate, live_count-vacate}
use zopa.Policy.Table.Changed.{IsLive-lookup}
use zopa.Policy.Registry.{
  Parts, Call, compiles, releases, evaluates, State, release, policy_compile, policy_release,
  evaluate_addressed, evaluate_compiled_addressed, step, run, init,
}
use zopa.Policy.Registry.Installed.{Fits, compile-Ends}

module _ (P : Parts) where
  -- The table is within its bounds, and an entry is allocated for each held policy, and no other.
  pub record IsSound (s : State P) : Type 0 where
    pub fits : Fits s.slots
    pub entries : s.entries ≡ live_count s.slots

  pub compile-IsSound :
      (bytes : List ℕ) (s : State P) → IsSound s → IsSound (policy_compile P bytes s).1
  unfolding policy_compile
  compile-IsSound bytes s v = elim (compile-Ends P bytes s v.fits) [
    | inl (h, s', g, c) ↦ rw g record {
      fits = c.installed.fits;
      entries = omega (arith, v.entries, c.entries, c.installed.live);
    }
    | inr (s', g, r) ↦ rw (g) record {
      fits = rw r.same_slots v.fits;
      entries = rw (r.same_slots, r.same_entries) v.entries;
    }
  ]

  release-IsSound : (h : ℕ) (s : State P) → IsSound s → IsSound (release P h s).1
  unfolding release
  release-IsSound h s v = elim (Option-cases (lookup h s.slots)) [
    | inl k ↦ rw k v
    | inr (e, k) ↦
        let l = IsLive-lookup h s.slots e k in
        let place = index_of h - 1 in
        rw k record {
          fits = rw (length-vacate place s.slots) v.fits;
          entries =
              omega (arith, v.entries, live_count-vacate place s.slots l.slot e l.place l.entry);
        }
  ]

  evaluate-IsSound :
      (h : ℕ) (input : List ℕ) (pkg rule : Text) (s : State P)
      → IsSound s
      → IsSound (evaluate_addressed P h input pkg rule s).1
  unfolding evaluate_addressed
  evaluate-IsSound h input pkg rule s v = elim (Option-cases (lookup h s.slots)) [
    | inl k ↦ rw k v
    | inr (e, k) ↦ rw k record { fits = v.fits; entries = v.entries }
  ]

  pub step-IsSound : (c : Call) (s : State P) → IsSound s → IsSound (step P c s)
  unfolding step policy_release evaluate_compiled_addressed
  step-IsSound (compiles bytes) s v = compile-IsSound bytes s v
  step-IsSound (releases (negsuc n)) s v = v
  step-IsSound (releases (pos zero)) s v = v
  step-IsSound (releases (pos (suc n))) s v = release-IsSound (suc n) s v
  step-IsSound (evaluates (negsuc n) input pkg rule) s v = v
  step-IsSound (evaluates (pos zero) input pkg rule) s v = v
  step-IsSound (evaluates (pos (suc n)) input pkg rule) s v =
      evaluate-IsSound (suc n) input pkg rule s v

  pub run-IsSound : (cs : List Call) (s : State P) → IsSound s → IsSound (run P cs s)
  unfolding run
  run-IsSound [] s v = v
  run-IsSound (c ∷ cs) s v = run-IsSound cs (step P c s) (step-IsSound c s v)

  pub init-IsSound : (w : P.World) → IsSound (init P w)
  unfolding live_count
  init-IsSound w = record { fits = omega arith; entries = refl }

  -- Whatever the host calls, valid handles or not, the entries that are allocated are those of the
  -- policies that it holds: no call leaks an entry, and none frees one twice. The table has at most
  -- 65535 slots.
  pub entries-run :
      (cs : List Call) (w : P.World)
      → let s = run P cs (init P w) in
        (s.entries ≡ live_count s.slots) × (length s.slots ≤ max_slots)
  entries-run cs w = let v = run-IsSound cs (init P w) (init-IsSound w) in (v.entries, v.fits)
