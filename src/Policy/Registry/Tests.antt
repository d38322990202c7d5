-- ===== src/Policy/Registry/Tests.antt =====
-- The registry on concrete policies: a policy builds unless it is empty, and it allows the inputs of
-- its own length.
use zopa.Base.{ℕ, ◌≡◌, ◌≢◌, refl, ◌⊎◌, true, Option, none, some, List, [], ◌∷◌, ◌≤◌, arith}
use zopa.Base.Tests.{◌==◌, if◌then◌else◌}
use zopa.Base.Text.{codes}
use zopa.Base.Integers.{pos, negsuc}
use zopa.Base.Lists.{length}
use zopa.Base.Exec.{◌>>=◌}
use zopa.Bench.Engine.{allow, failed}
use zopa.Policy.Table.{
  max_slots, is_empty, lookup, live_count, reuse, is_reusable, filled, encode, vacate,
}
use zopa.Policy.Registry.{
  Parts, Call, compiles, releases, State, create_entry, errdefer_destroy, build_bundle, append_slot,
  install, compile, release, evaluate_addressed, policy_compile, policy_release, evaluate_compiled,
  evaluate_compiled_addressed, answer, step, run, init,
}
use zopa.Policy.Registry.Handles.{IsIssued, policy_compile-IsIssued, policy_release-lookup}
use zopa.Policy.Registry.Room.{policy_compile-gives}
use zopa.Policy.Registry.Lasting.{is_released}
use zopa.Policy.Registry.Leaks.{entries-run}
use zopa.Policy.Registry.Stale.{evaluate_compiled_addressed-issued, policy_compile-New}

abbrev build_any : List ℕ → ℕ → Option (List ℕ) × ℕ
build_any [] w = (none, w)
build_any (b ∷ bs) w = (some (b ∷ bs), w)

abbrev parts : Parts
parts = record {
  World = ℕ;
  Bundle = List ℕ;
  create = λ w. (true, w);
  build = build_any;
  grow = λ n w. (true, w);
  evaluate = λ b i pkg rule w. (some (length b == length i), w);
}

-- A policy is compiled and released, and another takes its slot.
abbrev before : List Call
before = compiles (1 ∷ []) ∷ releases (pos 65_537) ∷ compiles [] ∷ []

abbrev issue : State parts
issue = (policy_compile parts (1 ∷ 2 ∷ []) (run parts before (init parts 0))).1

-- The second policy's handle is released, after a release of the first one's, and a third policy
-- takes the slot.
abbrev after : List Call
after = releases (pos 65_537) ∷ releases (pos 131_073) ∷ compiles (3 ∷ []) ∷ []

second_handle :
    policy_compile parts (1 ∷ 2 ∷ []) (run parts before (init parts 0)) ≡ (pos 131_073, issue)
unfolding run step policy_compile policy_release compile release create_entry errdefer_destroy
    build_bundle append_slot install reuse is_reusable filled encode lookup vacate ◌>>=◌
second_handle = refl

abbrev last : State parts
last = (policy_compile parts (4 ∷ []) (run parts after issue)).1

third_handle : policy_compile parts (4 ∷ []) (run parts after issue) ≡ (pos 65_538, last)
unfolding run step policy_compile policy_release compile release create_entry errdefer_destroy
    build_bundle append_slot install reuse is_reusable filled encode lookup vacate ◌>>=◌
third_handle = refl

-- Before its release the second handle answers by its own policy.
held_handle :
    (evaluate_compiled parts
      (pos 131_073)
      (7 ∷ 8 ∷ [])
      (run parts (releases (pos 65_537) ∷ []) issue)).0
    ≡ allow
unfolding run step policy_compile policy_release compile release create_entry errdefer_destroy
    build_bundle append_slot install reuse is_reusable filled encode lookup vacate
    evaluate_compiled_addressed evaluate_addressed ◌>>=◌
held_handle = refl

evaluate_compiled_addressed-issued_example :
    (e : List ℕ) × (build_any (1 ∷ 2 ∷ []) (run parts before (init parts 0)).world).0 ≡ some e
    × ((evaluate_compiled_addressed parts
          (pos 131_073)
          (7 ∷ 8 ∷ [])
          (codes "authz")
          (codes "allow")
          (run parts after issue)).0
        ≡ (if is_released 131_073 after then failed else answer parts (some (length e == 2))))
evaluate_compiled_addressed-issued_example =
    evaluate_compiled_addressed-issued parts before after 0 (1 ∷ 2 ∷ []) (7 ∷ 8 ∷ [])
      (codes "authz") (codes "allow") 131_073 issue second_handle

policy_compile-New_example : ◌≢◌ {A = ℕ} 65_538 131_073
policy_compile-New_example =
    policy_compile-New parts before after 0 (1 ∷ 2 ∷ []) (4 ∷ []) 131_073 65_538 issue last
      second_handle third_handle

policy_compile-IsIssued_example :
    ((h : ℕ) × ((policy_compile parts (1 ∷ 2 ∷ []) (run parts before (init parts 0))).0 ≡ pos h)
      × IsIssued parts
          (1 ∷ 2 ∷ [])
          (run parts before (init parts 0))
          h
          (policy_compile parts (1 ∷ 2 ∷ []) (run parts before (init parts 0))).1)
    ⊎ (((policy_compile parts (1 ∷ 2 ∷ []) (run parts before (init parts 0))).0 ≡ negsuc 0)
        × ((policy_compile parts (1 ∷ 2 ∷ []) (run parts before (init parts 0))).1.slots
            ≡ (run parts before (init parts 0)).slots)
        × ((policy_compile parts (1 ∷ 2 ∷ []) (run parts before (init parts 0))).1.entries
            ≡ (run parts before (init parts 0)).entries))
policy_compile-IsIssued_example = policy_compile-IsIssued parts before 0 (1 ∷ 2 ∷ [])

policy_release-lookup_example :
    ((policy_release parts (pos 131_073) issue).0
      ≡ (if is_empty (lookup 131_073 issue.slots) then pos 0 else pos 1))
    × ((g : ℕ)
        → lookup g (policy_release parts (pos 131_073) issue).1.slots
          ≡ (if g == 131_073 then none else lookup g issue.slots))
policy_release-lookup_example = policy_release-lookup parts 131_072 issue

entries-run_example :
    ((run parts before (init parts 0)).entries ≡ live_count (run parts before (init parts 0)).slots)
    × (length (run parts before (init parts 0)).slots ≤ max_slots)
entries-run_example = entries-run parts before 0

policy_compile-gives_example :
    (h : ℕ) × ((policy_compile parts (4 ∷ []) (run parts before (init parts 0))).0 ≡ pos h)
unfolding run step policy_compile policy_release compile release create_entry errdefer_destroy
    build_bundle append_slot install reuse is_reusable filled encode lookup vacate ◌>>=◌
policy_compile-gives_example =
    policy_compile-gives parts (4 ∷ []) (4 ∷ []) (run parts before (init parts 0)) refl refl
      (λ n w. refl) (omega arith)
