-- ===== src/Policy/Registry/Room.antt =====
-- `policy_compile` gives a handle where there is room for it.
use zopa.Base.{ℕ, ◌<◌, ◌≡◌, refl, true, false, inl, inr, some, List, arith}
use zopa.Base.Tests.{leb, Option-cases}
use zopa.Base.Integers.{pos}
use zopa.Base.Lists.{length}
use zopa.Base.Exec.{◌>>=◌}
use zopa.Policy.Table.{max_slots, encode, reuse}
use zopa.Policy.Registry.{
  Parts, State, create_entry, errdefer_destroy, build_bundle, append_slot, install, compile,
  policy_compile,
}

module _ (P : Parts) where
  -- `policy_compile` gives a handle where there is memory for the entry, the policy builds, and the
  -- table has fewer than 65535 slots and can grow. No slot needs to be free.
  pub policy_compile-gives :
      (bytes : List ℕ) (e : P.Bundle) (s : State P)
      → (P.create s.world).0 ≡ true
      → (P.build bytes (P.create s.world).1).0 ≡ some e
      → ((n : ℕ) (w : P.World) → (P.grow n w).0 ≡ true)
      → length s.slots < max_slots
      → (h : ℕ) × ((policy_compile P bytes s).0 ≡ pos h)
  unfolding policy_compile compile create_entry errdefer_destroy build_bundle ◌>>=◌ install
      append_slot
  policy_compile-gives bytes e s created built grows room =
      elim (Option-cases (reuse e 0 s.slots)) [
        | inr ((h, ts), k) ↦ (h, rw (created, built, k) refl)
        | inl k ↦
            let not_full : leb max_slots (length s.slots) ≡ false = ground arith in
            (encode (length s.slots) 1, rw (created, built, k, not_full, grows) refl)
      ]
