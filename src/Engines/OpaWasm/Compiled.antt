-- ===== src/Engines/OpaWasm/Compiled.antt =====
-- The artifacts that bench/engines/opa-wasm.mjs has built.
use zopa.Base.{◌≡◌, refl, ◌∙◌, Option, none, some, inl, inr, List, [], ◌∷◌, arith}
use zopa.Base.Tests.{Bool-cases}
use zopa.Base.Text.{Text, same, same_iff, eq_of_same}
use zopa.Base.Dict.{lookup, insert, lookup-insert}
use zopa.Base.Exec.{Result, ok, threw, stuck, pure, continue, ◌>>=◌, ◌>>◌}
use zopa.Engines.OpaWasm.{
  Built, Tools, State, outside, build, remember, build_and_remember, or_build, compile,
}

module _ (T : Tools) where
  -- Calls of `compile`, whether they throw or not.
  pub compiles : List Text → State T → State T
  compiles [] s = s
  compiles (r ∷ rs) s = compiles rs (compile T r s).1

  -- What `compile` does where nothing is remembered.
  kept_or_new : (rego : Text) (r : Result Built) (s : State T) → Result Built × State T
  kept_or_new rego (ok b) s = (ok b, record s { compiled = insert rego b s.compiled })
  kept_or_new rego threw s = (threw, s)
  kept_or_new rego stuck s = (stuck, s)

  build_and_remember_lem :
      (rego : Text) (s : State T)
      → let (r, w) = build T rego s.world in
        build_and_remember T rego s ≡ kept_or_new rego r (record s { world = w })
  unfolding build_and_remember outside remember kept_or_new ◌>>=◌ pure
  build_and_remember_lem rego s = go (build T rego s.world).0 (build T rego s.world).1
    where
      go :
          (r : Result Built) (w : T.World)
          → continue r (λ b. remember T rego b >> pure b) (record s { world = w })
            ≡ kept_or_new rego r (record s { world = w })
      go (ok b) w = refl
      go threw w = refl
      go stuck w = refl

  lookup-kept_or_new :
      (rego r : Text) (q : Result Built) (s : State T) (b : Built)
      → lookup r s.compiled ≡ none
      → lookup rego s.compiled ≡ some b
      → lookup rego (kept_or_new r q s).1.compiled ≡ some b
  unfolding kept_or_new
  lookup-kept_or_new rego r (ok c) s b h k = elim (Bool-cases (same r rego)) [
    | inl e ↦ absurd (cc (rw (eq_of_same r rego e) at h))
    | inr e ↦ lookup-insert r rego c s.compiled ∙ rw e k
  ]
  lookup-kept_or_new rego r threw s b h k = k
  lookup-kept_or_new rego r stuck s b h k = k

  lookup-or_build :
      (rego r : Text) (o : Option Built) (s : State T) (b : Built)
      → lookup r s.compiled ≡ o
      → lookup rego s.compiled ≡ some b
      → lookup rego (or_build T o r s).1.compiled ≡ some b
  lookup-or_build rego r (some c) s b h k = k
  lookup-or_build rego r none s b h k =
      rw (build_and_remember_lem r s) (lookup-kept_or_new rego r (build T r s.world).0 _ b h k)

  lookup-compiles :
      (rego : Text) (rs : List Text) (s : State T) (b : Built)
      → lookup rego s.compiled ≡ some b
      → lookup rego (compiles rs s).compiled ≡ some b
  unfolding compiles compile
  lookup-compiles rego [] s b k = k
  lookup-compiles rego (r ∷ rs) s b k =
      lookup-compiles rego rs _ b (lookup-or_build rego r (lookup r s.compiled) s b refl k)

  remembered :
      (rego : Text) (q : Result Built) (s : State T) (b : Built)
      → (kept_or_new rego q s).0 ≡ ok b
      → lookup rego (kept_or_new rego q s).1.compiled ≡ some b
  unfolding kept_or_new
  remembered rego (ok c) s b h =
      lookup-insert rego rego c s.compiled ∙ ground (arith, same_iff rego rego)
  remembered rego threw s b h = absurd (cc)
  remembered rego stuck s b h = absurd (cc)

  lookup-compiled :
      (rego : Text) (o : Option Built) (s : State T) (b : Built)
      → lookup rego s.compiled ≡ o
      → (or_build T o rego s).0 ≡ ok b
      → lookup rego (or_build T o rego s).1.compiled ≡ some b
  lookup-compiled rego (some c) s b h k = h ∙ ground arith
  lookup-compiled rego none s b h k =
      rw (build_and_remember_lem rego s)
        (remembered rego (build T rego s.world).0 _ b (rw (build_and_remember_lem rego s) at k))

  -- A policy that was compiled is not compiled again: after any calls of `compile`, with any
  -- results of the tools, `compile` gives the first artifact for it, and changes nothing.
  pub compile-compiles :
      (rego : Text) (rs : List Text) (s : State T) (b : Built)
      → (compile T rego s).0 ≡ ok b
      → let later = compiles rs (compile T rego s).1 in compile T rego later ≡ (ok b, later)
  unfolding compile
  compile-compiles rego rs s b h =
      let there = lookup-compiled rego (lookup rego s.compiled) s b refl h in
      rw (lookup-compiles rego rs (compile T rego s).1 b there) refl
