-- ===== src/Compare/Pairs.antt =====
-- The ratios of one fixture in bench/compare.mjs, by the key of a pair.
use zopa.Base.{◌≡◌, refl, ◌∙◌, ◌≢◌, inl, inr, false, Option, none, some}
use zopa.Base.{List, [], ◌∷◌, ◌++◌, arith, ◌&&◌}
use zopa.Base.Tests.{if◌then◌else◌, Bool-cases}
use zopa.Base.Lists.{All}
use zopa.Base.Text.{Text, codes, same, same_iff, eq_of_same, has}
use zopa.Base.Text.Keys.{join-injective, same-append}
use zopa.Base.Dict.{Dict, lookup, insert, lookup-insert, NodupKeys}
use zopa.Base.Number.{Numbers, JsValue}
use zopa.Compare.{
  reference, pair_key, Row, finite, add_row, by_fixture, engine_ratios, put_ratio, or_new,
}

abbrev pub or_else : {A : Type 0} → Option A → Option A → Option A
or_else none b = b
or_else (some a) b = some a

pub or_else-none : {A : Type 0} (o : Option A) → or_else o none ≡ o
or_else-none none = refl
or_else-none (some a) = refl

module _ (N : Numbers) where
  abbrev pub Value : Type 0
  Value = JsValue N.Num

  abbrev row_cost : Text → Text → Row N → Option Value
  row_cost f e r = if same r.fixture f && same r.engine e then some r.amortized_micros else none

  -- The cost in the last row of the fixture and the engine.
  unfoldable pub last_cost : Text → Text → List (Row N) → Option Value
  last_cost f e [] = none
  last_cost f e (r ∷ rs) = or_else (last_cost f e rs) (row_cost f e r)

  abbrev pub lookup_pair : Text → Text → Dict (Dict Value) → Option Value
  lookup_pair f e m = lookup e (or_new N (lookup f m))

  lookup_pair-add_row :
      (f e : Text) (r : Row N) (m : Dict (Dict Value))
      → lookup_pair f e (add_row N m r) ≡ or_else (row_cost f e r) (lookup_pair f e m)
  unfolding add_row
  lookup_pair-add_row f e r m =
      let es = or_new N (lookup r.fixture m) in
      ground (
        arith,
        same_iff r.fixture f,
        lookup-insert r.fixture f (insert r.engine r.amortized_micros es) m,
        lookup-insert r.engine e r.amortized_micros es,
      )

  pub lookup_pair-by_fixture :
      (f e : Text) (rs : List (Row N)) (m : Dict (Dict Value))
      → lookup_pair f e (by_fixture N rs m) ≡ or_else (last_cost f e rs) (lookup_pair f e m)
  unfolding by_fixture last_cost
  lookup_pair-by_fixture f e [] m = refl
  lookup_pair-by_fixture f e (r ∷ rs) m =
      ground (arith, lookup_pair-by_fixture f e rs (add_row N m r), lookup_pair-add_row f e r m)

  same-pair_key : (f e' e : Text) → same (pair_key f e') (pair_key f e) ≡ same e' e
  same-pair_key f e' e =
      same-append f (codes "/" ++ e') (codes "/" ++ e) ∙ same-append (codes "/") e' e

  abbrev ratio_to : N.Num → Option N.Num → Option N.Num
  ratio_to ref none = none
  ratio_to ref (some c) = some (N.div c ref)

  -- The keys of one engine for a fixture and a cost that stand in the loop.
  abbrev pub entry : Text → N.Num → Option Value → Option N.Num
  entry e ref none = none
  entry e ref (some cost) = if same e reference then none else ratio_to ref (finite N cost)

  lookup-put_ratio :
      (f e e' : Text) (ref : N.Num) (c : Option N.Num) (out : Dict N.Num)
      → lookup (pair_key f e) (put_ratio N f e' ref c out) ≡ (
          if same e' e
          then or_else (ratio_to ref c) (lookup (pair_key f e) out)
          else lookup (pair_key f e) out)
  lookup-put_ratio f e e' ref none out = ground arith
  lookup-put_ratio f e e' ref (some c) out = rw (lookup-insert, same-pair_key) (ground arith)

  pub lookup-engine_ratios :
      (f e : Text) (ref : N.Num) (es : Dict Value) (out : Dict N.Num)
      → NodupKeys es
      → lookup (pair_key f e) (engine_ratios N f ref es out)
        ≡ or_else (entry e ref (lookup e es)) (lookup (pair_key f e) out)
  unfolding engine_ratios lookup
  lookup-engine_ratios f e ref [] out _ = refl
  lookup-engine_ratios f e ref ((e', cost) ∷ es) out (fresh, u) = ground (
    arith,
    lookup-engine_ratios f e ref es out u,
    lookup-engine_ratios f e ref es (put_ratio N f e' ref (finite N cost) out) u,
    lookup-put_ratio f e e' ref (finite N cost) out,
    same_iff e' e,
  )

  abbrev pub Flat : Text × Value → Type 0
  Flat x = has b'/' x.0 ≡ false

  pair_key-ne :
      (f f' e e' : Text)
      → f' ≢ f
      → has b'/' e ≡ false
      → has b'/' e' ≡ false
      → same (pair_key f' e') (pair_key f e) ≡ false
  pair_key-ne f f' e e' n h h' = elim (Bool-cases (same (pair_key f' e') (pair_key f e))) [
    | inr no_match ↦ no_match
    | inl s ↦ absurd (n (join-injective b'/' f' f e' e h' h (eq_of_same _ _ s)).0)
  ]

  lookup-put_ratio_ne :
      (f f' e e' : Text) (ref : N.Num) (c : Option N.Num) (out : Dict N.Num)
      → f' ≢ f
      → has b'/' e ≡ false
      → has b'/' e' ≡ false
      → lookup (pair_key f e) (put_ratio N f' e' ref c out) ≡ lookup (pair_key f e) out
  lookup-put_ratio_ne f f' e e' ref none out n h h' = refl
  lookup-put_ratio_ne f f' e e' ref (some c) out n h h' =
      rw (lookup-insert, pair_key-ne f f' e e' n h h')

  -- Another fixture's loop does not touch the key.
  pub lookup-engine_ratios_ne :
      (f f' e : Text) (ref : N.Num) (es : Dict Value) (out : Dict N.Num)
      → f' ≢ f
      → has b'/' e ≡ false
      → All Flat es
      → lookup (pair_key f e) (engine_ratios N f' ref es out) ≡ lookup (pair_key f e) out
  unfolding engine_ratios
  lookup-engine_ratios_ne f f' e ref [] out n h a = refl
  lookup-engine_ratios_ne f f' e ref ((e', cost) ∷ es) out n h (a, rest) = ground (
    arith,
    lookup-engine_ratios_ne f f' e ref es out n h rest,
    lookup-engine_ratios_ne f f' e ref es (put_ratio N f' e' ref (finite N cost) out) n h rest,
    lookup-put_ratio_ne f f' e e' ref (finite N cost) out n h a,
  )
