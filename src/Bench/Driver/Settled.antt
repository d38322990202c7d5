-- ===== src/Bench/Driver/Settled.antt =====
-- What the agreement gate of bench/run.mjs tells where it counts nothing.
use zopa.Base.{
  ◌≡◌, refl, ap, ◌∙◌, ◌≢◌, inl, inr, true, false, Option, none, some, List, [], ◌∷◌, arith,
}
use zopa.Base.Tests.{Bool-cases, eq_of_==}
use zopa.Base.Text.{Text, same, same_self}
use zopa.Base.Dict.{Dict, insert, lookup, lookup-insert}
use zopa.Base.Lists.{All}
use zopa.Base.Number.{Numbers}
use zopa.Base.Exec.{ok, continue_ok, ◌>>=◌}
use zopa.Bench.Engine.{Decision, allow, deny, failed, other_value, same_decision, Host}
use zopa.Bench.Measure.{State, Live, outside}
use zopa.Bench.Driver.{zopa_id, differs, disagreeing, errors, gate_count, decide_all}

eq_of_same_decision : (a b : Decision) → same_decision a b ≡ true → a ≡ b
unfolding same_decision
eq_of_same_decision allow allow h = refl
eq_of_same_decision deny deny h = refl
eq_of_same_decision failed failed h = refl
eq_of_same_decision (other_value a) (other_value b) h = ap other_value (eq_of_== a b h)
eq_of_same_decision _ _ h = absurd (cc)

-- With no disagreement counted, each decision is the reference.
lookup-disagreeing :
    (reference : Option Decision) (ds : Dict Decision) (k : Text) (d : Decision)
    → disagreeing reference ds ≡ 0
    → lookup k ds ≡ some d
    → differs d reference ≡ false
unfolding disagreeing lookup
lookup-disagreeing reference [] k d h e = absurd (cc)
lookup-disagreeing reference ((j, c) ∷ ds) k d h e = elim (Bool-cases (differs c reference)) [
  | inl t ↦ absurd (ground arith)
  | inr t ↦ elim (Bool-cases (same j k)) [
    | inl s ↦ let p : c ≡ d = ground arith in rw (← p) t
    | inr s ↦ lookup-disagreeing reference ds k d (rw t at h) (rw s at e)
  ]
]

eq_of_differs : (d r : Decision) → differs d (some r) ≡ false → d ≡ r
eq_of_differs d r h = elim (Bool-cases (same_decision d r)) [
  | inl e ↦ eq_of_same_decision d r e
  | inr e ↦ absurd (cc (rw e at h))
]

failed-failed : same_decision failed failed ≡ true
unfolding same_decision
failed-failed = refl

ne-failed : (r : Decision) → errors (some r) ≡ 0 → r ≢ failed
ne-failed r h e = absurd (omega (arith, rw (e, failed-failed) at h))

-- A gate that counted nothing: one decision for all, and not an error.
pub record Settled (ds : Dict Decision) : Type 0 where
  pub decision : Decision
  pub ne_failed : decision ≢ failed
  pub each : (k : Text) (d : Decision) → lookup k ds ≡ some d → d ≡ decision

pub Settled-gate_count : (ds : Dict Decision) → gate_count ds ≡ 0 → Settled ds
unfolding gate_count
Settled-gate_count ds h = go (lookup zopa_id ds) (ground arith) (ground arith)
  where
    go :
        (reference : Option Decision)
        → disagreeing reference ds ≡ 0
        → errors reference ≡ 0
        → Settled ds
    go none h e = record {
      decision = allow;
      ne_failed = λ p. cc;
      each = λ k d l. absurd (cc (lookup-disagreeing none ds k d h l));
    }
    go (some r) h e = record {
      decision = r;
      ne_failed = ne-failed r e;
      each = λ k d l. eq_of_differs d r (lookup-disagreeing (some r) ds k d h l);
    }

module _ (N : Numbers) (H : Host N) where
  -- The engine has a decision.
  abbrev pub Has : Dict Decision → Live N H → Type 0
  Has ds e = (d : Decision) × (lookup e.mod_.id ds ≡ some d)

  decide_all-cons :
      (e : Live N H) (es : List (Live N H)) (ds ds' : Dict Decision) (s : State N H)
      → (decide_all N H (e ∷ es) ds s).0 ≡ ok ds'
      → (d : Decision) × (t : State N H) × ((decide_all N H es (insert e.mod_.id d ds) t).0
          ≡ ok ds')
  unfolding decide_all ◌>>=◌
  decide_all-cons e es ds ds' s h =
      let (r, t) = outside N H (e.mod_.decide e.inst) s in
      let (d, _, k) = continue_ok r (λ d. decide_all N H es (insert e.mod_.id d ds)) t ds' h in
      (d, t, k)

  lookup-insert-some :
      (id k : Text) (d : Decision) (ds : Dict Decision)
      → (c : Decision) × (lookup k ds ≡ some c)
      → (c : Decision) × (lookup k (insert id d ds) ≡ some c)
  lookup-insert-some id k d ds (c, e) = elim (Bool-cases (same id k)) [
    | inl p ↦ (d, lookup-insert id k d ds ∙ rw p)
    | inr p ↦ (c, lookup-insert id k d ds ∙ rw (p, e))
  ]

  lookup-decide_all :
      (es : List (Live N H)) (ds ds' : Dict Decision) (s : State N H) (k : Text)
      → (decide_all N H es ds s).0 ≡ ok ds'
      → (d : Decision) × (lookup k ds ≡ some d)
      → (d : Decision) × (lookup k ds' ≡ some d)
  lookup-decide_all [] ds ds' s k h (d, e) =
      let p : ds ≡ ds' = unfold decide_all ◌>>=◌ in cc in (d, rw (← p) e)
  lookup-decide_all (e ∷ es) ds ds' s k h l =
      let (d, t, h') = decide_all-cons e es ds ds' s h in
      lookup-decide_all es (insert e.mod_.id d ds) ds' t k h'
        (lookup-insert-some e.mod_.id k d ds l)

  -- Every engine that was asked has a decision.
  pub decide_all-Has :
      (es : List (Live N H)) (ds ds' : Dict Decision) (s : State N H)
      → (decide_all N H es ds s).0 ≡ ok ds'
      → All (Has ds') es
  decide_all-Has [] ds ds' s h = tt
  decide_all-Has (e ∷ es) ds ds' s h =
      let (d, t, h') = decide_all-cons e es ds ds' s h in
      let entry = lookup-insert e.mod_.id e.mod_.id d ds ∙ rw same_self in
      (
        lookup-decide_all es (insert e.mod_.id d ds) ds' t e.mod_.id h' (d, entry),
        decide_all-Has es (insert e.mod_.id d ds) ds' t h',
      )
