-- ===== src/Compare/Rounds.antt =====
-- The comparison loop of bench/compare.mjs, over the entries of a baseline.
use zopa.Base.{◌≤◌, ◌<◌, ◌≡◌, refl, inl, inr, false, Option, some}
use zopa.Base.{List, [], ◌∷◌, arith}
use zopa.Base.Tests.{Option-cases, Bool-cases}
use zopa.Base.Lists.{In}
use zopa.Base.Text.{Text}
use zopa.Base.Dict.{Dict, lookup}
use zopa.Base.Number.{Numbers, JsValue, number, other}
use zopa.Compare.{Tally, tally_row, finds_member, compare_loop}

module _ (N : Numbers) where
  -- What a baseline asks of the current ratios. An entry that the run lacks asks only not to be
  -- named like a member of `Object.prototype`.
  pub record Holds (threshold : N.Num) (current : Dict N.Num) (es : List (Text × JsValue N.Num))
      : Type 0 where
    pub numbers : (k : Text) (v : JsValue N.Num) → In (k, v) es → (w : N.Num) × (v ≡ number w)
    pub no_member :
        (k : Text) (was : N.Num) → In (k, number was) es → finds_member k (lookup k current) ≡ false
    pub within :
        (k : Text) (was now : N.Num)
        → In (k, number was) es
        → lookup k current ≡ some now
        → N.lt threshold (N.div was now) ≡ false

  -- Some entry of the baseline is in the run.
  abbrev pub Overlap : Dict N.Num → List (Text × JsValue N.Num) → Type 0
  Overlap current es =
      (k : Text) × (was : N.Num) × (now : N.Num) × (In (k, number was) es)
      × (lookup k current ≡ some now)

  module _ (threshold : N.Num) (current : Dict N.Num) where
    abbrev loop : List (Text × JsValue N.Num) → Tally N → Option (Tally N)
    loop = compare_loop N threshold current

    abbrev step : Text → N.Num → Tally N → Tally N
    step key was t = tally_row N threshold key was (lookup key current) t

    step-failures :
        (key : Text) (was : N.Num) (t : Tally N) → t.failures ≤ (step key was t).failures
    unfolding tally_row
    step-failures key was t = ground arith

    step-compared :
        (key : Text) (was : N.Num) (t : Tally N)
        → t.compared_count ≤ (step key was t).compared_count
    unfolding tally_row
    step-compared key was t = ground arith

    loop-rest :
        (key : Text) (was : N.Num) (es : List (Text × JsValue N.Num)) (t t' : Tally N)
        → loop ((key, number was) ∷ es) t ≡ some t'
        → (finds_member key (lookup key current) ≡ false) × (loop es (step key was t) ≡ some t')
    unfolding compare_loop
    loop-rest key was es t t' h = elim (Bool-cases (finds_member key (lookup key current))) [
      | inl e ↦ absurd (cc (rw e at h))
      | inr e ↦ (e, rw e at h)
    ]

    -- The counts only grow.
    loop-le :
        (es : List (Text × JsValue N.Num)) (t t' : Tally N)
        → loop es t ≡ some t'
        → (t.failures ≤ t'.failures) × (t.compared_count ≤ t'.compared_count)
    unfolding compare_loop
    loop-le [] t t' h = ground arith
    loop-le ((key, other) ∷ es) t t' h = cc
    loop-le ((key, number was) ∷ es) t t' h = ground (
      arith,
      loop-le es (step key was t) t' (loop-rest key was es t t' h).1,
      step-failures key was t,
      step-compared key was t,
    )

    pub loop-numbers :
        (es : List (Text × JsValue N.Num)) (t t' : Tally N)
        → loop es t ≡ some t'
        → (k : Text) (v : JsValue N.Num) → In (k, v) es
        → (w : N.Num) × (v ≡ number w)
    unfolding compare_loop
    loop-numbers [] t t' h k v m = absurd m
    loop-numbers ((key, other) ∷ es) t t' h k v m = absurd (cc)
    loop-numbers ((key, number was) ∷ es) t t' h k v (inl e) = (was, cc)
    loop-numbers ((key, number was) ∷ es) t t' h k v (inr m) =
        loop-numbers es (step key was t) t' (loop-rest key was es t t' h).1 k v m

    pub loop-total :
        (es : List (Text × JsValue N.Num)) (t : Tally N)
        → ((k : Text) (v : JsValue N.Num) → In (k, v) es → (w : N.Num) × (v ≡ number w))
        → ((k : Text) (was : N.Num)
            → In (k, number was) es
            → finds_member k (lookup k current) ≡ false)
        → (t' : Tally N) × (loop es t ≡ some t')
    unfolding compare_loop
    loop-total [] t h g = (t, refl)
    loop-total ((key, other) ∷ es) t h g = absurd (cc ((h key other (inl refl)).1))
    loop-total ((key, number was) ∷ es) t h g =
        rw (g key was (inl refl))
          (loop-total es (step key was t) (λ k v m. h k v (inr m)) (λ k w m. g k w (inr m)))

    pub loop-no_member :
        (es : List (Text × JsValue N.Num)) (t t' : Tally N)
        → loop es t ≡ some t'
        → (k : Text) (was : N.Num) → In (k, number was) es
        → finds_member k (lookup k current) ≡ false
    unfolding compare_loop
    loop-no_member [] t t' h k w m = absurd m
    loop-no_member ((key, other) ∷ es) t t' h k w m = absurd (cc)
    loop-no_member ((key, number was) ∷ es) t t' h k w (inl p) =
        let q : key ≡ k = ground arith in rw (← q) ((loop-rest key was es t t' h).0)
    loop-no_member ((key, number was) ∷ es) t t' h k w (inr m) =
        loop-no_member es (step key was t) t' (loop-rest key was es t t' h).1 k w m

    step-within :
        (key : Text) (was now : N.Num) (t : Tally N)
        → lookup key current ≡ some now
        → (step key was t).failures ≡ 0
        → N.lt threshold (N.div was now) ≡ false
    unfolding tally_row
    step-within key was now t e h = ground arith

    pub loop-within :
        (es : List (Text × JsValue N.Num)) (t t' : Tally N)
        → loop es t ≡ some t'
        → t'.failures ≡ 0
        → (k : Text) (was now : N.Num) → In (k, number was) es
        → lookup k current ≡ some now
        → N.lt threshold (N.div was now) ≡ false
    unfolding compare_loop
    loop-within [] t t' h z k was now m e = absurd m
    loop-within ((key, other) ∷ es) t t' h z k was now m e = absurd (cc)
    loop-within ((key, number w) ∷ es) t t' h z k was now (inl p) e =
        let q : (key ≡ k) × (w ≡ was) = ground arith in
        ground (
          arith,
          step-within key w now t (rw q.0 e),
          (loop-le es (step key w t) t' (loop-rest key w es t t' h).1).0,
        )
    loop-within ((key, number w) ∷ es) t t' h z k was now (inr m) e =
        loop-within es (step key w t) t' (loop-rest key w es t t' h).1 z k was now m e

    pub loop-kept :
        (es : List (Text × JsValue N.Num)) (t t' : Tally N)
        → loop es t ≡ some t'
        → t.failures ≡ 0
        → ((k : Text) (was now : N.Num)
            → In (k, number was) es
            → lookup k current ≡ some now
            → N.lt threshold (N.div was now) ≡ false)
        → t'.failures ≡ 0
    unfolding compare_loop
    loop-kept [] t t' h z p = ground arith
    loop-kept ((key, other) ∷ es) t t' h z p = absurd (cc)
    loop-kept ((key, number w) ∷ es) t t' h z p =
        loop-kept es (step key w t) t' (loop-rest key w es t t' h).1 kept
          (λ k was now m. p k was now (inr m))
      where
        kept : (step key w t).failures ≡ 0
        kept = elim (Option-cases (lookup key current)) [
          | inl e ↦ unfold tally_row in rw (e, tally_row) z
          | inr (now, e) ↦ unfold tally_row in rw (e, p key w now (inl refl) e, tally_row) z
        ]

    pub loop-compared :
        (es : List (Text × JsValue N.Num)) (t t' : Tally N)
        → loop es t ≡ some t'
        → Overlap current es
        → 0 < t'.compared_count
    unfolding compare_loop
    loop-compared [] t t' h o = absurd (o.3)
    loop-compared ((key, other) ∷ es) t t' h o = absurd (cc)
    loop-compared ((key, number w) ∷ es) t t' h (k, was, now, inl p, e) =
        let q : key ≡ k = ground arith in
        let c : lookup key current ≡ some now = rw q e in
        ground (arith, (loop-le es (step key w t) t' (loop-rest key w es t t' h).1).1, counted c)
      where
        counted : lookup key current ≡ some now → 0 < (step key w t).compared_count
        counted c = unfold tally_row in rw (c, tally_row) (omega arith)
    loop-compared ((key, number w) ∷ es) t t' h (k, was, now, inr m, e) =
        loop-compared es (step key w t) t' (loop-rest key w es t t' h).1 (k, was, now, m, e)

    pub loop-Overlap :
        (es : List (Text × JsValue N.Num)) (t t' : Tally N)
        → loop es t ≡ some t'
        → t.compared_count < t'.compared_count
        → Overlap current es
    unfolding compare_loop
    loop-Overlap [] t t' h l = absurd (ground arith)
    loop-Overlap ((key, other) ∷ es) t t' h l = absurd (cc)
    loop-Overlap ((key, number w) ∷ es) t t' h l = elim (Option-cases (lookup key current)) [
      | inr (now, e) ↦ (key, w, now, inl refl, e)
      | inl e ↦
          let same_count : (step key w t).compared_count ≡ t.compared_count =
            unfold tally_row in rw (e, tally_row) in
          let (k, was, now, m, f) =
            loop-Overlap es (step key w t) t' (loop-rest key w es t t' h).1 (omega arith) in
          (k, was, now, inr m, f)
    ]
