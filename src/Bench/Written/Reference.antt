-- ===== src/Bench/Written/Reference.antt =====
-- bench/compare.mjs on the file that bench/run.mjs has written.
use zopa.Base.{
  ◌≡◌, refl, sym, ap, ◌∙◌, ◌↔◌, Bool, true, false, ◌||◌, inl, inr, Option, none, some, List, [],
  ◌∷◌, ◌++◌, arith,
}
use zopa.Base.Tests.{Bool-cases, Option-cases}
use zopa.Base.Dict.{Dict}
use zopa.Base.Text.{Text, same, same_iff}
use zopa.Base.Number.{Numbers}
use zopa.Bench.Engine.{Host}
use zopa.Bench.Measure.{ResultRow}
use zopa.Bench.Written.{set_add, collect, engine_ids, written_run}
use zopa.Compare.{
  Baseline, no_reference, reference, includes, Tally, ratios, seed, verdict, compare_loop,
  threshold_of, compare_main, branch, threw, no_lines,
}

or_false : (b : Bool) → b ≡ (b || false)
or_false true = refl
or_false false = refl

or_assoc : (a b c : Bool) → ((a || b) || c) ≡ (a || (b || c))
or_assoc true b c = refl
or_assoc false b c = refl

includes-append :
    (id : Text) (xs : List Text) (y : Text)
    → includes id (xs ++ y ∷ []) ≡ (includes id xs || same y id)
unfolding includes
includes-append id [] y = ground arith
includes-append id (x ∷ xs) y = ground (arith, includes-append id xs y)

there :
    (id j : Text) (ids : List Text)
    → includes id ids ≡ true
    → includes j ids ≡ (includes j ids || same id j)
there id j ids e = elim (Bool-cases (same id j)) [
  | inl k ↦ let q : id ≡ j = (same_iff id j).0 k in rw (k, ← q, e) refl
  | inr k ↦ rw k (or_false (includes j ids))
]

includes-set_add :
    (id j : Text) (ids : List Text) → includes j (set_add id ids) ≡ (includes j ids || same id j)
unfolding set_add
includes-set_add id j ids = elim (Bool-cases (includes id ids)) [
  | inl e ↦ rw e (there id j ids e)
  | inr e ↦ rw e (includes-append j ids id)
]

module _ (N : Numbers) (H : Host N) where
  -- Some row is one of the engine.
  unfoldable pub has_row : Text → List (ResultRow N H) → Bool
  has_row id [] = false
  has_row id (r ∷ rs) = same r.engine id || has_row id rs

  includes-collect :
      (id : Text) (rs : List (ResultRow N H)) (ids : List Text)
      → includes id (collect N H rs ids) ≡ (includes id ids || has_row id rs)
  unfolding collect has_row
  includes-collect id [] ids = or_false (includes id ids)
  includes-collect id (r ∷ rs) ids =
      includes-collect id rs (set_add r.engine ids)
      ∙ ap (λ b. b || has_row id rs) (includes-set_add r.engine id ids)
      ∙ or_assoc (includes id ids) (same r.engine id) (has_row id rs)

  -- The comparison of a run fails for want of the reference engine only before anything is compared.
  seed-other : (m : Dict N.Num) → seed N m ≡ no_reference → ⊥
  unfolding seed
  seed-other [] h = cc
  seed-other (e ∷ m) h = cc

  verdict-other : (t : Option (Tally N)) → verdict N t ≡ no_reference → ⊥
  unfolding verdict
  verdict-other none h = cc
  verdict-other (some t) h = ground arith

  has_row_start :
      (id : Text) (rs : List (ResultRow N H)) → includes id (engine_ids N H rs) ≡ has_row id rs
  unfolding engine_ids includes
  has_row_start id rs = includes-collect id rs []

  branch-other : (m : Dict N.Num) (b : Option (Baseline N)) → branch N m b ≡ no_reference → ⊥
  branch-other m none h = seed-other m h
  branch-other m (some b) h = elim (Option-cases b.ratios) [
    | inl e ↦ absurd (let q : threw ≡ no_reference = rw e at h in cc)
    | inr (es, e) ↦
        verdict-other (compare_loop N (threshold_of N b.threshold) m es (no_lines N)) (rw e at h)
  ]

  -- bench/compare.mjs refuses the document for want of the reference engine exactly where no row of
  -- that engine was reported.
  pub compare_main-written_run :
      (rs : List (ResultRow N H)) (b : Option (Baseline N))
      → (compare_main N (written_run N H rs) b ≡ no_reference) ↔ (has_row reference rs ≡ false)
  unfolding compare_main written_run
  compare_main-written_run rs b =
      let e = has_row_start reference rs in
      elim (Bool-cases (has_row reference rs)) [
        | inl k ↦
            let there : includes reference (engine_ids N H rs) ≡ true = e ∙ k in
            (
              λ h. absurd (branch-other (ratios N (written_run N H rs)) b (rw there at h)),
              λ h. absurd (let q : true ≡ false = sym k ∙ h in cc),
            )
        | inr k ↦
            let missing : includes reference (engine_ids N H rs) ≡ false = e ∙ k in
            (λ h. k, λ h. rw missing refl)
      ]
