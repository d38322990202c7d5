-- ===== src/Engines/Decisions.antt =====
-- What an engine of bench/engines with `decide(nextInput)` is to answer, call after call.
use zopa.Base.{ℕ, ◌≡◌, ◌⊎◌, Option, none, some, List, [], ◌∷◌}
use zopa.Bench.Engine.{Decision, failed}

-- The exports answer as expected, or with -1: memory may run out.
abbrev pub IsAnswer : Decision → Decision → Type 0
IsAnswer e r = (r ≡ e) ⊎ (r ≡ failed)

abbrev pub AreAnswers : List Decision → List Decision → Type 0
AreAnswers [] [] = Unit
AreAnswers (e ∷ es) (r ∷ rs) = IsAnswer e r × AreAnswers es rs
AreAnswers _ _ = ⊥

module _ {Doc : Type 0} where
  -- The input that an instance has after `decide(nextInput)`.
  abbrev pub latest : Option Doc → Doc → Doc
  latest none i = i
  latest (some d) i = d

  -- Each decision is that of the policy's text and the text of the latest input.
  unfoldable pub expected :
      (Doc → List ℕ) → (List ℕ → List ℕ → Decision) → Doc → Doc → List (Option Doc) → List Decision
  expected encode decision a i [] = []
  expected encode decision a i (d ∷ ds) =
      decision (encode (latest d i)) (encode a) ∷ expected encode decision a (latest d i) ds

  -- The same, where a document is not read as bytes.
  unfoldable pub decisions : (Doc → Decision) → Doc → List (Option Doc) → List Decision
  decisions decision i [] = []
  decisions decision i (d ∷ ds) = decision (latest d i) ∷ decisions decision (latest d i) ds
