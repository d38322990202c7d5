-- ===== src/Bench/Select/Tests.antt =====
-- Choices among three engines, of which the last is not there.
use zopa.Base.{ℕ, ◌≡◌, refl, ◌&&◌, not, Bool, Option, none, some, List, [], ◌∷◌}
use zopa.Base.Tests.{if◌then◌else◌}
use zopa.Base.Text.{Text, codes, same}
use zopa.Base.Exec.{Result, ok, threw, Exec, pure, ◌>>=◌}
use zopa.Bench.Driver.{zopa_id}
use zopa.Bench.Select.{
  includes_id, some_id, filter_ids, selected, unknown, check_known, find_live, choose,
}
use zopa.Bench.Select.Live.{filter, requested, every_known, choose-filter}

abbrev there : Text → Bool
there e = not (same e (codes "opa"))

abbrev available : Text → Exec ℕ Bool
available e w = (ok (there e), w)

abbrev all : List Text
all = codes "zopa" ∷ codes "cedar" ∷ codes "opa" ∷ []

choice : Option (List Text) → Result (Option (List Text))
unfolding choose selected unknown check_known find_live filter_ids some_id includes_id same pure
    ◌>>=◌
choice ids = (choose (λ e. e) available ids all 0).0

every_engine : choice none ≡ ok (some (codes "zopa" ∷ codes "cedar" ∷ []))
unfolding choice
every_engine = refl

without_zopa : choice (some (codes "cedar" ∷ [])) ≡ ok none
unfolding choice
without_zopa = refl

misspelt : choice (some (codes "zopa" ∷ codes "ceder" ∷ [])) ≡ threw
unfolding choice
misspelt = refl

abbrev two : Option (List Text)
two = some (codes "opa" ∷ codes "zopa" ∷ [])

choose-filter_example : (choose (λ e. e) available two all 0).0 ≡ (
    if every_known (λ e. e) available two all
    then ok (
        if some_id
          (λ e. e)
          available
          zopa_id
          (filter (λ e. e) available (λ m. requested (λ e. e) available two m && there m) all)
        then some
            (filter (λ e. e) available (λ m. requested (λ e. e) available two m && there m) all)
        else none)
    else threw)
choose-filter_example = choose-filter (λ e. e) available there (λ m w. refl) two all 0
