-- ===== src/Base/Dict.antt =====
-- A JavaScript `Map`, or an object used as one, with string keys: the entries in insertion order.
-- Writing to a key that is there keeps its place.
use mathlib.Core.Path.{◌≡◌, refl, sym, subst}
use mathlib.Core.Logic.{inl, inr}
use mathlib.Core.Option.{Option, none, some}
use mathlib.Core.List.{List, [], ◌∷◌}
use native.Mathlib.Omega.{arith}
use zopa.Base.Tests.{if◌then◌else◌, Bool-cases}
use zopa.Base.Lists.{All}
use zopa.Base.Text.{Text, same, same_iff, eq_of_same}

abbrev pub Dict {ℓ} : Type ℓ → Type ℓ
Dict V = List (Text × V)

module _ {ℓ} {V : Type ℓ} where
  -- `m.get(k)`
  unfoldable pub lookup : Text → Dict V → Option V
  lookup k [] = none
  lookup k ((j, v) ∷ m) = if same j k then some v else lookup k m

  -- `m.set(k, v)`
  unfoldable pub insert : Text → V → Dict V → Dict V
  insert k v [] = (k, v) ∷ []
  insert k v ((j, w) ∷ m) = if same j k then (j, v) ∷ m else (j, w) ∷ insert k v m

  pub lookup-insert :
      (k j : Text) (v : V) (m : Dict V)
      → lookup j (insert k v m) ≡ (if same k j then some v else lookup j m)
  unfolding lookup insert
  lookup-insert k j v [] = refl
  lookup-insert k j v ((i, w) ∷ m) =
      ground (arith, same_iff k j, same_iff i k, same_iff i j, lookup-insert k j v m)

  abbrev pub NodupKeys : Dict V → Type ℓ
  NodupKeys [] = Unit
  NodupKeys ((k, _) ∷ m) = (lookup k m ≡ none) × NodupKeys m

  pub insert-NodupKeys : (k : Text) (v : V) (m : Dict V) → NodupKeys m → NodupKeys (insert k v m)
  unfolding insert lookup
  insert-NodupKeys k v [] _ = (refl, tt)
  insert-NodupKeys k v ((j, w) ∷ m) (fresh, u) =
      ground (arith, insert-NodupKeys k v m u, lookup-insert k j v m, same_iff j k, same_iff k j)

  pub All-insert {κ} :
      (P : Text × V → Type κ) (k : Text) (v : V) (m : Dict V)
      → P (k, v)
      → All P m
      → All P (insert k v m)
  unfolding insert
  All-insert P k v [] p a = (p, a)
  All-insert P k v ((j, w) ∷ m) p (q, a) = elim (Bool-cases (same j k)) [
    | inl e ↦ rw e (subst (λ i. P (i, v)) (sym (eq_of_same j k e)) p, a)
    | inr e ↦ rw e (q, All-insert P k v m p a)
  ]

  pub lookup-All {κ} :
      (P : V → Type κ) (k : Text) (v : V) (m : Dict V)
      → All (λ (e : Text × V). P e.1) m
      → lookup k m ≡ some v
      → P v
  unfolding lookup
  lookup-All P k v [] a h = absurd (cc)
  lookup-All P k v ((j, w) ∷ m) (q, a) h = elim (Bool-cases (same j k)) [
    | inl e ↦ let r : w ≡ v = ground arith in subst P r q
    | inr e ↦ lookup-All P k v m a (rw e at h)
  ]

module _ {ℓ κ} {V : Type ℓ} {W : Type κ} where
  pub map_values : (V → W) → Dict V → Dict W
  map_values g [] = []
  map_values g ((k, v) ∷ m) = (k, g v) ∷ map_values g m

  pub map_values-nil : (g : V → W) → map_values g [] ≡ []
  unfolding map_values
  map_values-nil g = refl

  pub map_values-cons :
      (g : V → W) (k : Text) (v : V) (m : Dict V)
      → map_values g ((k, v) ∷ m) ≡ (k, g v) ∷ map_values g m
  unfolding map_values
  map_values-cons g k v m = refl

  abbrev pub map_option : (V → W) → Option V → Option W
  map_option g none = none
  map_option g (some v) = some (g v)

  pub lookup-map_values :
      (g : V → W) (k : Text) (m : Dict V) → lookup k (map_values g m) ≡ map_option g (lookup k m)
  unfolding map_values lookup
  lookup-map_values g k [] = refl
  lookup-map_values g k ((j, v) ∷ m) = ground (arith, lookup-map_values g k m)

  pub insert-map_values :
      (g : V → W) (k : Text) (v : V) (m : Dict V)
      → insert k (g v) (map_values g m) ≡ map_values g (insert k v m)
  unfolding map_values insert
  insert-map_values g k v [] = refl
  insert-map_values g k v ((j, w) ∷ m) = ground (arith, insert-map_values g k v m)
