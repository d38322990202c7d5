-- ===== src/Json/Members/Expected.antt =====
-- The dedup of the members of an object at one position: it is dropped, or it has the value of the
-- last member with its key.
use zopa.Base.{
  ℕ, zero, suc, ◌≤◌, ◌<◌, ◌≡◌, ◌≢◌, ◌⊎◌, refl, ◌∙◌, true, false, ◌||◌, inl, inr, some, [], ◌∷◌,
  arith,
}
use zopa.Base.Tests.{if◌then◌else◌, Bool-cases}
use zopa.Base.Lists.{length, get_elem?}
use zopa.Base.Text.{Text, same, same_iff, eq_of_same}
use zopa.Base.Dict.{Dict, insert}
use zopa.Json.Members.{kept, shadowed, cells, key_at}
use zopa.Json.Members.Inserts.{bound, final, expected}

module _ {V : Type 0} where
  bound-insert :
      (k a : Text) (b : V) (s : Dict V) → bound k (insert a b s) ≡ (same a k || bound k s)
  unfolding bound insert
  bound-insert k a b [] = refl
  bound-insert k a b ((j, w) ∷ s) =
      ground (arith, bound-insert k a b s, same_iff j a, same_iff a k, same_iff j k)

  abbrev pub nth_key : Dict V → ℕ → Text
  nth_key m i = key_at (cells m) i

  -- A member before the position j has the key.
  abbrev pub Earlier : Text → ℕ → Dict V → Type 0
  Earlier k j m = (e : ℕ) × (e < j) × (nth_key m e ≡ k)

  abbrev pub NoneAfter : Text → ℕ → Dict V → Type 0
  NoneAfter k z m = (p : ℕ) → z < p → p < length m → nth_key m p ≢ k

  expected-dropped_from :
      (m : Dict V) (j : ℕ) (s : Dict V) (k : Text) (v : V)
      → get_elem? m j ≡ some (k, v)
      → (bound k s ≡ true) ⊎ Earlier k j m
      → get_elem? (expected s m) j ≡ some (record { key = shadowed; value = v })
  unfolding expected cells key_at
  expected-dropped_from [] j s k v h c = absurd (cc)
  expected-dropped_from ((a, b) ∷ m) zero s k v h (inl c) = ground arith
  expected-dropped_from ((a, b) ∷ m) zero s k v h (inr (e, l, _)) = absurd (omega arith)
  expected-dropped_from ((a, b) ∷ m) (suc j) s k v h (inl c) =
      expected-dropped_from m j (insert a b s) k v h (inl (ground (arith, bound-insert k a b s)))
  expected-dropped_from ((a, b) ∷ m) (suc j) s k v h (inr (zero, l, q)) =
      expected-dropped_from m j (insert a b s) k v h
        (inl (ground (arith, bound-insert k a b s, same_iff a k)))
  expected-dropped_from ((a, b) ∷ m) (suc j) s k v h (inr (suc e, l, q)) =
      expected-dropped_from m j (insert a b s) k v h (inr (e, omega arith, q))

  pub expected-dropped :
      (m : Dict V) (j : ℕ) (k : Text) (v : V)
      → get_elem? m j ≡ some (k, v)
      → Earlier k j m
      → get_elem? (expected [] m) j ≡ some (record { key = shadowed; value = v })
  expected-dropped m j k v h e = expected-dropped_from m j [] k v h (inr e)

  final-absent :
      (m : Dict V) (k : Text) (v : V) → ((p : ℕ) → p < length m → nth_key m p ≢ k) → final k v m ≡ v
  unfolding final cells key_at
  final-absent [] k v a = refl
  final-absent ((j, w) ∷ m) k v a = elim (Bool-cases (same j k)) [
    | inl e ↦ absurd (a 0 (omega arith) (eq_of_same j k e))
    | inr e ↦ rw e (final-absent m k v (λ p l. a (suc p) (omega arith)))
  ]

  final-last :
      (m : Dict V) (z : ℕ) (k : Text) (v w : V)
      → get_elem? m z ≡ some (k, w)
      → NoneAfter k z m
      → final k v m ≡ w
  unfolding final cells key_at
  final-last [] z k v w h a = absurd (cc)
  final-last ((j, u) ∷ m) zero k v w h a =
      final-absent m k (if same j k then u else v) (λ p l. a (suc p) (omega arith) (omega arith))
      ∙ ground (arith, same_iff j k)
  final-last ((j, u) ∷ m) (suc z) k v w h a =
      final-last m z k (if same j k then u else v) w h
        (λ p l b. a (suc p) (omega arith) (omega arith))

  expected-first_from :
      (m : Dict V) (j z : ℕ) (s : Dict V) (k : Text) (v w : V)
      → bound k s ≡ false
      → get_elem? m j ≡ some (k, v)
      → ((e : ℕ) → e < j → nth_key m e ≢ k)
      → j ≤ z
      → get_elem? m z ≡ some (k, w)
      → NoneAfter k z m
      → get_elem? (expected s m) j ≡ some (record { key = kept k; value = w })
  unfolding expected cells key_at
  expected-first_from [] j z s k v w c h f q g a = absurd (cc)
  expected-first_from ((i, u) ∷ m) zero zero s k v w c h f q g a =
      ground (arith, final-absent m i u (λ p l b. a (suc p) (omega arith) (omega arith) (b ∙ cc)))
  expected-first_from ((i, u) ∷ m) zero (suc z) s k v w c h f q g a =
      ground (
        arith,
        final-last m z i u w (cc) (λ p l b e. a (suc p) (omega arith) (omega arith) (e ∙ cc)),
      )
  expected-first_from ((i, u) ∷ m) (suc j) zero s k v w c h f q g a = absurd (omega arith)
  expected-first_from ((i, u) ∷ m) (suc j) (suc z) s k v w c h f q g a =
      expected-first_from m j z (insert i u s) k v w
        (ground (arith, f 0, bound-insert k i u s, same_iff i k)) h (λ e l. f (suc e) (omega arith))
        (omega arith) g (λ p l b. a (suc p) (omega arith) (omega arith))

  pub expected-first :
      (m : Dict V) (j z : ℕ) (k : Text) (v w : V)
      → get_elem? m j ≡ some (k, v)
      → ((e : ℕ) → e < j → nth_key m e ≢ k)
      → j ≤ z
      → get_elem? m z ≡ some (k, w)
      → NoneAfter k z m
      → get_elem? (expected [] m) j ≡ some (record { key = kept k; value = w })
  unfolding bound
  expected-first m j z k v w h f q g a = expected-first_from m j z [] k v w refl h f q g a
