-- ===== src/Json/Members/Inserts.antt =====
-- The members of an object by its reference: each member is written to a dict, in the order of the
-- document, as `JSON.parse` does.
use mathlib.Core.List.{append-nil, append_assoc}
use zopa.Base.{
  ◌≡◌, refl, sym, ap, ◌∙◌, Bool, true, false, ◌||◌, inl, inr, none, List, [], ◌∷◌, ◌++◌, arith,
}
use zopa.Base.Tests.{if◌then◌else◌, Bool-cases}
use zopa.Base.Text.{Text, same, same_iff, eq_of_same}
use zopa.Base.Dict.{Dict, insert, lookup, NodupKeys, insert-NodupKeys}
use zopa.Json.Members.{Cell, kept, shadowed, survivors}

module _ {V : Type 0} where
  unfoldable pub inserts : List (Text × V) → Dict V → Dict V
  inserts [] m = m
  inserts ((k, v) ∷ l) m = inserts l (insert k v m)

  unfoldable pub bound : Text → Dict V → Bool
  bound k [] = false
  bound k ((j, v) ∷ m) = same j k || bound k m

  -- The value of the last member with the key, or v where there is none.
  unfoldable pub final : Text → V → List (Text × V) → V
  final k v [] = v
  final k v ((j, w) ∷ l) = final k (if same j k then w else v) l

  abbrev pub cell_for : Bool → Text → V → V → Cell V
  cell_for true k v w = record { key = shadowed; value = v }
  cell_for false k v w = record { key = kept k; value = w }

  -- The cells after the dedup of l, where the keys of m have been seen.
  unfoldable pub expected : Dict V → List (Text × V) → List (Cell V)
  unfolding bound final
  expected m [] = []
  expected m ((k, v) ∷ l) = cell_for (bound k m) k v (final k v l) ∷ expected (insert k v m) l

  refresh : Dict V → List (Text × V) → Dict V
  refresh [] l = []
  refresh ((k, v) ∷ m) l = (k, final k v l) ∷ refresh m l

  refresh-nil : (m : Dict V) → refresh m [] ≡ m
  unfolding refresh final
  refresh-nil [] = refl
  refresh-nil ((k, v) ∷ m) = ap (λ m'. (k, v) ∷ m') (refresh-nil m)

  refresh-append :
      (m : Dict V) (k : Text) (v : V) (l : List (Text × V))
      → refresh (m ++ (k, v) ∷ []) l ≡ refresh m l ++ (k, final k v l) ∷ []
  unfolding refresh
  refresh-append [] k v l = refl
  refresh-append ((j, w) ∷ m) k v l = ap (λ m'. (j, final j w l) ∷ m') (refresh-append m k v l)

  insert-unbound :
      (k : Text) (v : V) (m : Dict V) → bound k m ≡ false → insert k v m ≡ m ++ (k, v) ∷ []
  unfolding insert bound
  insert-unbound k v [] h = refl
  insert-unbound k v ((j, w) ∷ m) h = ground (arith, insert-unbound k v m)

  bound-lookup : (k : Text) (m : Dict V) → lookup k m ≡ none → bound k m ≡ false
  unfolding lookup bound
  bound-lookup k [] h = refl
  bound-lookup k ((j, w) ∷ m) h = ground (arith, bound-lookup k m)

  -- A key that is not in m is not refreshed.
  refresh-unbound :
      (m : Dict V) (k : Text) (v : V) (l : List (Text × V))
      → bound k m ≡ false
      → refresh m ((k, v) ∷ l) ≡ refresh m l
  unfolding refresh bound final
  refresh-unbound [] k v l h = refl
  refresh-unbound ((j, w) ∷ m) k v l h =
      ground (arith, refresh-unbound m k v l, same_iff j k, same_iff k j)

  refresh-insert :
      (m : Dict V) (k : Text) (v : V) (l : List (Text × V))
      → NodupKeys m
      → bound k m ≡ true
      → refresh (insert k v m) l ≡ refresh m ((k, v) ∷ l)
  unfolding refresh bound final insert
  refresh-insert [] k v l n h = absurd (cc)
  refresh-insert ((j, w) ∷ m) k v l (fresh, n) h = elim (Bool-cases (same j k)) [
    | inl e ↦ ground (arith, eq_of_same j k e, refresh-unbound m k v l, bound-lookup k m)
    | inr e ↦
        let b : bound k m ≡ true = rw e at h in
        ground (arith, refresh-insert m k v l n b, same_iff j k, same_iff k j)
  ]

  inserts-expected :
      (l : List (Text × V)) (m : Dict V)
      → NodupKeys m
      → inserts l m ≡ refresh m l ++ survivors (expected m l)
  unfolding inserts expected survivors
  inserts-expected [] m n = ground (arith, refresh-nil m, append-nil m)
  inserts-expected ((k, v) ∷ l) m n = elim (Bool-cases (bound k m)) [
    | inl e ↦ ground (
      arith,
      refresh-insert m k v l n e,
      inserts-expected l (insert k v m) (insert-NodupKeys k v m n),
    )
    | inr e ↦ ground (
      arith,
      insert-unbound k v m e,
      refresh-append m k v l,
      refresh-unbound m k v l e,
      inserts-expected l (insert k v m) (insert-NodupKeys k v m n),
      append_assoc (refresh m l) ((k, final k v l) ∷ []) (survivors (expected (insert k v m) l)),
    )
  ]

  pub inserts-NodupKeys : (l : List (Text × V)) (m : Dict V) → NodupKeys m → NodupKeys (inserts l m)
  unfolding inserts
  inserts-NodupKeys [] m n = n
  inserts-NodupKeys ((k, v) ∷ l) m n = inserts-NodupKeys l (insert k v m) (insert-NodupKeys k v m n)

  -- A dict is what the dedup of its members leaves.
  pub inserts-survivors : (l : List (Text × V)) → inserts l [] ≡ survivors (expected [] l)
  unfolding refresh
  inserts-survivors l = inserts-expected l [] tt

  pub inserts-one : (k : Text) (v : V) (m : Dict V) → inserts ((k, v) ∷ []) m ≡ insert k v m
  unfolding inserts
  inserts-one k v m = refl

  pub inserts-append :
      (l₁ l₂ : List (Text × V)) (m : Dict V) → inserts (l₁ ++ l₂) m ≡ inserts l₂ (inserts l₁ m)
  unfolding inserts
  inserts-append [] l₂ m = refl
  inserts-append ((k, v) ∷ l₁) l₂ m = inserts-append l₁ l₂ (insert k v m)

  not_later :
      (j k : Text) (v : V) (m l : Dict V) → lookup j (m ++ (k, v) ∷ l) ≡ none → same k j ≡ false
  unfolding lookup
  not_later j k v [] l h = ground (arith)
  not_later j k v ((i, w) ∷ m) l h = ground (arith, not_later j k v m l)

  unbound_before :
      (m : Dict V) (k : Text) (v : V) (l : Dict V) → NodupKeys (m ++ (k, v) ∷ l) → bound k m ≡ false
  unfolding bound
  unbound_before [] k v l n = refl
  unbound_before ((j, w) ∷ m) k v l (fresh, n) =
      ground
        (arith, not_later j k v m l fresh, same_iff j k, same_iff k j, unbound_before m k v l n)

  inserts-apart : (l m : Dict V) → NodupKeys (m ++ l) → inserts l m ≡ m ++ l
  unfolding inserts
  inserts-apart [] m n = sym (append-nil m)
  inserts-apart ((k, v) ∷ l) m n = rw (insert-unbound k v m (unbound_before m k v l n)) (
      inserts-apart l (m ++ (k, v) ∷ []) (rw (append_assoc m ((k, v) ∷ []) l) n)
      ∙ append_assoc m ((k, v) ∷ []) l)

  -- Members with keys of their own are a dict as they are.
  pub inserts-fresh : (m : Dict V) → NodupKeys m → inserts m [] ≡ m
  inserts-fresh m n = inserts-apart m [] n
