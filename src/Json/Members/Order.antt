-- ===== src/Json/Members/Order.antt =====
-- The order that the members of a wide object are sorted by.
use zopa.Base.{ℕ, ◌<◌, ◌≡◌, ◌≢◌, refl, sym, ap, ◌∙◌, false, [], ◌∷◌, arith}
use zopa.Base.Lists.{length}
use zopa.Base.Text.{Text, same_iff}
use zopa.Base.Dict.{Dict}
use zopa.Json.Members.{Slot, cells, less, text_lt}
use zopa.Json.Members.Expected.{nth_key}

pub text_lt_antisym : (a b : Text) → text_lt a b ≡ false → text_lt b a ≡ false → a ≡ b
unfolding text_lt
text_lt_antisym [] [] h g = refl
text_lt_antisym [] (d ∷ b) h g = cc
text_lt_antisym (c ∷ a) [] h g = cc
text_lt_antisym (c ∷ a) (d ∷ b) h g = ground (arith, text_lt_antisym a b)

module _ {V : Type 0} (hash : Text → ℕ) (m : Dict V) where
  -- A slot that was made for a member.
  abbrev pub Genuine : Slot → Type 0
  Genuine s = (s.hash ≡ hash (nth_key m s.pos)) × (s.pos < length m)

  abbrev pub Before : Slot → Slot → Type 0
  Before a b = (less (cells m) b a ≡ false) × (a.pos ≢ b.pos)

  pub Before-pos :
      (a b : Slot)
      → Genuine a
      → Genuine b
      → Before a b
      → nth_key m b.pos ≡ nth_key m a.pos
      → a.pos < b.pos
  unfolding less
  Before-pos a b g h (l, d) e =
      let q : b.hash ≡ a.hash = h.0 ∙ ap hash e ∙ sym g.0 in
      ground (arith, same_iff (nth_key m b.pos) (nth_key m a.pos))

  pub Before-between :
      (a x b : Slot)
      → Genuine a
      → Genuine x
      → Genuine b
      → Before a x
      → Before x b
      → nth_key m b.pos ≡ nth_key m a.pos
      → nth_key m x.pos ≡ nth_key m a.pos
  unfolding less
  Before-between a x b g i h (l, _) (k, _) e =
      let q : b.hash ≡ a.hash = h.0 ∙ ap hash e ∙ sym g.0 in
      ground (
        arith,
        same_iff (nth_key m x.pos) (nth_key m a.pos),
        same_iff (nth_key m b.pos) (nth_key m x.pos),
        text_lt_antisym (nth_key m x.pos) (nth_key m a.pos),
      )
