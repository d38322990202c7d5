-- ===== src/Base/Text/Keys.antt =====
-- Two texts joined by a separator that the second one lacks can be taken apart again.
use Prim.Native.Nat.{ℕ}
use mathlib.Core.Path.{◌≡◌, refl}
use mathlib.Core.Bool.{true, false}
use mathlib.Core.List.{[], ◌∷◌, ◌++◌}
use native.Mathlib.Omega.{arith}
use zopa.Base.Tests.{==-self}
use zopa.Base.Text.{Text, same, has}

has-append : (c : ℕ) (f e : Text) → has c (f ++ (c ∷ e)) ≡ true
unfolding has
has-append c [] e = rw (==-self c, has)
has-append c (d ∷ f) e = ground (arith, has-append c f e)

pub join-injective :
    (c : ℕ) (f f' e e' : Text)
    → has c e ≡ false
    → has c e' ≡ false
    → f ++ (c ∷ e) ≡ f' ++ (c ∷ e')
    → (f ≡ f') × (e ≡ e')
join-injective c [] [] e e' h h' p = (refl, cc)
join-injective c [] (d ∷ f') e e' h h' p = absurd (cc (has-append c f' e'))
join-injective c (d ∷ f) [] e e' h h' p = absurd (cc (has-append c f e))
join-injective c (d ∷ f) (d' ∷ f') e e' h h' p =
    let q : f ++ (c ∷ e) ≡ f' ++ (c ∷ e') = cc in
    let (a, b) = join-injective c f f' e e' h h' q in (cc, b)

-- Joined to one text, two texts compare as they do by themselves.
pub same-append : (f e e' : Text) → same (f ++ e) (f ++ e') ≡ same e e'
unfolding same
same-append [] e e' = refl
same-append (c ∷ f) e e' = ground (arith, same-append f e e', ==-self c)
