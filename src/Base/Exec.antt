-- ===== src/Base/Exec.antt =====
-- JavaScript code that mutates a state and may throw. What was written before a throw stays
-- written. `stuck` is a loop that has not ended within its fuel: nothing after it runs, and no
-- handler either.
use mathlib.Core.Path.{◌≡◌, refl}
use zopa.Base.{Option, none, some}

pub data Result {ℓ} (A : Type ℓ) : Type ℓ where
  ok : A → Result A
  threw : Result A
  stuck : Result A

abbrev pub Exec {ℓ} : Type ℓ → Type ℓ → Type ℓ
Exec S A = S → Result A × S

module _ {ℓ} {S A : Type ℓ} where
  unfoldable pub pure : A → Exec S A
  pure a s = (ok a, s)

  unfoldable pub gets : (S → A) → Exec S A
  gets f s = (ok (f s), s)

  abbrev pub caught : Result A → S → Result (Option A) × S
  caught (ok a) s = (ok (some a), s)
  caught threw s = (ok none, s)
  caught stuck s = (stuck, s)

  -- `try { … } catch`: the value, or `none` after a throw
  unfoldable pub attempt : Exec S A → Exec S (Option A)
  attempt m s = let (r, s') = m s in caught r s'

module _ {ℓ} {S A B : Type ℓ} where
  abbrev pub continue : Result A → (A → Exec S B) → Exec S B
  continue (ok a) f s = f a s
  continue threw f s = (threw, s)
  continue stuck f s = (stuck, s)

  infixl 10 ◌>>=◌ ◌>>◌
  -- Opening this opens `pure` and `gets` too.
  unfoldable pub ◌>>=◌ : Exec S A → (A → Exec S B) → Exec S B
  unfolding pure gets
  ◌>>=◌ m f s = let (r, s') = m s in continue r f s'

  abbrev pub ◌>>◌ : Exec S A → Exec S B → Exec S B
  m >> n = m >>= λ _. n

abbrev pub settle {ℓ} : {A B : Type ℓ} → Result A → Result B → Result A
settle r (ok b) = r
settle r threw = threw
settle r stuck = stuck

module _ {ℓ} {S A B : Type ℓ} where
  abbrev pub then_run : Result A → Exec S B → S → Result A × S
  then_run stuck fin s = (stuck, s)
  then_run (ok a) fin s = let (q, s') = fin s in (settle (ok a) q, s')
  then_run threw fin s = let (q, s') = fin s in (settle threw q, s')

  -- `try { m } finally { fin }`: a throw of `fin` wins
  unfoldable pub finally : Exec S A → Exec S B → Exec S A
  finally m fin s = let (r, s') = m s in then_run r fin s'

pub ok_inj {ℓ} : {A : Type ℓ} (a b : A) → ok a ≡ ok b → a ≡ b
ok_inj a b h = cc

-- A chain that returns has returned from its first action.
pub continue_ok {ℓ} :
    {S A B : Type ℓ} (r : Result A) (f : A → Exec S B) (s : S) (b : B)
    → (continue r f s).0 ≡ ok b
    → (a : A) × (r ≡ ok a) × ((f a s).0 ≡ ok b)
continue_ok (ok a) f s b h = (a, refl, h)
continue_ok threw f s b h = absurd (cc)
continue_ok stuck f s b h = absurd (cc)
