-- ===== src/Bench/Args/Accepts.antt =====
-- Which command lines `parseArgs` accepts.
use zopa.Base.{
  ◌≡◌, refl, ◌⊎◌, inl, inr, ◌↔◌, true, false, none, some, List, [], ◌∷◌, ◌++◌, arith, ap, ◌≢◌,
}
use zopa.Base.Tests.{Option-cases}
use zopa.Base.Lists.{All}
use zopa.Base.Text.{Text, codes, starts_with, same_iff}
use zopa.Bench.Args.{
  Opts, quick_flag, engines_flag, json_flag, parse_arg, unknown_flag, parse_loop, parse_args,
  defaults,
}

-- An argument that is a path or one of the three flags.
abbrev pub IsKnown : Text → Type 0
IsKnown arg =
    (starts_with (codes "--") arg ≡ false)
    ⊎ (arg ≡ quick_flag)
    ⊎ (starts_with engines_flag arg ≡ true)
    ⊎ (starts_with json_flag arg ≡ true)

parse_arg-ne-none : (arg : Text) (o : Opts) → IsKnown arg → parse_arg arg o ≢ none
unfolding parse_arg
parse_arg-ne-none arg o k h = ground (arith, same_iff arg quick_flag)

IsKnown-of_parse_arg : (arg : Text) (o o' : Opts) → parse_arg arg o ≡ some o' → IsKnown arg
unfolding parse_arg
IsKnown-of_parse_arg arg o o' h = ground (arith, same_iff arg quick_flag)

parse_arg-eq-none : (arg : Text) (o : Opts) → ¬ IsKnown arg → parse_arg arg o ≡ none
parse_arg-eq-none arg o u = elim (Option-cases (parse_arg arg o)) [
  | inl e ↦ e
  | inr (o', e) ↦ absurd (u (IsKnown-of_parse_arg arg o o' e))
]

-- The arguments begin with known ones, and the next one is `a`, which is not.
abbrev pub FirstUnknown : Text → List Text → Type 0
FirstUnknown a argv =
    (before after : List Text) × (argv ≡ before ++ (a ∷ after)) × All IsKnown before × (¬ IsKnown a)

FirstUnknown-of_loop :
    (a : Text) (argv : List Text) (o : Opts)
    → parse_loop argv o ≡ unknown_flag a
    → FirstUnknown a argv
unfolding parse_loop
FirstUnknown-of_loop a [] o h = absurd (cc)
FirstUnknown-of_loop a (arg ∷ argv) o h = elim (Option-cases (parse_arg arg o)) [
  | inl e ↦
      let p : arg ≡ a = ground arith in
      ([], argv, ap (λ x. x ∷ argv) p, tt, λ k. parse_arg-ne-none arg o (rw p k) e)
  | inr (o', e) ↦
      let (before, after, q, ks, u) = FirstUnknown-of_loop a argv o' (rw (e, parse_loop) at h) in
      (arg ∷ before, after, ap (λ xs. arg ∷ xs) q, (IsKnown-of_parse_arg arg o o' e, ks), u)
]

loop_of_FirstUnknown :
    (a : Text) (before after : List Text) (o : Opts)
    → All IsKnown before
    → ¬ IsKnown a
    → parse_loop (before ++ (a ∷ after)) o ≡ unknown_flag a
unfolding parse_loop
loop_of_FirstUnknown a [] after o _ u = rw (parse_arg-eq-none a o u, parse_loop)
loop_of_FirstUnknown a (arg ∷ before) after o (k, ks) u = elim (Option-cases (parse_arg arg o)) [
  | inl e ↦ absurd (parse_arg-ne-none arg o k e)
  | inr (o', e) ↦ rw (e, parse_loop) (loop_of_FirstUnknown a before after o' ks u)
]

parse_args_lem :
    (wasm : Text) (argv : List Text) → parse_args wasm argv ≡ parse_loop argv (defaults wasm)
unfolding parse_args
parse_args_lem wasm argv = refl

-- `parseArgs` refuses a command line exactly at its first argument that begins with `--` and is
-- none of `--quick`, `--engines=…` and `--json=…`. Every other command line is accepted.
pub parse_args-unknown_flag_iff :
    (wasm a : Text) (argv : List Text)
    → (parse_args wasm argv ≡ unknown_flag a) ↔ FirstUnknown a argv
parse_args-unknown_flag_iff wasm a argv = (
  λ h. FirstUnknown-of_loop a argv (defaults wasm) (rw parse_args_lem at h),
  λ (before, after, e, ks, u).
      rw (parse_args_lem, e) (loop_of_FirstUnknown a before after (defaults wasm) ks u),
)
