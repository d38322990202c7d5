-- ===== src/Engines/CedarNative/Offered/Entry.antt =====
-- The version that `available` of bench/engines/cedar-native.mjs reports stands in the lock file.
use zopa.Base.{
  ◌≡◌, ◌≢◌, refl, sym, ap, ◌∙◌, Bool, true, false, ◌⊎◌, inl, inr, Option, none, some, List, [], ◌∷◌,
  ◌++◌,
}
use zopa.Base.Tests.{◌==◌, if◌then◌else◌, Bool-cases, Option-cases, eq_of_==, and_left, and_right}
use zopa.Base.Lists.{length, drop}
use zopa.Base.Text.{Text, starts_with, has}
use zopa.Engines.CedarNative.Offered.{
  version_prefix, until_quote, one_or_more, match_here, find_version, Seen, unknown_version,
  cedar_version, requested, verified, unverified, no_harness, opt_in_only, available,
  group_or_unknown, with_cargo,
}

-- The text has the package's entry with this version: the version has no quotation mark and is not
-- empty.
pub record IsEntry (v s : Text) : Type 0 where
  pub start : Text
  pub rest : Text
  pub stands : s ≡ start ++ (version_prefix ++ (v ++ (34 ∷ rest)))
  pub not_empty : v ≢ []
  pub unquoted : has 34 v ≡ false

record IsQuoted (v s : Text) : Type 0 where
  pub rest : Text
  pub stands : s ≡ v ++ (34 ∷ rest)
  pub unquoted : has 34 v ≡ false

until_quote-IsQuoted : (s v : Text) → until_quote s ≡ some v → IsQuoted v s
unfolding until_quote has
until_quote-IsQuoted [] v h = absurd (cc)
until_quote-IsQuoted (c ∷ s) v h = elim (Bool-cases (34 == c)) [
  | inl e ↦
      let q : some [] ≡ some v = rw e at h in
      let empty : [] ≡ v = cc in
      rw (← empty)
        record { rest = s; stands = ap (λ d. d ∷ s) (sym (eq_of_== 34 c e)); unquoted = refl }
  | inr e ↦ elim (Option-cases (until_quote s)) [
    | inl k ↦ absurd (let q : none ≡ some v = rw (e, k) at h in cc)
    | inr (u, k) ↦
        let q : ◌≡◌ {A = Option Text} (some (c ∷ u)) (some v) = rw (e, k) at h in
        let longer : c ∷ u ≡ v = cc in
        let i = until_quote-IsQuoted s u k in
        rw (← longer) record {
          rest = i.rest;
          stands = ap (λ d. c ∷ d) i.stands;
          unquoted = rw (has, e) i.unquoted;
        }
  ]
]

until_quote-append : (v rest : Text) → has 34 v ≡ false → until_quote (v ++ (34 ∷ rest)) ≡ some v
unfolding until_quote has
until_quote-append [] rest h = refl
until_quote-append (c ∷ v) rest h = elim (Bool-cases (34 == c)) [
  | inl e ↦ absurd (let q : true ≡ false = rw (has, e) at h in cc)
  | inr e ↦
      let unquoted : has 34 v ≡ false = rw (has, e) at h in
      rw (e, until_quote-append v rest unquoted) refl
]

starts_with-drop : (p s : Text) → starts_with p s ≡ true → s ≡ p ++ drop (length p) s
unfolding starts_with
starts_with-drop [] s h = refl
starts_with-drop (c ∷ p) [] h = absurd (cc)
starts_with-drop (c ∷ p) (d ∷ s) h =
    let first = eq_of_== c d (and_left (c == d) (starts_with p s) h) in
    let later = starts_with-drop p s (and_right (c == d) (starts_with p s) h) in
    rw (← first) (ap (λ t. c ∷ t) later)

one_or_more-some : (o : Option Text) (v : Text) → one_or_more o ≡ some v → (o ≡ some v) × (v ≢ [])
one_or_more-some none v h = absurd (cc)
one_or_more-some (some []) v h = absurd (cc)
one_or_more-some (some (c ∷ u)) v h = (h, λ e. let q : some (c ∷ u) ≡ some [] = h ∙ ap some e in cc)

match_here-IsEntry : (s v : Text) → match_here s ≡ some v → IsEntry v s
unfolding match_here
match_here-IsEntry s v h = elim (Bool-cases (starts_with version_prefix s)) [
  | inr e ↦ absurd (let q : none ≡ some v = rw e at h in cc)
  | inl e ↦
      let (k, g) = one_or_more-some (until_quote (drop (length version_prefix) s)) v (rw e at h) in
      let i = until_quote-IsQuoted (drop (length version_prefix) s) v k in
      record {
        start = [];
        rest = i.rest;
        stands = starts_with-drop version_prefix s e ∙ ap (λ t. version_prefix ++ t) i.stands;
        not_empty = g;
        unquoted = i.unquoted;
      }
]

taken : (v : Text) → v ≢ [] → one_or_more (some v) ≡ some v
taken [] k = absurd (k refl)
taken (c ∷ v) k = refl

match_here-append :
    (v rest : Text)
    → v ≢ []
    → has 34 v ≡ false
    → match_here (version_prefix ++ (v ++ (34 ∷ rest))) ≡ some v
unfolding match_here
match_here-append v rest k h = rw (until_quote-append v rest h) (taken v k)

find_version-IsEntry : (s v : Text) → find_version s ≡ some v → IsEntry v s
unfolding find_version
find_version-IsEntry [] v h = absurd (cc)
find_version-IsEntry (c ∷ s) v h = elim (Option-cases (match_here (c ∷ s))) [
  | inl k ↦
      let i = find_version-IsEntry s v (rw k at h) in
      record {
        start = c ∷ i.start;
        rest = i.rest;
        stands = ap (λ t. c ∷ t) i.stands;
        not_empty = i.not_empty;
        unquoted = i.unquoted;
      }
  | inr (u, k) ↦
      let q : some u ≡ some v = rw k at h in
      let same_text : u ≡ v = cc in rw (← same_text) (match_here-IsEntry (c ∷ s) u k)
]

-- A text after which there is more is found too.
find_version-here : (s u : Text) → match_here s ≡ some u → s ≢ [] → find_version s ≡ some u
unfolding find_version
find_version-here [] u h k = absurd (k refl)
find_version-here (c ∷ s) u h k = rw h refl

later :
    (start s u : Text) → find_version s ≡ some u → (v : Text) × (find_version (start ++ s) ≡ some v)
unfolding find_version
later [] s u h = (u, h)
later (c ∷ start) s u h =
    let (v, k) = later start s u h in
    elim (Option-cases (match_here (c ∷ (start ++ s)))) [
      | inl e ↦ (v, rw e k)
      | inr (x, e) ↦ (x, rw e refl)
    ]

-- If the lock file has an entry of the package with a version, then a version is found, and the one
-- that is found stands in such an entry.
pub find_version-found :
    (s v : Text) → IsEntry v s → (u : Text) × (find_version s ≡ some u) × IsEntry u s
find_version-found s v i =
    let s' = version_prefix ++ (v ++ (34 ∷ i.rest)) in
    let here =
      find_version-here s' v (match_here-append v i.rest i.not_empty i.unquoted) (λ e. cc) in
    let (u, k) = later i.start s' v here in
    let found : find_version s ≡ some u = ap find_version i.stands ∙ k in
    (u, found, find_version-IsEntry s u found)

cedar_version-IsEntry :
    (o : Option Text)
    → (cedar_version o ≡ unknown_version)
      ⊎ ((lock : Text) × (o ≡ some lock) × IsEntry (cedar_version o) lock)
unfolding cedar_version
cedar_version-IsEntry none = inl refl
cedar_version-IsEntry (some lock) = elim (Option-cases (find_version lock)) [
  | inl k ↦ inl (ap group_or_unknown k)
  | inr (v, k) ↦ inr (lock, refl, rw k (find_version-IsEntry lock v k))
]

verified_parts : (v w x y : Text) → verified v x ≡ verified w y → (v ≡ w) × (x ≡ y)
verified_parts v w x y h = (cc, cc)

never : (b : Bool) (v x : Text) → ¬ ((if b then unverified else no_harness) ≡ verified v x)
never true v x h = cc
never false v x h = cc

with_cargo-verified :
    (o : Option Text) (seen : Seen) (version cargo : Text)
    → with_cargo o seen ≡ verified version cargo
    → (o ≡ some cargo) × (cedar_version seen.lock ≡ version)
with_cargo-verified none seen version cargo h = absurd (never seen.binary version cargo h)
with_cargo-verified (some []) seen version cargo h = absurd (never seen.binary version cargo h)
with_cargo-verified (some (c ∷ x)) seen version cargo h =
    let (a, b) = verified_parts _ _ _ _ h in (ap some b, a)

-- A version that `available` reports, with a version of cargo, is a claim about the lock file: the
-- engine was asked for, cargo answered, and the version is `unknown` or stands in the entry of the
-- package in the lock file.
pub available-verified :
    (engines : Option (List Text)) (seen : Seen) (version cargo : Text)
    → available engines seen ≡ verified version cargo
    → (requested engines seen ≡ true)
      × (seen.cargo ≡ some cargo)
      × ((version ≡ unknown_version)
          ⊎ ((lock : Text) × (seen.lock ≡ some lock) × IsEntry version lock))
unfolding available
available-verified engines seen version cargo h = elim (Bool-cases (requested engines seen)) [
  | inr e ↦ absurd (let q : opt_in_only ≡ verified version cargo = rw e at h in cc)
  | inl e ↦
      let (given, v) = with_cargo-verified seen.cargo seen version cargo (rw e at h) in
      (e, given, rw (← v) (cedar_version-IsEntry seen.lock))
]
