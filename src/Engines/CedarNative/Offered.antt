-- ===== src/Engines/CedarNative/Offered.antt =====
-- bench/engines/cedar-native.mjs: `available`, with the version that it reports, and `supports`. What
-- the host says of cargo, of the binary and of the lock file is a parameter.
pub mod Entry
mod Tests
use zopa.Base.{ℕ, Bool, true, false, ◌||◌, not, Option, none, some, List, [], ◌∷◌, ◌++◌}
use zopa.Base.Tests.{◌==◌, if◌then◌else◌}
use zopa.Base.Lists.{length, drop}
use zopa.Base.Text.{Text, codes, same, starts_with}
use zopa.Bench.Select.{includes_id}

-- export const id
abbrev pub native_id : Text
native_id = codes "cedar-native"

-- The text of the regular expression before its group.
abbrev pub version_prefix : Text
version_prefix = codes "name = \"cedar-policy\"\nversion = \""

abbrev pub put_first : ℕ → Option Text → Option Text
put_first c none = none
put_first c (some v) = some (c ∷ v)

-- The text before the next quotation mark.
unfoldable pub until_quote : Text → Option Text
until_quote [] = none
until_quote (c ∷ s) = let rest = until_quote s in if 34 == c then some [] else put_first c rest

abbrev pub one_or_more : Option Text → Option Text
one_or_more none = none
one_or_more (some []) = none
one_or_more (some (c ∷ v)) = some (c ∷ v)

-- The group of a match at the start of the text.
unfoldable pub match_here : Text → Option Text
unfolding until_quote starts_with
match_here s =
    if starts_with version_prefix s
    then one_or_more (until_quote (drop (length version_prefix) s))
    else none

abbrev pub or_later : Option Text → Option Text → Option Text
or_later none later = later
or_later (some v) later = some v

-- `lock.match(…)`: the group of the first match.
unfoldable pub find_version : Text → Option Text
unfolding match_here
find_version [] = none
find_version (c ∷ s) = or_later (match_here (c ∷ s)) (find_version s)

-- What the module reads: `cargo --version`, which may throw, whether the binary exists, the lock
-- file, which may be missing, and whether the variable ZOPA_BENCH_CEDAR_NATIVE is 1.
pub record Seen : Type 0 where
  pub cargo : Option Text
  pub binary : Bool
  pub lock : Option Text
  pub variable : Bool

abbrev pub unknown_version : Text
unknown_version = codes "unknown"

abbrev pub group_or_unknown : Option Text → Text
group_or_unknown none = unknown_version
group_or_unknown (some v) = v

-- function cedarVersion
unfoldable pub cedar_version : Option Text → Text
unfolding find_version
cedar_version none = unknown_version
cedar_version (some lock) = group_or_unknown (find_version lock)

-- `opts.engines`, which may be missing
abbrev pub named : Option (List Text) → Bool
named none = false
named (some engines) = includes_id native_id engines

-- function requested
unfoldable pub requested : Option (List Text) → Seen → Bool
unfolding includes_id
requested engines s = named engines || s.variable

-- What `available` answers; `verified` carries the version and cargo's own.
pub data Answer : Type 0 where
  opt_in_only : Answer
  no_harness : Answer
  unverified : Answer
  verified : Text → Text → Answer

abbrev pub with_cargo : Option Text → Seen → Answer
with_cargo none s = if s.binary then unverified else no_harness
with_cargo (some []) s = if s.binary then unverified else no_harness
with_cargo (some (c ∷ cargo)) s = verified (cedar_version s.lock) (c ∷ cargo)

unfoldable pub available : Option (List Text) → Seen → Answer
unfolding requested cedar_version
available engines s = if requested engines s then with_cargo s.cargo s else opt_in_only

-- `typeof fixture.cedar === 'string' && fixture.cedar.length > 0`, with `none` for no string
unfoldable pub supports : Option Text → Bool
supports none = false
supports (some []) = false
supports (some (c ∷ s)) = true
