-- ===== src/Engines/CedarNative/Offered/Tests.antt =====
-- The version of a package in a small lock file.
use zopa.Base.{◌≡◌, refl, ◌⊎◌, true, none, some, ◌++◌}
use zopa.Base.Text.{Text, codes, has, starts_with}
use zopa.Engines.CedarNative.Offered.{
  until_quote, match_here, find_version, cedar_version, Seen, unknown_version, requested, verified,
  unverified, available,
}
use zopa.Engines.CedarNative.Offered.Entry.{IsEntry, find_version-found, available-verified}

abbrev core_entry : Text
core_entry = codes "name = \"cedar-policy-core\"\nversion = \"4.0.0\"\n"

abbrev lock : Text
lock = core_entry ++ codes "name = \"cedar-policy\"\nversion = \"4.5.1\"\n"

abbrev seen : Seen
seen = record {
  cargo = some (codes "cargo 1.88");
  binary = true;
  lock = some lock;
  variable = true;
}

abbrev without_cargo : Seen
without_cargo = record seen { cargo = none }

found_version : find_version lock ≡ some (codes "4.5.1")
unfolding find_version match_here until_quote starts_with
found_version = refl

no_version : find_version core_entry ≡ none
unfolding find_version match_here until_quote starts_with
no_version = refl

not_claimed : available none without_cargo ≡ unverified
unfolding available requested
not_claimed = refl

claimed : available none seen ≡ verified (codes "4.5.1") (codes "cargo 1.88")
unfolding available requested cedar_version find_version match_here until_quote starts_with
claimed = refl

entry : IsEntry (codes "4.5.1") lock
unfolding has
entry = record {
  start = core_entry;
  rest = codes "\n";
  stands = refl;
  not_empty = λ e. cc;
  unquoted = refl;
}

find_version-found_example : (u : Text) × (find_version lock ≡ some u) × IsEntry u lock
find_version-found_example = find_version-found lock (codes "4.5.1") entry

available-verified_example :
    (requested none seen ≡ true)
    × (seen.cargo ≡ some (codes "cargo 1.88"))
    × ((codes "4.5.1" ≡ unknown_version)
        ⊎ ((text : Text) × (seen.lock ≡ some text) × IsEntry (codes "4.5.1") text))
available-verified_example =
    available-verified none seen (codes "4.5.1") (codes "cargo 1.88") claimed
