-- ===== src/Json/Members/Reading.antt =====
-- The members of an object as they are read, before the sort of a wide object.
use zopa.Base.{◌≤◌, ◌≡◌, refl, ap, ◌∙◌, inl, inr, List, [], ◌∷◌, arith}
use zopa.Base.Tests.{ltb, Bool-cases}
use zopa.Base.Lists.{length, length-append}
use zopa.Base.Text.{Text}
use zopa.Base.Dict.{Dict, insert, NodupKeys, insert-NodupKeys}
use zopa.Json.Members.{object_scan_max, add_member, add_members}
use zopa.Json.Members.Inserts.{inserts, inserts-one, inserts-append, inserts-fresh}

module _ {V : Type 0} where
  -- A list of members that was not appended to blindly yet has each key once.
  abbrev pub IsScanned : Dict V → Type 0
  IsScanned m = length m ≤ object_scan_max → NodupKeys m

  add_member-IsScanned :
      (k : Text) (v : V) (m : Dict V) → IsScanned m → IsScanned (add_member k v m)
  unfolding add_member
  add_member-IsScanned k v m s = elim (Bool-cases (ltb (length m) object_scan_max)) [
    | inl e ↦ rw e (λ _. insert-NodupKeys k v m (s (ground arith)))
    | inr e ↦ rw e (λ h. absurd (ground (arith, length-append m ((k, v) ∷ []))))
  ]

  pub add_members-IsScanned :
      (l : List (Text × V)) (m : Dict V) → IsScanned m → IsScanned (add_members l m)
  unfolding add_members
  add_members-IsScanned [] m s = s
  add_members-IsScanned ((k, v) ∷ l) m s =
      add_members-IsScanned l (add_member k v m) (add_member-IsScanned k v m s)

  inserts-add_member :
      (k : Text) (v : V) (m : Dict V)
      → IsScanned m
      → inserts (add_member k v m) [] ≡ insert k v (inserts m [])
  unfolding add_member
  inserts-add_member k v m s = elim (Bool-cases (ltb (length m) object_scan_max)) [
    | inl e ↦
        let n : NodupKeys m = s (ground arith) in
        rw (e, inserts-fresh m n) (inserts-fresh (insert k v m) (insert-NodupKeys k v m n))
    | inr e ↦ rw e (inserts-append m ((k, v) ∷ []) [] ∙ inserts-one k v (inserts m []))
  ]

  pub inserts-add_members :
      (l : List (Text × V)) (m : Dict V)
      → IsScanned m
      → inserts (add_members l m) [] ≡ inserts l (inserts m [])
  unfolding add_members inserts
  inserts-add_members [] m s = refl
  inserts-add_members ((k, v) ∷ l) m s =
      inserts-add_members l (add_member k v m) (add_member-IsScanned k v m s)
      ∙ ap (inserts l) (inserts-add_member k v m s)
