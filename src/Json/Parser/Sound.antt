-- ===== src/Json/Parser/Sound.antt =====
-- The values that the parser accepts: how deep they nest, and the keys of their objects.
use zopa.Base.{ℕ, zero, suc, ◌≡◌, refl, Bool, true, false, ◌||◌, none, List, [], ◌∷◌, ◌++◌, arith}
use zopa.Base.Tests.{◌==◌, if◌then◌else◌}
use zopa.Base.Lists.{All}
use zopa.Base.Text.{Text, same}
use zopa.Base.Dict.{Dict, lookup, insert, NodupKeys, All-insert}
use zopa.Json.Members.{add_member, add_members}
use zopa.Json.Members.Inserts.{inserts}
use zopa.Json.Values.{
  Value, nil, boolean, number, string, array, object, set, Items, no_items, item, Members,
  no_members, member, Outcome, ok, error, no_fuel, then_with, items_of, members_of,
  unexpected_token,
}
use zopa.Json.Parser.{separator}

-- What holds of a result that is no error.
abbrev pub Accepts : {A : Type 0} → (A → Type 0) → Outcome A → Type 0
Accepts P (ok a s) = P a
Accepts P (error e) = Unit
Accepts P no_fuel = Unit

module _ {A B : Type 0} where
  pub Accepts-then_with :
      (P : A → Type 0) (Q : B → Type 0) (r : Outcome A) (f : A → Text → Outcome B)
      → Accepts P r
      → ((a : A) (s : Text) → P a → Accepts Q (f a s))
      → Accepts Q (then_with r f)
  Accepts-then_with P Q (ok a s) f h g = g a s h
  Accepts-then_with P Q (error e) f h g = tt
  Accepts-then_with P Q no_fuel f h g = tt

module _ {A : Type 0} (P : A → Type 0) where
  pub Accepts-if :
      (b : Bool) (r q : Outcome A) → Accepts P r → Accepts P q → Accepts P (if b then r else q)
  Accepts-if true r q h g = h
  Accepts-if false r q h g = g

  pub any_result : (r : Outcome A) → ((a : A) → P a) → Accepts P r
  any_result (ok a s) h = h a
  any_result (error e) h = tt
  any_result no_fuel h = tt

  pub separator-Accepts :
      (close : ℕ) (s : Text) (more finish : Text → Outcome A)
      → ((t : Text) → Accepts P (more t))
      → ((t : Text) → Accepts P (finish t))
      → Accepts P (separator close s more finish)
  unfolding separator
  separator-Accepts close [] more finish f g = tt
  separator-Accepts close (c ∷ s) more finish f g =
      Accepts-if (c == b',') (more s) (if c == close then finish s else error unexpected_token)
        (f s) (Accepts-if (c == close) (finish s) (error unexpected_token) (g s) tt)

module _ {F : Type 0} where
  unfoldable pub has_key : Text → Members F → Bool
  has_key k no_members = false
  has_key k (member j v ms) = same j k || has_key k ms

  unfoldable mutual
    unfolding has_key

    -- Nested at most so deep, and each object has each key once.
    pub IsSound : ℕ → Value F → Type 0
    IsSound room nil = Unit
    IsSound room (boolean b) = Unit
    IsSound room (number f) = Unit
    IsSound room (string t) = Unit
    IsSound zero (array vs) = ⊥
    IsSound (suc room) (array vs) = AllSound room vs
    IsSound zero (object ms) = ⊥
    IsSound (suc room) (object ms) = MembersSound room ms
    IsSound zero (set vs) = ⊥
    IsSound (suc room) (set vs) = AllSound room vs

    pub AllSound : ℕ → Items F → Type 0
    AllSound room no_items = Unit
    AllSound room (item v vs) = IsSound room v × AllSound room vs

    pub MembersSound : ℕ → Members F → Type 0
    MembersSound room no_members = Unit
    MembersSound room (member k v ms) =
        (has_key k ms ≡ false) × IsSound room v × MembersSound room ms

  has_key-members_of :
      (k : Text) (m : Dict (Value F)) → lookup k m ≡ none → has_key k (members_of m) ≡ false
  unfolding has_key members_of lookup
  has_key-members_of k [] h = refl
  has_key-members_of k ((j, v) ∷ m) h = ground (arith, has_key-members_of k m)

  pub members_of-Sound :
      (room : ℕ) (m : Dict (Value F))
      → NodupKeys m
      → All (λ (e : Text × Value F). IsSound room e.1) m
      → MembersSound room (members_of m)
  unfolding MembersSound members_of
  members_of-Sound room [] n a = tt
  members_of-Sound room ((k, v) ∷ m) (fresh, n) (h, a) =
      (has_key-members_of k m fresh, h, members_of-Sound room m n a)

  pub items_of-Sound :
      (room : ℕ) (vs : List (Value F)) → All (IsSound room) vs → AllSound room (items_of vs)
  unfolding AllSound items_of
  items_of-Sound room [] a = tt
  items_of-Sound room (v ∷ vs) (h, a) = (h, items_of-Sound room vs a)

  pub inserts-Sound :
      (room : ℕ) (l m : Dict (Value F))
      → All (λ (e : Text × Value F). IsSound room e.1) l
      → All (λ (e : Text × Value F). IsSound room e.1) m
      → All (λ (e : Text × Value F). IsSound room e.1) (inserts l m)
  unfolding inserts
  inserts-Sound room [] m a b = b
  inserts-Sound room ((k, v) ∷ l) m (h, a) b =
      inserts-Sound room l (insert k v m) a
        (All-insert (λ (e : Text × Value F). IsSound room e.1) k v m h b)

  pub add_members-append :
      (l : Dict (Value F)) (k : Text) (v : Value F) (m : Dict (Value F))
      → add_members (l ++ (k, v) ∷ []) m ≡ add_member k v (add_members l m)
  unfolding add_members
  add_members-append [] k v m = refl
  add_members-append ((j, w) ∷ l) k v m = add_members-append l k v (add_member j w m)
