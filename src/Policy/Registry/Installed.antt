-- ===== src/Policy/Registry/Installed.antt =====
-- What `install` and `compile` of src/policy.zig do, on each of their branches.
use zopa.Base.{
  ℕ, suc, ◌≤◌, ◌<◌, ◌≡◌, refl, ap, ◌∙◌, true, ◌⊎◌, inl, inr, none, some, List, [], ◌∷◌, ◌++◌, arith,
}
use zopa.Base.Tests.{leb, Bool-cases, Option-cases}
use zopa.Base.Lists.{length, length-append}
use zopa.Base.Exec.{Result, ok, threw, ◌>>=◌}
use zopa.Policy.Table.{max_slots, encode, Slot, resolve, reuse, is_reusable, filled, live_count}
use zopa.Policy.Table.Handles.{
  get_elem?-range, get_elem?-append_other, get_elem?-past, get_elem?-append_last, live_count-append,
}
use zopa.Policy.Table.Reuse.{IsReused, reuse-IsReused}
use zopa.Policy.Table.Changed.{IsFilled}
use zopa.Policy.Registry.{
  Parts, State, create_entry, errdefer_destroy, build_bundle, append_slot, install, compile,
}

module _ {E : Type 0} where
  abbrev pub Fits : List (Slot E) → Type 0
  Fits ss = length ss ≤ 65_535

  pub record IsInstalled (e : E) (ss : List (Slot E)) (h : ℕ) (ts : List (Slot E)) : Type 0 where
    pub filled : IsFilled e ss h ts
    pub fits : Fits ts
    pub live : live_count ts ≡ suc (live_count ss)

  empty_resolves : (s : Slot E) (g : ℕ) → is_reusable s ≡ true → resolve g (some s) ≡ none
  unfolding is_reusable
  empty_resolves s g r = ground arith

  not_last : (s : Slot E) → is_reusable s ≡ true → s.generation < 32_767
  unfolding is_reusable
  not_last s r = ground arith

  IsReused-IsInstalled :
      (e : E) (ss : List (Slot E)) (h : ℕ) (ts : List (Slot E))
      → Fits ss
      → IsReused e 0 ss h ts
      → IsInstalled e ss h ts
  IsReused-IsInstalled e ss h ts f r = record {
    filled = record {
      place = r.place;
      was = some r.slot;
      empty = λ g. empty_resolves r.slot g r.reusable;
      in_table = omega (arith, get_elem?-range ss r.place r.slot r.was);
      not_last = not_last r.slot r.reusable;
      handle = r.handle ∙ ap (λ j. encode j (suc r.slot.generation)) (omega arith);
      changed = record { before = r.was; after = unfold filled in r.is; others = r.others };
    };
    fits = omega (arith, r.same_length);
    live = r.live;
  }

  IsInstalled-append :
      (e : E) (ss : List (Slot E))
      → length ss < 65_535
      → IsInstalled e ss
          (encode (length ss) 1)
          (ss ++ record { entry = some e; generation = 1 } ∷ [])
  IsInstalled-append e ss f = record {
    filled = record {
      place = length ss;
      was = none;
      empty = λ g. refl;
      in_table = f;
      not_last = omega arith;
      handle = refl;
      changed = record {
        before = get_elem?-past ss (length ss) (omega arith);
        after = get_elem?-append_last ss _;
        others = get_elem?-append_other ss _;
      };
    };
    fits = omega (arith, length-append ss (record { entry = some e; generation = 1 } ∷ []));
    live =
        unfold live_count in
        omega (arith, live_count-append ss (record { entry = some e; generation = 1 } ∷ []));
  }

module _ (P : Parts) where
  -- The call failed: the table is the old one, and no entry is left behind.
  pub record Refused (s s' : State P) : Type 0 where
    pub same_slots : s'.slots ≡ s.slots
    pub same_entries : s'.entries ≡ s.entries

  -- The call gave the handle h for an entry e that the parts have built.
  pub record Compiled (bytes : List ℕ) (s : State P) (h : ℕ) (s' : State P) : Type 0 where
    pub bundle : P.Bundle
    pub builds : (P.build bytes (P.create s.world).1).0 ≡ some bundle
    pub installed : IsInstalled bundle s.slots h s'.slots
    pub entries : s'.entries ≡ suc s.entries

  record Installs (e : P.Bundle) (s : State P) (h : ℕ) (s' : State P) : Type 0 where
    pub installed : IsInstalled e s.slots h s'.slots
    pub same_entries : s'.entries ≡ s.entries

  -- The two ways in which a call of the registry ends.
  abbrev pub Ends : (State P → Result ℕ × State P) → (ℕ → State P → Type 0) → State P → Type 0
  Ends m Good s =
      ((h : ℕ) × (s' : State P) × (m s ≡ (ok h, s')) × Good h s')
      ⊎ ((s' : State P) × (m s ≡ (threw, s')) × Refused s s')

  append-Ends :
      (e : P.Bundle) (s : State P)
      → length s.slots < 65_535
      → Ends (append_slot P e) (Installs e s) s
  unfolding append_slot
  append-Ends e s f =
      let (fits, w) = P.grow (length s.slots) s.world in
      elim (Bool-cases fits) [
        | inl k ↦ rw k (
            inl (
              _,
              _,
              refl,
              record { installed = IsInstalled-append e s.slots f; same_entries = refl },
            ))
        | inr k ↦ rw k (inr (_, refl, record { same_slots = refl; same_entries = refl }))
      ]

  install-Ends : (e : P.Bundle) (s : State P) → Fits s.slots → Ends (install P e) (Installs e s) s
  unfolding install
  install-Ends e s f = elim (Option-cases (reuse e 0 s.slots)) [
    | inl k ↦ elim (Bool-cases (leb max_slots (length s.slots))) [
      | inl l ↦ rw (k, l) (inr (s, refl, record { same_slots = refl; same_entries = refl }))
      | inr l ↦ rw (k, l) (append-Ends e s (ground arith))
    ]
    | inr ((h, ts), k) ↦ rw k (
        inl (
          h,
          _,
          refl,
          record {
            installed = IsReused-IsInstalled e s.slots h ts f (reuse-IsReused e 0 s.slots h ts k);
            same_entries = refl;
          },
        ))
  ]

  abbrev built_world : List ℕ → State P → P.World
  built_world bytes s = (P.build bytes (P.create s.world).1).1

  -- The state in which `install` is called.
  abbrev with_entry : List ℕ → State P → State P
  with_entry bytes s = record s { world = built_world bytes s; entries = suc s.entries }

  pub compile-Ends :
      (bytes : List ℕ) (s : State P) → Fits s.slots → Ends (compile P bytes) (Compiled bytes s) s
  unfolding compile create_entry errdefer_destroy build_bundle ◌>>=◌ install
  compile-Ends bytes s f = elim (Bool-cases (P.create s.world).0) [
    | inr k ↦ rw k (inr (_, refl, record { same_slots = refl; same_entries = refl }))
    | inl k ↦ elim (Option-cases (P.build bytes (P.create s.world).1).0) [
      | inl l ↦ rw (k, l) (inr (_, refl, record { same_slots = refl; same_entries = omega arith }))
      | inr (e, l) ↦ elim (install-Ends e (with_entry bytes s) f) [
        | inl (h, s', g, i) ↦
            rw (k, l, g)
              (inl (
                h,
                s',
                refl,
                record {
                  bundle = e;
                  builds = l;
                  installed = i.installed;
                  entries = i.same_entries;
                },
              ))
        | inr (s', g, r) ↦
            rw (k, l, g)
              (inr (
                _,
                refl,
                record { same_slots = r.same_slots; same_entries = omega (arith, r.same_entries) },
              ))
      ]
    ]
  ]
