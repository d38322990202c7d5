-- ===== src/Policy/Registry.antt =====
-- src/policy.zig, the registry of the compiled policies, and the exports of src/main.zig that call
-- it. The allocator, the JSON parser, the AST builder and the evaluator are parameters over an
-- unknown world. The errors are one, `threw`: each caller turns every error into the same answer.
pub mod Installed
pub mod Room
pub mod Handles
pub mod Lasting
pub mod Stale
pub mod Leaks
mod Tests
use zopa.Base.{ℕ, zero, suc, ◌-◌, Bool, true, false, Option, none, some, List, [], ◌∷◌, ◌++◌}
use zopa.Base.Tests.{leb, if◌then◌else◌}
use zopa.Base.Integers.{ℤ, pos, negsuc}
use zopa.Base.Lists.{length}
use zopa.Base.Text.{Text, codes}
use zopa.Base.Exec.{Result, ok, threw, stuck, Exec, ◌>>=◌, ◌>>◌}
use zopa.Bench.Engine.{Decision, allow, deny, failed}
use zopa.Policy.Table.{max_slots, encode, index_of, Slot, reuse, lookup, vacate}

-- `create` says whether there is memory for an entry, `build` copies, parses and builds a policy,
-- and `grow` says whether the table of that length can take one slot more.
pub record Parts : Type 1 where
  pub World : Type 0
  pub Bundle : Type 0
  pub create : World → Bool × World
  pub build : List ℕ → World → Option Bundle × World
  pub grow : ℕ → World → Bool × World
  pub evaluate : Bundle → List ℕ → Text → Text → World → Option Bool × World

-- A call of an export from the host, with the arguments' bytes.
pub data Call : Type 0 where
  compiles : List ℕ → Call
  releases : ℤ → Call
  evaluates : ℤ → List ℕ → Text → Text → Call

module _ (P : Parts) where
  -- The registry, and the number of entries that are allocated.
  pub record State : Type 0 where
    pub world : P.World
    pub slots : List (Slot P.Bundle)
    pub entries : ℕ

  -- `gpa.create(Entry)` and the arena's `init`
  unfoldable pub create_entry : Exec State (Unit {0})
  create_entry s =
      let (b, w) = P.create s.world in
      if b
      then (ok tt, record s { world = w; entries = suc s.entries })
      else (threw, record s { world = w })

  -- `entry.arena.deinit()` and `gpa.destroy(entry)`
  abbrev pub destroy_entry : State → State
  destroy_entry s = record s { entries = s.entries - 1 }

  abbrev pub after_error : {A : Type 0} → Result A → State → Result A × State
  after_error (ok a) s = (ok a, s)
  after_error threw s = (threw, destroy_entry s)
  after_error stuck s = (stuck, s)

  -- What runs under the two `errdefer`s of `compile`
  unfoldable pub errdefer_destroy : {A : Type 0} → Exec State A → Exec State A
  errdefer_destroy m s = let (r, s') = m s in after_error r s'

  abbrev pub built : Option P.Bundle → State → Result P.Bundle × State
  built none s = (threw, s)
  built (some e) s = (ok e, s)

  unfoldable pub build_bundle : List ℕ → Exec State P.Bundle
  build_bundle bytes s = let (o, w) = P.build bytes s.world in built o (record s { world = w })

  unfoldable pub append_slot : P.Bundle → Exec State ℕ
  unfolding encode
  append_slot e s =
      let (fits, w) = P.grow (length s.slots) s.world in
      if fits
      then (
        ok (encode (length s.slots) 1),
        record s { world = w; slots = s.slots ++ record { entry = some e; generation = 1 } ∷ [] },
      )
      else (threw, record s { world = w })

  abbrev pub placed : P.Bundle → Option (ℕ × List (Slot P.Bundle)) → Exec State ℕ
  placed e (some (h, ss)) s = (ok h, record s { slots = ss })
  placed e none s = if leb max_slots (length s.slots) then (threw, s) else append_slot e s

  unfoldable pub install : P.Bundle → Exec State ℕ
  unfolding reuse append_slot
  install e s = placed e (reuse e 0 s.slots) s

  unfoldable pub compile : List ℕ → Exec State ℕ
  unfolding create_entry errdefer_destroy build_bundle install
  compile bytes = do create_entry; errdefer_destroy (build_bundle bytes >>= install)

  abbrev pub freed : ℕ → Option P.Bundle → State → Bool × State
  freed handle none s = (false, s)
  freed handle (some e) s =
      (true, record s { slots = vacate (index_of handle - 1) s.slots; entries = s.entries - 1 })

  unfoldable pub release : ℕ → State → Bool × State
  unfolding lookup vacate
  release handle s = freed handle (lookup handle s.slots) s

  abbrev pub evaluated : Option P.Bundle → List ℕ → Text → Text → State → Option Bool × State
  evaluated none input pkg rule s = (none, s)
  evaluated (some e) input pkg rule s =
      let (d, w) = P.evaluate e input pkg rule s.world in (d, record s { world = w })

  -- `evaluateAddressed`, where `none` is an error
  unfoldable pub evaluate_addressed : ℕ → List ℕ → Text → Text → State → Option Bool × State
  unfolding lookup
  evaluate_addressed handle input pkg rule s = evaluated (lookup handle s.slots) input pkg rule s

  abbrev pub handle_or_error : Result ℕ → ℤ
  handle_or_error (ok h) = pos h
  handle_or_error threw = negsuc 0
  handle_or_error stuck = negsuc 0

  -- The export `policy_compile`
  unfoldable pub policy_compile : List ℕ → State → ℤ × State
  unfolding compile
  policy_compile bytes s = let (r, s') = compile bytes s in (handle_or_error r, s')

  abbrev pub one_or_zero : Bool → ℤ
  one_or_zero true = pos 1
  one_or_zero false = pos 0

  -- The export `policy_release`
  unfoldable pub policy_release : ℤ → State → ℤ × State
  unfolding release
  policy_release (negsuc _) s = (pos 0, s)
  policy_release (pos zero) s = (pos 0, s)
  policy_release (pos (suc n)) s = let (b, s') = release (suc n) s in (one_or_zero b, s')

  abbrev pub answer : Option Bool → Decision
  answer none = failed
  answer (some true) = allow
  answer (some false) = deny

  -- The export `evaluate_compiled_addressed`
  unfoldable pub evaluate_compiled_addressed : ℤ → List ℕ → Text → Text → State → Decision × State
  unfolding evaluate_addressed
  evaluate_compiled_addressed (negsuc _) input pkg rule s = (failed, s)
  evaluate_compiled_addressed (pos zero) input pkg rule s = (failed, s)
  evaluate_compiled_addressed (pos (suc n)) input pkg rule s =
      let (d, s') = evaluate_addressed (suc n) input pkg rule s in (answer d, s')

  -- The export `evaluate_compiled`, with the default rule in the package of no name.
  abbrev pub evaluate_compiled : ℤ → List ℕ → State → Decision × State
  evaluate_compiled h input s = evaluate_compiled_addressed h input [] (codes "allow") s

  unfoldable pub step : Call → State → State
  unfolding policy_compile policy_release evaluate_compiled_addressed
  step (compiles bytes) s = (policy_compile bytes s).1
  step (releases h) s = (policy_release h s).1
  step (evaluates h input pkg rule) s = (evaluate_compiled_addressed h input pkg rule s).1

  unfoldable pub run : List Call → State → State
  unfolding step
  run [] s = s
  run (c ∷ cs) s = run cs (step c s)

  abbrev pub init : P.World → State
  init w = record { world = w; slots = []; entries = 0 }
