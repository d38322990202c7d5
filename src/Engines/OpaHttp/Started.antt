-- ===== src/Engines/OpaHttp/Started.antt =====
-- How `setup` and the clean-up of bench/engines/opa-http.mjs end.
use mathlib.Core.Path.{ap}
use zopa.Base.{ℕ, ◌≡◌, refl, ◌∙◌, List, ◌∷◌}
use zopa.Base.Text.{Text}
use zopa.Base.Exec.{Result, ok, threw, stuck, pure, Exec, caught, attempt, continue, ◌>>=◌, ◌>>◌}
use zopa.Engines.OpaHttp.{
  make_dir, Host, Event, made_dir, removed_dir, started, killed, State, M, outside, note,
  throw_error, wait_ready, Instance, start_child, random_port, discard, ready_or_discard, setup,
}
use zopa.Engines.OpaHttp.Quiet.{Quiet-wait_ready}

module _ (H : Host) where
  -- The action threw, and left the world v.
  pub data Threw {A : Type 0} (m : Exec H.World A) (v : H.World) : Type 0 where
    threw_in : (w : H.World) → m w ≡ (threw, v) → Threw m v

  threw_at : {A : Type 0} (m : Exec H.World A) (w : H.World) → (m w).0 ≡ threw → Threw m (m w).1
  threw_at m w e = threw_in w (ap (λ r. (r, (m w).1)) e)

  -- In the end the policy could not be written or the server not be started.
  pub data NotStarted (d rego : Text) (v : H.World) : Type 0 where
    not_written : Threw (H.write_rego d rego) v → NotStarted d rego v
    not_spawned : (port : ℕ) → Threw (H.spawn d port) v → NotStarted d rego v

  -- How `setup` ends for a policy, from the log l0 in the state t.
  pub data SetUp (rego : Text) (l0 : List (Event H)) (t : State H)
      : Result (Instance H) → Type 0 where
    nothing : Threw H.make_dir t.world → t.log ≡ l0 → SetUp rego l0 t threw
    dir_left :
        (d : Text) → NotStarted d rego t.world → t.log ≡ made_dir d ∷ l0 → SetUp rego l0 t threw
    kill_failed :
        (d : Text) (c : H.Child)
        → Threw (H.kill c) t.world
        → t.log ≡ killed c ∷ started c ∷ made_dir d ∷ l0
        → SetUp rego l0 t threw
    discarded :
        (d : Text) (c : H.Child)
        → t.log ≡ removed_dir d ∷ killed c ∷ started c ∷ made_dir d ∷ l0
        → SetUp rego l0 t threw
    running :
        (inst : Instance H)
        → t.log ≡ started inst.child ∷ made_dir inst.dir ∷ l0
        → SetUp rego l0 t (ok inst)
    hangs : SetUp rego l0 t stuck

  -- How `discard` ends.
  pub data Discarded (d : Text) (c : H.Child) (l0 : List (Event H)) (t : State H)
      : Result (Unit {0}) → Type 0 where
    kill_threw : Threw (H.kill c) t.world → t.log ≡ killed c ∷ l0 → Discarded d c l0 t threw
    remove_threw : t.log ≡ removed_dir d ∷ killed c ∷ l0 → Discarded d c l0 t threw
    removed : t.log ≡ removed_dir d ∷ killed c ∷ l0 → Discarded d c l0 t (ok tt)
    discard_hangs : Discarded d c l0 t stuck

  Discarded-remove :
      (d : Text) (c : H.Child) (l0 : List (Event H)) (r : Result (Unit {0})) (t : State H)
      → t.log ≡ removed_dir d ∷ killed c ∷ l0
      → Discarded d c l0 t r
  Discarded-remove d c l0 (ok tt) t h = removed h
  Discarded-remove d c l0 threw t h = remove_threw h
  Discarded-remove d c l0 stuck t h = discard_hangs

  Discarded-kill :
      (d : Text) (c : H.Child) (l0 : List (Event H)) (r : Result (Unit {0})) (s : State H)
      → (r ≡ threw → Threw (H.kill c) s.world)
      → s.log ≡ killed c ∷ l0
      → let m = continue r (λ _. note H (removed_dir d) >> outside H (H.remove_dir d)) s in
        Discarded d c l0 m.1 m.0
  unfolding note outside ◌>>=◌
  Discarded-kill d c l0 (ok _) s why h =
      Discarded-remove d c l0 (H.remove_dir d s.world).0 _ (ap (λ l. removed_dir d ∷ l) h)
  Discarded-kill d c l0 threw s why h = kill_threw (why refl) h
  Discarded-kill d c l0 stuck s why h = discard_hangs

  pub Discarded-discard :
      (d : Text) (c : H.Child) (s : State H)
      → Discarded d c s.log (discard H d c s).1 (discard H d c s).0
  unfolding discard ◌>>=◌
  Discarded-discard d c s =
      Discarded-kill d c s.log (H.kill c s.world).0
        (record { world = (H.kill c s.world).1; log = killed c ∷ s.log })
        (threw_at (H.kill c) s.world) refl

  SetUp-discarded :
      (rego d : Text) (c : H.Child) (l0 l1 : List (Event H)) (r : Result (Unit {0})) (s : State H)
      (f : Unit {0} → M H (Instance H))
      → l1 ≡ started c ∷ made_dir d ∷ l0
      → Discarded d c l1 s r
      → let m =
          continue
            (continue r (λ _. throw_error H {A = Unit {0}}) s).0
            f
            (continue r (λ _. throw_error H {A = Unit {0}}) s).1 in
        SetUp rego l0 m.1 m.0
  unfolding throw_error
  SetUp-discarded rego d c l0 l1 threw s f h (kill_threw why k) =
      kill_failed d c why (k ∙ ap (λ x. killed c ∷ x) h)
  SetUp-discarded rego d c l0 l1 threw s f h (remove_threw k) =
      discarded d c (k ∙ ap (λ x. removed_dir d ∷ killed c ∷ x) h)
  SetUp-discarded rego d c l0 l1 (ok tt) s f h (removed k) =
      discarded d c (k ∙ ap (λ x. removed_dir d ∷ killed c ∷ x) h)
  SetUp-discarded rego d c l0 l1 stuck s f h discard_hangs = hangs

  -- `setup` from the wait on, with the result of the wait.
  SetUp-waited :
      (r : Result (Unit {0})) (rego d : Text) (c : H.Child) (port : ℕ) (input : H.Doc)
      (l0 : List (Event H)) (s : State H)
      → s.log ≡ started c ∷ made_dir d ∷ l0
      → let m =
          continue {B = Instance H}
            (caught r s).0
            (λ ready.
              ready_or_discard H d c ready
              >> pure (record { dir = d; port = port; child = c; body = input }))
            (caught r s).1 in
        SetUp rego l0 m.1 m.0
  unfolding ready_or_discard ◌>>=◌ pure
  SetUp-waited (ok _) rego d c port input l0 s h = running _ h
  SetUp-waited threw rego d c port input l0 s h =
      SetUp-discarded _ d c l0 s.log (discard H d c s).0 (discard H d c s).1 _ h
        (Discarded-discard d c s)
  SetUp-waited stuck rego d c port input l0 s h = hangs

  -- `setup` from the start of the server on.
  waits : ℕ → ℕ → H.Doc → Text → H.Child → M H (Instance H)
  waits fuel port input d c = do
    ready ← attempt (wait_ready H fuel port c)
    ready_or_discard H d c ready
    pure (record { dir = d; port = port; child = c; body = input })

  SetUp-waits :
      (fuel port : ℕ) (input : H.Doc) (rego d : Text) (c : H.Child) (l0 : List (Event H))
      (s : State H)
      → s.log ≡ started c ∷ made_dir d ∷ l0
      → SetUp rego l0 (waits fuel port input d c s).1 (waits fuel port input d c s).0
  unfolding waits ◌>>=◌ attempt
  SetUp-waits fuel port input rego d c l0 s h =
      SetUp-waited (wait_ready H fuel port c s).0 rego d c port input l0
        (wait_ready H fuel port c s).1 ((Quiet-wait_ready H fuel port c).at s ∙ h)

  SetUp-spawned :
      (r : Result H.Child) (fuel port : ℕ) (input : H.Doc) (rego d : Text) (l0 : List (Event H))
      (s : State H)
      → (r ≡ threw → NotStarted d rego s.world)
      → s.log ≡ made_dir d ∷ l0
      → let q = continue r (λ c. note H (started c) >> pure c) s in
        let m = continue q.0 (waits fuel port input d) q.1 in SetUp rego l0 m.1 m.0
  unfolding note ◌>>=◌ pure
  SetUp-spawned (ok c) fuel port input rego d l0 s why h =
      SetUp-waits fuel port input rego d c l0 _ (ap (λ l. started c ∷ l) h)
  SetUp-spawned threw fuel port input rego d l0 s why h = dir_left d (why refl) h
  SetUp-spawned stuck fuel port input rego d l0 s why h = hangs

  starts : ℕ → H.Doc → Text → M H (Instance H)
  starts fuel input d = do
    port ← random_port H
    child ← start_child H d port
    waits fuel port input d child

  SetUp-written :
      (r : Result (Unit {0})) (fuel : ℕ) (input : H.Doc) (rego d : Text) (l0 : List (Event H))
      (s : State H)
      → (r ≡ threw → NotStarted d rego s.world)
      → s.log ≡ made_dir d ∷ l0
      → let m = continue r (λ _. starts fuel input d) s in SetUp rego l0 m.1 m.0
  unfolding starts random_port start_child outside ◌>>=◌
  SetUp-written (ok _) fuel input rego d l0 s why h =
      let (port, w) = H.random_port s.world in
      SetUp-spawned (H.spawn d port w).0 fuel port input rego d l0
        (record s { world = (H.spawn d port w).1 })
        (λ e. not_spawned port (threw_at (H.spawn d port) w e)) h
  SetUp-written threw fuel input rego d l0 s why h = dir_left d (why refl) h
  SetUp-written stuck fuel input rego d l0 s why h = hangs

  SetUp-made :
      (r : Result Text) (fuel : ℕ) (rego : Text) (input : H.Doc) (s : State H)
      → (r ≡ threw → Threw H.make_dir s.world)
      → let q = continue r (λ d. note H (made_dir d) >> pure d) s in
        let m = continue q.0 (λ d. outside H (H.write_rego d rego) >> starts fuel input d) q.1 in
        SetUp rego s.log m.1 m.0
  unfolding note outside ◌>>=◌ pure
  SetUp-made (ok d) fuel rego input s why =
      SetUp-written (H.write_rego d rego s.world).0 fuel input rego d s.log
        (record { world = (H.write_rego d rego s.world).1; log = made_dir d ∷ s.log })
        (λ e. not_written (threw_at (H.write_rego d rego) s.world e)) refl
  SetUp-made threw fuel rego input s why = nothing (why refl) refl
  SetUp-made stuck fuel rego input s why = hangs

  pub SetUp-setup :
      (fuel : ℕ) (rego : Text) (input : H.Doc) (s : State H)
      → SetUp rego s.log (setup H fuel rego input s).1 (setup H fuel rego input s).0
  unfolding setup make_dir outside ◌>>=◌ starts waits
  SetUp-setup fuel rego input s =
      SetUp-made (H.make_dir s.world).0 fuel rego input
        (record s { world = (H.make_dir s.world).1 }) (threw_at H.make_dir s.world)
