-- ===== src/Engines/OpaHttp/Cleanup.antt =====
-- The directories and processes of bench/engines/opa-http.mjs over a session.
use zopa.Base.{◌≡◌, List, ◌∷◌}
use zopa.Base.Text.{Text}
use zopa.Base.Exec.{Exec}
use zopa.Engines.OpaHttp.{Host, Event, made_dir, removed_dir, started, killed, State, Running}
use zopa.Engines.OpaHttp.Quiet.{Quiet}
use zopa.Engines.OpaHttp.Started.{Threw, NotStarted}

module _ (H : Host) where
  -- The action makes and removes nothing, and the instance keeps its directory and its server.
  record Steady {A : Type 0} (m : Exec (Running H) A) : Type 0 where
    at :
        (r : Running H)
        → ((m r).1.state.log ≡ r.state.log)
          × ((m r).1.inst.dir ≡ r.inst.dir)
          × ((m r).1.inst.child ≡ r.inst.child)

  -- The log in the end: no directory was made, since making it threw in the end; or a directory is
  -- left, without a server, since writing the policy or starting the server threw in the end; or
  -- the server was told to end, which threw in the end; or it was told to end, and then the
  -- directory was removed.
  pub data Ended (rego : Text) (l0 : List (Event H)) (t : State H) : Type 0 where
    none_made : Threw H H.make_dir t.world → t.log ≡ l0 → Ended rego l0 t
    dir_stays : (d : Text) → NotStarted H d rego t.world → t.log ≡ made_dir d ∷ l0 → Ended rego l0 t
    kill_stopped :
        (d : Text) (c : H.Child)
        → Threw H (H.kill c) t.world
        → t.log ≡ killed c ∷ started c ∷ made_dir d ∷ l0
        → Ended rego l0 t
    cleaned :
        (d : Text) (c : H.Child)
        → t.log ≡ removed_dir d ∷ killed c ∷ started c ∷ made_dir d ∷ l0
        → Ended rego l0 t
