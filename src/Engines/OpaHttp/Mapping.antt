-- ===== src/Engines/OpaHttp/Mapping.antt =====
-- The decisions of bench/engines/opa-http.mjs.
use zopa.Base.{◌≡◌, refl, Option, List, [], ◌∷◌, ℕ}
use zopa.Base.Exec.{ok, pure, ◌>>=◌}
use zopa.Engines.Decisions.{latest, decisions}
use zopa.Engines.OpaHttp.{
  Host, Value, body, outside, Running, on_host, set_body, post_body, read_response, decision_of,
  decide, decide_each,
}

module _ (H : Host) (value : H.Doc → Option Value) where
  -- The server answers each input with its value, whatever was asked before.
  abbrev pub Serves : ℕ → Type 0
  Serves port = (d : H.Doc) (w : H.World) → (H.post port d w).0 ≡ ok (body (value d))

  -- The instance after `decide`.
  next_running : Option H.Doc → Running H → Running H
  next_running d r =
      let asked = latest d r.inst.body in
      record {
        state = record r.state { world = (H.post r.inst.port asked r.state.world).1 };
        inst = record r.inst { body = asked };
      }

  decide-Serves :
      (d : Option H.Doc) (r : Running H)
      → Serves r.inst.port
      → decide H d r ≡ (ok (decision_of H (value (latest d r.inst.body))), next_running d r)
  unfolding decide set_body on_host post_body outside read_response next_running ◌>>=◌ pure
  decide-Serves d r s = rw (s (latest d r.inst.body) r.state.world) refl

  -- While the server answers each input with its value, an instance decides by the value of the
  -- latest input, call after call.
  pub decide_each-decisions :
      (ds : List (Option H.Doc)) (r : Running H)
      → Serves r.inst.port
      → (decide_each H ds r).0 ≡ ok (decisions (λ d. decision_of H (value d)) r.inst.body ds)
  unfolding decide_each decisions pure ◌>>=◌ next_running
  decide_each-decisions [] r s = refl
  decide_each-decisions (d ∷ ds) r s =
      rw (decide-Serves d r s, decide_each-decisions ds (next_running d r) s) refl
