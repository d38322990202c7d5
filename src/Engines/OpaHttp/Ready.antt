-- ===== src/Engines/OpaHttp/Ready.antt =====
-- The wait of bench/engines/opa-http.mjs for its server.
use zopa.Base.{
  ℕ, zero, suc, ◌+◌, ◌≤◌, ◌<◌, ◌≡◌, refl, ◌≢◌, Bool, true, false, Option, none, some, inl, inr,
  arith,
}
use zopa.Base.Tests.{ltb, if◌then◌else◌, Bool-cases}
use zopa.Base.Integers.{ℤ}
use zopa.Base.Exec.{Result, ok, threw, stuck, pure, caught, attempt, continue, ◌>>=◌, ◌>>◌}
use zopa.Engines.OpaHttp.{
  Host, State, ready_timeout_ms, now, sleep, is_ready, probe_unless, round, wait_until, wait_ready,
}

module _ (H : Host) where
  -- `time` is the time at which a world stands. The clock's reading lies between the world's time
  -- before and after; a health check ends, and time does not run back over it; a sleep takes time.
  pub record Timed (time : H.World → ℕ) : Type 0 where
    pub not_before : (w : H.World) → time w ≤ (H.now w).0
    pub not_after : (w : H.World) → (H.now w).0 ≤ time (H.now w).1
    pub health_ends : (port : ℕ) (w : H.World) → (H.health port w).0 ≢ stuck
    pub health_forward : (port : ℕ) (w : H.World) → time w ≤ time (H.health port w).1
    pub sleep_takes : (ms : ℕ) (w : H.World) → 0 < ms → time w < time (H.sleep ms w)

  -- How a wait ends: it throws, or the last thing that happened is a health check that was ok.
  pub data Waited (port : ℕ) : Result (Unit {0}) × State H → Type 0 where
    gave_up : (s : State H) → Waited port (threw, s)
    healthy :
        (s : State H)
        → (H.health port s.world).0 ≡ ok true
        → Waited port (ok tt, record s { world = (H.health port s.world).1 })

  module _ (time : H.World → ℕ) (timed : Timed time) where
    -- What follows a health check.
    Waited-checked :
        (r : Result Bool) (port : ℕ) (s : State H) (again : State H → Result (Unit {0}) × State H)
        → (H.health port s.world).0 ≡ r
        → r ≢ stuck
        → Waited port (again (record s { world = H.sleep 25 (H.health port s.world).1 }))
        → Waited port (
            continue
              (continue
                (caught r (record s { world = (H.health port s.world).1 })).0
                (λ a. pure (is_ready H a))
                (caught r (record s { world = (H.health port s.world).1 })).1).0
              (λ b. if b then pure tt else (sleep H 25 >> again))
              (continue
                (caught r (record s { world = (H.health port s.world).1 })).0
                (λ a. pure (is_ready H a))
                (caught r (record s { world = (H.health port s.world).1 })).1).1)
    unfolding pure sleep ◌>>=◌
    Waited-checked (ok true) port s again e h k = healthy s e
    Waited-checked (ok false) port s again e h k = k
    Waited-checked threw port s again e h k = k
    Waited-checked stuck port s again e h k = absurd (h refl)

    Waited-probed :
        (c : Option ℤ) (port : ℕ) (s : State H) (again : State H → Result (Unit {0}) × State H)
        → Waited port (again (record s { world = H.sleep 25 (H.health port s.world).1 }))
        → Waited port (
            continue
              (probe_unless H c port s).0
              (λ b. if b then pure tt else (sleep H 25 >> again))
              (probe_unless H c port s).1)
    unfolding probe_unless attempt ◌>>=◌
    Waited-probed (some code) port s again k = gave_up s
    Waited-probed none port s again k =
        Waited-checked (H.health port s.world).0 port s again refl (timed.health_ends port s.world)
          k

    Waited-round :
        (port : ℕ) (child : H.Child) (s : State H) (again : State H → Result (Unit {0}) × State H)
        → Waited port (again (record s { world = H.sleep 25 (H.health port s.world).1 }))
        → Waited port (round H port child again s)
    unfolding round ◌>>=◌
    Waited-round port child s again k = Waited-probed (H.exit_code child s.world) port s again k

    Waited-wait_until :
        (fuel deadline port : ℕ) (child : H.Child) (s : State H)
        → deadline < time s.world + fuel
        → 0 < fuel
        → Waited port (wait_until H fuel deadline port child s)
    unfolding wait_until ◌>>=◌
    Waited-wait_until zero deadline port child s h k = absurd (omega arith)
    Waited-wait_until (suc fuel) deadline port child s h k =
        let (t, w) = H.now s.world in
        let before = timed.not_before s.world in
        let after = timed.not_after s.world in
        let checked = timed.health_forward port w in
        let slept = timed.sleep_takes 25 (H.health port w).1 (omega arith) in
        elim (Bool-cases (ltb t deadline)) [
          | inr c ↦ rw c (gave_up _)
          | inl c ↦
              let less : t < deadline = ground arith in
              rw c (
                Waited-round port child _ _
                  (Waited-wait_until fuel deadline port child _ (omega arith) (omega arith)))
        ]

    -- With fuel for more than the 20,000 milliseconds, `waitReady` ends: it throws, or the last
    -- thing that happened is a health check of the port that was ok. The conditions: the clock's
    -- reading lies between the times before and after it, a health check ends and time does not run
    -- back over it, and a sleep takes time.
    pub Waited-wait_ready :
        (fuel port : ℕ) (child : H.Child) (s : State H)
        → ready_timeout_ms < fuel
        → Waited port (wait_ready H fuel port child s)
    unfolding wait_ready now ◌>>=◌
    Waited-wait_ready fuel port child s h =
        let after = timed.not_after s.world in
        Waited-wait_until fuel _ port child _ (omega arith) (omega arith)
