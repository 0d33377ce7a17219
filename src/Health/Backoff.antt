-- ===== src/Health/Backoff.antt =====
-- src/proxy/health.rs: a probe's rounds, and the intervals between them.
use portail.Prelude.{
  ℕ, zero, suc, ◌*◌, ◌^◌, ◌≡◌, min, arith, refl, ap, ◌∙◌, true, false, not, ◌&&◌, Option, none,
  some, List, [], ◌∷◌, ltb, length, is_some, if◌then◌else◌, Bool-cases, Option-cases, inl, inr,
}
use portail.Prelude.Map.{get, get-insert_self}
use portail.Net.{SocketAddr, socket_eq}
use portail.Health.{
  HealthRegistry, BackendHealth, Status, healthy, unhealthy, probing, is_status, compare_exchange,
  next_probe_interval, probe_initial_interval, still_probing, after_answer, with_entry,
  probe_connected, probe_round, Wake, probe_loop, run_probe,
}

-- How many rounds in a row, from the first one on, find the backend probing and do not connect.
unfoldable pub failing : SocketAddr → List Wake → ℕ
unfolding still_probing
failing addr [] = 0
failing addr (w ∷ wakes) =
    let more = suc (failing addr wakes) in
    if still_probing addr w.registry && not w.connected then more else 0

-- Ten seconds doubled for each earlier interval, and 300 seconds at most: `k` such intervals from the n-th one on.
unfoldable pub backoff : (n k : ℕ) → List ℕ
backoff n zero = []
backoff n (suc k) = min (10 * 2 ^ n) 300 ∷ backoff (suc n) k

-- A probe that has returned has left the backend out of the probing state.
abbrev pub Done : SocketAddr → Option HealthRegistry → Type 0
Done addr none = Unit
Done addr (some r) = still_probing addr r ≡ false

answered : (entry : BackendHealth) → is_status (after_answer entry).status probing ≡ false
answered entry = by_status entry.status
  where
    by_status : (s : Status) → is_status (compare_exchange probing healthy s).0 probing ≡ false
    by_status healthy = refl
    by_status unhealthy = refl
    by_status probing = refl

connected-Done :
    (addr : SocketAddr) (r : HealthRegistry) → Done addr (some (probe_connected addr r))
unfolding probe_connected with_entry still_probing
connected-Done addr r = elim (Option-cases (get addr r.backends)) [
  | inl absent ↦ rw (absent, absent) refl
  | inr (entry, e) ↦
      rw e (rw (get-insert_self addr (after_answer entry) r.backends) (answered entry))
]

-- What a probe whose interval has doubled `n` times does.
abbrev pub Backs : SocketAddr → (n : ℕ) → List Wake → List ℕ × Option HealthRegistry → Type 0
Backs addr n wakes (sleeps, end) =
    (sleeps ≡ backoff n (suc (failing addr wakes)))
    × (is_some end ≡ ltb (failing addr wakes) (length wakes))
    × Done addr end

-- The outcome of a round, and of those behind it.
round_stops :
    (addr : SocketAddr) (w : Wake) (interval : ℕ)
    → (still_probing addr w.registry && not w.connected) ≡ false
    → ((probe_round addr w.connected interval w.registry).1 ≡ none)
      × Done addr (some (probe_round addr w.connected interval w.registry).0)
unfolding probe_round
round_stops addr w interval e = elim (Bool-cases (still_probing addr w.registry)) [
  | inr over ↦ rw over (refl, over)
  | inl on ↦
      let up : w.connected ≡ true = ground (arith, on, e) in
      rw (on, up) (refl, connected-Done addr w.registry)
]

round_fails :
    (addr : SocketAddr) (w : Wake) (interval : ℕ)
    → (still_probing addr w.registry && not w.connected) ≡ true
    → (probe_round addr w.connected interval w.registry).1 ≡ some (next_probe_interval interval)
unfolding probe_round
round_fails addr w interval e =
    let on : still_probing addr w.registry ≡ true = ground (arith, e) in
    let down : w.connected ≡ false = ground (arith, e) in rw (on, down) refl

doubled :
    (n interval : ℕ)
    → interval ≡ min (10 * 2 ^ n) 300
    → next_probe_interval interval ≡ min (10 * 2 ^ suc n) 300
doubled n interval e = omega (arith, e)

zero_ltb : (b : ℕ) → true ≡ ltb 0 (suc b)
zero_ltb b = ground arith

ltb-suc : (a b : ℕ) → ltb a b ≡ ltb (suc a) (suc b)
ltb-suc a b = ground arith

probe_loop-Backs :
    (addr : SocketAddr) (n interval : ℕ) (wakes : List Wake)
    → interval ≡ min (10 * 2 ^ n) 300
    → Backs addr n wakes (probe_loop addr interval wakes)
unfolding probe_loop failing backoff
probe_loop-Backs addr n interval [] e = (ap (λ d. d ∷ []) e, refl, tt)
probe_loop-Backs addr n interval (w ∷ wakes) e =
    elim (Bool-cases (still_probing addr w.registry && not w.connected)) [
      | inr stops ↦
          let (ended, done) = round_stops addr w interval stops in
          rw (stops, ended, probe_loop) (ap (λ d. d ∷ []) e, zero_ltb (length wakes), done)
      | inl fails ↦
          let longer = next_probe_interval interval in
          let (sleeps, end, done) =
            probe_loop-Backs addr (suc n) longer wakes (doubled n interval e) in
          rw (fails, round_fails addr w interval fails, probe_loop)
            (
              ap (λ d. d ∷ (probe_loop addr longer wakes).0) e
                  ∙ ap (λ ds. min (10 * 2 ^ n) 300 ∷ ds) sleeps,
              end ∙ ltb-suc (failing addr wakes) (length wakes),
              done,
            )
    ]

-- A probe sleeps 10 seconds first and twice as long after each round in which the backend is still probing and does not
-- connect, but 300 seconds at most. It returns after the first other round, and leaves the backend not probing then.
pub run_probe-Backs :
    (addr : SocketAddr) (wakes : List Wake) → Backs addr 0 wakes (run_probe addr wakes)
unfolding run_probe
run_probe-Backs addr wakes = probe_loop-Backs addr 0 probe_initial_interval wakes refl
