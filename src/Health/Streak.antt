-- ===== src/Health/Streak.antt =====
-- src/proxy/health.rs: the registry follows, for each backend, the number of failures since its last recovery.
use portail.Prelude.{ℕ, suc, List, [], ◌∷◌, ◌≡◌, ltb, ◌==◌, if◌then◌else◌, any}
use portail.Net.{SocketAddr, socket_beq, socket_eq}
use portail.Routing.Table.{RouteTable}
use portail.Health.{
  HealthRegistry, new, is_healthy, record_success, record_failure, spawn_probe, probe_connected,
  prune, routed_addrs,
}
use portail.Health.Tracks.{
  Tracks, record_success-Tracks, probe_connected-Tracks, spawn_probe-Tracks, record_failure-Tracks,
  prune-Tracks, new-Tracks, is_healthy-Tracks, record_failure_asks,
}

-- The methods as events, in the order in which they take effect. A probe that connects may be older than a recovery.
pub data Event (Regex : Type 0) : Type 0 where
  succeeded failed connected : SocketAddr → Event Regex
  spawned : SocketAddr → ℕ → Event Regex
  pruned : RouteTable Regex → Event Regex

module _ {Regex : Type 0} where
  unfoldable pub react : Event Regex → HealthRegistry → HealthRegistry
  react (succeeded a) r = record_success a r
  react (failed a) r = (record_failure a r).0
  react (connected a) r = probe_connected a r
  react (spawned a task) r = (spawn_probe a task r).0
  react (pruned table) r = prune table r

  unfoldable pub replay : List (Event Regex) → HealthRegistry → HealthRegistry
  unfolding react
  replay [] r = r
  replay (e ∷ es) r = replay es (react e r)

  abbrev pub next_streak : Event Regex → SocketAddr → ℕ → ℕ
  next_streak (succeeded b) a n = if socket_beq b a then 0 else n
  next_streak (failed b) a n = if socket_beq b a then suc n else n
  next_streak (connected b) a n = if socket_beq b a then 0 else n
  next_streak (spawned b task) a n = n
  next_streak (pruned table) a n = if any (socket_beq a) (routed_addrs table) then n else 0

  -- The failures of a backend since it last succeeded, answered a probe or left the route table.
  unfoldable pub streak : List (Event Regex) → SocketAddr → ℕ → ℕ
  streak [] a n = n
  streak (e ∷ es) a n = streak es a (next_streak e a n)

module _ {Regex : Type 0} where
  react-Tracks :
      (e : Event Regex) (g : SocketAddr → ℕ) (r : HealthRegistry)
      → Tracks g r
      → Tracks (λ a. next_streak e a (g a)) (react e r)
  unfolding react
  react-Tracks (succeeded b) g r t = record_success-Tracks b g r t
  react-Tracks (failed b) g r t = record_failure-Tracks b g r t
  react-Tracks (connected b) g r t = probe_connected-Tracks b g r t
  react-Tracks (spawned b task) g r t = spawn_probe-Tracks b task g r t
  react-Tracks (pruned table) g r t = prune-Tracks table g r t

  replay-Tracks :
      (es : List (Event Regex)) (g : SocketAddr → ℕ) (r : HealthRegistry)
      → Tracks g r
      → Tracks (λ a. streak es a (g a)) (replay es r)
  unfolding replay streak
  replay-Tracks [] g r t = t
  replay-Tracks (e ∷ es) g r t =
      replay-Tracks es (λ a. next_streak e a (g a)) (react e r) (react-Tracks e g r t)

  -- From an empty registry on, whatever methods ran on whatever addresses, a backend is healthy exactly while it has
  -- failed fewer than three times since it last succeeded, answered a probe or left the route table, and a failure asks
  -- for a probe exactly when it is the third one since then.
  pub is_healthy-replay :
      (es : List (Event Regex)) (a : SocketAddr)
      → (is_healthy a (replay es new) ≡ ltb (streak es a 0) 3)
        × ((record_failure a (replay es new)).1 ≡ (streak es a 0 == 2))
  is_healthy-replay es a =
      let t = replay-Tracks es (λ b. 0) new new-Tracks in
      (
        is_healthy-Tracks (λ b. streak es b 0) (replay es new) a t,
        record_failure_asks (λ b. streak es b 0) (replay es new) a t,
      )
