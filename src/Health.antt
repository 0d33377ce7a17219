-- ===== src/Health.antt =====
-- src/proxy/health.rs: the health of the backends. A method that changes the registry returns the changed registry. Each
-- method holds its entry's guard throughout and is one step. A probe task is a number, and aborting it is returned.
-- Logs and metrics are left out.
pub mod Entry
pub mod Tracks
pub mod Streak
pub mod Backoff
use portail.Prelude.{
  ℕ, zero, suc, ◌+◌, ◌*◌, ◌^◌, ◌%◌, min, Bool, true, false, not, ◌&&◌, ◌||◌, Option, none, some,
  List, [], ◌∷◌, ◌++◌, map, ltb, leb, if◌then◌else◌, any, is_empty, get_or_else, is_some_and, ◌==◌,
}
use portail.Prelude.Map.{Map, get, insert, retain}
use portail.Net.{SocketAddr, socket_beq, socket_eq}
use portail.Routing.Types.{Backend}
use portail.Routing.Table.{HostEntry, ListenerScope, RouteTable}
use portail.Routing.Scopes.{flat_map, values, tls_backends, http_scopes, scope_entries}

pub data Status : Type 0 where
  healthy unhealthy probing : Status

abbrev pub is_status : Status → Status → Bool
is_status healthy healthy = true
is_status unhealthy unhealthy = true
is_status probing probing = true
is_status _ _ = false

abbrev pub failure_threshold : ℕ
failure_threshold = 3

abbrev pub probe_initial_interval : ℕ
probe_initial_interval = 10

abbrev pub probe_max_interval : ℕ
probe_max_interval = 300

-- Whole seconds; the multiplication of a `Duration` saturates far above the ceiling.
abbrev pub next_probe_interval : ℕ → ℕ
next_probe_interval current = min (current * 2) probe_max_interval

pub record BackendHealth : Type 0 where
  pub consecutive_failures : ℕ
  pub status : Status
  pub probe : Option ℕ

abbrev pub new_health : BackendHealth
new_health = record { consecutive_failures = 0; status = healthy; probe = none }

pub record HealthRegistry : Type 0 where
  pub backends : Map SocketAddr BackendHealth
  pub tracked : Bool

abbrev pub new : HealthRegistry
new = record { backends = []; tracked = false }

-- The status after `compare_exchange`, and whether it changed it.
abbrev pub compare_exchange : Status → Status → Status → Status × Bool
compare_exchange expected changed current =
    if is_status current expected then (changed, true) else (current, false)

abbrev pub entry_is_healthy : Option BackendHealth → Bool
entry_is_healthy none = true
entry_is_healthy (some entry) = is_status entry.status healthy

unfoldable pub is_healthy : SocketAddr → HealthRegistry → Bool
is_healthy addr r = if not r.tracked then true else entry_is_healthy (get addr r.backends)

-- The change of an entry that is there.
unfoldable pub with_entry :
    SocketAddr
    → (BackendHealth → BackendHealth)
    → Option BackendHealth
    → HealthRegistry
    → HealthRegistry
with_entry addr f none r = r
with_entry addr f (some entry) r = record r { backends = insert addr (f entry) r.backends }

abbrev pub after_success : BackendHealth → BackendHealth
after_success entry =
    let was_unhealthy = not (is_status entry.status healthy) in
    if was_unhealthy || ltb 0 entry.consecutive_failures
    then record entry { consecutive_failures = 0; status = healthy }
    else entry

unfoldable pub record_success : SocketAddr → HealthRegistry → HealthRegistry
unfolding with_entry
record_success addr r =
    if not r.tracked then r else with_entry addr after_success (get addr r.backends) r

-- The two exchanges on the threshold, and whether the second one was won. The counter is 32 bits wide.
abbrev pub after_failure : BackendHealth → BackendHealth × Bool
after_failure entry =
    let new_count = (entry.consecutive_failures + 1) % 2 ^ 32 in
    let (status, marked) = compare_exchange healthy unhealthy entry.status in
    let (status', won) = compare_exchange unhealthy probing status in
    if leb failure_threshold new_count
    then (record entry { consecutive_failures = new_count; status = status' }, won)
    else (record entry { consecutive_failures = new_count }, false)

unfoldable pub record_failure : SocketAddr → HealthRegistry → HealthRegistry × Bool
record_failure addr r =
    let (entry, spawn) = after_failure (get_or_else (get addr r.backends) new_health) in
    (record { backends = insert addr entry r.backends; tracked = true }, spawn)

abbrev probe_of : Option BackendHealth → Option ℕ
probe_of none = none
probe_of (some entry) = entry.probe

-- Beside the registry, the task that is aborted: the stale probe of the entry, or the new one if the entry is gone.
unfoldable pub spawn_probe : SocketAddr → ℕ → HealthRegistry → HealthRegistry × Option ℕ
unfolding with_entry
spawn_probe addr task r = (
  with_entry addr (λ entry. record entry { probe = some task }) (get addr r.backends) r,
  elim (get addr r.backends) [ none ↦ some task | some entry ↦ entry.probe ],
)

-- The test at the start of a round of `run_probe`.
unfoldable pub still_probing : SocketAddr → HealthRegistry → Bool
still_probing addr r = is_some_and (get addr r.backends) (λ e. is_status e.status probing)

abbrev pub after_answer : BackendHealth → BackendHealth
after_answer entry = record entry {
  consecutive_failures = 0;
  status = (compare_exchange probing healthy entry.status).0;
}

-- A probe that connected.
unfoldable pub probe_connected : SocketAddr → HealthRegistry → HealthRegistry
unfolding with_entry
probe_connected addr r = with_entry addr after_answer (get addr r.backends) r

-- A round of `run_probe` after its sleep: the registry, and the interval of the next round if there is one. The
-- connection's result is an argument.
unfoldable pub probe_round :
    SocketAddr → Bool → (interval : ℕ) → HealthRegistry → HealthRegistry × Option ℕ
unfolding still_probing probe_connected
probe_round addr connected interval r =
    if not (still_probing addr r)
    then (r, none)
    else if connected
    then (probe_connected addr r, none)
    else (r, some (next_probe_interval interval))

-- What a round of a probe meets after its sleep: the registry, and the result of its connection.
pub record Wake : Type 0 where
  pub registry : HealthRegistry
  pub connected : Bool

-- The loop of `run_probe`: the intervals that it sleeps, and the registry that it leaves when it returns. Behind the last
-- of these rounds it is asleep.
unfoldable pub probe_loop : SocketAddr → (interval : ℕ) → List Wake → List ℕ × Option HealthRegistry
unfolding probe_round
probe_loop addr interval [] = (interval ∷ [], none)
probe_loop addr interval (w ∷ wakes) =
    let (left, next) = probe_round addr w.connected interval w.registry in
    elim next [
      | none ↦ (interval ∷ [], some left)
      | some longer ↦ let (sleeps, end) = probe_loop addr longer wakes in (interval ∷ sleeps, end)
    ]

unfoldable pub run_probe : SocketAddr → List Wake → List ℕ × Option HealthRegistry
unfolding probe_loop
run_probe addr = probe_loop addr probe_initial_interval

module _ {Regex : Type 0} where
  unfoldable pub routed_addrs : RouteTable Regex → List SocketAddr
  routed_addrs table =
      let http =
        flat_map
          (λ (scope : ListenerScope Regex).
            flat_map (λ (entry : HostEntry Regex). flat_map (λ rule. rule.backends) entry)
              (scope_entries scope))
          (http_scopes table) in
      let l4 =
        flat_map (λ (bs : List Backend). bs)
          (values table.tcp_routes
            ++ values table.udp_routes
            ++ flat_map tls_backends (flat_map (λ scopes. scopes) (values table.tls_scopes))) in
      map (λ (b : Backend). b.socket_addr) (http ++ l4)

  unfoldable pub prune : RouteTable Regex → HealthRegistry → HealthRegistry
  unfolding routed_addrs
  prune table r =
      let kept = retain (λ addr entry. any (socket_beq addr) (routed_addrs table)) r.backends in
      if not r.tracked then r else record { backends = kept; tracked = not (is_empty kept) }
