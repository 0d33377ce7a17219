-- ===== src/Routing/Select.antt =====
-- src/routing/mod.rs: the weighted round robin over a rule's or a listener's backends. `healthy` is the health
-- registry's answer for an address, taken to stay the same during one selection. Weights are 32-bit and their sums
-- 64-bit, which no list of backends reaches; a counter wraps at 2 ^ 64.
pub mod Owner
pub mod Shares
use portail.Prelude.{
  ℕ, zero, suc, ◌+◌, ◌-◌, ◌*◌, ◌/◌, ◌%◌, ◌^◌, Bool, true, false, not, ◌&&◌, ◌||◌, Option, none,
  some, List, [], ◌∷◌, ltb, leb, ◌==◌, if◌then◌else◌, length, get_elem?, nat_eq, get_or_else,
  is_some_and,
}
use portail.Prelude.Map.{Map, get, insert}
use portail.Net.{SocketAddr}
use portail.Routing.Types.{Backend, HttpRouteRule, is_reject}

abbrev pub next : Option ℕ → Option ℕ
next none = none
next (some i) = some (suc i)

-- `position`, with the sum of the weights so far.
unfoldable pub slot_owner_from : ℕ → List Backend → ℕ → Option ℕ
slot_owner_from cumulative [] slot = none
slot_owner_from cumulative (b ∷ bs) slot =
    let rest = next (slot_owner_from (cumulative + b.weight) bs slot) in
    if ltb slot (cumulative + b.weight) then some 0 else rest

unfoldable pub slot_owner : List Backend → ℕ → Option ℕ
slot_owner backends slot = slot_owner_from 0 backends slot

unfoldable pub weight_sum : List Backend → ℕ
weight_sum [] = 0
weight_sum (b ∷ bs) = b.weight + weight_sum bs

-- `partition_point` on weights in ascending order: how many stand before the first that fails the test.
unfoldable pub partition_point : (ℕ → Bool) → List ℕ → ℕ
partition_point p [] = 0
partition_point p (w ∷ ws) = let rest = partition_point p ws in if p w then suc rest else 0

module _ (healthy : SocketAddr → Bool) where
  abbrev is_up : Backend → Bool
  is_up b = ltb 0 b.weight && healthy b.socket_addr

  unfoldable pub healthy_weight : List Backend → ℕ
  healthy_weight [] = 0
  healthy_weight (b ∷ bs) = (if is_up b then b.weight else 0) + healthy_weight bs

  -- Whether a forwarding backend may take over slots.
  abbrev pub takes_over : Backend → Bool
  takes_over b = not (b.weight == 0 || is_reject b.action || not (healthy b.socket_addr))

  -- The loop of `nth_healthy_weighted`, with the sum of the weights so far.
  unfoldable pub nth_healthy_from : ℕ → List Backend → ℕ → Option ℕ
  nth_healthy_from cumulative [] slot = none
  nth_healthy_from cumulative (b ∷ bs) slot =
      let skipped = next (nth_healthy_from cumulative bs slot) in
      let passed = next (nth_healthy_from (cumulative + b.weight) bs slot) in
      if not (takes_over b)
      then skipped
      else if ltb slot (cumulative + b.weight)
      then some 0
      else passed

  unfoldable pub nth_healthy_weighted : List Backend → ℕ → Option ℕ
  nth_healthy_weighted backends slot = nth_healthy_from 0 backends slot

  pub record Sums : Type 0 where
    pub cumulative : ℕ
    pub rejected : ℕ
    pub rejected_below_slot : ℕ
    pub healthy_sum : ℕ

  add_to : ℕ → Sums → Backend → Sums
  add_to slot s b = record {
    cumulative = s.cumulative + b.weight;
    rejected = if is_reject b.action then s.rejected + b.weight else s.rejected;
    rejected_below_slot =
        if is_reject b.action && leb (s.cumulative + b.weight) slot
        then s.rejected_below_slot + b.weight
        else s.rejected_below_slot;
    healthy_sum =
        if not (is_reject b.action) && is_up b then s.healthy_sum + b.weight else s.healthy_sum;
  }

  sums_from : ℕ → Sums → List Backend → Sums
  unfolding add_to
  sums_from slot s [] = s
  sums_from slot s (b ∷ bs) = sums_from slot (add_to slot s b) bs

  unfoldable pub sums : ℕ → List Backend → Sums
  unfolding sums_from
  sums slot =
      sums_from slot
        (record { cumulative = 0; rejected = 0; rejected_below_slot = 0; healthy_sum = 0 })

  abbrev owner_rejects : List Backend → ℕ → Bool
  owner_rejects backends owner = is_some_and (get_elem? backends owner) (λ b. is_reject b.action)

  abbrev pub or_else : Option ℕ → ℕ → Option ℕ
  or_else none owner = some owner
  or_else (some i) owner = some i

  degraded_pick : List Backend → ℕ → ℕ → ℕ → Option ℕ → Option ℕ
  degraded_pick backends counter total_weight slot none = none
  degraded_pick backends counter total_weight slot (some owner) =
      let s = sums slot backends in
      let forward_pick =
        counter / total_weight * (total_weight - s.rejected) + (slot - s.rejected_below_slot) in
      let taken = or_else (nth_healthy_weighted backends (forward_pick % s.healthy_sum)) owner in
      if owner_rejects backends owner || s.healthy_sum == 0 then some owner else taken

  unfoldable pub select_degraded : List Backend → ℕ → ℕ → Option ℕ
  unfolding degraded_pick
  select_degraded backends counter total_weight =
      let slot = counter % total_weight in
      degraded_pick backends counter total_weight slot (slot_owner backends slot)

  -- `fetch_add(1)`.
  abbrev pub bump : ℕ → ℕ
  bump counter = (counter + 1) % 2 ^ 64

  -- Behind the case of one backend: the counter after, and the index.
  unfoldable pub select_many : {Regex : Type 0} → HttpRouteRule Regex → ℕ × Option ℕ
  select_many rule =
      let up = healthy_weight rule.backends in
      let pool_weight = if up == 0 then rule.total_weight else up in
      let slot = rule.counter % rule.total_weight in
      if pool_weight == 0
      then (rule.counter, none)
      else if pool_weight == rule.total_weight
      then (bump rule.counter, some (partition_point (λ cw. leb cw slot) rule.cumulative_weights))
      else (bump rule.counter, select_degraded rule.backends rule.counter rule.total_weight)

  select_one : {Regex : Type 0} → List Backend → HttpRouteRule Regex → ℕ × Option ℕ
  select_one (b ∷ []) rule = (rule.counter, if ltb 0 b.weight then some 0 else none)
  select_one backends rule = select_many rule

  -- The rule's counter after, and the index of the backend.
  unfoldable pub select_healthy_weighted_backend :
      {Regex : Type 0} → HttpRouteRule Regex → ℕ × Option ℕ
  unfolding select_one
  select_healthy_weighted_backend rule = select_one rule.backends rule

  -- The counters of `BackendSelector`, by key: the counter and the map with it incremented.
  unfoldable pub next_counter : Map ℕ ℕ → ℕ → ℕ × Map ℕ ℕ
  next_counter route_counters key =
      let counter = get_or_else (get key route_counters) 0 in
      (counter, insert key (bump counter) route_counters)

  abbrev pub at_index : List Backend → Option ℕ → Option Backend
  at_index backends none = none
  at_index backends (some i) = get_elem? backends i

  -- The index for a counter.
  unfoldable pub l4_index : List Backend → ℕ → Option ℕ
  l4_index backends counter =
      let total_weight = weight_sum backends in
      let up = healthy_weight backends in
      if up == total_weight || up == 0
      then slot_owner backends (counter % total_weight)
      else select_degraded backends counter total_weight

  unfoldable pub select_l4_backend : Map ℕ ℕ → ℕ → List Backend → Map ℕ ℕ × Option Backend
  unfolding next_counter
  select_l4_backend route_counters key backends =
      let (counter, counters) = next_counter route_counters key in
      if weight_sum backends == 0
      then (route_counters, none)
      else (counters, at_index backends (l4_index backends counter))
