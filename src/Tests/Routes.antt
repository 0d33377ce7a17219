-- ===== src/Tests/Routes.antt =====
-- The route table's lookups and selections on concrete inputs.
use portail.Prelude.{
  ℕ, ◌%◌, ◌≤◌, ◌<◌, Bool, true, false, none, some, List, [], ◌∷◌, ◌≡◌, ◌↔◌, inl, refl, arith, Bytes,
  codes, leb, nat_eq, bytes_key, bytes_eq, ◌==◌,
}
use portail.Net.{SocketAddr, v4}
use portail.Routing.Types.{prefix, Backend, forward, HttpRouteRule}
use portail.Routing.Hosts.{wildcard_covers, hostnames_intersect, parent_domains}
use portail.Routing.Hosts.Laws.{Within, Matches, parent_domains_iff, hostnames_intersect_iff}
use portail.Routing.Match.{prefix_matches, rule_matches, find_best_rule_match}
use portail.Routing.Match.Laws.{IsPathPrefix, prefix_matches_iff, find_best_rule_match-IsChosen}
use portail.Routing.Sort.{IsChosen, sort_by}
use portail.Routing.Order.{match_precedence, precedes, precedes_trans, precedes_asym, sort_rules}
use portail.Routing.Select.{
  slot_owner, partition_point, weight_sum, select_healthy_weighted_backend, select_many,
  healthy_weight, bump,
}
use portail.Routing.Select.Owner.{
  weight_before, slot_owner_iff, cumulative_from, partition_point-slot_owner,
}
use portail.Routing.Select.Shares.{
  IsWeighted, Shares, select_degraded-Shares, select_healthy_weighted_backend_total,
  select_many-slot_owner,
}

abbrev address : ℕ → SocketAddr
address port = record { ip = v4 0x0a000001; port = port }

abbrev backend : ℕ → ℕ → Backend
backend port weight = record {
  socket_addr = address port;
  weight = weight;
  filters = [];
  use_tls = false;
  server_name = [];
  action = forward;
}

abbrev pub pair : List Backend
pair = backend 1 1 ∷ backend 2 3 ∷ []

-- No pattern of these tests is compiled.
abbrev pub no_regex : ℕ → Bytes → Bool
no_regex re text = false

abbrev pub rule : Bytes → HttpRouteRule ℕ
rule path = record {
  method_match = none;
  path_match_type = prefix;
  path = path;
  path_regex = none;
  header_matches = [];
  query_param_matches = [];
  filters = [];
  backends = pair;
  request_timeout = none;
  backend_request_timeout = none;
  has_filters = false;
  total_weight = 4;
  cumulative_weights = 1 ∷ 4 ∷ [];
  counter = 0;
  requests = none;
  limiter = none;
  route_index = 0;
}

abbrev pub rules : List (HttpRouteRule ℕ)
rules = rule (codes "/") ∷ rule (codes "/a") ∷ []

parent_domains_iff_example :
    Within (codes "c") (parent_domains (codes "a.b.c"))
    ↔ (wildcard_covers (codes "c") (codes "a.b.c") ≡ true)
parent_domains_iff_example = parent_domains_iff (codes "c") (codes "a.b.c")

hostnames_intersect_iff_example :
    (hostnames_intersect (codes "*.b.c") (codes "*.c") ≡ true)
    ↔ ((h : Bytes) × Matches (codes "*.b.c") h × Matches (codes "*.c") h)
hostnames_intersect_iff_example = hostnames_intersect_iff (codes "*.b.c") (codes "*.c")

prefix_matches_iff_example :
    (prefix_matches (codes "/a") (codes "/a/b") ≡ true) ↔ IsPathPrefix (codes "/a") (codes "/a/b")
prefix_matches_iff_example = prefix_matches_iff (codes "/a") (codes "/a/b")

find_best_rule_match-IsChosen_example :
    IsChosen precedes precedes_trans precedes_asym
      (rule_matches no_regex (codes "GET") (codes "/a/b") [] [])
      (rule (codes "/a"))
      rules
unfolding find_best_rule_match rule_matches sort_rules sort_by precedes prefix_matches bytes_eq
    match_precedence
find_best_rule_match-IsChosen_example =
    find_best_rule_match-IsChosen no_regex (codes "GET") (codes "/a/b") [] [] rules
      (rule (codes "/a")) refl

slot_owner_iff_example :
    (slot_owner pair 2 ≡ some 1) ↔ ((weight_before pair 1 ≤ 2) × (2 < weight_before pair 2))
slot_owner_iff_example = slot_owner_iff pair 2 1

partition_point-slot_owner_example :
    slot_owner pair 2 ≡ some (partition_point (λ cw. leb cw 2) (cumulative_from 0 pair))
unfolding weight_sum
partition_point-slot_owner_example = partition_point-slot_owner pair 2 (omega arith)

-- The second backend is down.
abbrev only_first : SocketAddr → Bool
only_first a = a.port == 1

select_degraded-Shares_example :
    (owner : ℕ) × (slot_owner pair (2 % weight_sum pair) ≡ some owner)
    × Shares only_first pair 2 owner
unfolding weight_sum
select_degraded-Shares_example = select_degraded-Shares only_first pair 2 (omega arith)

select_healthy_weighted_backend_total_example :
    (i : ℕ) × ((select_healthy_weighted_backend only_first (rule (codes "/"))).1 ≡ some i)
    × IsWeighted only_first pair i
unfolding weight_sum cumulative_from
select_healthy_weighted_backend_total_example =
    select_healthy_weighted_backend_total only_first (rule (codes "/")) refl refl (omega arith)

abbrev all_up : SocketAddr → Bool
all_up a = true

select_many-slot_owner_example :
    select_many all_up (rule (codes "/")) ≡ (bump all_up 0, slot_owner pair (0 % weight_sum pair))
unfolding weight_sum cumulative_from healthy_weight
select_many-slot_owner_example =
    select_many-slot_owner all_up (rule (codes "/")) refl refl (omega arith) (inl refl)
