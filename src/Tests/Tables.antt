-- ===== src/Tests/Tables.antt =====
-- The route table, its registrations and its lookups on concrete inputs.
use portail.Prelude.{
  ℕ, false, not, none, some, [], ◌∷◌, ◌≡◌, refl, arith, codes, is_some, nat_eq, bytes_key, bytes_eq,
  strip_prefix, is_utf8, ◌==◌,
}
use portail.Prelude.Map.{get}
use portail.Routing.Hosts.{wildcard_covers, parent_domains}
use portail.Routing.Match.{prefix_matches, rule_matches, find_best_rule_match}
use portail.Routing.Table.{
  RouteTable, host_key, find_in_scopes, highest_priority, shared_scopes_of, hostname_match_priority,
  lookup_http_route, find_http_route, find_tcp_backends,
}
use portail.Routing.Table.Isolation.{IsolatedAnswer, scopes_of, find_http_route-IsolatedAnswer}
use portail.Routing.Build.{new_table}
use portail.Routing.Build.Registered.{add_tcp_route}
use portail.Routing.Build.{add_http_route_for_listener, push_http_route_for_listener}
use portail.Routing.Build.Hostnames.{IsIsolated, http_route_for_listener-IsIsolated}
use portail.Routing.Table.Priority.{hostname_match_priority_distinct}
use portail.Routing.Table.{ListenerScope}
use portail.Routing.Build.First.{first_value, find_tcp_backends-add_tcp_route}
use portail.Tests.Routes.{rule, rules, pair, no_regex}

find_tcp_backends-add_tcp_route_example :
    ((add_tcp_route 25 pair (new_table {Regex = ℕ})).1
      ≡ not (is_some (find_tcp_backends (new_table {Regex = ℕ}) 25)))
    × (find_tcp_backends (add_tcp_route 25 pair (new_table {Regex = ℕ})).0 25
        ≡ first_value (find_tcp_backends (new_table {Regex = ℕ}) 25) (25 == 25) pair)
find_tcp_backends-add_tcp_route_example =
    find_tcp_backends-add_tcp_route (new_table {Regex = ℕ}) 25 25 pair

abbrev table : RouteTable ℕ
table = record {
  listener_scopes =
      (
        80,
        record {
          scopes =
              record {
                port = 80;
                listener_hostname = some (codes "*.b.c");
                http_routes = [];
                wildcard_http_routes = (codes "b.c", rules) ∷ [];
                catch_all_http_routes = none;
              }
              ∷ record {
                port = 80;
                listener_hostname = none;
                http_routes = (codes "a.b.c", rules) ∷ [];
                wildcard_http_routes = [];
                catch_all_http_routes = none;
              }
              ∷ [];
          shared = false;
        },
      )
      ∷ [];
  shared_scopes = [];
  shared_on_every_port = false;
  tcp_routes = [];
  udp_routes = [];
  tls_scopes = [];
}

find_http_route-IsolatedAnswer_example :
    IsolatedAnswer no_regex
      (codes "GET")
      (codes "/x")
      []
      []
      (host_key (codes "A.b.c"))
      (scopes_of table 80)
      (rule (codes "/"))
unfolding find_http_route get find_in_scopes highest_priority shared_scopes_of
    hostname_match_priority strip_prefix wildcard_covers host_key is_utf8 bytes_eq lookup_http_route
    parent_domains find_best_rule_match rule_matches prefix_matches
find_http_route-IsolatedAnswer_example =
    find_http_route-IsolatedAnswer no_regex (codes "GET") (codes "/x") [] [] (codes "A.b.c") table
      80 (rule (codes "/")) refl

http_route_for_listener-IsIsolated_example :
    IsIsolated (
      add_http_route_for_listener 80
        (some (codes "*.b.c"))
        (codes "x.b.c")
        (rule (codes "/"))
        table)
    × IsIsolated (
        push_http_route_for_listener 80
          (some (codes "*.b.c"))
          (codes "x.b.c")
          (rule (codes "/"))
          table)
http_route_for_listener-IsIsolated_example =
    http_route_for_listener-IsIsolated table 80 (some (codes "*.b.c")) (codes "x.b.c")
      (rule (codes "/")) (tt, ((((λ e. cc), tt), (tt, tt)), tt))

abbrev scope_on : ℕ → ListenerScope ℕ
scope_on port = record {
  port = port;
  listener_hostname = some (codes "*.b.c");
  http_routes = [];
  wildcard_http_routes = [];
  catch_all_http_routes = none;
}

hostname_match_priority_distinct_example :
    (scope_on 80).listener_hostname ≡ (scope_on 0).listener_hostname
unfolding hostname_match_priority strip_prefix wildcard_covers bytes_eq
hostname_match_priority_distinct_example =
    hostname_match_priority_distinct (scope_on 80) (scope_on 0) (codes "a.b.c") 4 (omega arith) refl
      refl
