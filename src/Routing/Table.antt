-- ===== src/Routing/Table.antt =====
-- src/routing/mod.rs: the route table and its lookups. A hash map is a list of its entries. The crates' hashers and
-- regular expressions are parameters.
pub mod Isolation
pub mod Priority
use portail.Prelude.{
  ℕ, zero, suc, ◌+◌, ◌-◌, ◌^◌, Bool, true, false, not, ◌&&◌, ◌||◌, Option, none, some, List, [],
  ◌∷◌, ◌++◌, ltb, leb, ◌==◌, if◌then◌else◌, Bytes, bytes_eq, bytes_key, nat_eq, option_beq, length,
  take, any, find, is_empty, is_some, is_some_and, is_upper, to_lower, is_utf8, get_or_else,
}
use portail.Prelude.Map.{Map, get}
use portail.Net.{SocketAddr}
use portail.Routing.Types.{Backend, BackendAction, is_reject, HttpRouteRule}
use portail.Routing.Hosts.{wildcard_covers, wildcard_parent, parent_domains}
use portail.Routing.Match.{find_best_rule_match}
use portail.Routing.Order.{outranks}
use portail.Routing.Select.{select_l4_backend}

abbrev pub u32_max : ℕ
u32_max = 2 ^ 32 - 1

abbrev pub HostEntry : Type 0 → Type 0
HostEntry Regex = List (HttpRouteRule Regex)

pub record ListenerScope (Regex : Type 0) : Type 0 where
  pub port : ℕ
  pub listener_hostname : Option Bytes
  pub http_routes : Map Bytes (HostEntry Regex)
  pub wildcard_http_routes : Map Bytes (HostEntry Regex)
  pub catch_all_http_routes : Option (HostEntry Regex)

pub record PortScopes (Regex : Type 0) : Type 0 where
  pub scopes : List (ListenerScope Regex)
  pub shared : Bool

pub record TlsScope : Type 0 where
  pub listener_hostname : Option Bytes
  pub exact : Map Bytes (List Backend)
  pub wildcard : Map Bytes (List Backend)
  pub catch_all : Option (List Backend)

pub record RouteTable (Regex : Type 0) : Type 0 where
  pub listener_scopes : Map ℕ (PortScopes Regex)
  pub shared_scopes : List (ListenerScope Regex)
  pub shared_on_every_port : Bool
  pub tcp_routes : Map ℕ (List Backend)
  pub udp_routes : Map ℕ (List Backend)
  pub tls_scopes : Map ℕ (List TlsScope)

-- The priority of a hostname that is a wildcard with the parent, or exact.
host_priority : Option Bytes → Bytes → Bytes → Option ℕ
host_priority (some parent) lh request_host =
    if wildcard_covers parent request_host then some (1 + length parent) else none
host_priority none lh request_host = if bytes_eq request_host lh then some u32_max else none

listener_priority : Option Bytes → Bytes → Option ℕ
listener_priority none request_host = some 0
listener_priority (some lh) request_host = host_priority (wildcard_parent lh) lh request_host

abbrev ranked {ℓ} : {A : Type ℓ} → ℕ → Option A → Option (ℕ × A)
ranked n none = none
ranked n (some a) = some (n, a)

abbrev pub first_of {ℓ} : {A : Type ℓ} → Option A → Option A → Option A
first_of none b = b
first_of (some a) b = some a

-- The first phase: the highest priority of the scopes that match.
raise : Option ℕ → Option ℕ → Option ℕ
raise highest none = highest
raise none (some priority) = some priority
raise (some highest) (some priority) = if ltb highest priority then some priority else some highest

-- Whether the second phase searches a scope of this priority.
abbrev pub searched : ℕ → Option ℕ → Bool
searched highest none = false
searched highest (some priority) = not (ltb priority highest)

module _ {Regex : Type 0} where
  unfoldable pub hostname_match_priority : ListenerScope Regex → Bytes → Option ℕ
  unfolding listener_priority host_priority
  hostname_match_priority scope request_host =
      listener_priority scope.listener_hostname request_host

  -- The scopes that a port with this entry shares.
  unfoldable pub shared_scopes_of :
      RouteTable Regex → Option (PortScopes Regex) → List (ListenerScope Regex)
  shared_scopes_of t port =
      if is_empty t.shared_scopes
        || not (t.shared_on_every_port || is_some_and port (λ p. p.shared))
      then []
      else t.shared_scopes

  abbrev pub own_scopes : Option (PortScopes Regex) → List (ListenerScope Regex)
  own_scopes none = []
  own_scopes (some p) = p.scopes

  unfoldable pub has_http_routes : RouteTable Regex → ℕ → Bool
  unfolding shared_scopes_of
  has_http_routes t server_port =
      let port = get server_port t.listener_scopes in
      not (is_empty (own_scopes port)) || not (is_empty (shared_scopes_of t port))

  unfoldable pub has_tcp_route : RouteTable Regex → ℕ → Bool
  has_tcp_route t server_port = is_some (get server_port t.tcp_routes)

  unfoldable pub find_tcp_backends : RouteTable Regex → ℕ → Option (List Backend)
  find_tcp_backends t server_port = get server_port t.tcp_routes

  unfoldable pub find_udp_backends : RouteTable Regex → ℕ → Option (List Backend)
  find_udp_backends t server_port = get server_port t.udp_routes

  highest_from : Option ℕ → List (ListenerScope Regex) → Bytes → Option ℕ
  unfolding raise
  highest_from highest [] host = highest
  highest_from highest (scope ∷ scopes) host =
      highest_from (raise highest (hostname_match_priority scope host)) scopes host

  unfoldable pub highest_priority : List (ListenerScope Regex) → Bytes → Option ℕ
  unfolding highest_from
  highest_priority = highest_from none

  better : Option (ℕ × HttpRouteRule Regex) → ℕ × HttpRouteRule Regex → ℕ × HttpRouteRule Regex
  better none found = found
  better (some held) found = if outranks found held then found else held

  best_after :
      Option (ℕ × HttpRouteRule Regex)
      → Option (ℕ × HttpRouteRule Regex)
      → Option (ℕ × HttpRouteRule Regex)
  best_after best none = best
  best_after best (some found) = some (better best found)

-- The key that a host is looked up under: one with an uppercase letter is cut off behind 256 bytes and made lowercase.
unfoldable pub host_key : Bytes → Bytes
host_key host =
    let buf = to_lower (take 256 host) in
    if not (any is_upper host) then host else if is_utf8 buf then buf else host

module _ {Regex : Type 0} (re_is_match : Regex → Bytes → Bool) where
  in_entry : Option (HostEntry Regex) → Bytes → Bytes → Bytes → Bytes → Option (HttpRouteRule Regex)
  in_entry none method path header_data query_string = none
  in_entry (some entry) method path header_data query_string =
      find_best_rule_match re_is_match entry method path header_data query_string

  module _ (method path header_data query_string : Bytes) where
    -- The walk up the domain labels.
    in_parents : Map Bytes (HostEntry Regex) → List Bytes → Option (ℕ × HttpRouteRule Regex)
    in_parents routes [] = none
    in_parents routes (parent ∷ parents) =
        first_of
          (ranked (1 + length parent)
            (in_entry (get parent routes) method path header_data query_string))
          (in_parents routes parents)

    unfoldable pub lookup_http_route :
        ListenerScope Regex → Bytes → Option (ℕ × HttpRouteRule Regex)
    unfolding in_entry in_parents
    lookup_http_route scope host =
        first_of
          (ranked u32_max
            (in_entry (get host scope.http_routes) method path header_data query_string))
          (first_of (in_parents scope.wildcard_http_routes (parent_domains host))
            (ranked 0 (in_entry scope.catch_all_http_routes method path header_data query_string)))

    -- A scope below the highest priority is passed over.
    find_in : ListenerScope Regex → Bytes → Bool → Option (ℕ × HttpRouteRule Regex)
    find_in scope host false = none
    find_in scope host true = lookup_http_route scope host

    -- The second phase. Unless both kinds of scopes are there, the first find is the answer.
    search :
        List (ListenerScope Regex)
        → Bytes
        → ℕ
        → Bool
        → Option (ℕ × HttpRouteRule Regex)
        → Option (ℕ × HttpRouteRule Regex)
    search [] host highest compare best = best
    search (scope ∷ scopes) host highest compare best =
        let found = find_in scope host (searched highest (hostname_match_priority scope host)) in
        let rest = search scopes host highest compare (best_after best found) in
        if is_some found && not compare then found else rest

    abbrev rule_of : Option (ℕ × HttpRouteRule Regex) → Option (HttpRouteRule Regex)
    rule_of none = none
    rule_of (some found) = some found.1

    unfoldable pub find_in_scopes :
        List (ListenerScope Regex)
        → List (ListenerScope Regex)
        → Bytes
        → Option (HttpRouteRule Regex)
    unfolding search better best_after find_in
    find_in_scopes own shared host =
        let both = not (is_empty own) && not (is_empty shared) in
        elim (highest_priority (own ++ shared) host) [
          | none ↦ none
          | some highest ↦ rule_of (search (own ++ shared) host highest both none)
        ]

    unfoldable pub find_http_route : RouteTable Regex → Bytes → ℕ → Option (HttpRouteRule Regex)
    find_http_route t host server_port =
        let port = get server_port t.listener_scopes in
        find_in_scopes (own_scopes port) (shared_scopes_of t port) (host_key host)
