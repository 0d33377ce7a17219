-- ===== src/Routing/Tls.antt =====
-- src/routing/mod.rs: the routes of TLS passthrough connections. The FNV hash of a route is the parameter `hash`, of the
-- port, the listener's hostname, the kind and the name.
pub mod Forward
pub mod Best
use portail.Prelude.{
  ℕ, Bool, true, false, Option, none, some, List, [], ◌∷◌, ◌++◌, map, ◌==◌, if◌then◌else◌, Bytes,
  bytes_eq, bytes_key, nat_eq, option_beq, find, is_empty, get_or_else,
}
use portail.Prelude.Map.{Map, get}
use portail.Net.{SocketAddr}
use portail.Routing.Types.{Backend, BackendAction, is_reject}
use portail.Routing.Hosts.{parent_domains}
use portail.Routing.Select.{select_l4_backend}
use portail.Routing.Table.{TlsScope, RouteTable, first_of}
use portail.Routing.Scopes.{to_list}

pub data PassthroughMiss : Type 0 where
  no_route no_backends no_weight rejected : PassthroughMiss

pub data Resolved : Type 0 where
  ok : SocketAddr → Resolved
  err : PassthroughMiss → Resolved

-- The scope of the port whose hostname is the listener's.
abbrev own_scope : Option (List TlsScope) → Option Bytes → Option TlsScope
own_scope none listener = none
own_scope (some scopes) listener =
    find (λ s. option_beq bytes_eq s.listener_hostname listener) scopes

module _ (hash : ℕ → Bytes → ℕ → Bytes → ℕ) where
  -- The closure `key`.
  abbrev key : ℕ → TlsScope → ℕ → Bytes → ℕ
  key port scope kind name = hash port (get_or_else scope.listener_hostname []) kind name

  abbrev keyed : Option (List Backend) → ℕ → Option (List Backend × ℕ)
  keyed none k = none
  keyed (some backends) k = some (backends, k)

  -- The first scope with something, as each of the loops looks for it.
  unfoldable pub first_route :
      (TlsScope → Option (List Backend))
      → (ℕ → TlsScope → ℕ)
      → List (ℕ × TlsScope)
      → Option (List Backend × ℕ)
  first_route f k [] = none
  first_route f k (s ∷ scopes) = first_of (keyed (f s.1) (k s.0 s.1)) (first_route f k scopes)

  abbrev pub exact_route : Bytes → List (ℕ × TlsScope) → Option (List Backend × ℕ)
  exact_route sni = first_route (λ s. get sni s.exact) (λ port s. key port s b'=' sni)

  abbrev pub wildcard_route : Bytes → List (ℕ × TlsScope) → Option (List Backend × ℕ)
  wildcard_route parent =
      first_route (λ s. get parent s.wildcard) (λ port s. key port s b'*' parent)

  unfoldable pub parents_route : List Bytes → List (ℕ × TlsScope) → Option (List Backend × ℕ)
  parents_route [] scopes = none
  parents_route (parent ∷ parents) scopes =
      first_of (wildcard_route parent scopes) (parents_route parents scopes)

  abbrev pub catch_all_route : List (ℕ × TlsScope) → Option (List Backend × ℕ)
  catch_all_route = first_route (λ s. s.catch_all) (λ port s. key port s b'.' [])

  -- The route that an SNI selects, if the hello sent one.
  unfoldable pub named_route : Option Bytes → List (ℕ × TlsScope) → Option (List Backend × ℕ)
  named_route none scopes = none
  named_route (some sni) scopes =
      first_of (exact_route sni scopes) (parents_route (parent_domains sni) scopes)

  module _ {Regex : Type 0} (t : RouteTable Regex) (sni : Option Bytes) (server_port : ℕ)
      (listener : Option Bytes) where
    -- The listener's scope on the port, and the scopes of port 0.
    abbrev pub tls_scopes_of : List (ℕ × TlsScope)
    tls_scopes_of =
        let own = own_scope (get server_port t.tls_scopes) listener in
        let shared = if server_port == 0 then [] else get_or_else (get 0 t.tls_scopes) [] in
        map (λ s. (server_port, s)) (to_list own) ++ map (λ s. (0, s)) shared

    unfoldable pub tls_route : Option (List Backend × ℕ)
    tls_route = first_of (named_route sni tls_scopes_of) (catch_all_route tls_scopes_of)

    -- The TLS route, else the TCP route of the port with the counter of the TCP path.
    unfoldable pub passthrough_route : Option (List Backend × ℕ)
    passthrough_route = first_of tls_route (keyed (get server_port t.tcp_routes) server_port)

abbrev pub resolved : Option Backend → Resolved
resolved none = err no_weight
resolved (some b) = if is_reject b.action then err rejected else ok b.socket_addr

-- With the route found: the counters after, and the result.
unfoldable pub resolve_among :
    (SocketAddr → Bool) → Map ℕ ℕ → Option (List Backend × ℕ) → Map ℕ ℕ × Resolved
resolve_among healthy route_counters none = (route_counters, err no_route)
resolve_among healthy route_counters (some (backends, k)) =
    let (counters, b) = select_l4_backend healthy route_counters k backends in
    if is_empty backends then (route_counters, err no_backends) else (counters, resolved b)

unfoldable pub resolve_tls_passthrough :
    (ℕ → Bytes → ℕ → Bytes → ℕ)
    → (SocketAddr → Bool)
    → Map ℕ ℕ
    → {Regex : Type 0} → RouteTable Regex
    → Option Bytes
    → ℕ
    → Option Bytes
    → Map ℕ ℕ × Resolved
unfolding passthrough_route
resolve_tls_passthrough hash healthy route_counters t sni server_port listener =
    resolve_among healthy route_counters (passthrough_route hash t sni server_port listener)
