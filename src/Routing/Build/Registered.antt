-- ===== src/Routing/Build/Registered.antt =====
-- src/routing/build.rs: the registration of TCP, UDP and TLS routes, of which the first one wins.
use portail.Prelude.{
  ℕ, Bool, true, false, Option, none, some, List, [], ◌∷◌, if◌then◌else◌, Bytes, bytes_eq,
  bytes_key, nat_eq, option_beq, is_some, to_lower, get_or_else, Eq,
}
use portail.Prelude.Map.{Map, get, insert}
use portail.Routing.Types.{Backend}
use portail.Routing.Hosts.{wildcard_parent}
use portail.Routing.Table.{TlsScope, RouteTable}
use portail.Routing.Build.{lower_hostname}

-- Whether the key was free, and the map with the backends under it if it was.
unfoldable pub insert_first {ℓ} :
    {K : Type ℓ} ⦃e : Eq K⦄ → Map K (List Backend) → K → List Backend → Map K (List Backend) × Bool
insert_first m key backends =
    if is_some (get key m) then (m, false) else (insert key backends m, true)

-- The registration of a hostname that is a wildcard with the parent, or exact.
add_tls_host : Option Bytes → TlsScope → Bytes → List Backend → TlsScope × Bool
unfolding insert_first
add_tls_host (some parent) scope host_lower backends =
    let (m, free) = insert_first scope.wildcard parent backends in
    (record scope { wildcard = m }, free)
add_tls_host none scope host_lower backends =
    let (m, free) = insert_first scope.exact host_lower backends in
    (record scope { exact = m }, free)

unfoldable pub add_tls_to_scope : TlsScope → Bytes → List Backend → TlsScope × Bool
unfolding add_tls_host
add_tls_to_scope scope host_lower backends =
    if bytes_eq host_lower (b'*' ∷ [])
    then if is_some scope.catch_all
      then (scope, false)
      else (record scope { catch_all = some backends }, true)
    else add_tls_host (wildcard_parent host_lower) scope host_lower backends

abbrev default_tls : Option Bytes → TlsScope
default_tls listener_hostname = record {
  listener_hostname = listener_hostname;
  exact = [];
  wildcard = [];
  catch_all = none;
}

unfoldable pub add_tls_in :
    Option Bytes → Bytes → List Backend → List TlsScope → List TlsScope × Bool
unfolding add_tls_to_scope
add_tls_in listener_hostname host_lower backends [] =
    let (s, free) = add_tls_to_scope (default_tls listener_hostname) host_lower backends in
    (s ∷ [], free)
add_tls_in listener_hostname host_lower backends (s ∷ ss) =
    let (s', free) = add_tls_to_scope s host_lower backends in
    let (ss', free') = add_tls_in listener_hostname host_lower backends ss in
    if option_beq bytes_eq s.listener_hostname listener_hostname
    then (s' ∷ ss, free)
    else (s ∷ ss', free')

module _ {Regex : Type 0} where
  unfoldable pub add_tcp_route : ℕ → List Backend → RouteTable Regex → RouteTable Regex × Bool
  unfolding insert_first
  add_tcp_route port backends t =
      let (m, free) = insert_first t.tcp_routes port backends in (record t { tcp_routes = m }, free)

  unfoldable pub add_udp_route : ℕ → List Backend → RouteTable Regex → RouteTable Regex × Bool
  unfolding insert_first
  add_udp_route port backends t =
      let (m, free) = insert_first t.udp_routes port backends in (record t { udp_routes = m }, free)

  unfoldable pub add_tls_route_for_listener :
      ℕ → Option Bytes → Bytes → List Backend → RouteTable Regex → RouteTable Regex × Bool
  unfolding add_tls_in
  add_tls_route_for_listener port listener_hostname route_host backends t =
      let scopes = get_or_else (get port t.tls_scopes) [] in
      let (scopes', free) =
        add_tls_in (lower_hostname listener_hostname) (to_lower route_host) backends scopes in
      (record t { tls_scopes = insert port scopes' t.tls_scopes }, free)

  unfoldable pub add_tls_route :
      ℕ → Bytes → List Backend → RouteTable Regex → RouteTable Regex × Bool
  unfolding add_tls_route_for_listener
  add_tls_route port hostname = add_tls_route_for_listener port none hostname
