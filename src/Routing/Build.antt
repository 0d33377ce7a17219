-- ===== src/Routing/Build.antt =====
-- src/routing/build.rs: how a route table is put together. A method that changes the table returns the changed table.
pub mod Registered
pub mod First
pub mod Resolve
pub mod Hostnames
use portail.Prelude.{
  ℕ, zero, suc, ◌+◌, ◌-◌, ◌^◌, ◌%◌, Bool, true, false, not, ◌&&◌, ◌||◌, Option, none, some, List,
  [], ◌∷◌, ◌++◌, map, ltb, leb, ◌==◌, if◌then◌else◌, Bytes, bytes_eq, bytes_key, nat_eq, option_beq,
  any, is_empty, is_some, to_lower, get_or_else, get_elem?, Eq,
}
use portail.Prelude.Map.{Map, get, insert}
use portail.Net.{SocketAddr, v4}
use portail.Routing.Types.{Backend, forward, reject, HttpFilter, request_mirror, HttpRouteRule}
use portail.Routing.Hosts.{wildcard_parent}
use portail.Routing.Order.{sort_rules}
use portail.Routing.Select.{weight_sum}
use portail.Routing.Select.Owner.{cumulative_from}
use portail.Routing.Table.{HostEntry, ListenerScope, PortScopes, TlsScope, RouteTable}

abbrev pub lower_hostname : Option Bytes → Option Bytes
lower_hostname none = none
lower_hostname (some h) = some (to_lower h)

-- `HashMap::entry` and `Entry::or_insert_with`, and then a change of the entry.
abbrev upsert {ℓ} : {V : Type ℓ} → Bytes → V → (V → V) → Map Bytes V → Map Bytes V
upsert k new f m = insert k (f (get_or_else (get k m) new)) m

abbrev push {ℓ} : {A : Type ℓ} → A → List A → List A
push a xs = xs ++ a ∷ []

abbrev map_values {ℓ κ} : {K : Type ℓ} {V : Type κ} → (V → V) → Map K V → Map K V
map_values f m = map (λ b. (b.0, f b.1)) m

module _ {Regex : Type 0} where
  unfoldable pub new_scope : ℕ → Option Bytes → ListenerScope Regex
  new_scope port listener_hostname = record {
    port = port;
    listener_hostname = lower_hostname listener_hostname;
    http_routes = [];
    wildcard_http_routes = [];
    catch_all_http_routes = none;
  }

  -- The metadata of `push_route`.
  unfoldable pub prepare : Bytes → HttpRouteRule Regex → HttpRouteRule Regex
  prepare host_lower rule = record rule {
    has_filters = not (is_empty rule.filters) || any (λ b. not (is_empty b.filters)) rule.backends;
    cumulative_weights = cumulative_from 0 rule.backends;
    total_weight = weight_sum rule.backends;
    requests = some host_lower;
  }

  -- Where `push_route` puts a rule of a hostname that is a wildcard with the parent, or exact; `after` is what the
  -- caller does with the entry.
  put_host :
      Option Bytes
      → Bytes
      → HttpRouteRule Regex
      → (HostEntry Regex → HostEntry Regex)
      → ListenerScope Regex
      → ListenerScope Regex
  put_host (some parent) host_lower rule after s = record s {
    wildcard_http_routes = upsert parent [] (λ e. after (push rule e)) s.wildcard_http_routes;
  }
  put_host none host_lower rule after s = record s {
    http_routes = upsert host_lower [] (λ e. after (push rule e)) s.http_routes;
  }

  unfoldable pub push_route :
      Bytes
      → HttpRouteRule Regex
      → (HostEntry Regex → HostEntry Regex)
      → ListenerScope Regex
      → ListenerScope Regex
  unfolding prepare put_host
  push_route route_host rule after s =
      let host_lower = to_lower route_host in
      let prepared = prepare host_lower rule in
      if bytes_eq host_lower (b'*' ∷ [])
      then record s {
        catch_all_http_routes =
            some (after (push prepared (get_or_else s.catch_all_http_routes [])));
      }
      else put_host (wildcard_parent host_lower) host_lower prepared after s

  unfoldable pub new_table : RouteTable Regex
  new_table = record {
    listener_scopes = [];
    shared_scopes = [];
    shared_on_every_port = true;
    tcp_routes = [];
    udp_routes = [];
    tls_scopes = [];
  }

  -- The change of the first scope with the hostname, or of a new one behind the others.
  unfoldable pub update_scope :
      ℕ
      → Option Bytes
      → (ListenerScope Regex → ListenerScope Regex)
      → List (ListenerScope Regex)
      → List (ListenerScope Regex)
  unfolding new_scope
  update_scope port normalized f [] = f (new_scope port normalized) ∷ []
  update_scope port normalized f (s ∷ ss) =
      if option_beq bytes_eq s.listener_hostname normalized
      then f s ∷ ss
      else s ∷ update_scope port normalized f ss

  abbrev pub default_port : PortScopes Regex
  default_port = record { scopes = []; shared = false }

  -- `scope_mut` and the change made through its reference.
  unfoldable pub scope_mut :
      ℕ
      → Option Bytes
      → (ListenerScope Regex → ListenerScope Regex)
      → RouteTable Regex
      → RouteTable Regex
  unfolding update_scope
  scope_mut listener_port listener_hostname f t =
      let normalized = lower_hostname listener_hostname in
      let p = get_or_else (get listener_port t.listener_scopes) default_port in
      if listener_port == 0
      then record t { shared_scopes = update_scope 0 normalized f t.shared_scopes }
      else record t {
        listener_scopes =
            insert listener_port
              (record p { scopes = update_scope listener_port normalized f p.scopes })
              t.listener_scopes;
      }

  unfoldable pub add_http_route_for_listener :
      ℕ → Option Bytes → Bytes → HttpRouteRule Regex → RouteTable Regex → RouteTable Regex
  unfolding scope_mut
  add_http_route_for_listener listener_port listener_hostname route_host rule =
      scope_mut listener_port listener_hostname (push_route route_host rule sort_rules)

  unfoldable pub push_http_route_for_listener :
      ℕ → Option Bytes → Bytes → HttpRouteRule Regex → RouteTable Regex → RouteTable Regex
  unfolding scope_mut
  push_http_route_for_listener listener_port listener_hostname route_host rule =
      scope_mut listener_port listener_hostname (push_route route_host rule (λ e. e))

  unfoldable pub add_http_route : Bytes → HttpRouteRule Regex → RouteTable Regex → RouteTable Regex
  unfolding add_http_route_for_listener
  add_http_route host rule = add_http_route_for_listener 0 none host rule

  -- Every host entry of a scope, sorted.
  unfoldable pub sort_scope : ListenerScope Regex → ListenerScope Regex
  sort_scope s = record s {
    http_routes = map_values sort_rules s.http_routes;
    wildcard_http_routes = map_values sort_rules s.wildcard_http_routes;
    catch_all_http_routes = elim s.catch_all_http_routes [
      | none ↦ none
      | some e ↦ some (sort_rules e)
    ];
  }

  unfoldable pub sort_http_routes : RouteTable Regex → RouteTable Regex
  unfolding sort_scope
  sort_http_routes t = record t {
    listener_scopes =
        map_values (λ p. record p { scopes = map sort_scope p.scopes }) t.listener_scopes;
    shared_scopes = map sort_scope t.shared_scopes;
  }

  share_ports : List ℕ → Map ℕ (PortScopes Regex) → Map ℕ (PortScopes Regex)
  share_ports [] m = m
  share_ports (port ∷ ports) m =
      let p = get_or_else (get port m) default_port in
      share_ports ports (insert port (record p { shared = true }) m)

  unfoldable pub share_any_port_scopes_on : List ℕ → RouteTable Regex → RouteTable Regex
  unfolding share_ports
  share_any_port_scopes_on ports t = record t {
    shared_on_every_port = false;
    listener_scopes = share_ports ports t.listener_scopes;
  }
