-- ===== src/Kubernetes/Grants.antt =====
-- src/kubernetes/reference_grants.rs: which routes a listener takes, and which references leave their namespace.
pub mod Attach
pub mod Scope
pub mod Terms
pub mod Selectors
pub mod Takes
use portail.Prelude.{
  ℕ, Bool, true, false, not, ◌&&◌, ◌||◌, Option, none, some, List, [], ◌∷◌, ◌++◌, ltb,
  if◌then◌else◌, Bytes, bytes_eq, bytes_key, codes, any, all, is_empty, is_some, is_some_and,
  get_or_else,
}
use portail.Prelude.Map.{Map, get}
use portail.Kubernetes.Objects.{
  int_beq, NamespacesFrom, from_all, from_same, from_selector, MatchExpression, LabelSelector,
  AllowedNamespaces, RouteGroupKind, AllowedRoutes, Listener, ParentRef, GrantFrom, GrantTo,
  ReferenceGrant, is_none_or, route_hostnames_intersect, listener_is_served,
}

-- The protocol's own kind of route.
abbrev pub protocol_allows : Bytes → Bytes → Bool
protocol_allows protocol route_kind =
    if bytes_eq protocol (codes "HTTP") || bytes_eq protocol (codes "HTTPS")
    then bytes_eq route_kind (codes "HTTPRoute")
    else if bytes_eq protocol (codes "TLS")
    then bytes_eq route_kind (codes "TLSRoute")
    else if bytes_eq protocol (codes "TCP")
    then bytes_eq route_kind (codes "TCPRoute")
    else if bytes_eq protocol (codes "UDP")
    then bytes_eq route_kind (codes "UDPRoute")
    else false

abbrev pub gateway_group : Bytes
gateway_group = codes "gateway.networking.k8s.io"

abbrev pub kinds_allow : Bytes → Option (List RouteGroupKind) → Bool
kinds_allow route_kind none = true
kinds_allow route_kind (some kinds) =
    is_empty kinds
    || any
        (λ k.
          bytes_eq k.kind route_kind && bytes_eq (get_or_else k.group gateway_group) gateway_group)
        kinds

abbrev pub expression_matches : Map Bytes Bytes → MatchExpression → Bool
expression_matches labels expr =
    let has = get expr.key labels in
    let vals = get_or_else expr.expected [] in
    if bytes_eq expr.operator (codes "In")
    then is_some_and has (λ v. any (bytes_eq v) vals)
    else if bytes_eq expr.operator (codes "NotIn")
    then not (is_some_and has (λ v. any (bytes_eq v) vals))
    else if bytes_eq expr.operator (codes "Exists")
    then is_some has
    else if bytes_eq expr.operator (codes "DoesNotExist")
    then not (is_some has)
    else false

abbrev pub selector_matches : LabelSelector → Map Bytes Bytes → Bool
selector_matches selector labels =
    all (λ kv. is_some_and (get kv.0 labels) (bytes_eq kv.1)) (get_or_else selector.match_labels [])
    && all (expression_matches labels) (get_or_else selector.match_expressions [])

abbrev pub matches_selector : Option LabelSelector → Option (Map Bytes Bytes) → Bool
matches_selector selector none = false
matches_selector none (some labels) = true
matches_selector (some selector) (some labels) = selector_matches selector labels

-- The policy `from`, with its selector.
abbrev pub from_allows :
    Option NamespacesFrom
    → Option LabelSelector
    → Bytes
    → Bytes
    → Map Bytes (Map Bytes Bytes)
    → Bool
from_allows none selector gateway_ns route_ns namespace_labels = bytes_eq route_ns gateway_ns
from_allows (some from_same) selector gateway_ns route_ns namespace_labels =
    bytes_eq route_ns gateway_ns
from_allows (some from_all) selector gateway_ns route_ns namespace_labels = true
from_allows (some from_selector) selector gateway_ns route_ns namespace_labels =
    matches_selector selector (get route_ns namespace_labels)

abbrev pub namespace_allowed :
    Option AllowedNamespaces → Bytes → Bytes → Map Bytes (Map Bytes Bytes) → Bool
namespace_allowed none gateway_ns route_ns namespace_labels = bytes_eq route_ns gateway_ns
namespace_allowed (some namespaces) gateway_ns route_ns namespace_labels =
    from_allows namespaces.from namespaces.selector gateway_ns route_ns namespace_labels

abbrev pub allowed_routes_allow :
    Option AllowedRoutes → Bytes → Bytes → Bytes → Map Bytes (Map Bytes Bytes) → Bool
allowed_routes_allow none gateway_ns route_ns route_kind namespace_labels =
    bytes_eq route_ns gateway_ns
allowed_routes_allow (some allowed) gateway_ns route_ns route_kind namespace_labels =
    if not (kinds_allow route_kind allowed.kinds)
    then false
    else namespace_allowed allowed.namespaces gateway_ns route_ns namespace_labels

unfoldable pub is_route_allowed_by_listener :
    Listener → Bytes → Bytes → Bytes → Map Bytes (Map Bytes Bytes) → Bool
is_route_allowed_by_listener listener gateway_ns route_ns route_kind namespace_labels =
    if not (listener_is_served listener)
    then false
    else if not (protocol_allows listener.protocol route_kind)
    then false
    else allowed_routes_allow listener.allowed_routes gateway_ns route_ns route_kind
        namespace_labels

pub data Rejection : Type 0 where
  no_matching_parent no_matching_listener_hostname not_allowed_by_listeners : Rejection

abbrev pub priority : Rejection → ℕ
priority no_matching_parent = 0
priority no_matching_listener_hostname = 1
priority not_allowed_by_listeners = 2

pub data Attachment : Type 0 where
  ok : List Bytes → Attachment
  err : Rejection → Attachment

-- The new reason if it is more specific.
abbrev pub raised : Rejection → Rejection → Rejection
raised reason best_reason =
    if ltb (priority best_reason) (priority reason) then reason else best_reason

module _ (pr : ParentRef) (route_hostnames : List Bytes) (is_allowed : Listener → Bool) where
  -- A round of the loop of `listeners_for_parent_ref`.
  unfoldable pub examine : Listener → List Bytes × Rejection → List Bytes × Rejection
  examine listener (allowed, best_reason) =
      if not (is_none_or pr.section_name (λ section. bytes_eq section listener.name))
      then (allowed, best_reason)
      else if not (is_none_or pr.port (λ port. int_beq port listener.port))
      then (allowed, best_reason)
      else if not (route_hostnames_intersect listener.hostname route_hostnames)
      then (allowed, raised no_matching_listener_hostname best_reason)
      else if is_allowed listener
      then (allowed ++ listener.name ∷ [], best_reason)
      else (allowed, raised not_allowed_by_listeners best_reason)

  unfoldable pub examine_all : List Listener → List Bytes × Rejection → List Bytes × Rejection
  examine_all [] state = state
  examine_all (l ∷ ls) state = examine_all ls (examine l state)

unfoldable pub listeners_for_parent_ref :
    ParentRef
    → List Listener
    → Bytes
    → Bytes
    → Bytes
    → List Bytes
    → Map Bytes (Map Bytes Bytes)
    → Attachment
unfolding examine_all
listeners_for_parent_ref pr listeners gateway_ns route_ns route_kind route_hostnames
      namespace_labels =
    let (allowed, best_reason) =
      examine_all pr route_hostnames
        (λ l. is_route_allowed_by_listener l gateway_ns route_ns route_kind namespace_labels)
        listeners ([], no_matching_parent) in
    if is_empty allowed then err best_reason else ok allowed

-- What one grant allows to a reference from another namespace.
abbrev pub grant_allows :
    ReferenceGrant → Bytes → Bytes → Bytes → Bytes → Bytes → Bytes → Bytes → Bool
grant_allows grant from_group from_kind from_namespace to_group to_kind to_namespace to_name =
    bytes_eq (get_or_else grant.namespace (codes "default")) to_namespace
    && any
        (λ f.
          bytes_eq f.group from_group
          && bytes_eq f.kind from_kind
          && bytes_eq f.namespace from_namespace)
        grant.from
    && any
        (λ t.
          bytes_eq t.group to_group
          && bytes_eq t.kind to_kind
          && is_none_or t.name (λ n. bytes_eq n to_name))
        grant.to

unfoldable pub is_reference_allowed :
    List ReferenceGrant → Bytes → Bytes → Bytes → Bytes → Bytes → Bytes → Bytes → Bool
is_reference_allowed grants from_group from_kind from_namespace to_group to_kind to_namespace
      to_name =
    if bytes_eq from_namespace to_namespace
    then true
    else any
        (λ grant.
          grant_allows grant from_group from_kind from_namespace to_group to_kind to_namespace
            to_name)
        grants
