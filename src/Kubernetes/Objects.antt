-- ===== src/Kubernetes/Objects.antt =====
-- The Gateway API objects as far as src/kubernetes/reference_grants.rs, parent_ref.rs and hostname.rs look into them.
use portail.Prelude.{
  ℕ, Bool, true, false, ◌&&◌, ◌||◌, Option, none, some, List, ◌==◌, if◌then◌else◌, Bytes, bytes_eq,
  codes, any, is_empty, get_or_else,
}
use portail.Prelude.Map.{Map}
use portail.Routing.Hosts.{hostnames_intersect}

-- A 32-bit port number of an object, which may be negative: `negsuc n` is `- (n + 1)`.
pub data ℤ : Type 0 where
  pos negsuc : ℕ → ℤ

abbrev pub int_beq : ℤ → ℤ → Bool
int_beq (pos m) (pos n) = m == n
int_beq (pos m) (negsuc n) = false
int_beq (negsuc m) (pos n) = false
int_beq (negsuc m) (negsuc n) = m == n

pub data NamespacesFrom : Type 0 where
  from_all from_same from_selector : NamespacesFrom

pub data TlsMode : Type 0 where
  terminate passthrough : TlsMode

pub record MatchExpression : Type 0 where
  pub key : Bytes
  pub operator : Bytes
  pub expected : Option (List Bytes)

pub record LabelSelector : Type 0 where
  pub match_labels : Option (Map Bytes Bytes)
  pub match_expressions : Option (List MatchExpression)

pub record AllowedNamespaces : Type 0 where
  pub from : Option NamespacesFrom
  pub selector : Option LabelSelector

pub record RouteGroupKind : Type 0 where
  pub group : Option Bytes
  pub kind : Bytes

pub record AllowedRoutes : Type 0 where
  pub kinds : Option (List RouteGroupKind)
  pub namespaces : Option AllowedNamespaces

pub record Listener : Type 0 where
  pub name : Bytes
  pub port : ℤ
  pub protocol : Bytes
  pub hostname : Option Bytes
  -- The mode of the `tls` stanza, if there is one.
  pub tls : Option (Option TlsMode)
  pub allowed_routes : Option AllowedRoutes

pub record ParentRef : Type 0 where
  pub name : Bytes
  pub section_name : Option Bytes
  pub group : Option Bytes
  pub kind : Option Bytes
  pub namespace : Option Bytes
  pub port : Option ℤ

pub record GrantFrom : Type 0 where
  pub group : Bytes
  pub kind : Bytes
  pub namespace : Bytes

pub record GrantTo : Type 0 where
  pub group : Bytes
  pub kind : Bytes
  pub name : Option Bytes

pub record ReferenceGrant : Type 0 where
  pub namespace : Option Bytes
  pub from : List GrantFrom
  pub to : List GrantTo

-- `Option::is_none_or`.
abbrev pub is_none_or {ℓ} : {A : Type ℓ} → Option A → (A → Bool) → Bool
is_none_or none p = true
is_none_or (some a) p = p a

-- hostname.rs: `hostnames_intersect`.
unfoldable pub route_hostnames_intersect : Option Bytes → List Bytes → Bool
route_hostnames_intersect none route_hostnames = true
route_hostnames_intersect (some listener_hn) route_hostnames =
    if is_empty route_hostnames then true else any (hostnames_intersect listener_hn) route_hostnames

abbrev pub parent_ref_matches_gateway : ParentRef → Bytes → Bytes → Bytes → Bool
parent_ref_matches_gateway pr route_ns gateway_name gateway_ns =
    bytes_eq pr.name gateway_name
    && is_none_or pr.group (λ g. bytes_eq g (codes "gateway.networking.k8s.io"))
    && is_none_or pr.kind (λ k. bytes_eq k (codes "Gateway"))
    && bytes_eq (get_or_else pr.namespace route_ns) gateway_ns

unfoldable pub route_targets_gateway : Option (List ParentRef) → Bytes → Bytes → Bytes → Bool
route_targets_gateway none route_ns gateway_name gateway_ns = false
route_targets_gateway (some refs) route_ns gateway_name gateway_ns =
    any (λ pr. parent_ref_matches_gateway pr route_ns gateway_name gateway_ns) refs

abbrev is_passthrough : Option TlsMode → Bool
is_passthrough (some passthrough) = true
is_passthrough _ = false

abbrev pub passes_through : Option (Option TlsMode) → Bool
passes_through none = false
passes_through (some mode) = is_passthrough mode

-- reconciler/mod.rs: `listener_is_served`.
unfoldable pub listener_is_served : Listener → Bool
listener_is_served l =
    if bytes_eq l.protocol (codes "HTTP")
      || bytes_eq l.protocol (codes "HTTPS")
      || bytes_eq l.protocol (codes "TCP")
      || bytes_eq l.protocol (codes "UDP")
    then true
    else if bytes_eq l.protocol (codes "TLS")
    then passes_through l.tls
    else false
