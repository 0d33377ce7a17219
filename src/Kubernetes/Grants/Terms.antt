-- ===== src/Kubernetes/Grants/Terms.antt =====
-- What a listener of the Gateway API takes, apart from the code that decides it.
use portail.Prelude.{
  Option, none, some, List, [], ◌∷◌, ◌≡◌, ◌⊎◌, Bytes, bytes_key, codes, All, get_or_else,
}
use portail.Prelude.Map.{Map, get}
use portail.Kubernetes.Objects.{
  NamespacesFrom, from_all, from_same, from_selector, LabelSelector, MatchExpression,
  AllowedNamespaces, RouteGroupKind, AllowedRoutes, TlsMode, passthrough,
}
use portail.Kubernetes.Grants.{gateway_group}
use portail.Kubernetes.Grants.Scope.{Exists}

-- The kind of route that a listener of the protocol serves; TLS is served in passthrough only.
abbrev pub Serves :
    (protocol : Bytes) → (tls : Option (Option TlsMode)) → (route_kind : Bytes) → Type 0
Serves protocol tls route_kind =
    ((protocol ≡ codes "HTTP") × (route_kind ≡ codes "HTTPRoute"))
    ⊎ ((protocol ≡ codes "HTTPS") × (route_kind ≡ codes "HTTPRoute"))
    ⊎ ((protocol ≡ codes "TLS") × (tls ≡ some (some passthrough)) × (route_kind ≡ codes "TLSRoute"))
    ⊎ ((protocol ≡ codes "TCP") × (route_kind ≡ codes "TCPRoute"))
    ⊎ ((protocol ≡ codes "UDP") × (route_kind ≡ codes "UDPRoute"))

-- The kind is one of those that the listener names, of the Gateway API's group, if it names any.
abbrev pub Admits : (route_kind : Bytes) → Option (List RouteGroupKind) → Type 0
Admits route_kind none = Unit
Admits route_kind (some []) = Unit
Admits route_kind (some (k ∷ kinds)) =
    Exists
      (λ (k : RouteGroupKind).
        (k.kind ≡ route_kind) × ((k.group ≡ none) ⊎ (k.group ≡ some gateway_group)))
      (k ∷ kinds)

-- One of the values.
abbrev pub OneOf : List Bytes → Bytes → Type 0
OneOf values v = Exists (λ w. v ≡ w) values

abbrev pub Meets : Map Bytes Bytes → MatchExpression → Type 0
Meets labels expr =
    let values = get_or_else expr.expected [] in
    ((expr.operator ≡ codes "In") × ((v : Bytes) × (get expr.key labels ≡ some v) × OneOf values v))
    ⊎ ((expr.operator ≡ codes "NotIn")
        × ((v : Bytes) → get expr.key labels ≡ some v → OneOf values v → ⊥))
    ⊎ ((expr.operator ≡ codes "Exists") × ((v : Bytes) × (get expr.key labels ≡ some v)))
    ⊎ ((expr.operator ≡ codes "DoesNotExist") × (get expr.key labels ≡ none))

-- The labels have every pair of the selector's, and meet each of its expressions.
abbrev pub Selects : Option LabelSelector → Map Bytes Bytes → Type 0
Selects none labels = Unit
Selects (some selector) labels =
    All (λ (kv : Bytes × Bytes). get kv.0 labels ≡ some kv.1) (get_or_else selector.match_labels [])
    × All (Meets labels) (get_or_else selector.match_expressions [])

abbrev pub Reaches :
    Option NamespacesFrom
    → Option LabelSelector
    → (gateway_ns route_ns : Bytes) → Map Bytes (Map Bytes Bytes)
    → Type 0
Reaches none selector gateway_ns route_ns known = route_ns ≡ gateway_ns
Reaches (some from_same) selector gateway_ns route_ns known = route_ns ≡ gateway_ns
Reaches (some from_all) selector gateway_ns route_ns known = Unit
Reaches (some from_selector) selector gateway_ns route_ns known =
    (labels : Map Bytes Bytes) × (get route_ns known ≡ some labels) × Selects selector labels

abbrev pub IsOpen :
    Option AllowedNamespaces → (gateway_ns route_ns : Bytes) → Map Bytes (Map Bytes Bytes) → Type 0
IsOpen none gateway_ns route_ns known = route_ns ≡ gateway_ns
IsOpen (some namespaces) gateway_ns route_ns known =
    Reaches namespaces.from namespaces.selector gateway_ns route_ns known

-- What the listener says about kinds and namespaces lets the route in: without a word, its own namespace's routes.
abbrev pub LetsIn :
    Option AllowedRoutes
    → (gateway_ns route_ns route_kind : Bytes) → Map Bytes (Map Bytes Bytes)
    → Type 0
LetsIn none gateway_ns route_ns route_kind known = route_ns ≡ gateway_ns
LetsIn (some allowed) gateway_ns route_ns route_kind known =
    Admits route_kind allowed.kinds × IsOpen allowed.namespaces gateway_ns route_ns known
