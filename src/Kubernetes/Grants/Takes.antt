-- ===== src/Kubernetes/Grants/Takes.antt =====
-- src/kubernetes/reference_grants.rs: which routes a listener takes, in the terms of the Gateway API.
use mathlib.Core.Path.{subst}
use mathlib.Core.Bool.{false≢true}
use portail.Prelude.{
  Bool, true, false, not, ◌&&◌, ◌||◌, Option, none, some, List, [], ◌∷◌, ◌≡◌, ◌↔◌, ◌⊎◌, inl, inr,
  refl, sym, ap, arith, Bytes, bytes_eq, bytes_eq_iff, bytes_key, codes, get_or_else, if◌then◌else◌,
  Bool-cases,
}
use Prim.Native.String.{String}
use portail.Prelude.Map.{Map, get}
use portail.Kubernetes.Objects.{
  NamespacesFrom, from_all, from_same, from_selector, LabelSelector, AllowedNamespaces,
  RouteGroupKind, AllowedRoutes, Listener, TlsMode, passthrough, terminate, passes_through,
  listener_is_served,
}
use portail.Kubernetes.Grants.{
  gateway_group, protocol_allows, kinds_allow, from_allows, namespace_allowed, allowed_routes_allow,
  is_route_allowed_by_listener,
}
use portail.Kubernetes.Grants.Scope.{any_iff}
use portail.Kubernetes.Grants.Terms.{Serves, Admits, Reaches, IsOpen, LetsIn}
use portail.Kubernetes.Grants.Selectors.{found_iff}

kinds_iff :
    (route_kind : Bytes) (kinds : Option (List RouteGroupKind))
    → (kinds_allow route_kind kinds ≡ true) ↔ Admits route_kind kinds
kinds_iff route_kind none = (λ e. tt, λ e. refl)
kinds_iff route_kind (some []) = (λ e. tt, λ e. refl)
kinds_iff route_kind (some (k ∷ kinds)) =
    any_iff
      (λ k.
        bytes_eq k.kind route_kind && bytes_eq (get_or_else k.group gateway_group) gateway_group)
      (λ k. (k.kind ≡ route_kind) × ((k.group ≡ none) ⊎ (k.group ≡ some gateway_group))) (k ∷ kinds)
      (λ k. named k.kind k.group)
  where
    group_iff :
        (g : Option Bytes)
        → (bytes_eq (get_or_else g gateway_group) gateway_group ≡ true)
          ↔ ((g ≡ none) ⊎ (g ≡ some gateway_group))
    group_iff none = (λ e. inl refl, λ e. (bytes_eq_iff gateway_group gateway_group).1 refl)
    group_iff (some g) = ground (arith, bytes_eq_iff g gateway_group)

    named :
        (kind : Bytes) (g : Option Bytes)
        → ((bytes_eq kind route_kind && bytes_eq (get_or_else g gateway_group) gateway_group)
            ≡ true)
          ↔ ((kind ≡ route_kind) × ((g ≡ none) ⊎ (g ≡ some gateway_group)))
    named kind g = ground (arith, bytes_eq_iff kind route_kind, group_iff g)

Reaches-iff :
    (from : Option NamespacesFrom) (selector : Option LabelSelector) (gateway_ns route_ns : Bytes)
    (known : Map Bytes (Map Bytes Bytes))
    → (from_allows from selector gateway_ns route_ns known ≡ true)
      ↔ Reaches from selector gateway_ns route_ns known
Reaches-iff none selector gateway_ns route_ns known = bytes_eq_iff route_ns gateway_ns
Reaches-iff (some from_same) selector gateway_ns route_ns known = bytes_eq_iff route_ns gateway_ns
Reaches-iff (some from_all) selector gateway_ns route_ns known = (λ e. tt, λ e. refl)
Reaches-iff (some from_selector) selector gateway_ns route_ns known =
    found_iff selector (get route_ns known)

IsOpen-iff :
    (namespaces : Option AllowedNamespaces) (gateway_ns route_ns : Bytes)
    (known : Map Bytes (Map Bytes Bytes))
    → (namespace_allowed namespaces gateway_ns route_ns known ≡ true)
      ↔ IsOpen namespaces gateway_ns route_ns known
IsOpen-iff none gateway_ns route_ns known = bytes_eq_iff route_ns gateway_ns
IsOpen-iff (some namespaces) gateway_ns route_ns known =
    Reaches-iff namespaces.from namespaces.selector gateway_ns route_ns known

LetsIn-iff :
    (allowed : Option AllowedRoutes) (gateway_ns route_ns route_kind : Bytes)
    (known : Map Bytes (Map Bytes Bytes))
    → (allowed_routes_allow allowed gateway_ns route_ns route_kind known ≡ true)
      ↔ LetsIn allowed gateway_ns route_ns route_kind known
LetsIn-iff none gateway_ns route_ns route_kind known = bytes_eq_iff route_ns gateway_ns
LetsIn-iff (some allowed) gateway_ns route_ns route_kind known =
    guarded (kinds_iff route_kind allowed.kinds)
      (IsOpen-iff allowed.namespaces gateway_ns route_ns known)
  where
    guarded :
        {a b : Bool} {P Q : Type 0}
        → (a ≡ true) ↔ P
        → (b ≡ true) ↔ Q
        → ((if not a then false else b) ≡ true) ↔ (P × Q)
    guarded p q = ground (arith, p, q)

-- `listener_is_served`, by the listener's protocol and TLS mode.
abbrev served : (protocol : Bytes) → (tls : Option (Option TlsMode)) → Bool
served protocol tls =
    if bytes_eq protocol (codes "HTTP")
      || bytes_eq protocol (codes "HTTPS")
      || bytes_eq protocol (codes "TCP")
      || bytes_eq protocol (codes "UDP")
    then true
    else if bytes_eq protocol (codes "TLS")
    then passes_through tls
    else false

passes : (tls : Option (Option TlsMode)) → passes_through tls ≡ true → tls ≡ some (some passthrough)
passes none e = cc
passes (some none) e = cc
passes (some (some terminate)) e = cc
passes (some (some passthrough)) e = refl

allows-Serves :
    (protocol : Bytes) (tls : Option (Option TlsMode)) (route_kind : Bytes)
    → served protocol tls ≡ true
    → protocol_allows protocol route_kind ≡ true
    → Serves protocol tls route_kind
unfolding bytes_eq
allows-Serves protocol tls route_kind s e = elim (Bool-cases (bytes_eq protocol (codes "HTTP"))) [
  | inl t ↦ inl (named "HTTP" t, kind "HTTPRoute" (rw t at e))
  | inr f ↦ elim (Bool-cases (bytes_eq protocol (codes "HTTPS"))) [
    | inl t ↦ inr (inl (named "HTTPS" t, kind "HTTPRoute" (rw (f, t) at e)))
    | inr g ↦ elim (Bool-cases (bytes_eq protocol (codes "TLS"))) [
      | inl t ↦ inr (
          inr (
            inl (
              named "TLS" t,
              passes tls (encrypted (named "TLS" t)),
              kind "TLSRoute" (rw (f, g, t) at e),
            )))
      | inr h ↦ elim (Bool-cases (bytes_eq protocol (codes "TCP"))) [
        | inl t ↦ inr (inr (inr (inl (named "TCP" t, kind "TCPRoute" (rw (f, g, h, t) at e)))))
        | inr i ↦ elim (Bool-cases (bytes_eq protocol (codes "UDP"))) [
          | inl t ↦ inr (inr (inr (inr (named "UDP" t, kind "UDPRoute" (rw (f, g, h, i, t) at e)))))
          | inr j ↦ absurd (false≢true (rw (f, g, h, i, j) at e))
        ]
      ]
    ]
  ]
]
  where
    named : (s : String) → bytes_eq protocol (codes s) ≡ true → protocol ≡ codes s
    named s = (bytes_eq_iff protocol (codes s)).0

    kind : (s : String) → bytes_eq route_kind (codes s) ≡ true → route_kind ≡ codes s
    kind s = (bytes_eq_iff route_kind (codes s)).0

    encrypted : protocol ≡ codes "TLS" → passes_through tls ≡ true
    encrypted p = subst (λ x. served x tls ≡ true) p s

Serves-allows :
    (protocol : Bytes) (tls : Option (Option TlsMode)) (route_kind : Bytes)
    → Serves protocol tls route_kind
    → (served protocol tls ≡ true) × (protocol_allows protocol route_kind ≡ true)
unfolding bytes_eq
Serves-allows protocol tls route_kind serves = elim serves [
  | inl (p, k) ↦ both p k (refl, refl)
  | inr (inl (p, k)) ↦ both p k (refl, refl)
  | inr (inr (inl (p, t, k))) ↦ both p k (ap passes_through t, refl)
  | inr (inr (inr (inl (p, k)))) ↦ both p k (refl, refl)
  | inr (inr (inr (inr (p, k)))) ↦ both p k (refl, refl)
]
  where
    both :
        {a b : Bytes}
        → protocol ≡ a
        → route_kind ≡ b
        → (served a tls ≡ true) × (protocol_allows a b ≡ true)
        → (served protocol tls ≡ true) × (protocol_allows protocol route_kind ≡ true)
    both {a} {b} p k x = (
      subst (λ c. served c tls ≡ true) (sym p) x.0,
      subst (λ c. protocol_allows protocol c ≡ true) (sym k)
          (subst (λ c. protocol_allows c b ≡ true) (sym p) x.1),
    )

-- A listener takes a route exactly when its protocol, with TLS in passthrough mode only, serves the route's kind; the
-- kinds that it names, if it names any, have it, in the Gateway API's group or without a group; and the policy on
-- namespaces lets the route's namespace in. That is the Gateway's own one for Same and without a policy, any for All,
-- and for Selector one whose labels are known and, if there is a selector, have its pairs and meet its expressions.
pub is_route_allowed_by_listener_iff :
    (l : Listener) (gateway_ns route_ns route_kind : Bytes) (known : Map Bytes (Map Bytes Bytes))
    → (is_route_allowed_by_listener l gateway_ns route_ns route_kind known ≡ true) ↔ (
        Serves l.protocol l.tls route_kind
        × LetsIn l.allowed_routes gateway_ns route_ns route_kind known)
unfolding is_route_allowed_by_listener listener_is_served
is_route_allowed_by_listener_iff l gateway_ns route_ns route_kind known =
    guards (served l.protocol l.tls) (protocol_allows l.protocol route_kind)
      (allows-Serves l.protocol l.tls route_kind) (Serves-allows l.protocol l.tls route_kind)
      (LetsIn-iff l.allowed_routes gateway_ns route_ns route_kind known)
  where
    guards :
        (a b : Bool) {c : Bool} {P Q : Type 0}
        → (a ≡ true → b ≡ true → P)
        → (P → (a ≡ true) × (b ≡ true))
        → (c ≡ true) ↔ Q
        → ((if not a then false else if not b then false else c) ≡ true) ↔ (P × Q)
    guards true true p s q = (λ e. (p refl refl, q.0 e), λ x. q.1 x.1)
    guards true false p s q = (λ e. cc, λ x. absurd (false≢true (s x.0).1))
    guards false b p s q = (λ e. cc, λ x. absurd (false≢true (s x.0).0))
