-- ===== src/Routing/Scopes.antt =====
-- src/routing/mod.rs: the walks over every scope of the route table.
use portail.Prelude.{Option, none, some, List, [], ◌∷◌, ◌++◌, map}
use portail.Prelude.Map.{Map}
use portail.Routing.Types.{Backend}
use portail.Routing.Table.{HostEntry, ListenerScope, PortScopes, TlsScope, RouteTable}

abbrev pub flat_map {ℓ κ} : {A : Type ℓ} {B : Type κ} → (A → List B) → List A → List B
flat_map f [] = []
flat_map f (x ∷ xs) = f x ++ flat_map f xs

abbrev pub values {ℓ κ} : {K : Type ℓ} {V : Type κ} → Map K V → List V
values m = map (λ b. b.1) m

abbrev pub to_list {ℓ} : {A : Type ℓ} → Option A → List A
to_list none = []
to_list (some x) = x ∷ []

-- `TlsScope::backends`.
abbrev pub tls_backends : TlsScope → List (List Backend)
tls_backends scope = values scope.exact ++ values scope.wildcard ++ to_list scope.catch_all

module _ {Regex : Type 0} where
  abbrev pub http_scopes : RouteTable Regex → List (ListenerScope Regex)
  http_scopes t =
      flat_map (λ (p : PortScopes Regex). p.scopes) (values t.listener_scopes) ++ t.shared_scopes

  abbrev pub scope_entries : ListenerScope Regex → List (HostEntry Regex)
  scope_entries scope =
      values scope.http_routes
      ++ values scope.wildcard_http_routes
      ++ to_list scope.catch_all_http_routes
