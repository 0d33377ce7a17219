-- ===== src/Routing/Build/Hostnames.antt =====
-- src/routing/build.rs: a port holds one scope for each listener hostname, and so do the shared scopes.
use portail.Prelude.{
  ℕ, Option, none, some, List, [], ◌∷◌, ◌≡◌, ◌≢◌, inl, inr, refl, sym, ap, ◌∙◌, arith, ◌==◌, Bytes,
  bytes_eq, bytes_key, option_beq, option_beq_iff, nat_eq, get_or_else, to_lower, All, Bool-cases,
}
use mathlib.Core.Bool.{false≢true}
use mathlib.Core.Path.{ap₂}
use portail.Prelude.Map.{Map, get, insert}
use portail.Routing.Types.{HttpRouteRule}
use portail.Routing.Hosts.{wildcard_parent}
use portail.Routing.Table.{HostEntry, ListenerScope, PortScopes, RouteTable}
use portail.Routing.Build.{
  lower_hostname, new_scope, prepare, put_host, push_route, update_scope, default_port, scope_mut,
  add_http_route_for_listener, push_http_route_for_listener,
}
use portail.Routing.Order.{sort_rules}

to_lower_idem : (b : Bytes) → to_lower (to_lower b) ≡ to_lower b
to_lower_idem [] = refl
to_lower_idem (c ∷ b) = ap₂ (λ x y. x ∷ y) (ground arith) (to_lower_idem b)

lower_hostname_idem : (o : Option Bytes) → lower_hostname (lower_hostname o) ≡ lower_hostname o
lower_hostname_idem none = refl
lower_hostname_idem (some h) = ap some (to_lower_idem h)

module _ {ℓ κ} {V : Type ℓ} (P : V → Type κ) where
  get-All : (k : ℕ) (m : Map ℕ V) (d : V) → P d → All (λ b. P b.1) m → P (get_or_else (get k m) d)
  unfolding get
  get-All k [] d h a = h
  get-All k (b ∷ m) d h a = elim (Bool-cases (b.0 == k)) [
    | inl e ↦ rw (e, get) a.0
    | inr e ↦ rw (e, get) (get-All k m d h a.1)
  ]

  insert-All :
      (k : ℕ) (v : V) (m : Map ℕ V) → P v → All (λ b. P b.1) m → All (λ b. P b.1) (insert k v m)
  unfolding insert
  insert-All k v [] h a = (h, tt)
  insert-All k v (b ∷ m) h a = elim (Bool-cases (b.0 == k)) [
    | inl e ↦ rw (e, insert) (h, a.1)
    | inr e ↦ rw (e, insert) (a.0, insert-All k v m h a.1)
  ]

module _ {Regex : Type 0} where
  abbrev Differs : Option Bytes → List (ListenerScope Regex) → Type 0
  Differs h ss = All (λ s. s.listener_hostname ≢ h) ss

  abbrev pub IsDistinct : List (ListenerScope Regex) → Type 0
  IsDistinct [] = Unit
  IsDistinct (s ∷ ss) = Differs s.listener_hostname ss × IsDistinct ss

  -- No two scopes of a port, and no two shared ones, have the same listener hostname.
  abbrev pub IsIsolated : RouteTable Regex → Type 0
  IsIsolated t =
      IsDistinct t.shared_scopes
      × All (λ (b : ℕ × PortScopes Regex). IsDistinct b.1.scopes) t.listener_scopes

  put_host_hostname :
      (o : Option Bytes) (host : Bytes) (rule : HttpRouteRule Regex)
      (after : HostEntry Regex → HostEntry Regex) (s : ListenerScope Regex)
      → (put_host o host rule after s).listener_hostname ≡ s.listener_hostname
  unfolding put_host
  put_host_hostname none host rule after s = refl
  put_host_hostname (some p) host rule after s = refl

  push_route_hostname :
      (host : Bytes) (rule : HttpRouteRule Regex) (after : HostEntry Regex → HostEntry Regex)
      (s : ListenerScope Regex)
      → (push_route host rule after s).listener_hostname ≡ s.listener_hostname
  unfolding push_route
  push_route_hostname host rule after s = elim (Bool-cases (bytes_eq (to_lower host) (b'*' ∷ []))) [
    | inl e ↦ rw (e, push_route)
    | inr e ↦
        rw (e, push_route)
          (put_host_hostname (wildcard_parent (to_lower host)) (to_lower host)
            (prepare (to_lower host) rule) after s)
  ]

  module _ (port : ℕ) (h : Option Bytes) (f : ListenerScope Regex → ListenerScope Regex)
      (low : lower_hostname h ≡ h)
      (keeps : (s : ListenerScope Regex) → (f s).listener_hostname ≡ s.listener_hostname) where
    created : (f (new_scope port h)).listener_hostname ≡ h
    unfolding new_scope
    created = keeps (new_scope port h) ∙ low

    update_scope-Differs :
        (x : Option Bytes) (ss : List (ListenerScope Regex))
        → x ≢ h
        → Differs x ss
        → Differs x (update_scope port h f ss)
    unfolding update_scope
    update_scope-Differs x [] d a = ((λ e. d (sym e ∙ created)), tt)
    update_scope-Differs x (s ∷ ss) d a =
        elim (Bool-cases (option_beq bytes_eq s.listener_hostname h)) [
          | inl e ↦ rw (e, update_scope) ((λ q. a.0 (sym (keeps s) ∙ q)), a.1)
          | inr e ↦ rw (e, update_scope) (a.0, update_scope-Differs x ss d a.1)
        ]

    update_scope-IsDistinct :
        (ss : List (ListenerScope Regex)) → IsDistinct ss → IsDistinct (update_scope port h f ss)
    unfolding update_scope
    update_scope-IsDistinct [] d = (tt, tt)
    update_scope-IsDistinct (s ∷ ss) d =
        elim (Bool-cases (option_beq bytes_eq s.listener_hostname h)) [
          | inl e ↦ rw (e, update_scope) (rw (keeps s) d.0, d.1)
          | inr e ↦
              rw (e, update_scope)
                (
                  update_scope-Differs s.listener_hostname ss
                      (λ q. false≢true (sym e ∙ (option_beq_iff s.listener_hostname h).1 q)) d.0,
                  update_scope-IsDistinct ss d.1,
                )
        ]

  scope_mut-IsIsolated :
      (port : ℕ) (h : Option Bytes) (f : ListenerScope Regex → ListenerScope Regex)
      (t : RouteTable Regex)
      → ((s : ListenerScope Regex) → (f s).listener_hostname ≡ s.listener_hostname)
      → IsIsolated t
      → IsIsolated (scope_mut port h f t)
  unfolding scope_mut
  scope_mut-IsIsolated port h f t keeps (shared, own) = elim (Bool-cases (port == 0)) [
    | inl e ↦
        rw (e, scope_mut)
          (
            update_scope-IsDistinct 0 (lower_hostname h) f (lower_hostname_idem h) keeps
                t.shared_scopes shared,
            own,
          )
    | inr e ↦
        rw (e, scope_mut)
          (
            shared,
            insert-All (λ (p : PortScopes Regex). IsDistinct p.scopes) port _ t.listener_scopes
                (update_scope-IsDistinct port (lower_hostname h) f (lower_hostname_idem h) keeps _ (
                  get-All (λ (p : PortScopes Regex). IsDistinct p.scopes) port t.listener_scopes
                    default_port tt own))
                own,
          )
  ]

  -- Adding an HTTP route to a listener of a port or, on port 0, to the shared scopes, sorted or not, keeps one scope for
  -- each listener hostname on every port and among the shared scopes.
  pub http_route_for_listener-IsIsolated :
      (t : RouteTable Regex) (port : ℕ) (listener_hostname : Option Bytes) (route_host : Bytes)
      (rule : HttpRouteRule Regex)
      → IsIsolated t
      → IsIsolated (add_http_route_for_listener port listener_hostname route_host rule t)
        × IsIsolated (push_http_route_for_listener port listener_hostname route_host rule t)
  unfolding add_http_route_for_listener push_http_route_for_listener
  http_route_for_listener-IsIsolated t port listener_hostname route_host rule i = (
    scope_mut-IsIsolated port listener_hostname (push_route route_host rule sort_rules) t
        (push_route_hostname route_host rule sort_rules) i,
    scope_mut-IsIsolated port listener_hostname (push_route route_host rule (λ e. e)) t
        (push_route_hostname route_host rule (λ e. e)) i,
  )
