-- ===== src/Tests/Resolve.antt =====
-- The backends of an address on concrete inputs.
use portail.Prelude.{
  ℕ, ◌≡◌, refl, Option, none, some, List, [], ◌∷◌, inr, if◌then◌else◌, codes, Bytes, bytes_eq,
}
use portail.Net.{IpAddr, v4, SocketAddr}
use portail.Routing.Build.Resolve.{
  all_with_weight, with_weight, resolve_socket_addrs, first_seen, backend_at,
}
use portail.Routing.Build.Resolve.Backends.{IsOutcome, records, all_with_weight-IsOutcome}

abbrev parse_ip : Bytes → Option IpAddr
parse_ip address = if bytes_eq address (codes "10.0.0.1") then some (v4 167772161) else none

abbrev pod : ℕ → SocketAddr
pod n = record { ip = v4 n; port = 80 }

abbrev to_socket_addrs : Bytes → ℕ → Option (List SocketAddr)
to_socket_addrs address port =
    if bytes_eq address (codes "pods.svc") then some (pod 2 ∷ pod 3 ∷ pod 2 ∷ []) else none

two_pods :
    all_with_weight parse_ip to_socket_addrs (codes "pods.svc") 80 5
    ≡ inr (backend_at (codes "pods.svc") 5 (pod 2) ∷ backend_at (codes "pods.svc") 5 (pod 3) ∷ [])
unfolding all_with_weight resolve_socket_addrs first_seen bytes_eq
two_pods = refl

all_with_weight-IsOutcome_example :
    IsOutcome
      (codes "pods.svc")
      5
      (records parse_ip to_socket_addrs (parse_ip (codes "pods.svc")) (codes "pods.svc") 80)
      (all_with_weight parse_ip to_socket_addrs (codes "pods.svc") 80 5)
      (with_weight parse_ip to_socket_addrs (codes "pods.svc") 80 5)
all_with_weight-IsOutcome_example =
    all_with_weight-IsOutcome parse_ip to_socket_addrs (codes "pods.svc") 80 5
