-- ===== src/Tests/Edges.antt =====
-- TLS passthrough, methods and provisioned ports on concrete inputs.
use portail.Prelude.{
  ℕ, Bool, true, false, none, some, List, [], ◌∷◌, ◌++◌, map, ◌≡◌, ◌≢◌, ◌↔◌, refl, arith, Bytes,
  codes, any, length, upper, nat_eq, bytes_key, bytes_eq,
}
use portail.Prelude.Map.{get, insert}
use portail.Net.{SocketAddr, v4}
use portail.Routing.Types.{Backend, forward}
use portail.Routing.Table.{RouteTable}
use portail.Routing.Tls.{
  tls_scopes_of, tls_route, passthrough_route, resolve_tls_passthrough, first_route, named_route,
}
use portail.Routing.Tls.Forward.{Outcome, resolve_tls_passthrough-Outcome}
use portail.Routing.Tls.Best.{Best, tls_route-Best}
use portail.Method.{method_len, is_valid_method}
use portail.Method.Sniff.{is_valid_method_iff}
use portail.Kubernetes.Ports.{
  allocate_target_ports, ascending, insert_ascending, bind_itself, keep_existing, keep, draw,
  next_free, contains,
}
use portail.Kubernetes.Ports.{derive_ports, tcp}
use portail.Kubernetes.Ports.Derive.{has, publishes, IsOnce, derive_ports-IsOnce}
use portail.Kubernetes.Objects.{Listener, pos}
use portail.Kubernetes.Ports.Targets.{IsTarget}
use portail.Kubernetes.Ports.Allocate.{
  allocate_target_ports-IsTarget, allocate_target_ports_distinct,
}

abbrev sum_hash : ℕ → Bytes → ℕ → Bytes → ℕ
sum_hash port listener kind name = kind

abbrev server : Backend
server = record {
  socket_addr = record { ip = v4 0x0a000001; port = 8443 };
  weight = 1;
  filters = [];
  use_tls = false;
  server_name = [];
  action = forward;
}

abbrev passthrough : RouteTable ℕ
passthrough = record {
  listener_scopes = [];
  shared_scopes = [];
  shared_on_every_port = false;
  tcp_routes = [];
  udp_routes = [];
  tls_scopes =
      (
        443,
        record {
          listener_hostname = none;
          exact = (codes "a.b", server ∷ []) ∷ [];
          wildcard = [];
          catch_all = some [];
        }
            ∷ [],
      )
      ∷ [];
}

abbrev all_up : SocketAddr → Bool
all_up a = true

resolve_tls_passthrough-Outcome_example :
    Outcome
      (passthrough_route sum_hash passthrough (some (codes "a.b")) 443 none)
      (resolve_tls_passthrough sum_hash all_up [] passthrough (some (codes "a.b")) 443 none).1
resolve_tls_passthrough-Outcome_example =
    resolve_tls_passthrough-Outcome sum_hash all_up [] passthrough (some (codes "a.b")) 443 none

tls_route-Best_example :
    Best
      (some (codes "a.b"))
      (server ∷ [])
      (tls_scopes_of sum_hash passthrough (some (codes "a.b")) 443 none)
unfolding tls_route named_route first_route get bytes_eq
tls_route-Best_example =
    tls_route-Best sum_hash passthrough (some (codes "a.b")) 443 none (server ∷ []) b'=' refl

is_valid_method_iff_example :
    (is_valid_method (codes "get") ≡ true)
    ↔ (method_len (map upper (codes "get") ++ b' ' ∷ codes "/") ≡ some (length (codes "get")))
is_valid_method_iff_example = is_valid_method_iff (codes "get") (codes "/")

abbrev published : List ℕ
published = 443 ∷ 80 ∷ 8000 ∷ []

allocate_test : allocate_target_ports published [] ≡ (8000, 8000) ∷ (80, 8001) ∷ (443, 8002) ∷ []
unfolding allocate_target_ports ascending insert_ascending bind_itself keep_existing keep draw
    next_free contains get insert
allocate_test = refl

allocate_target_ports-IsTarget_example :
    (t : ℕ) × (get 80 (allocate_target_ports published []) ≡ some t) × IsTarget 80 t
unfolding contains
allocate_target_ports-IsTarget_example =
    allocate_target_ports-IsTarget published [] 80 (omega arith) refl

allocate_target_ports_distinct_example : ◌≢◌ {A = ℕ} 8002 8001
unfolding allocate_target_ports ascending insert_ascending bind_itself keep_existing keep draw
    next_free contains get insert
allocate_target_ports_distinct_example =
    allocate_target_ports_distinct published [] 443 80 8002 8001 (omega arith) (omega arith) refl
      refl

abbrev listener : Bytes → Listener
listener protocol = record {
  name = protocol;
  port = pos 80;
  protocol = protocol;
  hostname = none;
  tls = none;
  allowed_routes = none;
}

abbrev three : List Listener
three = listener (codes "HTTP") ∷ listener (codes "TCP") ∷ listener (codes "UDP") ∷ []

derive_ports-IsOnce_example :
    (has 80 tcp (derive_ports three) ≡ any (publishes 80 tcp) three) × IsOnce (derive_ports three)
derive_ports-IsOnce_example = derive_ports-IsOnce three 80 tcp
