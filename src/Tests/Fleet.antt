-- ===== src/Tests/Fleet.antt =====
-- The health of the backends, and the control plane's decisions, on concrete inputs.
use portail.Prelude.{
  false, true, none, some, List, [], ◌∷◌, ◌≡◌, ◌↔◌, ◌⊎◌, refl, codes, ltb, ◌==◌, if◌then◌else◌,
  is_empty,
}
use portail.Net.{SocketAddr, v4}
use portail.Health.{
  new, is_healthy, record_failure, HealthRegistry, Wake, run_probe, probe_loop, probe_round,
  still_probing, with_entry,
}
use portail.Health.Streak.{Event, failed, replay, streak, is_healthy-replay}
use portail.Health.Backoff.{Backs, run_probe-Backs}
use portail.Prelude.Map.{get, insert}
use portail.Kubernetes.Objects.{pos, Listener, ParentRef, ReferenceGrant, from_all}
use portail.Kubernetes.Grants.{
  is_route_allowed_by_listener, listeners_for_parent_ref, is_reference_allowed, ok, err,
}
use portail.Kubernetes.Grants.Attach.{taken_names, reason, listeners_for_parent_ref-names}
use portail.Kubernetes.Grants.Terms.{Serves, LetsIn}
use portail.Kubernetes.Grants.Takes.{is_route_allowed_by_listener_iff}
use portail.Kubernetes.Grants.Scope.{Exists, Grants, is_reference_allowed_iff}

abbrev pod : SocketAddr
pod = record { ip = v4 0x0a000001; port = 8080 }

abbrev other : SocketAddr
other = record { ip = v4 0x0a000002; port = 8080 }

abbrev story : List (Event Unit)
story = failed pod ∷ failed other ∷ failed pod ∷ failed pod ∷ []

is_healthy-replay_example :
    (is_healthy pod (replay story new) ≡ ltb (streak story pod 0) 3)
    × ((record_failure pod (replay story new)).1 ≡ (streak story pod 0 == 2))
is_healthy-replay_example = is_healthy-replay story pod

abbrev probed : HealthRegistry
probed = (record_failure pod (replay {Regex = Unit} (failed pod ∷ failed pod ∷ []) new)).0

abbrev rounds : List Wake
rounds =
    record { registry = probed; connected = false }
    ∷ record { registry = probed; connected = true }
    ∷ []

probe_recovers : (run_probe pod rounds).0 ≡ 10 ∷ 20 ∷ []
unfolding run_probe probe_loop probe_round still_probing record_failure replay with_entry get insert
probe_recovers = refl

run_probe-Backs_example : Backs pod 0 rounds (run_probe pod rounds)
run_probe-Backs_example = run_probe-Backs pod rounds

abbrev web : Listener
web = record {
  name = codes "web";
  port = pos 80;
  protocol = codes "HTTP";
  hostname = some (codes "*.example.com");
  tls = none;
  allowed_routes = some (record {
    kinds = none;
    namespaces = some (record { from = some from_all; selector = none });
  });
}

abbrev to_gateway : ParentRef
to_gateway = record {
  name = codes "gw";
  section_name = none;
  group = none;
  kind = none;
  namespace = none;
  port = some (pos 80);
}

listeners_for_parent_ref-names_example :
    let is_allowed = λ (l : Listener).
      is_route_allowed_by_listener l (codes "infra") (codes "app") (codes "HTTPRoute") [] in
    listeners_for_parent_ref to_gateway
      (web ∷ [])
      (codes "infra")
      (codes "app")
      (codes "HTTPRoute")
      (codes "a.example.com" ∷ [])
      []
    ≡ (if is_empty (taken_names to_gateway (codes "a.example.com" ∷ []) is_allowed (web ∷ []))
        then err (reason to_gateway (codes "a.example.com" ∷ []) is_allowed (web ∷ []))
        else ok (taken_names to_gateway (codes "a.example.com" ∷ []) is_allowed (web ∷ [])))
listeners_for_parent_ref-names_example =
    listeners_for_parent_ref-names to_gateway (web ∷ []) (codes "infra") (codes "app")
      (codes "HTTPRoute") (codes "a.example.com" ∷ []) []

is_route_allowed_by_listener_iff_example :
    (is_route_allowed_by_listener web (codes "infra") (codes "app") (codes "HTTPRoute") [] ≡ true)
    ↔ (Serves web.protocol web.tls (codes "HTTPRoute")
        × LetsIn web.allowed_routes (codes "infra") (codes "app") (codes "HTTPRoute") [])
is_route_allowed_by_listener_iff_example =
    is_route_allowed_by_listener_iff web (codes "infra") (codes "app") (codes "HTTPRoute") []

abbrev grant : ReferenceGrant
grant = record {
  namespace = some (codes "app");
  from = record { group = codes "g"; kind = codes "HTTPRoute"; namespace = codes "web" } ∷ [];
  to = record { group = []; kind = codes "Service"; name = none } ∷ [];
}

is_reference_allowed_iff_example :
    (is_reference_allowed
        (grant ∷ [])
        (codes "g")
        (codes "HTTPRoute")
        (codes "web")
        []
        (codes "Service")
        (codes "app")
        (codes "api")
      ≡ true)
    ↔ ((codes "web" ≡ codes "app")
        ⊎ Exists
            (λ g.
              Grants g
                (codes "g")
                (codes "HTTPRoute")
                (codes "web")
                []
                (codes "Service")
                (codes "app")
                (codes "api"))
            (grant ∷ []))
is_reference_allowed_iff_example =
    is_reference_allowed_iff (grant ∷ []) (codes "g") (codes "HTTPRoute") (codes "web") []
      (codes "Service") (codes "app") (codes "api")
