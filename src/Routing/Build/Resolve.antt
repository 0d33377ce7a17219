-- ===== src/Routing/Build/Resolve.antt =====
-- How a backend's address becomes socket addresses: `resolve_socket_addrs` and the constructors of `Backend` in
-- src/routing/build.rs. The parser of an IP literal and the resolver of the standard library are parameters.
pub mod Backends
use portail.Prelude.{
  ℕ, Bool, true, false, Option, none, some, List, [], ◌∷◌, ◌⊎◌, inl, inr, map, any, get_elem?,
  if◌then◌else◌, Bytes,
}
use portail.Net.{IpAddr, v4, SocketAddr, socket_beq}
use portail.Routing.Types.{Backend, forward, reject}

pub data ResolveError : Type 0 where
  unresolvable no_addresses : ResolveError

-- `filter(|sa| seen.insert(*sa))`.
unfoldable pub first_seen : (seen addrs : List SocketAddr) → List SocketAddr
first_seen seen [] = []
first_seen seen (a ∷ addrs) =
    let known = any (socket_beq a) seen in
    let rest = first_seen (if known then seen else a ∷ seen) addrs in
    if known then rest else a ∷ rest

abbrev pub non_empty : List SocketAddr → ResolveError ⊎ List SocketAddr
non_empty [] = inl no_addresses
non_empty (a ∷ addrs) = inr (a ∷ addrs)

abbrev pub from_records : Option (List SocketAddr) → ResolveError ⊎ List SocketAddr
from_records none = inl unresolvable
from_records (some addrs) = non_empty (first_seen [] addrs)

unfoldable pub backend_at : (address : Bytes) → (weight : ℕ) → SocketAddr → Backend
backend_at address weight addr = record {
  socket_addr = addr;
  weight = weight;
  filters = [];
  use_tls = false;
  server_name = address;
  action = forward;
}

unfoldable pub rejecting : (weight : ℕ) → Backend
rejecting weight = record {
  socket_addr = record { ip = v4 0; port = 0 };
  weight = weight;
  filters = [];
  use_tls = false;
  server_name = [];
  action = reject;
}

abbrev pub backends_at :
    (address : Bytes) → (weight : ℕ) → ResolveError ⊎ List SocketAddr → ResolveError ⊎ List Backend
backends_at address weight (inl e) = inl e
backends_at address weight (inr addrs) = inr (map (backend_at address weight) addrs)

abbrev pub at_first :
    (address : Bytes) → (weight : ℕ) → Option SocketAddr → Option (ResolveError ⊎ Backend)
at_first address weight none = none
at_first address weight (some addr) = some (inr (backend_at address weight addr))

-- `none` is the panic of an index out of range.
abbrev pub first_backend :
    (address : Bytes)
    → (weight : ℕ) → ResolveError ⊎ List SocketAddr
    → Option (ResolveError ⊎ Backend)
first_backend address weight (inl e) = some (inl e)
first_backend address weight (inr addrs) = at_first address weight (get_elem? addrs 0)

module _ (parse_ip : Bytes → Option IpAddr)
    (to_socket_addrs : Bytes → ℕ → Option (List SocketAddr)) where
  abbrev pub literal_or_name :
      Option IpAddr → (address : Bytes) → (port : ℕ) → ResolveError ⊎ List SocketAddr
  literal_or_name (some ip) address port = inr ((record { ip = ip; port = port }) ∷ [])
  literal_or_name none address port = from_records (to_socket_addrs address port)

  unfoldable pub resolve_socket_addrs :
      (address : Bytes) → (port : ℕ) → ResolveError ⊎ List SocketAddr
  resolve_socket_addrs address port = literal_or_name (parse_ip address) address port

  unfoldable pub with_weight :
      (address : Bytes) → (port weight : ℕ) → Option (ResolveError ⊎ Backend)
  with_weight address port weight = first_backend address weight (resolve_socket_addrs address port)

  -- `Backend::new`.
  unfoldable pub new_backend : (address : Bytes) → (port : ℕ) → Option (ResolveError ⊎ Backend)
  new_backend address port = with_weight address port 1

  unfoldable pub all_with_weight :
      (address : Bytes) → (port weight : ℕ) → ResolveError ⊎ List Backend
  all_with_weight address port weight =
      backends_at address weight (resolve_socket_addrs address port)
