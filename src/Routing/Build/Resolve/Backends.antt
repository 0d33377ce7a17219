-- ===== src/Routing/Build/Resolve/Backends.antt =====
-- What the constructors of `Backend` in src/routing/build.rs give for an address.
use portail.Prelude.{
  ℕ, ◌≡◌, refl, ap, ◌∙◌, arith, Bool, true, false, not, ◌&&◌, Option, none, some, List, [], ◌∷◌,
  ◌⊎◌, inl, inr, map, any, Bool-cases, Option-cases, Bytes,
}
use portail.Net.{IpAddr, SocketAddr, socket_beq, socket_beq_iff}
use portail.Routing.Types.{Backend}
use portail.Routing.Build.Resolve.{
  ResolveError, unresolvable, no_addresses, first_seen, from_records, backend_at, backends_at,
  first_backend, resolve_socket_addrs, with_weight, all_with_weight,
}

abbrev pub lists : List SocketAddr → SocketAddr → Bool
lists addrs a = any (socket_beq a) addrs

abbrev pub AreDistinct : List SocketAddr → Type 0
AreDistinct [] = Unit
AreDistinct (a ∷ addrs) = (lists addrs a ≡ false) × AreDistinct addrs

first_seen-lists :
    (seen addrs : List SocketAddr) (a : SocketAddr)
    → lists (first_seen seen addrs) a ≡ (lists addrs a && not (lists seen a))
unfolding first_seen
first_seen-lists seen [] a = refl
first_seen-lists seen (x ∷ addrs) a = elim (Bool-cases (lists seen x)) [
  | inl known ↦ elim (Bool-cases (socket_beq a x)) [
    | inl same ↦
        let here : lists seen a ≡ true = ap (lists seen) ((socket_beq_iff a x).0 same) ∙ known in
        ground (arith, known, same, here, first_seen-lists seen addrs a)
    | inr other ↦ ground (arith, known, other, first_seen-lists seen addrs a)
  ]
  | inr fresh ↦ elim (Bool-cases (socket_beq a x)) [
    | inl same ↦
        let away : lists seen a ≡ false = ap (lists seen) ((socket_beq_iff a x).0 same) ∙ fresh in
        ground (arith, fresh, same, away)
    | inr other ↦ ground (arith, fresh, other, first_seen-lists (x ∷ seen) addrs a)
  ]
]

first_seen-AreDistinct : (seen addrs : List SocketAddr) → AreDistinct (first_seen seen addrs)
unfolding first_seen
first_seen-AreDistinct seen [] = tt
first_seen-AreDistinct seen (x ∷ addrs) = elim (Bool-cases (lists seen x)) [
  | inl known ↦ rw known (first_seen-AreDistinct seen addrs)
  | inr fresh ↦ rw fresh (
    ground (arith, (socket_beq_iff x x).1 refl, first_seen-lists (x ∷ seen) addrs x),
    first_seen-AreDistinct (x ∷ seen) addrs,
  )
]

-- The backends of an address of a weight: one for each address that it stands for, and none twice.
abbrev pub Stands : (address : Bytes) → (weight : ℕ) → List SocketAddr → List Backend → Type 0
Stands address weight records bs =
    (addrs : List SocketAddr) × (bs ≡ map (backend_at address weight) addrs)
    × AreDistinct addrs
    × ((a : SocketAddr) → lists addrs a ≡ lists records a)

-- What the address stands for, by the literal in it or by the resolver's answer.
module _ (parse_ip : Bytes → Option IpAddr)
    (to_socket_addrs : Bytes → ℕ → Option (List SocketAddr)) where
  abbrev pub records : Option IpAddr → (address : Bytes) → (port : ℕ) → Option (List SocketAddr)
  records (some ip) address port = some ((record { ip = ip; port = port }) ∷ [])
  records none address port = to_socket_addrs address port

-- The outcome by the records: all backends, and the one backend.
abbrev pub IsOutcome :
    (address : Bytes)
    → (weight : ℕ) → Option (List SocketAddr)
    → ResolveError ⊎ List Backend
    → Option (ResolveError ⊎ Backend)
    → Type 0
IsOutcome address weight none all one = (all ≡ inl unresolvable) × (one ≡ some (inl unresolvable))
IsOutcome address weight (some []) all one =
    (all ≡ inl no_addresses) × (one ≡ some (inl no_addresses))
IsOutcome address weight (some (a ∷ addrs)) all one =
    ((bs : List Backend) × (all ≡ inr bs) × Stands address weight (a ∷ addrs) bs)
    × (one ≡ some (inr (backend_at address weight a)))

from_records-IsOutcome :
    (address : Bytes) (weight : ℕ) (answer : Option (List SocketAddr))
    → IsOutcome address weight answer
        (backends_at address weight (from_records answer))
        (first_backend address weight (from_records answer))
unfolding first_seen
from_records-IsOutcome address weight none = (refl, refl)
from_records-IsOutcome address weight (some []) = (refl, refl)
from_records-IsOutcome address weight (some (a ∷ addrs)) = (
  (
    map (backend_at address weight) (first_seen [] (a ∷ addrs)),
    refl,
    (
      first_seen [] (a ∷ addrs),
      refl,
      first_seen-AreDistinct [] (a ∷ addrs),
      λ b. ground (arith, first_seen-lists [] (a ∷ addrs) b),
    ),
  ),
  refl,
)

-- An address stands for the socket address of the IP literal that it is, or else for those that the resolver gives.
-- all_with_weight gives one backend of the weight for each of them, none twice, and with_weight one for the first; both
-- fail alike when the resolver fails or gives none, and no index is out of range.
pub all_with_weight-IsOutcome :
    (parse_ip : Bytes → Option IpAddr) (to_socket_addrs : Bytes → ℕ → Option (List SocketAddr))
    (address : Bytes) (port weight : ℕ)
    → IsOutcome address weight
        (records parse_ip to_socket_addrs (parse_ip address) address port)
        (all_with_weight parse_ip to_socket_addrs address port weight)
        (with_weight parse_ip to_socket_addrs address port weight)
unfolding all_with_weight with_weight resolve_socket_addrs
all_with_weight-IsOutcome parse_ip to_socket_addrs address port weight =
    elim (Option-cases (parse_ip address)) [
      | inl name ↦ rw name (from_records-IsOutcome address weight (to_socket_addrs address port))
      | inr (ip, literal) ↦ rw literal (
        (
          backend_at address weight (record { ip = ip; port = port }) ∷ [],
          refl,
          ((record { ip = ip; port = port }) ∷ [], refl, (refl, tt), λ a. refl),
        ),
        refl,
      )
    ]
