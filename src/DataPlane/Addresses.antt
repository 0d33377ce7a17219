-- ===== src/DataPlane/Addresses.antt =====
-- The addresses that a Gateway's listeners bind on a pod: src/dataplane/addresses.rs. The parsers of the standard library
-- are parameters: of an IP literal, of an IPv4 literal as its number, and of a prefix length.
pub mod Lists
pub mod Resolved
pub mod Bound
use Prim.Native.Nat.{bit_and}
use portail.Prelude.{
  ℕ, ◌+◌, ◌*◌, ◌-◌, ◌%◌, ◌^◌, Bool, true, false, ◌&&◌, ◌||◌, not, Option, none, some, List, [], ◌∷◌,
  ltb, ◌==◌, if◌then◌else◌, ◌>>=◌, Bytes, bytes_eq, bytes_key, any, find, retain, is_some,
  is_some_and, is_empty, get_or_else, split_once, map,
}
use portail.Prelude.Map.{Map, get, insert}

pub record NetworkCidrs : Type 0 where
  pub name : Bytes
  pub cidrs : List Bytes

-- `!0u32 << (32 - prefix_len)`, or 0.
unfoldable pub mask : ℕ → ℕ
mask prefix_len = if prefix_len == 0 then 0 else (2 ^ 32 - 1) * 2 ^ (32 - prefix_len) % 2 ^ 32

unfoldable pub ip_in_subnet : (ip network prefix_len : ℕ) → Bool
ip_in_subnet ip network prefix_len =
    if ltb 32 prefix_len
    then false
    else bit_and ip (mask prefix_len) == bit_and network (mask prefix_len)

module _ (is_ip : Bytes → Bool) (parse_v4 parse_len : Bytes → Option ℕ) where
  unfoldable pub parse_cidr : Bytes → Option (ℕ × ℕ)
  parse_cidr cidr = split_once b'/' cidr >>= λ p.
      parse_v4 p.0 >>= λ addr. parse_len p.1 >>= λ len. some (addr, len)

  -- `network_names`.
  abbrev pub network_names : List Bytes → List Bytes
  network_names = retain (λ a. not (is_ip a))

  unfoldable pub holds : List Bytes → Bytes → Bool
  holds cidrs ip =
      is_some_and (parse_v4 ip)
        (λ n. any (λ c. is_some_and (parse_cidr c) (λ net. ip_in_subnet n net.0 net.1)) cidrs)

  -- The address of this pod on the network of a name.
  unfoldable pub resolve :
      (networks : List NetworkCidrs) → (local : List Bytes) → Bytes → Option Bytes
  resolve networks local name =
      find (λ (n : NetworkCidrs). bytes_eq n.name name) networks >>= λ n. find (holds n.cidrs) local

  abbrev pub note : Bytes → Option Bytes → Map Bytes Bytes → Map Bytes Bytes
  note name none m = m
  note name (some ip) m = insert name ip m

  unfoldable pub resolve_names :
      (networks : List NetworkCidrs)
      → (local : List Bytes) → List Bytes
      → Map Bytes Bytes
      → Map Bytes Bytes
  resolve_names networks local [] m = m
  resolve_names networks local (name ∷ names) m =
      resolve_names networks local names (note name (resolve networks local name) m)

  unfoldable pub resolve_networks :
      (addresses : List Bytes)
      → (networks : List NetworkCidrs) → (local : List Bytes) → Map Bytes Bytes
  resolve_networks addresses networks local =
      resolve_names networks local (network_names addresses) []

  -- `unresolved_networks`.
  unfoldable pub unresolved_networks : List Bytes → Map Bytes Bytes → List Bytes
  unresolved_networks addresses resolved =
      retain (λ name. not (is_some (get name resolved))) (network_names addresses)

  abbrev pub resolved_or_itself : Map Bytes Bytes → Bytes → Bytes
  resolved_or_itself resolved a = get_or_else (get a resolved) a

  unfoldable pub is_bindable : Map Bytes Bytes → (local : List Bytes) → Bytes → Bool
  is_bindable resolved local a =
      any (bytes_eq a) local || any (λ (p : Bytes × Bytes). bytes_eq p.1 a) resolved

  unfoldable pub bindable : List Bytes → Map Bytes Bytes → (local : List Bytes) → List Bytes
  bindable addresses resolved local =
      retain (is_bindable resolved local) (map (resolved_or_itself resolved) addresses)

  unfoldable pub bind_addresses_resolved :
      List Bytes → Map Bytes Bytes → (local : List Bytes) → Option (List Bytes)
  bind_addresses_resolved addresses resolved local =
      let found = bindable addresses resolved local in
      if is_empty found && not (is_empty (unresolved_networks addresses resolved))
      then none
      else some found

  unfoldable pub bind_addresses :
      List Bytes → List NetworkCidrs → (local : List Bytes) → Option (List Bytes)
  bind_addresses addresses networks local =
      bind_addresses_resolved addresses (resolve_networks addresses networks local) local
