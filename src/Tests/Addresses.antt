-- ===== src/Tests/Addresses.antt =====
-- The addresses of a Gateway on concrete inputs.
use portail.Prelude.{
  ℕ, ◌≡◌, refl, Bool, Option, none, some, List, [], ◌∷◌, if◌then◌else◌, codes, Bytes, bytes_eq,
  is_some, split_once,
}
use portail.Prelude.Map.{get, insert}
use portail.DataPlane.Addresses.{
  NetworkCidrs, bind_addresses, bind_addresses_resolved, resolve_networks, resolve_names, resolve,
  holds, parse_cidr, ip_in_subnet, mask, unresolved_networks, bindable, is_bindable,
}

abbrev subnet : Bytes
subnet = codes "10.1.0.0"

abbrev pod : Bytes
pod = codes "10.1.0.5"

abbrev parse_v4 : Bytes → Option ℕ
parse_v4 b =
    if bytes_eq b subnet then some 167837696 else if bytes_eq b pod then some 167837701 else none

abbrev is_ip : Bytes → Bool
is_ip b = is_some (parse_v4 b)

abbrev parse_len : Bytes → Option ℕ
parse_len b = if bytes_eq b (codes "24") then some 24 else none

abbrev networks : List NetworkCidrs
networks = (record { name = codes "lan"; cidrs = codes "10.1.0.0/24" ∷ [] }) ∷ []

abbrev local : List Bytes
local = pod ∷ []

named_network :
    bind_addresses is_ip parse_v4 parse_len (codes "lan" ∷ []) networks local ≡ some (pod ∷ [])
unfolding bind_addresses bind_addresses_resolved resolve_networks resolve_names resolve holds
    parse_cidr ip_in_subnet mask unresolved_networks bindable is_bindable get insert bytes_eq
    split_once
named_network = refl

unnamed_network : bind_addresses is_ip parse_v4 parse_len (codes "wan" ∷ []) networks local ≡ none
unfolding bind_addresses bind_addresses_resolved resolve_networks resolve_names resolve
    unresolved_networks bindable is_bindable get insert bytes_eq
unnamed_network = refl
