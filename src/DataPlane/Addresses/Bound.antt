-- ===== src/DataPlane/Addresses/Bound.antt =====
-- What `bind_addresses` of src/dataplane/addresses.rs binds, and when it binds nothing or every interface.
use portail.Prelude.{
  ℕ, ◌≡◌, ◌⊎◌, Bool, true, false, Option, none, some, List, Bytes, bytes_key, All, is_empty,
}
use portail.Prelude.Map.{Map}
use portail.DataPlane.Addresses.{NetworkCidrs, network_names}
use portail.DataPlane.Addresses.Lists.{lists}
use portail.DataPlane.Addresses.Resolved.{found}

module _ (is_ip : Bytes → Bool) (parse_v4 parse_len : Bytes → Option ℕ)
    (networks : List NetworkCidrs) (local : List Bytes) where
  -- Where an address bound comes from: it is one of the Gateway's, or this pod's on a network that the Gateway names.
  abbrev pub ComesFrom : List Bytes → Bytes → Type 0
  ComesFrom addresses b =
      (lists addresses b ≡ true)
      ⊎ ((name : Bytes) × (lists addresses name ≡ true)
          × (is_ip name ≡ false)
          × (found is_ip parse_v4 parse_len networks local name ≡ some b))

  -- Each address bound is the pod's own, and comes from the Gateway.
  abbrev pub IsBound : List Bytes → Bytes → Type 0
  IsBound addresses b = (lists local b ≡ true) × ComesFrom addresses b

  -- What a Gateway's addresses come to: what is bound, and when it is every interface, or nothing.
  abbrev pub IsOutcome : List Bytes → Option (List Bytes) → Type 0
  IsOutcome addresses (some bound) =
      All (IsBound addresses) bound
      × (is_empty bound ≡ true → is_empty (network_names is_ip parse_v4 parse_len addresses) ≡ true)
  IsOutcome addresses none =
      ((name : Bytes) × (lists addresses name ≡ true)
        × (is_ip name ≡ false)
        × (found is_ip parse_v4 parse_len networks local name ≡ none))
      × ((a : Bytes) → lists addresses a ≡ true → lists local a ≡ false)
