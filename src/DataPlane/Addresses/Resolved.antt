-- ===== src/DataPlane/Addresses/Resolved.antt =====
-- Which names `resolve_networks` of src/dataplane/addresses.rs resolves, and to what.
use mathlib.Core.Path.{subst}
use portail.Prelude.{
  ℕ, ◌≡◌, inl, inr, ap, arith, Bool, true, false, Option, none, some, List, [], ◌∷◌, Bool-cases,
  Option-cases, Bytes, bytes_eq, bytes_eq_iff, bytes_key, any, All, find, is_some,
}
use portail.Prelude.Map.{Map, get, get-insert, get-insert_self}
use portail.DataPlane.Addresses.{
  NetworkCidrs, network_names, holds, resolve, note, resolve_names, resolve_networks,
}
use portail.DataPlane.Addresses.Lists.{lists, find-lists, All-insert, is_some_either}

module _ (is_ip : Bytes → Bool) (parse_v4 parse_len : Bytes → Option ℕ)
    (networks : List NetworkCidrs) (local : List Bytes) where
  abbrev pub found : Bytes → Option Bytes
  found = resolve is_ip parse_v4 parse_len networks local

  pub found-local : (name ip : Bytes) → found name ≡ some ip → lists local ip ≡ true
  unfolding resolve
  found-local name ip e =
      elim (Option-cases (find (λ (n : NetworkCidrs). bytes_eq n.name name) networks)) [
        | inl unknown ↦ absurd (ground (arith, unknown, e))
        | inr (n, known) ↦
            find-lists (holds is_ip parse_v4 parse_len n.cidrs) local ip (ground (arith, known, e))
      ]

  -- Each name in the map is a network's, and has its address.
  abbrev pub IsGood : Bytes × Bytes → Type 0
  IsGood p = (found p.0 ≡ some p.1) × (is_ip p.0 ≡ false)

  names-IsGood :
      (names : List Bytes) (m : Map Bytes Bytes)
      → All (λ n. is_ip n ≡ false) names
      → All IsGood m
      → All IsGood (resolve_names is_ip parse_v4 parse_len networks local names m)
  unfolding resolve_names
  names-IsGood [] m plain ok = ok
  names-IsGood (n ∷ names) m plain ok =
      names-IsGood names (note is_ip parse_v4 parse_len n (found n) m) plain.1
        (elim (Option-cases (found n)) [
          | inl none_found ↦ rw none_found ok
          | inr (ip, e) ↦ rw e (All-insert IsGood n ip m (e, plain.0) ok)
        ])

  network_names-plain :
      (addresses : List Bytes)
      → All (λ n. is_ip n ≡ false) (network_names is_ip parse_v4 parse_len addresses)
  network_names-plain [] = tt
  network_names-plain (a ∷ addresses) = elim (Bool-cases (is_ip a)) [
    | inl literal ↦ rw literal (network_names-plain addresses)
    | inr name ↦ rw name (name, network_names-plain addresses)
  ]

  pub values-local :
      (m : Map Bytes Bytes) (b : Bytes)
      → All IsGood m
      → any (λ (p : Bytes × Bytes). bytes_eq p.1 b) m ≡ true
      → lists local b ≡ true
  values-local [] b ok e = cc
  values-local (p ∷ m) b ok e = elim (Bool-cases (bytes_eq p.1 b)) [
    | inl same ↦
        subst (λ x. lists local x ≡ true) ((bytes_eq_iff p.1 b).0 same) (found-local p.0 p.1 ok.0.0)
    | inr other ↦ values-local m b ok.1 (ground (arith, other, e))
  ]

  -- A name once in the map stays in it.
  note-grows :
      (k n : Bytes) (o : Option Bytes) (m : Map Bytes Bytes)
      → is_some (get k m) ≡ true
      → is_some (get k (note is_ip parse_v4 parse_len n o m)) ≡ true
  note-grows k n none m e = e
  note-grows k n (some ip) m e =
      rw (get-insert n k ip m) (is_some_either (bytes_eq n k) ip (get k m) e)

  names-grows :
      (k : Bytes) (names : List Bytes) (m : Map Bytes Bytes)
      → is_some (get k m) ≡ true
      → is_some (get k (resolve_names is_ip parse_v4 parse_len networks local names m)) ≡ true
  unfolding resolve_names
  names-grows k [] m e = e
  names-grows k (n ∷ names) m e =
      names-grows k names (note is_ip parse_v4 parse_len n (found n) m)
        (note-grows k n (found n) m e)

  pub names-finds :
      (k : Bytes) (names : List Bytes) (m : Map Bytes Bytes)
      → lists names k ≡ true
      → is_some (found k) ≡ true
      → is_some (get k (resolve_names is_ip parse_v4 parse_len networks local names m)) ≡ true
  unfolding resolve_names
  names-finds k [] m inside e = cc
  names-finds k (n ∷ names) m inside e = elim (Bool-cases (bytes_eq k n)) [
    | inl same ↦ elim (Option-cases (found k)) [
      | inl missing ↦ absurd (ground (arith, missing, e))
      | inr (ip, o) ↦
          let equal : k ≡ n = (bytes_eq_iff k n).0 same in
          names-grows k names (note is_ip parse_v4 parse_len n (found n) m) (
            subst (λ x. is_some (get k (note is_ip parse_v4 parse_len x (found x) m)) ≡ true) equal
              (rw o (ap is_some (get-insert_self k ip m))))
    ]
    | inr other ↦
        names-finds k names (note is_ip parse_v4 parse_len n (found n) m)
          (ground (arith, other, inside)) e
  ]

  pub resolved-IsGood :
      (addresses : List Bytes)
      → All IsGood (resolve_networks is_ip parse_v4 parse_len addresses networks local)
  unfolding resolve_networks
  resolved-IsGood addresses =
      names-IsGood (network_names is_ip parse_v4 parse_len addresses) []
        (network_names-plain addresses) tt
