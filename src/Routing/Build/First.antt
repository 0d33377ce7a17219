-- ===== src/Routing/Build/First.antt =====
-- src/routing/build.rs: the first registration of a port or a hostname wins.
use portail.Prelude.{
  ℕ, Bool, true, false, not, Option, none, some, List, ◌≡◌, inl, inr, is_some, nat_eq, Eq, ◌==◌,
  Bool-cases, Option-cases,
}
use portail.Prelude.Map.{Map, get, get-insert}
use portail.Routing.Types.{Backend}
use portail.Routing.Table.{RouteTable, find_tcp_backends}
use portail.Routing.Build.Registered.{insert_first, add_tcp_route}

-- What a key reads after a registration: the old value if there was one, and the new one only under its own key.
abbrev pub first_value {ℓ} : {A : Type ℓ} → Option A → Bool → A → Option A
first_value (some old) same new = some old
first_value none true new = some new
first_value none false new = none

insert_first-get {ℓ} :
    {K : Type ℓ} ⦃e : Eq K⦄ (m : Map K (List Backend)) (k j : K) (bs : List Backend)
    → get j (insert_first m k bs).0 ≡ first_value (get j m) (e.beq k j) bs
unfolding insert_first
insert_first-get ⦃e⦄ m k j bs = elim (Option-cases (get k m)) [
  | inr (old, h) ↦ elim (Bool-cases (e.beq k j)) [
    | inl q ↦ let r : get j m ≡ some old = rw (← (e.beq_iff k j).0 q) h in rw (h, r)
    | inr q ↦ rw (h, q) (elim (Option-cases (get j m)) [ inl r ↦ rw r | inr (v, r) ↦ rw r ])
  ]
  | inl h ↦ elim (Bool-cases (e.beq k j)) [
    | inl q ↦
        let r : get j m ≡ none = rw (← (e.beq_iff k j).0 q) h in rw (h, get-insert k j bs m, q, r)
    | inr q ↦
        rw (h, get-insert k j bs m, q)
          (elim (Option-cases (get j m)) [ inl r ↦ rw r | inr (v, r) ↦ rw r ])
  ]
]

-- A TCP registration answers whether its port was free; a lookup of any port then gives the backends of the port's
-- first registration.
pub find_tcp_backends-add_tcp_route :
    {Regex : Type 0} (t : RouteTable Regex) (port other : ℕ) (bs : List Backend)
    → ((add_tcp_route port bs t).1 ≡ not (is_some (find_tcp_backends t port)))
      × (find_tcp_backends (add_tcp_route port bs t).0 other
          ≡ first_value (find_tcp_backends t other) (port == other) bs)
unfolding add_tcp_route find_tcp_backends
find_tcp_backends-add_tcp_route t port other bs = (
  elim (Bool-cases (is_some (get port t.tcp_routes))) [ inl h ↦ rw h | inr h ↦ rw h ],
  insert_first-get t.tcp_routes port other bs,
)
