-- ===== src/Routing/Tls/Forward.antt =====
-- src/routing/mod.rs: what a resolved connection is sent to.
use portail.Prelude.{
  ℕ, ◌<◌, ◌%◌, Bool, true, false, Option, none, some, List, [], ◌∷◌, ◌≡◌, ◌≢◌, ◌⊎◌, inl, inr, refl,
  ap, arith, ◌==◌, ◌||◌, Bytes, get_elem?, Bool-cases,
}
use portail.Prelude.Map.{Map}
use portail.Net.{SocketAddr}
use portail.Routing.Types.{Backend, is_reject}
use portail.Routing.Select.{
  select_l4_backend, next_counter, weight_sum, healthy_weight, at_index, l4_index,
}
use portail.Routing.Select.Owner.{slot_owner_total, slot_owner_weight}
use portail.Routing.Select.Shares.{IsWeighted, degraded-IsWeighted}
use portail.Routing.Table.{RouteTable}
use portail.Routing.Tls.{
  ok, err, no_route, no_backends, no_weight, rejected, Resolved, resolved, resolve_among,
  resolve_tls_passthrough, passthrough_route,
}

at_index-IsWeighted :
    (healthy : SocketAddr → Bool) (bs : List Backend) (o : Option ℕ)
    → (i : ℕ) × (o ≡ some i) × IsWeighted healthy bs i
    → (b : Backend) × (at_index healthy bs o ≡ some b)
      × ((i : ℕ) × (get_elem? bs i ≡ some b))
      × (0 < b.weight)
at_index-IsWeighted healthy bs o (i, e, (b, g, w)) = (b, rw e g, (i, g), w)

l4_index-IsWeighted :
    (healthy : SocketAddr → Bool) (bs : List Backend) (counter : ℕ)
    → 0 < weight_sum bs
    → (i : ℕ) × (l4_index healthy bs counter ≡ some i) × IsWeighted healthy bs i
unfolding l4_index
l4_index-IsWeighted healthy bs counter pos =
    let up = healthy_weight healthy bs in
    elim (Bool-cases (up == weight_sum bs || up == 0)) [
      | inl e ↦
          let (i, q) = slot_owner_total bs (counter % weight_sum bs) (omega arith) in
          (i, rw (e, l4_index) q, slot_owner_weight bs (counter % weight_sum bs) i q)
      | inr e ↦
          let (i, q, w) = degraded-IsWeighted healthy bs counter pos in (i, rw (e, l4_index) q, w)
    ]

-- With some positive weight a backend of positive weight of the list is selected.
select_l4_backend-IsWeighted :
    (healthy : SocketAddr → Bool) (counters : Map ℕ ℕ) (key : ℕ) (bs : List Backend)
    → 0 < weight_sum bs
    → (b : Backend) × ((select_l4_backend healthy counters key bs).1 ≡ some b)
      × ((i : ℕ) × (get_elem? bs i ≡ some b))
      × (0 < b.weight)
unfolding select_l4_backend
select_l4_backend-IsWeighted healthy counters key bs pos =
    let counter = (next_counter healthy counters key).0 in
    let z : (weight_sum bs == 0) ≡ false = ground arith in
    rw (z, select_l4_backend)
      (at_index-IsWeighted healthy bs (l4_index healthy bs counter)
        (l4_index-IsWeighted healthy bs counter pos))

select_l4_backend_weightless :
    (healthy : SocketAddr → Bool) (counters : Map ℕ ℕ) (key : ℕ) (bs : List Backend)
    → (weight_sum bs == 0) ≡ true
    → (select_l4_backend healthy counters key bs).1 ≡ none
unfolding select_l4_backend
select_l4_backend_weightless healthy counters key bs z = rw (z, select_l4_backend)

-- What a connection of a route with these backends comes to: without backends or without weight an error that says so,
-- else the address of a forwarding backend of positive weight, or the rejection by a rejecting one.
abbrev pub Comes : List Backend → Resolved → Type 0
Comes bs r =
    ((bs ≡ []) × (r ≡ err no_backends))
    ⊎ ((bs ≢ []) × (weight_sum bs ≡ 0) × (r ≡ err no_weight))
    ⊎ ((b : Backend) × ((i : ℕ) × (get_elem? bs i ≡ some b))
        × (0 < b.weight)
        × (((is_reject b.action ≡ true) × (r ≡ err rejected))
            ⊎ ((is_reject b.action ≡ false) × (r ≡ ok b.socket_addr))))

resolve_among-Comes :
    (healthy : SocketAddr → Bool) (counters : Map ℕ ℕ) (bs : List Backend) (k : ℕ)
    → Comes bs (resolve_among healthy counters (some (bs, k))).1
unfolding resolve_among
resolve_among-Comes healthy counters [] k = inl (refl, refl)
resolve_among-Comes healthy counters (x ∷ xs) k = elim (Bool-cases (weight_sum (x ∷ xs) == 0)) [
  | inl z ↦ inr (
      inl (
        (λ e. cc),
        ground arith,
        ap resolved (select_l4_backend_weightless healthy counters k (x ∷ xs) z),
      ))
  | inr z ↦
      let (b, e, at, w) = select_l4_backend-IsWeighted healthy counters k (x ∷ xs) (ground arith) in
      inr (
        inr (
          b,
          at,
          w,
          elim (Bool-cases (is_reject b.action)) [
            | inl r ↦ inl (r, rw (e, r))
            | inr r ↦ inr (r, rw (e, r))
          ],
        ))
]

abbrev pub Outcome : Option (List Backend × ℕ) → Resolved → Type 0
Outcome none r = r ≡ err no_route
Outcome (some (bs, k)) r = Comes bs r

resolve_among-Outcome :
    (healthy : SocketAddr → Bool) (counters : Map ℕ ℕ) (o : Option (List Backend × ℕ))
    → Outcome o (resolve_among healthy counters o).1
unfolding resolve_among
resolve_among-Outcome healthy counters none = refl
resolve_among-Outcome healthy counters (some (bs, k)) = resolve_among-Comes healthy counters bs k

-- A passthrough connection without a TLS route and without a TCP route for its port fails for that; otherwise it fails
-- because the route has no backends or no weight, or a rejecting backend of positive weight of the route rejects it, or
-- it is given the address of a forwarding backend of positive weight of the route, whatever the health of the backends.
pub resolve_tls_passthrough-Outcome :
    (hash : ℕ → Bytes → ℕ → Bytes → ℕ) (healthy : SocketAddr → Bool) (counters : Map ℕ ℕ)
    {Regex : Type 0} (t : RouteTable Regex) (sni : Option Bytes) (server_port : ℕ)
    (listener : Option Bytes)
    → Outcome
        (passthrough_route hash t sni server_port listener)
        (resolve_tls_passthrough hash healthy counters t sni server_port listener).1
unfolding resolve_tls_passthrough
resolve_tls_passthrough-Outcome hash healthy counters t sni server_port listener =
    resolve_among-Outcome healthy counters (passthrough_route hash t sni server_port listener)
