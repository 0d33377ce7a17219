-- ===== src/Routing/Select/Shares.antt =====
-- src/routing/mod.rs: what a selection gives, with all backends healthy, some, or none.
use portail.Prelude.{
  ℕ, suc, ◌+◌, ◌-◌, ◌*◌, ◌/◌, ◌%◌, ◌≤◌, ◌<◌, Bool, true, false, Option, some, List, [], ◌∷◌, ◌≡◌,
  ◌⊎◌, inl, inr, refl, ◌∙◌, ap, arith, ltb, leb, ◌==◌, if◌then◌else◌, get_elem?, Bool-cases,
}
use portail.Net.{SocketAddr}
use portail.Routing.Types.{Backend, HttpRouteRule}
use portail.Routing.Select.{
  next, slot_owner, partition_point, weight_sum, healthy_weight, takes_over, nth_healthy_from,
  nth_healthy_weighted, Sums, add_to, sums_from, sums, owner_rejects, degraded_pick,
  select_degraded, select_many, select_one, select_healthy_weighted_backend, bump,
}
use portail.Routing.Select.Owner.{
  slot_owner_total, slot_owner_weight, partition_point-slot_owner, cumulative_from,
}

module _ (healthy : SocketAddr → Bool) where
  -- The weights of the backends that may take over slots.
  pub up_sum : List Backend → ℕ
  up_sum [] = 0
  up_sum (b ∷ bs) = (if takes_over healthy b then b.weight else 0) + up_sum bs

  sums_from-up_sum :
      (slot : ℕ) (s : Sums healthy) (bs : List Backend)
      → (sums_from healthy slot s bs).healthy_sum ≡ s.healthy_sum + up_sum bs
  unfolding sums_from up_sum
  sums_from-up_sum slot s [] = omega arith
  sums_from-up_sum slot s (b ∷ bs) =
      ground (arith, sums_from-up_sum slot (add_to healthy slot s b) bs)

  sums-up_sum : (slot : ℕ) (bs : List Backend) → (sums healthy slot bs).healthy_sum ≡ up_sum bs
  unfolding sums
  sums-up_sum slot bs = omega (
    arith,
    sums_from-up_sum slot
        (record { cumulative = 0; rejected = 0; rejected_below_slot = 0; healthy_sum = 0 }) bs,
  )

  -- A backend at an index may take over slots.
  abbrev pub TakesOver : List Backend → ℕ → Type 0
  TakesOver bs i = (b : Backend) × (get_elem? bs i ≡ some b) × (takes_over healthy b ≡ true)

  later :
      (b : Backend) (bs : List Backend) (o r : Option ℕ)
      → r ≡ next o
      → (i : ℕ) × (o ≡ some i) × TakesOver bs i
      → (i : ℕ) × (r ≡ some i) × TakesOver (b ∷ bs) i
  later b bs o r e (i, q, u) = (suc i, e ∙ ap next q, u)

  nth_healthy_total :
      (c : ℕ) (bs : List Backend) (slot : ℕ)
      → c ≤ slot
      → slot < c + up_sum bs
      → (i : ℕ) × (nth_healthy_from healthy c bs slot ≡ some i) × TakesOver bs i
  unfolding nth_healthy_from up_sum
  nth_healthy_total c [] slot k h = absurd (omega arith)
  nth_healthy_total c (b ∷ bs) slot k h = elim (Bool-cases (takes_over healthy b)) [
    | inr t ↦
        let h' : slot < c + (0 + up_sum bs) = rw t at h in
        later b bs (nth_healthy_from healthy c bs slot) _ (rw t)
          (nth_healthy_total c bs slot k (omega arith))
    | inl t ↦ elim (Bool-cases (ltb slot (c + b.weight))) [
      | inl l ↦ (0, rw (t, l), (b, refl, t))
      | inr l ↦
          let h' : slot < c + (b.weight + up_sum bs) = rw t at h in
          later b bs (nth_healthy_from healthy (c + b.weight) bs slot) _ (rw (t, l))
            (nth_healthy_total (c + b.weight) bs slot (ground arith) (omega arith))
    ]
  ]

  module _ (bs : List Backend) (counter : ℕ) where
    abbrev chosen : Option ℕ
    chosen = select_degraded healthy bs counter (weight_sum bs)

    abbrev slot_of : ℕ
    slot_of = counter % weight_sum bs

    -- A rejecting owner of the slot is picked, and so is any owner while no backend may take over; else the pick is a
    -- backend that may.
    abbrev pub IsShared : ℕ → Type 0
    IsShared owner =
        (owner_rejects healthy bs owner ≡ true → chosen ≡ some owner)
        × (up_sum bs ≡ 0 → chosen ≡ some owner)
        × (owner_rejects healthy bs owner ≡ false
            → 0 < up_sum bs
            → (i : ℕ) × (chosen ≡ some i) × TakesOver bs i)

    select_degraded-IsShared :
        0 < weight_sum bs → (owner : ℕ) × (slot_owner bs slot_of ≡ some owner) × IsShared owner
    unfolding select_degraded degraded_pick nth_healthy_weighted
    select_degraded-IsShared pos =
        let (o, e) = slot_owner_total bs slot_of (omega arith) in
        let up = sums-up_sum slot_of bs in
        (
          o,
          e,
          (
            λ r. rw (e, r),
            λ z.
                rw (e, up, z)
                  (elim (Bool-cases (owner_rejects healthy bs o)) [ inl r ↦ rw r | inr r ↦ rw r ]),
            λ r p.
                let s = sums healthy slot_of bs in
                let pick =
                  counter / weight_sum bs * (weight_sum bs - s.rejected)
                  + (slot_of - s.rejected_below_slot) in
                let (i, q, t) =
                  nth_healthy_total 0 bs (pick % s.healthy_sum) (omega arith) (omega arith) in
                let z : (s.healthy_sum == 0) ≡ false = ground arith in (i, rw (e, r, z, q), t),
          ),
        )

  -- The pick of a degraded list, by the owner of the slot: a rejecting owner, any owner while no backend may take
  -- over, or a backend that may.
  abbrev pub Shares : List Backend → ℕ → ℕ → Type 0
  Shares bs counter owner =
      ((owner_rejects healthy bs owner ≡ true) × (chosen bs counter ≡ some owner))
      ⊎ (((up_sum bs ≡ 0) × (chosen bs counter ≡ some owner))
          ⊎ ((owner_rejects healthy bs owner ≡ false)
              × ((i : ℕ) × (chosen bs counter ≡ some i) × TakesOver bs i)))

  -- In the degraded selection from a list whose weights have a positive sum, a slot of a rejecting backend stays with it,
  -- and each other slot goes to a healthy forwarding backend of positive weight, or, with none of those, stays with its
  -- owner.
  pub select_degraded-Shares :
      (bs : List Backend) (counter : ℕ)
      → 0 < weight_sum bs
      → (owner : ℕ) × (slot_owner bs (counter % weight_sum bs) ≡ some owner)
        × Shares bs counter owner
  select_degraded-Shares bs counter pos =
      let (o, e, (keeps, panics, spreads)) = select_degraded-IsShared bs counter pos in
      elim (Bool-cases (owner_rejects healthy bs o)) [
        | inl r ↦ (o, e, inl (r, keeps r))
        | inr r ↦ elim (Bool-cases (up_sum bs == 0)) [
          | inl z ↦ let z' : up_sum bs ≡ 0 = ground arith in (o, e, inr (inl (z', panics z')))
          | inr p ↦ (o, e, inr (inr (r, spreads r (ground arith))))
        ]
      ]

  -- A backend of positive weight at an index.
  abbrev pub IsWeighted : List Backend → ℕ → Type 0
  IsWeighted bs i = (b : Backend) × (get_elem? bs i ≡ some b) × (0 < b.weight)

  TakesOver-IsWeighted : (bs : List Backend) (i : ℕ) → TakesOver bs i → IsWeighted bs i
  TakesOver-IsWeighted bs i (b, e, t) = (b, e, ground arith)

  pub degraded-IsWeighted :
      (bs : List Backend) (counter : ℕ)
      → 0 < weight_sum bs
      → (i : ℕ) × (select_degraded healthy bs counter (weight_sum bs) ≡ some i) × IsWeighted bs i
  degraded-IsWeighted bs counter pos =
      let (o, e, (keeps, panics, spreads)) = select_degraded-IsShared bs counter pos in
      let own = slot_owner_weight bs _ o e in
      elim (Bool-cases (owner_rejects healthy bs o)) [
        | inl r ↦ (o, keeps r, own)
        | inr r ↦ elim (Bool-cases (up_sum bs == 0)) [
          | inl z ↦ (o, panics (ground arith), own)
          | inr p ↦ let (i, q, t) = spreads r (ground arith) in (i, q, TakesOver-IsWeighted bs i t)
        ]
      ]

  many-IsWeighted :
      {Regex : Type 0} (rule : HttpRouteRule Regex)
      → rule.total_weight ≡ weight_sum rule.backends
      → rule.cumulative_weights ≡ cumulative_from 0 rule.backends
      → 0 < weight_sum rule.backends
      → (i : ℕ) × ((select_many healthy rule).1 ≡ some i) × IsWeighted rule.backends i
  unfolding select_many
  many-IsWeighted rule total sums pos =
      let up = healthy_weight healthy rule.backends in
      let pool : ℕ = if up == 0 then rule.total_weight else up in
      let slot = rule.counter % rule.total_weight in
      let z : (pool == 0) ≡ false = ground arith in
      elim (Bool-cases (pool == rule.total_weight)) [
        | inl t ↦
            let p = partition_point (λ cw. leb cw slot) rule.cumulative_weights in
            let own : slot_owner rule.backends slot ≡ some p =
              rw sums (partition_point-slot_owner rule.backends slot (omega arith)) in
            (p, rw (z, t), slot_owner_weight rule.backends slot p own)
        | inr t ↦
            let (i, e, w) = degraded-IsWeighted rule.backends rule.counter pos in
            (i, rw (z, t, total) e, w)
      ]

  one-IsWeighted :
      {Regex : Type 0} (bs : List Backend) (rule : HttpRouteRule Regex)
      → 0 < weight_sum bs
      → (i : ℕ) × ((select_many healthy rule).1 ≡ some i) × IsWeighted bs i
      → (i : ℕ) × ((select_one healthy bs rule).1 ≡ some i) × IsWeighted bs i
  unfolding select_one weight_sum
  one-IsWeighted [] rule pos many = many
  one-IsWeighted (b ∷ []) rule pos many = (0, ground arith, (b, refl, omega arith))
  one-IsWeighted (b ∷ c ∷ bs) rule pos many = many

  -- For a rule whose sums are those of its backends, some of positive weight, a selection gives the index of a backend
  -- of positive weight, whatever the health of the backends.
  pub select_healthy_weighted_backend_total :
      {Regex : Type 0} (rule : HttpRouteRule Regex)
      → rule.total_weight ≡ weight_sum rule.backends
      → rule.cumulative_weights ≡ cumulative_from 0 rule.backends
      → 0 < weight_sum rule.backends
      → (i : ℕ) × ((select_healthy_weighted_backend healthy rule).1 ≡ some i)
        × IsWeighted rule.backends i
  unfolding select_healthy_weighted_backend
  select_healthy_weighted_backend_total rule total sums pos =
      one-IsWeighted rule.backends rule pos (many-IsWeighted rule total sums pos)

  -- For a rule whose total and prefix sums are those of its backends' weights, with a positive total, and with every
  -- backend of positive weight healthy, or none, the pick of the selection among many backends is the owner of the
  -- counter's slot of the configured weights, and the counter goes on by one.
  pub select_many-slot_owner :
      {Regex : Type 0} (rule : HttpRouteRule Regex)
      → rule.total_weight ≡ weight_sum rule.backends
      → rule.cumulative_weights ≡ cumulative_from 0 rule.backends
      → 0 < weight_sum rule.backends
      → (healthy_weight healthy rule.backends ≡ weight_sum rule.backends)
        ⊎ (healthy_weight healthy rule.backends ≡ 0)
      → select_many healthy rule ≡ (
        bump healthy rule.counter,
        slot_owner rule.backends (rule.counter % weight_sum rule.backends),
      )
  unfolding select_many
  select_many-slot_owner rule total sums pos even =
      let up = healthy_weight healthy rule.backends in
      let pool : ℕ = if up == 0 then rule.total_weight else up in
      let slot = rule.counter % rule.total_weight in
      let z : (pool == 0) ≡ false = ground arith in
      let t : (pool == rule.total_weight) ≡ true = ground arith in
      let p = partition_point (λ cw. leb cw slot) rule.cumulative_weights in
      let own : slot_owner rule.backends slot ≡ some p =
        rw sums (partition_point-slot_owner rule.backends slot (omega arith)) in
      rw (z, t, ← own, total)
