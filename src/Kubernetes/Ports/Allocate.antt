-- ===== src/Kubernetes/Ports/Allocate.antt =====
-- src/kubernetes/controller/provision/ports.rs: what allocate_target_ports promises.
use portail.Prelude.{
  ℕ, suc, ◌+◌, ◌%◌, ◌^◌, ◌≤◌, true, false, not, ◌&&◌, Option, none, some, List, [], ◌∷◌, ◌≡◌, ◌≢◌,
  ◌⊎◌, inl, inr, refl, sym, ap, ◌∙◌, arith, ltb, length, is_some, nat_eq, Bool-cases, Option-cases,
  ==_iff,
}
use mathlib.Core.Bool.{false≢true}
use mathlib.Core.Option.{none-ne-some}
use portail.Prelude.Map.{Map, get}
use portail.Kubernetes.Ports.{
  privileged_port_max, target_port_pool_base, admin_port, contains, binds_itself, ascending,
  Allocation, assign, bind_itself, keep, keep_existing, next_free, draw, allocate_target_ports,
}
use portail.Kubernetes.Ports.Draw.{contains-ascending, length-ascending}
use portail.Kubernetes.Ports.Targets.{
  IsTarget, IsAllocated, IsBound, is_some-assign, bind_itself-IsBound, IsBound-IsAllocated,
  keep_existing-IsAllocated, draw-IsAllocated,
}

bind_itself-length :
    (ps : List ℕ) (a : Allocation) → length (bind_itself ps a).used ≤ length a.used + length ps
unfolding bind_itself
bind_itself-length [] a = omega arith
bind_itself-length (p ∷ ps) a = elim (Bool-cases (binds_itself p)) [
  | inl b ↦ rw (b, bind_itself) (omega (arith, bind_itself-length ps (assign p p a)))
  | inr b ↦ rw (b, bind_itself) (omega (arith, bind_itself-length ps a))
]

keep-length :
    (p : ℕ) (o : Option ℕ) (a : Allocation) → length (keep p o a).used ≤ suc (length a.used)
unfolding keep
keep-length p none a = omega arith
keep-length p (some t) a =
    elim (Bool-cases (ltb privileged_port_max t && not (contains t a.used))) [
      | inl e ↦ rw (e, keep) (omega arith)
      | inr e ↦ rw (e, keep) (omega arith)
    ]

keep_existing-length :
    (existing : Map ℕ ℕ) (ps : List ℕ) (a : Allocation)
    → length (keep_existing existing ps a).used ≤ length a.used + length ps
unfolding keep_existing
keep_existing-length existing [] a = omega arith
keep_existing-length existing (p ∷ ps) a = elim (Bool-cases (binds_itself p)) [
  | inl b ↦ rw (b, keep_existing) (omega (arith, keep_existing-length existing ps a))
  | inr b ↦
      rw (b, keep_existing)
        (omega (
          arith,
          keep_existing-length existing ps (keep p (get p existing) a),
          keep-length p (get p existing) a,
        ))
]

-- A port has a target.
abbrev Has : ℕ → Allocation → Type 0
Has q a = is_some (get q a.target) ≡ true

contains-cons_cases :
    (q p : ℕ) (ps : List ℕ) → contains q (p ∷ ps) ≡ true → (p ≡ q) ⊎ (contains q ps ≡ true)
unfolding contains
contains-cons_cases q p ps h = ground (arith, ==_iff p q)

bind_itself-Has :
    (q : ℕ) (ps : List ℕ) (a : Allocation)
    → Has q a ⊎ ((contains q ps ≡ true) × (binds_itself q ≡ true))
    → Has q (bind_itself ps a)
unfolding bind_itself contains
bind_itself-Has q [] a (inl h) = h
bind_itself-Has q [] a (inr (c, b)) = absurd (false≢true c)
bind_itself-Has q (p ∷ ps) a (inl h) = elim (Bool-cases (binds_itself p)) [
  | inl b ↦
      rw (b, bind_itself)
        (bind_itself-Has q ps (assign p p a) (inl (is_some-assign p p q a.target (inr h))))
  | inr b ↦ rw (b, bind_itself) (bind_itself-Has q ps a (inl h))
]
bind_itself-Has q (p ∷ ps) a (inr (c, own)) = elim (Bool-cases (binds_itself p)) [
  | inl b ↦
      rw (b, bind_itself)
        (bind_itself-Has q ps (assign p p a) (elim (contains-cons_cases q p ps c) [
          | inl e ↦ inl (is_some-assign p p q a.target (inl e))
          | inr r ↦ inr (r, own)
        ]))
  | inr b ↦
      rw (b, bind_itself)
        (bind_itself-Has q ps a (elim (contains-cons_cases q p ps c) [
          | inl e ↦ absurd (false≢true (sym b ∙ ap binds_itself e ∙ own))
          | inr r ↦ inr (r, own)
        ]))
]

keep-Has : (q p : ℕ) (o : Option ℕ) (a : Allocation) → Has q a → Has q (keep p o a)
unfolding keep
keep-Has q p none a h = h
keep-Has q p (some t) a h =
    elim (Bool-cases (ltb privileged_port_max t && not (contains t a.used))) [
      | inl e ↦ rw (e, keep) (is_some-assign p t q a.target (inr h))
      | inr e ↦ rw (e, keep) h
    ]

keep_existing-Has :
    (q : ℕ) (existing : Map ℕ ℕ) (ps : List ℕ) (a : Allocation)
    → Has q a
    → Has q (keep_existing existing ps a)
unfolding keep_existing
keep_existing-Has q existing [] a h = h
keep_existing-Has q existing (p ∷ ps) a h = elim (Bool-cases (binds_itself p)) [
  | inl b ↦ rw (b, keep_existing) (keep_existing-Has q existing ps a h)
  | inr b ↦
      rw (b, keep_existing)
        (keep_existing-Has q existing ps (keep p (get p existing) a)
          (keep-Has q p (get p existing) a h))
]

draw-Has :
    (q : ℕ) (ps : List ℕ) (next : ℕ) (a : Allocation)
    → Has q a ⊎ ((contains q ps ≡ true) × (binds_itself q ≡ false))
    → Has q (draw ps next a)
unfolding draw contains
draw-Has q [] next a (inl h) = h
draw-Has q [] next a (inr (c, b)) = absurd (false≢true c)
draw-Has q (p ∷ ps) next a w = elim (Bool-cases (binds_itself p)) [
  | inl b ↦
      rw (b, draw)
        (draw-Has q ps next a (elim w [
          | inl h ↦ inl h
          | inr (c, other) ↦ elim (contains-cons_cases q p ps c) [
            | inl e ↦ absurd (false≢true (sym other ∙ sym (ap binds_itself e) ∙ b))
            | inr r ↦ inr (r, other)
          ]
        ]))
  | inr b ↦
      let t = next_free (length a.used) a.used next in
      elim (Bool-cases (is_some (get p a.target))) [
        | inl s ↦
            rw (b, s, draw)
              (draw-Has q ps next a (elim w [
                | inl h ↦ inl h
                | inr (c, other) ↦ elim (contains-cons_cases q p ps c) [
                  | inl e ↦ inl (rw (← e) s)
                  | inr r ↦ inr (r, other)
                ]
              ]))
        | inr s ↦
            rw (b, s, draw)
              (draw-Has q ps ((t + 1) % 2 ^ 16) (assign p t a) (elim w [
                | inl h ↦ inl (is_some-assign p t q a.target (inr h))
                | inr (c, other) ↦ elim (contains-cons_cases q p ps c) [
                  | inl e ↦ inl (is_some-assign p t q a.target (inl e))
                  | inr r ↦ inr (r, other)
                ]
              ]))
      ]
]

module _ (published : List ℕ) (existing : Map ℕ ℕ) where
  abbrev ports : List ℕ
  ports = ascending published

  abbrev start : Allocation
  start = record { target = []; used = admin_port ∷ [] }

  abbrev kept : Allocation
  kept = keep_existing existing ports (bind_itself ports start)

  start-IsBound : IsBound start
  unfolding contains get
  start-IsBound = (refl, λ p t h. absurd (none-ne-some t h))

  allocated : length published ≤ 64 → IsAllocated (draw ports target_port_pool_base kept)
  allocated few =
      draw-IsAllocated ports target_port_pool_base 194 kept (omega arith)
        (omega (
          arith,
          length-ascending published,
          keep_existing-length existing ports (bind_itself ports start),
          bind_itself-length ports start,
        ))
        (omega (arith, length-ascending published))
        (keep_existing-IsAllocated existing ports (bind_itself ports start) (
          IsBound-IsAllocated (bind_itself ports start)
            (bind_itself-IsBound ports start start-IsBound)))

  -- Each of at most 64 published ports gets a target, which is neither privileged nor the admin port, and is the port
  -- itself if that is neither.
  pub allocate_target_ports-IsTarget :
      (p : ℕ)
      → length published ≤ 64
      → contains p published ≡ true
      → (t : ℕ) × (get p (allocate_target_ports published existing) ≡ some t) × IsTarget p t
  unfolding allocate_target_ports
  allocate_target_ports-IsTarget p few c =
      let here : contains p ports ≡ true = contains-ascending p published ∙ c in
      let has : Has p (draw ports target_port_pool_base kept) = elim (Bool-cases (binds_itself p)) [
        | inl b ↦ draw-Has p ports target_port_pool_base kept (
            inl (
              keep_existing-Has p existing ports (bind_itself ports start)
                (bind_itself-Has p ports start (inr (here, b)))))
        | inr b ↦ draw-Has p ports target_port_pool_base kept (inr (here, b))
      ] in
      elim (Option-cases (get p (draw ports target_port_pool_base kept).target)) [
        | inl e ↦ absurd (false≢true (sym (ap is_some e) ∙ has))
        | inr (t, e) ↦ (t, e, ((allocated few).1 p t e).1)
      ]

  -- Of at most 64 published ports no two that differ get the same target.
  pub allocate_target_ports_distinct :
      (p q t u : ℕ)
      → length published ≤ 64
      → p ≢ q
      → get p (allocate_target_ports published existing) ≡ some t
      → get q (allocate_target_ports published existing) ≡ some u
      → t ≢ u
  unfolding allocate_target_ports
  allocate_target_ports_distinct p q t u few d h k e =
      d ((allocated few).2 p q t h (k ∙ ap some (sym e)))
