-- ===== src/Kubernetes/Ports/Targets.antt =====
-- src/kubernetes/controller/provision/ports.rs: every published port gets a target of its own.
use portail.Prelude.{
  ℕ, ◌+◌, ◌*◌, ◌%◌, ◌^◌, ◌<◌, true, false, ◌||◌, Option, none, some, List, [], ◌∷◌, ◌≡◌, ◌≢◌, ◌⊎◌,
  inl, inr, refl, sym, ap, ◌∙◌, arith, ltb, ◌==◌, length, is_some, nat_eq, Bool-cases, ==_iff,
}
use mathlib.Core.Bool.{false≢true}
use portail.Prelude.Map.{Map, get, insert, get-insert}
use portail.Kubernetes.Ports.{
  privileged_port_max, admin_port, contains, binds_itself, Allocation, assign, bind_itself, keep,
  keep_existing, next_free, draw,
}
use portail.Kubernetes.Ports.Draw.{search_lem}

-- A target is used, unprivileged and not the admin port, and is the port itself for a port that binds itself.
abbrev pub IsTarget : ℕ → ℕ → Type 0
IsTarget p t = (1023 < t) × (t ≢ 19099) × ((binds_itself p ≡ false) ⊎ (t ≡ p))

abbrev pub IsAllocated : Allocation → Type 0
IsAllocated a =
    (contains admin_port a.used ≡ true)
    × ((p t : ℕ) → get p a.target ≡ some t → (contains t a.used ≡ true) × IsTarget p t)
    × ((p q t : ℕ) → get p a.target ≡ some t → get q a.target ≡ some t → p ≡ q)

pub some-eq : {a b : ℕ} → some a ≡ some b → a ≡ b
some-eq e = cc

contains-cons : (x t : ℕ) (used : List ℕ) → contains x (t ∷ used) ≡ (t == x || contains x used)
unfolding contains
contains-cons x t used = refl

get-insert_cases :
    (p t q x : ℕ) (m : Map ℕ ℕ)
    → get q (insert p t m) ≡ some x
    → ((p ≡ q) × (t ≡ x)) ⊎ (get q m ≡ some x)
get-insert_cases p t q x m h =
    let g = sym (get-insert p q t m) ∙ h in
    elim (Bool-cases (p == q)) [
      | inl e ↦ inl ((==_iff p q).0 e, some-eq (rw e at g))
      | inr e ↦ inr (rw e at g)
    ]

-- What a port is assigned is in the map, and what was there stays.
pub is_some-assign :
    (p t q : ℕ) (m : Map ℕ ℕ)
    → (p ≡ q) ⊎ (is_some (get q m) ≡ true)
    → is_some (get q (insert p t m)) ≡ true
is_some-assign p t q m h = rw (get-insert p q t m) (elim (Bool-cases (p == q)) [
  | inl e ↦ rw e
  | inr e ↦ rw e (elim h [ inl z ↦ absurd (ground (arith, ==_iff p q)) | inr z ↦ z ])
])

-- A port is assigned a target that is not used yet.
assign-IsAllocated :
    (p t : ℕ) (a : Allocation)
    → contains t a.used ≡ false
    → 1023 < t
    → binds_itself p ≡ false
    → IsAllocated a
    → IsAllocated (assign p t a)
assign-IsAllocated p t a free low own (admin, fits, apart) = (
  rw (contains-cons admin_port t a.used, admin) (ground arith),
  λ q x h. elim (get-insert_cases p t q x a.target h) [
    | inl (e, f) ↦
        rw (← f, contains-cons t t a.used)
          (
            ground arith,
            (low, (λ z. false≢true (sym free ∙ rw (← z) at admin)), inl (rw (← e) own)),
          )
    | inr g ↦ (rw (contains-cons x t a.used, (fits q x g).0) (ground arith), (fits q x g).1)
  ],
  λ q r x h k. elim (get-insert_cases p t q x a.target h) [
    | inl (e, f) ↦ elim (get-insert_cases p t r x a.target k) [
      | inl (e', f') ↦ sym e ∙ e'
      | inr g ↦ absurd (false≢true (sym free ∙ ap (λ y. contains y a.used) f ∙ (fits r x g).0))
    ]
    | inr g ↦ elim (get-insert_cases p t r x a.target k) [
      | inl (e', f') ↦
          absurd (false≢true (sym free ∙ ap (λ y. contains y a.used) f' ∙ (fits q x g).0))
      | inr g' ↦ apart q r x g g'
    ]
  ],
)

-- Behind the ports that bind themselves, each port has its own number.
abbrev pub IsBound : Allocation → Type 0
IsBound a =
    (contains admin_port a.used ≡ true)
    × ((p t : ℕ)
        → get p a.target ≡ some t
        → (t ≡ p) × (binds_itself p ≡ true) × (contains t a.used ≡ true))

pub IsBound-IsAllocated : (a : Allocation) → IsBound a → IsAllocated a
IsBound-IsAllocated a (admin, own) = (
  admin,
  λ p t h. let (e, b, c) = own p t h in (c, (ground arith, ground arith, inr e)),
  λ p q t h k. sym (own p t h).0 ∙ (own q t k).0,
)

assign-IsBound :
    (p : ℕ) (a : Allocation) → binds_itself p ≡ true → IsBound a → IsBound (assign p p a)
assign-IsBound p a b (admin, own) = (
  rw (contains-cons admin_port p a.used, admin) (ground arith),
  λ q x h. elim (get-insert_cases p p q x a.target h) [
    | inl (e, f) ↦ (sym f ∙ e, rw (← e) b, rw (← f, contains-cons p p a.used) (ground arith))
    | inr g ↦ let (e, c, d) = own q x g in (e, c, rw (contains-cons x p a.used, d) (ground arith))
  ],
)

pub bind_itself-IsBound : (ps : List ℕ) (a : Allocation) → IsBound a → IsBound (bind_itself ps a)
unfolding bind_itself
bind_itself-IsBound [] a h = h
bind_itself-IsBound (p ∷ ps) a h = elim (Bool-cases (binds_itself p)) [
  | inl b ↦ rw (b, bind_itself) (bind_itself-IsBound ps (assign p p a) (assign-IsBound p a b h))
  | inr b ↦ rw (b, bind_itself) (bind_itself-IsBound ps a h)
]

keep-IsAllocated :
    (p : ℕ) (o : Option ℕ) (a : Allocation)
    → binds_itself p ≡ false
    → IsAllocated a
    → IsAllocated (keep p o a)
unfolding keep
keep-IsAllocated p none a own h = h
keep-IsAllocated p (some t) a own h = elim (Bool-cases (ltb privileged_port_max t)) [
  | inr e ↦ rw (e, keep) h
  | inl e ↦ elim (Bool-cases (contains t a.used)) [
    | inl f ↦ rw (e, f, keep) h
    | inr f ↦ rw (e, f, keep) (assign-IsAllocated p t a f (ground arith) own h)
  ]
]

pub keep_existing-IsAllocated :
    (existing : Map ℕ ℕ) (ps : List ℕ) (a : Allocation)
    → IsAllocated a
    → IsAllocated (keep_existing existing ps a)
unfolding keep_existing
keep_existing-IsAllocated existing [] a h = h
keep_existing-IsAllocated existing (p ∷ ps) a h = elim (Bool-cases (binds_itself p)) [
  | inl b ↦ rw (b, keep_existing) (keep_existing-IsAllocated existing ps a h)
  | inr b ↦
      rw (b, keep_existing)
        (keep_existing-IsAllocated existing ps (keep p (get p existing) a)
          (keep-IsAllocated p (get p existing) a b h))
]

-- How far the pool is searched by so many draws, each over at most `x` ports.
pub draw-IsAllocated :
    (ps : List ℕ) (next x : ℕ) (a : Allocation)
    → 1023 < next
    → length a.used + length ps < x
    → next + length ps * x < 2 ^ 16
    → IsAllocated a
    → IsAllocated (draw ps next a)
unfolding draw
draw-IsAllocated [] next x a low room bound h = h
draw-IsAllocated (p ∷ ps) next x a low room bound h =
    let more : next + (x + length ps * x) < 2 ^ 16 = omega arith in
    let (free, above, near) = search_lem a.used next (omega arith) in
    let t = next_free (length a.used) a.used next in
    let wrap : (t + 1) % 2 ^ 16 ≡ t + 1 = omega arith in
    elim (Bool-cases (binds_itself p)) [
      | inl b ↦ rw (b, draw) (draw-IsAllocated ps next x a low (omega arith) (omega arith) h)
      | inr b ↦ elim (Bool-cases (is_some (get p a.target))) [
        | inl c ↦ rw (b, c, draw) (draw-IsAllocated ps next x a low (omega arith) (omega arith) h)
        | inr c ↦
            rw (b, c, draw)
              (draw-IsAllocated ps ((t + 1) % 2 ^ 16) x (assign p t a) (omega arith) (omega arith)
                (omega arith) (assign-IsAllocated p t a free (omega arith) b h))
      ]
    ]
