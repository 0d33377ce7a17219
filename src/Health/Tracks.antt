-- ===== src/Health/Tracks.antt =====
-- src/proxy/health.rs: each method keeps the registry's flag and follows the failures of each backend.
use portail.Prelude.{
  ℕ, suc, Bool, true, false, not, Option, none, some, List, [], ◌∷◌, ◌≡◌, refl, sym, arith, ltb,
  ◌==◌, if◌then◌else◌, any, is_empty, Bool-cases, Option-cases, inl, inr, get_or_else,
}
use portail.Prelude.Map.{
  get, retain, get-insert, get-retain, IsUnique, insert-IsUnique, beq_refl, retain-IsUnique, kept,
}
use mathlib.Core.Bool.{true≢false}
use portail.Net.{SocketAddr, socket_beq, socket_beq_iff, socket_eq}
use portail.Routing.Table.{RouteTable}
use portail.Health.{
  BackendHealth, HealthRegistry, new, is_healthy, record_success, record_failure, spawn_probe,
  probe_connected, prune, routed_addrs, with_entry, after_success, after_failure, after_answer,
  new_health, entry_is_healthy,
}
use portail.Health.Entry.{
  Counts, after_success-Counts, after_answer-Counts, after_failure-Counts, get-with_entry,
}

-- The flag is down only over an empty map, and each address has one entry.
abbrev pub IsTracked : HealthRegistry → Type 0
IsTracked r = ((r.tracked ≡ false) → (r.backends ≡ [])) × IsUnique r.backends

abbrev pub Follows : (SocketAddr → ℕ) → HealthRegistry → Type 0
Follows f r = (a : SocketAddr) → Counts (f a) (get a r.backends)

with_entry-Follows :
    (a : SocketAddr) (f : BackendHealth → BackendHealth) (r : HealthRegistry)
    (g g' : SocketAddr → ℕ)
    → ((h : BackendHealth) → Counts (g a) (some h) → Counts (g' a) (some (f h)))
    → (g a ≡ 0 → g' a ≡ 0)
    → ((b : SocketAddr) → socket_beq a b ≡ false → g' b ≡ g b)
    → Follows g r
    → Follows g' (with_entry a f (get a r.backends) r)
with_entry-Follows a f r g g' step zeroes others v b =
    rw (get-with_entry a b f r) (elim (Bool-cases (socket_beq a b)) [
      | inl q ↦
          rw (q, ← (socket_beq_iff a b).0 q)
            (elim (Option-cases (get a r.backends)) [
              | inl h ↦ rw h (zeroes (rw h at (v a)))
              | inr (w, h) ↦ rw h (step w (rw h at (v a)))
            ])
      | inr q ↦ rw (q, others b q) (v b)
    ])

with_entry-IsTracked :
    (a : SocketAddr) (f : BackendHealth → BackendHealth) (r : HealthRegistry)
    → IsTracked r
    → IsTracked (with_entry a f (get a r.backends) r)
unfolding with_entry get
with_entry-IsTracked a f r v = elim (Option-cases (get a r.backends)) [
  | inl h ↦ rw h v
  | inr (w, h) ↦ rw h (λ q. cc (v.0 q, h), insert-IsUnique a (f w) r.backends v.1)
]

-- What is kept over an event: the flag, and the streak of each backend.
abbrev pub Tracks : (SocketAddr → ℕ) → HealthRegistry → Type 0
Tracks g r = IsTracked r × Follows g r

untracked-zero :
    (g : SocketAddr → ℕ) (r : HealthRegistry) (a : SocketAddr)
    → Tracks g r
    → r.tracked ≡ false
    → g a ≡ 0
unfolding get
untracked-zero g r a (t, v) h = rw (t.0 h) at (v a)

record_success_tracked :
    (a : SocketAddr) (r : HealthRegistry)
    → r.tracked ≡ true
    → record_success a r ≡ with_entry a after_success (get a r.backends) r
unfolding record_success
record_success_tracked a r h = simp h

record_success_untracked :
    (a : SocketAddr) (r : HealthRegistry) → r.tracked ≡ false → record_success a r ≡ r
unfolding record_success
record_success_untracked a r h = simp h

pub record_success-Tracks :
    (a : SocketAddr) (g : SocketAddr → ℕ) (r : HealthRegistry)
    → Tracks g r
    → Tracks (λ b. if socket_beq a b then 0 else g b) (record_success a r)
record_success-Tracks a g r (t, v) = elim (Bool-cases r.tracked) [
  | inl h ↦ rw (record_success_tracked a r h) (
    with_entry-IsTracked a after_success r t,
    with_entry-Follows a after_success r g (λ b. if socket_beq a b then 0 else g b)
        (λ k c. rw (beq_refl a) (after_success-Counts (g a) k c)) (λ z. rw (beq_refl a))
        (λ b q. rw q) v,
  )
  | inr h ↦ rw (record_success_untracked a r h) (
    t,
    λ b. elim (Bool-cases (socket_beq a b)) [
      | inl q ↦ rw (q, ← untracked-zero g r b (t, v) h) (v b)
      | inr q ↦ rw q (v b)
    ],
  )
]

pub probe_connected-Tracks :
    (a : SocketAddr) (g : SocketAddr → ℕ) (r : HealthRegistry)
    → Tracks g r
    → Tracks (λ b. if socket_beq a b then 0 else g b) (probe_connected a r)
unfolding probe_connected
probe_connected-Tracks a g r (t, v) = (
  with_entry-IsTracked a after_answer r t,
  with_entry-Follows a after_answer r g (λ b. if socket_beq a b then 0 else g b)
      (λ k c. rw (beq_refl a) (after_answer-Counts (g a) k c)) (λ z. rw (beq_refl a)) (λ b q. rw q)
      v,
)

pub spawn_probe-Tracks :
    (a : SocketAddr) (task : ℕ) (g : SocketAddr → ℕ) (r : HealthRegistry)
    → Tracks g r
    → Tracks g (spawn_probe a task r).0
unfolding spawn_probe
spawn_probe-Tracks a task g r (t, v) =
    (with_entry-IsTracked a _ r t, with_entry-Follows a _ r g g (λ k c. c) (λ z. z) (λ b q. refl) v)

-- The entry that a failure starts from.
entry_or_new-Counts :
    (n : ℕ) (o : Option BackendHealth) → Counts n o → Counts n (some (get_or_else o new_health))
entry_or_new-Counts n none z = inl (refl, sym z, omega (arith, z))
entry_or_new-Counts n (some h) c = c

pub record_failure-Tracks :
    (a : SocketAddr) (g : SocketAddr → ℕ) (r : HealthRegistry)
    → Tracks g r
    → Tracks (λ b. if socket_beq a b then suc (g b) else g b) (record_failure a r).0
unfolding record_failure
record_failure-Tracks a g r (t, v) =
    let entry : BackendHealth = (after_failure (get_or_else (get a r.backends) new_health)).0 in
    let next =
      after_failure-Counts (g a) (get_or_else (get a r.backends) new_health)
        (entry_or_new-Counts (g a) (get a r.backends) (v a)) in
    (
      ((λ q. elim (true≢false q) [ ]), insert-IsUnique a entry r.backends t.1),
      λ b. rw (get-insert a b entry r.backends) (elim (Bool-cases (socket_beq a b)) [
        | inl q ↦ rw (q, ← (socket_beq_iff a b).0 q) next.0
        | inr q ↦ rw q (v b)
      ]),
    )

is_empty-eq_nil {ℓ} : {A : Type ℓ} (xs : List A) → not (is_empty xs) ≡ false → xs ≡ []
is_empty-eq_nil [] h = refl
is_empty-eq_nil (x ∷ xs) h = elim (true≢false h) [ ]

prune_tracked :
    {Regex : Type 0} (table : RouteTable Regex) (r : HealthRegistry)
    → r.tracked ≡ true
    → let kept = retain (λ addr entry. any (socket_beq addr) (routed_addrs table)) r.backends in
      prune table r ≡ record { backends = kept; tracked = not (is_empty kept) }
unfolding prune
prune_tracked table r h = simp h

prune_untracked :
    {Regex : Type 0} (table : RouteTable Regex) (r : HealthRegistry)
    → r.tracked ≡ false
    → prune table r ≡ r
unfolding prune
prune_untracked table r h = simp h

kept-Counts :
    (p : SocketAddr → Bool) (a : SocketAddr) (n : ℕ) (o : Option BackendHealth)
    → Counts n o
    → Counts (if p a then n else 0) (kept (λ addr entry. p addr) a o)
kept-Counts p a n none c = elim (Bool-cases (p a)) [ inl q ↦ rw q c | inr q ↦ rw q ]
kept-Counts p a n (some h) c = elim (Bool-cases (p a)) [ inl q ↦ rw q c | inr q ↦ rw q ]

pub prune-Tracks :
    {Regex : Type 0} (table : RouteTable Regex) (g : SocketAddr → ℕ) (r : HealthRegistry)
    → Tracks g r
    → Tracks (λ b. if any (socket_beq b) (routed_addrs table) then g b else 0) (prune table r)
prune-Tracks table g r (t, v) =
    let routed : SocketAddr → Bool = λ b. any (socket_beq b) (routed_addrs table) in
    elim (Bool-cases r.tracked) [
      | inl h ↦ rw (prune_tracked table r h) (
        (
          is_empty-eq_nil (retain (λ addr entry. routed addr) r.backends),
          retain-IsUnique (λ addr entry. routed addr) r.backends t.1,
        ),
        λ b.
            rw (get-retain (λ addr entry. routed addr) b r.backends t.1)
              (kept-Counts routed b (g b) (get b r.backends) (v b)),
      )
      | inr h ↦ rw (prune_untracked table r h) (
        t,
        λ b. elim (Bool-cases (routed b)) [
          | inl q ↦ rw q (v b)
          | inr q ↦ rw (q, ← untracked-zero g r b (t, v) h) (v b)
        ],
      )
    ]

is_healthy_entry : (n : ℕ) (o : Option BackendHealth) → Counts n o → entry_is_healthy o ≡ ltb n 3
is_healthy_entry n none c = rw c
is_healthy_entry n (some h) (inl (e, f, l)) = rw e (ground (arith, l))
is_healthy_entry n (some h) (inr (e, l)) = rw e (ground (arith, l))

pub is_healthy-Tracks :
    (g : SocketAddr → ℕ) (r : HealthRegistry) (a : SocketAddr)
    → Tracks g r
    → is_healthy a r ≡ ltb (g a) 3
unfolding is_healthy
is_healthy-Tracks g r a (t, v) = elim (Bool-cases r.tracked) [
  | inl h ↦ rw h (is_healthy_entry (g a) (get a r.backends) (v a))
  | inr h ↦ rw (h, untracked-zero g r a (t, v) h)
]

pub record_failure_asks :
    (g : SocketAddr → ℕ) (r : HealthRegistry) (a : SocketAddr)
    → Tracks g r
    → (record_failure a r).1 ≡ (g a == 2)
unfolding record_failure
record_failure_asks g r a (t, v) =
    (after_failure-Counts (g a) (get_or_else (get a r.backends) new_health)
      (entry_or_new-Counts (g a) (get a r.backends) (v a))).1

pub new-Tracks : Tracks (λ a. 0) new
unfolding get
new-Tracks = ((λ q. refl, tt), λ a. refl)
