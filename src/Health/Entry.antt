-- ===== src/Health/Entry.antt =====
-- src/proxy/health.rs: an entry of the registry and the number of failures that it stands for.
use portail.Prelude.{
  ℕ, zero, suc, ◌+◌, ◌%◌, ◌^◌, ◌≤◌, ◌<◌, Option, none, some, ◌≡◌, refl, arith, ltb, leb, ◌==◌,
  if◌then◌else◌, Bool-cases, Option-cases, ◌⊎◌, inl, inr,
}
use portail.Prelude.Map.{get, get-insert}
use portail.Net.{SocketAddr, socket_beq, socket_beq_iff, socket_eq}
use portail.Health.{
  healthy, probing, BackendHealth, HealthRegistry, with_entry, after_success, after_failure,
  after_answer,
}

-- An entry stands for a number of failures: below the threshold it is healthy and counts them, from there on it is
-- probed.
abbrev pub Counts : ℕ → Option BackendHealth → Type 0
Counts n none = n ≡ 0
Counts n (some h) =
    ((h.status ≡ healthy) × (h.consecutive_failures ≡ n) × (n < 3))
    ⊎ ((h.status ≡ probing) × (3 ≤ n))

pub after_success-Counts :
    (n : ℕ) (h : BackendHealth) → Counts n (some h) → Counts 0 (some (after_success h))
after_success-Counts n h (inl (e, f, l)) =
    rw (e, f)
      (elim (Bool-cases (ltb 0 n)) [
        | inl q ↦ rw q (inl (refl, refl, omega arith))
        | inr q ↦ rw q (inl (refl, ground arith, omega arith))
      ])
after_success-Counts n h (inr (e, l)) = rw e (inl (refl, refl, omega arith))

pub after_answer-Counts :
    (n : ℕ) (h : BackendHealth) → Counts n (some h) → Counts 0 (some (after_answer h))
after_answer-Counts n h (inl (e, f, l)) = rw e (inl (refl, refl, omega arith))
after_answer-Counts n h (inr (e, l)) = rw e (inl (refl, refl, omega arith))

pub after_failure-Counts :
    (n : ℕ) (h : BackendHealth)
    → Counts n (some h)
    → Counts (suc n) (some (after_failure h).0) × ((after_failure h).1 ≡ (n == 2))
after_failure-Counts zero h (inl (e, f, l)) = rw (e, f) (inl (refl, refl, omega arith), refl)
after_failure-Counts (suc zero) h (inl (e, f, l)) = rw (e, f) (inl (refl, refl, omega arith), refl)
after_failure-Counts (suc (suc zero)) h (inl (e, f, l)) = rw (e, f) (inr (refl, omega arith), refl)
after_failure-Counts (suc (suc (suc n))) h (inl (e, f, l)) =
    let z : ⊥ = omega (arith, l) in elim z [ ]
after_failure-Counts n h (inr (e, l)) =
    elim (Bool-cases (leb 3 ((h.consecutive_failures + 1) % 2 ^ 32))) [
      | inl q ↦ rw (e, q) (inr (refl, omega arith), ground arith)
      | inr q ↦ rw (e, q) (inr (refl, omega arith), ground arith)
    ]

abbrev pub updated : (BackendHealth → BackendHealth) → Option BackendHealth → Option BackendHealth
updated f none = none
updated f (some h) = some (f h)

pub get-with_entry :
    (a b : SocketAddr) (f : BackendHealth → BackendHealth) (r : HealthRegistry)
    → get b (with_entry a f (get a r.backends) r).backends
      ≡ (if socket_beq a b then updated f (get a r.backends) else get b r.backends)
unfolding with_entry
get-with_entry a b f r = elim (Option-cases (get a r.backends)) [
  | inl h ↦ rw h (elim (Bool-cases (socket_beq a b)) [
    | inl q ↦ rw (q, ← (socket_beq_iff a b).0 q) h
    | inr q ↦ rw q
  ])
  | inr (v, h) ↦ rw h (get-insert a b (f v) r.backends)
]
