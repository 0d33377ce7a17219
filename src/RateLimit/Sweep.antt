-- ===== src/RateLimit/Sweep.antt =====
-- src/rate_limit.rs: what a sweep leaves to be seen.
use portail.Prelude.{
  ℕ, ◌+◌, ◌%◌, ◌^◌, ◌<◌, false, none, some, ◌≡◌, sym, ap, ◌∙◌, arith, ltb, inl, inr, Bool-cases,
  nat_eq,
}
use portail.Prelude.Map.{get, IsUnique, get-retain, get-insert_self}
use native.Mathlib.Nat.{add_assoc}
use portail.RateLimit.{
  Limiter, pack, refill, consume, check_bucket, check_at, survives, live, sweep_at, stale_ms,
}
use portail.RateLimit.Bucket.{attempt_later, first_sighting_lem, elapsed_later, unpack-pack}

refill_full :
    (tokens dt d rate burst : ℕ)
    → ltb (refill tokens dt rate burst) burst ≡ false
    → refill tokens (dt + d) rate burst ≡ burst
unfolding refill
refill_full tokens dt d rate burst h = ground arith

dropped_full :
    (t tokens dt rate burst : ℕ)
    → tokens < 2 ^ 32
    → dt < stale_ms
    → survives ((t + dt) % 2 ^ 32) rate burst (pack (t % 2 ^ 32) tokens) ≡ false
    → ltb (refill tokens dt rate burst) burst ≡ false
unfolding survives live
dropped_full t tokens dt rate burst h k s =
    let kept_if = rw (unpack-pack (t % 2 ^ 32) tokens (omega arith) h) at s in
    let kept_at = rw (elapsed_later t dt (omega arith)) at kept_if in ground arith

-- A dropped bucket leaves no trace.
dropped-check_bucket :
    (t tokens dt d rate burst : ℕ)
    → tokens < 2 ^ 32
    → dt < stale_ms
    → d < stale_ms
    → survives ((t + dt) % 2 ^ 32) rate burst (pack (t % 2 ^ 32) tokens) ≡ false
    → check_bucket none ((t + dt + d) % 2 ^ 32) rate burst
      ≡ check_bucket (some (pack (t % 2 ^ 32) tokens)) ((t + dt + d) % 2 ^ 32) rate burst
unfolding check_bucket consume
dropped-check_bucket t tokens dt d rate burst h k l s =
    let full = refill_full tokens dt d rate burst (dropped_full t tokens dt rate burst h k s) in
    rw (
      add_assoc t dt d,
      first_sighting_lem ((t + (dt + d)) % 2 ^ 32) burst,
      attempt_later t (dt + d) tokens rate burst h (omega arith),
      full,
    )

module _ (l : Limiter) (key t tokens dt d : ℕ) (unique : IsUnique l.buckets) (h : tokens < 2 ^ 32)
    (k : dt < stale_ms) (near : d < stale_ms)
    (held : get key l.buckets ≡ some (pack (t % 2 ^ 32) tokens)) where
  abbrev later : ℕ
  later = (t + dt + d) % 2 ^ 32

  abbrev swept : Limiter
  swept = sweep_at l ((t + dt) % 2 ^ 32)

  swept-check_bucket :
      check_bucket (get key swept.buckets) later l.rate l.burst_mt
      ≡ check_bucket (get key l.buckets) later l.rate l.burst_mt
  unfolding sweep_at
  swept-check_bucket =
      elim (Bool-cases
        (survives ((t + dt) % 2 ^ 32) l.rate l.burst_mt (pack (t % 2 ^ 32) tokens))) [
          | inl s ↦ rw (
            get-retain (λ k cell. survives ((t + dt) % 2 ^ 32) l.rate l.burst_mt cell) key l.buckets
                unique,
            held,
            s,
          )
          | inr s ↦
              rw
                (
                  get-retain (λ k cell. survives ((t + dt) % 2 ^ 32) l.rate l.burst_mt cell) key
                      l.buckets unique,
                  held,
                  s,
                )
                (dropped-check_bucket t tokens dt d l.rate l.burst_mt h k near s)
        ]

  -- A client's bucket was stamped at `t`, a sweep runs less than STALE_MS later, and the client's next request comes less
  -- than STALE_MS after the sweep: it gets the answer, and leaves the bucket, that it would without the sweep.
  pub check_at-sweep_at :
      ((check_at swept key later).1 ≡ (check_at l key later).1)
      × (get key (check_at swept key later).0.buckets ≡ get key (check_at l key later).0.buckets)
  unfolding check_at sweep_at
  check_at-sweep_at = (
    ap (λ r. r.1) swept-check_bucket,
    get-insert_self key _ _ ∙ ap (λ r. some r.0) swept-check_bucket ∙ sym (get-insert_self key _ _),
  )
