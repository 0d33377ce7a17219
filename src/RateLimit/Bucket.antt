-- ===== src/RateLimit/Bucket.antt =====
-- src/rate_limit.rs: the packed bucket, and one request on it.
use portail.Prelude.{
  ℕ, ◌+◌, ◌-◌, ◌*◌, ◌%◌, ◌^◌, ◌≤◌, ◌<◌, Bool, true, false, some, ◌≡◌, arith, leb, if◌then◌else◌,
  lt→ltb,
}
use portail.RateLimit.{
  pack, unpack, elapsed, refill, filled_at, take_token, attempt, first_sighting,
  millitokens_per_request, backwards_ms,
}

pub unpack-pack : (a b : ℕ) → a < 2 ^ 32 → b < 2 ^ 32 → unpack (pack a b) ≡ (a, b)
unfolding unpack pack
unpack-pack a b h k = ground arith

pub elapsed_later : (t d : ℕ) → d < backwards_ms → elapsed ((t + d) % 2 ^ 32) (t % 2 ^ 32) ≡ some d
unfolding elapsed
elapsed_later t d h =
    let e : ((t + d) % 2 ^ 32 + 2 ^ 32 - t % 2 ^ 32) % 2 ^ 32 ≡ d = omega arith in
    rw (e, lt→ltb d backwards_ms h)

-- The tokens of a bucket, and what a request that finds `filled` tokens is granted and leaves.
abbrev pub cost : Bool → ℕ
cost true = millitokens_per_request
cost false = 0

pub left : ℕ → ℕ
left filled =
    if leb millitokens_per_request filled then filled - millitokens_per_request else filled

pub granted : ℕ → Bool
granted filled = leb millitokens_per_request filled

pub left-granted : (filled : ℕ) → left filled + cost (granted filled) ≡ filled
unfolding left granted
left-granted filled = ground arith

pub take_token_lem :
    (stamp filled : ℕ) → take_token (stamp, filled) ≡ (pack stamp (left filled), granted filled)
unfolding take_token left granted
take_token_lem stamp filled = ground arith

pub first_sighting_lem :
    (now burst : ℕ) → first_sighting now burst ≡ (pack now (left burst), granted burst)
unfolding first_sighting left granted
first_sighting_lem now burst = ground arith

-- A request `d` milliseconds after the bucket's stamp, on an unwrapped clock.
pub attempt_later :
    (t d tokens rate burst : ℕ)
    → tokens < 2 ^ 32
    → d < backwards_ms
    → attempt (pack (t % 2 ^ 32) tokens) ((t + d) % 2 ^ 32) rate burst ≡ (
      pack ((t + d) % 2 ^ 32) (left (refill tokens d rate burst)),
      granted (refill tokens d rate burst),
    )
unfolding attempt filled_at
attempt_later t d tokens rate burst h k =
    rw (unpack-pack (t % 2 ^ 32) tokens (omega arith) h)
      (rw (elapsed_later t d k) (take_token_lem _ _))

pub refill-le : (tokens d rate burst : ℕ) → refill tokens d rate burst ≤ burst
unfolding refill
refill-le tokens d rate burst = omega arith

pub refill-le-add : (tokens d rate burst : ℕ) → refill tokens d rate burst ≤ tokens + d * rate
unfolding refill
refill-le-add tokens d rate burst = omega arith

-- Accrual is never lost: two waits refill a bucket as one.
pub refill-add :
    (tokens d e rate burst : ℕ)
    → refill (refill tokens d rate burst) e rate burst ≡ refill tokens (d + e) rate burst
unfolding refill
refill-add tokens d e rate burst = omega arith

pub left-le : (filled : ℕ) → left filled ≤ filled
left-le filled = omega (arith, left-granted filled)
