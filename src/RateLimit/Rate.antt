-- ===== src/RateLimit/Rate.antt =====
-- src/rate_limit.rs: what a client can get over any run of requests.
use portail.Prelude.{
  ℕ, ◌+◌, ◌*◌, ◌%◌, ◌^◌, ◌≤◌, ◌<◌, Option, none, some, List, [], ◌∷◌, arith, if◌then◌else◌, All,
}
use portail.RateLimit.{pack, refill, consume, check_bucket, millitokens_per_request, backwards_ms}
use portail.RateLimit.Bucket.{
  left, left-granted, attempt_later, refill-le, refill-le-add, left-le, first_sighting_lem,
}

-- A client's requests, each some milliseconds after the one before, by a clock that has wrapped or not: how many pass.
-- The bucket is the one that the request before left.
pub passed : Option ℕ → ℕ → List ℕ → ℕ → ℕ → ℕ
passed cell t [] rate burst = 0
passed cell t (d ∷ ds) rate burst =
    let (next, ok) = check_bucket cell ((t + d) % 2 ^ 32) rate burst in
    (if ok then 1 else 0) + passed (some next) (t + d) ds rate burst

pub sum : List ℕ → ℕ
sum [] = 0
sum (d ∷ ds) = d + sum ds

passed_bucket :
    (t tokens : ℕ) (ds : List ℕ) (rate burst : ℕ)
    → tokens ≤ burst
    → burst < 2 ^ 32
    → All (λ d. d < backwards_ms) ds
    → millitokens_per_request * passed (some (pack (t % 2 ^ 32) tokens)) t ds rate burst
      ≤ tokens + sum ds * rate
unfolding passed sum check_bucket consume
passed_bucket t tokens [] rate burst h k near = omega arith
passed_bucket t tokens (d ∷ ds) rate burst h k near =
    let f = refill tokens d rate burst in
    rw (attempt_later t d tokens rate burst (omega arith) near.0) (
      ground (
        arith,
        passed_bucket (t + d) (left f) ds rate burst,
        left-granted f,
        left-le f,
        refill-le tokens d rate burst,
        refill-le-add tokens d rate burst,
      ))

-- With a burst below 2 ^ 32, a client without a bucket, whose first request comes at `t` and whose later ones follow at
-- gaps below 2 ^ 31 ms, is granted at most the burst and what the rate adds over the time from the first request to the
-- last one.
pub passed-le :
    (t : ℕ) (ds : List ℕ) (rate burst : ℕ)
    → burst < 2 ^ 32
    → All (λ d. d < backwards_ms) ds
    → millitokens_per_request * passed none t (0 ∷ ds) rate burst ≤ burst + sum ds * rate
unfolding passed check_bucket
passed-le t ds rate burst k near = rw (first_sighting_lem ((t + 0) % 2 ^ 32) burst) (
    ground
      (arith, passed_bucket (t + 0) (left burst) ds rate burst, left-granted burst, left-le burst))
