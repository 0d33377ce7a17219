-- ===== src/RateLimit.antt =====
-- src/rate_limit.rs: per-client token buckets. A `u32`, `u64` or `u128` is a number in its range.
pub mod Bucket
pub mod Rate
pub mod Sweep
use portail.Prelude.{
  ℕ, ◌+◌, ◌-◌, ◌*◌, ◌/◌, ◌%◌, ◌^◌, min, Bool, true, false, not, ◌&&◌, Option, none, some, List, [],
  ◌∷◌, ltb, leb, nat_eq, pair_eq, bytes_key, Bytes, get_or_else, if◌then◌else◌,
}
use portail.Net.{IpAddr, v4, v6, to_canonical}
use portail.Prelude.Map.{Map, get, insert, retain, IsUnique}

abbrev pub millitokens_per_request : ℕ
millitokens_per_request = 1000

abbrev pub max_burst : ℕ
max_burst = (2 ^ 32 - 1) / millitokens_per_request

abbrev pub backwards_ms : ℕ
backwards_ms = 2 ^ 31

abbrev pub stale_ms : ℕ
stale_ms = 2 ^ 30

-- A packed bucket is the value of its `AtomicU64`. The epoch is the clock's, and enters by `now_ms`.
pub record Limiter : Type 0 where
  pub rate : ℕ
  pub burst_mt : ℕ
  pub buckets : Map ℕ ℕ

abbrev saturating_mul32 : ℕ → ℕ → ℕ
saturating_mul32 a b = min (a * b) (2 ^ 32 - 1)

unfoldable pub new : ℕ → ℕ → Limiter
new rps burst = record {
  rate = rps;
  burst_mt = saturating_mul32 burst millitokens_per_request;
  buckets = [];
}

unfoldable pub reconfigure : Limiter → ℕ → ℕ → Limiter
reconfigure l rps burst = record l {
  rate = rps;
  burst_mt = saturating_mul32 burst millitokens_per_request;
}

-- `(now_ms << 32) | tokens`, where the shifted word has zeros below.
unfoldable pub pack : ℕ → ℕ → ℕ
pack now_ms tokens = now_ms * 2 ^ 32 + tokens

unfoldable pub unpack : ℕ → ℕ × ℕ
unpack state = (state / 2 ^ 32 % 2 ^ 32, state % 2 ^ 32)

-- `now.wrapping_sub(last)`, unless that is a wrapped negative.
unfoldable pub elapsed : ℕ → ℕ → Option ℕ
elapsed now last =
    let dt = (now + 2 ^ 32 - last) % 2 ^ 32 in if ltb dt backwards_ms then some dt else none

unfoldable pub refill : ℕ → ℕ → ℕ → ℕ → ℕ
refill tokens dt_ms rate burst = min (tokens + dt_ms * rate) burst

-- The stamp and the tokens that a request finds at `now_ms`.
unfoldable pub filled_at : Option ℕ → ℕ → ℕ × ℕ → ℕ → ℕ → ℕ × ℕ
filled_at (some dt) now_ms (last, tokens) rate burst = (now_ms, refill tokens dt rate burst)
filled_at none now_ms (last, tokens) rate burst = (last, tokens)

-- `if filled >= MILLITOKENS_PER_REQUEST`: the next bucket and whether the request passes.
unfoldable pub take_token : ℕ × ℕ → ℕ × Bool
take_token (stamp, filled) =
    if leb millitokens_per_request filled
    then (pack stamp (filled - millitokens_per_request), true)
    else (pack stamp filled, false)

-- One round of `consume` on the value `cur` that it read.
unfoldable pub attempt : ℕ → ℕ → ℕ → ℕ → ℕ × Bool
attempt cur now_ms rate burst =
    let (last, tokens) = unpack cur in
    take_token (filled_at (elapsed now_ms last) now_ms (last, tokens) rate burst)

-- `consume`: `observed` are the values that the failed exchanges returned, in order. The exchange that succeeds found
-- the value that the last round read: the cell's new value, and the answer.
unfoldable pub consume : ℕ → List ℕ → ℕ → ℕ → ℕ → ℕ × Bool
consume cur [] now_ms rate burst = attempt cur now_ms rate burst
consume cur (seen ∷ observed) now_ms rate burst = consume seen observed now_ms rate burst

-- The `Vacant` arm: the first sighting starts from a full bucket.
unfoldable pub first_sighting : ℕ → ℕ → ℕ × Bool
first_sighting now_ms burst =
    let granted = leb millitokens_per_request burst in
    let tokens = if granted then burst - millitokens_per_request else burst in
    (pack now_ms tokens, granted)

-- The bucket of a client after `check_at`, and the answer. `none`: the client has no bucket.
unfoldable pub check_bucket : Option ℕ → ℕ → ℕ → ℕ → ℕ × Bool
check_bucket (some cell) now_ms rate burst = consume cell [] now_ms rate burst
check_bucket none now_ms rate burst = first_sighting now_ms burst

-- `check_at`, with no other request on the same bucket in between.
unfoldable pub check_at : Limiter → ℕ → ℕ → Limiter × Bool
check_at l key now_ms =
    let (cell, granted) = check_bucket (get key l.buckets) now_ms l.rate l.burst_mt in
    (record l { buckets = insert key cell l.buckets }, granted)

-- Whether a bucket idle for so long stays; touched after `now` was read, it is live whatever it holds.
unfoldable pub live : Option ℕ → ℕ → ℕ → ℕ → Bool
live none tokens rate burst = true
live (some dt) tokens rate burst = ltb dt stale_ms && ltb (refill tokens dt rate burst) burst

-- The closure of `sweep_at`: whether a bucket stays.
unfoldable pub survives : ℕ → ℕ → ℕ → ℕ → Bool
survives now rate burst cell =
    let (last, tokens) = unpack cell in live (elapsed now last) tokens rate burst

unfoldable pub sweep_at : Limiter → ℕ → Limiter
unfolding retain
sweep_at l now = record l {
  buckets = retain (λ k cell. survives now l.rate l.burst_mt cell) l.buckets;
}

abbrev key_of : IpAddr → ℕ
key_of (v4 a) = a
key_of (v6 a) = a - a % 2 ^ 64

-- `v6 & !0 << 64` clears the low half.
unfoldable pub client_key : IpAddr → ℕ
client_key peer = key_of (to_canonical peer)

-- The registry of `limiter_for`, by published port and listener name. A limiter is shared by reference there: the
-- registry's entry is its one state.
abbrev pub Registry : Type 0
Registry = Map (ℕ × Bytes) Limiter

unfoldable pub limiter_for : Registry → ℕ → Bytes → ℕ → ℕ → Registry
unfolding reconfigure
limiter_for reg port listener rps burst =
    let limiter = get_or_else (get (port, listener) reg) (new rps burst) in
    insert (port, listener) (reconfigure limiter rps burst) reg

-- One tick of the sweeper: every limiter is swept, and those that no table references go. `count` is
-- `Arc::strong_count`, the registry's own reference included.
unfoldable pub sweep_all : ((ℕ × Bytes) → ℕ) → ℕ → Registry → Registry
sweep_all count now [] = []
sweep_all count now (b ∷ reg) =
    let rest = sweep_all count now reg in
    if ltb 1 (count b.0) then (b.0, sweep_at b.1 now) ∷ rest else rest
