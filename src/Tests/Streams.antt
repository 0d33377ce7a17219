-- ===== src/Tests/Streams.antt =====
-- The chunked observer and the rate limiter on concrete inputs.
use portail.Prelude.{
  ◌+◌, ◌*◌, ◌%◌, ◌^◌, ◌≤◌, true, none, some, [], ◌∷◌, ◌++◌, ◌≡◌, refl, arith, Bytes, codes, nat_eq,
}
use portail.Prelude.Map.{get}
use portail.Chunked.{in_data, done, new, decode_into, advance, step}
use portail.Chunked.Bytewise.{scan, decode_into-scan}
use portail.Chunked.Split.{decode_reads, decode_into-append}
use portail.RateLimit.{
  Limiter, pack, check_at, sweep_at, check_bucket, first_sighting, millitokens_per_request,
}
use portail.RateLimit.Rate.{passed, sum, passed-le}
use portail.RateLimit.Sweep.{check_at-sweep_at}

-- A chunk of two bytes, the end chunk, and a byte of the next message.
abbrev body : Bytes
body = codes "2\r\nhi\r\n0\r\n\r\nG"

body_test : decode_into new body [] ≡ some (done, 12, codes "hi")
unfolding decode_into advance step
body_test = refl

abbrev rest : Bytes
rest = codes "i\r\n0\r\n\r\nG"

decode_into-scan_example :
    decode_into (in_data 2) (codes "hi\r\n0\r\n\r\nG") (codes "oh ")
    ≡ some (
      (scan (in_data 2) (codes "hi\r\n0\r\n\r\nG")).0,
      (scan (in_data 2) (codes "hi\r\n0\r\n\r\nG")).1,
      codes "oh " ++ (scan (in_data 2) (codes "hi\r\n0\r\n\r\nG")).2,
    )
decode_into-scan_example =
    decode_into-scan (in_data 2) (codes "hi\r\n0\r\n\r\nG") (codes "oh ") (omega arith)

decode_into-append_example :
    decode_into (in_data 2) (codes "h" ++ rest) [] ≡ decode_reads (in_data 2) (codes "h") rest []
decode_into-append_example = decode_into-append (in_data 2) (codes "h") rest [] (omega arith)

-- The first request of a client, at a burst of one.
first_test : check_bucket none 5000 1 1000 ≡ (pack 5000 0, true)
unfolding check_bucket first_sighting pack
first_test = refl

passed-le_example :
    millitokens_per_request * passed none 5000 (0 ∷ 0 ∷ 1000 ∷ []) 1 1000
    ≤ 1000 + sum (0 ∷ 1000 ∷ []) * 1
passed-le_example =
    passed-le 5000 (0 ∷ 1000 ∷ []) 1 1000 (omega arith) (omega arith, (omega arith, tt))

abbrev one_client : Limiter
one_client = record { rate = 1; burst_mt = 1000; buckets = (7, pack (5000 % 2 ^ 32) 0) ∷ [] }

check_at-sweep_at_example :
    ((check_at (sweep_at one_client ((5000 + 2000) % 2 ^ 32)) 7 ((5000 + 2000 + 10) % 2 ^ 32)).1
      ≡ (check_at one_client 7 ((5000 + 2000 + 10) % 2 ^ 32)).1)
    × (get 7
          (check_at
            (sweep_at one_client ((5000 + 2000) % 2 ^ 32))
            7
            ((5000 + 2000 + 10) % 2 ^ 32)).0.buckets
        ≡ get 7 (check_at one_client 7 ((5000 + 2000 + 10) % 2 ^ 32)).0.buckets)
unfolding get
check_at-sweep_at_example =
    check_at-sweep_at one_client 7 5000 0 2000 10 (refl, tt) (omega arith) (omega arith)
      (omega arith) refl
