-- ===== src/Method.antt =====
-- src/proxy/method.rs: what an HTTP method looks like on the wire.
pub mod Sniff
use portail.Prelude.{
  ℕ, zero, suc, ◌+◌, Bool, true, false, not, ◌&&◌, ◌||◌, Option, none, some, List, [], ◌∷◌, ltb,
  leb, ◌==◌, if◌then◌else◌, Bytes, bytes_eq, codes, length, all, any, is_upper, is_lower, upper,
  is_empty,
}

abbrev pub max_method_len : ℕ
max_method_len = 20

abbrev pub min_method_len : ℕ
min_method_len = 3

abbrev pub is_method_byte : ℕ → Bool
is_method_byte b = is_upper b || b == b'-'

-- The loop of `method_len` from the byte at `i` on, over at most so many bytes.
unfoldable pub method_len_from : ℕ → ℕ → Bytes → Option ℕ
method_len_from zero i bs = none
method_len_from (suc n) i [] = none
method_len_from (suc n) i (b ∷ bs) =
    let rest = method_len_from n (i + 1) bs in
    if b == b' '
    then if leb min_method_len i then some i else none
    else if not (is_method_byte b)
    then none
    else rest

unfoldable pub method_len : Bytes → Option ℕ
unfolding method_len_from
method_len [] = none
method_len (b ∷ bs) = if not (is_upper b) then none else method_len_from max_method_len 1 bs

unfoldable pub is_idempotent : Bytes → Bool
is_idempotent method = any (bytes_eq method) (
    codes "GET"
    ∷ codes "HEAD"
    ∷ codes "OPTIONS"
    ∷ codes "TRACE"
    ∷ codes "PUT"
    ∷ codes "DELETE"
    ∷ [])

-- `bytes[0].is_ascii_alphabetic()`, read only once the length is in bounds.
abbrev starts_alphabetic : Bytes → Bool
starts_alphabetic [] = false
starts_alphabetic (b ∷ bs) = is_upper b || is_lower b

unfoldable pub is_valid_method : Bytes → Bool
is_valid_method method =
    leb min_method_len (length method)
    && leb (length method) max_method_len
    && starts_alphabetic method
    && all (λ b. is_method_byte (upper b)) method
