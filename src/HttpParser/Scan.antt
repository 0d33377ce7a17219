-- ===== src/HttpParser/Scan.antt =====
-- The scans of src/proxy/http_parser.rs. An index into the data becomes the bytes from it on, and a scan's result the
-- number of bytes that it passes.
pub mod Runs
use portail.Prelude.{
  ℕ, zero, suc, ◌+◌, ◌*◌, ◌-◌, ◌%◌, ◌^◌, ◌<◌, ◌≡◌, Bool, true, false, ◌&&◌, ◌||◌, not, Option, none,
  some, List, [], ◌∷◌, ◌++◌, ltb, leb, ◌==◌, if◌then◌else◌, ◌>>=◌, Bytes, codes, bytes_eq, is_hex,
  is_digit, eq_ignore_case, strip_prefix, is_some, is_empty, any, all, length, take, drop, trim,
  split, split_once, get_elem?,
}
use portail.HttpParser.Word.{from_ne_bytes, stop_bits}
use portail.HttpParser.Class.{Class, tchar, value, target, host, is, value_holes, target_holes}

-- `find_header_end`: the search for a CR goes byte by byte. `pos` bytes stand before these.
unfoldable pub find_header_end_from : ℕ → Bytes → Option ℕ
find_header_end_from pos [] = none
find_header_end_from pos (b ∷ bs) =
    let rest = find_header_end_from (pos + 1) bs in
    if is_some (strip_prefix (codes "\r\n\r\n") (b ∷ bs)) then some (pos + 4) else rest

unfoldable pub find_header_end : Bytes → Option ℕ
find_header_end = find_header_end_from 0

unfoldable pub ends_with_blank_line : Bytes → Bool
ends_with_blank_line [] = false
ends_with_blank_line (b ∷ bs) = bytes_eq (b ∷ bs) (codes "\r\n\r\n") || ends_with_blank_line bs

unfoldable pub has_header_end : Bytes → Bool
has_header_end bytes = ends_with_blank_line bytes || is_some (find_header_end bytes)

-- The bytes of a class at the front, counted.
unfoldable pub run : Class → Bytes → ℕ
run c [] = 0
run c (b ∷ bs) = let rest = 1 + run c bs in if is b c then rest else 0

-- `scan`: words of eight bytes that leave no stop bit are passed whole, and the bytes from the first other word on are
-- looked up. At most `words` words are passed so.
unfoldable pub scan_words : ℕ → Class → ℕ → Bytes → Bytes → ℕ
scan_words zero c floor holes v = run c v
scan_words (suc words) c floor holes v =
    let word = take 8 v in
    let rest = 8 + scan_words words c floor holes (drop 8 v) in
    if length word == 8 && stop_bits floor holes (from_ne_bytes word) == 0 then rest else run c v

unfoldable pub scan : Class → ℕ → Bytes → Bytes → ℕ
scan c floor holes v = scan_words (length v) c floor holes v

unfoldable pub field_value_end : Bytes → ℕ
field_value_end = scan value 0x20 value_holes

unfoldable pub target_end : Bytes → ℕ
target_end = scan target 0x21 target_holes

-- `past_query_backslashes`, on the bytes from the target's start on, with a unit of fuel for each byte.
unfoldable pub past_backslashes : ℕ → Bytes → ℕ
past_backslashes zero v = 0
past_backslashes (suc f) [] = 0
past_backslashes (suc f) (b ∷ bs) =
    let n = target_end bs in
    let rest = 1 + n + past_backslashes f (drop n bs) in if b == b'\\' then rest else 0

unfoldable pub past_query_backslashes : Bytes → ℕ → ℕ
past_query_backslashes v end =
    if any (λ b. b == b'?') (take end v)
    then end + past_backslashes (length v) (drop end v)
    else end

-- `is_token`.
unfoldable pub is_token : Bytes → Bool
is_token s = not (is_empty s) && all (λ b. is b tchar) s

-- `is_forwarding_claim`; its dispatch on the length and the first letter only spares comparisons.
unfoldable pub is_forwarding_claim : Bytes → Bool
is_forwarding_claim name =
    eq_ignore_case name (codes "forwarded")
    || eq_ignore_case name (codes "x-forwarded-ssl")
    || eq_ignore_case name (codes "x-forwarded-host")
    || eq_ignore_case name (codes "x-forwarded-port")
    || eq_ignore_case name (codes "x-forwarded-proto")
    || eq_ignore_case name (codes "x-forwarded-scheme")

unfoldable pub run_of : (ℕ → Bool) → Bytes → ℕ
run_of p [] = 0
run_of p (b ∷ bs) = let rest = 1 + run_of p bs in if p b then rest else 0

-- A bracketed address, behind its opening bracket.
unfoldable pub bracketed : ℕ → Bytes → Option ℕ
bracketed n bs = if n == 0 then none else strip_prefix (codes "]") (drop n bs) >>= λ _. some (n + 2)

-- The host that opens `v`, with the bytes behind it.
unfoldable pub host_length : Bytes → Option ℕ
host_length [] = some 0
host_length (b ∷ bs) =
    if b == b'['
    then bracketed (run_of (λ c. is_hex c || c == b':' || c == b'.') bs) bs
    else some (run host (b ∷ bs))

-- Nothing, or a port behind its colon.
unfoldable pub is_port_suffix : Bytes → Bool
is_port_suffix [] = true
is_port_suffix (b ∷ bs) = b == b':' && all is_digit bs

unfoldable pub split_host : Bytes → Option ℕ
split_host v = host_length v >>= λ n. if is_port_suffix (drop n v) then some n else none

-- `checked_mul` and `checked_add` on a `usize` of 64 bits.
abbrev pub checked : ℕ → Option ℕ
checked n = if ltb n (2 ^ 64) then some n else none

unfoldable pub digits_from : ℕ → Bytes → Option ℕ
digits_from n [] = some n
digits_from n (b ∷ bs) =
    let rest = digits_from (n * 10 + (b - b'0')) bs in
    if not (is_digit b)
    then none
    else checked (n * 10) >>= λ m. checked (m + (b - b'0')) >>= λ _. rest

unfoldable pub parse_digits : Bytes → Option ℕ
parse_digits [] = none
parse_digits (b ∷ bs) = digits_from 0 (b ∷ bs)

unfoldable pub absolute_scheme_len : Bytes → Option ℕ
absolute_scheme_len v =
    if eq_ignore_case (take 7 v) (codes "http://")
    then some 7
    else if eq_ignore_case (take 8 v) (codes "https://")
    then some 8
    else none

-- The bytes up to the first `c`, or all.
abbrev pub before : ℕ → Bytes → Bytes
before c v = elim (split_once c v) [ none ↦ v | some (l, _) ↦ l ]

unfoldable pub offers_h2c : Bytes → Bool
offers_h2c v =
    any (λ offer. eq_ignore_case (trim (before b'/' (trim offer))) (codes "h2c")) (split b',' v)
