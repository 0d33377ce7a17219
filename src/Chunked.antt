-- ===== src/Chunked.antt =====
-- src/proxy/chunked.rs: the observer of a chunked body. A `u8` or `u64` is a number in its range; `bytes[i..]` is the
-- list of the bytes left, and `i` is counted beside it.
pub mod Bytewise
pub mod Split
use portail.Prelude.{
  ℕ, zero, suc, ◌+◌, ◌-◌, ◌*◌, ◌/◌, ◌%◌, ◌^◌, min, Bool, true, false, not, ◌&&◌, ◌||◌, Option, none,
  some, List, [], ◌∷◌, ◌++◌, leb, ◌==◌, if◌then◌else◌, Bytes, is_digit, length, take, drop,
}
use portail.HttpParser.Class.{is_field_value_byte}

-- `in_data` is `Data`, a word of the language. The record `ChunkedStream` holds a phase and nothing else.
pub data Phase : Type 0 where
  size : ℕ → Bool → Phase
  size_ext : ℕ → Phase
  size_crlf : ℕ → Phase
  in_data : ℕ → Phase
  data_crlf : Bool → Phase
  trailer_line_start : Phase
  trailer_line : Bool → Phase
  trailer_cr : Bool → Phase
  done : Phase
  broken : Phase

abbrev pub new : Phase
new = size 0 false

unfoldable pub is_terminated : Phase → Bool
is_terminated done = true
is_terminated _ = false

unfoldable pub is_broken : Phase → Bool
is_broken broken = true
is_broken _ = false

-- `(hex << 4) | nibble` on 64 bits. The low four bits of the shifted word are zero, so `|` adds the nibble.
unfoldable pub shift_hex : ℕ → ℕ → Option ℕ
shift_hex hex nibble = if not (hex / 2 ^ 60 == 0) then none else some (hex * 16 % 2 ^ 64 + nibble)

-- What a digit of the size line makes of the phase.
unfoldable pub digit : Option ℕ → Phase
digit none = broken
digit (some h) = size h true

unfoldable pub step : Phase → ℕ → Phase
unfolding shift_hex digit is_field_value_byte
step (size hex has_digit) b =
    if is_digit b
    then digit (shift_hex hex (b - b'0'))
    else if leb b'a' b && leb b b'f'
    then digit (shift_hex hex (b - b'a' + 10))
    else if leb b'A' b && leb b b'F'
    then digit (shift_hex hex (b - b'A' + 10))
    else if b == b';' && has_digit
    then size_ext hex
    else if b == b'\r' && has_digit
    then size_crlf hex
    else broken
step (size_ext n) b =
    if b == b'\r' then size_crlf n else if is_field_value_byte b then size_ext n else broken
step (size_crlf n) b =
    if b == b'\n' && n == 0 then trailer_line_start else if b == b'\n' then in_data n else broken
step (in_data remaining) b = broken
step (data_crlf saw_cr) b =
    if not saw_cr && b == b'\r'
    then data_crlf true
    else if saw_cr && b == b'\n'
    then size 0 false
    else broken
step trailer_line_start b =
    if b == b'\r'
    then trailer_cr true
    else if b == b' ' || b == b'\t' || b == b':'
    then broken
    else if not (is_field_value_byte b)
    then broken
    else trailer_line false
step (trailer_line saw_colon) b =
    if b == b'\r' && saw_colon
    then trailer_cr false
    else if b == b':'
    then trailer_line true
    else if b == b'\t'
    then trailer_line saw_colon
    else if not (is_field_value_byte b)
    then broken
    else trailer_line saw_colon
step (trailer_cr blank) b =
    if b == b'\n' && blank then done else if b == b'\n' then trailer_line_start else broken
step done b = broken
step broken b = broken

-- The phase after a run of chunk data, with `remaining` bytes of the chunk still to come.
unfoldable pub after_data : ℕ → Phase
after_data remaining = if remaining == 0 then data_crlf false else in_data remaining

-- The loop of `advance`, on fuel: the phase, the count `i`, the bytes from `i` on, and the payload handed to
-- `on_data` so far. `none`: the fuel ran out.
unfoldable pub advance : ℕ → Phase → ℕ → Bytes → Bytes → Option (Phase × ℕ × Bytes)
unfolding after_data is_broken
advance zero p i bytes out = none
advance (suc f) p i [] out = some (p, i, out)
advance (suc f) done i (b ∷ bs) out = some (done, i, out)
advance (suc f) broken i (b ∷ bs) out = some (broken, 0, out)
advance (suc f) (in_data remaining) i (b ∷ bs) out =
    let n = min remaining (length (b ∷ bs)) in
    advance f (after_data (remaining - n)) (i + n) (drop n (b ∷ bs)) (out ++ take n (b ∷ bs))
advance (suc f) p i (b ∷ bs) out =
    let q = step p b in
    let rest = advance f q (i + 1) bs out in if is_broken q then some (broken, i, out) else rest

-- Each round takes a byte, but for the one that leaves a chunk with nothing remaining.
abbrev pub rounds : Bytes → ℕ
rounds bytes = suc (length bytes)

-- `decode_into`: the phase after, the count of bytes consumed, and `out` with the payload appended.
unfoldable pub decode_into : Phase → Bytes → Bytes → Option (Phase × ℕ × Bytes)
decode_into p bytes out = advance (rounds bytes) p 0 bytes out

-- `observe`: the same with a closure that drops the payload.
unfoldable pub observe : Phase → Bytes → Option (Phase × ℕ)
observe p bytes = elim (advance (rounds bytes) p 0 bytes []) [
  | none ↦ none
  | some (q, n, _) ↦ some (q, n)
]
