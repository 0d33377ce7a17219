-- ===== src/HttpParser/Word.antt =====
-- The test that `scan` of src/proxy/http_parser.rs makes on eight bytes at once, on a `u64`.
pub mod Exact
use Prim.Native.Nat.{bit_and, bit_or, bit_xor}
use portail.Prelude.{ℕ, ◌+◌, ◌-◌, ◌*◌, ◌%◌, ◌^◌, List, [], ◌∷◌, Bytes}

-- `u64::from_ne_bytes` where the low byte comes first. A byte has eight bits.
unfoldable pub from_ne_bytes : Bytes → ℕ
from_ne_bytes [] = 0
from_ne_bytes (b ∷ bs) = b % 256 + 256 * from_ne_bytes bs

abbrev pub ones : ℕ
ones = 0x0101010101010101

abbrev pub highs : ℕ
highs = 0x8080808080808080

-- `u64::wrapping_sub`.
unfoldable pub wrapping_sub : (a b : ℕ) → ℕ
wrapping_sub a b = (a + (2 ^ 64 - b)) % 2 ^ 64

-- `!` of a `u64`.
abbrev pub complement : ℕ → ℕ
complement w = 2 ^ 64 - 1 - w

-- `x.wrapping_sub(ONES * floor) & !x & HIGHS`: the high bits of bytes below the floor.
unfoldable pub marked : (x floor : ℕ) → ℕ
unfolding wrapping_sub
marked x floor = bit_and (bit_and (wrapping_sub x (ones * floor)) (complement x)) highs

-- The loop over the holes.
unfoldable pub mark_holes : Bytes → (w stop : ℕ) → ℕ
unfolding marked
mark_holes [] w stop = stop
mark_holes (hole ∷ holes) w stop =
    mark_holes holes w (bit_or stop (marked (bit_xor w (ones * hole)) 1))

unfoldable pub stop_bits : (floor : ℕ) → Bytes → (w : ℕ) → ℕ
unfolding mark_holes marked
stop_bits floor holes w = mark_holes holes w (marked w floor)
