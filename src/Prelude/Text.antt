-- ===== src/Prelude/Text.antt =====
-- `str::from_utf8`, splits and trims.
use mathlib.Core.Bool.{Bool, false, ◌&&◌, ◌||◌}
use mathlib.Core.List.{List, [], ◌∷◌}
use mathlib.Core.Option.{Option, none, some}
use Prim.Native.Nat.{ℕ, zero, suc}
use portail.Prelude.Compare.{leb, ltb, ◌==◌, if◌then◌else◌}
use portail.Prelude.Lists.{is_empty}
use portail.Prelude.Strings.{Bytes}

-- The continuation bytes to come, and the range of the next one.
pub record Pending : Type 0 where
  pub count : ℕ
  pub low : ℕ
  pub high : ℕ

abbrev pending : ℕ → ℕ → ℕ → Option Pending
pending n lo hi = some (record { count = n; low = lo; high = hi })

-- The sequences of RFC 3629, by their lead byte.
lead : ℕ → Option Pending
lead b =
    if ltb b 0x80
    then pending 0 0 0
    else if leb 0xc2 b && leb b 0xdf
    then pending 1 0x80 0xbf
    else if b == 0xe0
    then pending 2 0xa0 0xbf
    else if b == 0xed
    then pending 2 0x80 0x9f
    else if leb 0xe1 b && leb b 0xef
    then pending 2 0x80 0xbf
    else if b == 0xf0
    then pending 3 0x90 0xbf
    else if leb 0xf1 b && leb b 0xf3
    then pending 3 0x80 0xbf
    else if b == 0xf4
    then pending 3 0x80 0x8f
    else none

utf8_step : ℕ → Pending → ℕ → Option Pending
unfolding lead
utf8_step zero p b = lead b
utf8_step (suc n) p b = if leb p.low b && leb b p.high then pending n 0x80 0xbf else none

utf8_from : Pending → Bytes → Bool
unfolding utf8_step
utf8_from p [] = p.count == 0
utf8_from p (b ∷ bs) = elim (utf8_step p.count p b) [ none ↦ false | some q ↦ utf8_from q bs ]

unfoldable pub is_utf8 : Bytes → Bool
unfolding utf8_from
is_utf8 = utf8_from (record { count = 0; low = 0; high = 0 })

-- `str::from_utf8(v).ok()`.
unfoldable pub from_utf8 : Bytes → Option Bytes
unfolding is_utf8
from_utf8 v = if is_utf8 v then some v else none

abbrev pub is_ows : ℕ → Bool
is_ows b = b == b' ' || b == b'\t'

trim_start : Bytes → Bytes
trim_start [] = []
trim_start (b ∷ bs) = if is_ows b then trim_start bs else b ∷ bs

trim_end : Bytes → Bytes
trim_end [] = []
trim_end (b ∷ bs) = let r = trim_end bs in if is_empty r && is_ows b then [] else b ∷ r

-- Without the spaces and tabs at both ends.
unfoldable pub trim : Bytes → Bytes
unfolding trim_start trim_end
trim v = trim_end (trim_start v)

unfoldable pub prepend : ℕ → List Bytes → List Bytes
prepend b [] = (b ∷ []) ∷ []
prepend b (s ∷ ss) = (b ∷ s) ∷ ss

-- `v.split(c)`: at least one part, the separators left out.
unfoldable pub split : ℕ → Bytes → List Bytes
unfolding prepend
split c [] = [] ∷ []
split c (b ∷ bs) = let rest = split c bs in if b == c then [] ∷ rest else prepend b rest

-- `value.split_once(c)`.
unfoldable pub split_once : ℕ → Bytes → Option (Bytes × Bytes)
split_once c [] = none
split_once c (b ∷ bs) =
    if b == c
    then some ([], bs)
    else elim (split_once c bs) [ none ↦ none | some (l, r) ↦ some (b ∷ l, r) ]
