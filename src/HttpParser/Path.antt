-- ===== src/HttpParser/Path.antt =====
-- The path that a request is routed and forwarded by: `normalize_path` of src/proxy/http_parser.rs.
pub mod Clean
pub mod Rewrite
use portail.Prelude.{
  ℕ, zero, suc, ◌+◌, Bool, true, false, ◌&&◌, ◌||◌, any, Option, none, some, List, [], ◌∷◌, ◌++◌,
  ltb, ◌==◌, if◌then◌else◌, Bytes, codes, is_empty, is_some, strip_prefix, split,
}

pub data Dots : Type 0 where
  segment : ℕ → Dots
  with_params : Dots

-- `2e` or `2E`, behind a percent sign.
abbrev pub escaped_dot : Bytes → Option Bytes
escaped_dot [] = none
escaped_dot (_ ∷ []) = none
escaped_dot (x ∷ y ∷ bs) = if x == b'2' && (y == b'e' || y == b'E') then some bs else none

-- A dot in front, as it stands or escaped, and what is behind it.
unfoldable pub strip_dot : Bytes → Option Bytes
strip_dot [] = none
strip_dot (b ∷ bs) = if b == b'.' then some bs else if b == b'%' then escaped_dot bs else none

-- What stands behind the dots: the segment's end, its parameters, or neither.
unfoldable pub after_dots : ℕ → Bytes → Option Dots
after_dots zero v = none
after_dots (suc dots) [] = some (segment (suc dots))
after_dots (suc dots) (b ∷ bs) =
    if b == b'/' then some (segment (suc dots)) else if b == b';' then some with_params else none

-- `dot_segment` after `dots` dots, with `rounds` rounds of its loop left.
unfoldable pub dots_from : (rounds dots : ℕ) → Bytes → Option Dots
dots_from zero dots v = none
dots_from (suc rounds) dots v = elim (strip_dot v) [
  | some rest ↦ dots_from rounds (suc dots) rest
  | none ↦ after_dots dots v
]

unfoldable pub dot_segment : Bytes → Option Dots
dot_segment = dots_from 3 0

abbrev pub or_next : Option Dots → Option Dots → Option Dots
or_next (some d) rest = some d
or_next none rest = rest

-- The first dot-segment behind a slash; `slash` tells whether one stands right before.
unfoldable pub first_dots : (slash : Bool) → Bytes → Option Dots
first_dots slash [] = none
first_dots slash (b ∷ bs) =
    let rest = first_dots (b == b'/') bs in
    if slash && (b == b'.' || b == b'%') then or_next (dot_segment (b ∷ bs)) rest else rest

-- `out.truncate(out.rfind('/').unwrap_or(0))`.
unfoldable pub before_last_slash : Bytes → Bytes
before_last_slash [] = []
before_last_slash (b ∷ bs) =
    let rest = before_last_slash bs in if any (λ c. c == b'/') bs then b ∷ rest else []

-- The path rewritten so far, before a segment without parameters: `rest` are the segments behind it.
unfoldable pub take_segment : Bytes → Option Dots → (s : Bytes) → (rest : List Bytes) → Bytes
take_segment out none s rest = out ++ b'/' ∷ s
take_segment out (some with_params) s rest = out
take_segment out (some (segment n)) s rest =
    let kept = if n == 1 then out else before_last_slash out in
    if is_empty rest then kept ++ b'/' ∷ [] else kept

abbrev pub is_with_params : Option Dots → Bool
is_with_params none = false
is_with_params (some (segment _)) = false
is_with_params (some with_params) = true

-- The loop of `remove_dot_segments` over the segments left.
unfoldable pub remove_from : Bytes → List Bytes → Option Bytes
remove_from out [] = some out
remove_from out (s ∷ rest) =
    let more = remove_from (take_segment out (dot_segment s) s rest) rest in
    if is_with_params (dot_segment s) then none else more

-- On the path behind its first slash.
unfoldable pub remove_dot_segments : Bytes → Option Bytes
remove_dot_segments v = remove_from [] (split b'/' v)

abbrev pub rewritten : Option Dots → Bytes → Option Bytes
rewritten none v = some (b'/' ∷ v)
rewritten (some (segment _)) v = remove_dot_segments v
rewritten (some with_params) v = none

unfoldable pub normalize_path : Bytes → Option Bytes
normalize_path [] = some []
normalize_path (b ∷ bs) = if b == b'/' then rewritten (first_dots true bs) bs else some (b ∷ bs)
