-- ===== src/Prelude/Strings.antt =====
-- Byte strings: `&[u8]`, and `&str` by its UTF-8 bytes.
use Prim.Native.Char.{code}
use Prim.Native.String.{String}
use Prim.Native.Nat.{ℕ, ◌+◌, ◌-◌}
use mathlib.Core.Path.{◌≡◌, refl}
use mathlib.Core.Logic.{◌↔◌}
use mathlib.Core.Bool.{Bool, true, false, ◌&&◌, ◌||◌}
use mathlib.Core.List.{List, [], ◌∷◌, ◌++◌, map}
use mathlib.Core.Option.{Option, none, some}
use native.Mathlib.Omega.{arith}
use portail.Prelude.Compare.{leb, ◌==◌, if◌then◌else◌}

abbrev pub Bytes : Type 0
Bytes = List ℕ

-- The bytes of an ASCII literal.
abbrev pub codes : String → Bytes
codes String.[] = []
codes (String.◌∷◌ c s) = code c ∷ codes s

unfoldable pub bytes_eq : Bytes → Bytes → Bool
bytes_eq [] [] = true
bytes_eq [] (y ∷ ys) = false
bytes_eq (x ∷ xs) [] = false
bytes_eq (x ∷ xs) (y ∷ ys) = x == y && bytes_eq xs ys

eq_of-bytes_eq : (s t : Bytes) → bytes_eq s t ≡ true → s ≡ t
unfolding bytes_eq
eq_of-bytes_eq [] [] h = refl
eq_of-bytes_eq [] (y ∷ ys) h = cc
eq_of-bytes_eq (x ∷ xs) [] h = cc
eq_of-bytes_eq (x ∷ xs) (y ∷ ys) h = ground (arith, eq_of-bytes_eq xs ys)

pub bytes_eq_refl : (s : Bytes) → bytes_eq s s ≡ true
unfolding bytes_eq
bytes_eq_refl [] = refl
bytes_eq_refl (x ∷ xs) = ground (arith, bytes_eq_refl xs)

pub bytes_eq_iff : (s t : Bytes) → (bytes_eq s t ≡ true) ↔ (s ≡ t)
bytes_eq_iff s t = (eq_of-bytes_eq s t, λ e. rw e (bytes_eq_refl t))

-- `u8::is_ascii_uppercase`, `is_ascii_lowercase`, `is_ascii_digit`, `is_ascii_alphabetic`, `is_ascii_alphanumeric`,
-- `is_ascii_hexdigit`, `to_ascii_lowercase`, `to_ascii_uppercase`.
abbrev pub is_upper : ℕ → Bool
is_upper b = leb b'A' b && leb b b'Z'

abbrev pub is_lower : ℕ → Bool
is_lower b = leb b'a' b && leb b b'z'

abbrev pub is_digit : ℕ → Bool
is_digit b = leb b'0' b && leb b b'9'

abbrev pub is_alpha : ℕ → Bool
is_alpha b = is_upper b || is_lower b

abbrev pub is_alnum : ℕ → Bool
is_alnum b = is_alpha b || is_digit b

abbrev pub is_hex : ℕ → Bool
is_hex b = is_digit b || (leb b'A' b && leb b b'F') || (leb b'a' b && leb b b'f')

abbrev pub lower : ℕ → ℕ
lower b = if is_upper b then b + 32 else b

abbrev pub upper : ℕ → ℕ
upper b = if is_lower b then b - 32 else b

abbrev pub to_lower : Bytes → Bytes
to_lower = map lower

-- `eq_ignore_ascii_case`.
unfoldable pub eq_ignore_case : Bytes → Bytes → Bool
eq_ignore_case s t = bytes_eq (to_lower s) (to_lower t)

-- `s.strip_prefix(p)` and `s.starts_with(p)`.
unfoldable pub strip_prefix : Bytes → Bytes → Option Bytes
strip_prefix [] s = some s
strip_prefix (c ∷ p) [] = none
strip_prefix (c ∷ p) (d ∷ s) = if c == d then strip_prefix p s else none

pub strip_prefix-eq-some : (p s r : Bytes) → strip_prefix p s ≡ some r → s ≡ p ++ r
unfolding strip_prefix
strip_prefix-eq-some [] s r h = ground arith
strip_prefix-eq-some (c ∷ p) [] r h = cc
strip_prefix-eq-some (c ∷ p) (d ∷ s) r h = ground (arith, strip_prefix-eq-some p s r)

pub strip_prefix-append : (p r : Bytes) → strip_prefix p (p ++ r) ≡ some r
unfolding strip_prefix
strip_prefix-append [] r = refl
strip_prefix-append (c ∷ p) r = ground (arith, strip_prefix-append p r)
