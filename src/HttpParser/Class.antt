-- ===== src/HttpParser/Class.antt =====
-- src/proxy/http_parser.rs: the byte classes of the request-head grammar. A byte is a number below 256. The source
-- computes each class once into the bits of a table; here a class is the test that fills its bit.
use portail.Prelude.{ℕ, ◌||◌, ◌&&◌, not, Bool, [], ◌∷◌, leb, ltb, ◌==◌, Bytes, codes, is_alnum, any}

pub data Class : Type 0 where
  tchar value target host : Class

-- The helper of the table's initializer.
abbrev any_of : ℕ → Bytes → Bool
any_of b set = any (λ c. c == b) set

abbrev pub value_holes : Bytes
value_holes = 0x7f ∷ []

abbrev pub target_holes : Bytes
target_holes = 0x7f ∷ b'#' ∷ b'\\' ∷ []

unfoldable pub is : ℕ → Class → Bool
is b tchar = is_alnum b || any_of b (codes "!#$%&'*+-.^_`|~")
is b value = b == b'\t' || (leb 0x20 b && not (any_of b value_holes))
is b target = ltb 0x20 b && not (any_of b target_holes)
is b host = is_alnum b || any_of b (codes "-._")

unfoldable pub is_field_value_byte : ℕ → Bool
unfolding is
is_field_value_byte b = is b value

unfoldable pub is_target_byte : ℕ → Bool
unfolding is
is_target_byte b = is b target

unfoldable pub is_tchar : ℕ → Bool
unfolding is
is_tchar b = is b tchar
