-- ===== src/Method/Sniff.antt =====
-- src/proxy/method.rs: the request sniff and the configuration's validator agree.
use portail.Prelude.{
  ℕ, zero, suc, ◌+◌, ◌≤◌, ◌<◌, Bool, true, ◌&&◌, ◌||◌, some, [], ◌∷◌, ◌++◌, map, ◌≡◌, ◌↔◌, inl, inr,
  refl, ap, arith, leb, Bytes, length, all, is_upper, is_lower, upper, Bool-cases,
}
use portail.Method.{is_method_byte, method_len_from, method_len, is_valid_method}

method_len_from_iff :
    (n i : ℕ) (m rest : Bytes)
    → (method_len_from n i (m ++ b' ' ∷ rest) ≡ some (i + length m))
      ↔ ((all is_method_byte m ≡ true) × (3 ≤ i + length m) × (length m < n))
unfolding method_len_from
method_len_from_iff zero i m rest = ground arith
method_len_from_iff (suc n) i [] rest = ground arith
method_len_from_iff (suc n) i (c ∷ m) rest =
    let shift : i + 1 + length m ≡ i + suc (length m) = omega arith in
    let ih = rw shift at (method_len_from_iff n (i + 1) m rest) in ground (arith, ih)

length-upper : (m : Bytes) → length (map upper m) ≡ length m
length-upper [] = refl
length-upper (b ∷ m) = ap suc (length-upper m)

all-upper : (m : Bytes) → all is_method_byte (map upper m) ≡ all (λ b. is_method_byte (upper b)) m
all-upper [] = refl
all-upper (b ∷ m) = ap (λ r. is_method_byte (upper b) && r) (all-upper m)

is_upper-upper : (b : ℕ) → is_upper (upper b) ≡ (is_upper b || is_lower b)
is_upper-upper b = ground arith

in_bounds :
    (z : Bool) (n : ℕ)
    → ((leb 3 n && leb n 20 && true && z) ≡ true) ↔ ((z ≡ true) × (3 ≤ n) × (n ≤ 20))
in_bounds z n = ground arith

-- The validator admits a configured method exactly when the sniff, on the method in uppercase and a space behind it,
-- whatever follows, reads a method of the same length.
pub is_valid_method_iff :
    (m rest : Bytes)
    → (is_valid_method m ≡ true) ↔ (method_len (map upper m ++ b' ' ∷ rest) ≡ some (length m))
unfolding is_valid_method method_len
is_valid_method_iff [] rest = ground arith
is_valid_method_iff (b ∷ m) rest =
    let one : 1 + length m ≡ suc (length m) = omega arith in
    let tail =
      rw (length-upper m, all-upper m, one) at (method_len_from_iff 20 1 (map upper m) rest) in
    rw (is_upper-upper b) (elim (Bool-cases (is_upper b || is_lower b)) [
      | inl e ↦
          let lem = in_bounds (all (λ c. is_method_byte (upper c)) m) (suc (length m)) in
          rw e (λ v. tail.1 (lem.0 v), λ w. lem.1 (tail.0 w))
      | inr e ↦ rw e (ground arith)
    ])
