-- ===== src/Prelude/Bits.antt =====
-- `&`, `|` and `^` on machine words, one binary digit at a time and one byte at a time.
use Prim.Native.Nat.{
  ℕ, zero, suc, ◌+◌, ◌*◌, ◌/◌, ◌%◌, ◌≤◌, min, max, differ, digits, bitwise, bit_and, bit_or,
  bit_xor, bit_and-bitwise, bit_or-bitwise, bit_xor-bitwise,
}
use mathlib.Core.Path.{◌≡◌, refl, sym, ap, ◌∙◌}
use native.Mathlib.Omega.{arith}

-- Any fuel from the number on gives the same digits.
digits_enough :
    (z : ℕ → ℕ) (f : ℕ → ℕ → ℕ) (n a b : ℕ) → a ≤ n → digits z f n a b ≡ digits z f a a b
digits_enough z f n a b p = settle n a a b p (omega arith)
  where
    settle : (n m a b : ℕ) → a ≤ n → a ≤ m → digits z f n a b ≡ digits z f m a b
    settle zero zero a b p q = refl
    settle zero (suc m) zero b p q = refl
    settle (suc n) zero zero b p q = refl
    settle (suc n) (suc m) zero b p q = refl
    settle zero m (suc a) b p q = absurd (omega arith)
    settle (suc n) zero (suc a) b p q = absurd (omega arith)
    settle (suc n) (suc m) (suc a) b p q =
        rw (settle n m (suc a / 2) (b / 2) (omega arith) (omega arith)) refl

bitwise_low :
    (z : ℕ → ℕ) (f : ℕ → ℕ → ℕ) (a b : ℕ)
    → bitwise z f (suc a) b ≡ bitwise z f (suc a / 2) (b / 2) * 2 + f (suc a % 2) (b % 2)
bitwise_low z f a b = omega (arith, digits_enough z f a (suc a / 2) (b / 2) (omega arith))

pub bit_and_digit : (a b : ℕ) → bit_and a b ≡ bit_and (a / 2) (b / 2) * 2 + min (a % 2) (b % 2)
bit_and_digit zero b = simp bit_and-bitwise (omega arith)
bit_and_digit (suc a) b = simp bit_and-bitwise (bitwise_low (λ y. 0) min a b)

pub bit_or_digit : (a b : ℕ) → bit_or a b ≡ bit_or (a / 2) (b / 2) * 2 + max (a % 2) (b % 2)
bit_or_digit zero b = simp bit_or-bitwise (omega arith)
bit_or_digit (suc a) b = simp bit_or-bitwise (bitwise_low (λ y. y) max a b)

pub bit_xor_digit : (a b : ℕ) → bit_xor a b ≡ bit_xor (a / 2) (b / 2) * 2 + differ (a % 2) (b % 2)
bit_xor_digit zero b = simp bit_xor-bitwise (omega arith)
bit_xor_digit (suc a) b = simp bit_xor-bitwise (bitwise_low (λ y. y) differ a b)

-- A sum of bits is zero only if both are.
pub bit_or_zero : (n a b : ℕ) → a ≤ n → b ≤ n → bit_or a b ≡ 0 → (a ≡ 0) × (b ≡ 0)
bit_or_zero zero a b p q e = (omega arith, omega arith)
bit_or_zero (suc n) a b p q e =
    let digit = bit_or_digit a b in
    let (high_a, high_b) =
      bit_or_zero n (a / 2) (b / 2) (omega arith) (omega arith) (omega arith) in
    (omega arith, omega arith)

-- `n >> k`.
abbrev pub shifted : ℕ → ℕ → ℕ
shifted zero n = n
shifted (suc k) n = shifted k (n / 2)

bit_and_half : (a b : ℕ) → bit_and a b / 2 ≡ bit_and (a / 2) (b / 2)
bit_and_half a b = omega (arith, bit_and_digit a b)

differ-le : (x y : ℕ) → differ x y ≤ max x y
differ-le zero y = omega arith
differ-le (suc x) zero = omega arith
differ-le (suc x) (suc y) = omega (arith, differ-le x y)

differ_self : (x : ℕ) → differ x x ≡ 0
differ_self zero = refl
differ_self (suc x) = differ_self x

bit_xor_half : (a b : ℕ) → bit_xor a b / 2 ≡ bit_xor (a / 2) (b / 2)
bit_xor_half a b = omega (arith, bit_xor_digit a b, differ-le (a % 2) (b % 2))

pub shifted-bit_and : (k a b : ℕ) → shifted k (bit_and a b) ≡ bit_and (shifted k a) (shifted k b)
shifted-bit_and zero a b = refl
shifted-bit_and (suc k) a b = rw (bit_and_half a b) (shifted-bit_and k (a / 2) (b / 2))

pub shifted-bit_xor : (k a b : ℕ) → shifted k (bit_xor a b) ≡ bit_xor (shifted k a) (shifted k b)
shifted-bit_xor zero a b = refl
shifted-bit_xor (suc k) a b = rw (bit_xor_half a b) (shifted-bit_xor k (a / 2) (b / 2))

-- The low `k` bits.
abbrev low : ℕ → ℕ → ℕ
low zero n = 0
low (suc k) n = n % 2 + 2 * low k (n / 2)

low-bit_xor : (k a b : ℕ) → low k a ≡ low k b → low k (bit_xor a b) ≡ 0
low-bit_xor zero a b e = refl
low-bit_xor (suc k) a b e =
    let digit : a % 2 ≡ b % 2 = omega arith in
    let rest = low-bit_xor k (a / 2) (b / 2) (omega arith) in
    let none_left : differ (a % 2) (b % 2) ≡ 0 = rw digit (differ_self (b % 2)) in
    let half = ap (low k) (bit_xor_half a b) in omega (arith, bit_xor_digit a b)

-- One byte at a time.
pub bit_and_byte : (a b : ℕ) → bit_and a b / 256 ≡ bit_and (a / 256) (b / 256)
bit_and_byte a b =
    let a8 : shifted 8 a ≡ a / 256 = omega arith in
    let b8 : shifted 8 b ≡ b / 256 = omega arith in
    let c8 : shifted 8 (bit_and a b) ≡ bit_and a b / 256 = omega arith in
    sym c8 ∙ shifted-bit_and 8 a b ∙ rw (a8, b8) refl

pub bit_xor_byte : (a b : ℕ) → bit_xor a b / 256 ≡ bit_xor (a / 256) (b / 256)
bit_xor_byte a b =
    let a8 : shifted 8 a ≡ a / 256 = omega arith in
    let b8 : shifted 8 b ≡ b / 256 = omega arith in
    let c8 : shifted 8 (bit_xor a b) ≡ bit_xor a b / 256 = omega arith in
    sym c8 ∙ shifted-bit_xor 8 a b ∙ rw (a8, b8) refl

-- The bit of weight 128.
pub bit_and_top : (a b : ℕ) → bit_and a b / 128 % 2 ≡ min (a / 128 % 2) (b / 128 % 2)
bit_and_top a b =
    let a7 : shifted 7 a ≡ a / 128 = omega arith in
    let b7 : shifted 7 b ≡ b / 128 = omega arith in
    let c7 : shifted 7 (bit_and a b) ≡ bit_and a b / 128 = omega arith in
    let same : bit_and a b / 128 ≡ bit_and (a / 128) (b / 128) =
      sym c7 ∙ shifted-bit_and 7 a b ∙ rw (a7, b7) refl in
    omega (arith, bit_and_digit (a / 128) (b / 128))

-- Equal low bytes cancel.
pub bit_xor_low : (a b : ℕ) → a % 256 ≡ b % 256 → bit_xor a b % 256 ≡ 0
bit_xor_low a b e =
    let a8 : low 8 a ≡ a % 256 = omega arith in
    let b8 : low 8 b ≡ b % 256 = omega arith in
    let c8 : low 8 (bit_xor a b) ≡ bit_xor a b % 256 = omega arith in
    sym c8 ∙ low-bit_xor 8 a b (a8 ∙ e ∙ sym b8)
