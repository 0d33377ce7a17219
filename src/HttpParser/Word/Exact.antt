-- ===== src/HttpParser/Word/Exact.antt =====
-- The word test of `scan` in src/proxy/http_parser.rs, byte by byte.
use Prim.Native.Nat.{bit_and, bit_or, bit_xor}
use portail.Prelude.{
  ℕ, zero, suc, ◌+◌, ◌*◌, ◌/◌, ◌%◌, ◌^◌, ◌≤◌, ◌<◌, ◌≡◌, ◌≢◌, refl, sym, ap, ◌∙◌, inl, inr, arith,
  min, [], ◌∷◌, Bytes, All, length, leb, Bool-cases,
}
use mathlib.Core.Path.{subst}
use portail.Prelude.Bits.{bit_or_zero, bit_and_byte, bit_xor_byte, bit_and_top, bit_xor_low}
use portail.HttpParser.Word.{
  from_ne_bytes, ones, wrapping_sub, complement, marked, mark_holes, stop_bits,
}

-- The word of `n` bytes that are all `b`.
abbrev repeated : (n b : ℕ) → ℕ
repeated zero b = 0
repeated (suc n) b = b + 256 * repeated n b

-- A multiple of the word's range.
abbrev beyond : (n m : ℕ) → ℕ
beyond zero m = m
beyond (suc n) m = 256 * beyond n m

-- The `n` low bytes of a number, each of which has the property.
abbrev Bytewise : (P : ℕ → Type 0) → (n w : ℕ) → Type 0
Bytewise P zero w = Unit
Bytewise P (suc n) w = P (w % 256) × Bytewise P n (w / 256)

abbrev Fits : (n w : ℕ) → Type 0
Fits zero w = w ≡ 0
Fits (suc n) w = Fits n (w / 256)

-- A difference that leaves no high bit where the number's own is clear has borrowed nowhere.
no_borrow :
    (n floor w d c m : ℕ)
    → floor ≤ 128
    → d + repeated n floor ≡ w + beyond n m
    → c + w ≡ repeated n 255
    → bit_and (bit_and d c) (repeated n 128) ≡ 0
    → Bytewise (λ b. floor ≤ b) n w
no_borrow zero floor w d c m small difference total clear = tt
no_borrow (suc n) floor w d c m small difference total clear =
    let high = bit_and_top (bit_and d c) (repeated (suc n) 128) in
    let both = bit_and_top d c in
    let rest = bit_and_byte (bit_and d c) (repeated (suc n) 128) in
    let parts = bit_and_byte d c in
    let tops : repeated (suc n) 128 / 256 ≡ repeated n 128 = omega arith in
    let none_high : min (d / 128 % 2) (c / 128 % 2) ≡ 0 = omega arith in
    let above : floor ≤ w % 256 = omega arith in
    let clear_rest : bit_and (bit_and (d / 256) (c / 256)) (repeated n 128) ≡ 0 =
      rw (← parts, ← tops) (sym rest ∙ ap (λ x. x / 256) clear) in
    (
      above,
      no_borrow n floor (w / 256) (d / 256) (c / 256) m small (omega arith) (omega arith)
          clear_rest,
    )

marked-zero :
    (x floor : ℕ) → floor ≤ 128 → x < 2 ^ 64 → marked x floor ≡ 0 → Bytewise (λ b. floor ≤ b) 8 x
unfolding marked wrapping_sub
marked-zero x floor small fits e = elim (Bool-cases (leb (ones * floor) x)) [
  | inl over ↦
      no_borrow 8 floor x (wrapping_sub x (ones * floor)) (complement x) 0 small (ground arith)
        (omega arith) e
  | inr under ↦
      no_borrow 8 floor x (wrapping_sub x (ones * floor)) (complement x) 1 small (ground arith)
        (omega arith) e
]

Fits-bit_xor : (n a b : ℕ) → Fits n a → Fits n b → Fits n (bit_xor a b)
Fits-bit_xor zero a b p q = rw (p, q) refl
Fits-bit_xor (suc n) a b p q = rw (bit_xor_byte a b) (Fits-bit_xor n (a / 256) (b / 256) p q)

-- The bytes in which a word differs from the repeated one are not that byte.
hole_free :
    (n w hole : ℕ)
    → hole < 256
    → Bytewise (λ b. 1 ≤ b) n (bit_xor w (repeated n hole))
    → Bytewise (λ b. b ≢ hole) n w
hole_free zero w hole fits e = tt
hole_free (suc n) w hole fits (first, rest) =
    let same_low : repeated (suc n) hole % 256 ≡ hole = omega arith in
    let same_high : repeated (suc n) hole / 256 ≡ repeated n hole = omega arith in
    let bytes = bit_xor_byte w (repeated (suc n) hole) in
    (
      λ e. absurd (omega (arith, first, bit_xor_low w (repeated (suc n) hole) (e ∙ sym same_low))),
      hole_free n (w / 256) hole fits
          (subst (Bytewise (λ b. 1 ≤ b) n) (bytes ∙ ap (bit_xor (w / 256)) same_high) rest),
    )

mark_holes-zero :
    (holes : Bytes) (w stop : ℕ)
    → All (λ h. h < 256) holes
    → w < 2 ^ 64
    → mark_holes holes w stop ≡ 0
    → (stop ≡ 0) × All (λ h. Bytewise (λ b. b ≢ h) 8 w) holes
unfolding mark_holes
mark_holes-zero [] w stop small fits e = (e, tt)
mark_holes-zero (hole ∷ holes) w stop (fits_hole, small) fits e =
    let x = bit_xor w (ones * hole) in
    let mark = marked x 1 in
    let (either, others) = mark_holes-zero holes w (bit_or stop mark) small fits e in
    let (before, unmarked) =
      bit_or_zero (stop + mark) stop mark (omega arith) (omega arith) either in
    let all_hole : ones * hole ≡ repeated 8 hole = omega arith in
    let x_fits : Fits 8 (bit_xor w (repeated 8 hole)) =
      Fits-bit_xor 8 w (repeated 8 hole) (omega arith) (omega arith) in
    let x_small : x < 2 ^ 64 = rw all_hole (omega (arith, x_fits)) in
    (
      before,
      (
        hole_free 8 w hole fits_hole (
            subst (λ r. Bytewise (λ b. 1 ≤ b) 8 (bit_xor w r)) all_hole
              (marked-zero x 1 (omega arith) x_small unmarked)),
        others,
      ),
    )

bytes-All :
    (P : ℕ → Type 0) (bs : Bytes)
    → Bytewise P (length bs) (from_ne_bytes bs)
    → All (λ b. P (b % 256)) bs
unfolding from_ne_bytes
bytes-All P [] e = tt
bytes-All P (b ∷ bs) (first, rest) =
    let w = from_ne_bytes (b ∷ bs) in
    let first_byte : w % 256 ≡ b % 256 = omega arith in
    let other_bytes : w / 256 ≡ from_ne_bytes bs = omega arith in
    (subst P first_byte first, bytes-All P bs (subst (Bytewise P (length bs)) other_bytes rest))

bytes-Fits : (bs : Bytes) → Fits (length bs) (from_ne_bytes bs)
unfolding from_ne_bytes
bytes-Fits [] = refl
bytes-Fits (b ∷ bs) =
    let other_bytes : from_ne_bytes (b ∷ bs) / 256 ≡ from_ne_bytes bs = omega arith in
    subst (Fits (length bs)) (sym other_bytes) (bytes-Fits bs)

-- A word of eight bytes that leaves no bit set has no byte below the floor, and none of the holes.
pub stop_bits-zero :
    (floor : ℕ) (holes bs : Bytes)
    → floor ≤ 128
    → All (λ h. h < 256) holes
    → length bs ≡ 8
    → stop_bits floor holes (from_ne_bytes bs) ≡ 0
    → All (λ b. floor ≤ b % 256) bs × All (λ h. All (λ b. b % 256 ≢ h) bs) holes
unfolding stop_bits
stop_bits-zero floor holes bs small fits eight e =
    let w = from_ne_bytes bs in
    let word_Fits : Fits 8 w = subst (λ n. Fits n w) eight (bytes-Fits bs) in
    let word_small : w < 2 ^ 64 = omega (arith, word_Fits) in
    let (unmarked, free) = mark_holes-zero holes w (marked w floor) fits word_small e in
    let spread : (P : ℕ → Type 0) → Bytewise P 8 w → All (λ b. P (b % 256)) bs =
      λ P p. bytes-All P bs (subst (λ n. Bytewise P n w) (sym eight) p) in
    (spread (λ b. floor ≤ b) (marked-zero w floor small word_small unmarked), each holes free)
  where
    each :
        (hs : Bytes)
        → All (λ h. Bytewise (λ b. b ≢ h) 8 (from_ne_bytes bs)) hs
        → All (λ h. All (λ b. b % 256 ≢ h) bs) hs
    each [] free = tt
    each (h ∷ hs) free = (
      bytes-All (λ b. b ≢ h) bs
          (subst (λ n. Bytewise (λ b. b ≢ h) n (from_ne_bytes bs)) (sym eight) free.0),
      each hs free.1,
    )
