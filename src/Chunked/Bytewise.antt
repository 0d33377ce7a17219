-- ===== src/Chunked/Bytewise.antt =====
-- The loop of `advance` against a scan that looks at every byte.
use portail.Prelude.{
  ℕ, zero, suc, ◌+◌, ◌-◌, ◌<◌, ◌≤◌, min, Bool, true, false, Option, none, some, [], ◌∷◌, ◌++◌, ◌≡◌,
  refl, arith, if◌then◌else◌, Bytes, length, take, drop, length-drop, inl, inr, Bool-cases,
}
use mathlib.Core.Bool.{true≢false}
use mathlib.Core.List.{append-nil, append_assoc}
use native.Mathlib.Nat.{add-zero, zero-add}
use portail.Chunked.{
  Phase, size, digit, shift_hex, in_data, done, broken, is_broken, step, after_data, advance,
  decode_into,
}

-- A chunk that is being read has bytes to come.
abbrev pub IsSound : Phase → Type 0
IsSound (in_data n) = 0 < n
IsSound _ = Unit

-- One byte, chunk data included.
unfoldable pub feed : Phase → ℕ → Phase
feed (in_data n) b = after_data (n - 1)
feed p b = step p b

-- The payload that a byte adds.
unfoldable pub payload : Phase → ℕ → Bytes
payload (in_data n) b = b ∷ []
payload _ b = []

unfoldable pub stopped : Phase → Bool
stopped done = true
stopped broken = true
stopped _ = false

-- The phase after the bytes that belong to the stream, their count, and their payload.
unfoldable pub scan : Phase → Bytes → Phase × ℕ × Bytes
unfolding feed payload stopped
scan p [] = (p, 0, [])
scan p (b ∷ bs) =
    let rest = scan (feed p b) bs in
    if stopped p
    then (p, 0, [])
    else if is_broken (feed p b)
    then (broken, 0, [])
    else (rest.0, rest.1 + 1, payload p b ++ rest.2)

digit-IsSound : (o : Option ℕ) → IsSound (digit o)
unfolding digit
digit-IsSound none = tt
digit-IsSound (some h) = tt

pub step-IsSound : (p : Phase) (b : ℕ) → IsSound (step p b)
unfolding step
step-IsSound (size hex d) b = ground (
  arith,
  digit-IsSound (shift_hex hex (b - b'0')),
  digit-IsSound (shift_hex hex (b - b'a' + 10)),
  digit-IsSound (shift_hex hex (b - b'A' + 10)),
)
step-IsSound p b = ground arith

after_data-IsSound : (n : ℕ) → IsSound (after_data n)
unfolding after_data
after_data-IsSound n = ground arith

pub is_broken-after_data : (n : ℕ) → is_broken (after_data n) ≡ false
unfolding after_data is_broken
is_broken-after_data n = ground arith

pub stopped-after_data : (n : ℕ) → stopped (after_data n) ≡ false
unfolding after_data stopped
stopped-after_data n = ground arith

pub feed-IsSound : (p : Phase) (b : ℕ) → IsSound (feed p b)
unfolding feed
feed-IsSound (in_data n) b = after_data-IsSound (n - 1)
feed-IsSound p b = step-IsSound p b

after_data_pos : (n : ℕ) → 0 < n → after_data n ≡ in_data n
unfolding after_data
after_data_pos n h = ground arith

-- What `scan` makes of a run of `n` bytes of chunk data.
abbrev after_run : Phase → ℕ → Bytes → Phase × ℕ × Bytes
after_run p n bs = let rest = scan p (drop n bs) in (rest.0, rest.1 + n, take n bs ++ rest.2)

scan-run :
    (n r : ℕ) (bs : Bytes)
    → suc n ≤ r
    → suc n ≤ length bs
    → scan (in_data r) bs ≡ after_run (after_data (r - suc n)) (suc n) bs
unfolding scan
scan-run n r [] h k = absurd (omega arith)
scan-run zero r (b ∷ bs) h k = rw (is_broken-after_data (r - 1)) refl
scan-run (suc n) r (b ∷ bs) h k =
    let e : r - 1 - suc n ≡ r - suc (suc n) = omega arith in
    let rest = scan (after_data (r - suc (suc n))) (drop (suc n) bs) in
    let m : rest.1 + suc n + 1 ≡ rest.1 + suc (suc n) = omega arith in
    rw
      (
        is_broken-after_data (r - 1),
        after_data_pos (r - 1) (omega arith),
        scan-run n (r - 1) bs (omega arith) (omega arith),
        e,
        m,
      )
      refl

-- The result of the loop, by the scan of the bytes left.
abbrev outcome : ℕ → Bytes → Phase × ℕ × Bytes → Phase × ℕ × Bytes
outcome i out r = (r.0, i + r.1, out ++ r.2)

-- One round, from the scan of what the round leaves.
advance_step :
    (f : ℕ) (i : ℕ) (out : Bytes) (q : Phase) (bs : Bytes) (r : Phase × ℕ × Bytes)
    → (is_broken q ≡ false → advance f q (i + 1) bs out ≡ some (outcome (i + 1) out r))
    → (let rest = advance f q (i + 1) bs out in if is_broken q then some (broken, i, out) else rest)
      ≡ some (outcome i out (if is_broken q then (broken, 0, []) else (r.0, r.1 + 1, r.2)))
advance_step f i out q bs r ih = elim (Bool-cases (is_broken q)) [
  | inl e ↦ rw (e, append-nil, add-zero)
  | inr e ↦ let m : i + 1 + r.1 ≡ i + (r.1 + 1) = omega arith in rw (e, ih e, m)
]

advance_data :
    (f i n r : ℕ) (bs out : Bytes)
    → 0 < n
    → n ≤ r
    → n ≤ length bs
    → advance f (after_data (r - n)) (i + n) (drop n bs) (out ++ take n bs)
      ≡ some (outcome (i + n) (out ++ take n bs) (scan (after_data (r - n)) (drop n bs)))
    → advance f (after_data (r - n)) (i + n) (drop n bs) (out ++ take n bs)
      ≡ some (outcome i out (scan (in_data r) bs))
advance_data f i zero r bs out z h k ih = absurd (omega arith)
advance_data f i (suc n) r bs out z h k ih =
    let rest = scan (after_data (r - suc n)) (drop (suc n) bs) in
    let m : i + suc n + rest.1 ≡ i + (rest.1 + suc n) = omega arith in
    rw (ih, scan-run n r bs h k, m, append_assoc) refl

pub advance-scan :
    (f : ℕ) (p : Phase) (i : ℕ) (bs out : Bytes)
    → IsSound p
    → is_broken p ≡ false
    → length bs < f
    → advance f p i bs out ≡ some (outcome i out (scan p bs))
unfolding advance scan
advance-scan zero p i bs out s n h = absurd (omega arith)
advance-scan (suc f) p i [] out s n h = rw (append-nil, add-zero)
advance-scan (suc f) done i (b ∷ bs) out s n h = rw (append-nil, add-zero)
advance-scan (suc f) broken i (b ∷ bs) out s n h = absurd (true≢false n)
advance-scan (suc f) (in_data r) i (b ∷ bs) out s n h =
    let k = min r (suc (length bs)) in
    advance_data f i k r (b ∷ bs) out (omega arith) (omega arith) (omega arith) (
      advance-scan f (after_data (r - k)) (i + k) (drop k (b ∷ bs)) (out ++ take k (b ∷ bs))
        (after_data-IsSound (r - k)) (is_broken-after_data (r - k))
        (omega (arith, length-drop k (b ∷ bs))))
advance-scan (suc f) p i (b ∷ bs) out s n h =
    advance_step f i out (step p b) bs (scan (step p b) bs)
      (λ e. advance-scan f (step p b) (i + 1) bs out (step-IsSound p b) e (omega arith))

-- From a phase that has bytes to come in its chunk, `decode_into` returns: the phase, the count and the payload of the
-- scan that looks at every byte, the payload put behind what `out` held.
pub decode_into-scan :
    (p : Phase) (bytes out : Bytes)
    → IsSound p
    → decode_into p bytes out ≡ some ((scan p bytes).0, (scan p bytes).1, out ++ (scan p bytes).2)
unfolding decode_into advance scan is_broken
decode_into-scan broken [] out s = rw append-nil
decode_into-scan broken (b ∷ bytes) out s = rw append-nil
decode_into-scan p bytes out s =
    rw (advance-scan (suc (length bytes)) p 0 bytes out s refl (omega arith), zero-add)
