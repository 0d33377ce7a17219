-- ===== src/Chunked/Split.antt =====
-- Reads may cut the stream anywhere.
use portail.Prelude.{
  ℕ, ◌+◌, true, false, Option, some, [], ◌∷◌, ◌++◌, ◌≡◌, refl, arith, if◌then◌else◌, Bytes, inl,
  inr, Bool-cases, ◌>>=◌,
}
use mathlib.Core.List.{append_assoc}
use native.Mathlib.Nat.{zero-add}
use portail.Chunked.{Phase, is_broken, decode_into}
use portail.Chunked.Bytewise.{IsSound, feed, stopped, scan, feed-IsSound, decode_into-scan}

-- The second read goes on in the phase that the first one left, unless the stream has ended.
abbrev join : Phase × ℕ × Bytes → Phase × ℕ × Bytes → Phase × ℕ × Bytes
join r s = if stopped r.0 then r else (s.0, r.1 + s.1, r.2 ++ s.2)

scan_cons :
    (p : Phase) (b : ℕ) (bs cs : Bytes)
    → stopped p ≡ false
    → scan (feed p b) (bs ++ cs) ≡ join (scan (feed p b) bs) (scan (scan (feed p b) bs).0 cs)
    → scan p (b ∷ bs ++ cs) ≡ join (scan p (b ∷ bs)) (scan (scan p (b ∷ bs)).0 cs)
unfolding scan
scan_cons p b bs cs t ih = elim (Bool-cases (is_broken (feed p b))) [
  | inl e ↦ rw (t, e)
  | inr e ↦ elim (Bool-cases (stopped (scan (feed p b) bs).0)) [
    | inl u ↦ rw (t, e, ih, u)
    | inr u ↦
        let r = scan (feed p b) bs in
        let n = (scan r.0 cs).1 in
        let m : r.1 + n + 1 ≡ r.1 + 1 + n = omega arith in rw (t, e, ih, u, m, append_assoc)
  ]
]

scan-stopped : (p : Phase) (bs : Bytes) → stopped p ≡ true → scan p bs ≡ (p, 0, [])
unfolding scan
scan-stopped p [] t = refl
scan-stopped p (b ∷ bs) t = rw t

pub scan-append :
    (p : Phase) (bs cs : Bytes) → scan p (bs ++ cs) ≡ join (scan p bs) (scan (scan p bs).0 cs)
unfolding scan
scan-append p [] cs = elim (Bool-cases (stopped p)) [
  | inl t ↦ rw (t, scan-stopped p cs t)
  | inr t ↦ rw (t, zero-add)
]
scan-append p (b ∷ bs) cs = elim (Bool-cases (stopped p)) [
  | inl t ↦ rw (t, t)
  | inr t ↦ scan_cons p b bs cs t (scan-append (feed p b) bs cs)
]

pub scan-IsSound : (p : Phase) (bs : Bytes) → IsSound p → IsSound (scan p bs).0
unfolding scan
scan-IsSound p [] s = s
scan-IsSound p (b ∷ bs) s = elim (Bool-cases (stopped p)) [
  | inl t ↦ rw t s
  | inr t ↦ elim (Bool-cases (is_broken (feed p b))) [
    | inl e ↦ rw (t, e) tt
    | inr e ↦ rw (t, e) (scan-IsSound (feed p b) bs (feed-IsSound p b))
  ]
]

-- Two reads, the second one only if the first one did not end the stream: the phase, the bytes consumed in both, and
-- the payload of both.
abbrev pub decode_reads : Phase → Bytes → Bytes → Bytes → Option (Phase × ℕ × Bytes)
decode_reads p bs cs out = do
  (q, n, sofar) ← decode_into p bs out
  (q', m, all) ← decode_into q cs sofar
  if stopped q then some (q, n, sofar) else some (q', n + m, all)

-- From a phase that has bytes to come in its chunk, a body read in one slice or cut into two slices ends in the same
-- phase, with the same count of bytes consumed and the same payload.
pub decode_into-append :
    (p : Phase) (bs cs out : Bytes)
    → IsSound p
    → decode_into p (bs ++ cs) out ≡ decode_reads p bs cs out
decode_into-append p bs cs out s =
    let q = (scan p bs).0 in
    elim (Bool-cases (stopped q)) [
      | inl t ↦ rw (
        decode_into-scan p (bs ++ cs) out s,
        scan-append p bs cs,
        t,
        decode_into-scan p bs out s,
        decode_into-scan q cs (out ++ (scan p bs).2) (scan-IsSound p bs s),
        t,
      )
      | inr t ↦ rw (
        decode_into-scan p (bs ++ cs) out s,
        scan-append p bs cs,
        t,
        decode_into-scan p bs out s,
        decode_into-scan q cs (out ++ (scan p bs).2) (scan-IsSound p bs s),
        t,
        append_assoc,
      )
    ]
