-- ===== src/HttpParser/Scan/Runs.antt =====
-- The word scan of src/proxy/http_parser.rs against the scan that looks every byte up.
use portail.Prelude.{
  ℕ, zero, suc, ◌+◌, ◌≡◌, refl, sym, arith, true, ◌&&◌, [], ◌∷◌, inl, inr, ◌==◌, Bool-cases, Bytes,
  All, ◌≢◌, ◌≤◌, ◌%◌, ap, all, length, take, drop,
}
use portail.HttpParser.Class.{Class, value, target, is, value_holes, target_holes}
use portail.HttpParser.Word.{from_ne_bytes, stop_bits}
use portail.HttpParser.Word.Exact.{stop_bits-zero}
use portail.HttpParser.Scan.{run, scan_words, scan, field_value_end, target_end}

pub all-take-run : (c : Class) (v : Bytes) → all (λ b. is b c) (take (run c v) v) ≡ true
unfolding run
all-take-run c [] = refl
all-take-run c (b ∷ bs) = elim (Bool-cases (is b c)) [
  | inl e ↦ rw (e, run) (ground (arith, e, all-take-run c bs))
  | inr e ↦ rw (e, run) refl
]

-- Bytes of the class in front lengthen its run.
run-drop :
    (c : Class) (n : ℕ) (v : Bytes)
    → length (take n v) ≡ n
    → all (λ b. is b c) (take n v) ≡ true
    → run c v ≡ n + run c (drop n v)
unfolding run
run-drop c zero v l e = omega arith
run-drop c (suc n) [] l e = ground (arith, l)
run-drop c (suc n) (b ∷ bs) l e =
    ground (arith, run-drop c n bs (ground (arith, l)) (ground (arith, e)))

All-zip : (P Q : ℕ → Type 0) (v : Bytes) → All P v → All Q v → All (λ b. P b × Q b) v
All-zip P Q [] p q = tt
All-zip P Q (b ∷ bs) (p, ps) (q, qs) = ((p, q), All-zip P Q bs ps qs)

All-all :
    (c : Class) (P : ℕ → Type 0) (v : Bytes)
    → ((b : ℕ) → P b → is b c ≡ true)
    → All P v
    → all (λ b. is b c) v ≡ true
All-all c P [] member e = refl
All-all c P (b ∷ bs) member (first, rest) = rw (member b first) (All-all c P bs member rest)

-- Where every word without stop bits has bytes of the class only, the scan passes the class's run.
scan_words-run :
    (words : ℕ) (c : Class) (floor : ℕ) (holes v : Bytes)
    → ((bs : Bytes)
        → length bs ≡ 8
        → stop_bits floor holes (from_ne_bytes bs) ≡ 0
        → all (λ b. is b c) bs ≡ true)
    → scan_words words c floor holes v ≡ run c v
unfolding scan_words
scan_words-run zero c floor holes v clear = refl
scan_words-run (suc words) c floor holes v clear =
    let word = take 8 v in
    elim (Bool-cases (length word == 8 && stop_bits floor holes (from_ne_bytes word) == 0)) [
      | inl e ↦
          let eight : length word ≡ 8 = ground (arith, e) in
          let none_set : stop_bits floor holes (from_ne_bytes word) ≡ 0 = ground (arith, e) in
          rw (e, scan_words)
            (rw (scan_words-run words c floor holes (drop 8 v) clear)
              (sym (run-drop c 8 v eight (clear word eight none_set))))
      | inr e ↦ rw (e, scan_words) refl
    ]

-- A word without stop bits for a class's floor and holes is of the class.
value_clear :
    (bs : Bytes)
    → length bs ≡ 8
    → stop_bits 0x20 value_holes (from_ne_bytes bs) ≡ 0
    → all (λ b. is b value) bs ≡ true
unfolding is
value_clear bs eight e =
    let (above, (no_del, _)) =
      stop_bits-zero 0x20 value_holes bs (omega arith) (omega arith, tt) eight e in
    All-all value (λ b. (0x20 ≤ b % 256) × (b % 256 ≢ 0x7f)) bs in_value
      (All-zip (λ b. 0x20 ≤ b % 256) (λ b. b % 256 ≢ 0x7f) bs above no_del)
  where
    in_value : (b : ℕ) → (0x20 ≤ b % 256) × (b % 256 ≢ 0x7f) → is b value ≡ true
    in_value b (above, no_del) =
        let differs : b ≢ 0x7f = λ q. no_del (ap (λ n. n % 256) q) in ground (arith, above, differs)

target_clear :
    (bs : Bytes)
    → length bs ≡ 8
    → stop_bits 0x21 target_holes (from_ne_bytes bs) ≡ 0
    → all (λ b. is b target) bs ≡ true
unfolding is
target_clear bs eight e =
    let (above, (no_del, (no_hash, (no_backslash, _)))) =
      stop_bits-zero 0x21 target_holes bs (omega arith)
        (omega arith, (omega arith, (omega arith, tt))) eight e in
    All-all target
      (λ b. (0x21 ≤ b % 256) × ((b % 256 ≢ 0x7f) × ((b % 256 ≢ b'#') × (b % 256 ≢ b'\\')))) bs
      in_target (All-zip _ _ bs above (All-zip _ _ bs no_del (All-zip _ _ bs no_hash no_backslash)))
  where
    in_target :
        (b : ℕ)
        → (0x21 ≤ b % 256) × ((b % 256 ≢ 0x7f) × ((b % 256 ≢ b'#') × (b % 256 ≢ b'\\')))
        → is b target ≡ true
    in_target b (above, (no_del, (no_hash, no_backslash))) =
        let not_del : b ≢ 0x7f = λ q. no_del (ap (λ n. n % 256) q) in
        let not_hash : b ≢ b'#' = λ q. no_hash (ap (λ n. n % 256) q) in
        let not_backslash : b ≢ b'\\' = λ q. no_backslash (ap (λ n. n % 256) q) in
        ground (arith, above, not_del, not_hash, not_backslash)

-- The scans of values and of targets, which pass eight bytes at once where the arithmetic on their word leaves no stop
-- bit, end where the first byte outside their class stands, whatever the bytes.
pub scans-run : (v : Bytes) → (field_value_end v ≡ run value v) × (target_end v ≡ run target v)
unfolding field_value_end target_end scan
scans-run v = (
  scan_words-run (length v) value 0x20 value_holes v value_clear,
  scan_words-run (length v) target 0x21 target_holes v target_clear,
)
