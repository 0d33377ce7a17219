-- ===== src/HttpParser/Lines.antt =====
-- The header lines that the pass of `extract_routing_info` in src/proxy/http_parser.rs reads, as the text that they print.
use mathlib.Core.List.{append_assoc}
use mathlib.Core.Path.{◌≡⟨◌⟩◌, ◌∎}
use portail.Prelude.{
  ℕ, zero, suc, ◌+◌, ◌≤◌, ◌≡◌, ◌≢◌, refl, ap, sym, ◌∙◌, arith, Bool, true, false, none, some, List,
  [], ◌∷◌, ◌++◌, inl, inr, ◌==◌, Bool-cases, Option-cases, Bytes, codes, all, length, take, drop,
  strip_prefix, strip_prefix-eq-some, take-append-drop, length-append, is_empty, is_some,
}
use portail.HttpParser.Class.{Class, tchar, is}
use portail.HttpParser.Scan.{run, is_token, field_value_end}
use portail.HttpParser.Scan.Runs.{all-take-run, scans-run}
use portail.HttpParser.Head.{Head, header_line, head_lines, split_line, line_length}

abbrev pub print_line : Bytes × Bytes → Bytes
print_line (name, v) = name ++ (codes ":" ++ (v ++ codes "\r\n"))

abbrev pub print_lines : List (Bytes × Bytes) → Bytes
print_lines [] = []
print_lines (l ∷ ls) = print_line l ++ print_lines ls

-- A field name is a token, and a value has no control character but tabs.
abbrev pub IsLine : Bytes × Bytes → Type 0
IsLine (name, v) = (is_token name ≡ true) × (all (λ b. is b Class.value) v ≡ true)

pub take-run_nonempty : (v : Bytes) → run tchar v ≢ 0 → is_empty (take (run tchar v) v) ≡ false
unfolding run
take-run_nonempty [] e = absurd (e refl)
take-run_nonempty (b ∷ bs) e = elim (Bool-cases (is b tchar)) [
  | inl h ↦ rw (h, run) (ground arith)
  | inr h ↦ absurd (e (rw (h, run) refl))
]

-- The parts that a split finds, in order.
split_line-parts :
    (line name v rest : Bytes)
    → split_line line ≡ some (name, v, rest)
    → (behind : Bytes) × (run tchar line ≢ 0)
      × (strip_prefix (codes ":") (drop (run tchar line) line) ≡ some behind)
      × (strip_prefix (codes "\r\n") (drop (field_value_end behind) behind) ≡ some rest)
      × (name ≡ take (run tchar line) line)
      × (v ≡ take (field_value_end behind) behind)
unfolding split_line
split_line-parts line name v rest e =
    elim (Option-cases (strip_prefix (codes ":") (drop (run tchar line) line))) [
      | inl o ↦ absurd (ground (arith, e, o))
      | inr (behind, o) ↦ (
        behind,
        ground (arith, e),
        o,
        ground (arith, e, o),
        ground (arith, e, o),
        ground (arith, e, o),
      )
    ]

-- A text cut after `n` bytes, where the rest opens with `p`.
pub cut :
    (n : ℕ) (v p behind : Bytes)
    → strip_prefix p (drop n v) ≡ some behind
    → v ≡ take n v ++ (p ++ behind)
cut n v p behind e =
    sym (take-append-drop n v)
    ∙ ap (λ x. take n v ++ x) (strip_prefix-eq-some p (drop n v) behind e)

-- A line that the pass splits is printed from its parts.
pub split_line-some :
    (line name v rest : Bytes)
    → split_line line ≡ some (name, v, rest)
    → (line ≡ print_line (name, v) ++ rest) × IsLine (name, v)
unfolding is_token
split_line-some line name v rest e =
    let (behind, some_name, colon, crlf, named, valued) = split_line-parts line name v rest e in
    (
      rw (named, valued)
          (line
            ≡⟨ cut (run tchar line) line (codes ":") behind colon ⟩
              take (run tchar line) line ++ (codes ":" ++ behind)
            ≡⟨ ap (λ x. take (run tchar line) line ++ (codes ":" ++ x))
                (cut (field_value_end behind) behind (codes "\r\n") rest crlf) ⟩
              take (run tchar line) line
              ++ (codes ":" ++ (take (field_value_end behind) behind ++ (codes "\r\n" ++ rest)))
            ≡⟨ (simp append_assoc) ⟩
              print_line (take (run tchar line) line, take (field_value_end behind) behind)
              ++ rest ∎),
      (
        rw (named, take-run_nonempty line some_name) (all-take-run tchar line),
        rw (valued, (scans-run behind).0) (all-take-run Class.value behind),
      ),
    )

pub length-print_line : (name v : Bytes) → length (print_line (name, v)) ≡ line_length name v
length-print_line name v =
    omega
      (arith, length-append name (codes ":" ++ (v ++ codes "\r\n")), length-append v (codes "\r\n"))

pub split_line-length :
    (line name v rest : Bytes)
    → split_line line ≡ some (name, v, rest)
    → length line ≡ line_length name v + length rest
split_line-length line name v rest e = omega (
  arith,
  ap length (split_line-some line name v rest e).0,
  length-append (print_line (name, v)) rest,
  length-print_line name v,
)

-- The lines read from one state of the pass to a later one, none of them refused.
pub data Reads (is_http10 : Bool) : Head → List (Bytes × Bytes) → Head → Type 0 where
  done : {h : Head} → Reads is_http10 h [] h
  line :
      {h h' : Head} {name v : Bytes} {ls : List (Bytes × Bytes)}
      → IsLine (name, v)
      → (header_line is_http10 name v h).violation ≡ false
      → Reads is_http10 (header_line is_http10 name v h) ls h'
      → Reads is_http10 h ((name, v) ∷ ls) h'

-- A pass that ends with the blank line, without a violation, has read lines, that line, and nothing else.
pub record Passed (is_http10 : Bool) (h : Head) (bytes : Bytes) (last : Head) : Type 0 where
  pub lines : List (Bytes × Bytes)
  pub behind : Bytes
  pub before_end : Head
  pub reads : Reads is_http10 h lines before_end
  pub ended : last ≡ record before_end { terminated = true }
  pub whole : bytes ≡ print_lines lines ++ (codes "\r\n" ++ behind)

module _ (is_http10 : Bool) where
  pub no_fuel : (h : Head) (bytes : Bytes) → head_lines zero is_http10 h bytes ≡ h
  unfolding head_lines
  no_fuel h bytes = refl

  pub at_end : (f : ℕ) (h : Head) → head_lines f is_http10 h [] ≡ h
  unfolding head_lines
  at_end zero h = refl
  at_end (suc f) h = refl

  pub stopped_line :
      (f : ℕ) (h : Head) (b : ℕ) (bs : Bytes)
      → h.violation ≡ false
      → (b == b'\r') ≡ false
      → split_line (b ∷ bs) ≡ none
      → head_lines (suc f) is_http10 h (b ∷ bs)
        ≡ record h { violation = true; pos = h.pos + run tchar (b ∷ bs) }
  unfolding head_lines
  stopped_line f h b bs free other e = simp (free, other, e)

  pub next_line :
      (f : ℕ) (h : Head) (b : ℕ) (bs name v rest : Bytes)
      → h.violation ≡ false
      → (b == b'\r') ≡ false
      → split_line (b ∷ bs) ≡ some (name, v, rest)
      → head_lines (suc f) is_http10 h (b ∷ bs)
        ≡ head_lines f is_http10 (header_line is_http10 name v h) rest
  unfolding head_lines
  next_line f h b bs name v rest free other e = simp (free, other, e)

  pub refused :
      (f : ℕ) (h : Head) (bytes : Bytes) → h.violation ≡ true → head_lines f is_http10 h bytes ≡ h
  unfolding head_lines
  refused zero h bytes e = refl
  refused (suc f) h [] e = refl
  refused (suc f) h (b ∷ bs) e = simp e

  pub blank_line :
      (f : ℕ) (h : Head) (b : ℕ) (bs : Bytes)
      → h.violation ≡ false
      → (b == b'\r') ≡ true
      → head_lines (suc f) is_http10 h (b ∷ bs)
        ≡ record h { terminated = is_some (strip_prefix (codes "\n") bs) }
  unfolding head_lines
  blank_line f h b bs free e = simp (free, e)

  -- A unit of fuel for each byte is enough for the pass over the header lines: more changes nothing.
  pub head_lines-fuel :
      (f g : ℕ) (h : Head) (bytes : Bytes)
      → length bytes ≤ f
      → length bytes ≤ g
      → head_lines f is_http10 h bytes ≡ head_lines g is_http10 h bytes
  head_lines-fuel f g h [] p q = at_end f h ∙ sym (at_end g h)
  head_lines-fuel zero g h (b ∷ bs) p q = absurd (omega arith)
  head_lines-fuel (suc f) zero h (b ∷ bs) p q = absurd (omega arith)
  head_lines-fuel (suc f) (suc g) h (b ∷ bs) p q = elim (Bool-cases h.violation) [
    | inl bad ↦ refused (suc f) h (b ∷ bs) bad ∙ sym (refused (suc g) h (b ∷ bs) bad)
    | inr free ↦ elim (Bool-cases (b == b'\r')) [
      | inl cr ↦ blank_line f h b bs free cr ∙ sym (blank_line g h b bs free cr)
      | inr other ↦ elim (Option-cases (split_line (b ∷ bs))) [
        | inl none_left ↦
            stopped_line f h b bs free other none_left
            ∙ sym (stopped_line g h b bs free other none_left)
        | inr ((name, v, rest), e) ↦
            let shorter = split_line-length (b ∷ bs) name v rest e in
            next_line f h b bs name v rest free other e
            ∙ (head_lines-fuel f g (header_line is_http10 name v h) rest (omega (arith, shorter))
                  (omega (arith, shorter))
                ∙ sym (next_line g h b bs name v rest free other e))
      ]
    ]
  ]
