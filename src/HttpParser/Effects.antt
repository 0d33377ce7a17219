-- ===== src/HttpParser/Effects.antt =====
-- What one header line changes in the pass of `extract_routing_info` of src/proxy/http_parser.rs.
use mathlib.Core.Bool.{true≢false}
use portail.Prelude.{
  ℕ, ◌+◌, ◌≡◌, refl, ap, sym, ◌∙◌, arith, Bool, true, false, Option, none, some, List, [], ◌∷◌, inl,
  inr, if◌then◌else◌, Bool-cases, Option-cases, Bytes, codes, eq_ignore_case, trim, split, take,
  is_some,
}
use portail.HttpParser.Scan.{split_host, parse_digits}
use portail.HttpParser.Head.{
  Head, Field, LineKind, keep, strip, upgrade, host_line, host_found, length_found,
  content_length_line, transfer_encoding_line, upgrade_line, expect_line, connection_token,
  connection_tokens, apply_field, place, header_line, field_of, line_length, refuse,
  transfer_encoding, upgrade_field, connection, expect, stripped, other,
}

-- What frames and routes the message is as before.
pub record Kept (h h' : Head) : Type 0 where
  pub pos : h'.pos ≡ h.pos
  pub host : h'.host ≡ h.host
  pub content_length : h'.content_length ≡ h.content_length
  pub is_chunked : h'.is_chunked ≡ h.is_chunked
  pub terminated : h'.terminated ≡ h.terminated

Kept-refl : (h : Head) → Kept h h
Kept-refl h = record {
  pos = refl;
  host = refl;
  content_length = refl;
  is_chunked = refl;
  terminated = refl;
}

Kept-trans : {h h' h'' : Head} → Kept h h' → Kept h' h'' → Kept h h''
Kept-trans k k' = record {
  pos = k'.pos ∙ k.pos;
  host = k'.host ∙ k.host;
  content_length = k'.content_length ∙ k.content_length;
  is_chunked = k'.is_chunked ∙ k.is_chunked;
  terminated = k'.terminated ∙ k.terminated;
}

connection_token-Kept : (h : Head) (token : Bytes) → Kept h (connection_token h token)
unfolding connection_token
connection_token-Kept h token = ground arith

connection_tokens-Kept : (h : Head) (tokens : List Bytes) → Kept h (connection_tokens h tokens)
unfolding connection_tokens
connection_tokens-Kept h [] = Kept-refl h
connection_tokens-Kept h (token ∷ tokens) =
    Kept-trans (connection_token-Kept h (trim token))
      (connection_tokens-Kept (connection_token h (trim token)) tokens)

upgrade_line-Kept : (value : Bytes) (h : Head) → Kept h (upgrade_line value h).0
unfolding upgrade_line
upgrade_line-Kept value h = ground arith

expect_line-Kept : (value : Bytes) (h : Head) → Kept h (expect_line value h)
unfolding expect_line
expect_line-Kept value h = ground arith

place-Kept : (kind : LineKind) (start end : ℕ) (h : Head) → Kept h (place kind start end h)
unfolding place
place-Kept keep start end h = Kept-refl h
place-Kept strip start end h = record {
  pos = refl;
  host = refl;
  content_length = refl;
  is_chunked = refl;
  terminated = refl;
}
place-Kept upgrade start end h = record {
  pos = refl;
  host = refl;
  content_length = refl;
  is_chunked = refl;
  terminated = refl;
}

place-violation :
    (kind : LineKind) (start end : ℕ) (h : Head) → (place kind start end h).violation ≡ h.violation
unfolding place
place-violation keep start end h = refl
place-violation strip start end h = refl
place-violation upgrade start end h = refl

-- What a line that is not refused says of the framing and the host, by its field.
abbrev pub Effect : Bool → Field → Bytes → Head → Head → Type 0
Effect is_http10 Field.host v h h' =
    ((n : ℕ) × (split_host (trim v) ≡ some n) × (h'.host ≡ some (take n (trim v))))
    × (h.host ≡ none)
    × (h'.content_length ≡ h.content_length)
    × (h'.is_chunked ≡ h.is_chunked)
Effect is_http10 Field.content_length v h h' =
    ((n : ℕ) × (parse_digits (trim v) ≡ some n) × (h'.content_length ≡ some n))
    × (h.content_length ≡ none)
    × (h'.host ≡ h.host)
    × (h'.is_chunked ≡ h.is_chunked)
Effect is_http10 transfer_encoding v h h' =
    ((eq_ignore_case (trim v) (codes "chunked") ≡ true) × (is_http10 ≡ false))
    × ((h.is_chunked ≡ false) × (h'.is_chunked ≡ true))
    × (h'.host ≡ h.host)
    × (h'.content_length ≡ h.content_length)
Effect is_http10 _ v h h' =
    ℕ × (h'.is_chunked ≡ h.is_chunked) × (h'.host ≡ h.host) × (h'.content_length ≡ h.content_length)

-- The place in the head moves on, and its end is not seen, whatever the field.
abbrev pub Moves : Head → Head → Type 0
Moves h h' = (h'.pos ≡ h.pos) × (h'.terminated ≡ h.terminated)

none_of : {A : Type 0} (o : Option A) → is_some o ≡ false → o ≡ none
none_of none e = refl
none_of (some x) e = cc

module _ (v : Bytes) (h : Head) where
  host_line-bad : split_host (trim v) ≡ none → host_line v h ≡ refuse h
  unfolding host_line
  host_line-bad e = ap (host_found (trim v) h) e

  host_line-again :
      (n : ℕ) → split_host (trim v) ≡ some n → is_some h.host ≡ true → host_line v h ≡ refuse h
  unfolding host_line
  host_line-again n e b = ap (host_found (trim v) h) e ∙ rw b refl

  host_line-new :
      (n : ℕ)
      → split_host (trim v) ≡ some n
      → is_some h.host ≡ false
      → host_line v h ≡ record h { host = some (take n (trim v)) }
  unfolding host_line
  host_line-new n e b = ap (host_found (trim v) h) e ∙ rw b refl

  length_line-bad : parse_digits (trim v) ≡ none → content_length_line v h ≡ refuse h
  unfolding content_length_line
  length_line-bad e = ap (length_found h) e

  length_line-again :
      (n : ℕ)
      → parse_digits (trim v) ≡ some n
      → is_some h.content_length ≡ true
      → content_length_line v h ≡ refuse h
  unfolding content_length_line
  length_line-again n e b = ap (length_found h) e ∙ rw b refl

  length_line-new :
      (n : ℕ)
      → parse_digits (trim v) ≡ some n
      → is_some h.content_length ≡ false
      → content_length_line v h ≡ record h { content_length = some n }
  unfolding content_length_line
  length_line-new n e b = ap (length_found h) e ∙ rw b refl

  refused_violates : {h' : Head} → h' ≡ refuse h → h'.violation ≡ false → ⊥
  refused_violates e free = true≢false (sym (ap (λ (x : Head). x.violation) e) ∙ free)

  host_line-Effect :
      (b : Bool)
      → (host_line v h).violation ≡ false
      → Moves h (host_line v h) × Effect b Field.host v h (host_line v h)
  host_line-Effect b free = elim (Option-cases (split_host (trim v))) [
    | inl bad ↦ absurd (refused_violates (host_line-bad bad) free)
    | inr (n, e) ↦ elim (Bool-cases (is_some h.host)) [
      | inl again ↦ absurd (refused_violates (host_line-again n e again) free)
      | inr new ↦
          rw (host_line-new n e new) ((refl, refl), ((n, e, refl), none_of h.host new, refl, refl))
    ]
  ]

  length_line-Effect :
      (b : Bool)
      → (content_length_line v h).violation ≡ false
      → Moves h (content_length_line v h)
        × Effect b Field.content_length v h (content_length_line v h)
  length_line-Effect b free = elim (Option-cases (parse_digits (trim v))) [
    | inl bad ↦ absurd (refused_violates (length_line-bad bad) free)
    | inr (n, e) ↦ elim (Bool-cases (is_some h.content_length)) [
      | inl again ↦ absurd (refused_violates (length_line-again n e again) free)
      | inr new ↦
          rw (length_line-new n e new)
            ((refl, refl), ((n, e, refl), none_of h.content_length new, refl, refl))
    ]
  ]

  encoding_line-Effect :
      (b : Bool)
      → (transfer_encoding_line b v h).violation ≡ false
      → Moves h (transfer_encoding_line b v h)
        × Effect b transfer_encoding v h (transfer_encoding_line b v h)
  unfolding transfer_encoding_line
  encoding_line-Effect b free = ground arith

  Kept-Effect :
      {h' : Head} (b : Bool)
      → Kept h h'
      → Moves h h'
        × (ℕ
            × (h'.is_chunked ≡ h.is_chunked)
            × (h'.host ≡ h.host)
            × (h'.content_length ≡ h.content_length))
  Kept-Effect b k = ((k.pos, k.terminated), (0, k.is_chunked, k.host, k.content_length))

  apply_field-Effect :
      (b : Bool) (f : Field)
      → (apply_field b f v h).0.violation ≡ false
      → Moves h (apply_field b f v h).0 × Effect b f v h (apply_field b f v h).0
  unfolding apply_field
  apply_field-Effect b Field.host free = host_line-Effect b free
  apply_field-Effect b Field.content_length free = length_line-Effect b free
  apply_field-Effect b transfer_encoding free = encoding_line-Effect b free
  apply_field-Effect b upgrade_field free = Kept-Effect b (upgrade_line-Kept v h)
  apply_field-Effect b connection free = Kept-Effect b (connection_tokens-Kept h (split b',' v))
  apply_field-Effect b expect free = Kept-Effect b (expect_line-Kept v h)
  apply_field-Effect b stripped free = Kept-Effect b (Kept-refl h)
  apply_field-Effect b other free = Kept-Effect b (Kept-refl h)

-- An effect does not look at where the line starts, nor at its span.
Effect-transfer :
    (b : Bool) (f : Field) (v : Bytes) (h h' h'' : Head) (end : ℕ)
    → Kept h' h''
    → Effect b f v (record h { pos = end }) h'
    → Effect b f v h h''
Effect-transfer b Field.host v h h' h'' end k ((n, e, s), a, c, d) =
    ((n, e, k.host ∙ s), a, k.content_length ∙ c, k.is_chunked ∙ d)
Effect-transfer b Field.content_length v h h' h'' end k ((n, e, s), a, c, d) =
    ((n, e, k.content_length ∙ s), a, k.host ∙ c, k.is_chunked ∙ d)
Effect-transfer b transfer_encoding v h h' h'' end k (e, (a, s), c, d) =
    (e, (a, k.is_chunked ∙ s), k.host ∙ c, k.content_length ∙ d)
Effect-transfer b upgrade_field v h h' h'' end k (n, a, c, d) =
    (n, k.is_chunked ∙ a, k.host ∙ c, k.content_length ∙ d)
Effect-transfer b connection v h h' h'' end k (n, a, c, d) =
    (n, k.is_chunked ∙ a, k.host ∙ c, k.content_length ∙ d)
Effect-transfer b expect v h h' h'' end k (n, a, c, d) =
    (n, k.is_chunked ∙ a, k.host ∙ c, k.content_length ∙ d)
Effect-transfer b stripped v h h' h'' end k (n, a, c, d) =
    (n, k.is_chunked ∙ a, k.host ∙ c, k.content_length ∙ d)
Effect-transfer b other v h h' h'' end k (n, a, c, d) =
    (n, k.is_chunked ∙ a, k.host ∙ c, k.content_length ∙ d)

stays_refused :
    (h h' : Head) → h.violation ≡ true → (if h.violation then h else h').violation ≡ true
stays_refused h h' e = ground (arith, e)

-- A line that is not refused moves on by its length, does not end the head, and has its field's effect.
pub header_line-Effect :
    (b : Bool) (name v : Bytes) (h : Head)
    → (header_line b name v h).violation ≡ false
    → ((header_line b name v h).pos ≡ h.pos + line_length name v)
      × ((header_line b name v h).terminated ≡ h.terminated)
      × Effect b (field_of name) v h (header_line b name v h)
unfolding header_line
header_line-Effect b name v h free =
    let end = h.pos + line_length name v in
    let moved : Head = record h { pos = end } in
    let (h', kind) = apply_field b (field_of name) v moved in
    elim (Bool-cases h'.violation) [
      | inl bad ↦ absurd (true≢false (sym (stays_refused h' (place kind h.pos end h') bad) ∙ free))
      | inr fine ↦
          let ((p, t), e) = apply_field-Effect v moved b (field_of name) fine in
          let k = place-Kept kind h.pos end h' in
          rw fine (
            k.pos ∙ p,
            k.terminated ∙ t,
            Effect-transfer b (field_of name) v h h' (place kind h.pos end h') end k e,
          )
    ]
