-- ===== src/HttpParser/Once.antt =====
-- Host, Content-Length and Transfer-Encoding in the head that `extract_routing_info` of src/proxy/http_parser.rs reads.
use mathlib.Core.Bool.{true≢false}
use mathlib.Core.Path.{subst}
use portail.Prelude.{
  ℕ, ◌≡◌, ◌≢◌, refl, ap, sym, ◌∙◌, arith, Bool, true, false, Option, none, some, List, [], ◌∷◌, inl,
  inr, ◌⊎◌, if◌then◌else◌, Bool-cases, Bytes, codes, eq_ignore_case, bytes_eq, bytes_eq_iff,
  to_lower, trim, take,
}
use portail.HttpParser.Scan.{split_host, parse_digits}
use portail.HttpParser.Head.{
  Head, Field, header_line, field_of, transfer_encoding, upgrade_field, connection, expect,
  stripped, other,
}
use portail.HttpParser.Lines.{Reads}
use portail.HttpParser.Effects.{Effect, header_line-Effect}
use portail.HttpParser.Framing.{Once, Reads-Since, values}

lower_eq : (s t : Bytes) → eq_ignore_case s t ≡ true → to_lower s ≡ to_lower t
unfolding eq_ignore_case
lower_eq s t e = (bytes_eq_iff (to_lower s) (to_lower t)).0 e

-- A name that spells one literal spells no other.
apart :
    (name p q : Bytes)
    → bytes_eq (to_lower p) (to_lower q) ≡ false
    → eq_ignore_case name p ≡ true
    → eq_ignore_case name q ≡ false
apart name p q differ e = elim (Bool-cases (eq_ignore_case name q)) [
  | inl e' ↦ absurd (
      true≢false (
        sym (
          (bytes_eq_iff (to_lower p) (to_lower q)).1 (sym (lower_eq name p e) ∙ lower_eq name q e'))
        ∙ differ))
  | inr e' ↦ e'
]

module _ (name : Bytes) where
  field_of-host : eq_ignore_case name (codes "host") ≡ true → field_of name ≡ Field.host
  unfolding field_of
  field_of-host e = rw e refl

  field_of-length :
      eq_ignore_case name (codes "content-length") ≡ true → field_of name ≡ Field.content_length
  unfolding field_of bytes_eq
  field_of-length e = rw (e, apart name (codes "content-length") (codes "host") refl e) refl

  field_of-encoding :
      eq_ignore_case name (codes "transfer-encoding") ≡ true → field_of name ≡ transfer_encoding
  unfolding field_of bytes_eq
  field_of-encoding e =
      rw
        (
          e,
          apart name (codes "transfer-encoding") (codes "host") refl e,
          apart name (codes "transfer-encoding") (codes "content-length") refl e,
        )
        refl

  of_host : field_of name ≡ Field.host → eq_ignore_case name (codes "host") ≡ true
  unfolding field_of
  of_host e = ground arith

  of_length :
      field_of name ≡ Field.content_length → eq_ignore_case name (codes "content-length") ≡ true
  unfolding field_of
  of_length e = ground arith

  of_encoding :
      field_of name ≡ transfer_encoding → eq_ignore_case name (codes "transfer-encoding") ≡ true
  unfolding field_of
  of_encoding e = ground arith

-- A line of another field leaves what a field found.
host_kept :
    (b : Bool) (f : Field) (v : Bytes) (h h' : Head)
    → f ≢ Field.host
    → Effect b f v h h'
    → h'.host ≡ h.host
host_kept b Field.host v h h' n e = absurd (n refl)
host_kept b Field.content_length v h h' n e = e.2
host_kept b transfer_encoding v h h' n e = e.2
host_kept b upgrade_field v h h' n e = e.2
host_kept b connection v h h' n e = e.2
host_kept b expect v h h' n e = e.2
host_kept b stripped v h h' n e = e.2
host_kept b other v h h' n e = e.2

length_kept :
    (b : Bool) (f : Field) (v : Bytes) (h h' : Head)
    → f ≢ Field.content_length
    → Effect b f v h h'
    → h'.content_length ≡ h.content_length
length_kept b Field.host v h h' n e = e.2
length_kept b Field.content_length v h h' n e = absurd (n refl)
length_kept b transfer_encoding v h h' n e = e.3
length_kept b upgrade_field v h h' n e = e.3
length_kept b connection v h h' n e = e.3
length_kept b expect v h h' n e = e.3
length_kept b stripped v h h' n e = e.3
length_kept b other v h h' n e = e.3

chunked_kept :
    (b : Bool) (f : Field) (v : Bytes) (h h' : Head)
    → f ≢ transfer_encoding
    → Effect b f v h h'
    → h'.is_chunked ≡ h.is_chunked
chunked_kept b Field.host v h h' n e = e.3
chunked_kept b Field.content_length v h h' n e = e.3
chunked_kept b transfer_encoding v h h' n e = absurd (n refl)
chunked_kept b upgrade_field v h h' n e = e.1
chunked_kept b connection v h h' n e = e.1
chunked_kept b expect v h h' n e = e.1
chunked_kept b stripped v h h' n e = e.1
chunked_kept b other v h h' n e = e.1

-- What a value says of the host, of the length, and of the coding.
abbrev pub SaysHost : Bytes → Bytes → Type 0
SaysHost v host = (n : ℕ) × (split_host (trim v) ≡ some n) × (host ≡ take n (trim v))

abbrev pub SaysLength : Bytes → ℕ → Type 0
SaysLength v n = parse_digits (trim v) ≡ some n

abbrev pub SaysChunked : Bool → Bytes → ℕ → Type 0
SaysChunked is_http10 v _ = (eq_ignore_case (trim v) (codes "chunked") ≡ true) × (is_http10 ≡ false)

abbrev pub coding : Bool → Option ℕ
coding b = if b then some 0 else none

missed :
    {f : Field} (name lit : Bytes)
    → (field_of name ≡ f → eq_ignore_case name lit ≡ true)
    → eq_ignore_case name lit ≡ false
    → field_of name ≢ f
missed name lit back miss e = true≢false (sym (back e) ∙ miss)

module _ (b : Bool) (name v : Bytes) (h : Head)
    (free : (header_line b name v h).violation ≡ false) where
  Effect-of : (f : Field) → field_of name ≡ f → Effect b f v h (header_line b name v h)
  Effect-of f e =
      subst (λ g. Effect b g v h (header_line b name v h)) e (header_line-Effect b name v h free).2

  host_step :
      ((eq_ignore_case name (codes "host") ≡ true)
        × (h.host ≡ none)
        × ((a : Bytes) × SaysHost v a × ((header_line b name v h).host ≡ some a)))
      ⊎ ((eq_ignore_case name (codes "host") ≡ false) × ((header_line b name v h).host ≡ h.host))
  host_step = elim (Bool-cases (eq_ignore_case name (codes "host"))) [
    | inl hit ↦
        let ((n, e, s), fresh, _, _) = Effect-of Field.host (field_of-host name hit) in
        inl (hit, fresh, (take n (trim v), (n, e, refl), s))
    | inr miss ↦ inr (
      miss,
      host_kept b (field_of name) v h (header_line b name v h)
          (missed name (codes "host") (of_host name) miss) (Effect-of (field_of name) refl),
    )
  ]

  length_step :
      ((eq_ignore_case name (codes "content-length") ≡ true)
        × (h.content_length ≡ none)
        × ((a : ℕ) × SaysLength v a × ((header_line b name v h).content_length ≡ some a)))
      ⊎ ((eq_ignore_case name (codes "content-length") ≡ false)
          × ((header_line b name v h).content_length ≡ h.content_length))
  length_step = elim (Bool-cases (eq_ignore_case name (codes "content-length"))) [
    | inl hit ↦
        let ((n, e, s), fresh, _, _) = Effect-of Field.content_length (field_of-length name hit) in
        inl (hit, fresh, (n, e, s))
    | inr miss ↦ inr (
      miss,
      length_kept b (field_of name) v h (header_line b name v h)
          (missed name (codes "content-length") (of_length name) miss)
          (Effect-of (field_of name) refl),
    )
  ]

  chunked_step :
      ((eq_ignore_case name (codes "transfer-encoding") ≡ true)
        × (coding h.is_chunked ≡ none)
        × ((a : ℕ) × SaysChunked b v a × (coding (header_line b name v h).is_chunked ≡ some a)))
      ⊎ ((eq_ignore_case name (codes "transfer-encoding") ≡ false)
          × (coding (header_line b name v h).is_chunked ≡ coding h.is_chunked))
  chunked_step = elim (Bool-cases (eq_ignore_case name (codes "transfer-encoding"))) [
    | inl hit ↦
        let (says, (fresh, s), _, _) = Effect-of transfer_encoding (field_of-encoding name hit) in
        inl (hit, ap coding fresh, (0, says, ap coding s))
    | inr miss ↦ inr (
      miss,
      ap coding (
          chunked_kept b (field_of name) v h (header_line b name v h)
            (missed name (codes "transfer-encoding") (of_encoding name) miss)
            (Effect-of (field_of name) refl)),
    )
  ]

-- From a head where nothing was found.
from_unset :
    {A : Type 0} (name : Bytes) (Says : Bytes → A → Type 0) (ls : List (Bytes × Bytes))
    (before after : Option A)
    → before ≡ none
    → ((values name ls ≡ []) × (after ≡ before))
      ⊎ ((before ≡ none)
          × ((v : Bytes) × (a : A) × (values name ls ≡ v ∷ []) × Says v a × (after ≡ some a)))
    → Once name Says ls after
from_unset name Says ls before after unset (inl (no_line, same)) = inl (no_line, same ∙ unset)
from_unset name Says ls before after unset (inr (_, one)) = inr one

module _ (b : Bool) {h h' : Head} {ls : List (Bytes × Bytes)} (reads : Reads b h ls h') where
  pub host_Once : h.host ≡ none → Once (codes "host") SaysHost ls h'.host
  host_Once unset =
      from_unset (codes "host") SaysHost ls h.host h'.host unset
        (Reads-Since b (λ x. x.host) (codes "host") SaysHost (host_step b) reads)

  pub length_Once :
      h.content_length ≡ none → Once (codes "content-length") SaysLength ls h'.content_length
  length_Once unset =
      from_unset (codes "content-length") SaysLength ls h.content_length h'.content_length unset (
        Reads-Since b (λ x. x.content_length) (codes "content-length") SaysLength (length_step b)
          reads)

  pub chunked_Once :
      h.is_chunked ≡ false
      → Once (codes "transfer-encoding") (SaysChunked b) ls (coding h'.is_chunked)
  chunked_Once unset =
      from_unset (codes "transfer-encoding") (SaysChunked b) ls (coding h.is_chunked)
        (coding h'.is_chunked) (ap coding unset)
        (Reads-Since b (λ x. coding x.is_chunked) (codes "transfer-encoding") (SaysChunked b)
          (chunked_step b) reads)
