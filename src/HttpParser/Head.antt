-- ===== src/HttpParser/Head.antt =====
-- `extract_routing_info` of src/proxy/http_parser.rs, a part of its pass at a time. The bytes of the head are taken from
-- the front; `pos` counts those taken, as the source's index does.
use portail.Prelude.{
  ℕ, zero, suc, ◌+◌, ◌%◌, ◌^◌, Bool, true, false, ◌&&◌, ◌||◌, not, Option, none, some, List, [],
  ◌∷◌, ◌++◌, ltb, ◌==◌, if◌then◌else◌, ◌>>=◌, Bytes, codes, eq_ignore_case, strip_prefix, is_some,
  is_empty, length, take, drop, trim, split,
}
use portail.HttpParser.Class.{tchar}
use portail.HttpParser.Scan.{
  run, field_value_end, is_forwarding_claim, split_host, parse_digits, offers_h2c,
}

abbrev pub max_strip_spans : ℕ
max_strip_spans = 8

pub record StripSpans : Type 0 where
  pub spans : List (ℕ × ℕ)
  pub needs_slow_path : Bool

-- A span as two `u32`.
abbrev pub span : ℕ → ℕ → ℕ × ℕ
span start end = (start % 2 ^ 32, end % 2 ^ 32)

unfoldable pub push_span : StripSpans → (start end : ℕ) → StripSpans
push_span s start end =
    if ltb (length s.spans) max_strip_spans
    then record s { spans = s.spans ++ span start end ∷ [] }
    else record s { needs_slow_path = true }

-- The locals of the pass over the header lines.
pub record Head : Type 0 where
  pub pos : ℕ
  pub host : Option Bytes
  pub explicit_keepalive : Option Bool
  pub content_length : Option ℕ
  pub is_chunked : Bool
  pub has_upgrade_header : Bool
  pub offers_h2c_upgrade : Bool
  pub connection_has_upgrade : Bool
  pub strip_spans : StripSpans
  pub upgrade_span : Option (ℕ × ℕ)
  pub expect_continue : Bool
  pub violation : Bool
  pub terminated : Bool

unfoldable pub first_head : (pos : ℕ) (violation : Bool) → Head
first_head pos violation = record {
  pos = pos;
  host = none;
  explicit_keepalive = none;
  content_length = none;
  is_chunked = false;
  has_upgrade_header = false;
  offers_h2c_upgrade = false;
  connection_has_upgrade = false;
  strip_spans = record { spans = []; needs_slow_path = false };
  upgrade_span = none;
  expect_continue = false;
  violation = violation;
  terminated = false;
}

pub data LineKind : Type 0 where
  keep strip upgrade : LineKind

abbrev pub refuse : Head → Head
refuse h = record h { violation = true }

abbrev pub slow : Head → Bool → Head
slow h b = record h {
  strip_spans = record h.strip_spans { needs_slow_path = h.strip_spans.needs_slow_path || b };
}

-- One header of each name that the pass looks into.
abbrev pub host_found : Bytes → Head → Option ℕ → Head
host_found v h none = refuse h
host_found v h (some n) = if is_some h.host then refuse h else record h { host = some (take n v) }

unfoldable pub host_line : Bytes → Head → Head
host_line value h = host_found (trim value) h (split_host (trim value))

abbrev pub length_found : Head → Option ℕ → Head
length_found h none = refuse h
length_found h (some n) =
    if is_some h.content_length then refuse h else record h { content_length = some n }

unfoldable pub content_length_line : Bytes → Head → Head
content_length_line value h = length_found h (parse_digits (trim value))

unfoldable pub transfer_encoding_line : Bool → Bytes → Head → Head
transfer_encoding_line is_http10 value h =
    if is_http10 || h.is_chunked || not (eq_ignore_case (trim value) (codes "chunked"))
    then refuse h
    else record h { is_chunked = true }

unfoldable pub connection_token : Head → Bytes → Head
connection_token h token =
    if eq_ignore_case token (codes "close")
    then record h { explicit_keepalive = some false }
    else if eq_ignore_case token (codes "keep-alive")
    then record h { explicit_keepalive = some true }
    else if eq_ignore_case token (codes "upgrade")
    then record h { connection_has_upgrade = true }
    else if eq_ignore_case token (codes "content-length")
        || eq_ignore_case token (codes "transfer-encoding")
        || eq_ignore_case token (codes "host")
    then refuse h
    else if not (is_empty token) && not (eq_ignore_case token (codes "http2-settings"))
    then slow h true
    else h

unfoldable pub connection_tokens : Head → List Bytes → Head
connection_tokens h [] = h
connection_tokens h (token ∷ tokens) = connection_tokens (connection_token h (trim token)) tokens

unfoldable pub is_stripped : Bytes → Bool
is_stripped name =
    eq_ignore_case name (codes "keep-alive")
    || eq_ignore_case name (codes "proxy-connection")
    || eq_ignore_case name (codes "te")
    || eq_ignore_case name (codes "trailer")
    || eq_ignore_case name (codes "http2-settings")
    || is_forwarding_claim name

unfoldable pub upgrade_line : Bytes → Head → Head × LineKind
upgrade_line value h =
    if offers_h2c value
    then (record h { offers_h2c_upgrade = true }, strip)
    else (record (slow h h.has_upgrade_header) { has_upgrade_header = true }, upgrade)

unfoldable pub expect_line : Bytes → Head → Head
expect_line value h =
    if eq_ignore_case (trim value) (codes "100-continue")
    then record h { expect_continue = true }
    else h

-- The names that the pass tells apart.
pub data Field : Type 0 where
  host content_length transfer_encoding upgrade_field connection expect stripped other : Field

-- The dispatch on the name; the length and the first letter that the source tests beforehand only spare comparisons.
unfoldable pub field_of : Bytes → Field
field_of name =
    if eq_ignore_case name (codes "host")
    then Field.host
    else if eq_ignore_case name (codes "content-length")
    then Field.content_length
    else if eq_ignore_case name (codes "transfer-encoding")
    then transfer_encoding
    else if eq_ignore_case name (codes "upgrade")
    then upgrade_field
    else if eq_ignore_case name (codes "connection")
    then connection
    else if eq_ignore_case name (codes "expect")
    then expect
    else if is_stripped name
    then stripped
    else other

unfoldable pub apply_field : Bool → Field → Bytes → Head → Head × LineKind
apply_field is_http10 Field.host value h = (host_line value h, keep)
apply_field is_http10 Field.content_length value h = (content_length_line value h, keep)
apply_field is_http10 transfer_encoding value h = (transfer_encoding_line is_http10 value h, keep)
apply_field is_http10 upgrade_field value h = upgrade_line value h
apply_field is_http10 connection value h = (connection_tokens h (split b',' value), strip)
apply_field is_http10 expect value h = (expect_line value h, strip)
apply_field is_http10 stripped value h = (h, strip)
apply_field is_http10 other value h = (h, keep)

-- Notes the span of a line that is not forwarded as it stands.
unfoldable pub place : LineKind → (start end : ℕ) → Head → Head
place keep start end h = h
place strip start end h = record h { strip_spans = push_span h.strip_spans start end }
place upgrade start end h = record h { upgrade_span = some (span start end) }

abbrev pub line_length : Bytes → Bytes → ℕ
line_length name value = length name + 1 + (length value + 2)

-- One whole header line, from its name and value on.
unfoldable pub header_line : Bool → (name value : Bytes) → Head → Head
header_line is_http10 name value h =
    let end = h.pos + line_length name value in
    let (h', kind) = apply_field is_http10 (field_of name) value (record h { pos = end }) in
    if h'.violation then h' else place kind h.pos end h'

-- A line's name, its value, and the bytes behind its CRLF.
unfoldable pub split_line : Bytes → Option (Bytes × Bytes × Bytes)
split_line line =
    let n = run tchar line in
    if n == 0
    then none
    else strip_prefix (codes ":") (drop n line) >>= λ v.
        strip_prefix (codes "\r\n") (drop (field_value_end v) v) >>= λ rest.
        some (take n line, take (field_value_end v) v, rest)

-- The pass over the lines, with a unit of fuel for each byte.
unfoldable pub head_lines : ℕ → Bool → Head → Bytes → Head
head_lines zero is_http10 h bytes = h
head_lines (suc f) is_http10 h [] = h
head_lines (suc f) is_http10 h (b ∷ bs) =
    if h.violation
    then h
    else if b == b'\r'
    then record h { terminated = is_some (strip_prefix (codes "\n") bs) }
    else elim (split_line (b ∷ bs)) [
      | none ↦ record h { violation = true; pos = h.pos + run tchar (b ∷ bs) }
      | some (name, value, rest) ↦ head_lines f is_http10 (header_line is_http10 name value h) rest
    ]
