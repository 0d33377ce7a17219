-- ===== src/HttpParser/Request.antt =====
-- `extract_routing_info` of src/proxy/http_parser.rs as a whole: the request line, the target's form, the header lines
-- and the checks at the end.
use portail.Prelude.{
  ℕ, ◌+◌, Bool, true, false, ◌&&◌, ◌||◌, not, Option, none, some, [], ltb, ◌==◌, if◌then◌else◌,
  ◌>>=◌, Bytes, codes, bytes_eq, eq_ignore_case, strip_prefix, is_some, is_empty, length, take,
  drop, split_once, is_utf8, get_or_else, is_some_and,
}
use portail.HttpParser.Class.{tchar}
use portail.HttpParser.Scan.{
  run, target_end, past_query_backslashes, split_host, absolute_scheme_len, before,
}
use portail.HttpParser.Head.{Head, StripSpans, first_head, head_lines}

pub data HeadError : Type 0 where
  malformed_line non_utf8_line missing_host non_ascii_host : HeadError

pub data Parsed (A : Type 0) : Type 0 where
  ok : A → Parsed A
  err : HeadError → Parsed A

pub record RequestLine : Type 0 where
  pub method : Bytes
  pub target : Bytes
  pub is_http10 : Bool
  pub rest : Bytes

pub record HttpRequestInfo : Type 0 where
  pub method : Bytes
  pub host : Bytes
  pub path : Bytes
  pub query_string : Bytes
  pub keepalive : Bool
  pub header_data : Bytes
  pub head_len : ℕ
  pub content_length : Option ℕ
  pub is_chunked : Bool
  pub is_upgrade : Bool
  pub header_violation : Bool
  pub strip_spans : StripSpans
  pub upgrade_span : Option (ℕ × ℕ)
  pub expect_continue : Bool

-- The length of the target that opens these bytes.
unfoldable pub target_length : Bytes → ℕ
target_length v =
    let n = target_end v in
    if is_some (strip_prefix (codes "\\") (drop n v)) then past_query_backslashes v n else n

abbrev pub version_of : (http11 http10 : Option Bytes) → Option (Bool × Bytes)
version_of (some rest) http10 = some (false, rest)
version_of none (some rest) = some (true, rest)
version_of none none = none

unfoldable pub version : Bytes → Option (Bool × Bytes)
version v =
    version_of (strip_prefix (codes "HTTP/1.1\r\n") v) (strip_prefix (codes "HTTP/1.0\r\n") v)

-- `method SP request-target SP HTTP-version CRLF`.
abbrev pub request_line_of : (n : ℕ) (bytes t : Bytes) → Bool × Bytes → RequestLine
request_line_of n bytes t w = record {
  method = take n bytes;
  target = take (target_length t) t;
  is_http10 = w.0;
  rest = w.1;
}

unfoldable pub request_line : Bytes → Option RequestLine
request_line bytes =
    let n = run tchar bytes in
    if n == 0
    then none
    else strip_prefix (codes " ") (drop n bytes) >>= λ t.
        if target_length t == 0
        then none
        else strip_prefix (codes " ") (drop (target_length t) t) >>= λ v.
            version v >>= λ w. some (request_line_of n bytes t w)

-- What the target's form comes to: a violation, the host that it names, and the path.
pub record Target : Type 0 where
  pub violation : Bool
  pub target_host : Option Bytes
  pub path : Bytes

unfoldable pub absolute_form : Bytes → Target
absolute_form rest =
    let authority = before b'/' rest in
    let path =
      if ltb (length authority) (length rest) then drop (length authority) rest else codes "/" in
    elim (split_host authority) [
      | none ↦ record { violation = true; target_host = none; path = path }
      | some n ↦
          if n == 0
          then record { violation = true; target_host = none; path = path }
          else record { violation = false; target_host = some (take n authority); path = path }
    ]

unfoldable pub target_form : (method target : Bytes) → Target
target_form method target =
    if bytes_eq method (codes "CONNECT")
    then record { violation = true; target_host = none; path = target }
    else if is_some (strip_prefix (codes "/") target)
    then record { violation = false; target_host = none; path = target }
    else if bytes_eq target (codes "*")
    then record {
      violation = not (bytes_eq method (codes "OPTIONS"));
      target_host = none;
      path = target;
    }
    else elim (absolute_scheme_len target) [
      | none ↦ record { violation = true; target_host = none; path = target }
      | some n ↦ absolute_form (drop n target)
    ]

-- The host that the request is routed by.
unfoldable pub routed_host :
    Bool → (violation : Bool) → (host target_host : Option Bytes) → Option Bytes
routed_host is_http10 violation (some h) target_host = some h
routed_host true violation none target_host = some (get_or_else target_host [])
routed_host false true none target_host = some []
routed_host false false none target_host = none

unfoldable pub path_and_query : Bytes → Bytes × Bytes
path_and_query path = elim (split_once b'?' path) [ none ↦ (path, []) | some p ↦ p ]

-- The violations found once the head is read.
unfoldable pub last_checks : Bool → Target → Head → Bytes → Bool
last_checks is_http10 t h host =
    h.violation
    || not h.terminated
    || is_some_and t.target_host (λ u. not (eq_ignore_case u host))
    || (is_empty host && not is_http10)
    || (is_some h.content_length && h.is_chunked)

unfoldable pub info_of : RequestLine → Target → Head → (host header_data : Bytes) → HttpRequestInfo
info_of l t h host header_data = record {
  method = l.method;
  host = host;
  path = (path_and_query t.path).0;
  query_string = (path_and_query t.path).1;
  keepalive = get_or_else h.explicit_keepalive (not l.is_http10);
  header_data = header_data;
  head_len = h.pos + 2;
  content_length = h.content_length;
  is_chunked = h.is_chunked;
  is_upgrade = h.has_upgrade_header && h.connection_has_upgrade && not h.offers_h2c_upgrade;
  header_violation = last_checks l.is_http10 t h host;
  strip_spans = h.strip_spans;
  upgrade_span = h.upgrade_span;
  expect_continue = h.expect_continue;
}

-- `target_end + 11` of the source: the bytes of the request line.
abbrev pub line_end : RequestLine → ℕ
line_end l = length l.method + 1 + length l.target + 11

abbrev pub head_of : RequestLine → Target → Head
head_of l t = head_lines (length l.rest) l.is_http10 (first_head (line_end l) t.violation) l.rest

unfoldable pub with_host :
    RequestLine → Target → Head → Option Bytes → (header_data : Bytes) → Parsed HttpRequestInfo
with_host l t h none header_data = err missing_host
with_host l t h (some host) header_data =
    if is_utf8 host then ok (info_of l t h host header_data) else err non_ascii_host

unfoldable pub read_head : Bytes → RequestLine → Parsed HttpRequestInfo
read_head bytes l =
    let t = target_form l.method l.target in
    let h = head_of l t in
    with_host l t h (routed_host l.is_http10 (h.violation || not h.terminated) h.host t.target_host)
      (drop (line_end l) (take h.pos bytes))

unfoldable pub extract_routing_info : Bytes → Parsed HttpRequestInfo
extract_routing_info bytes = elim (request_line bytes) [
  | none ↦ err malformed_line
  | some l ↦
      if is_utf8 (take (length l.method + 1 + length l.target) bytes)
      then read_head bytes l
      else err non_utf8_line
]
