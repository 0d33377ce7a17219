-- ===== src/HttpParser/Accepted.antt =====
-- What a request is whose head `extract_routing_info` of src/proxy/http_parser.rs reads without a violation.
use mathlib.Core.List.{append_assoc}
use mathlib.Core.Bool.{true≢false}
use mathlib.Core.Option.{none-ne-some}
use mathlib.Core.Path.{subst, ◌≡⟨◌⟩◌, ◌∎}
use portail.Prelude.{
  ◌+◌, ◌≡◌, ◌≢◌, refl, ap, sym, ◌∙◌, arith, Bool, true, false, ◌||◌, not, Option, none, some, List,
  [], ◌∷◌, ◌++◌, inl, inr, ◌⊎◌, Option-cases, Bytes, codes, strip_prefix, strip_prefix-eq-some,
  is_some, is_empty, length, take, drop, length-append, All,
}
use portail.HttpParser.Class.{tchar}
use portail.HttpParser.Scan.{run, is_token}
use portail.HttpParser.Scan.Runs.{all-take-run}
use portail.HttpParser.Head.{Head, first_head}
use portail.HttpParser.Request.{
  HttpRequestInfo, RequestLine, Target, ok, request_line, version, version_of, request_line_of,
  target_length, target_form, extract_routing_info, read_head, with_host, routed_host, head_of,
  info_of, last_checks, line_end,
}
use portail.HttpParser.Lines.{
  print_line, print_lines, IsLine, Reads, done, line, Passed, length-print_line, cut,
  take-run_nonempty,
}
use portail.HttpParser.Effects.{header_line-Effect}
use portail.HttpParser.Framing.{Once, head_lines-Passed}
use portail.HttpParser.Once.{
  SaysHost, SaysLength, SaysChunked, coding, host_Once, length_Once, chunked_Once,
}

abbrev pub version_text : Bool → Bytes
version_text false = codes "HTTP/1.1\r\n"
version_text true = codes "HTTP/1.0\r\n"

-- The request line as its parts print it.
abbrev pub print_request_line : RequestLine → Bytes
print_request_line l =
    l.method ++ (codes " " ++ (l.target ++ (codes " " ++ version_text l.is_http10)))

version_of-some :
    (o p : Option Bytes) (rest : Bytes) (b : Bool)
    → version_of o p ≡ some (b, rest)
    → ((o ≡ some rest) × (b ≡ false)) ⊎ ((p ≡ some rest) × (b ≡ true))
version_of-some (some r) p rest b e = inl (ground (arith, e))
version_of-some none (some r) rest b e = inr (ground (arith, e))
version_of-some none none rest b e = absurd (none-ne-some (b, rest) e)

version-some : (v rest : Bytes) (b : Bool) → version v ≡ some (b, rest) → v ≡ version_text b ++ rest
unfolding version
version-some v rest b e = elim (version_of-some _ _ rest b e) [
  | inl (found, is_11) ↦ rw is_11 (strip_prefix-eq-some (codes "HTTP/1.1\r\n") v rest found)
  | inr (found, is_10) ↦ rw is_10 (strip_prefix-eq-some (codes "HTTP/1.0\r\n") v rest found)
]

-- The parts that the request line is split into, in order.
request_line-parts :
    (bytes : Bytes) (l : RequestLine)
    → request_line bytes ≡ some l
    → (t : Bytes) × (v : Bytes) × (w : Bool × Bytes) × (run tchar bytes ≢ 0)
      × (strip_prefix (codes " ") (drop (run tchar bytes) bytes) ≡ some t)
      × (strip_prefix (codes " ") (drop (target_length t) t) ≡ some v)
      × (version v ≡ some w)
      × (request_line_of (run tchar bytes) bytes t w ≡ l)
unfolding request_line
request_line-parts bytes l e =
    elim (Option-cases (strip_prefix (codes " ") (drop (run tchar bytes) bytes))) [
      | inl no_method ↦ absurd (ground (arith, e, no_method))
      | inr (t, o) ↦ elim (Option-cases (strip_prefix (codes " ") (drop (target_length t) t))) [
        | inl no_target ↦ absurd (ground (arith, e, o, no_target))
        | inr (v, o') ↦ elim (Option-cases (version v)) [
          | inl no_version ↦ absurd (ground (arith, e, o, o', no_version))
          | inr (w, o'') ↦ (t, v, w, ground (arith, e), o, o', o'', ground (arith, e, o, o', o''))
        ]
      ]
    ]

-- The request line read opens the data.
pub request_line-some :
    (bytes : Bytes) (l : RequestLine)
    → request_line bytes ≡ some l
    → (bytes ≡ print_request_line l ++ l.rest) × (is_token l.method ≡ true)
unfolding is_token
request_line-some bytes l e =
    let (t, v, w, some_method, o, o', o'', same) = request_line-parts bytes l e in
    let n = run tchar bytes in
    subst
      (λ (x : RequestLine). (bytes ≡ print_request_line x ++ x.rest) × (is_token x.method ≡ true))
      same
      (
        bytes
            ≡⟨ cut n bytes (codes " ") t o ⟩ take n bytes ++ (codes " " ++ t)
            ≡⟨ ap (λ x. take n bytes ++ (codes " " ++ x))
                (cut (target_length t) t (codes " ") v o') ⟩
              take n bytes ++ (codes " " ++ (take (target_length t) t ++ (codes " " ++ v)))
            ≡⟨ ap
                (λ x. take n bytes ++ (codes " " ++ (take (target_length t) t ++ (codes " " ++ x))))
                (version-some v w.1 w.0 o'') ⟩
              take n bytes
              ++ (codes " "
                  ++ (take (target_length t) t ++ (codes " " ++ (version_text w.0 ++ w.1))))
            ≡⟨ (simp append_assoc) ⟩ print_request_line (request_line_of n bytes t w) ++ w.1 ∎,
        rw (take-run_nonempty bytes some_method) (all-take-run tchar bytes),
      )

-- What a request is that passes: its bytes are a request line, header lines, the blank line and what follows; the
-- Content-Length, the coding and the host come from at most one line each, and no two of them frame the body.
pub record Accepted (bytes : Bytes) (info : HttpRequestInfo) : Type 0 where
  pub request : RequestLine
  pub lines : List (Bytes × Bytes)
  pub behind : Bytes
  pub whole : bytes ≡ print_request_line request ++ (print_lines lines ++ (codes "\r\n" ++ behind))
  pub token : is_token request.method ≡ true
  pub fields : All IsLine lines
  pub ends : info.head_len + length behind ≡ length bytes
  pub method : info.method ≡ request.method
  pub content_length : Once (codes "content-length") SaysLength lines info.content_length
  pub chunked :
      Once
        (codes "transfer-encoding")
        (SaysChunked request.is_http10)
        lines
        (coding info.is_chunked)
  pub one_framing : (info.content_length ≡ none) ⊎ (info.is_chunked ≡ false)
  pub host :
      (found : Option Bytes) × Once (codes "host") SaysHost lines found
      × ((found ≡ some info.host) ⊎ ((found ≡ none) × (request.is_http10 ≡ true)))
  pub named : request.is_http10 ≡ false → info.host ≢ []

Reads-lines :
    {b : Bool} {h h' : Head} {ls : List (Bytes × Bytes)}
    → Reads b h ls h'
    → All IsLine ls × (h'.pos ≡ h.pos + length (print_lines ls))
Reads-lines done = (tt, omega arith)
Reads-lines (line {h} {h'} {name} {v} {ls} valid free rest) =
    let (all_valid, at) = Reads-lines rest in
    (
      (valid, all_valid),
      omega (
        arith,
        at,
        (header_line-Effect _ name v h free).0,
        length-print_line name v,
        length-append (print_line (name, v)) (print_lines ls),
      ),
    )

extract-parts :
    (bytes : Bytes) (info : HttpRequestInfo)
    → extract_routing_info bytes ≡ ok info
    → (l : RequestLine) × (request_line bytes ≡ some l) × (read_head bytes l ≡ ok info)
unfolding extract_routing_info
extract-parts bytes info e = elim (Option-cases (request_line bytes)) [
  | inl malformed ↦ absurd (ground (arith, e, malformed))
  | inr (l, o) ↦ (l, o, ground (arith, e, o))
]

with_host-ok :
    (l : RequestLine) (t : Target) (h : Head) (o : Option Bytes) (lines : Bytes)
    (info : HttpRequestInfo)
    → with_host l t h o lines ≡ ok info
    → (host : Bytes) × (o ≡ some host) × (info_of l t h host lines ≡ info)
unfolding with_host
with_host-ok l t h none lines info e = absurd (cc e)
with_host-ok l t h (some host) lines info e = (host, refl, ground (arith, e))

-- The checks that a head passes.
last_checks-clear :
    (b : Bool) (t : Target) (h : Head) (host : Bytes)
    → last_checks b t h host ≡ false
    → (h.violation ≡ false)
      × (h.terminated ≡ true)
      × (b ≡ false → is_empty host ≡ false)
      × ((is_some h.content_length ≡ false) ⊎ (h.is_chunked ≡ false))
unfolding last_checks
last_checks-clear b t h host e =
    (ground arith, ground arith, λ n. ground (arith, e, n), ground arith)

routed_from :
    (b : Bool) (found target_host : Option Bytes) (host : Bytes)
    → routed_host b false found target_host ≡ some host
    → (found ≡ some host) ⊎ ((found ≡ none) × (b ≡ true))
unfolding routed_host
routed_from b (some h) target_host host e = inl e
routed_from true none target_host host e = inr (refl, refl)
routed_from false none target_host host e = absurd (none-ne-some host e)

length-print_request_line : (l : RequestLine) → length (print_request_line l) ≡ line_end l
length-print_request_line l = omega (
  arith,
  length-append l.method (codes " " ++ (l.target ++ (codes " " ++ version_text l.is_http10))),
  length-append l.target (codes " " ++ version_text l.is_http10),
  version_length l.is_http10,
)
  where
    version_length : (b : Bool) → length (version_text b) ≡ 10
    version_length true = refl
    version_length false = refl

not_empty : (s : Bytes) → is_empty s ≡ false → s ≢ []
not_empty [] e = λ _. true≢false e
not_empty (x ∷ s) e = λ e'. cc e'

unset : {A : Type 0} (o : Option A) → is_some o ≡ false → o ≡ none
unset none e = refl
unset (some x) e = absurd (true≢false e)

module _ (bytes : Bytes) (l : RequestLine) (opens : bytes ≡ print_request_line l ++ l.rest)
    (token : is_token l.method ≡ true) (t : Target) (host lines : Bytes) where
  abbrev head : Head
  head = head_of l t

  Passed-Accepted :
      (p : Passed l.is_http10 (first_head (line_end l) t.violation) l.rest head)
      → ((is_some head.content_length ≡ false) ⊎ (head.is_chunked ≡ false))
      → ((head.host ≡ some host) ⊎ ((head.host ≡ none) × (l.is_http10 ≡ true)))
      → (l.is_http10 ≡ false → is_empty host ≡ false)
      → Accepted bytes (info_of l t head host lines)
  unfolding info_of first_head
  Passed-Accepted p framing routed named =
      let (valid, at) = Reads-lines p.reads in
      record {
        request = l;
        lines = p.lines;
        behind = p.behind;
        whole = opens ∙ ap (λ x. print_request_line l ++ x) p.whole;
        token = token;
        fields = valid;
        ends = omega (
          arith,
          at,
          ap (λ (h : Head). h.pos) p.ended,
          ap length opens,
          ap length p.whole,
          length-append (print_request_line l) l.rest,
          length-print_request_line l,
          length-append (print_lines p.lines) (codes "\r\n" ++ p.behind),
        );
        method = refl;
        content_length =
            subst (Once (codes "content-length") SaysLength p.lines)
              (sym (ap (λ (h : Head). h.content_length) p.ended))
              (length_Once l.is_http10 p.reads refl);
        chunked =
            subst
              (λ b. Once (codes "transfer-encoding") (SaysChunked l.is_http10) p.lines (coding b))
              (sym (ap (λ (h : Head). h.is_chunked) p.ended))
              (chunked_Once l.is_http10 p.reads refl);
        one_framing = elim framing [
          | inl no_length ↦ inl (unset head.content_length no_length)
          | inr no_chunks ↦ inr no_chunks
        ];
        host = (
          head.host,
          subst (Once (codes "host") SaysHost p.lines) (sym (ap (λ (h : Head). h.host) p.ended))
              (host_Once l.is_http10 p.reads refl),
          routed,
        );
        named = λ e. not_empty host (named e);
      }

-- A request whose head is read without a violation is, byte for byte, a request line with a token for its method, header
-- lines of token names and values free of control characters but the tab, the blank line, and what follows from
-- `head_len` on.
-- Content-Length stands in at most one line, with digits that are its value; Transfer-Encoding in at most one, which says
-- `chunked` and not on HTTP/1.0; the message is not framed by both; Host stands in at most one line, which gives the host
-- that the request is routed by, or in none on HTTP/1.0; and on HTTP/1.1 that host is not empty.
pub extract_routing_info-Accepted :
    (bytes : Bytes) (info : HttpRequestInfo)
    → extract_routing_info bytes ≡ ok info
    → info.header_violation ≡ false
    → Accepted bytes info
unfolding read_head info_of first_head
extract_routing_info-Accepted bytes info e clean =
    let (l, o, r) = extract-parts bytes info e in
    let t : Target = target_form l.method l.target in
    let h : Head = head_of l t in
    let header_data : Bytes = drop (line_end l) (take h.pos bytes) in
    let (host, routed, same) = with_host-ok l t h _ header_data info r in
    let (free, ended, named, framing) =
      last_checks-clear l.is_http10 t h host
        (ap (λ (i : HttpRequestInfo). i.header_violation) same ∙ clean) in
    let clear : (h.violation || not h.terminated) ≡ false = ground (arith, free, ended) in
    let (opens, token) = request_line-some bytes l o in
    subst (Accepted bytes) same (
      Passed-Accepted bytes l opens token t host header_data
        (head_lines-Passed l.is_http10 (length l.rest) (first_head (line_end l) t.violation) l.rest
          refl free ended)
        framing
        (routed_from l.is_http10 h.host t.target_host host
          (subst (λ x. routed_host l.is_http10 x h.host t.target_host ≡ some host) clear routed))
        named)
