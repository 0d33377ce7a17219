-- ===== src/Tests/Heads.antt =====
-- Request heads on concrete inputs.
use portail.Prelude.{
  ◌≡◌, refl, arith, true, false, none, some, [], ◌∷◌, codes, Bytes, bytes_eq, eq_ignore_case,
  is_utf8, trim, split, split_once, strip_prefix,
}
use portail.HttpParser.Class.{value, target, is}
use portail.HttpParser.Scan.{
  run, scan_words, scan, field_value_end, target_end, past_query_backslashes, past_backslashes,
  split_host, host_length, is_port_suffix, bracketed, run_of, parse_digits, digits_from,
  absolute_scheme_len, offers_h2c, is_forwarding_claim,
}
use portail.HttpParser.Word.{from_ne_bytes, stop_bits, mark_holes, marked, wrapping_sub}
use portail.HttpParser.Scan.Runs.{scans-run}
use portail.HttpParser.Head.{
  first_head, head_lines, header_line, split_line, push_span, host_line, content_length_line,
  transfer_encoding_line, connection_token, connection_tokens, is_stripped, upgrade_line,
  expect_line, field_of, apply_field, place,
}
use portail.HttpParser.Request.{
  HttpRequestInfo, extract_routing_info, request_line, version, target_length, target_form,
  absolute_form, routed_host, path_and_query, last_checks, info_of, with_host, read_head, ok,
}
use portail.HttpParser.Lines.{head_lines-fuel}
use portail.HttpParser.Path.{
  normalize_path, first_dots, dot_segment, dots_from, strip_dot, after_dots, remove_dot_segments,
  remove_from, take_segment, before_last_slash,
}
use portail.HttpParser.Path.Clean.{clear}
use portail.HttpParser.Path.Rewrite.{normalize_path-IsClean}
use portail.HttpParser.Accepted.{Accepted, extract_routing_info-Accepted}

abbrev post : Bytes
post =
    codes "POST /a?b=1 HTTP/1.1\r\nHost: h.io:80\r\nContent-Length: 3\r\nKeep-Alive: 5\r\n\r\nabc"

abbrev post_info : HttpRequestInfo
post_info = record {
  method = codes "POST";
  host = codes "h.io";
  path = codes "/a";
  query_string = codes "b=1";
  keepalive = true;
  header_data = codes "Host: h.io:80\r\nContent-Length: 3\r\nKeep-Alive: 5\r\n";
  head_len = 73;
  content_length = some 3;
  is_chunked = false;
  is_upgrade = false;
  header_violation = false;
  strip_spans = record { spans = (56, 71) ∷ []; needs_slow_path = false };
  upgrade_span = none;
  expect_continue = false;
}

post_read : extract_routing_info post ≡ ok post_info
unfolding extract_routing_info request_line run is strip_prefix target_length target_end scan
    scan_words from_ne_bytes stop_bits mark_holes marked wrapping_sub version is_utf8 read_head
    with_host routed_host head_lines first_head target_form apply_field connection_token
    connection_tokens content_length_line expect_line field_of header_line host_line is_stripped
    place push_span split_line transfer_encoding_line upgrade_line absolute_form info_of last_checks
    path_and_query absolute_scheme_len bracketed digits_from field_value_end host_length
    is_forwarding_claim is_port_suffix offers_h2c parse_digits past_backslashes
    past_query_backslashes run_of split_host bytes_eq eq_ignore_case split split_once trim
post_read = refl

extract_routing_info-Accepted_example : Accepted post post_info
extract_routing_info-Accepted_example = extract_routing_info-Accepted post post_info post_read refl

abbrev one_line : Bytes
one_line = codes "A: b\r\n\r\n"

head_lines-fuel_example :
    head_lines 8 false (first_head 0 false) one_line
    ≡ head_lines 30 false (first_head 0 false) one_line
head_lines-fuel_example =
    head_lines-fuel false 8 30 (first_head 0 false) one_line (omega arith) (omega arith)

scans-run_example : (field_value_end post ≡ run value post) × (target_end post ≡ run target post)
scans-run_example = scans-run post

normalized : normalize_path (codes "/a/./b/%2e%2E/c/..") ≡ some (codes "/a/")
unfolding normalize_path first_dots dot_segment dots_from strip_dot after_dots remove_dot_segments
    remove_from take_segment before_last_slash split
normalized = refl

normalize_path-IsClean_example :
    ((u : Bytes) × (codes "/a/" ≡ b'/' ∷ u) × (clear (split b'/' u) ≡ true))
    × (normalize_path (codes "/a/") ≡ some (codes "/a/"))
    × (clear (split b'/' (codes "a/./b/%2e%2E/c/..")) ≡ true
        → codes "/a/" ≡ codes "/a/./b/%2e%2E/c/..")
normalize_path-IsClean_example =
    normalize_path-IsClean (codes "a/./b/%2e%2E/c/..") (codes "/a/") normalized
