-- ===== src/Routing/Match.antt =====
-- src/routing/mod.rs: whether a rule matches a request, and the first rule of a host entry that does.
pub mod Laws
use portail.Prelude.{
  ℕ, zero, suc, ◌+◌, ◌-◌, Bool, true, false, not, ◌&&◌, ◌||◌, Option, none, some, List, [], ◌∷◌,
  ltb, leb, ◌==◌, if◌then◌else◌, Bytes, bytes_eq, eq_ignore_case, length, get_elem?, take, drop,
  all, find, is_empty, is_some_and, from_utf8, trim, split, split_once,
}
use portail.Routing.Types.{
  PathMatchType, prefix, exact, regular_expression, HeaderMatch, QueryParamMatch, is_match,
  HttpRouteRule,
}

-- `line_end` and what follows it, from the line's start.
line_of : Bytes → Bytes × Bytes
line_of [] = ([], [])
line_of (b ∷ bs) =
    let rest = line_of bs in if b == b'\r' || b == b'\n' then ([], b ∷ bs) else (b ∷ rest.0, rest.1)

skip : ℕ → Bytes → Bytes
skip c [] = []
skip c (b ∷ bs) = if b == c then bs else b ∷ bs

-- "name:" opens the line, in any case.
names : Bytes → Bytes → Bool
names line name =
    ltb (length name) (length line)
    && is_some_and (get_elem? line (length name)) (λ b. b == b':')
    && eq_ignore_case (take (length name) line) name

-- The loop over the lines, on fuel. A line takes a byte at least, its own or its end's.
header_lines : ℕ → Bytes → Bytes → Option Bytes
unfolding line_of skip names
header_lines zero header_data name = none
header_lines (suc f) [] name = none
header_lines (suc f) (b ∷ bs) name =
    let (line, after) = line_of (b ∷ bs) in
    let rest = header_lines f (skip b'\n' (skip b'\r' after)) name in
    if names line name then from_utf8 (trim (drop (suc (length name)) line)) else rest

unfoldable pub find_header_value : Bytes → Bytes → Option Bytes
unfolding header_lines
find_header_value header_data name = header_lines (suc (length header_data)) header_data name

first_pair : List Bytes → Bytes → Option Bytes
first_pair [] name = none
first_pair (pair ∷ pairs) name =
    let rest = first_pair pairs name in
    elim (split_once b'=' pair) [
      | none ↦ rest
      | some (key, value) ↦ if bytes_eq key name then some value else rest
    ]

unfoldable pub find_query_param_value : Bytes → Bytes → Option Bytes
unfolding first_pair split split_once
find_query_param_value query name =
    if is_empty query then none else first_pair (split b'&' query) name

at_border : Bytes → Bytes → Bool
at_border prefix_bytes path =
    let n = length prefix_bytes in
    length path == n
    || is_some_and (get_elem? path n) (λ b. b == b'/')
    || is_some_and (get_elem? prefix_bytes (n - 1)) (λ b. b == b'/')

unfoldable pub prefix_matches : Bytes → Bytes → Bool
unfolding at_border
prefix_matches prefix_bytes path =
    let n = length prefix_bytes in
    is_empty prefix_bytes
    || (leb n (length path) && bytes_eq (take n path) prefix_bytes && at_border prefix_bytes path)

module _ {Regex : Type 0} (re_is_match : Regex → Bytes → Bool) where
  path_matches_by : PathMatchType → HttpRouteRule Regex → Bytes → Bool
  path_matches_by exact rule path = bytes_eq path rule.path
  path_matches_by regular_expression rule path =
      is_some_and rule.path_regex (λ re. re_is_match re path)
  path_matches_by prefix rule path = prefix_matches rule.path path

  method_matches : Option Bytes → Bytes → Bool
  method_matches none method = true
  method_matches (some required) method = eq_ignore_case required method

  header_matches_all : List (HeaderMatch Regex) → Bytes → Bool
  header_matches_all hms header_data =
      is_empty hms
      || (not (is_empty header_data)
          && all
              (λ hm.
                is_some_and (find_header_value header_data hm.name)
                  (is_match re_is_match hm.matcher))
              hms)

  query_matches_all : List (QueryParamMatch Regex) → Bytes → Bool
  query_matches_all qms query_string =
      is_empty qms
      || all
          (λ qm.
            is_some_and (find_query_param_value query_string qm.name)
              (is_match re_is_match qm.matcher))
          qms

  -- One round of the loop: `false` stands for `continue`.
  unfoldable pub rule_matches : Bytes → Bytes → Bytes → Bytes → HttpRouteRule Regex → Bool
  unfolding path_matches_by method_matches header_matches_all query_matches_all
  rule_matches method path header_data query_string rule =
      if not (method_matches rule.method_match method)
      then false
      else if not (path_matches_by rule.path_match_type rule path)
      then false
      else if not (header_matches_all rule.header_matches header_data)
      then false
      else query_matches_all rule.query_param_matches query_string

  unfoldable pub find_best_rule_match :
      List (HttpRouteRule Regex) → Bytes → Bytes → Bytes → Bytes → Option (HttpRouteRule Regex)
  find_best_rule_match rules method path header_data query_string =
      find (rule_matches method path header_data query_string) rules
