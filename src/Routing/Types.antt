-- ===== src/Routing/Types.antt =====
-- src/routing/mod.rs: rules, matchers, filters and backends. A compiled regular expression is a value of the parameter
-- `Regex`. Shared cells are kept by value, or by the key under which their registry holds them.
use portail.Prelude.{
  ℕ, zero, suc, ◌/◌, ◌%◌, Bool, true, false, ◌||◌, Option, none, some, List, ltb, ◌==◌,
  if◌then◌else◌, Bytes, bytes_eq, split_once,
}
use portail.Net.{SocketAddr}

pub data PathMatchType : Type 0 where
  prefix exact regular_expression : PathMatchType

pub data ValueMatcher (Regex : Type 0) : Type 0 where
  exact_value : Bytes → ValueMatcher Regex
  regex : Regex → ValueMatcher Regex

unfoldable pub is_match :
    {Regex : Type 0} → (Regex → Bytes → Bool) → ValueMatcher Regex → Bytes → Bool
is_match re_is_match (exact_value expected) value = bytes_eq value expected
is_match re_is_match (regex re) value = re_is_match re value

-- The name is lowercase.
pub record HeaderMatch (Regex : Type 0) : Type 0 where
  pub name : Bytes
  pub matcher : ValueMatcher Regex

pub record QueryParamMatch (Regex : Type 0) : Type 0 where
  pub name : Bytes
  pub matcher : ValueMatcher Regex

pub record HttpHeader : Type 0 where
  pub name : Bytes
  pub value : Bytes

pub record Fraction : Type 0 where
  pub numerator : ℕ
  pub denominator : ℕ

-- The loop of `Fraction::new`, on fuel: `while rest != 0 { (gcd, rest) = (rest, gcd % rest) }`.
unfoldable pub gcd_loop : ℕ → ℕ → ℕ → ℕ
gcd_loop zero gcd rest = gcd
gcd_loop (suc f) gcd rest =
    let next = gcd_loop f rest (gcd % rest) in if rest == 0 then gcd else next

-- The remainder falls in each round, so `denominator + 1` rounds are enough.
unfoldable pub new_fraction : ℕ → ℕ → Option Fraction
new_fraction numerator denominator =
    let gcd = gcd_loop (suc denominator) numerator denominator in
    if denominator == 0 || ltb denominator numerator
    then none
    else some (record { numerator = numerator / gcd; denominator = denominator / gcd })

pub record PathValue : Type 0 where
  pub path : Bytes
  pub query : Option Bytes

unfoldable pub path_value : Bytes → PathValue
unfolding split_once
path_value value = elim (split_once b'?' value) [
  | some (path, query) ↦ record { path = path; query = some query }
  | none ↦ record { path = value; query = none }
]

pub data UrlRewritePath : Type 0 where
  replace_full_path : PathValue → UrlRewritePath
  replace_prefix_match : PathValue → UrlRewritePath

pub data HttpFilter : Type 0 where
  request_header_modifier : List HttpHeader → List HttpHeader → List Bytes → HttpFilter
  response_header_modifier : List HttpHeader → List HttpHeader → List Bytes → HttpFilter
  request_redirect : Option Bytes → Option Bytes → Option ℕ → Option UrlRewritePath → ℕ → HttpFilter
  url_rewrite : Option Bytes → Option UrlRewritePath → HttpFilter
  request_mirror : SocketAddr → Fraction → HttpFilter

pub data BackendAction : Type 0 where
  forward reject : BackendAction

-- `b.action == BackendAction::Reject`.
abbrev pub is_reject : BackendAction → Bool
is_reject forward = false
is_reject reject = true

pub record Backend : Type 0 where
  pub socket_addr : SocketAddr
  pub weight : ℕ
  pub filters : List HttpFilter
  pub use_tls : Bool
  pub server_name : Bytes
  pub action : BackendAction

pub record HttpRouteRule (Regex : Type 0) : Type 0 where
  pub method_match : Option Bytes
  pub path_match_type : PathMatchType
  pub path : Bytes
  pub path_regex : Option Regex
  pub header_matches : List (HeaderMatch Regex)
  pub query_param_matches : List (QueryParamMatch Regex)
  pub filters : List HttpFilter
  pub backends : List Backend
  pub request_timeout : Option ℕ
  pub backend_request_timeout : Option ℕ
  pub has_filters : Bool
  pub total_weight : ℕ
  pub cumulative_weights : List ℕ
  -- The position of the weighted round robin.
  pub counter : ℕ
  -- The hostname whose request counter the rule counts in, once it is in a table.
  pub requests : Option Bytes
  -- The port and the listener name of its limiter.
  pub limiter : Option (ℕ × Bytes)
  pub route_index : ℕ
