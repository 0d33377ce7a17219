-- ===== src/Routing/Order.antt =====
-- src/routing: the precedence of rules, and of two rules found under different hostnames.
use Prim.Native.Nat.{compare, Ordering}
use portail.Prelude.{ℕ, Bool, true, false, none, some, List, ◌≡◌, arith, find, All, length, is_some}
use portail.Routing.Sort.{sort_by, IsChosen, find-sort_by-IsChosen, find-sort_by-none}
use portail.Routing.Types.{PathMatchType, prefix, exact, regular_expression, HttpRouteRule}

-- `Ordering::then_with`, with the second ordering under `elim`, so that it waits.
abbrev pub then_with : Ordering → Ordering → Ordering
then_with a b = elim a [ Ordering.lt ↦ Ordering.lt | Ordering.eq ↦ b | Ordering.gt ↦ Ordering.gt ]

abbrev pub is_lt : Ordering → Bool
is_lt a = elim a [ Ordering.lt ↦ true | _ ↦ false ]

abbrev rank : PathMatchType → ℕ
rank exact = 0
rank regular_expression = 1
rank prefix = 2

-- A `bool` as it is compared: `false` before `true`.
abbrev bit : Bool → ℕ
bit true = 1
bit false = 0

module _ {Regex : Type 0} where
  unfoldable pub match_precedence : HttpRouteRule Regex → HttpRouteRule Regex → Ordering
  match_precedence a b = then_with (compare (rank a.path_match_type) (rank b.path_match_type)) (
      then_with (compare (length b.path) (length a.path)) (
        then_with (compare (bit (is_some b.method_match)) (bit (is_some a.method_match))) (
          then_with (compare (length b.header_matches) (length a.header_matches))
            (compare (length b.query_param_matches) (length a.query_param_matches)))))

  -- The rule `a` takes a request before the rule `b`.
  unfoldable pub precedes : HttpRouteRule Regex → HttpRouteRule Regex → Bool
  precedes a b = is_lt (match_precedence a b)

  unfoldable pub sort_rules : List (HttpRouteRule Regex) → List (HttpRouteRule Regex)
  sort_rules = sort_by precedes

  unfoldable pub outranks : ℕ × HttpRouteRule Regex → ℕ × HttpRouteRule Regex → Bool
  outranks a b = is_lt (
      then_with (compare b.0 a.0)
        (then_with (match_precedence a.1 b.1) (compare a.1.route_index b.1.route_index)))

-- One more key in front of an ordering that is not less by negative transitivity.
then_trans :
    (kx ky kz : ℕ) (yz zx yx : Ordering)
    → (is_lt yz ≡ false → is_lt zx ≡ false → is_lt yx ≡ false)
    → is_lt (then_with (compare ky kz) yz) ≡ false
    → is_lt (then_with (compare kz kx) zx) ≡ false
    → is_lt (then_with (compare ky kx) yx) ≡ false
then_trans kx ky kz yz zx yx h p q = ground arith

compare_trans :
    (kx ky kz : ℕ)
    → is_lt (compare ky kz) ≡ false
    → is_lt (compare kz kx) ≡ false
    → is_lt (compare ky kx) ≡ false
compare_trans kx ky kz p q = ground arith

then_asym :
    (kx ky : ℕ) (xy yx : Ordering)
    → (is_lt xy ≡ true → is_lt yx ≡ false)
    → is_lt (then_with (compare kx ky) xy) ≡ true
    → is_lt (then_with (compare ky kx) yx) ≡ false
then_asym kx ky xy yx h p = ground arith

compare_asym : (kx ky : ℕ) → is_lt (compare kx ky) ≡ true → is_lt (compare ky kx) ≡ false
compare_asym kx ky p = ground arith

-- The same for a key compared the other way round.
then_trans_rev :
    (kx ky kz : ℕ) (yz zx yx : Ordering)
    → (is_lt yz ≡ false → is_lt zx ≡ false → is_lt yx ≡ false)
    → is_lt (then_with (compare kz ky) yz) ≡ false
    → is_lt (then_with (compare kx kz) zx) ≡ false
    → is_lt (then_with (compare kx ky) yx) ≡ false
then_trans_rev kx ky kz yz zx yx h p q = ground arith

compare_trans_rev :
    (kx ky kz : ℕ)
    → is_lt (compare kz ky) ≡ false
    → is_lt (compare kx kz) ≡ false
    → is_lt (compare kx ky) ≡ false
compare_trans_rev kx ky kz p q = ground arith

module _ {Regex : Type 0} where
  pub precedes_trans :
      (x y z : HttpRouteRule Regex)
      → precedes y z ≡ false
      → precedes z x ≡ false
      → precedes y x ≡ false
  unfolding precedes match_precedence
  precedes_trans x y z =
      then_trans (rank x.path_match_type) (rank y.path_match_type) (rank z.path_match_type) _ _ _ (
        then_trans_rev (length x.path) (length y.path) (length z.path) _ _ _ (
          then_trans_rev (bit (is_some x.method_match)) (bit (is_some y.method_match))
            (bit (is_some z.method_match)) _ _ _
            (then_trans_rev (length x.header_matches) (length y.header_matches)
              (length z.header_matches) _ _ _
              (compare_trans_rev (length x.query_param_matches) (length y.query_param_matches)
                (length z.query_param_matches)))))

  pub precedes_asym : (x y : HttpRouteRule Regex) → precedes x y ≡ true → precedes y x ≡ false
  unfolding precedes match_precedence
  precedes_asym x y = then_asym (rank x.path_match_type) (rank y.path_match_type) _ _ (
      then_asym (length y.path) (length x.path) _ _ (
        then_asym (bit (is_some y.method_match)) (bit (is_some x.method_match)) _ _ (
          then_asym (length y.header_matches) (length x.header_matches) _ _
            (compare_asym (length y.query_param_matches) (length x.query_param_matches)))))

  module _ (p : HttpRouteRule Regex → Bool) (rules : List (HttpRouteRule Regex)) where
    -- The rule of a search in sorted rules, by the order in which the rules were pushed.
    pub find-sort_rules-IsChosen :
        (rule : HttpRouteRule Regex)
        → find p (sort_rules rules) ≡ some rule
        → IsChosen precedes precedes_trans precedes_asym p rule rules
    unfolding sort_rules
    find-sort_rules-IsChosen rule e =
        find-sort_by-IsChosen precedes precedes_trans precedes_asym p rule rules e

    pub find-sort_rules-none : find p (sort_rules rules) ≡ none → All (λ r. p r ≡ false) rules
    unfolding sort_rules
    find-sort_rules-none e = find-sort_by-none precedes precedes_trans precedes_asym p rules e
