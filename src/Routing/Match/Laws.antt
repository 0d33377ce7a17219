-- ===== src/Routing/Match/Laws.antt =====
-- src/routing/mod.rs: which rule a host entry gives to a request.
use portail.Prelude.{
  ℕ, zero, suc, ◌+◌, ◌-◌, Bool, true, ◌&&◌, ◌||◌, Option, none, some, List, [], ◌∷◌, ◌++◌, ◌≡◌, ◌⊎◌,
  ◌↔◌, inl, inr, refl, sym, ap, ◌∙◌, arith, leb, ◌==◌, Bytes, bytes_eq, bytes_eq_iff, bytes_eq_refl,
  length, length-append, get_elem?, take, drop, is_empty, is_some_and, take-append-drop,
}
use portail.Routing.Types.{HttpRouteRule}
use portail.Routing.Match.{at_border, prefix_matches, rule_matches, find_best_rule_match}
use portail.Routing.Order.{
  precedes, sort_rules, find-sort_rules-IsChosen, precedes_trans, precedes_asym,
}
use portail.Routing.Sort.{IsChosen}

module _ {Regex : Type 0} (re_is_match : Regex → Bytes → Bool)
    (method path header_data query_string : Bytes) (rules : List (HttpRouteRule Regex)) where
  -- In a host entry sorted by precedence the rule found for a request matches it; it precedes every matching rule that
  -- was pushed before it, and no matching rule that was pushed after it precedes it.
  pub find_best_rule_match-IsChosen :
      (rule : HttpRouteRule Regex)
      → find_best_rule_match re_is_match (sort_rules rules) method path header_data query_string
        ≡ some rule
      → IsChosen precedes precedes_trans precedes_asym
          (rule_matches re_is_match method path header_data query_string)
          rule
          rules
  unfolding find_best_rule_match
  find_best_rule_match-IsChosen rule e = find-sort_rules-IsChosen _ rules rule e

-- The path goes on behind the prefix at a segment's border.
abbrev pub AtBorder : Bytes → Bytes → Type 0
AtBorder p rest =
    (rest ≡ []) ⊎ ((get_elem? rest 0 ≡ some b'/') ⊎ (get_elem? p (length p - 1) ≡ some b'/'))

abbrev pub IsPathPrefix : Bytes → Bytes → Type 0
IsPathPrefix p path = (p ≡ []) ⊎ ((rest : Bytes) × (path ≡ p ++ rest) × AtBorder p rest)

get_elem?-drop : (n : ℕ) (xs : Bytes) → get_elem? xs n ≡ get_elem? (drop n xs) 0
get_elem?-drop zero [] = refl
get_elem?-drop zero (x ∷ xs) = refl
get_elem?-drop (suc n) [] = refl
get_elem?-drop (suc n) (x ∷ xs) = get_elem?-drop n xs

drop_all : (n : ℕ) (xs : Bytes) → (length xs == n) ≡ true → drop n xs ≡ []
drop_all zero [] h = refl
drop_all zero (x ∷ xs) h = absurd (ground arith)
drop_all (suc n) [] h = refl
drop_all (suc n) (x ∷ xs) h = drop_all n xs (ground arith)

is_byte : (o : Option ℕ) (c : ℕ) → is_some_and o (λ b. b == c) ≡ true → o ≡ some c
is_byte none c h = cc
is_byte (some b) c h = ground arith

take-length_append : (xs ys : Bytes) → take (length xs) (xs ++ ys) ≡ xs
take-length_append [] ys = refl
take-length_append (x ∷ xs) ys = ap (◌∷◌ x) (take-length_append xs ys)

drop-length_append : (xs ys : Bytes) → drop (length xs) (xs ++ ys) ≡ ys
drop-length_append [] ys = refl
drop-length_append (x ∷ xs) ys = drop-length_append xs ys

any_of_three : (x y z : Bool) → (x || y || z) ≡ true → (x ≡ true) ⊎ ((y ≡ true) ⊎ (z ≡ true))
any_of_three x y z h = ground arith

prefix_parts :
    (e : Bool) (n same border : Bool)
    → (e || (n && same && border)) ≡ true
    → (e ≡ true) ⊎ ((same ≡ true) × (border ≡ true))
prefix_parts e n same border h = ground arith

empty : (p : Bytes) → is_empty p ≡ true → p ≡ []
empty [] h = refl
empty (b ∷ p) h = cc

prefix_matches-IsPathPrefix : (p path : Bytes) → prefix_matches p path ≡ true → IsPathPrefix p path
unfolding prefix_matches
prefix_matches-IsPathPrefix p path h =
    elim (prefix_parts (is_empty p) (leb (length p) (length path))
      (bytes_eq (take (length p) path) p) (at_border p path) h) [
        | inl e ↦ inl (empty p e)
        | inr (same, border) ↦
            let n = length p in
            let q : path ≡ p ++ drop n path =
              sym (take-append-drop n path)
              ∙ ap (λ t. t ++ drop n path) ((bytes_eq_iff (take n path) p).0 same) in
            inr (
              drop n path,
              q,
              elim (any_of_three (length path == n)
                  (is_some_and (get_elem? path n) (λ b. b == b'/'))
                  (is_some_and (get_elem? p (n - 1)) (λ b. b == b'/')) border) [
                    | inl e ↦ inl (drop_all n path e)
                    | inr (inl e) ↦ inr (inl (sym (get_elem?-drop n path) ∙ is_byte _ b'/' e))
                    | inr (inr e) ↦ inr (inr (is_byte _ b'/' e))
                  ],
            )
      ]

IsPathPrefix-prefix_matches : (p path : Bytes) → IsPathPrefix p path → prefix_matches p path ≡ true
unfolding prefix_matches
IsPathPrefix-prefix_matches p path (inl e) = rw e
IsPathPrefix-prefix_matches p path (inr (rest, e, border)) =
    let n = length-append p rest in
    let same : take (length p) path ≡ p = ap (take (length p)) e ∙ take-length_append p rest in
    let next : get_elem? path (length p) ≡ get_elem? rest 0 =
      get_elem?-drop (length p) path
      ∙ ap (λ t. get_elem? t 0) (ap (drop (length p)) e ∙ drop-length_append p rest) in
    let m : length path ≡ length p + length rest = ap length e ∙ n in
    rw (same, bytes_eq_refl p, next)
      (elim border [
        | inl r ↦ let z : length rest ≡ 0 = ap length r in ground arith
        | inr (inl r) ↦ rw r (ground arith)
        | inr (inr r) ↦ rw r (ground arith)
      ])

-- A path prefix matches exactly whole segments: it is empty, or the path is the prefix and a rest that is empty or
-- begins with a slash, or anything when the prefix ends with one.
pub prefix_matches_iff : (p path : Bytes) → (prefix_matches p path ≡ true) ↔ IsPathPrefix p path
prefix_matches_iff p path = (prefix_matches-IsPathPrefix p path, IsPathPrefix-prefix_matches p path)
