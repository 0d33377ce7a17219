-- ===== src/Routing/Table/Isolation.antt =====
-- src/routing/mod.rs: a request is answered from the listeners that match the key of its host best.
use mathlib.Core.Option.{none-ne-some}
use portail.Prelude.{
  ℕ, ◌≤◌, Bool, true, not, ◌&&◌, Option, none, some, List, [], ◌∷◌, ◌++◌, ◌≡◌, ◌⊎◌, inl, inr, refl,
  sym, ap, ◌∙◌, arith, Bytes, All, is_empty, Bool-cases, Option-cases, nat_eq,
}
use portail.Prelude.Map.{get}
use portail.Routing.Types.{HttpRouteRule}
use portail.Routing.Order.{outranks}
use portail.Routing.Table.{
  ListenerScope, hostname_match_priority, raise, highest_from, highest_priority, searched, better,
  best_after, find_in, lookup_http_route, search, rule_of, find_in_scopes, RouteTable, own_scopes,
  shared_scopes_of, host_key, find_http_route,
}

-- A priority, if there is one, is at most `n`.
abbrev pub AtMost : ℕ → Option ℕ → Type 0
AtMost n none = Unit
AtMost n (some p) = p ≤ n

raise-AtMost : (n : ℕ) (a p : Option ℕ) → AtMost n (raise a p) → AtMost n a × AtMost n p
unfolding raise
raise-AtMost n a none h = (h, tt)
raise-AtMost n none (some p) h = (tt, h)
raise-AtMost n (some a) (some p) h = ground arith

module _ {Regex : Type 0} where
  -- Some scope of the list.
  abbrev pub Exists : (ListenerScope Regex → Type 0) → List (ListenerScope Regex) → Type 0
  Exists P [] = ⊥
  Exists P (s ∷ ss) = P s ⊎ Exists P ss

  highest_from-AtMost :
      (a : Option ℕ) (scopes : List (ListenerScope Regex)) (host : Bytes) (n : ℕ)
      → highest_from a scopes host ≡ some n
      → AtMost n a × All (λ s. AtMost n (hostname_match_priority s host)) scopes
  unfolding highest_from
  highest_from-AtMost none [] host n e = (tt, tt)
  highest_from-AtMost (some a) [] host n e = (ground arith, tt)
  highest_from-AtMost a (s ∷ scopes) host n e =
      let (h, rest) =
        highest_from-AtMost (raise a (hostname_match_priority s host)) scopes host n e in
      let (p, q) = raise-AtMost n a (hostname_match_priority s host) h in (p, (q, rest))

  pub highest_priority-AtMost :
      (scopes : List (ListenerScope Regex)) (host : Bytes) (n : ℕ)
      → highest_priority scopes host ≡ some n
      → All (λ s. AtMost n (hostname_match_priority s host)) scopes
  unfolding highest_priority
  highest_priority-AtMost scopes host n e = (highest_from-AtMost none scopes host n e).1

searched-eq : (n : ℕ) (p : Option ℕ) → AtMost n p → searched n p ≡ true → p ≡ some n
searched-eq n none h e = cc
searched-eq n (some p) h e = ground arith

module _ {Regex : Type 0} (re_is_match : Regex → Bytes → Bool)
    (method path header_data query_string host : Bytes) where
  abbrev found_in : ListenerScope Regex → Option (ℕ × HttpRouteRule Regex)
  found_in scope = lookup_http_route re_is_match method path header_data query_string scope host

  -- A scope at the highest priority whose lookup gives `found`.
  abbrev pub Answers : ℕ → ℕ × HttpRouteRule Regex → ListenerScope Regex → Type 0
  Answers highest found scope =
      (hostname_match_priority scope host ≡ some highest) × (found_in scope ≡ some found)

  better-cases :
      (best : Option (ℕ × HttpRouteRule Regex)) (f : ℕ × HttpRouteRule Regex)
      → (better best f ≡ f) ⊎ (best ≡ some (better best f))
  unfolding better
  better-cases none f = inl refl
  better-cases (some b) f = elim (Bool-cases (outranks f b)) [
    | inl e ↦ inl (rw e)
    | inr e ↦ inr (rw e)
  ]

  search-Answers :
      (n : ℕ) (compare : Bool) (ss : List (ListenerScope Regex))
      (best : Option (ℕ × HttpRouteRule Regex))
      → All (λ s. AtMost n (hostname_match_priority s host)) ss
      → {f : ℕ × HttpRouteRule Regex}
      → search re_is_match method path header_data query_string ss host n compare best ≡ some f
      → (best ≡ some f) ⊎ Exists (Answers n f) ss
  unfolding search find_in best_after
  search-Answers n compare [] best a e = inl e
  search-Answers n compare (s ∷ ss) best a {f} e =
      elim (Bool-cases (searched n (hostname_match_priority s host))) [
        | inr out ↦ later (search-Answers n compare ss best a.1 (rw out at e))
        | inl at_top ↦
            let top = searched-eq n (hostname_match_priority s host) a.0 at_top in
            elim (Option-cases (found_in s)) [
              | inl miss ↦ later (search-Answers n compare ss best a.1 (rw (at_top, miss) at e))
              | inr (g, hit) ↦ elim (Bool-cases compare) [
                | inr first ↦ inr (inl (top, hit ∙ rw (at_top, hit, first) at e))
                | inl both ↦
                    elim (search-Answers n true ss (some (better best g)) a.1
                      (rw (at_top, hit, both) at e)) [
                        | inr deeper ↦ inr (inr deeper)
                        | inl q ↦ elim (better-cases best g) [
                          | inl same ↦ inr (inl (top, hit ∙ ap some (sym same) ∙ q))
                          | inr kept ↦ inl (kept ∙ q)
                        ]
                      ]
              ]
            ]
      ]
    where
      later :
          (best ≡ some f) ⊎ Exists (Answers n f) ss
          → (best ≡ some f) ⊎ Exists (Answers n f) (s ∷ ss)
      later (inl q) = inl q
      later (inr x) = inr (inr x)

  rule_of-eq-some :
      (o : Option (ℕ × HttpRouteRule Regex)) (rule : HttpRouteRule Regex)
      → rule_of re_is_match method path header_data query_string o ≡ some rule
      → (p : ℕ) × (o ≡ some (p, rule))
  rule_of-eq-some none rule e = cc
  rule_of-eq-some (some (p, r)) rule e = (p, ground arith)

  -- A scope that answers with the rule, at a priority that no scope exceeds.
  abbrev pub IsolatedAnswer : List (ListenerScope Regex) → HttpRouteRule Regex → Type 0
  IsolatedAnswer scopes rule =
      (highest p : ℕ) × All (λ s. AtMost highest (hostname_match_priority s host)) scopes
      × Exists (Answers highest (p, rule)) scopes

  find_in_scopes-IsolatedAnswer :
      (own shared : List (ListenerScope Regex)) (rule : HttpRouteRule Regex)
      → find_in_scopes re_is_match method path header_data query_string own shared host ≡ some rule
      → IsolatedAnswer (own ++ shared) rule
  unfolding find_in_scopes
  find_in_scopes-IsolatedAnswer own shared rule e =
      elim (Option-cases (highest_priority (own ++ shared) host)) [
        | inl z ↦ absurd (none-ne-some rule (rw (z, find_in_scopes) at e))
        | inr (n, z) ↦
            let bound = highest_priority-AtMost (own ++ shared) host n z in
            let both = not (is_empty own) && not (is_empty shared) in
            let (p, q) = rule_of-eq-some _ rule (rw (z, find_in_scopes) at e) in
            elim (search-Answers n both (own ++ shared) none bound q) [
              | inl w ↦ absurd (none-ne-some _ w)
              | inr x ↦ (n, p, bound, x)
            ]
      ]

-- The scopes that a request to the port is answered from, its own before the shared ones.
abbrev pub scopes_of : {Regex : Type 0} → RouteTable Regex → ℕ → List (ListenerScope Regex)
scopes_of t server_port =
    let port = get server_port t.listener_scopes in own_scopes port ++ shared_scopes_of t port

-- The rule found for a request comes from a listener scope of the port, its own or a shared one, whose hostname
-- matches the key that the host is looked up under with a priority that no other scope of the port exceeds. That key is
-- the host itself if it has no uppercase letter; otherwise it is the host's first 256 bytes in lowercase, or the host
-- itself if these are not UTF-8.
pub find_http_route-IsolatedAnswer :
    {Regex : Type 0} (re_is_match : Regex → Bytes → Bool)
    (method path header_data query_string host : Bytes) (t : RouteTable Regex) (server_port : ℕ)
    (rule : HttpRouteRule Regex)
    → find_http_route re_is_match method path header_data query_string t host server_port
      ≡ some rule
    → IsolatedAnswer re_is_match method path header_data query_string
        (host_key host)
        (scopes_of t server_port)
        rule
unfolding find_http_route
find_http_route-IsolatedAnswer re_is_match method path header_data query_string host t server_port
      rule e =
    let port = get server_port t.listener_scopes in
    find_in_scopes-IsolatedAnswer re_is_match method path header_data query_string (host_key host)
      (own_scopes port) (shared_scopes_of t port) rule e
