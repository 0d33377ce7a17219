-- ===== src/Routing/Tls/Best.antt =====
-- src/routing/mod.rs: the specificity of the TLS route that an SNI selects.
use portail.Prelude.{
  ℕ, Option, none, some, List, [], ◌∷◌, ◌++◌, ◌≡◌, ◌⊎◌, inl, inr, refl, ap, ◌∙◌, Bytes, bytes_key,
  All, Option-cases,
}
use mathlib.Core.Option.{none-ne-some, some-ne-none}
use portail.Prelude.Map.{get}
use portail.Routing.Types.{Backend}
use portail.Routing.Hosts.{parent_domains}
use portail.Routing.Table.{TlsScope, RouteTable, first_of}
use portail.Routing.Tls.{
  keyed, first_route, exact_route, wildcard_route, parents_route, catch_all_route, named_route,
  tls_route, tls_scopes_of,
}

-- The first scope of a list with something, behind scopes without it.
abbrev pub FirstOf :
    (TlsScope → Option (List Backend)) → List Backend → List (ℕ × TlsScope) → Type 0
FirstOf f bs [] = ⊥
FirstOf f bs (s ∷ scopes) = (f s.1 ≡ some bs) ⊎ ((f s.1 ≡ none) × FirstOf f bs scopes)

abbrev pub NoneOf : (TlsScope → Option (List Backend)) → List (ℕ × TlsScope) → Type 0
NoneOf f scopes = All (λ (s : ℕ × TlsScope). f s.1 ≡ none) scopes

first_of-eq-some {ℓ} :
    {A : Type ℓ} (a b : Option A) (x : A)
    → first_of a b ≡ some x
    → (a ≡ some x) ⊎ ((a ≡ none) × (b ≡ some x))
first_of-eq-some none b x e = inr (refl, e)
first_of-eq-some (some y) b x e = inl e

module _ (hash : ℕ → Bytes → ℕ → Bytes → ℕ) where
  keyed-eq-some :
      (o : Option (List Backend)) (j : ℕ) (bs : List Backend) (k : ℕ)
      → keyed hash o j ≡ some (bs, k)
      → o ≡ some bs
  keyed-eq-some none j bs k e = cc
  keyed-eq-some (some x) j bs k e = cc

  keyed-eq-none : (o : Option (List Backend)) (j : ℕ) → keyed hash o j ≡ none → o ≡ none
  keyed-eq-none none j e = refl
  keyed-eq-none (some x) j e = cc

  first_route-FirstOf :
      (f : TlsScope → Option (List Backend)) (key_of : ℕ → TlsScope → ℕ)
      (scopes : List (ℕ × TlsScope)) (bs : List Backend) (k : ℕ)
      → first_route hash f key_of scopes ≡ some (bs, k)
      → FirstOf f bs scopes
  unfolding first_route
  first_route-FirstOf f key_of [] bs k e = none-ne-some _ e
  first_route-FirstOf f key_of (s ∷ scopes) bs k e =
      elim (first_of-eq-some (keyed hash (f s.1) (key_of s.0 s.1))
        (first_route hash f key_of scopes) (bs, k) e) [
          | inl h ↦ inl (keyed-eq-some (f s.1) (key_of s.0 s.1) bs k h)
          | inr (h, g) ↦
              inr (
                keyed-eq-none (f s.1) (key_of s.0 s.1) h,
                first_route-FirstOf f key_of scopes bs k g,
              )
        ]

  first_route-NoneOf :
      (f : TlsScope → Option (List Backend)) (key_of : ℕ → TlsScope → ℕ)
      (scopes : List (ℕ × TlsScope))
      → first_route hash f key_of scopes ≡ none
      → NoneOf f scopes
  unfolding first_route
  first_route-NoneOf f key_of [] e = tt
  first_route-NoneOf f key_of (s ∷ scopes) e = elim (Option-cases (f s.1)) [
    | inl h ↦ (h, first_route-NoneOf f key_of scopes (rw h at e))
    | inr (x, h) ↦ absurd (some-ne-none _ (rw h at e))
  ]

-- The routes of a wildcard.
abbrev pub wildcard_of : Bytes → TlsScope → Option (List Backend)
wildcard_of parent s = get parent s.wildcard

-- The first parent in the order of the list under which some scope has a wildcard.
abbrev pub UnderFirst : List Bytes → List Backend → List (ℕ × TlsScope) → Type 0
UnderFirst parents bs scopes =
    (pre post : List Bytes) × (parent : Bytes) × (parents ≡ pre ++ parent ∷ post)
    × All (λ q. NoneOf (wildcard_of q) scopes) pre
    × FirstOf (wildcard_of parent) bs scopes

module _ (hash : ℕ → Bytes → ℕ → Bytes → ℕ) where
  parents_route-UnderFirst :
      (parents : List Bytes) (scopes : List (ℕ × TlsScope)) (bs : List Backend) (k : ℕ)
      → parents_route hash parents scopes ≡ some (bs, k)
      → UnderFirst parents bs scopes
  unfolding parents_route
  parents_route-UnderFirst [] scopes bs k e = absurd (none-ne-some _ e)
  parents_route-UnderFirst (p ∷ ps) scopes bs k e =
      elim (first_of-eq-some (wildcard_route hash p scopes) (parents_route hash ps scopes) (bs, k)
        e) [
          | inl h ↦ ([], ps, p, refl, tt, first_route-FirstOf hash (wildcard_of p) _ scopes bs k h)
          | inr (h, g) ↦
              let (pre, post, q, s, a, f) = parents_route-UnderFirst ps scopes bs k g in
              (
                p ∷ pre,
                post,
                q,
                ap (◌∷◌ p) s,
                (first_route-NoneOf hash (wildcard_of p) _ scopes h, a),
                f,
              )
        ]

  parents_route-NoneOf :
      (parents : List Bytes) (scopes : List (ℕ × TlsScope))
      → parents_route hash parents scopes ≡ none
      → All (λ q. NoneOf (wildcard_of q) scopes) parents
  unfolding parents_route
  parents_route-NoneOf [] scopes e = tt
  parents_route-NoneOf (p ∷ ps) scopes e = elim (Option-cases (wildcard_route hash p scopes)) [
    | inl h ↦ (
      first_route-NoneOf hash (wildcard_of p) _ scopes h,
      parents_route-NoneOf ps scopes (rw h at e),
    )
    | inr (x, h) ↦ absurd (some-ne-none _ (rw h at e))
  ]

-- The most specific of the routes for an SNI: an exact one, else one of the first parent domain that has any, else a
-- catch-all.
abbrev pub Best : Option Bytes → List Backend → List (ℕ × TlsScope) → Type 0
Best none bs scopes = FirstOf (λ s. s.catch_all) bs scopes
Best (some sni) bs scopes =
    FirstOf (λ s. get sni s.exact) bs scopes
    ⊎ (NoneOf (λ s. get sni s.exact) scopes × UnderFirst (parent_domains sni) bs scopes)
    ⊎ (NoneOf (λ s. get sni s.exact) scopes
        × All (λ q. NoneOf (wildcard_of q) scopes) (parent_domains sni)
        × FirstOf (λ s. s.catch_all) bs scopes)

module _ (hash : ℕ → Bytes → ℕ → Bytes → ℕ) where
  routes-Best :
      (sni : Option Bytes) (scopes : List (ℕ × TlsScope)) (bs : List Backend) (k : ℕ)
      → first_of (named_route hash sni scopes) (catch_all_route hash scopes) ≡ some (bs, k)
      → Best sni bs scopes
  unfolding named_route
  routes-Best none scopes bs k e = first_route-FirstOf hash (λ s. s.catch_all) _ scopes bs k e
  routes-Best (some sni) scopes bs k e = elim (Option-cases (exact_route hash sni scopes)) [
    | inr (x, h) ↦
        inl (first_route-FirstOf hash (λ s. get sni s.exact) _ scopes bs k (h ∙ (rw h at e)))
    | inl h ↦
        let missing = first_route-NoneOf hash (λ s. get sni s.exact) _ scopes h in
        elim (first_of-eq-some (parents_route hash (parent_domains sni) scopes)
          (catch_all_route hash scopes) (bs, k) (rw h at e)) [
            | inl g ↦
                inr
                  (inl (missing, parents_route-UnderFirst hash (parent_domains sni) scopes bs k g))
            | inr (g, c) ↦ inr (
                inr (
                  missing,
                  parents_route-NoneOf hash (parent_domains sni) scopes g,
                  first_route-FirstOf hash (λ s. s.catch_all) _ scopes bs k c,
                ))
          ]
  ]

-- Among the listener's scope on the port and then those of port 0, the TLS route found is the first scope's exact route
-- for the SNI; if no scope has one, it is the first wildcard route of the first parent domain that has any; if none has,
-- it is the first catch-all. Without an SNI it is the first catch-all.
pub tls_route-Best :
    (hash : ℕ → Bytes → ℕ → Bytes → ℕ) {Regex : Type 0} (t : RouteTable Regex) (sni : Option Bytes)
    (server_port : ℕ) (listener : Option Bytes) (bs : List Backend) (k : ℕ)
    → tls_route hash t sni server_port listener ≡ some (bs, k)
    → Best sni bs (tls_scopes_of hash t sni server_port listener)
unfolding tls_route
tls_route-Best hash t sni server_port listener bs k e =
    routes-Best hash sni (tls_scopes_of hash t sni server_port listener) bs k e
