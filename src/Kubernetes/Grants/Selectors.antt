-- ===== src/Kubernetes/Grants/Selectors.antt =====
-- src/kubernetes/reference_grants.rs: which labels a selector matches.
use mathlib.Core.Path.{subst}
use mathlib.Core.Option.{some_inj}
use mathlib.Core.Bool.{true≢false, false≢true}
use portail.Prelude.{
  Bool, true, false, not, ◌&&◌, Option, none, some, List, [], ◌∷◌, ◌≡◌, ◌↔◌, ◌⊎◌, inl, inr, refl,
  sym, ap, ◌∙◌, arith, Bytes, bytes_eq, bytes_eq_iff, bytes_key, codes, any, all, All, get_or_else,
  is_some_and, is_some, if◌then◌else◌, Bool-cases, Option-cases,
}
use portail.Prelude.Map.{Map, get}
use portail.Kubernetes.Objects.{LabelSelector}
use portail.Kubernetes.Grants.{expression_matches, matches_selector}
use portail.Kubernetes.Grants.Scope.{any_iff}
use portail.Kubernetes.Grants.Terms.{OneOf, Meets, Selects}

all_iff {ℓ} :
    {A : Type ℓ} (p : A → Bool) (P : A → Type 0) (xs : List A)
    → ((x : A) → (p x ≡ true) ↔ P x)
    → (all p xs ≡ true) ↔ All P xs
all_iff p P [] e = ground arith
all_iff p P (x ∷ xs) e = let step = e x in let rest = all_iff p P xs e in ground (arith, step, rest)

values_iff : (values : List Bytes) (v : Bytes) → (any (bytes_eq v) values ≡ true) ↔ OneOf values v
values_iff values v = any_iff (bytes_eq v) (λ w. v ≡ w) values (bytes_eq_iff v)

holds_iff :
    (o : Option Bytes) (values : List Bytes)
    → (is_some_and o (λ v. any (bytes_eq v) values) ≡ true)
      ↔ ((v : Bytes) × (o ≡ some v) × OneOf values v)
holds_iff none values = (λ e. cc, λ (v, e, _). cc)
holds_iff (some w) values = (
  λ e. (w, refl, (values_iff values w).0 e),
  λ (v, e, one). (values_iff values w).1 (subst (OneOf values) (sym (some_inj.0 e)) one),
)

pair_iff :
    (labels : Map Bytes Bytes) (k v : Bytes)
    → (is_some_and (get k labels) (bytes_eq v) ≡ true) ↔ (get k labels ≡ some v)
pair_iff labels k v = elim (Option-cases (get k labels)) [
  | inl missing ↦ rw missing (λ e. cc, λ e. cc)
  | inr (w, found) ↦
      rw found (
        λ e. ap some (sym ((bytes_eq_iff v w).0 e)),
        λ e. (bytes_eq_iff v w).1 (sym (some_inj.0 e)),
      )
]

-- `expression_matches`, by the operator, the value and the expected values.
abbrev tested : (operator : Bytes) → Option Bytes → List Bytes → Bool
tested operator has values =
    if bytes_eq operator (codes "In")
    then is_some_and has (λ v. any (bytes_eq v) values)
    else if bytes_eq operator (codes "NotIn")
    then not (is_some_and has (λ v. any (bytes_eq v) values))
    else if bytes_eq operator (codes "Exists")
    then is_some has
    else if bytes_eq operator (codes "DoesNotExist")
    then not (is_some has)
    else false

abbrev Means : (operator : Bytes) → Option Bytes → List Bytes → Type 0
Means operator has values =
    ((operator ≡ codes "In") × ((v : Bytes) × (has ≡ some v) × OneOf values v))
    ⊎ ((operator ≡ codes "NotIn") × ((v : Bytes) → has ≡ some v → OneOf values v → ⊥))
    ⊎ ((operator ≡ codes "Exists") × ((v : Bytes) × (has ≡ some v)))
    ⊎ ((operator ≡ codes "DoesNotExist") × (has ≡ none))

none_of :
    (has : Option Bytes) (values : List Bytes)
    → (not (is_some_and has (λ v. any (bytes_eq v) values)) ≡ true)
      ↔ ((v : Bytes) → has ≡ some v → OneOf values v → ⊥)
none_of none values = (λ e v h. cc, λ f. refl)
none_of (some w) values = (
  λ e v h one. true≢false (sym ((holds_iff (some w) values).1 (v, h, one)) ∙ ground (arith, e)),
  λ f. elim (Bool-cases (any (bytes_eq w) values)) [
    | inl hit ↦ absurd (f w refl ((values_iff values w).0 hit))
    | inr miss ↦ rw miss refl
  ],
)

present : (has : Option Bytes) → is_some has ≡ true → (v : Bytes) × (has ≡ some v)
present none e = cc
present (some v) e = (v, refl)

missing : (has : Option Bytes) → not (is_some has) ≡ true → has ≡ none
missing none e = refl
missing (some v) e = cc

tested-Means :
    (operator : Bytes) (has : Option Bytes) (values : List Bytes)
    → tested operator has values ≡ true
    → Means operator has values
tested-Means operator has values e = elim (Bool-cases (bytes_eq operator (codes "In"))) [
  | inl t ↦ inl ((bytes_eq_iff operator (codes "In")).0 t, (holds_iff has values).0 (rw t at e))
  | inr f ↦ elim (Bool-cases (bytes_eq operator (codes "NotIn"))) [
    | inl t ↦
        inr (
          inl
            ((bytes_eq_iff operator (codes "NotIn")).0 t, (none_of has values).0 (rw (f, t) at e)))
    | inr g ↦ elim (Bool-cases (bytes_eq operator (codes "Exists"))) [
      | inl t ↦ inr (
          inr (inl ((bytes_eq_iff operator (codes "Exists")).0 t, present has (rw (f, g, t) at e))))
      | inr h ↦ elim (Bool-cases (bytes_eq operator (codes "DoesNotExist"))) [
        | inl t ↦ inr (
            inr (
              inr (
                (bytes_eq_iff operator (codes "DoesNotExist")).0 t,
                missing has (rw (f, g, h, t) at e),
              )))
        | inr i ↦ absurd (false≢true (rw (f, g, h, i) at e))
      ]
    ]
  ]
]

Means-tested :
    (operator : Bytes) (has : Option Bytes) (values : List Bytes)
    → Means operator has values
    → tested operator has values ≡ true
unfolding bytes_eq
Means-tested operator has values (inl (e, one)) =
    subst (λ o. tested o has values ≡ true) (sym e) ((holds_iff has values).1 one)
Means-tested operator has values (inr (inl (e, none_equal))) =
    subst (λ o. tested o has values ≡ true) (sym e) ((none_of has values).1 none_equal)
Means-tested operator has values (inr (inr (inl (e, (v, found))))) =
    subst (λ o. tested o has values ≡ true) (sym e) (ap is_some found)
Means-tested operator has values (inr (inr (inr (e, absent)))) =
    subst (λ o. tested o has values ≡ true) (sym e) (ap (λ h. not (is_some h)) absent)

Selects-iff :
    (selector : Option LabelSelector) (labels : Map Bytes Bytes)
    → (matches_selector selector (some labels) ≡ true) ↔ Selects selector labels
Selects-iff none labels = (λ e. tt, λ e. refl)
Selects-iff (some selector) labels =
    let pairs =
      all_iff (λ kv. is_some_and (get kv.0 labels) (bytes_eq kv.1))
        (λ kv. get kv.0 labels ≡ some kv.1) (get_or_else selector.match_labels [])
        (λ kv. pair_iff labels kv.0 kv.1) in
    let expressions =
      all_iff (expression_matches labels) (Meets labels) (get_or_else selector.match_expressions [])
        (λ x. (
          tested-Means x.operator (get x.key labels) (get_or_else x.expected []),
          Means-tested x.operator (get x.key labels) (get_or_else x.expected []),
        )) in
    both_iff pairs expressions
  where
    both_iff :
        {a b : Bool} {P Q : Type 0} → (a ≡ true) ↔ P → (b ≡ true) ↔ Q → ((a && b) ≡ true) ↔ (P × Q)
    both_iff p q = ground (arith, p, q)

pub found_iff :
    (selector : Option LabelSelector) (o : Option (Map Bytes Bytes))
    → (matches_selector selector o ≡ true)
      ↔ ((labels : Map Bytes Bytes) × (o ≡ some labels) × Selects selector labels)
found_iff none none = (λ e. cc, λ (l, e, s). cc)
found_iff (some selector) none = (λ e. cc, λ (l, e, s). cc)
found_iff selector (some labels) = (
  λ e. (labels, refl, (Selects-iff selector labels).0 e),
  λ (l, e, s). (Selects-iff selector labels).1 (subst (Selects selector) (sym (some_inj.0 e)) s),
)
