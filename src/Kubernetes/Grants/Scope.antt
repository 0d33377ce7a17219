-- ===== src/Kubernetes/Grants/Scope.antt =====
-- src/kubernetes/reference_grants.rs: what it takes to cross a namespace.
use portail.Prelude.{
  Bool, true, ◌&&◌, Option, none, some, List, [], ◌∷◌, ◌≡◌, ◌↔◌, ◌⊎◌, arith, Bytes, bytes_eq,
  bytes_eq_iff, bytes_key, codes, any, get_or_else,
}
use portail.Kubernetes.Objects.{GrantFrom, GrantTo, ReferenceGrant, is_none_or}
use portail.Kubernetes.Grants.{grant_allows, is_reference_allowed}

abbrev pub Exists {ℓ} : {A : Type ℓ} → (A → Type 0) → List A → Type 0
Exists P [] = ⊥
Exists P (x ∷ xs) = P x ⊎ Exists P xs

pub any_iff {ℓ} :
    {A : Type ℓ} (p : A → Bool) (P : A → Type 0) (xs : List A)
    → ((x : A) → (p x ≡ true) ↔ P x)
    → (any p xs ≡ true) ↔ Exists P xs
any_iff p P [] e = ground arith
any_iff p P (x ∷ xs) e = let step = e x in let rest = any_iff p P xs e in ground (arith, step, rest)

-- The grant is in the target's namespace, names where the reference comes from, and names the target's kind and its
-- name or no name.
abbrev pub Grants : ReferenceGrant → Bytes → Bytes → Bytes → Bytes → Bytes → Bytes → Bytes → Type 0
Grants g from_group from_kind from_namespace to_group to_kind to_namespace to_name =
    (get_or_else g.namespace (codes "default") ≡ to_namespace)
    × Exists
        (λ (f : GrantFrom).
          (f.group ≡ from_group) × (f.kind ≡ from_kind) × (f.namespace ≡ from_namespace))
        g.from
    × Exists
        (λ (t : GrantTo).
          (t.group ≡ to_group) × (t.kind ≡ to_kind) × ((t.name ≡ none) ⊎ (t.name ≡ some to_name)))
        g.to

name_allows_iff :
    (o : Option Bytes) (name : Bytes)
    → (is_none_or o (λ n. bytes_eq n name) ≡ true) ↔ ((o ≡ none) ⊎ (o ≡ some name))
name_allows_iff none name = ground arith
name_allows_iff (some n) name = ground (arith, bytes_eq_iff n name)

grant_allows_iff :
    (g : ReferenceGrant) (fg fk fn tg tk tn to_name : Bytes)
    → (grant_allows g fg fk fn tg tk tn to_name ≡ true) ↔ Grants g fg fk fn tg tk tn to_name
grant_allows_iff g fg fk fn tg tk tn to_name =
    let same = bytes_eq_iff (get_or_else g.namespace (codes "default")) tn in
    let from =
      any_iff
        (λ (f : GrantFrom). bytes_eq f.group fg && bytes_eq f.kind fk && bytes_eq f.namespace fn)
        (λ (f : GrantFrom). (f.group ≡ fg) × (f.kind ≡ fk) × (f.namespace ≡ fn)) g.from
        (λ f.
          ground (
            arith,
            bytes_eq_iff f.group fg,
            bytes_eq_iff f.kind fk,
            bytes_eq_iff f.namespace fn,
          )) in
    let to =
      any_iff
        (λ (t : GrantTo).
          bytes_eq t.group tg && bytes_eq t.kind tk && is_none_or t.name (λ n. bytes_eq n to_name))
        (λ (t : GrantTo).
          (t.group ≡ tg) × (t.kind ≡ tk) × ((t.name ≡ none) ⊎ (t.name ≡ some to_name)))
        g.to
        (λ t. ground (
          arith,
          bytes_eq_iff t.group tg,
          bytes_eq_iff t.kind tk,
          name_allows_iff t.name to_name,
        )) in
    ground (arith, same, from, to)

-- A reference is allowed exactly when it stays in its namespace, or when some grant in the target's namespace names the
-- group, kind and namespace that it comes from, and the target's group and kind with the target's name or no name.
pub is_reference_allowed_iff :
    (gs : List ReferenceGrant) (fg fk fn tg tk tn to_name : Bytes)
    → (is_reference_allowed gs fg fk fn tg tk tn to_name ≡ true)
      ↔ ((fn ≡ tn) ⊎ Exists (λ g. Grants g fg fk fn tg tk tn to_name) gs)
unfolding is_reference_allowed
is_reference_allowed_iff gs fg fk fn tg tk tn to_name =
    let some_grant =
      any_iff (λ g. grant_allows g fg fk fn tg tk tn to_name)
        (λ g. Grants g fg fk fn tg tk tn to_name) gs
        (λ g. grant_allows_iff g fg fk fn tg tk tn to_name) in
    ground (arith, bytes_eq_iff fn tn, some_grant)
