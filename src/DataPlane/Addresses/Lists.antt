-- ===== src/DataPlane/Addresses/Lists.antt =====
-- Lists and maps of names, as src/dataplane/addresses.rs searches them.
use mathlib.Core.Bool.{true≢false}
use mathlib.Core.Path.{subst}
use portail.Prelude.{
  ◌≡◌, inl, inr, refl, sym, arith, Bool, true, false, Option, some, List, [], ◌∷◌, if◌then◌else◌,
  Bool-cases, Bytes, bytes_eq, bytes_eq_iff, bytes_eq_refl, bytes_key, any, All, find, retain,
  is_some, is_empty,
}
use portail.Prelude.Map.{Map, get, insert}

abbrev pub lists : List Bytes → Bytes → Bool
lists xs x = any (bytes_eq x) xs

pub find-lists :
    (p : Bytes → Bool) (xs : List Bytes) (x : Bytes) → find p xs ≡ some x → lists xs x ≡ true
find-lists p [] x e = cc
find-lists p (y ∷ xs) x e = elim (Bool-cases (p y)) [
  | inl hit ↦ ground (arith, hit, e, bytes_eq_iff x y)
  | inr miss ↦ ground (arith, miss, e, find-lists p xs x)
]

pub All-insert :
    (P : Bytes × Bytes → Type 0) (k v : Bytes) (m : Map Bytes Bytes)
    → P (k, v)
    → All P m
    → All P (insert k v m)
unfolding insert
All-insert P k v [] new ok = (new, tt)
All-insert P k v (b ∷ m) new ok = elim (Bool-cases (bytes_eq b.0 k)) [
  | inl same ↦ rw same (subst (λ j. P (j, v)) (sym ((bytes_eq_iff b.0 k).0 same)) new, ok.1)
  | inr other ↦ rw other (ok.0, All-insert P k v m new ok.1)
]

pub All-get :
    (P : Bytes × Bytes → Type 0) (k v : Bytes) (m : Map Bytes Bytes)
    → All P m
    → get k m ≡ some v
    → P (k, v)
unfolding get
All-get P k v [] ok e = cc
All-get P k v (b ∷ m) ok e = elim (Bool-cases (bytes_eq b.0 k)) [
  | inl same ↦
      let value : b.1 ≡ v = ground (arith, same, e) in
      subst P (λ i. ((bytes_eq_iff b.0 k).0 same i, value i)) ok.0
  | inr other ↦ All-get P k v m ok.1 (ground (arith, other, e))
]

pub none_kept :
    (p : Bytes → Bool) (x : Bytes) (xs : List Bytes)
    → is_empty (retain p (x ∷ xs)) ≡ true
    → (p x ≡ false) × (is_empty (retain p xs) ≡ true)
none_kept p x xs e = elim (Bool-cases (p x)) [
  | inl kept ↦ absurd (ground (arith, kept, e))
  | inr dropped ↦ (dropped, ground (arith, dropped, e))
]

pub some_kept :
    (p : Bytes → Bool) (xs : List Bytes)
    → is_empty (retain p xs) ≡ false
    → (x : Bytes) × (lists xs x ≡ true) × (p x ≡ true)
some_kept p [] e = absurd (true≢false e)
some_kept p (x ∷ xs) e = elim (Bool-cases (p x)) [
  | inl kept ↦ (x, ground (arith, bytes_eq_refl x), kept)
  | inr dropped ↦
      let (y, inside, holds_y) = some_kept p xs (ground (arith, dropped, e)) in
      (y, ground (arith, inside), holds_y)
]

pub lists-retain :
    (p : Bytes → Bool) (xs : List Bytes) (x : Bytes)
    → lists (retain p xs) x ≡ true
    → (lists xs x ≡ true) × (p x ≡ true)
lists-retain p [] x e = cc
lists-retain p (y ∷ xs) x e = elim (Bool-cases (p y)) [
  | inl kept ↦ elim (Bool-cases (bytes_eq x y)) [
    | inl same ↦
        (ground (arith, same), subst (λ z. p z ≡ true) (sym ((bytes_eq_iff x y).0 same)) kept)
    | inr other ↦
        let (inside, holds_x) = lists-retain p xs x (ground (arith, kept, other, e)) in
        (ground (arith, inside), holds_x)
  ]
  | inr dropped ↦
      let (inside, holds_x) = lists-retain p xs x (ground (arith, dropped, e)) in
      (ground (arith, inside), holds_x)
]

pub is_some_either :
    (b : Bool) (v : Bytes) (o : Option Bytes)
    → is_some o ≡ true
    → is_some (if b then some v else o) ≡ true
is_some_either true v o e = refl
is_some_either false v o e = e
