-- ===== src/Prelude/Map.antt =====
-- Hash maps as association lists, one entry for each key: `get`, `insert`, `entry(k).or_insert_with(f)` followed by an
-- update, and `retain` on keys.
use mathlib.Core.Path.{◌≡◌, refl}
use mathlib.Core.Bool.{Bool, true}
use mathlib.Core.Logic.{inl, inr}
use mathlib.Core.List.{List, [], ◌∷◌}
use mathlib.Core.Option.{Option, none, some}
use native.Mathlib.Omega.{arith}
use portail.Prelude.Compare.{if◌then◌else◌, Bool-cases}
use portail.Prelude.Keys.{Eq}

abbrev pub Map {ℓ κ} : Type ℓ → Type κ → Type (ℓ ⊔ κ)
Map K V = List (K × V)

pub beq_refl {ℓ} : {K : Type ℓ} ⦃e : Eq K⦄ (k : K) → e.beq k k ≡ true
beq_refl ⦃e⦄ k = (e.beq_iff k k).1 refl

module _ {ℓ κ} {K : Type ℓ} {V : Type κ} ⦃e : Eq K⦄ where
  unfoldable pub get : K → Map K V → Option V
  get k [] = none
  get k (b ∷ m) = if e.beq b.0 k then some b.1 else get k m

  unfoldable pub insert : K → V → Map K V → Map K V
  insert k v [] = (k, v) ∷ []
  insert k v (b ∷ m) = if e.beq b.0 k then (b.0, v) ∷ m else b ∷ insert k v m

  unfoldable pub retain : (K → V → Bool) → Map K V → Map K V
  retain p [] = []
  retain p (b ∷ m) = if p b.0 b.1 then b ∷ retain p m else retain p m

  pub get-insert :
      (k j : K) (v : V) (m : Map K V)
      → get j (insert k v m) ≡ (if e.beq k j then some v else get j m)
  unfolding get insert
  get-insert k j v [] = refl
  get-insert k j v (b ∷ m) =
      ground (arith, e.beq_iff b.0 k, e.beq_iff b.0 j, e.beq_iff k j, get-insert k j v m)

  pub get-insert_self : (k : K) (v : V) (m : Map K V) → get k (insert k v m) ≡ some v
  get-insert_self k v m = simp (get-insert, beq_refl)

  -- No key has two entries.
  abbrev pub IsUnique : Map K V → Type κ
  IsUnique [] = Unit
  IsUnique (b ∷ m) = (get b.0 m ≡ none) × IsUnique m

  pub insert-IsUnique : (k : K) (v : V) (m : Map K V) → IsUnique m → IsUnique (insert k v m)
  unfolding insert get
  insert-IsUnique k v [] u = (refl, tt)
  insert-IsUnique k v (b ∷ m) u = elim (Bool-cases (e.beq b.0 k)) [
    | inl h ↦ rw h u
    | inr h ↦ rw h (
      ground (arith, get-insert k b.0 v m, e.beq_iff k b.0, e.beq_iff b.0 k),
      insert-IsUnique k v m u.1,
    )
  ]

  -- What is kept of an entry.
  abbrev pub kept : (K → V → Bool) → K → Option V → Option V
  kept p k none = none
  kept p k (some v) = if p k v then some v else none

  get-retain-none :
      (p : K → V → Bool) (k : K) (m : Map K V) → get k m ≡ none → get k (retain p m) ≡ none
  unfolding get retain
  get-retain-none p k [] h = refl
  get-retain-none p k (b ∷ m) h = ground (arith, get-retain-none p k m)

  pub get-retain :
      (p : K → V → Bool) (k : K) (m : Map K V)
      → IsUnique m
      → get k (retain p m) ≡ kept p k (get k m)
  unfolding get retain
  get-retain p k [] u = refl
  get-retain p k (b ∷ m) u =
      ground (arith, e.beq_iff b.0 k, get-retain p k m, get-retain-none p k m)

  pub retain-IsUnique : (p : K → V → Bool) (m : Map K V) → IsUnique m → IsUnique (retain p m)
  unfolding retain
  retain-IsUnique p [] u = tt
  retain-IsUnique p (b ∷ m) u = elim (Bool-cases (p b.0 b.1)) [
    | inl h ↦ rw h (get-retain-none p b.0 m u.0, retain-IsUnique p m u.1)
    | inr h ↦ rw h (retain-IsUnique p m u.1)
  ]
