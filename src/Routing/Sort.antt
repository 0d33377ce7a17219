-- ===== src/Routing/Sort.antt =====
-- `slice::sort_by` of the standard library: a stable sort, by insertion, and what a search finds in its result.
use mathlib.Core.Bool.{false≢true}
use mathlib.Core.Option.{some-ne-none, none-ne-some}
use portail.Prelude.{
  Bool, true, false, Option, none, some, List, [], ◌∷◌, ◌≡◌, inl, inr, refl, sym, ap, ◌∙◌,
  if◌then◌else◌, find, All, All-append, Bool-cases, Option-cases, ◌++◌,
}

some-eq {ℓ} : {A : Type ℓ} {a b : A} → some a ≡ some b → a ≡ b
some-eq e = cc

-- `before x y`: the comparison says that `x` is less than `y`.
module _ {ℓ} {A : Type ℓ} (before : A → A → Bool) where
  unfoldable pub insert_sorted : A → List A → List A
  insert_sorted x [] = x ∷ []
  insert_sorted x (y ∷ ys) = if before y x then y ∷ insert_sorted x ys else x ∷ y ∷ ys

  unfoldable pub sort_by : List A → List A
  unfolding insert_sorted
  sort_by [] = []
  sort_by (x ∷ xs) = insert_sorted x (sort_by xs)

  abbrev pick : A → Option A → A
  pick x none = x
  pick x (some y) = if before y x then y else x

  -- The first of the least elements that satisfy `p`.
  unfoldable pub least : (A → Bool) → List A → Option A
  least p [] = none
  least p (x ∷ xs) = let rest = least p xs in if p x then some (pick x rest) else rest

  -- No later element comes before an earlier one.
  abbrev pub IsSorted : List A → Type 0
  IsSorted [] = Unit
  IsSorted (x ∷ xs) = All (λ y. before y x ≡ false) xs × IsSorted xs

  module _ (trans : (x y z : A) → before y z ≡ false → before z x ≡ false → before y x ≡ false)
      (asym : (x y : A) → before x y ≡ true → before y x ≡ false) where
    insert_sorted-All :
        (z x : A) (ys : List A)
        → before x z ≡ false
        → All (λ y. before y z ≡ false) ys
        → All (λ y. before y z ≡ false) (insert_sorted x ys)
    unfolding insert_sorted
    insert_sorted-All z x [] h a = (h, tt)
    insert_sorted-All z x (y ∷ ys) h a = elim (Bool-cases (before y x)) [
      | inl e ↦ rw e (a.0, insert_sorted-All z x ys h a.1)
      | inr e ↦ rw e (h, a)
    ]

    All-trans :
        (x z : A) (ys : List A)
        → before z x ≡ false
        → All (λ y. before y z ≡ false) ys
        → All (λ y. before y x ≡ false) ys
    All-trans x z [] h a = tt
    All-trans x z (y ∷ ys) h a = (trans x y z a.0 h, All-trans x z ys h a.1)

    insert_sorted-IsSorted : (x : A) (ys : List A) → IsSorted ys → IsSorted (insert_sorted x ys)
    unfolding insert_sorted
    insert_sorted-IsSorted x [] s = (tt, tt)
    insert_sorted-IsSorted x (y ∷ ys) s = elim (Bool-cases (before y x)) [
      | inl e ↦ rw e (insert_sorted-All y x ys (asym y x e) s.0, insert_sorted-IsSorted x ys s.1)
      | inr e ↦ rw e ((e, All-trans x y ys e s.0), s)
    ]

    pub sort_by-IsSorted : (xs : List A) → IsSorted (sort_by xs)
    unfolding sort_by
    sort_by-IsSorted [] = tt
    sort_by-IsSorted (x ∷ xs) = insert_sorted-IsSorted x (sort_by xs) (sort_by-IsSorted xs)

    module _ (p : A → Bool) where
      find-All : (x : A) (ys : List A) → All (λ y. before y x ≡ false) ys → pick x (find p ys) ≡ x
      find-All x [] a = refl
      find-All x (y ∷ ys) a = elim (Bool-cases (p y)) [
        | inl e ↦ rw (e, a.0)
        | inr e ↦ rw e (find-All x ys a.1)
      ]

      find-insert_sorted :
          (x : A) (ys : List A)
          → IsSorted ys
          → find p (insert_sorted x ys) ≡ (if p x then some (pick x (find p ys)) else find p ys)
      unfolding insert_sorted
      find-insert_sorted x [] s = refl
      find-insert_sorted x (y ∷ ys) s = elim (Bool-cases (before y x)) [
        | inl e ↦ elim (Bool-cases (p y)) [
          | inl f ↦ rw (e, f, e) (elim (Bool-cases (p x)) [ inl g ↦ rw g | inr g ↦ rw g ])
          | inr f ↦ rw (e, f) (find-insert_sorted x ys s.1)
        ]
        | inr e ↦ elim (Bool-cases (p x)) [
          | inl g ↦ rw (e, g) (ap some (sym (find-All x (y ∷ ys) (e, All-trans x y ys e s.0))))
          | inr g ↦ rw (e, g)
        ]
      ]

      pub find-sort_by : (xs : List A) → find p (sort_by xs) ≡ least p xs
      unfolding sort_by least
      find-sort_by [] = refl
      find-sort_by (x ∷ xs) =
          find-insert_sorted x (sort_by xs) (sort_by-IsSorted xs)
          ∙ ap (λ o. if p x then some (pick x o) else o) (find-sort_by xs)

      least-none : (xs : List A) → least p xs ≡ none → All (λ y. p y ≡ false) xs
      unfolding least
      least-none [] e = tt
      least-none (x ∷ xs) e = elim (Bool-cases (p x)) [
        | inl h ↦ absurd (some-ne-none _ (rw h at e))
        | inr h ↦ (h, least-none xs (rw h at e))
      ]

      none_matching :
          (x : A) (ys : List A)
          → All (λ y. p y ≡ false) ys
          → All (λ y. p y ≡ true → before y x ≡ false) ys
      none_matching x [] a = tt
      none_matching x (y ∷ ys) a = (λ k. absurd (false≢true (sym a.0 ∙ k)), none_matching x ys a.1)

      -- `x` satisfies `p`, comes before each earlier element that does, and no later one that does comes before it.
      abbrev pub IsChosen : A → List A → Type ℓ
      IsChosen x xs =
          (pre post : List A) × (xs ≡ pre ++ x ∷ post)
          × (p x ≡ true)
          × All (λ y. p y ≡ true → before x y ≡ true) pre
          × All (λ y. p y ≡ true → before y x ≡ false) post

      -- An element that `y` is before, or ties with, does not come before what `y` does not come before.
      none_before :
          (x y : A) (ys : List A)
          → before y x ≡ false
          → All (λ z. p z ≡ true → before z y ≡ false) ys
          → All (λ z. p z ≡ true → before z x ≡ false) ys
      none_before x y [] h a = tt
      none_before x y (z ∷ ys) h a = (λ m. trans x z y (a.0 m) h, none_before x y ys h a.1)

      irrefl : (y : A) → before y y ≡ false
      irrefl y = elim (Bool-cases (before y y)) [ inl h ↦ asym y y h | inr h ↦ h ]

      All-asym :
          (y : A) (ys : List A)
          → All (λ z. p z ≡ true → before y z ≡ true) ys
          → All (λ z. p z ≡ true → before z y ≡ false) ys
      All-asym y [] a = tt
      All-asym y (z ∷ ys) a = (λ m. asym y z (a.0 m), All-asym y ys a.1)

      chosen-All :
          (y : A) (xs : List A) → IsChosen y xs → All (λ z. p z ≡ true → before z y ≡ false) xs
      chosen-All y xs (pre, post, e, m, a, b) = rw e (
          All-append (λ z. p z ≡ true → before z y ≡ false) pre (y ∷ post) (All-asym y pre a)
            (λ _. irrefl y, b))

      least-IsChosen : (x : A) (xs : List A) → least p xs ≡ some x → IsChosen x xs
      unfolding least
      least-IsChosen x [] e = absurd (none-ne-some _ e)
      least-IsChosen x (y ∷ xs) e = elim (Bool-cases (p y)) [
        | inr h ↦
            let (pre, post, q, m, a, b) = least-IsChosen x xs (rw h at e) in
            (y ∷ pre, post, ap (◌∷◌ y) q, m, ((λ k. absurd (false≢true (sym h ∙ k))), a), b)
        | inl h ↦ elim (Option-cases (least p xs)) [
          | inl l ↦
              let q : y ≡ x = some-eq (rw (h, l) at e) in
              rw (← q) ([], xs, refl, h, tt, none_matching y xs (least-none xs l))
          | inr (z, l) ↦
              let (pre, post, q, m, a, b) = least-IsChosen z xs l in
              elim (Bool-cases (before z y)) [
                | inl k ↦
                    let f : z ≡ x = some-eq (rw (h, l, k) at e) in
                    rw (← f) (y ∷ pre, post, ap (◌∷◌ y) q, m, ((λ _. k), a), b)
                | inr k ↦
                    let f : y ≡ x = some-eq (rw (h, l, k) at e) in
                    rw (← f) (
                      [],
                      xs,
                      refl,
                      h,
                      tt,
                      none_before y z xs k (chosen-All z xs (pre, post, q, m, a, b)),
                    )
              ]
        ]
      ]

      -- What a search finds in the sorted list.
      pub find-sort_by-IsChosen :
          (x : A) (xs : List A) → find p (sort_by xs) ≡ some x → IsChosen x xs
      find-sort_by-IsChosen x xs e = least-IsChosen x xs (sym (find-sort_by xs) ∙ e)

      pub find-sort_by-none : (xs : List A) → find p (sort_by xs) ≡ none → All (λ y. p y ≡ false) xs
      find-sort_by-none xs e = least-none xs (sym (find-sort_by xs) ∙ e)
