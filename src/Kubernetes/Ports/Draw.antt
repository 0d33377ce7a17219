-- ===== src/Kubernetes/Ports/Draw.antt =====
-- src/kubernetes/controller/provision/ports.rs: the search for the lowest free port, and the set of the published ports.
use portail.Prelude.{
  ℕ, zero, suc, ◌+◌, ◌%◌, ◌^◌, ◌≤◌, ◌<◌, true, false, List, [], ◌∷◌, ◌≡◌, refl, ◌∙◌, arith, ltb,
  ◌==◌, if◌then◌else◌, length, Bool-cases, inl, inr,
}
use portail.Kubernetes.Ports.{contains, next_free, insert_ascending, ascending}

-- How many of the ports are at least `n`.
unfoldable above : ℕ → List ℕ → ℕ
above n [] = 0
above n (u ∷ us) = (if ltb u n then 0 else 1) + above n us

above-le : (n : ℕ) (us : List ℕ) → above n us ≤ length us
unfolding above
above-le n [] = omega arith
above-le n (u ∷ us) = ground (arith, above-le n us)

above_mono : (n : ℕ) (us : List ℕ) → above (n + 1) us ≤ above n us
unfolding above
above_mono n [] = omega arith
above_mono n (u ∷ us) = ground (arith, above_mono n us)

above-contains : (n : ℕ) (us : List ℕ) → contains n us ≡ true → above (n + 1) us < above n us
unfolding above contains
above-contains n [] h = ground arith
above-contains n (u ∷ us) h = elim (Bool-cases (u == n)) [
  | inl e ↦ ground (arith, above_mono n us)
  | inr e ↦ ground (arith, above-contains n us (rw e at h))
]

-- With fuel for the used ports from `n` on, the search ends at a port that is not used.
contains-next_free :
    (f : ℕ) (used : List ℕ) (n : ℕ)
    → above n used ≤ f
    → n + f < 2 ^ 16
    → (contains (next_free f used n) used ≡ false)
      × (n ≤ next_free f used n)
      × (next_free f used n ≤ n + f)
unfolding next_free
contains-next_free zero used n h k = elim (Bool-cases (contains n used)) [
  | inl e ↦ let less = above-contains n used e in let z : ⊥ = omega arith in elim z [ ]
  | inr e ↦ (e, omega arith, omega arith)
]
contains-next_free (suc f) used n h k = elim (Bool-cases (contains n used)) [
  | inl e ↦
      let less = above-contains n used e in
      let small : (n + 1) % 2 ^ 16 ≡ n + 1 = omega arith in
      let (free, low, high) = contains-next_free f used (n + 1) (omega arith) (omega arith) in
      rw (e, small) (free, omega arith, omega arith)
  | inr e ↦ rw e (e, omega arith, omega arith)
]

-- A search with a round for each used port.
pub search_lem :
    (used : List ℕ) (n : ℕ)
    → n + length used < 2 ^ 16
    → (contains (next_free (length used) used n) used ≡ false)
      × (n ≤ next_free (length used) used n)
      × (next_free (length used) used n ≤ n + length used)
search_lem used n k = contains-next_free (length used) used n (above-le n used) k

contains-insert_ascending :
    (p q : ℕ) (qs : List ℕ) → contains p (insert_ascending q qs) ≡ contains p (q ∷ qs)
unfolding contains insert_ascending
contains-insert_ascending p q [] = refl
contains-insert_ascending p q (r ∷ rs) = ground (arith, contains-insert_ascending p q rs)

pub contains-ascending : (p : ℕ) (ps : List ℕ) → contains p (ascending ps) ≡ contains p ps
unfolding contains ascending
contains-ascending p [] = refl
contains-ascending p (q ∷ qs) =
    contains-insert_ascending p q (ascending qs) ∙ ground (arith, contains-ascending p qs)

length-insert_ascending : (q : ℕ) (qs : List ℕ) → length (insert_ascending q qs) ≤ suc (length qs)
unfolding insert_ascending
length-insert_ascending q [] = omega arith
length-insert_ascending q (r ∷ rs) = ground (arith, length-insert_ascending q rs)

pub length-ascending : (ps : List ℕ) → length (ascending ps) ≤ length ps
unfolding ascending
length-ascending [] = omega arith
length-ascending (p ∷ ps) =
    omega (arith, length-insert_ascending p (ascending ps), length-ascending ps)
