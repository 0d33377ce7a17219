-- ===== src/Routing/Select/Owner.antt =====
-- src/routing/mod.rs: which backend owns a slot of the configured weights.
use portail.Prelude.{
  ℕ, zero, suc, ◌+◌, ◌≤◌, ◌<◌, true, false, Option, none, some, List, [], ◌∷◌, ◌≡◌, ◌↔◌, inl, inr,
  refl, arith, ltb, leb, length, get_elem?, Bool-cases,
}
use portail.Routing.Types.{Backend}
use portail.Routing.Select.{next, slot_owner_from, slot_owner, partition_point, weight_sum}

-- The weights of the backends before the one at `i`.
pub weight_before : List Backend → ℕ → ℕ
weight_before [] i = 0
weight_before (b ∷ bs) zero = 0
weight_before (b ∷ bs) (suc i) = b.weight + weight_before bs i

next-eq-suc : (o : Option ℕ) (i : ℕ) → next o ≡ some (suc i) → o ≡ some i
next-eq-suc none i e = cc
next-eq-suc (some j) i e = ground arith

next-ne-zero : (o : Option ℕ) → ¬ (next o ≡ some 0)
next-ne-zero none e = cc
next-ne-zero (some j) e = ground arith

owner_bounds :
    (c : ℕ) (bs : List Backend) (slot i : ℕ)
    → c ≤ slot
    → slot_owner_from c bs slot ≡ some i
    → (c + weight_before bs i ≤ slot) × (slot < c + weight_before bs (suc i)) × (i < length bs)
unfolding slot_owner_from weight_before
owner_bounds c [] slot i h e = cc
owner_bounds c (b ∷ []) slot zero h e =
    ground (arith, next-ne-zero (slot_owner_from (c + b.weight) [] slot))
owner_bounds c (b ∷ b' ∷ bs) slot zero h e =
    ground (arith, next-ne-zero (slot_owner_from (c + b.weight) (b' ∷ bs) slot))
owner_bounds c (b ∷ bs) slot (suc i) h e = ground (
  arith,
  next-eq-suc (slot_owner_from (c + b.weight) bs slot) i,
  owner_bounds (c + b.weight) bs slot i,
)

bounds_owner :
    (c : ℕ) (bs : List Backend) (slot i : ℕ)
    → c + weight_before bs i ≤ slot
    → slot < c + weight_before bs (suc i)
    → slot_owner_from c bs slot ≡ some i
unfolding slot_owner_from weight_before
bounds_owner c [] slot i h k = absurd (omega arith)
bounds_owner c (b ∷ []) slot zero h k = ground arith
bounds_owner c (b ∷ b' ∷ bs) slot zero h k = ground arith
bounds_owner c (b ∷ bs) slot (suc i) h k =
    rw (bounds_owner (c + b.weight) bs slot i (omega arith) (omega arith)) (ground arith)

-- A backend owns exactly the slots from the weights before it up to its own weight more: as many as its weight.
pub slot_owner_iff :
    (backends : List Backend) (slot i : ℕ)
    → (slot_owner backends slot ≡ some i)
      ↔ ((weight_before backends i ≤ slot) × (slot < weight_before backends (suc i)))
unfolding slot_owner
slot_owner_iff backends slot i = (
  λ e. let b = owner_bounds 0 backends slot i (omega arith) e in (omega arith, omega arith),
  λ b. bounds_owner 0 backends slot i (omega arith) (omega arith),
)

owner_exists :
    (c : ℕ) (bs : List Backend) (slot : ℕ)
    → c ≤ slot
    → slot < c + weight_sum bs
    → (i : ℕ) × (slot_owner_from c bs slot ≡ some i)
unfolding slot_owner_from weight_sum
owner_exists c [] slot k h = absurd (omega arith)
owner_exists c (b ∷ bs) slot k h = elim (Bool-cases (ltb slot (c + b.weight))) [
  | inl e ↦ (0, rw e)
  | inr e ↦
      let (i, q) = owner_exists (c + b.weight) bs slot (ground arith) (omega arith) in
      (suc i, rw (e, q))
]

-- Every slot below the sum of the weights has an owner.
pub slot_owner_total :
    (backends : List Backend) (slot : ℕ)
    → slot < weight_sum backends
    → (i : ℕ) × (slot_owner backends slot ≡ some i)
unfolding slot_owner
slot_owner_total backends slot h = owner_exists 0 backends slot (omega arith) (omega arith)

owner_weight :
    (c : ℕ) (bs : List Backend) (slot i : ℕ)
    → c ≤ slot
    → slot_owner_from c bs slot ≡ some i
    → (b : Backend) × (get_elem? bs i ≡ some b) × (0 < b.weight)
unfolding slot_owner_from
owner_weight c [] slot i k e = cc
owner_weight c (b ∷ bs) slot zero k e =
    (b, refl, ground (arith, next-ne-zero (slot_owner_from (c + b.weight) bs slot)))
owner_weight c (b ∷ bs) slot (suc i) k e = elim (Bool-cases (ltb slot (c + b.weight))) [
  | inl t ↦ absurd (ground arith)
  | inr t ↦ owner_weight (c + b.weight) bs slot i (ground arith) (next-eq-suc _ i (rw t at e))
]

-- The owner of a slot is in the list and has a positive weight.
pub slot_owner_weight :
    (backends : List Backend) (slot i : ℕ)
    → slot_owner backends slot ≡ some i
    → (b : Backend) × (get_elem? backends i ≡ some b) × (0 < b.weight)
unfolding slot_owner
slot_owner_weight backends slot i e = owner_weight 0 backends slot i (omega arith) e

-- The prefix sums of `push_route`, from the sum so far.
unfoldable pub cumulative_from : ℕ → List Backend → List ℕ
cumulative_from c [] = []
cumulative_from c (b ∷ bs) = (c + b.weight) ∷ cumulative_from (c + b.weight) bs

pub partition_point-owner :
    (c : ℕ) (bs : List Backend) (slot : ℕ)
    → slot < c + weight_sum bs
    → c ≤ slot
    → slot_owner_from c bs slot ≡ some (partition_point (λ cw. leb cw slot) (cumulative_from c bs))
unfolding slot_owner_from weight_sum partition_point cumulative_from
partition_point-owner c [] slot h k = absurd (omega arith)
partition_point-owner c (b ∷ bs) slot h k = elim (Bool-cases (ltb slot (c + b.weight))) [
  | inl e ↦ let f : leb (c + b.weight) slot ≡ false = ground arith in rw (e, f)
  | inr e ↦
      let f : leb (c + b.weight) slot ≡ true = ground arith in
      rw (e, f, partition_point-owner (c + b.weight) bs slot (omega arith) (ground arith))
]

-- The point that a binary search in the prefix sums finds is the owner of the slot.
pub partition_point-slot_owner :
    (backends : List Backend) (slot : ℕ)
    → slot < weight_sum backends
    → slot_owner backends slot
      ≡ some (partition_point (λ cw. leb cw slot) (cumulative_from 0 backends))
unfolding slot_owner
partition_point-slot_owner backends slot h =
    partition_point-owner 0 backends slot (omega arith) (omega arith)
