-- ===== src/Routing/Hosts/Laws.antt =====
-- src/routing/mod.rs: what the hostname tests decide.
use mathlib.Core.Path.{ap₂}
use portail.Prelude.{
  ℕ, zero, suc, ◌+◌, ◌-◌, ◌<◌, ◌≤◌, Bool, true, ◌||◌, Option, none, some, List, [], ◌∷◌, ◌++◌, ◌≡◌,
  ◌↔◌, ◌⊎◌, inl, inr, refl, sym, ap, ◌∙◌, arith, ◌==◌, Bytes, bytes_eq_iff, bytes_eq_refl,
  strip_prefix-eq-some, length, get_elem?, take, drop, length-append, Bool-cases,
}
use portail.Routing.Hosts.{
  wildcard_covers, wildcard_parent, hostnames_intersect, parent_domains, byte_is, intersect,
}

-- `host` is `parent` behind at least one label and a dot.
abbrev pub IsUnder : Bytes → Bytes → Type 0
IsUnder parent host = (l : Bytes) × (host ≡ l ++ b'.' ∷ parent)

split_at : (h : Bytes) (k c : ℕ) → get_elem? h k ≡ some c → h ≡ take k h ++ c ∷ drop (suc k) h
split_at [] k c e = cc
split_at (b ∷ h) zero c e = ground arith
split_at (b ∷ h) (suc k) c e = ap (◌∷◌ b) (split_at h k c e)

get_elem?-append : (l h : Bytes) (c : ℕ) → get_elem? (l ++ c ∷ h) (length l) ≡ some c
get_elem?-append [] h c = refl
get_elem?-append (b ∷ l) h c = get_elem?-append l h c

drop-append : (l h : Bytes) (c : ℕ) → drop (suc (length l)) (l ++ c ∷ h) ≡ h
drop-append [] h c = refl
drop-append (b ∷ l) h c = drop-append l h c

byte_is-eq_true : (o : Option ℕ) (c : ℕ) → byte_is o c ≡ true → o ≡ some c
byte_is-eq_true none c h = cc
byte_is-eq_true (some b) c h = ground arith

covers_parts :
    (p h : Bytes)
    → wildcard_covers p h ≡ true
    → (length p < length h)
      × (drop (length h - length p) h ≡ p)
      × (get_elem? h (length h - length p - 1) ≡ some b'.')
unfolding wildcard_covers
covers_parts p h e =
    let last = byte_is-eq_true (get_elem? h (length h - length p - 1)) b'.' in
    let tail = bytes_eq_iff (drop (length h - length p) h) p in
    (ground arith, ground (arith, tail), ground (arith, last))

covers-IsUnder : (p h : Bytes) → wildcard_covers p h ≡ true → IsUnder p h
covers-IsUnder p h e =
    let k = length h - length p - 1 in
    let (short, tail, dot) = covers_parts p h e in
    let m : suc k ≡ length h - length p = omega arith in
    (
      take k h,
      split_at h k b'.' dot
          ∙ ap (λ n. take k h ++ b'.' ∷ drop n h) m
          ∙ ap (λ t. take k h ++ b'.' ∷ t) tail,
    )

IsUnder-covers : (p h : Bytes) → IsUnder p h → wildcard_covers p h ≡ true
unfolding wildcard_covers
IsUnder-covers p h (l, e) =
    let n : length h ≡ length l + suc (length p) = ap length e ∙ length-append l (b'.' ∷ p) in
    let k : length h - length p ≡ suc (length l) = omega arith in
    let k' : length h - length p - 1 ≡ length l = omega arith in
    let tail : drop (length h - length p) h ≡ p = ap₂ drop k e ∙ drop-append l p b'.' in
    let dot : get_elem? h (length h - length p - 1) ≡ some b'.' =
      ap₂ get_elem? e k' ∙ get_elem?-append l p b'.' in
    rw (tail, dot, bytes_eq_refl p) (ground arith)

-- A wildcard's parent domain covers a host exactly when the host is that domain behind a dot and anything before it.
pub wildcard_covers_iff : (p h : Bytes) → (wildcard_covers p h ≡ true) ↔ IsUnder p h
wildcard_covers_iff p h = (covers-IsUnder p h, IsUnder-covers p h)

abbrev pub Within : Bytes → List Bytes → Type 0
Within x [] = ⊥
Within x (y ∷ ys) = (x ≡ y) ⊎ Within x ys

IsUnder-nil : {p : Bytes} → ¬ IsUnder p []
IsUnder-nil ([], e) = cc
IsUnder-nil (c ∷ l, e) = cc

IsUnder-cons :
    {p : Bytes} (c : ℕ) (h : Bytes) → IsUnder p (c ∷ h) → ((c ≡ b'.') × (p ≡ h)) ⊎ IsUnder p h
IsUnder-cons c h ([], e) = inl (ground arith, ground arith)
IsUnder-cons c h (d ∷ l, e) = inr (l, ground arith)

IsUnder-longer : {p : Bytes} (c : ℕ) {h : Bytes} → IsUnder p h → IsUnder p (c ∷ h)
IsUnder-longer c (l, e) = (c ∷ l, ap (◌∷◌ c) e)

Within-IsUnder : (p h : Bytes) → Within p (parent_domains h) → IsUnder p h
unfolding parent_domains
Within-IsUnder p [] w = elim w [ ]
Within-IsUnder p (c ∷ h) w = elim (Bool-cases (c == b'.')) [
  | inl dot ↦ elim (rw dot at w) [
    | inl e ↦ ([], ground arith)
    | inr w' ↦ IsUnder-longer c (Within-IsUnder p h w')
  ]
  | inr other ↦ IsUnder-longer c (Within-IsUnder p h (rw other at w))
]

IsUnder-Within : (p h : Bytes) → IsUnder p h → Within p (parent_domains h)
unfolding parent_domains
IsUnder-Within p [] u = absurd (IsUnder-nil u)
IsUnder-Within p (c ∷ h) u = elim (Bool-cases (c == b'.')) [
  | inl dot ↦
      rw dot
        (elim (IsUnder-cons c h u) [ inl (_, e) ↦ inl e | inr u' ↦ inr (IsUnder-Within p h u') ])
  | inr other ↦ rw other (elim (IsUnder-cons c h u) [
    | inl (e, _) ↦ absurd (ground arith)
    | inr u' ↦ IsUnder-Within p h u'
  ])
]

-- The parent domains of a host that a lookup walks through are exactly the wildcard parents that cover it.
pub parent_domains_iff : (p h : Bytes) → Within p (parent_domains h) ↔ (wildcard_covers p h ≡ true)
parent_domains_iff p h =
    (λ w. IsUnder-covers p h (Within-IsUnder p h w), λ e. IsUnder-Within p h (covers-IsUnder p h e))

-- Each list element is shorter than the one before, and than `n`.
abbrev pub IsDescending : ℕ → List Bytes → Type 0
IsDescending n [] = Unit
IsDescending n (x ∷ xs) = (length x < n) × IsDescending (length x) xs

IsDescending-mono : (n m : ℕ) (xs : List Bytes) → n ≤ m → IsDescending n xs → IsDescending m xs
IsDescending-mono n m [] h d = tt
IsDescending-mono n m (x ∷ xs) h d = (omega arith, d.1)

-- The lookups try the longest parent domain first.
pub parent_domains-IsDescending : (h : Bytes) → IsDescending (length h) (parent_domains h)
unfolding parent_domains
parent_domains-IsDescending [] = tt
parent_domains-IsDescending (c ∷ h) = elim (Bool-cases (c == b'.')) [
  | inl dot ↦ rw dot (omega arith, parent_domains-IsDescending h)
  | inr other ↦
      rw other
        (IsDescending-mono _ _ (parent_domains h) (omega arith) (parent_domains-IsDescending h))
]

-- A host that a pattern stands for: a wildcard's subdomains, or the name itself.
abbrev MatchesAs : Option Bytes → Bytes → Bytes → Type 0
MatchesAs none pattern_host host = host ≡ pattern_host
MatchesAs (some parent) pattern_host host = IsUnder parent host

abbrev pub Matches : Bytes → Bytes → Type 0
Matches pattern_host host = MatchesAs (wildcard_parent pattern_host) pattern_host host

pub wildcard_split : (a p : Bytes) → wildcard_parent a ≡ some p → a ≡ b'*' ∷ b'.' ∷ p
wildcard_split a p e = strip_prefix-eq-some (b'*' ∷ b'.' ∷ []) a p e

-- Two domains over one host lie in one line.
pub IsUnder-both :
    (p q h : Bytes) → IsUnder p h → IsUnder q h → (p ≡ q) ⊎ (IsUnder p q ⊎ IsUnder q p)
IsUnder-both p q [] u v = absurd (IsUnder-nil u)
IsUnder-both p q (c ∷ h) u v = elim (IsUnder-cons c h u) [
  | inl (_, e) ↦ elim (IsUnder-cons c h v) [
    | inl (_, f) ↦ inl (e ∙ sym f)
    | inr v' ↦ inr (inr (rw e v'))
  ]
  | inr u' ↦ elim (IsUnder-cons c h v) [
    | inl (_, f) ↦ inr (inl (rw f u'))
    | inr v' ↦ IsUnder-both p q h u' v'
  ]
]

IsUnder-star : (p h : Bytes) → IsUnder p (b'*' ∷ h) → IsUnder p h
IsUnder-star p h u = elim (IsUnder-cons b'*' h u) [
  | inl (e, _) ↦ absurd (omega arith)
  | inr u' ↦ u'
]

one_of : (x y z : Bool) → (x || y || z) ≡ true → (x ≡ true) ⊎ ((y ≡ true) ⊎ (z ≡ true))
one_of x y z h = ground arith

module _ (a b : Bytes) where
  abbrev Meet : Option Bytes → Option Bytes → Type 0
  Meet oa ob = (h : Bytes) × MatchesAs oa a h × MatchesAs ob b h

  Meet-of :
      (oa ob : Option Bytes)
      → wildcard_parent a ≡ oa
      → wildcard_parent b ≡ ob
      → intersect oa ob a b ≡ true
      → Meet oa ob
  unfolding intersect
  Meet-of none none ea eb h = (a, refl, (bytes_eq_iff a b).0 h)
  Meet-of (some pa) none ea eb h = (b, covers-IsUnder pa b h, refl)
  Meet-of none (some pb) ea eb h = (a, refl, covers-IsUnder pb a h)
  Meet-of (some pa) (some pb) ea eb h = elim (one_of _ _ _ h) [
    | inl e ↦ (b'.' ∷ pb, ([], ap (◌∷◌ b'.') (sym ((bytes_eq_iff pa pb).0 e))), ([], refl))
    | inr (inl e) ↦ (
      b'.' ∷ pb,
      IsUnder-star pa (b'.' ∷ pb) (rw (wildcard_split b pb eb) at (covers-IsUnder pa b e)),
      ([], refl),
    )
    | inr (inr e) ↦ (
      b'.' ∷ pa,
      ([], refl),
      IsUnder-star pb (b'.' ∷ pa) (rw (wildcard_split a pa ea) at (covers-IsUnder pb a e)),
    )
  ]

  of-Meet :
      (oa ob : Option Bytes)
      → wildcard_parent a ≡ oa
      → wildcard_parent b ≡ ob
      → Meet oa ob
      → intersect oa ob a b ≡ true
  unfolding intersect
  of-Meet none none ea eb (h, m, n) = (bytes_eq_iff a b).1 (sym m ∙ n)
  of-Meet (some pa) none ea eb (h, m, n) = IsUnder-covers pa b (rw n at m)
  of-Meet none (some pb) ea eb (h, m, n) = IsUnder-covers pb a (rw m at n)
  of-Meet (some pa) (some pb) ea eb (h, m, n) = elim (IsUnder-both pa pb h m n) [
    | inl e ↦ let s = (bytes_eq_iff pa pb).1 e in ground arith
    | inr (inl u) ↦
        let c =
          IsUnder-covers pa b
            (rw (wildcard_split b pb eb) (IsUnder-longer b'*' (IsUnder-longer b'.' u))) in
        ground arith
    | inr (inr u) ↦
        let c =
          IsUnder-covers pb a
            (rw (wildcard_split a pa ea) (IsUnder-longer b'*' (IsUnder-longer b'.' u))) in
        ground arith
  ]

  -- Two hostname patterns intersect exactly when some host matches both.
  pub hostnames_intersect_iff :
      (hostnames_intersect a b ≡ true) ↔ ((h : Bytes) × Matches a h × Matches b h)
  unfolding hostnames_intersect
  hostnames_intersect_iff = (
    Meet-of (wildcard_parent a) (wildcard_parent b) refl refl,
    of-Meet (wildcard_parent a) (wildcard_parent b) refl refl,
  )
