-- ===== src/HttpParser/Path/Clean.antt =====
-- A path that `normalize_path` of src/proxy/http_parser.rs gives has no dot-segment left.
use portail.Prelude.{
  ℕ, zero, suc, ◌≡◌, ◌⊎◌, inl, inr, refl, ap, ◌∙◌, arith, Bool, true, false, ◌&&◌, ◌||◌, not,
  Option, none, some, List, [], ◌∷◌, ◌++◌, ◌==◌, if◌then◌else◌, prepend, Bool-cases, Bytes, any,
  all, All, is_some, split, ==_iff,
}
use portail.HttpParser.Path.{
  Dots, strip_dot, escaped_dot, after_dots, dots_from, dot_segment, first_dots, or_next,
}

abbrev pub has_slash : Bytes → Bool
has_slash = any (λ c. c == b'/')

abbrev pub is_clean : Bytes → Bool
is_clean s = not (is_some (dot_segment s))

slash_alone : (t : Bytes) → escaped_dot (b'/' ∷ t) ≡ none
slash_alone [] = refl
slash_alone (y ∷ t) = refl

-- A segment cut off at a slash opens with the same dot as the path from it on.
escaped_dot-append :
    (s t : Bytes)
    → has_slash s ≡ false
    → ((escaped_dot s ≡ none) × (escaped_dot (s ++ b'/' ∷ t) ≡ none))
      ⊎ ((r : Bytes) × (escaped_dot s ≡ some r)
          × (escaped_dot (s ++ b'/' ∷ t) ≡ some (r ++ b'/' ∷ t))
          × (has_slash r ≡ false))
escaped_dot-append [] t e = inl (refl, slash_alone t)
escaped_dot-append (x ∷ []) t e = elim (Bool-cases (x == b'2')) [
  | inl two ↦ inl (refl, rw two refl)
  | inr other ↦ inl (refl, rw other refl)
]
escaped_dot-append (x ∷ y ∷ r) t e = elim (Bool-cases (x == b'2' && (y == b'e' || y == b'E'))) [
  | inl dot ↦ inr (r, rw dot refl, rw dot refl, ground (arith, e))
  | inr other ↦ inl (rw other refl, rw other refl)
]

strip_dot-append :
    (s t : Bytes)
    → has_slash s ≡ false
    → ((strip_dot s ≡ none) × (strip_dot (s ++ b'/' ∷ t) ≡ none))
      ⊎ ((r : Bytes) × (strip_dot s ≡ some r)
          × (strip_dot (s ++ b'/' ∷ t) ≡ some (r ++ b'/' ∷ t))
          × (has_slash r ≡ false))
unfolding strip_dot
strip_dot-append [] t e = inl (refl, refl)
strip_dot-append (b ∷ s) t e =
    let plain : has_slash s ≡ false = ground (arith, e) in
    elim (Bool-cases (b == b'.')) [
      | inl dot ↦ inr (s, rw dot refl, rw dot refl, plain)
      | inr other ↦ elim (Bool-cases (b == b'%')) [
        | inl percent ↦ rw other (rw percent (escaped_dot-append s t plain))
        | inr neither ↦ rw other (rw neither (inl (refl, refl)))
      ]
    ]

after_dots-append : (dots : ℕ) (s t : Bytes) → after_dots dots (s ++ b'/' ∷ t) ≡ after_dots dots s
unfolding after_dots
after_dots-append zero s t = refl
after_dots-append (suc dots) [] t = refl
after_dots-append (suc dots) (b ∷ s) t = refl

dots_from-append :
    (rounds dots : ℕ) (s t : Bytes)
    → has_slash s ≡ false
    → dots_from rounds dots (s ++ b'/' ∷ t) ≡ dots_from rounds dots s
unfolding dots_from
dots_from-append zero dots s t e = refl
dots_from-append (suc rounds) dots s t e = elim (strip_dot-append s t e) [
  | inl (here, there) ↦ rw (here, there, dots_from) (after_dots-append dots s t)
  | inr (r, here, there, plain) ↦
      rw (here, there, dots_from) (dots_from-append rounds (suc dots) r t plain)
]

-- A path opens with the dot-segment of its first segment.
cut_end :
    (v first : Bytes)
    → (v ≡ first) ⊎ ((t : Bytes) × (v ≡ first ++ b'/' ∷ t))
    → has_slash first ≡ false
    → dot_segment v ≡ dot_segment first
unfolding dot_segment
cut_end v first (inl e) plain = ap (dots_from 3 0) e
cut_end v first (inr (t, e)) plain = ap (dots_from 3 0) e ∙ dots_from-append 3 0 first t plain

pub split-first :
    (v : Bytes)
    → (first : Bytes) × (others : List Bytes) × (split b'/' v ≡ first ∷ others)
      × All (λ s. has_slash s ≡ false) (first ∷ others)
      × ((v ≡ first) ⊎ ((t : Bytes) × (v ≡ first ++ b'/' ∷ t)))
unfolding split prepend
split-first [] = ([], [], refl, (refl, tt), inl refl)
split-first (b ∷ bs) =
    let (first, others, parts, plain, whole) = split-first bs in
    elim (Bool-cases (b == b'/')) [
      | inl slash ↦ (
        [],
        first ∷ others,
        rw slash (ap (λ ss. [] ∷ ss) parts),
        (refl, plain),
        inr (bs, ap (λ c. c ∷ bs) ((==_iff b b'/').0 slash)),
      )
      | inr other ↦ (
        b ∷ first,
        others,
        rw other (ap (prepend b) parts),
        (ground (arith, other, plain.0), plain.1),
        elim whole [ inl e ↦ inl (ap (λ x. b ∷ x) e) | inr (t, e) ↦ inr (t, ap (λ x. b ∷ x) e) ],
      )
    ]

abbrev pub others_of : List Bytes → List Bytes
others_of [] = []
others_of (_ ∷ ss) = ss

abbrev pub segments_after : Bool → Bytes → List Bytes
segments_after slash v = if slash then split b'/' v else others_of (split b'/' v)

undotted_byte : (b : ℕ) (bs : Bytes) → (b == b'.' || b == b'%') ≡ false → strip_dot (b ∷ bs) ≡ none
unfolding strip_dot
undotted_byte b bs e =
    let other : (b == b'.') ≡ false = ground (arith, e) in
    let unescaped : (b == b'%') ≡ false = ground (arith, e) in rw other (rw unescaped refl)

-- A byte that opens no dot opens no dot-segment.
undotted : (b : ℕ) (bs : Bytes) → (b == b'.' || b == b'%') ≡ false → dot_segment (b ∷ bs) ≡ none
unfolding dot_segment dots_from after_dots
undotted b bs e = rw (undotted_byte b bs e, dots_from) refl

pub clean_nil : is_clean [] ≡ true
unfolding dot_segment dots_from strip_dot after_dots
clean_nil = refl

clean_undotted : (b : ℕ) (bs : Bytes) → (b == b'.' || b == b'%') ≡ false → is_clean (b ∷ bs) ≡ true
clean_undotted b bs e = ap (λ d. not (is_some d)) (undotted b bs e)

pub split_nil : split b'/' [] ≡ [] ∷ []
unfolding split
split_nil = refl

slash_undotted : (b : ℕ) → (b == b'/') ≡ true → (b == b'.' || b == b'%') ≡ false
slash_undotted b e = ground (arith, e)

opens_with :
    (b : ℕ) (bs first : Bytes)
    → (b == b'/') ≡ false
    → has_slash first ≡ false
    → ((bs ≡ first) ⊎ ((t : Bytes) × (bs ≡ first ++ b'/' ∷ t)))
    → dot_segment (b ∷ bs) ≡ dot_segment (b ∷ first)
opens_with b bs first other plain (inl e) = ap (λ x. dot_segment (b ∷ x)) e
opens_with b bs first other plain (inr (t, e)) =
    cut_end (b ∷ bs) (b ∷ first) (inr (t, ap (λ x. b ∷ x) e)) (ground (arith, other, plain))

pub split_slash :
    (b : ℕ) (bs : Bytes) → (b == b'/') ≡ true → split b'/' (b ∷ bs) ≡ [] ∷ split b'/' bs
unfolding split
split_slash b bs e = rw e refl

pub split_byte :
    (b : ℕ) (bs first : Bytes) (others : List Bytes)
    → (b == b'/') ≡ false
    → split b'/' bs ≡ first ∷ others
    → split b'/' (b ∷ bs) ≡ (b ∷ first) ∷ others
unfolding split prepend
split_byte b bs first others e parts = rw e (ap (prepend b) parts)

abbrev pub clear : List Bytes → Bool
clear = all is_clean

-- The search from a dot on finds the segment of the dot, or goes on.
dot_found :
    (d rest : Option Dots) (others : List Bytes)
    → is_some rest ≡ not (clear others)
    → is_some (or_next d rest) ≡ not (not (is_some d) && clear others)
dot_found none rest others e = e
dot_found (some d) rest others e = refl

-- The search finds a dot-segment exactly when one of the segments is one.
pub first_dots-clean :
    (slash : Bool) (v : Bytes) → is_some (first_dots slash v) ≡ not (clear (segments_after slash v))
unfolding first_dots
first_dots-clean false [] = rw split_nil refl
first_dots-clean true [] = rw split_nil (rw clean_nil refl)
first_dots-clean false (b ∷ bs) =
    let (first, others, parts, _, _) = split-first bs in
    elim (Bool-cases (b == b'/')) [
      | inl slash ↦ rw (split_slash b bs slash) (rw slash (first_dots-clean true bs))
      | inr other ↦
          rw (split_byte b bs first others other parts)
            (rw other (first_dots-clean false bs ∙ ap (λ ss. not (clear (others_of ss))) parts))
    ]
first_dots-clean true (b ∷ bs) =
    let (first, others, parts, plain, whole) = split-first bs in
    elim (Bool-cases (b == b'/')) [
      | inl slash ↦
          rw (split_slash b bs slash)
            (rw (slash_undotted b slash) (rw slash (rw clean_nil (first_dots-clean true bs))))
      | inr other ↦
          let later : is_some (first_dots false bs) ≡ not (clear others) =
            first_dots-clean false bs ∙ ap (λ ss. not (clear (others_of ss))) parts in
          elim (Bool-cases (b == b'.' || b == b'%')) [
            | inl dotted ↦ rw (split_byte b bs first others other parts) (
                rw dotted (
                  rw other (
                    rw (opens_with b bs first other plain.0 whole)
                      (dot_found (dot_segment (b ∷ first)) (first_dots false bs) others later))))
            | inr undot ↦
                rw (split_byte b bs first others other parts)
                  (rw undot (rw other (rw (clean_undotted b first undot) later)))
          ]
    ]
