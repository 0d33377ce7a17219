-- ===== src/HttpParser/Path/Rewrite.antt =====
-- The rewrite of `normalize_path` in src/proxy/http_parser.rs keeps a stack of segments that are no dot-segments.
use mathlib.Core.Bool.{true≢false}
use mathlib.Core.Option.{none-ne-some, some_inj}
use mathlib.Core.Path.{subst}
use portail.Prelude.{
  ◌≡◌, inl, inr, refl, ap, sym, ◌∙◌, arith, true, false, ◌&&◌, not, Option, none, some, List, [],
  ◌∷◌, ◌++◌, ◌==◌, if◌then◌else◌, Bool-cases, Bytes, All, is_empty, is_some, split,
}
use portail.HttpParser.Path.{
  Dots, segment, with_params, dot_segment, first_dots, before_last_slash, take_segment,
  is_with_params, remove_from, remove_dot_segments, rewritten, normalize_path,
}
use portail.HttpParser.Path.Clean.{
  is_clean, has_slash, clear, split-first, first_dots-clean, split_nil, split_slash, split_byte,
  clean_nil,
}

-- The path of a stack of segments, the last on top.
abbrev pub path_of : List Bytes → Bytes
path_of [] = []
path_of (s ∷ ss) = path_of ss ++ b'/' ∷ s

has_slash-append : (x s : Bytes) → has_slash (x ++ b'/' ∷ s) ≡ true
has_slash-append [] s = refl
has_slash-append (b ∷ x) s = ground (arith, has_slash-append x s)

before_last_slash-append :
    (x s : Bytes) → has_slash s ≡ false → before_last_slash (x ++ b'/' ∷ s) ≡ x
unfolding before_last_slash
before_last_slash-append [] s e = rw e refl
before_last_slash-append (b ∷ x) s e =
    rw (has_slash-append x s) (ap (λ y. b ∷ y) (before_last_slash-append x s e))

-- A segment that a rewritten path may hold.
abbrev pub IsKept : Bytes → Type 0
IsKept s = (has_slash s ≡ false) × (is_clean s ≡ true)

abbrev pop : List Bytes → List Bytes
pop [] = []
pop (_ ∷ ss) = ss

path_of-pop : (ss : List Bytes) → All IsKept ss → before_last_slash (path_of ss) ≡ path_of (pop ss)
unfolding before_last_slash
path_of-pop [] ok = refl
path_of-pop (s ∷ ss) (ok, _) = before_last_slash-append (path_of ss) s ok.0

All-pop : (ss : List Bytes) → All IsKept ss → All IsKept (pop ss)
All-pop [] ok = tt
All-pop (s ∷ ss) (_, ok) = ok

-- The stack after a segment.
abbrev stacked : List Bytes → Option Dots → Bytes → List Bytes → List Bytes
stacked ss none s rest = s ∷ ss
stacked ss (some with_params) s rest = ss
stacked ss (some (segment n)) s rest =
    let kept = if n == 1 then ss else pop ss in if is_empty rest then [] ∷ kept else kept

take_segment-path_of :
    (ss : List Bytes) (d : Option Dots) (s : Bytes) (rest : List Bytes)
    → All IsKept ss
    → take_segment (path_of ss) d s rest ≡ path_of (stacked ss d s rest)
unfolding take_segment
take_segment-path_of ss none s rest ok = refl
take_segment-path_of ss (some with_params) s rest ok = refl
take_segment-path_of ss (some (segment n)) s rest ok = elim (Bool-cases (n == 1)) [
  | inl one ↦ elim (Bool-cases (is_empty rest)) [
    | inl last ↦ rw one (rw last refl)
    | inr more ↦ rw one (rw more refl)
  ]
  | inr two ↦ elim (Bool-cases (is_empty rest)) [
    | inl last ↦ rw two (rw last (ap (λ x. x ++ b'/' ∷ []) (path_of-pop ss ok)))
    | inr more ↦ rw two (rw more (path_of-pop ss ok))
  ]
]

All-stacked :
    (ss : List Bytes) (d : Option Dots) (s : Bytes) (rest : List Bytes)
    → All IsKept ss
    → has_slash s ≡ false
    → dot_segment s ≡ d
    → All IsKept (stacked ss d s rest)
All-stacked ss none s rest ok plain e = ((plain, ap (λ d. not (is_some d)) e), ok)
All-stacked ss (some with_params) s rest ok plain e = ok
All-stacked ss (some (segment n)) s rest ok plain e = elim (Bool-cases (n == 1)) [
  | inl one ↦ elim (Bool-cases (is_empty rest)) [
    | inl last ↦ rw one (rw last ((refl, clean_nil), ok))
    | inr more ↦ rw one (rw more ok)
  ]
  | inr two ↦ elim (Bool-cases (is_empty rest)) [
    | inl last ↦ rw two (rw last ((refl, clean_nil), All-pop ss ok))
    | inr more ↦ rw two (rw more (All-pop ss ok))
  ]
]

-- Something is on the stack, or still to come.
abbrev Fed : List Bytes → List Bytes → Type 0
Fed ss rest = (is_empty ss && is_empty rest) ≡ false

Fed-stacked :
    (ss : List Bytes) (d : Option Dots) (s : Bytes) (rest : List Bytes)
    → is_with_params d ≡ false
    → Fed (stacked ss d s rest) rest
Fed-stacked ss none s rest e = refl
Fed-stacked ss (some with_params) s rest e = cc
Fed-stacked ss (some (segment n)) s [] e = refl
Fed-stacked ss (some (segment n)) s (x ∷ rest) e = ground (arith)

-- The rewrite ends with a stack of segments that no longer open with dots.
remove_from-stack :
    (ss rest : List Bytes) (w : Bytes)
    → All IsKept ss
    → All (λ s. has_slash s ≡ false) rest
    → Fed ss rest
    → remove_from (path_of ss) rest ≡ some w
    → (ss' : List Bytes) × (w ≡ path_of ss') × All IsKept ss' × (is_empty ss' ≡ false)
unfolding remove_from
remove_from-stack ss [] w ok plain fed e = (ss, sym (some_inj.0 e), ok, ground (arith, fed))
remove_from-stack ss (s ∷ rest) w ok (here, plain) fed e =
    elim (Bool-cases (is_with_params (dot_segment s))) [
      | inl params ↦ absurd (ground (arith, params, e))
      | inr fine ↦
          let d = dot_segment s in
          remove_from-stack (stacked ss d s rest) rest w (All-stacked ss d s rest ok here refl)
            plain (Fed-stacked ss d s rest fine)
            (ap (λ x. remove_from x rest) (sym (take_segment-path_of ss d s rest ok))
              ∙ ground (arith, fine, e))
    ]

split_plain : (s : Bytes) → has_slash s ≡ false → split b'/' s ≡ s ∷ []
split_plain [] e = split_nil
split_plain (b ∷ s) e = split_byte b s s [] (ground (arith, e)) (split_plain s (ground (arith, e)))

-- A plain segment behind a path is its last part.
split-append :
    (u s : Bytes) → has_slash s ≡ false → split b'/' (u ++ b'/' ∷ s) ≡ split b'/' u ++ s ∷ []
split-append [] s e =
    split_slash b'/' s refl ∙ (ap (λ x. [] ∷ x) (split_plain s e) ∙ rw split_nil refl)
split-append (b ∷ u) s e =
    let (first, others, parts, _, _) = split-first u in
    elim (Bool-cases (b == b'/')) [
      | inl slash ↦
          split_slash b (u ++ b'/' ∷ s) slash
          ∙ (ap (λ x. [] ∷ x) (split-append u s e) ∙ rw (split_slash b u slash) refl)
      | inr other ↦
          split_byte b (u ++ b'/' ∷ s) first (others ++ s ∷ []) other
            (split-append u s e ∙ ap (λ x. x ++ s ∷ []) parts)
          ∙ rw (split_byte b u first others other parts) refl
    ]

clear-append :
    (ss : List Bytes) (s : Bytes)
    → clear ss ≡ true
    → is_clean s ≡ true
    → clear (ss ++ s ∷ []) ≡ true
clear-append [] s e e' = rw e' refl
clear-append (t ∷ ss) s e e' = ground (arith, clear-append ss s (ground (arith, e)) e')

path_of-clear :
    (ss : List Bytes)
    → All IsKept ss
    → is_empty ss ≡ false
    → (u : Bytes) × (path_of ss ≡ b'/' ∷ u) × (clear (split b'/' u) ≡ true)
path_of-clear [] ok e = absurd (true≢false e)
path_of-clear (s ∷ []) ((plain, clean), _) e = (s, refl, rw (split_plain s plain) (rw clean refl))
path_of-clear (s ∷ t ∷ ss) ((plain, clean), ok) e =
    let (u, same, clears) = path_of-clear (t ∷ ss) ok refl in
    (
      u ++ b'/' ∷ s,
      ap (λ x. x ++ b'/' ∷ s) same,
      rw (split-append u s plain) (clear-append (split b'/' u) s clears clean),
    )

none_of_search : (o : Option Dots) → is_some o ≡ false → o ≡ none
none_of_search none e = refl
none_of_search (some d) e = cc

clear-rewritten :
    (v : Bytes) → clear (split b'/' v) ≡ true → rewritten (first_dots true v) v ≡ some (b'/' ∷ v)
clear-rewritten v e =
    ap (λ d. rewritten d v)
      (none_of_search (first_dots true v) (first_dots-clean true v ∙ ap not e))

rewritten-clear :
    (d : Option Dots) (v w : Bytes)
    → first_dots true v ≡ d
    → rewritten d v ≡ some w
    → (u : Bytes) × (w ≡ b'/' ∷ u) × (clear (split b'/' u) ≡ true)
unfolding remove_dot_segments
rewritten-clear none v w found e =
    (v, sym (some_inj.0 e), ground (arith, sym (first_dots-clean true v) ∙ ap is_some found))
rewritten-clear (some (segment n)) v w found e =
    let (first, others, parts, plain, _) = split-first v in
    let (ss, same, ok, some_left) =
      remove_from-stack [] (first ∷ others) w tt plain refl (ap (remove_from []) (sym parts) ∙ e) in
    let (u, path, clears) = path_of-clear ss ok some_left in (u, same ∙ path, clears)
rewritten-clear (some with_params) v w found e = absurd (none-ne-some w e)

-- A path given for one that opens with a slash opens with one too; none of its segments opens with dots that end it or
-- precede parameters. It is given for itself, and a path without such segments is given unchanged.
pub normalize_path-IsClean :
    (v w : Bytes)
    → normalize_path (b'/' ∷ v) ≡ some w
    → ((u : Bytes) × (w ≡ b'/' ∷ u) × (clear (split b'/' u) ≡ true))
      × (normalize_path w ≡ some w)
      × (clear (split b'/' v) ≡ true → w ≡ b'/' ∷ v)
unfolding normalize_path
normalize_path-IsClean v w e =
    let (u, same, clears) = rewritten-clear (first_dots true v) v w refl e in
    (
      (u, same, clears),
      subst (λ x. normalize_path x ≡ some x) (sym same) (clear-rewritten u clears),
      λ clean. some_inj.0 (sym e ∙ clear-rewritten v clean),
    )
