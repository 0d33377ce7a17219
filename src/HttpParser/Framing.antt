-- ===== src/HttpParser/Framing.antt =====
-- A head that `extract_routing_info` of src/proxy/http_parser.rs passes without a violation: each header that frames or
-- routes the message stands in at most one of its lines.
use mathlib.Core.List.{append_assoc}
use mathlib.Core.Bool.{true≢false, false≢true}
use mathlib.Core.Option.{none-ne-some}
use portail.Prelude.{
  ℕ, zero, suc, ◌≡◌, refl, ap, sym, ◌∙◌, Bool, true, false, Option, none, some, List, [], ◌∷◌, ◌++◌,
  inl, inr, ◌⊎◌, if◌then◌else◌, Bool-cases, Option-cases, Bytes, codes, eq_ignore_case,
  strip_prefix, strip_prefix-eq-some, is_some, ◌==◌, ==_iff,
}
use portail.HttpParser.Head.{Head, header_line, head_lines, split_line}
use portail.HttpParser.Lines.{
  print_line, print_lines, Reads, done, line, Passed, split_line-some, refused, blank_line,
  next_line, stopped_line, at_end, no_fuel,
}
use portail.HttpParser.Effects.{header_line-Effect}

-- The values of the lines of one name, in order.
unfoldable pub values : Bytes → List (Bytes × Bytes) → List Bytes
values name [] = []
values name ((n, v) ∷ ls) =
    let rest = values name ls in if eq_ignore_case n name then v ∷ rest else rest

-- The name stands in no line and nothing was found, or in one line, which says what was found.
abbrev pub Once :
    {A : Type 0} → Bytes → (Bytes → A → Type 0) → List (Bytes × Bytes) → Option A → Type 0
Once {A} name Says ls found =
    ((values name ls ≡ []) × (found ≡ none))
    ⊎ ((v : Bytes) × (a : A) × (values name ls ≡ v ∷ []) × Says v a × (found ≡ some a))

unended : {last h : Head} → last ≡ h → h.terminated ≡ false → last.terminated ≡ true → ⊥
unended e open_ end = false≢true (sym open_ ∙ (sym (ap (λ (x : Head). x.terminated) e) ∙ end))

violated : {last h : Head} → last ≡ h → h.violation ≡ true → last.violation ≡ false → ⊥
violated e bad free = true≢false (sym bad ∙ (sym (ap (λ (x : Head). x.violation) e) ∙ free))

module _ (b : Bool) where
  Passed-blank :
      (f : ℕ) (h : Head) (c : ℕ) (bs rest : Bytes)
      → h.violation ≡ false
      → (c == b'\r') ≡ true
      → strip_prefix (codes "\n") bs ≡ some rest
      → Passed b h (c ∷ bs) (head_lines (suc f) b h (c ∷ bs))
  Passed-blank f h c bs rest fine cr e = record {
    lines = [];
    behind = rest;
    before_end = h;
    reads = done;
    ended = blank_line b f h c bs fine cr ∙ ap (λ t. record h { terminated = t }) (ap is_some e);
    whole = cc ((==_iff c b'\r').0 cr, strip_prefix-eq-some (codes "\n") bs rest e);
  }

  Passed-line :
      (f : ℕ) (h : Head) (c : ℕ) (bs name v rest : Bytes)
      → h.violation ≡ false
      → (c == b'\r') ≡ false
      → split_line (c ∷ bs) ≡ some (name, v, rest)
      → (header_line b name v h).violation ≡ false
      → Passed b (header_line b name v h) rest (head_lines f b (header_line b name v h) rest)
      → Passed b h (c ∷ bs) (head_lines (suc f) b h (c ∷ bs))
  Passed-line f h c bs name v rest fine other e free p =
      let (text, ok) = split_line-some (c ∷ bs) name v rest e in
      record {
        lines = (name, v) ∷ p.lines;
        behind = p.behind;
        before_end = p.before_end;
        reads = line ok free p.reads;
        ended = next_line b f h c bs name v rest fine other e ∙ p.ended;
        whole =
            text
            ∙ (ap (λ x. print_line (name, v) ++ x) p.whole
                ∙ sym (
                    append_assoc (print_line (name, v)) (print_lines p.lines)
                      (codes "\r\n" ++ p.behind)));
      }

  -- The pass that ends well has read lines and the blank line.
  pub head_lines-Passed :
      (f : ℕ) (h : Head) (bytes : Bytes)
      → h.terminated ≡ false
      → (head_lines f b h bytes).violation ≡ false
      → (head_lines f b h bytes).terminated ≡ true
      → Passed b h bytes (head_lines f b h bytes)
  head_lines-Passed f h [] open_ free end = absurd (unended (at_end b f h) open_ end)
  head_lines-Passed zero h (c ∷ bs) open_ free end =
      absurd (unended (no_fuel b h (c ∷ bs)) open_ end)
  head_lines-Passed (suc f) h (c ∷ bs) open_ free end = elim (Bool-cases h.violation) [
    | inl bad ↦ absurd (violated (refused b (suc f) h (c ∷ bs) bad) bad free)
    | inr fine ↦ elim (Bool-cases (c == b'\r')) [
      | inl cr ↦ elim (Option-cases (strip_prefix (codes "\n") bs)) [
        | inl missing ↦ absurd (
            unended
              (blank_line b f h c bs fine cr
                ∙ ap (λ t. record h { terminated = t }) (ap is_some missing))
              refl end)
        | inr (rest, e) ↦ Passed-blank f h c bs rest fine cr e
      ]
      | inr other ↦ elim (Option-cases (split_line (c ∷ bs))) [
        | inl none_left ↦ absurd (violated (stopped_line b f h c bs fine other none_left) refl free)
        | inr ((name, v, rest), e) ↦
            let next = next_line b f h c bs name v rest fine other e in
            elim (Bool-cases (header_line b name v h).violation) [
              | inl bad ↦
                  absurd (violated (next ∙ refused b f (header_line b name v h) rest bad) bad free)
              | inr ok ↦ Passed-line f h c bs name v rest fine other e ok (
                  head_lines-Passed f (header_line b name v h) rest
                    ((header_line-Effect b name v h ok).1 ∙ open_)
                    (sym (ap (λ (x : Head). x.violation) next) ∙ free)
                    (sym (ap (λ (x : Head). x.terminated) next) ∙ end))
            ]
      ]
    ]
  ]

  module _ {A : Type 0} (view : Head → Option A) (lit : Bytes) (Says : Bytes → A → Type 0)
      (step : (name v : Bytes) (h : Head)
        → (header_line b name v h).violation ≡ false
        → ((eq_ignore_case name lit ≡ true)
            × (view h ≡ none)
            × ((a : A) × Says v a × (view (header_line b name v h) ≡ some a)))
          ⊎ ((eq_ignore_case name lit ≡ false) × (view (header_line b name v h) ≡ view h))) where
    abbrev pub Since : Head → List (Bytes × Bytes) → Head → Type 0
    Since h ls h' =
        ((values lit ls ≡ []) × (view h' ≡ view h))
        ⊎ ((view h ≡ none)
            × ((v : Bytes) × (a : A) × (values lit ls ≡ v ∷ []) × Says v a × (view h' ≡ some a)))

    pub Reads-Since : {h h' : Head} {ls : List (Bytes × Bytes)} → Reads b h ls h' → Since h ls h'
    unfolding values
    Reads-Since done = inl (refl, refl)
    Reads-Since (line {h} {h'} {name} {v} {ls} ok free rest) = elim (step name v h free) [
      | inl (hit, fresh, (a, says, found)) ↦ elim (Reads-Since rest) [
        | inl (no_more, same) ↦
            inr (fresh, (v, a, rw hit (ap (λ vs. v ∷ vs) no_more), says, same ∙ found))
        | inr (unset, _) ↦ absurd (none-ne-some a (sym unset ∙ found))
      ]
      | inr (miss, kept) ↦ elim (Reads-Since rest) [
        | inl (no_more, same) ↦ inl (rw miss no_more, same ∙ kept)
        | inr (unset, (w, a, one, says, found)) ↦
            inr (sym kept ∙ unset, (w, a, rw miss one, says, found))
      ]
    ]
