-- ===== src/Routing/Table/Priority.antt =====
-- src/routing/mod.rs: which listener hostnames share a priority.
use portail.Prelude.{
  ℕ, ◌+◌, ◌-◌, ◌^◌, ◌<◌, Option, none, some, ◌∷◌, ◌≡◌, ◌⊎◌, inl, inr, refl, sym, ap, ◌∙◌, arith,
  Bytes, bytes_eq, bytes_eq_iff, length, length-append, Bool-cases, Option-cases,
}
use mathlib.Core.Option.{none-ne-some}
use portail.Routing.Hosts.{wildcard_covers, wildcard_parent}
use portail.Routing.Hosts.Laws.{IsUnder, IsUnder-both, wildcard_covers_iff, wildcard_split}
use portail.Routing.Table.{
  ListenerScope, hostname_match_priority, listener_priority, host_priority, u32_max,
}

some-eq : {a b : ℕ} → some a ≡ some b → a ≡ b
some-eq e = cc

length-IsUnder : (p h : Bytes) → IsUnder p h → length p < length h
length-IsUnder p h (l, e) = let n = ap length e ∙ length-append l (b'.' ∷ p) in omega arith

-- What a hostname with a priority is: absent, the host itself, or a wildcard over it.
abbrev Ranked : Bytes → Option Bytes → ℕ → Type 0
Ranked h lh n =
    ((lh ≡ none) × (n ≡ 0))
    ⊎ ((lh ≡ some h) × (n ≡ u32_max))
    ⊎ ((p : Bytes) × (lh ≡ some (b'*' ∷ b'.' ∷ p)) × IsUnder p h × (n ≡ 1 + length p))

listener_priority-Ranked :
    (lh : Option Bytes) (h : Bytes) (n : ℕ) → listener_priority lh h ≡ some n → Ranked h lh n
unfolding listener_priority host_priority
listener_priority-Ranked none h n e = inl (refl, sym (some-eq e))
listener_priority-Ranked (some lh) h n e = elim (Option-cases (wildcard_parent lh)) [
  | inr (p, w) ↦ elim (Bool-cases (wildcard_covers p h)) [
    | inl c ↦ inr (
        inr (
          p,
          ap some (wildcard_split lh p w),
          (wildcard_covers_iff p h).0 c,
          sym (some-eq (rw (w, c) at e)),
        ))
    | inr c ↦ absurd (none-ne-some n (rw (w, c) at e))
  ]
  | inl w ↦ elim (Bool-cases (bytes_eq h lh)) [
    | inl c ↦ inr (inl (ap some (sym ((bytes_eq_iff h lh).0 c)), sym (some-eq (rw (w, c) at e))))
    | inr c ↦ absurd (none-ne-some n (rw (w, c) at e))
  ]
]

same-Ranked :
    (h : Bytes) (a b : Option Bytes) (n : ℕ)
    → length h < 2 ^ 32 - 2
    → Ranked h a n
    → Ranked h b n
    → a ≡ b
same-Ranked h a b n s (inl (e, z)) (inl (f, y)) = e ∙ sym f
same-Ranked h a b n s (inl (e, z)) (inr (inl (f, y))) = absurd (omega arith)
same-Ranked h a b n s (inl (e, z)) (inr (inr (p, f, u, y))) = absurd (omega arith)
same-Ranked h a b n s (inr (inl (e, z))) (inl (f, y)) = absurd (omega arith)
same-Ranked h a b n s (inr (inl (e, z))) (inr (inl (f, y))) = e ∙ sym f
same-Ranked h a b n s (inr (inl (e, z))) (inr (inr (p, f, u, y))) =
    absurd (omega (arith, length-IsUnder p h u))
same-Ranked h a b n s (inr (inr (p, e, u, z))) (inl (f, y)) = absurd (omega arith)
same-Ranked h a b n s (inr (inr (p, e, u, z))) (inr (inl (f, y))) =
    absurd (omega (arith, length-IsUnder p h u))
same-Ranked h a b n s (inr (inr (p, e, u, z))) (inr (inr (q, f, v, y))) =
    elim (IsUnder-both p q h u v) [
      | inl w ↦ e ∙ ap (λ x. some (b'*' ∷ b'.' ∷ x)) w ∙ sym f
      | inr (inl w) ↦ absurd (omega (arith, length-IsUnder p q w))
      | inr (inr w) ↦ absurd (omega (arith, length-IsUnder q p w))
    ]

-- Two scopes that match a host of less than 2 ^ 32 - 2 bytes with the same priority have the same listener hostname.
pub hostname_match_priority_distinct :
    {Regex : Type 0} (s t : ListenerScope Regex) (h : Bytes) (n : ℕ)
    → length h < 2 ^ 32 - 2
    → hostname_match_priority s h ≡ some n
    → hostname_match_priority t h ≡ some n
    → s.listener_hostname ≡ t.listener_hostname
unfolding hostname_match_priority
hostname_match_priority_distinct s t h n small e f =
    same-Ranked h s.listener_hostname t.listener_hostname n small
      (listener_priority-Ranked s.listener_hostname h n e)
      (listener_priority-Ranked t.listener_hostname h n f)
