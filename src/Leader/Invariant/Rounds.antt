-- ===== src/Leader/Invariant/Rounds.antt =====
-- The invariant of one replica through the loop of src/kubernetes/controller/leader.rs, and how long it leads.
use portail.Prelude.{
  ℕ, ◌+◌, ◌-◌, ◌*◌, ◌≤◌, ◌≡◌, ◌⊎◌, inl, inr, refl, ap, ◌∙◌, arith, true, false, Option, none, some,
  [], Bytes, Bool-cases, Option-cases, leb,
}
use portail.Leader.Role.{Leader, is_leader, set, lost, standby}
use portail.Leader.Lock.{
  LeaseSpec, Lease, from_secs, renew_deadline, retry_period, observe, observed_as,
}
use portail.Leader.Campaign.{
  Campaign, Phase, asleep, reading, read, writing, written, releasing, ended, begin, budget,
  deadline, failed, failed_at, renew, give_way, halt,
}
use portail.Leader.System.{ApiServer, World, is_in_round, is_live, goes, killed, requests}
use portail.Leader.Invariant.{Local, Owns, Snapshot, IsSound}

deadline-le : (c : Campaign) → deadline c ≤ c.started + from_secs 10
unfolding deadline budget
deadline-le c = elim (Option-cases c.renewed) [
  | inl e ↦ rw e (omega arith)
  | inr (at, e) ↦ rw e (omega arith)
]

deadline-le_renewed :
    (c : Campaign) (r b : ℕ)
    → c.renewed ≡ some r
    → r + from_secs 10 ≤ b
    → c.started ≤ b
    → deadline c ≤ b
unfolding deadline budget
deadline-le_renewed c r b e h k = simp e (omega arith)

deadline-ge : (c : Campaign) → c.started ≤ deadline c
unfolding deadline
deadline-ge c = omega arith

observed_as-cases :
    (o : Option (LeaseSpec × ℕ)) (r : LeaseSpec) (now : ℕ) (r' : LeaseSpec) (at : ℕ)
    → observed_as o r now ≡ some (r', at)
    → (o ≡ some (r', at)) ⊎ (at ≡ now)
unfolding observed_as
observed_as-cases none r now r' at e = ground arith
observed_as-cases (some (q, t)) r now r' at e = ground arith

in_round_live : (p : Phase) → is_in_round p ≡ true → is_live p ≡ true
in_round_live (asleep _) e = refl
in_round_live reading e = refl
in_round_live (read _) e = refl
in_round_live (writing _) e = refl
in_round_live (written _) e = refl
in_round_live releasing e = cc
in_round_live ended e = cc

module _ (c : Campaign) (now : ℕ) where
  failed_unheld :
      (wait : ℕ) → c.renewed ≡ none → failed c now wait ≡ record c { phase = asleep (now + wait) }
  unfolding failed
  failed_unheld wait e = ap (λ o. failed_at o c now wait) e

  failed_late :
      (wait at : ℕ)
      → c.renewed ≡ some at
      → leb renew_deadline (now - at) ≡ true
      → failed c now wait ≡ record c { leader = set c.leader lost now; phase = ended }
  unfolding failed
  failed_late wait at e late = ap (λ o. failed_at o c now wait) e ∙ rw late refl

  failed_early :
      (wait at : ℕ)
      → c.renewed ≡ some at
      → leb renew_deadline (now - at) ≡ false
      → failed c now wait ≡ record c { phase = asleep (now + retry_period) }
  unfolding failed
  failed_early wait at e early = ap (λ o. failed_at o c now wait) e ∙ rw early refl

  give_way_unheld :
      (wait : ℕ) → c.renewed ≡ none → give_way c now wait ≡ record c { phase = asleep (now + wait) }
  unfolding give_way
  give_way_unheld wait e = simp e

  give_way_held :
      (wait at : ℕ)
      → c.renewed ≡ some at
      → give_way c now wait ≡ record c { leader = set c.leader lost now; phase = ended }
  unfolding give_way
  give_way_held wait at e = simp e

  halt_unheld : c.renewed ≡ none → halt c now ≡ record c { phase = ended }
  unfolding halt
  halt_unheld e = simp e

  halt_held :
      (at : ℕ)
      → c.renewed ≡ some at
      → halt c now ≡ record c { leader = set c.leader standby now; phase = releasing }
  unfolding halt
  halt_held at e = simp e

-- These ends of a round send nothing.
pub failed_quiet : (i : ℕ) (c : Campaign) (now wait : ℕ) → requests i (failed c now wait).phase ≡ []
unfolding failed
failed_quiet i c now wait = elim (Option-cases c.renewed) [
  | inl unheld ↦ rw (failed_unheld c now wait unheld) refl
  | inr (at, renewed) ↦ elim (Bool-cases (leb renew_deadline (now - at))) [
    | inl late ↦ rw (failed_late c now wait at renewed late) refl
    | inr early ↦ rw (failed_early c now wait at renewed early) refl
  ]
]

pub give_way_quiet :
    (i : ℕ) (c : Campaign) (now wait : ℕ) → requests i (give_way c now wait).phase ≡ []
give_way_quiet i c now wait = elim (Option-cases c.renewed) [
  | inl unheld ↦ rw (give_way_unheld c now wait unheld) refl
  | inr (at, renewed) ↦ rw (give_way_held c now wait at renewed) refl
]

pub halt_quiet : (i : ℕ) (c : Campaign) (now : ℕ) → requests i (halt c now).phase ≡ []
halt_quiet i c now = elim (Option-cases c.renewed) [
  | inl unheld ↦ rw (halt_unheld c now unheld) refl
  | inr (at, renewed) ↦ rw (halt_held c now at renewed) refl
]

lost_idle : (l : Leader) (now : ℕ) → is_leader (set l lost now) ≡ false
unfolding is_leader set
lost_idle l now = refl

standby_idle : (l : Leader) (now : ℕ) → is_leader (set l standby now) ≡ false
unfolding is_leader set
standby_idle l now = refl

phase-cases :
    (p : Phase) → ((v : ℕ) × (p ≡ asleep v)) ⊎ ((is_in_round p ≡ true) ⊎ (is_live p ≡ false))
phase-cases (asleep v) = inl (v, refl)
phase-cases reading = inr (inl refl)
phase-cases (read _) = inr (inl refl)
phase-cases (writing _) = inr (inl refl)
phase-cases (written _) = inr (inl refl)
phase-cases releasing = inr (inr refl)
phase-cases ended = inr (inr refl)

module _ {S : Type 0} (server : ApiServer S) (skew : ℕ → ℕ) (slack : ℕ) (identity : ℕ → Bytes)
    {w : World S} {i : ℕ} {c : Campaign} (h : Local server skew slack identity w i c) where
  abbrev now : ℕ
  now = w.time + skew i

  -- A leader's last renewal began at most twelve seconds and three delays ago.
  pub leads_bound :
      (r : ℕ)
      → is_leader c.leader ≡ true
      → c.renewed ≡ some r
      → w.time + skew i ≤ r + from_secs 12 + 3 * slack
  leads_bound r lead e =
      let (r', e', _, (sleeps, works), _) = h.leads lead in
      let same : r' ≡ r = ground (arith, e', e) in
      elim (phase-cases c.phase) [
        | inl (v, p) ↦ omega (arith, h.timely.0 v p lead, sleeps v p, same)
        | inr (inl p) ↦ omega (
          arith,
          h.timely.1 p,
          deadline-le_renewed c r (r + from_secs 12 + 2 * slack) e (omega arith)
              (omega (arith, works p, same)),
        )
        | inr (inr p) ↦ cc (h.live lead)
      ]

  pub round_bound : is_in_round c.phase ≡ true → w.time + skew i ≤ c.started + from_secs 10 + slack
  round_bound p = omega (arith, h.timely.1 p, deadline-le c)

  unled : c.renewed ≡ none → ¬ (is_leader c.leader ≡ true)
  unled e lead = let (r, p, _, _, _) = h.leads lead in cc

  unleading : c.renewed ≡ none → is_leader c.leader ≡ false
  unleading e = elim (Bool-cases (is_leader c.leader)) [
    | inl lead ↦ absurd (unled e lead)
    | inr no_lead ↦ no_lead
  ]

  -- The task sleeps until `u`, and leads only by a renewal that lasts until then.
  Local-asleep :
      (l : Leader) (renewed : Option ℕ) (u : ℕ)
      → w.time + skew i ≤ u + slack
      → (is_leader l ≡ true
          → (r : ℕ) × (renewed ≡ some r)
            × (r ≤ c.started)
            × (u ≤ r + from_secs 12 + slack)
            × Owns server skew slack identity w i r)
      → Local server skew slack identity w i
          (record c { leader = l; renewed = renewed; phase = asleep u })
  Local-asleep l renewed u soon lead = record {
    named = h.named;
    begun = h.begun;
    timely = (λ v e _. ground (arith, soon), λ e. cc);
    live = λ _. refl;
    leads =
        λ e. let (r, p, q, b, o) = lead e in (r, p, q, (λ v e'. ground (arith, b), λ e'. cc), o);
    holds = λ _ e. cc;
    snapshot = λ _ e. cc;
    seen = h.seen;
  }

  -- The task does not lead, and is not in a round.
  Local-idle :
      (l : Leader) (p : Phase)
      → is_leader l ≡ false
      → is_in_round p ≡ false
      → Local server skew slack identity w i (record c { leader = l; phase = p })
  Local-idle l p idle out = record {
    named = h.named;
    begun = h.begun;
    timely = (λ v e e'. cc, λ e. cc);
    live = λ e. cc;
    leads = λ e. cc;
    holds = λ x e. absurd (ground (arith, out, e));
    snapshot = λ x e. absurd (ground (arith, out, e));
    seen = h.seen;
  }

  pub Local-begin :
      (v : ℕ) → c.phase ≡ asleep v → Local server skew slack identity w i (begin c now)
  unfolding begin
  Local-begin v e = record {
    named = h.named;
    begun = omega arith;
    timely = (λ u e'. cc, λ _. omega (arith, deadline-ge (begin c now)));
    live = λ _. refl;
    leads = λ lead.
        let (r, p, q, (sleeps, _), o) = h.leads lead in
        (
          r,
          p,
          omega (arith, q, h.begun),
          (λ u e'. cc, λ _. omega (arith, h.timely.0 v e lead, sleeps v e)),
          o,
        );
    holds = λ _ e'. cc;
    snapshot = λ _ e'. cc;
    seen = h.seen;
  }

  pub Local-failed :
      (wait : ℕ)
      → is_in_round c.phase ≡ true
      → Local server skew slack identity w i (failed c now wait)
  Local-failed wait e = elim (Option-cases c.renewed) [
    | inl unheld ↦ rw (failed_unheld c now wait unheld) (
        Local-asleep c.leader c.renewed (now + wait) (omega arith)
          (λ lead. absurd (unled unheld lead)))
    | inr (at, renewed) ↦ elim (Bool-cases (leb renew_deadline (now - at))) [
      | inl late ↦
          rw (failed_late c now wait at renewed late)
            (Local-idle (set c.leader lost now) ended (lost_idle c.leader now) refl)
      | inr early ↦ rw (failed_early c now wait at renewed early) (
          Local-asleep c.leader c.renewed (now + retry_period) (omega arith) (λ lead.
            let (r, p, q, _, o) = h.leads lead in (r, p, q, ground (arith, p, renewed, early), o)))
    ]
  ]

  pub Local-give_way : (wait : ℕ) → Local server skew slack identity w i (give_way c now wait)
  Local-give_way wait = elim (Option-cases c.renewed) [
    | inl unheld ↦ rw (give_way_unheld c now wait unheld) (
        Local-asleep c.leader c.renewed (now + wait) (omega arith)
          (λ lead. absurd (unled unheld lead)))
    | inr (at, renewed) ↦
        rw (give_way_held c now wait at renewed)
          (Local-idle (set c.leader lost now) ended (lost_idle c.leader now) refl)
  ]

  pub Local-renew :
      is_in_round c.phase ≡ true
      → Owns server skew slack identity w i c.started
      → Local server skew slack identity w i (renew c now)
  unfolding renew
  Local-renew e o =
      Local-asleep _ (some c.started) (w.time + skew i + retry_period) (omega arith)
        (λ _. (c.started, refl, omega arith, omega (arith, round_bound e), o))

  pub Local-halt : Local server skew slack identity w i (halt c now)
  Local-halt = elim (Option-cases c.renewed) [
    | inl unheld ↦ rw (halt_unheld c now unheld) (Local-idle c.leader ended (unleading unheld) refl)
    | inr (at, renewed) ↦
        rw (halt_held c now at renewed)
          (Local-idle (set c.leader standby now) releasing (standby_idle c.leader now) refl)
  ]

  pub Local-quit : is_live c.phase ≡ false → Local server skew slack identity w i (goes c ended)
  Local-quit e = Local-idle c.leader ended (ground (arith, h.live, e)) refl

  pub Local-killed : Local server skew slack identity w i (killed c)
  unfolding is_leader
  Local-killed = Local-idle (record c.leader { role = lost }) ended refl refl

  -- An observation at the instant at which it is made.
  pub Local-observe :
      (r : LeaseSpec)
      → IsSound server skew slack identity w
      → Local server skew slack identity w i (record c { lock = observe c.lock r now })
  unfolding observe deadline
  Local-observe r sound = record {
    named = h.named;
    begun = h.begun;
    timely = h.timely;
    live = h.live;
    leads = h.leads;
    holds = h.holds;
    snapshot = h.snapshot;
    seen = λ r' at cur e e' e''. elim (observed_as-cases c.lock.observed r _ r' at e) [
      | inl old ↦ h.seen r' at cur old e' e''
      | inr new ↦ omega (arith, sound.past, new)
    ];
  }

  -- The round goes on.
  pub Local-goes :
      (p : Phase)
      → is_in_round c.phase ≡ true
      → is_in_round p ≡ true
      → ((l : Lease) → p ≡ written l → Owns server skew slack identity w i c.started)
      → ((l : Lease) → p ≡ read (some l) → Snapshot server skew slack identity w l)
      → Local server skew slack identity w i (goes c p)
  unfolding deadline
  Local-goes p e e' owns snap = record {
    named = h.named;
    begun = h.begun;
    timely = (λ v e''. absurd (ground (arith, e', e'')), λ _. h.timely.1 e);
    live = λ _. in_round_live p e';
    leads = λ lead.
        let (r, q, k, (_, works), o) = h.leads lead in
        (r, q, k, (λ v e''. absurd (ground (arith, e', e'')), λ _. works e), o);
    holds = owns;
    snapshot = snap;
    seen = h.seen;
  }
