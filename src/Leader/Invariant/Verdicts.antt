-- ===== src/Leader/Invariant/Verdicts.antt =====
-- What a replica writes after what it read, in src/kubernetes/controller/leader.rs: a request that takes no lease which
-- still binds another replica.
use portail.Prelude.{
  ℕ, ◌≤◌, ◌≡◌, ◌⊎◌, ◌↔◌, inl, inr, refl, ap, sym, ◌∙◌, ◌+◌, arith, Bool, true, false, Option, none,
  some, [], ◌∷◌, ◌&&◌, Bytes, Bool-cases, Eq, nat_eq, bytes_key, option_beq_iff, bytes_eq,
  bytes_eq_iff, is_empty, ==_iff,
}
use mathlib.Core.List.Memᴰ
use mathlib.Core.List.{Memᴰ}
use mathlib.Core.Path.{subst}
use portail.Kubernetes.Objects.{ℤ, pos, negsuc, int_beq}
use portail.Leader.Lock.{
  LeaseSpec, Lease, LeaseLock, Call, create, replace, from_secs, lease_duration_secs, observe,
  observed_as, spec_eq, spec_of, holder_of, is_barred, changed_at, valid_for, first_lease,
  next_spec, on_get,
}
use portail.Leader.Campaign.{Campaign, writing, read, proceed, give_way, after}
use portail.Leader.System.{ApiServer, World, Request, goes, requests}
use portail.Leader.Invariant.{Local, Snapshot, IsSound, IsFree, Harmless}
use portail.Leader.Invariant.Rounds.{Local-observe, Local-goes, Local-give_way, give_way_quiet}

pub int_beq_iff : (a b : ℤ) → (int_beq a b ≡ true) ↔ (a ≡ b)
int_beq_iff (pos m) (pos n) = ground (arith, ==_iff m n)
int_beq_iff (pos m) (negsuc n) = ground arith
int_beq_iff (negsuc m) (pos n) = ground arith
int_beq_iff (negsuc m) (negsuc n) = ground (arith, ==_iff m n)

instance abbrev pub int_eq : Eq ℤ
int_eq = record { beq = int_beq; beq_iff = int_beq_iff }

all_true :
    (a b c d e f g : Bool)
    → (a && b && c && d && e && f && g) ≡ true
    → (a ≡ true) × (b ≡ true) × (c ≡ true) × (d ≡ true) × (e ≡ true) × (f ≡ true) × (g ≡ true)
all_true a b c d e f g h = ground arith

pub eq_of-spec_eq : (a b : LeaseSpec) → spec_eq a b ≡ true → a ≡ b
unfolding spec_eq
eq_of-spec_eq a b h =
    let (p, q, r, s, t, u, v) = all_true _ _ _ _ _ _ _ h in
    λ i. record {
      holder_identity = (option_beq_iff a.holder_identity b.holder_identity).0 p i;
      lease_duration_seconds =
          (option_beq_iff a.lease_duration_seconds b.lease_duration_seconds).0 q i;
      acquire_time = (option_beq_iff a.acquire_time b.acquire_time).0 r i;
      renew_time = (option_beq_iff a.renew_time b.renew_time).0 s i;
      lease_transitions = (option_beq_iff a.lease_transitions b.lease_transitions).0 t i;
      preferred_holder = (option_beq_iff a.preferred_holder b.preferred_holder).0 u i;
      strategy = (option_beq_iff a.strategy b.strategy).0 v i;
    }

-- After an observation the lock holds the record observed.
observed_as-some :
    (o : Option (LeaseSpec × ℕ)) (r : LeaseSpec) (now : ℕ)
    → (at : ℕ) × (observed_as o r now ≡ some (r, at))
unfolding observed_as
observed_as-some none r now = (now, refl)
observed_as-some (some (q, t)) r now = elim (Bool-cases (spec_eq q r)) [
  | inl same ↦ (t, rw same (ap (λ (x : LeaseSpec). some (x, t)) (eq_of-spec_eq q r same)))
  | inr other ↦ (now, rw other refl)
]

is_empty-eq : (s : Bytes) → is_empty s ≡ true → s ≡ []
is_empty-eq [] e = refl
is_empty-eq (x ∷ s) e = cc

-- A record that does not bar the candidate names nobody, or itself, or has not changed for its duration.
unbarred :
    (l : LeaseLock) (started : ℕ) (r : LeaseSpec)
    → is_barred l started r ≡ false
    → (holder_of r ≡ [])
      ⊎ ((holder_of r ≡ l.identity) ⊎ (changed_at l started + valid_for r ≤ started))
unfolding is_barred
unbarred l started r e =
    ground (arith, is_empty-eq (holder_of r), bytes_eq_iff (holder_of r) l.identity)

valid_for_lasting :
    (r : LeaseSpec)
    → r.lease_duration_seconds ≡ some (pos lease_duration_secs)
    → valid_for r ≡ from_secs lease_duration_secs
unfolding valid_for
valid_for_lasting r e = rw e refl

pub changed_at-some :
    (l : LeaseLock) (started at : ℕ) (r : LeaseSpec)
    → l.observed ≡ some (r, at)
    → changed_at l started ≡ at
unfolding changed_at
changed_at-some l started at r e = rw e refl

abbrev pub seen_now : Campaign → LeaseSpec → ℕ → Campaign
seen_now c r now = record c { lock = observe c.lock r now }

-- The request that renews the lease, or takes it over.
abbrev pub next_call : Campaign → ℕ → Lease → Call
next_call c wall l =
    let r = spec_of l in
    replace (record l {
      spec = some (next_spec c.lock.identity (bytes_eq (holder_of r) c.lock.identity) wall r);
    })

module _ (c : Campaign) (now wall wait : ℕ) where
  pub proceed-none :
      proceed c now wall wait none ≡ goes c (writing (create (first_lease c.lock wall)))
  unfolding proceed on_get
  proceed-none = refl

  module _ (l : Lease) where
    proceed_barred :
        is_barred (observe c.lock (spec_of l) now) c.started (spec_of l) ≡ true
        → proceed c now wall wait (some l) ≡ give_way (seen_now c (spec_of l) now) now wait
    unfolding proceed on_get after
    proceed_barred e = rw (e, proceed, on_get) refl

    pub proceed_free :
        is_barred (observe c.lock (spec_of l) now) c.started (spec_of l) ≡ false
        → proceed c now wall wait (some l)
          ≡ goes (seen_now c (spec_of l) now) (writing (next_call c wall l))
    unfolding proceed on_get observe
    proceed_free e = rw (e, proceed, on_get) refl

module _ {S : Type 0} (server : ApiServer S) (skew : ℕ → ℕ) (slack : ℕ) (identity : ℕ → Bytes)
    {w : World S} (sound : IsSound server skew slack identity w) {i : ℕ} {c : Campaign}
    (h : Local server skew slack identity w i c) where
  abbrev now : ℕ
  now = w.time + skew i

  observed_changed :
      (r : LeaseSpec) (cur : Lease)
      → server.current w.store ≡ some cur
      → spec_of cur ≡ r
      → w.landed + skew i ≤ changed_at (observe c.lock r now) c.started
  unfolding observe
  observed_changed r cur e e' =
      let (at, o) = observed_as-some c.lock.observed r now in
      let k = (Local-observe server skew slack identity h r sound).seen r at cur o e e' in
      rw (changed_at-some (observe c.lock r now) c.started at r o) k

  -- A Lease that does not bar the candidate is free for it, as long as nobody has written it since.
  unbarred-IsFree :
      (l : Lease)
      → is_barred (observe c.lock (spec_of l) now) c.started (spec_of l) ≡ false
      → server.current w.store ≡ some l
      → IsFree server skew slack identity w i
  unfolding observe
  unbarred-IsFree l e current cur e' =
      let same : l ≡ cur = cc in
      elim (unbarred _ _ _ e) [
        | inl nobody ↦ inl (rw (← same) nobody)
        | inr (inl own) ↦ inr (inl (rw (← same) (own ∙ h.named)))
        | inr (inr expired) ↦ elim (sound.lasting l current) [
          | inl nobody ↦ inl (rw (← same) nobody)
          | inr lasts ↦ inr (
              inr (
                omega (
                  arith,
                  expired,
                  valid_for_lasting (spec_of l) lasts,
                  h.begun,
                  observed_changed (spec_of l) l current refl,
                )))
        ]
      ]

  -- A request of this replica that takes the lease.
  IsHarmless : Call → Type 0
  IsHarmless call =
      (campaigns : ℕ → Campaign)
      → Harmless server skew slack identity w campaigns (record { by = i; call = call })

  create-Harmless : (wall : ℕ) → IsHarmless (create (first_lease c.lock wall))
  unfolding IsHarmless first_lease
  create-Harmless wall campaigns = (_, refl, inl (ap some h.named, refl, 0))

  replace-Harmless :
      (wall : ℕ) (l : Lease)
      → Snapshot server skew slack identity w l
      → is_barred (observe c.lock (spec_of l) now) c.started (spec_of l) ≡ false
      → IsHarmless (next_call c wall l)
  unfolding IsHarmless next_spec
  replace-Harmless wall l (v, e, le, current) free campaigns =
      (_, refl, inl (ap some h.named, refl, (v, e, le, λ k. unbarred-IsFree l free (current k))))

  -- What a replica does on the answer to its read keeps its invariant, and sends no harmful request.
  pub Local-proceed :
      (wall wait : ℕ) (found : Option Lease)
      → c.phase ≡ read found
      → Local server skew slack identity w i (proceed c now wall wait found)
        × ((q : Request)
            → Memᴰ q (requests i (proceed c now wall wait found).phase)
            → (campaigns : ℕ → Campaign) → Harmless server skew slack identity w campaigns q)
  unfolding IsHarmless
  Local-proceed wall wait none e = rw (proceed-none c now wall wait) (
    Local-goes server skew slack identity h _ (rw e refl) refl (λ _ e'. cc) (λ _ e'. cc),
    λ q m campaigns.
        subst (Harmless server skew slack identity w campaigns) (sym (Memᴰ.eq_of_singleton m))
          (create-Harmless wall campaigns),
  )
  Local-proceed wall wait (some l) e =
      let seen = Local-observe server skew slack identity h (spec_of l) sound in
      elim (Bool-cases (is_barred (observe c.lock (spec_of l) now) c.started (spec_of l))) [
        | inl barred ↦ rw (proceed_barred c now wall wait l barred) (
          Local-give_way server skew slack identity seen wait,
          λ q m. absurd (Memᴰ.not-nil (subst (Memᴰ q) (give_way_quiet i _ now wait) m)),
        )
        | inr free ↦ rw (proceed_free c now wall wait l free) (
          Local-goes server skew slack identity seen _ (rw e refl) refl (λ _ e'. cc) (λ _ e'. cc),
          λ q m campaigns.
              subst (Harmless server skew slack identity w campaigns) (sym (Memᴰ.eq_of_singleton m))
                (replace-Harmless wall l (h.snapshot l e) free campaigns),
        )
      ]
