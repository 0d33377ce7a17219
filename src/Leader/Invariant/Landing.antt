-- ===== src/Leader/Invariant/Landing.antt =====
-- The server's writes in the election of src/kubernetes/controller/leader.rs: one that it accepts takes the lease from no
-- replica that leads by it.
use mathlib.Core.Path.{subst}
use mathlib.Core.Option.{some_inj}
use portail.Prelude.{
  ℕ, ◌+◌, ◌<◌, ◌≡◌, ◌≢◌, inl, inr, refl, ap, sym, ◌∙◌, arith, true, some, [], Bytes, get_or_else,
}
use portail.Leader.Role.{is_leader}
use portail.Leader.Lock.{
  default_spec, LeaseSpec, Lease, Call, create, replace, from_secs, lease_duration_secs, holder_of,
  spec_of,
}
use portail.Leader.Campaign.{Campaign, Phase, written, writing, ended}
use portail.Leader.System.{ApiServer, World, Request, is_live, IsFresh, Accepts, land}
use portail.Leader.Invariant.{
  Local, Owns, Snapshot, IsSound, IsLasting, Finds, Takes, Releases, Harmless,
}
use portail.Leader.Invariant.Rounds.{leads_bound, round_bound}

ended_dead : (p : Phase) → p ≡ ended → ¬ (is_live p ≡ true)
ended_dead p e live = ground (arith, e, live)

module _ {S : Type 0} (server : ApiServer S) (skew : ℕ → ℕ) (slack : ℕ) (identity : ℕ → Bytes) where
  -- A refused or outdated request stays so.
  Finds-land :
      (w : World S) (st : S) (call call' : Call) (P Q : Type 0)
      → server.accept call' w.store ≡ some st
      → Finds server skew slack identity w call P
      → Finds server skew slack identity (land w st) call Q
  Finds-land w st (create l) call' P Q e f = 0
  Finds-land w st (replace l) call' P Q e (v, rv, le, _) =
      let grown = server.grows w.store st call' e in
      (v, rv, omega (arith, grown), λ same. absurd (omega (arith, same, grown)))

  -- An accepted request finds no Lease, or what it was sent for.
  Finds-accepted :
      (w : World S) (st : S) (call : Call) (P : Type 0)
      → server.accept call w.store ≡ some st
      → Finds server skew slack identity w call P
      → (cur : Lease) → server.current w.store ≡ some cur
      → P
  Finds-accepted w st (create l) P e f cur c = cc (server.creates w.store st l e)
  Finds-accepted w st (replace l) P e (v, rv, _, held) cur c =
      held (server.replaces w.store st l v e rv).0

  module _ (distinct : (i j : ℕ) → identity i ≡ identity j → i ≡ j)
      (named : (i : ℕ) → identity i ≢ []) (prompt : slack < from_secs 1) {w : World S}
      {campaigns : ℕ → Campaign} (sound : IsSound server skew slack identity w)
      (local : (i : ℕ) → Local server skew slack identity w i (campaigns i)) {q : Request}
      (harmless : Harmless server skew slack identity w campaigns q) {st : S}
      (accepts : Accepts server skew slack q.call w.store st) where
    accepted : server.accept q.call w.store ≡ some st
    accepted = accepts.0

    -- Where the Lease names replica `i` and is not expired, a request accepted is one of its own.
    taken_by_owner :
        (i at : ℕ) (r : LeaseSpec)
        → Owns server skew slack identity w i at
        → w.time + skew i < at + from_secs lease_duration_secs
        → Takes server skew slack identity w q r
        → i ≡ q.by
    taken_by_owner i at r ((cur, current, mine), before) valid (_, _, finds) =
        elim (Finds-accepted w st q.call _ accepted finds cur current cur current) [
          | inl nobody ↦ absurd (named i (sym mine ∙ nobody))
          | inr (inl own) ↦ distinct i q.by (sym mine ∙ own)
          | inr (inr expired) ↦ absurd (omega arith)
        ]

    released_by_owner :
        (i at : ℕ) (r : LeaseSpec)
        → Owns server skew slack identity w i at
        → Releases server skew slack identity w campaigns q r
        → i ≡ q.by
    released_by_owner i at r ((cur, current, mine), _) (_, _, finds) =
        distinct i q.by
          (sym mine ∙ Finds-accepted w st q.call _ accepted finds cur current cur current)

    -- A replica whose lease is not expired, and that has not ended, keeps it.
    Owns-land :
        (i at : ℕ)
        → Owns server skew slack identity w i at
        → w.time + skew i < at + from_secs lease_duration_secs
        → ((campaigns i).phase ≢ ended)
        → Owns server skew slack identity (land w st) i at
    Owns-land i at o valid live =
        let (r, e, kind) = harmless in
        let (l, current, e') = accepts.1 in
        elim kind [
          | inl takes ↦
              let own = taken_by_owner i at r o valid takes in
              (
                (
                  l,
                  current,
                  ap holder_of (ap (λ x. get_or_else x default_spec) (e' ∙ e))
                      ∙ (ap (λ x. get_or_else x []) takes.0 ∙ sym (ap identity own)),
                ),
                omega (arith, o.1, sound.past),
              )
          | inr releases ↦ absurd (
              live (
                subst (λ j. (campaigns j).phase ≡ ended) (sym (released_by_owner i at r o releases))
                  releases.1))
        ]

    -- The lease that a leader, or a round about to lead, goes by is kept.
    leads-land :
        (i : ℕ) (r : ℕ)
        → is_leader (campaigns i).leader ≡ true
        → (campaigns i).renewed ≡ some r
        → Owns server skew slack identity w i r
        → Owns server skew slack identity (land w st) i r
    leads-land i r lead e o =
        Owns-land i r o (omega (arith, leads_bound server skew slack identity (local i) r lead e))
          (λ gone. ended_dead _ gone ((local i).live lead))

    holds-land :
        (i : ℕ) (l : Lease)
        → (campaigns i).phase ≡ written l
        → Owns server skew slack identity (land w st) i (campaigns i).started
    holds-land i l e =
        Owns-land i (campaigns i).started ((local i).holds l e)
          (omega (arith, round_bound server skew slack identity (local i) (rw e refl))) (λ gone. cc)

    Snapshot-land :
        (l : Lease)
        → Snapshot server skew slack identity w l
        → Snapshot server skew slack identity (land w st) l
    Snapshot-land l (v, rv, le, _) =
        let grown = server.grows w.store st q.call accepted in
        (v, rv, omega (arith, grown), λ same. absurd (omega (arith, same, grown)))

    pub Local-land :
        IsFresh server skew slack st campaigns
        → (i : ℕ) → Local server skew slack identity (land w st) i (campaigns i)
    Local-land fresh i = record {
      named = (local i).named;
      begun = (local i).begun;
      timely = (local i).timely;
      live = (local i).live;
      leads = λ lead.
          let (r, e, k, lasts, o) = (local i).leads lead in
          (r, e, k, lasts, leads-land i r lead e o);
      holds = holds-land i;
      snapshot = λ l e. Snapshot-land l ((local i).snapshot l e);
      seen = λ r at cur e e' e''. absurd (fresh i r at cur e e' e'');
    }

    pub IsSound-land : IsSound server skew slack identity (land w st)
    IsSound-land =
        let (r, e, kind) = harmless in
        let (l, current, e') = accepts.1 in
        record {
          past = omega arith;
          lasting = λ cur e''.
              let written : spec_of cur ≡ r =
                ap (λ x. get_or_else x.spec default_spec) (some_inj.0 (sym e'' ∙ current))
                ∙ ap (λ x. get_or_else x default_spec) (e' ∙ e) in
              subst IsLasting (sym written) (elim kind [
                | inl takes ↦ inr takes.1
                | inr releases ↦ inl (ap (λ x. get_or_else x []) releases.0)
              ]);
        }

    pub Harmless-land :
        (q' : Request)
        → Harmless server skew slack identity w campaigns q'
        → Harmless server skew slack identity (land w st) campaigns q'
    Harmless-land q' (r, e, inl (a, b, finds)) =
        (r, e, inl (a, b, Finds-land w st q'.call q.call _ _ accepted finds))
    Harmless-land q' (r, e, inr (a, b, finds)) =
        (r, e, inr (a, b, Finds-land w st q'.call q.call _ _ accepted finds))

    -- The request that a round waits on gives it the lease.
    pub Owns-reply :
        (call : Call)
        → (campaigns q.by).phase ≡ writing call
        → Owns server skew slack identity (land w st) q.by (campaigns q.by).started
    Owns-reply call e =
        let (r, e'', kind) = harmless in
        let (l, current, e') = accepts.1 in
        elim kind [
          | inl takes ↦ (
            (
              l,
              current,
              ap holder_of (ap (λ x. get_or_else x default_spec) (e' ∙ e''))
                  ∙ ap (λ x. get_or_else x []) takes.0,
            ),
            (local q.by).begun,
          )
          | inr releases ↦ cc (releases.1)
        ]
