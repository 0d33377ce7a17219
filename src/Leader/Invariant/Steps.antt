-- ===== src/Leader/Invariant/Steps.antt =====
-- Every step of an election of src/kubernetes/controller/leader.rs keeps the invariant.
use mathlib.Core.List.Memᴰ
use mathlib.Core.List.{Memᴰ}
use mathlib.Core.Logic.{ite}
use mathlib.Core.Path.{subst}
use mathlib.Core.Option.{some_inj}
use native.Mathlib.Decide.{ℕ_discrete}
use portail.Prelude.{
  ℕ, ◌+◌, ◌≤◌, ◌<◌, ◌≡◌, ◌≢◌, ◌⊎◌, inl, inr, refl, ap, sym, ◌∙◌, arith, true, Option, none, some,
  [], ◌∷◌, Bytes, get_or_else, Bool-cases, option_beq_iff, bytes_key,
}
use portail.Leader.Role.{is_leader, new}
use portail.Leader.Lock.{
  Lease, Call, create, replace, KubeError, ok, err, from_secs, holder_of, spec_of, on_write,
  is_conflict, release_call, released_spec,
}
use portail.Leader.Campaign.{
  Campaign, read, written, writing, releasing, ended, begin, failed, renew, halt, after, conclude,
  campaign,
}
use portail.Leader.System.{
  ApiServer, World, System, Request, OnTime, is_in_round, is_live, IsFresh, Accepts, land, put,
  update, requests, goes, killed, Step, pass, wake, look, answer, serve, reply, confirm, refuse,
  fail, expire, stop, give_up, quit, die, initial,
}
use portail.Leader.Invariant.{Local, Snapshot, IsLasting, Finds, IsFree, Harmless, Inv}
use portail.Leader.Invariant.Rounds.{
  Local-begin, Local-failed, Local-renew, Local-halt, Local-quit, Local-killed, Local-observe,
  Local-goes, failed_quiet, halt_quiet,
}
use portail.Leader.Invariant.Verdicts.{Local-proceed}
use portail.Leader.Invariant.Landing.{Local-land, IsSound-land, Harmless-land, Owns-reply}

read-inj : {a b : Option Lease} → read a ≡ read b → a ≡ b
read-inj e = cc

update_all :
    {A : Type 0} (P : ℕ → A → Type 0) (f : ℕ → A) (i : ℕ) (a : A)
    → ((j : ℕ) → P j (f j))
    → P i a
    → (j : ℕ) → P j (update f i a j)
update_all P f i a all new j = elim (ℕ_discrete i j) as (λ d. P j (ite d a (f j))) [
  | yes e ↦ subst (λ k. P k a) e new
  | no _ ↦ all j
]

-- A release writes the Lease that it read, which names this replica.
release_call-some :
    (identity : Bytes) (wall : ℕ) (found : Option Lease) (call : Call)
    → release_call identity wall found ≡ some call
    → (l : Lease) × (found ≡ some l)
      × ((spec_of l).holder_identity ≡ some identity)
      × (call ≡ replace (record l { spec = some (released_spec wall (spec_of l)) }))
unfolding release_call
release_call-some identity wall none call e = cc
release_call-some identity wall (some l) call e = (
  l,
  refl,
  ground (arith, e, option_beq_iff (spec_of l).holder_identity (some identity)),
  ground (arith, e),
)

update_self : {A : Type 0} (f : ℕ → A) (i : ℕ) (a : A) → update f i a i ≡ a
update_self f i a = elim (ℕ_discrete i i) as (λ d. ite d a (f i) ≡ a) [
  | yes _ ↦ refl
  | no other ↦ absurd (other refl)
]

module _ {S : Type 0} (server : ApiServer S) (skew : ℕ → ℕ) (slack : ℕ) (identity : ℕ → Bytes) where
  -- A request stays harmless when its sender, once ended, stays so.
  Harmless-update :
      (w : World S) (campaigns : ℕ → Campaign) (i : ℕ) (c : Campaign)
      → ((campaigns i).phase ≡ ended → c.phase ≡ ended)
      → (q : Request) → Harmless server skew slack identity w campaigns q
      → Harmless server skew slack identity w (update campaigns i c) q
  Harmless-update w campaigns i c stays q (r, e, inl takes) = (r, e, inl takes)
  Harmless-update w campaigns i c stays q (r, e, inr (a, gone, b)) = (
    r,
    e,
    inr (
      a,
      elim (ℕ_discrete i q.by) as (λ d. (ite d c (campaigns q.by)).phase ≡ ended) [
        | yes same ↦ stays (subst (λ j. (campaigns j).phase ≡ ended) (sym same) gone)
        | no _ ↦ gone
      ],
      b,
    ),
  )

  -- A Lease just read is the current one.
  current-Snapshot :
      (w : World S) (l : Lease)
      → server.current w.store ≡ some l
      → Snapshot server skew slack identity w l
  current-Snapshot w l e = (server.version w.store, server.reads w.store l e, omega arith, λ _. e)

  Finds-map :
      (w w' : World S) (call : Call) (P Q : Type 0)
      → w.store ≡ w'.store
      → (P → Q)
      → Finds server skew slack identity w call P
      → Finds server skew slack identity w' call Q
  Finds-map w w' (create l) P Q e f n = n
  Finds-map w w' (replace l) P Q e f (v, rv, le, held) =
      let same : server.version w.store ≡ server.version w'.store = ap server.version e in
      (v, rv, omega (arith, le, same), λ k. f (held (k ∙ sym same)))

  -- Time frees a lease, and binds none.
  Harmless-pass :
      (w : World S) (campaigns : ℕ → Campaign) (d : ℕ) (q : Request)
      → Harmless server skew slack identity w campaigns q
      → Harmless server skew slack identity (record w { time = w.time + d }) campaigns q
  Harmless-pass w campaigns d q (r, e, inl (a, b, finds)) = (
    r,
    e,
    inl (
      a,
      b,
      Finds-map w (record w { time = w.time + d }) q.call (IsFree server skew slack identity w q.by)
          _ refl (λ free cur k. later_free (free cur k)) finds,
    ),
  )
    where
      later_free :
          {A B : Type 0}
          → (A ⊎ (B ⊎ (w.landed + from_secs 15 ≤ w.time)))
          → A ⊎ (B ⊎ (w.landed + from_secs 15 ≤ w.time + d))
      later_free (inl x) = inl x
      later_free (inr (inl x)) = inr (inl x)
      later_free (inr (inr x)) = inr (inr (omega arith))
  Harmless-pass w campaigns d q (r, e, inr releases) = (r, e, inr releases)

  module _ {s : System S} (inv : Inv server skew slack identity s) (i : ℕ) where
    abbrev now : ℕ
    now = s.world.time + skew i

    -- A step of one replica, with the requests that it sends.
    put-Inv :
        (c : Campaign)
        → Local server skew slack identity s.world i c
        → ((s.campaigns i).phase ≡ ended → c.phase ≡ ended)
        → ((q : Request)
            → Memᴰ q (requests i c.phase)
            → (campaigns : ℕ → Campaign) → Harmless server skew slack identity s.world campaigns q)
        → Inv server skew slack identity (put s i c)
    put-Inv c local stays new = record {
      sound = inv.sound;
      local = update_all (Local server skew slack identity s.world) s.campaigns i c inv.local local;
      sent = λ q m. elim (Memᴰ.append_cases (requests i c.phase) m) [
        | inl fresh ↦ new q fresh (update s.campaigns i c)
        | inr old ↦ Harmless-update s.world s.campaigns i c stays q (inv.sent q old)
      ];
    }

    -- A step that sends nothing.
    put-Inv_quiet :
        (c : Campaign)
        → Local server skew slack identity s.world i c
        → ((s.campaigns i).phase ≡ ended → c.phase ≡ ended)
        → requests i c.phase ≡ []
        → Inv server skew slack identity (put s i c)
    put-Inv_quiet c local stays quiet =
        put-Inv c local stays (λ q m. absurd (Memᴰ.not-nil (subst (Memᴰ q) quiet m)))

    not_ended :
        (P : Type 0) → is_live (s.campaigns i).phase ≡ true → (s.campaigns i).phase ≡ ended → P
    not_ended P live e = absurd (ground (arith, live, e))

    failed-Inv :
        (wait : ℕ)
        → is_in_round (s.campaigns i).phase ≡ true
        → Inv server skew slack identity (put s i (failed (s.campaigns i) now wait))
    failed-Inv wait e =
        put-Inv_quiet (failed (s.campaigns i) now wait)
          (Local-failed server skew slack identity (inv.local i) wait e)
          (λ gone. absurd (ground (arith, e, gone))) (failed_quiet i (s.campaigns i) now wait)

    after_err-Inv :
        (wait : ℕ) (e : KubeError)
        → is_in_round (s.campaigns i).phase ≡ true
        → Inv server skew slack identity (put s i (conclude (s.campaigns i) now wait (err e)))
    unfolding conclude on_write after
    after_err-Inv wait e round = elim (Bool-cases (is_conflict e)) [
      | inl conflict ↦ rw (conflict, conclude) (failed-Inv wait round)
      | inr other ↦ rw (other, conclude) (failed-Inv wait round)
    ]

    confirm-Inv :
        (wait : ℕ) (l : Lease)
        → (s.campaigns i).phase ≡ written l
        → Inv server skew slack identity (put s i (conclude (s.campaigns i) now wait (ok l)))
    unfolding conclude on_write after renew
    confirm-Inv wait l e =
        put-Inv_quiet _
          (Local-renew server skew slack identity
            (Local-observe server skew slack identity (inv.local i) (spec_of l) inv.sound)
            (rw e refl) ((inv.local i).holds l e))
          (λ gone. cc) refl

    release-Harmless :
        (wall : ℕ) (call : Call)
        → release_call (s.campaigns i).lock.identity wall (server.current s.world.store) ≡ some call
        → (campaigns : ℕ → Campaign) → (campaigns i).phase ≡ ended
        → Harmless server skew slack identity s.world campaigns (record { by = i; call = call })
    unfolding released_spec
    release-Harmless wall call released campaigns gone =
        let (l, current, mine, e) = release_call-some _ wall _ call released in
        subst
          (λ x. Harmless server skew slack identity s.world campaigns (record { by = i; call = x }))
          (sym e)
          (
            released_spec wall (spec_of l),
            refl,
            inr (
              refl,
              gone,
              (
                server.version s.world.store,
                server.reads s.world.store l current,
                omega arith,
                λ _ cur k.
                    ap holder_of (ap spec_of (some_inj.0 (sym k ∙ current)))
                    ∙ (ap (λ x. get_or_else x []) mine ∙ (inv.local i).named),
              ),
            ),
          )

    give_up-Inv :
        (wall : ℕ) (call : Call)
        → (s.campaigns i).phase ≡ releasing
        → release_call (s.campaigns i).lock.identity wall (server.current s.world.store) ≡ some call
        → Inv server skew slack identity (record s {
          campaigns = update s.campaigns i (goes (s.campaigns i) ended);
          wire = record { by = i; call = call } ∷ s.wire;
        })
    give_up-Inv wall call e released = record {
      sound = inv.sound;
      local =
          update_all (Local server skew slack identity s.world) s.campaigns i _ inv.local
            (Local-quit server skew slack identity (inv.local i) (rw e refl));
      sent = λ q m. elim (Memᴰ.cases_cons m) [
        | inl own ↦
            subst
              (Harmless server skew slack identity s.world
                (update s.campaigns i (goes (s.campaigns i) ended)))
              (sym own)
              (release-Harmless wall call released
                (update s.campaigns i (goes (s.campaigns i) ended))
                (ap (λ (c : Campaign). c.phase)
                  (update_self s.campaigns i (goes (s.campaigns i) ended))))
        | inr old ↦ Harmless-update s.world s.campaigns i _ (λ _. refl) q (inv.sent q old)
      ];
    }

  module _ {s : System S} (inv : Inv server skew slack identity s) where
    pass-Inv :
        (d : ℕ)
        → ((i : ℕ) → OnTime slack (s.world.time + d + skew i) (s.campaigns i))
        → Inv server skew slack identity
            (record s { world = record s.world { time = s.world.time + d } })
    pass-Inv d timely = record {
      sound = record { past = omega (arith, inv.sound.past); lasting = inv.sound.lasting };
      local = λ i.
          let h = inv.local i in
          record {
            named = h.named;
            begun = omega (arith, h.begun);
            timely = timely i;
            live = h.live;
            leads = h.leads;
            holds = h.holds;
            snapshot = h.snapshot;
            seen = h.seen;
          };
      sent = λ q m. Harmless-pass s.world s.campaigns d q (inv.sent q m);
    }

    module _ (distinct : (i j : ℕ) → identity i ≡ identity j → i ≡ j)
        (named : (i : ℕ) → identity i ≢ []) (prompt : slack < from_secs 1) where
      serve-Inv :
          (q : Request) (st : S)
          → Memᴰ q s.wire
          → Accepts server skew slack q.call s.world.store st
          → IsFresh server skew slack st s.campaigns
          → Inv server skew slack identity (record s { world = land s.world st })
      serve-Inv q st m accepts fresh =
          let harmless = inv.sent q m in
          record {
            sound =
                IsSound-land server skew slack identity distinct named prompt inv.sound inv.local
                  harmless accepts;
            local =
                Local-land server skew slack identity distinct named prompt inv.sound inv.local
                  harmless accepts fresh;
            sent = λ q' m'.
                Harmless-land server skew slack identity distinct named prompt inv.sound inv.local
                  harmless accepts q' (inv.sent q' m');
          }

      reply-Inv :
          (i : ℕ) (call : Call) (st : S) (l : Lease)
          → (s.campaigns i).phase ≡ writing call
          → Memᴰ (record { by = i; call = call }) s.wire
          → Accepts server skew slack call s.world.store st
          → IsFresh server skew slack st s.campaigns
          → Inv server skew slack identity (record s {
            world = land s.world st;
            campaigns = update s.campaigns i (goes (s.campaigns i) (written l));
          })
      reply-Inv i call st l e m accepts fresh =
          let q : Request = record { by = i; call = call } in
          let landed = serve-Inv q st m accepts fresh in
          record {
            sound = landed.sound;
            local =
                update_all (Local server skew slack identity (land s.world st)) s.campaigns i _
                  landed.local
                  (Local-goes server skew slack identity (landed.local i) (written l) (rw e refl)
                    refl
                    (λ _ _.
                      Owns-reply server skew slack identity distinct named prompt inv.sound
                        inv.local (inv.sent q m) accepts call e)
                    (λ _ e'. cc));
            sent = λ q' m'.
                Harmless-update (land s.world st) s.campaigns i _ (λ gone. cc) q'
                  (landed.sent q' m');
          }

      pub Step-Inv : {t : System S} → Step server skew slack s t → Inv server skew slack identity t
      unfolding begin after
      Step-Inv (pass d timely) = pass-Inv d timely
      Step-Inv (wake i w e le) =
          put-Inv_quiet inv i _ (Local-begin server skew slack identity (inv.local i) w e)
            (λ gone. cc) refl
      Step-Inv (look i e) =
          put-Inv_quiet inv i _
            (Local-goes server skew slack identity (inv.local i)
              (read (server.current s.world.store)) (rw e refl) refl (λ _ e'. cc)
              (λ l e'. current-Snapshot s.world l (read-inj e')))
            (λ gone. cc) refl
      Step-Inv (answer i wall wait found e) =
          let (local, sent) =
            Local-proceed server skew slack identity inv.sound (inv.local i) wall wait found e in
          put-Inv inv i _ local (λ gone. cc) sent
      Step-Inv (serve q st m accepts fresh) = serve-Inv q st m accepts fresh
      Step-Inv (reply i call st l e m accepts fresh _) = reply-Inv i call st l e m accepts fresh
      Step-Inv (confirm i wait l e) = confirm-Inv inv i wait l e
      Step-Inv (refuse i wait call e' e) = after_err-Inv inv i wait e' (rw e refl)
      Step-Inv (fail i wait _ round) = failed-Inv inv i wait round
      Step-Inv (expire i wait round _) = failed-Inv inv i wait round
      Step-Inv (stop i live) =
          put-Inv_quiet inv i (halt (s.campaigns i) (s.world.time + skew i))
            (Local-halt server skew slack identity (inv.local i)) (not_ended inv i _ live)
            (halt_quiet i (s.campaigns i) (s.world.time + skew i))
      Step-Inv (give_up i wall call e released) = give_up-Inv inv i wall call e released
      Step-Inv (quit i e) =
          put-Inv_quiet inv i _ (Local-quit server skew slack identity (inv.local i) (rw e refl))
            (λ _. refl) refl
      Step-Inv (die i) =
          put-Inv_quiet inv i (killed (s.campaigns i))
            (Local-killed server skew slack identity (inv.local i)) (λ _. refl) refl

  pub initial-Inv :
      (name : Bytes) (store : S)
      → ((cur : Lease) → server.current store ≡ some cur → IsLasting (spec_of cur))
      → Inv server skew slack identity (initial server skew slack name identity store)
  unfolding campaign new is_leader
  initial-Inv name store lasting = record {
    sound = record { past = omega arith; lasting = lasting };
    local = λ i. record {
      named = refl;
      begun = omega arith;
      timely = (λ w e e'. cc, λ e. cc);
      live = λ _. refl;
      leads = λ e. cc;
      holds = λ l e. cc;
      snapshot = λ l e. cc;
      seen = λ r at cur e. cc;
    };
    sent = λ q m. absurd (Memᴰ.not-nil m);
  }
