-- ===== src/Tests/Election.antt =====
-- The leader election on a server that holds one Lease}
use mathlib.Core.List.{Memᴰ}
use mathlib.Core.Logic.{ite}
use native.Mathlib.Decide.{ℕ_discrete}
use portail.Prelude.{
  List, ℕ, ◌+◌, ◌*◌, ◌≤◌, ◌<◌, ◌≡◌, inr, refl, ap, sym, ◌∙◌, arith, true, Option, none, some, [],
  ◌∷◌, Bytes, codes, bytes_eq, ◌==◌, if◌then◌else◌,
}
use portail.Kubernetes.Objects.{pos}
use portail.Leader.Role.{leading, standby, lost, is_leader, set, new, gained}
use portail.Leader.Lock.{
  Lease, LeaseSpec, Call, create, replace, Result, KubeError, held_by, try_acquire_or_renew,
  valid_for, first_lease, is_barred, observe, observed_as, changed_at, spec_eq, ok, err, transport,
  holder_of, spec_of, from_secs, on_get, on_write,
}
use portail.Leader.Campaign.{
  Campaign, campaign, begin, Phase, proceed, conclude, after, renew, writing,
}
use portail.Leader.System.{
  ApiServer, System, Reach, start, later, wake, look, answer, reply, confirm, update, initial,
  IsFresh,
}
use mathlib.Core.Option.{none-ne-some}
use portail.Leader.Invariant.{IsLasting}
use portail.Leader.Safety.{one_leader, leader_holds}
use portail.Leader.Gains.{
  gained_once, after_events, becomes, opens, drops, gains, keeps, items_of, Event,
}
use portail.Leader.Answers.{Explains, Names, try_acquire_or_renew-Explains}
use portail.Leader.Takeover.{unbound_lease_led}

-- A server with one Lease and its version; the Lease is stored without its `resourceVersion`.
record Stored : Type 0 where
  version : ℕ
  body : Option (Option Bytes × Option LeaseSpec)

unfoldable shown : ℕ → Option (Option Bytes × Option LeaseSpec) → Option Lease
shown v none = none
shown v (some (name, spec)) = some (record { name = name; resource_version = some v; spec = spec })

unfoldable saved : Stored → Lease → Stored
saved s l = record { version = s.version + 1; body = some (l.name, l.spec) }

unfoldable replaced : Option ℕ → Stored → Lease → Option Stored
replaced none s l = some (saved s l)
replaced (some v) s l = if v == s.version then some (saved s l) else none

unfoldable accepted : Call → Stored → Option (Option Bytes × Option LeaseSpec) → Option Stored
accepted (create l) s none = some (saved s l)
accepted (create l) s (some _) = none
accepted (replace l) s none = none
accepted (replace l) s (some _) = replaced l.resource_version s l

shown-version :
    (v : ℕ) (b : Option (Option Bytes × Option LeaseSpec)) (l : Lease)
    → shown v b ≡ some l
    → l.resource_version ≡ some v
unfolding shown
shown-version v none l e = cc
shown-version v (some (name, spec)) l e = ground (arith, e)

creates_fresh :
    (s s' : Stored) (l : Lease) (b : Option (Option Bytes × Option LeaseSpec))
    → accepted (create l) s b ≡ some s'
    → shown s.version b ≡ none
unfolding accepted shown
creates_fresh s s' l none e = refl
creates_fresh s s' l (some _) e = cc

replaced-version :
    (s s' : Stored) (l : Lease) (v : ℕ) → replaced (some v) s l ≡ some s' → v ≡ s.version
unfolding replaced
replaced-version s s' l v e = ground arith

replaces_current :
    (s s' : Stored) (l : Lease) (v : ℕ) (b : Option (Option Bytes × Option LeaseSpec))
    → accepted (replace l) s b ≡ some s'
    → l.resource_version ≡ some v
    → (v ≡ s.version) × ((cur : Lease) × (shown s.version b ≡ some cur))
unfolding accepted shown replaced
replaces_current s s' l v none e e' = cc
replaces_current s s' l v (some (name, spec)) e e' =
    (replaced-version s s' l v (ap (λ o. replaced o s l) (sym e') ∙ e), (_, refl))

replaced-grows :
    (s s' : Stored) (l : Lease) (o : Option ℕ) → replaced o s l ≡ some s' → s.version < s'.version
unfolding replaced saved
replaced-grows s s' l none e = ground (arith, e)
replaced-grows s s' l (some v) e = ground (arith, e)

grows_by_one :
    (s s' : Stored) (call : Call) (b : Option (Option Bytes × Option LeaseSpec))
    → accepted call s b ≡ some s'
    → s.version < s'.version
unfolding accepted replaced saved
grows_by_one s s' (create l) none e = ground (arith, e)
grows_by_one s s' (create l) (some _) e = cc
grows_by_one s s' (replace l) none e = cc
grows_by_one s s' (replace l) (some _) e = replaced-grows s s' l l.resource_version e

abbrev server : ApiServer Stored
server = record {
  current = λ s. shown s.version s.body;
  version = λ s. s.version;
  accept = λ call s. accepted call s s.body;
  reads = λ s l e. shown-version s.version s.body l e;
  creates = λ s s' l e. creates_fresh s s' l s.body e;
  replaces = λ s s' l v e e'. replaces_current s s' l v s.body e e';
  grows = λ s s' call e. grows_by_one s s' call s.body e;
}

-- Clocks an hour apart, timers half a second late.
abbrev hours : ℕ → ℕ
hours i = i * 3600000000000

abbrev late : ℕ
late = 500000000

abbrev identity : ℕ → Bytes
identity i = i ∷ []

abbrev lease_name : Bytes
lease_name = codes "portail"

abbrev empty : Stored
empty = record { version = 7; body = none }

abbrev created : Stored
created =
    saved empty
      (first_lease (record { name = lease_name; identity = identity 2; observed = none }) 5)

empty-IsLasting : (cur : Lease) → server.current empty ≡ some cur → IsLasting (spec_of cur)
unfolding shown
empty-IsLasting cur e = absurd (none-ne-some cur e)

IsUnseen : (ℕ → Campaign) → Type 0
IsUnseen cs = (i : ℕ) → (cs i).lock.observed ≡ none

IsUnseen-update :
    (cs : ℕ → Campaign) (i : ℕ) (c : Campaign)
    → IsUnseen cs
    → c.lock.observed ≡ none
    → IsUnseen (update cs i c)
unfolding IsUnseen
IsUnseen-update cs i c all new j =
    elim (ℕ_discrete i j) as (λ d. (ite d c (cs j)).lock.observed ≡ none) [
      | yes _ ↦ new
      | no _ ↦ all j
    ]

unseen-IsFresh : (cs : ℕ → Campaign) (st : Stored) → IsUnseen cs → IsFresh server hours late st cs
unfolding IsUnseen
unseen-IsFresh cs st all i r at l e = cc (all i)

started-IsUnseen : IsUnseen (initial server hours late lease_name identity empty).campaigns
unfolding IsUnseen campaign
started-IsUnseen i = refl

-- Replica 2 creates the Lease and leads.
abbrev elected :
    (s : System Stored) × Reach server hours late lease_name identity empty s
    × (is_leader (s.campaigns 2).leader ≡ true)
unfolding campaign ℕ_discrete begin shown proceed on_get accepted saved is_leader conclude after
    on_write renew set new
elected = (
  _,
  later
      (later
        (later (later (later start (wake 2 (hours 2) refl (omega arith))) (look 2 refl))
          (answer 2 5 0 none refl))
        (reply 2 _ created _ refl (Memᴰ.head refl) (refl, (_, refl, refl))
          (unseen-IsFresh _ created (
            IsUnseen-update _ 2 _
              (IsUnseen-update _ 2 _ (IsUnseen-update _ 2 _ started-IsUnseen refl) refl) refl))
          refl))
      (confirm 2 0 _ refl),
  refl,
)

identity_distinct : (i j : ℕ) → identity i ≡ identity j → i ≡ j
identity_distinct i j e = cc

one_leader_example : ◌≡◌ {A = ℕ} 2 2
one_leader_example =
    one_leader server hours late (omega arith) identity identity_distinct (λ i e. cc) lease_name
      empty empty-IsLasting elected.1 2 2 elected.2 elected.2

leader_holds_example :
    ((cur : Lease) × (server.current elected.0.world.store ≡ some cur)
      × (holder_of (spec_of cur) ≡ identity 2))
    × ((r : ℕ) × ((elected.0.campaigns 2).renewed ≡ some r)
        × (r ≤ elected.0.world.landed + hours 2)
        × (elected.0.world.time + hours 2 ≤ r + from_secs 12 + 3 * late))
leader_holds_example =
    leader_holds server hours late (omega arith) identity identity_distinct (λ i e. cc) lease_name
      empty empty-IsLasting elected.1 2 elected.2

-- Another replica's record, seen unchanged since the instant 100.
abbrev theirs : LeaseSpec
theirs = record {
  holder_identity = some (codes "other");
  lease_duration_seconds = some (pos 15);
  acquire_time = some 1;
  renew_time = some 9;
  lease_transitions = some (pos 3);
  preferred_holder = none;
  strategy = none;
}

abbrev their_lease : Lease
their_lease = record { name = some lease_name; resource_version = some 4; spec = some theirs }

abbrev candidate : ℕ → Campaign
candidate started = record {
  lock = record { name = lease_name; identity = codes "me"; observed = some (theirs, 100) };
  leader = new standby 0;
  renewed = none;
  started = started;
  phase = Phase.reading;
}

refuse_all : KubeError → Call → Result Lease
refuse_all e call = err e

try_acquire_or_renew-Explains_example :
    Explains
      (candidate 200).lock
      200
      300
      (ok (some their_lease))
      (refuse_all transport)
      (try_acquire_or_renew
        (candidate 200).lock
        200
        5
        300
        400
        (ok (some their_lease))
        (refuse_all transport)).1
try_acquire_or_renew-Explains_example =
    try_acquire_or_renew-Explains (candidate 200).lock 200 5 300 400 (ok (some their_lease))
      (refuse_all transport)

still_theirs :
    (try_acquire_or_renew
      (candidate 200).lock
      200
      5
      300
      400
      (ok (some their_lease))
      (refuse_all transport)).1
    ≡ ok (held_by (codes "other"))
unfolding try_acquire_or_renew on_get is_barred bytes_eq observe changed_at observed_as spec_eq
    valid_for
still_theirs = refl

unbound_lease_led_example :
    ((call : Call) × ((proceed (candidate 15000000100) 15000000200 5 0 (some their_lease)).phase
        ≡ writing call)
      × Names (codes "me") call)
    × (is_leader
          (conclude
            (proceed (candidate 15000000100) 15000000200 5 0 (some their_lease))
            15000000300
            0
            (ok their_lease)).leader
        ≡ true)
unfolding valid_for
unbound_lease_led_example =
    unbound_lease_led (candidate 15000000100) 15000000200 5 0 15000000300 0 (some their_lease)
      their_lease refl (inr (inr (100, refl, omega arith)))

-- A run in which another stream is opened, and dropped before the replica leads again.
abbrev two_streams : List Event
two_streams =
    opens 9
    ∷ becomes leading 4
    ∷ becomes lost 5
    ∷ drops 9
    ∷ becomes standby 6
    ∷ becomes leading 7
    ∷ []

gained_once_example : items_of 8 (after_events (gained (new leading 3) 8) two_streams) ≡ some 2
unfolding gains is_leader new keeps
gained_once_example = gained_once (new leading 3) 8 two_streams refl refl
