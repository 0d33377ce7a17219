-- ===== src/Leader/System.antt =====
-- Replicas campaigning for one Lease, interleaved in any order: the tasks that `start` of
-- src/kubernetes/controller/leader.rs spawns, one in each replica, over the API server and the clocks. The server, the
-- clocks and the delays are parameters: what the election relies on are the laws of `ApiServer` (a write of a Lease that
-- has changed since it was read, or that exists, is refused), clocks that run alike from different origins, and timers
-- that fire within `slack` of their instant.
use mathlib.Core.List.{Memᴰ}
use mathlib.Core.Logic.{ite}
use native.Mathlib.Decide.{ℕ_discrete}
use portail.Prelude.{
  ℕ, ◌+◌, ◌≤◌, ◌<◌, ◌≡◌, ◌≢◌, Bool, true, false, Option, none, some, List, [], ◌∷◌, ◌++◌, Bytes,
}
use portail.Leader.Role.{lost, is_leader}
use portail.Leader.Lock.{
  Lease, LeaseSpec, Call, create, replace, KubeError, ok, err, release_call, spec_of,
}
use portail.Leader.Campaign.{
  Campaign, Phase, asleep, reading, read, writing, written, releasing, ended, campaign, begin,
  deadline, after, proceed, conclude, halt,
}

-- The API server's side of one Lease. A write that it accepts gives the Lease a later version.
pub record ApiServer (S : Type 0) : Type 0 where
  pub current : S → Option Lease
  pub version : S → ℕ
  pub accept : Call → S → Option S
  pub reads : (s : S) (l : Lease) → current s ≡ some l → l.resource_version ≡ some (version s)
  pub creates : (s s' : S) (l : Lease) → accept (create l) s ≡ some s' → current s ≡ none
  pub replaces :
      (s s' : S) (l : Lease) (v : ℕ)
      → accept (replace l) s ≡ some s'
      → l.resource_version ≡ some v
      → (v ≡ version s) × ((cur : Lease) × (current s ≡ some cur))
  pub grows : (s s' : S) (c : Call) → accept c s ≡ some s' → version s < version s'

abbrev pub lease_of : Call → Lease
lease_of (create l) = l
lease_of (replace l) = l

-- A request on its way, which the server may serve after its sender has stopped waiting.
pub record Request : Type 0 where
  pub by : ℕ
  pub call : Call

abbrev pub update {ℓ} : {A : Type ℓ} → (ℕ → A) → ℕ → A → ℕ → A
update f i a j = ite (ℕ_discrete i j) a (f j)

abbrev pub is_in_round : Phase → Bool
is_in_round reading = true
is_in_round (read _) = true
is_in_round (writing _) = true
is_in_round (written _) = true
is_in_round _ = false

abbrev pub is_live : Phase → Bool
is_live releasing = false
is_live ended = false
is_live _ = true

abbrev pub goes : Campaign → Phase → Campaign
goes c p = record c { phase = p }

abbrev pub killed : Campaign → Campaign
killed c = record c { phase = ended; leader = record c.leader { role = lost } }

abbrev pub requests : ℕ → Phase → List Request
requests i (writing call) = record { by = i; call = call } ∷ []
requests i _ = []

-- The time, the server's state, and when it last accepted a write.
pub record World (S : Type 0) : Type 0 where
  pub time : ℕ
  pub store : S
  pub landed : ℕ

pub record System (S : Type 0) : Type 0 where
  pub world : World S
  pub wire : List Request
  pub campaigns : ℕ → Campaign

abbrev pub put : {S : Type 0} → System S → ℕ → Campaign → System S
put s i c = record s { campaigns = update s.campaigns i c; wire = requests i c.phase ++ s.wire }

abbrev pub land : {S : Type 0} → World S → S → World S
land w st = record w { store = st; landed = w.time }

-- The timers of a task that leads, or is in a round, fire within `slack`.
abbrev pub OnTime : (slack now : ℕ) → Campaign → Type 0
OnTime slack now c =
    ((w : ℕ) → c.phase ≡ asleep w → is_leader c.leader ≡ true → now ≤ w + slack)
    × (is_in_round c.phase ≡ true → now ≤ deadline c + slack)

module _ {S : Type 0} (server : ApiServer S) (skew : ℕ → ℕ) (slack : ℕ) where
  -- No record is stamped like one that a replica has seen.
  abbrev pub IsFresh : S → (ℕ → Campaign) → Type 0
  IsFresh s campaigns =
      (i : ℕ) (r : LeaseSpec) (at : ℕ) (l : Lease)
      → (campaigns i).lock.observed ≡ some (r, at)
      → server.current s ≡ some l
      → spec_of l ≢ r

  -- The server holds what it accepted.
  abbrev pub Accepts : Call → S → S → Type 0
  Accepts call s s' =
      (server.accept call s ≡ some s')
      × ((l : Lease) × (server.current s' ≡ some l) × (l.spec ≡ (lease_of call).spec))

  abbrev pub clock : World S → ℕ → ℕ
  clock w i = w.time + skew i

  pub data Step (s : System S) : System S → Type 0 where
    pass :
        (d : ℕ)
        → ((i : ℕ) → OnTime slack (s.world.time + d + skew i) (s.campaigns i))
        → Step s (record s { world = record s.world { time = s.world.time + d } })
    wake :
        (i w : ℕ)
        → (s.campaigns i).phase ≡ asleep w
        → w ≤ clock s.world i
        → Step s (put s i (begin (s.campaigns i) (clock s.world i)))
    look :
        (i : ℕ)
        → (s.campaigns i).phase ≡ reading
        → Step s (put s i (goes (s.campaigns i) (read (server.current s.world.store))))
    answer :
        (i wall wait : ℕ) (found : Option Lease)
        → (s.campaigns i).phase ≡ read found
        → Step s (put s i (proceed (s.campaigns i) (clock s.world i) wall wait found))
    serve :
        (q : Request) (st : S)
        → Memᴰ q s.wire
        → Accepts q.call s.world.store st
        → IsFresh st s.campaigns
        → Step s (record s { world = land s.world st })
    reply :
        (i : ℕ) (call : Call) (st : S) (l : Lease)
        → (s.campaigns i).phase ≡ writing call
        → Memᴰ (record { by = i; call = call }) s.wire
        → Accepts call s.world.store st
        → IsFresh st s.campaigns
        → server.current st ≡ some l
        → Step s (record s {
          world = land s.world st;
          campaigns = update s.campaigns i (goes (s.campaigns i) (written l));
        })
    confirm :
        (i wait : ℕ) (l : Lease)
        → (s.campaigns i).phase ≡ written l
        → Step s (put s i (conclude (s.campaigns i) (clock s.world i) wait (ok l)))
    refuse :
        (i wait : ℕ) (call : Call) (e : KubeError)
        → (s.campaigns i).phase ≡ writing call
        → Step s (put s i (conclude (s.campaigns i) (clock s.world i) wait (err e)))
    fail :
        (i wait : ℕ) (e : KubeError)
        → is_in_round (s.campaigns i).phase ≡ true
        → Step s (put s i (after (s.campaigns i) (some (err e)) (clock s.world i) wait))
    expire :
        (i wait : ℕ)
        → is_in_round (s.campaigns i).phase ≡ true
        → deadline (s.campaigns i) ≤ clock s.world i
        → Step s (put s i (after (s.campaigns i) none (clock s.world i) wait))
    stop :
        (i : ℕ)
        → is_live (s.campaigns i).phase ≡ true
        → Step s (put s i (halt (s.campaigns i) (clock s.world i)))
    give_up :
        (i wall : ℕ) (call : Call)
        → (s.campaigns i).phase ≡ releasing
        → release_call (s.campaigns i).lock.identity wall (server.current s.world.store) ≡ some call
        → Step s (record s {
          campaigns = update s.campaigns i (goes (s.campaigns i) ended);
          wire = record { by = i; call = call } ∷ s.wire;
        })
    quit :
        (i : ℕ) → (s.campaigns i).phase ≡ releasing → Step s (put s i (goes (s.campaigns i) ended))
    -- The process dies.
    die : (i : ℕ) → Step s (put s i (killed (s.campaigns i)))

  -- Replica `i` campaigns as `identity i`, from a server with no write in sight.
  abbrev pub initial : Bytes → (ℕ → Bytes) → S → System S
  initial name identity store = record {
    world = record { time = 0; store = store; landed = 0 };
    wire = [];
    campaigns =
        λ i. campaign (record { name = name; identity = identity i; observed = none }) (skew i);
  }

  pub data Reach (name : Bytes) (identity : ℕ → Bytes) (store : S) : System S → Type 0 where
    start : Reach name identity store (initial name identity store)
    later : {s t : System S} → Reach name identity store s → Step s t → Reach name identity store t
