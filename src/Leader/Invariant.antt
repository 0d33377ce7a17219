-- ===== src/Leader/Invariant.antt =====
-- What holds of the replicas of src/kubernetes/controller/leader.rs at every moment of an election.
pub mod Rounds
pub mod Verdicts
pub mod Landing
pub mod Steps
use mathlib.Core.List.{Memᴰ}
use portail.Prelude.{ℕ, ◌+◌, ◌*◌, ◌≤◌, ◌<◌, ◌≡◌, ◌⊎◌, true, Option, none, some, [], Bytes}
use portail.Kubernetes.Objects.{pos}
use portail.Leader.Role.{is_leader}
use portail.Leader.Lock.{
  LeaseSpec, Lease, Call, create, replace, from_secs, lease_duration_secs, holder_of, spec_of,
}
use portail.Leader.Campaign.{Campaign, asleep, read, written, ended}
use portail.Leader.System.{
  ApiServer, World, System, Request, lease_of, OnTime, is_in_round, is_live, clock,
}

-- A record that names a holder lasts for the lease's duration.
abbrev pub IsLasting : LeaseSpec → Type 0
IsLasting r = (holder_of r ≡ []) ⊎ (r.lease_duration_seconds ≡ some (pos lease_duration_secs))

module _ {S : Type 0} (server : ApiServer S) (skew : ℕ → ℕ) (slack : ℕ) (identity : ℕ → Bytes) where
  -- The Lease names replica `i`, and was written after the instant `at` on the replica's clock.
  abbrev pub Owns : World S → ℕ → ℕ → Type 0
  Owns w i at =
      ((cur : Lease) × (server.current w.store ≡ some cur) × (holder_of (spec_of cur) ≡ identity i))
      × (at ≤ w.landed + skew i)

  -- Where a task that leads by the renewal begun at `r` stands.
  abbrev pub Lasts : ℕ → Campaign → Type 0
  Lasts r c =
      ((v : ℕ) → c.phase ≡ asleep v → v ≤ r + from_secs 12 + slack)
      × (is_in_round c.phase ≡ true → c.started ≤ r + from_secs 12 + 2 * slack)

  -- A Lease read is the current one, or an older one.
  abbrev pub Snapshot : World S → Lease → Type 0
  Snapshot w l =
      (v : ℕ) × (l.resource_version ≡ some v)
      × (v ≤ server.version w.store)
      × (v ≡ server.version w.store → server.current w.store ≡ some l)

  pub record Local (w : World S) (i : ℕ) (c : Campaign) : Type 0 where
    pub named : c.lock.identity ≡ identity i
    pub begun : c.started ≤ w.time + skew i
    pub timely : OnTime slack (w.time + skew i) c
    pub live : is_leader c.leader ≡ true → is_live c.phase ≡ true
    pub leads :
        is_leader c.leader ≡ true
        → (r : ℕ) × (c.renewed ≡ some r) × (r ≤ c.started) × Lasts r c × Owns w i r
    pub holds : (l : Lease) → c.phase ≡ written l → Owns w i c.started
    pub snapshot : (l : Lease) → c.phase ≡ read (some l) → Snapshot w l
    pub seen :
        (r : LeaseSpec) (at : ℕ) (cur : Lease)
        → c.lock.observed ≡ some (r, at)
        → server.current w.store ≡ some cur
        → spec_of cur ≡ r
        → w.landed + skew i ≤ at

  -- A write that is accepted finds no Lease, or one of which `P` holds.
  abbrev pub Finds : World S → Call → Type 0 → Type 0
  Finds w (create l) P = ℕ
  Finds w (replace l) P =
      (v : ℕ) × (l.resource_version ≡ some v)
      × (v ≤ server.version w.store)
      × (v ≡ server.version w.store → P)

  -- The Lease is free for replica `i`: nobody's, its own, or not renewed for its duration.
  abbrev pub IsFree : World S → ℕ → Type 0
  IsFree w i =
      (cur : Lease)
      → server.current w.store ≡ some cur
      → (holder_of (spec_of cur) ≡ [])
        ⊎ ((holder_of (spec_of cur) ≡ identity i)
            ⊎ (w.landed + from_secs lease_duration_secs ≤ w.time))

  abbrev pub Takes : World S → Request → LeaseSpec → Type 0
  Takes w q r =
      (r.holder_identity ≡ some (identity q.by))
      × (r.lease_duration_seconds ≡ some (pos lease_duration_secs))
      × Finds w q.call (IsFree w q.by)

  abbrev pub IsOf : World S → ℕ → Type 0
  IsOf w i =
      (cur : Lease) → server.current w.store ≡ some cur → holder_of (spec_of cur) ≡ identity i

  abbrev pub Releases : World S → (ℕ → Campaign) → Request → LeaseSpec → Type 0
  Releases w campaigns q r =
      (r.holder_identity ≡ some [])
      × ((campaigns q.by).phase ≡ ended)
      × Finds w q.call (IsOf w q.by)

  abbrev pub Harmless : World S → (ℕ → Campaign) → Request → Type 0
  Harmless w campaigns q =
      (r : LeaseSpec) × ((lease_of q.call).spec ≡ some r) × (Takes w q r ⊎ Releases w campaigns q r)

  pub record IsSound (w : World S) : Type 0 where
    pub past : w.landed ≤ w.time
    pub lasting : (cur : Lease) → server.current w.store ≡ some cur → IsLasting (spec_of cur)

  pub record Inv (s : System S) : Type 0 where
    pub sound : IsSound s.world
    pub local : (i : ℕ) → Local s.world i (s.campaigns i)
    pub sent : (q : Request) → Memᴰ q s.wire → Harmless s.world s.campaigns q
