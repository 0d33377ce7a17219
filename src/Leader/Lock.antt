-- ===== src/Leader/Lock.antt =====
-- The Lease and the lock on it: `LeaseLock` of src/kubernetes/controller/leader.rs. What the API server and the clocks
-- answer is an argument: instants in nanoseconds on the replica's clock, wall-clock times in microseconds.
use portail.Prelude.{
  ℕ, ◌+◌, ◌*◌, Bool, false, ◌&&◌, not, Option, none, some, [], ltb, ◌==◌, if◌then◌else◌, Bytes,
  bytes_eq, is_empty, get_or_else, option_beq, zero, suc,
}
use portail.Kubernetes.Objects.{ℤ, pos, negsuc, int_beq}

-- `coordination.k8s.io/v1` LeaseSpec.
pub record LeaseSpec : Type 0 where
  pub holder_identity : Option Bytes
  pub lease_duration_seconds : Option ℤ
  pub acquire_time : Option ℕ
  pub renew_time : Option ℕ
  pub lease_transitions : Option ℤ
  pub preferred_holder : Option Bytes
  pub strategy : Option Bytes

pub record Lease : Type 0 where
  pub name : Option Bytes
  pub resource_version : Option ℕ
  pub spec : Option LeaseSpec

abbrev pub default_spec : LeaseSpec
default_spec = record {
  holder_identity = none;
  lease_duration_seconds = none;
  acquire_time = none;
  renew_time = none;
  lease_transitions = none;
  preferred_holder = none;
  strategy = none;
}

-- `kube::Error`: the server's status with its code, or a failure to get an answer.
pub data KubeError : Type 0 where
  api : ℕ → KubeError
  transport : KubeError

pub data Result {ℓ} (A : Type ℓ) : Type ℓ where
  ok : A → Result A
  err : KubeError → Result A

unfoldable pub is_conflict : KubeError → Bool
is_conflict (api code) = code == 409
is_conflict transport = false

pub data Outcome : Type 0 where
  held contended : Outcome
  held_by : Bytes → Outcome

-- `Duration::from_secs`.
abbrev pub from_secs : ℕ → ℕ
from_secs s = s * 1000000000

abbrev pub lease_duration_secs : ℕ
lease_duration_secs = 15

abbrev pub renew_deadline : ℕ
renew_deadline = from_secs 10

abbrev pub retry_period : ℕ
retry_period = from_secs 2

abbrev pub released_duration_secs : ℕ
released_duration_secs = 1

-- `==` on records.
unfoldable pub spec_eq : LeaseSpec → LeaseSpec → Bool
spec_eq a b =
    option_beq bytes_eq a.holder_identity b.holder_identity
    && option_beq int_beq a.lease_duration_seconds b.lease_duration_seconds
    && option_beq ◌==◌ a.acquire_time b.acquire_time
    && option_beq ◌==◌ a.renew_time b.renew_time
    && option_beq int_beq a.lease_transitions b.lease_transitions
    && option_beq bytes_eq a.preferred_holder b.preferred_holder
    && option_beq bytes_eq a.strategy b.strategy

pub record LeaseLock : Type 0 where
  pub name : Bytes
  pub identity : Bytes
  pub observed : Option (LeaseSpec × ℕ)

unfoldable pub observed_as : Option (LeaseSpec × ℕ) → LeaseSpec → ℕ → Option (LeaseSpec × ℕ)
observed_as none spec at = some (spec, at)
observed_as (some (r, t)) spec at = if spec_eq r spec then some (r, t) else some (spec, at)

unfoldable pub observe : LeaseLock → LeaseSpec → ℕ → LeaseLock
observe l spec at = record l { observed = observed_as l.observed spec at }

-- A request to write: `api.create` or `api.replace`.
pub data Call : Type 0 where
  create replace : Lease → Call

-- What the first half of a round comes to: the lease is another's, or it is to be written.
pub data Verdict : Type 0 where
  taken_by : Bytes → Verdict
  write : Call → Verdict

-- The Lease created where there is none.
unfoldable pub first_lease : LeaseLock → ℕ → Lease
first_lease l wall = record {
  name = some l.name;
  resource_version = none;
  spec = some record {
    holder_identity = some l.identity;
    lease_duration_seconds = some (pos lease_duration_secs);
    acquire_time = some wall;
    renew_time = some wall;
    lease_transitions = some (pos 0);
    preferred_holder = none;
    strategy = none;
  };
}

-- `saturating_add(1)` on an `i32`.
unfoldable pub saturating_succ : ℤ → ℤ
saturating_succ (pos n) = if n == 2147483647 then pos n else pos (n + 1)
saturating_succ (negsuc zero) = pos 0
saturating_succ (negsuc (suc n)) = negsuc n

-- The record that renews the lease, if it is `mine`, or takes it over.
unfoldable pub next_spec : Bytes → Bool → ℕ → LeaseSpec → LeaseSpec
next_spec identity mine wall r = record r {
  holder_identity = some identity;
  lease_duration_seconds = some (pos lease_duration_secs);
  acquire_time = if mine then r.acquire_time else some wall;
  renew_time = some wall;
  lease_transitions =
      if mine
      then r.lease_transitions
      else some (saturating_succ (get_or_else r.lease_transitions (pos 0)));
}

-- `Duration::from_secs(secs.max(0) as u64)`.
unfoldable pub valid_for : LeaseSpec → ℕ
valid_for r = elim (get_or_else r.lease_duration_seconds (pos 0)) [
  | pos n ↦ from_secs n
  | negsuc _ ↦ 0
]

unfoldable pub changed_at : LeaseLock → ℕ → ℕ
changed_at l started = elim l.observed [ none ↦ started | some (_, at) ↦ at ]

abbrev pub holder_of : LeaseSpec → Bytes
holder_of r = get_or_else r.holder_identity []

abbrev pub spec_of : Lease → LeaseSpec
spec_of lease = get_or_else lease.spec default_spec

-- Whether the record keeps this candidate off: it names another holder, and is still valid at `started`.
unfoldable pub is_barred : LeaseLock → ℕ → LeaseSpec → Bool
is_barred l started r =
    not (is_empty (holder_of r))
    && not (bytes_eq (holder_of r) l.identity)
    && ltb started (changed_at l started + valid_for r)

-- The round from the answer of `get_opt`, which came at the instant `now`, to the write.
unfoldable pub on_get : LeaseLock → (started wall now : ℕ) → Option Lease → LeaseLock × Verdict
on_get l started wall now none = (l, write (create (first_lease l wall)))
on_get l started wall now (some lease) =
    let r = spec_of lease in
    let l' = observe l r now in
    let mine = bytes_eq (holder_of r) l.identity in
    (
      l',
      if is_barred l' started r
          then taken_by (holder_of r)
          else write (replace (record lease { spec = some (next_spec l.identity mine wall r) })),
    )

-- The rest of the round, from the answer to the write.
unfoldable pub on_write : LeaseLock → ℕ → Result Lease → LeaseLock × Result Outcome
on_write l now (ok lease) = (observe l (spec_of lease) now, ok held)
on_write l now (err e) = (l, if is_conflict e then ok contended else err e)

abbrev finish : LeaseLock × Verdict → (Call → Result Lease) → ℕ → LeaseLock × Result Outcome
finish (l, taken_by holder) answer written = (l, ok (held_by holder))
finish (l, write call) answer written = on_write l written (answer call)

-- `try_acquire_or_renew`: `found` answers the read at the instant `now`, `answer` the write at `written`.
unfoldable pub try_acquire_or_renew :
    LeaseLock
    → (started wall now written : ℕ) → Result (Option Lease)
    → (Call → Result Lease)
    → LeaseLock × Result Outcome
try_acquire_or_renew l started wall now written (ok found) answer =
    finish (on_get l started wall now found) answer written
try_acquire_or_renew l started wall now written (err e) answer = (l, err e)

-- The record that gives the lease up.
unfoldable pub released_spec : ℕ → LeaseSpec → LeaseSpec
released_spec wall r = record r {
  holder_identity = some [];
  lease_duration_seconds = some (pos released_duration_secs);
  acquire_time = some wall;
  renew_time = some wall;
}

-- `release` up to its write: the Lease to write, if it names this replica.
unfoldable pub release_call : Bytes → ℕ → Option Lease → Option Call
release_call identity wall none = none
release_call identity wall (some lease) =
    let r = spec_of lease in
    if option_beq bytes_eq r.holder_identity (some identity)
    then some (replace (record lease { spec = some (released_spec wall r) }))
    else none

unfoldable pub release :
    Bytes → ℕ → Result (Option Lease) → (Call → Result Lease) → Result (Unit {0})
release identity wall (err e) answer = err e
release identity wall (ok found) answer = elim (release_call identity wall found) [
  | none ↦ ok tt
  | some call ↦ elim (answer call) [ ok _ ↦ ok tt | err e ↦ err e ]
]
