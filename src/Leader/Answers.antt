-- ===== src/Leader/Answers.antt =====
-- What a round of src/kubernetes/controller/leader.rs comes to, for every answer of the API server.
use portail.Prelude.{
  ℕ, ◌+◌, ◌<◌, ◌≡◌, ◌≢◌, ◌⊎◌, inl, inr, refl, arith, true, false, Option, none, some, [], ◌∷◌,
  Bytes, Bool-cases, is_empty, bytes_eq, bytes_eq_iff,
}
use portail.Leader.Lock.{
  LeaseSpec, Lease, LeaseLock, Call, create, replace, KubeError, Result, ok, err, Outcome, held,
  contended, held_by, observe, changed_at, valid_for, holder_of, spec_of, is_barred, is_conflict,
  on_get, on_write, first_lease, next_spec, try_acquire_or_renew,
}
use portail.Leader.System.{lease_of}

-- The record binds: it names another, and at `started` its duration has not passed since it was seen to change.
abbrev pub Binds : LeaseLock → (started now : ℕ) → Lease → Bytes → Type 0
Binds l started now lease holder =
    (holder_of (spec_of lease) ≡ holder)
    × (holder ≢ [])
    × (holder ≢ l.identity)
    × (started < changed_at (observe l (spec_of lease) now) started + valid_for (spec_of lease))

-- The Lease that a call writes names `identity`.
abbrev pub Names : Bytes → Call → Type 0
Names identity call =
    (r : LeaseSpec) × ((lease_of call).spec ≡ some r) × (r.holder_identity ≡ some identity)

-- What each outcome says of the answers.
abbrev pub Explains :
    LeaseLock
    → (started now : ℕ) → Result (Option Lease)
    → (Call → Result Lease)
    → Result Outcome
    → Type 0
Explains l started now found answer (ok held) =
    (call : Call) × (lease : Lease) × (answer call ≡ ok lease) × Names l.identity call
Explains l started now found answer (ok contended) =
    (call : Call) × (e : KubeError) × (answer call ≡ err e) × (is_conflict e ≡ true)
Explains l started now found answer (ok (held_by holder)) =
    (lease : Lease) × (found ≡ ok (some lease)) × Binds l started now lease holder
Explains l started now found answer (err e) =
    (found ≡ err e) ⊎ ((call : Call) × (answer call ≡ err e) × (is_conflict e ≡ false))

is_empty-nil : (s : Bytes) → is_empty s ≡ false → s ≢ []
is_empty-nil [] e = cc
is_empty-nil (x ∷ s) e = λ e'. cc

barred-Binds :
    (l : LeaseLock) (started now : ℕ) (lease : Lease)
    → is_barred (observe l (spec_of lease) now) started (spec_of lease) ≡ true
    → Binds l started now lease (holder_of (spec_of lease))
unfolding is_barred observe
barred-Binds l started now lease e = (
  refl,
  is_empty-nil _ (ground (arith, e)),
  λ own. ground (arith, e, own, bytes_eq_iff (holder_of (spec_of lease)) l.identity),
  ground (arith, e),
)

module _ (l : LeaseLock) (started now : ℕ) (found : Result (Option Lease))
    (answer : Call → Result Lease) where
  on_write-Explains :
      (l' : LeaseLock) (written : ℕ) (call : Call) (a : Result Lease)
      → Names l.identity call
      → answer call ≡ a
      → Explains l started now found answer (on_write l' written a).1
  unfolding on_write
  on_write-Explains l' written call (ok lease) names e = (call, lease, e, names)
  on_write-Explains l' written call (err e) names a = elim (Bool-cases (is_conflict e)) [
    | inl conflict ↦ rw (conflict, on_write) (call, e, a, conflict)
    | inr other ↦ rw (other, on_write) (inr (call, a, other))
  ]

-- The call that a round makes on a Lease which does not bar it.
abbrev replacement : LeaseLock → ℕ → Lease → Call
replacement l wall lease =
    let r = spec_of lease in
    replace (record lease {
      spec = some (next_spec l.identity (bytes_eq (holder_of r) l.identity) wall r);
    })

module _ (l : LeaseLock) (started wall now written : ℕ) (lease : Lease)
    (answer : Call → Result Lease) where
  try_acquire_barred :
      is_barred (observe l (spec_of lease) now) started (spec_of lease) ≡ true
      → (try_acquire_or_renew l started wall now written (ok (some lease)) answer).1
        ≡ ok (held_by (holder_of (spec_of lease)))
  unfolding try_acquire_or_renew on_get
  try_acquire_barred e = rw (e, try_acquire_or_renew, on_get) refl

  try_acquire_free :
      is_barred (observe l (spec_of lease) now) started (spec_of lease) ≡ false
      → (try_acquire_or_renew l started wall now written (ok (some lease)) answer).1
        ≡ (on_write (observe l (spec_of lease) now) written (answer (replacement l wall lease))).1
  unfolding try_acquire_or_renew on_get
  try_acquire_free e = rw (e, try_acquire_or_renew, on_get) refl

-- Whatever the server answers, the round's result says which answer made it: the lease is held after a write that was
-- accepted and names this replica; it is another's only if the Lease read names that replica, neither this one nor
-- nobody, and its duration has not passed since it was seen to change; the round is contended only if a write met a
-- conflict; and an error is the read's, or a write's that is no conflict.
pub try_acquire_or_renew-Explains :
    (l : LeaseLock) (started wall now written : ℕ) (found : Result (Option Lease))
    (answer : Call → Result Lease)
    → Explains l started now found answer
        (try_acquire_or_renew l started wall now written found answer).1
unfolding try_acquire_or_renew on_get first_lease next_spec
try_acquire_or_renew-Explains l started wall now written (err e) answer = inl refl
try_acquire_or_renew-Explains l started wall now written (ok none) answer =
    on_write-Explains l started now (ok none) answer l written (create (first_lease l wall)) _
      (_, refl, refl) refl
try_acquire_or_renew-Explains l started wall now written (ok (some lease)) answer =
    elim (Bool-cases (is_barred (observe l (spec_of lease) now) started (spec_of lease))) [
      | inl barred ↦
          rw (try_acquire_barred l started wall now written lease answer barred)
            (lease, refl, barred-Binds l started now lease barred)
      | inr free ↦ rw (try_acquire_free l started wall now written lease answer free) (
          on_write-Explains l started now (ok (some lease)) answer _ written
            (replacement l wall lease) _ (_, refl, refl) refl)
    ]
