-- ===== src/Leader/Takeover.antt =====
-- A candidate of src/kubernetes/controller/leader.rs comes to lead once nothing binds the Lease.
use portail.Prelude.{
  ℕ, ◌+◌, ◌≤◌, ◌≡◌, ◌⊎◌, inl, inr, refl, ap, ◌∙◌, arith, true, false, Option, none, some, [],
  bytes_eq_iff, bytes_key, nat_eq, option_beq_iff,
}
use portail.Leader.Role.{is_leader}
use portail.Leader.Lock.{
  LeaseSpec, Lease, LeaseLock, ok, observe, observed_as, spec_eq, spec_of, holder_of, is_barred,
  valid_for, first_lease, next_spec, Call, create, on_write,
}
use portail.Leader.Campaign.{Campaign, writing, proceed, conclude, after, renew}
use portail.Leader.Gains.{is_leader-set}
use portail.Leader.Answers.{Names}
use portail.Leader.Invariant.Verdicts.{
  next_call, proceed-none, proceed_free, int_eq, changed_at-some,
}

spec_eq_refl : (r : LeaseSpec) → spec_eq r r ≡ true
unfolding spec_eq
spec_eq_refl r =
    rw
      (
        (option_beq_iff r.holder_identity r.holder_identity).1 refl,
        (option_beq_iff r.lease_duration_seconds r.lease_duration_seconds).1 refl,
        (option_beq_iff r.acquire_time r.acquire_time).1 refl,
        (option_beq_iff r.renew_time r.renew_time).1 refl,
        (option_beq_iff r.lease_transitions r.lease_transitions).1 refl,
        (option_beq_iff r.preferred_holder r.preferred_holder).1 refl,
        (option_beq_iff r.strategy r.strategy).1 refl,
      )
      refl

-- Nothing binds what the candidate read: there is no Lease, or the record names nobody or the candidate itself, or it
-- has stayed as the candidate first saw it for its duration.
abbrev pub IsUnbound : LeaseLock → ℕ → Option Lease → Type 0
IsUnbound l started none = Unit
IsUnbound l started (some lease) =
    (holder_of (spec_of lease) ≡ [])
    ⊎ ((holder_of (spec_of lease) ≡ l.identity)
        ⊎ ((at : ℕ) × (l.observed ≡ some (spec_of lease, at))
            × (at + valid_for (spec_of lease) ≤ started)))

observed_as-same : (r : LeaseSpec) (at now : ℕ) → observed_as (some (r, at)) r now ≡ some (r, at)
unfolding observed_as
observed_as-same r at now = rw (spec_eq_refl r) refl

unbound_free :
    (l : LeaseLock) (started now : ℕ) (lease : Lease)
    → IsUnbound l started (some lease)
    → is_barred (observe l (spec_of lease) now) started (spec_of lease) ≡ false
unfolding is_barred observe
unbound_free l started now lease (inl nobody) = rw nobody refl
unbound_free l started now lease (inr (inl own)) =
    ground (arith, (bytes_eq_iff (holder_of (spec_of lease)) l.identity).1 own)
unbound_free l started now lease (inr (inr (at, seen, expired))) =
    let kept : observed_as l.observed (spec_of lease) now ≡ some (spec_of lease, at) =
      ap (λ o. observed_as o (spec_of lease) now) seen ∙ observed_as-same (spec_of lease) at now in
    ground (
      arith,
      expired,
      changed_at-some (observe l (spec_of lease) now) started at (spec_of lease) kept,
    )

led :
    (c : Campaign) (now wait : ℕ) (saved : Lease)
    → c.renewed ≡ none
    → is_leader (conclude c now wait (ok saved)).leader ≡ true
unfolding conclude on_write after renew
led c now wait saved e = simp (e, is_leader-set)

-- A candidate that finds nothing binding the Lease - there is none, or its record names nobody or the candidate itself,
-- or has stayed as the candidate first saw it for its duration - asks to write it in its own name, and leads once the
-- server accepts.
pub unbound_lease_led :
    (c : Campaign) (now wall wait now' wait' : ℕ) (found : Option Lease) (saved : Lease)
    → c.renewed ≡ none
    → IsUnbound c.lock c.started found
    → ((call : Call) × ((proceed c now wall wait found).phase ≡ writing call)
        × Names c.lock.identity call)
      × (is_leader (conclude (proceed c now wall wait found) now' wait' (ok saved)).leader ≡ true)
unfolding first_lease next_spec
unbound_lease_led c now wall wait now' wait' none saved e h =
    rw (proceed-none c now wall wait)
      ((create (first_lease c.lock wall), refl, (_, refl, refl)), led _ now' wait' saved e)
unbound_lease_led c now wall wait now' wait' (some lease) saved e h =
    rw (proceed_free c now wall wait lease (unbound_free c.lock c.started now lease h))
      ((next_call c wall lease, refl, (_, refl, refl)), led _ now' wait' saved e)
