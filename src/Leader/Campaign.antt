-- ===== src/Leader/Campaign.antt =====
-- The campaign loop, `run_campaign` of src/kubernetes/controller/leader.rs, a piece of the loop at a time: the head of
-- the loop, the answer to the read, the end of a round, and the stop.
use portail.Prelude.{ℕ, ◌+◌, ◌-◌, Option, none, some, if◌then◌else◌, leb, is_some}
use portail.Leader.Role.{standby, leading, lost, Leader, new, set}
use portail.Leader.Lock.{
  LeaseLock, Lease, Call, Result, ok, err, Outcome, held, contended, held_by, renew_deadline,
  retry_period, Verdict, taken_by, write, on_get, on_write,
}

-- Where the task stands, with what is live there: asleep until an instant, waiting for the answer to the read, to the
-- write, for the stop's release, or ended.
pub data Phase : Type 0 where
  asleep : ℕ → Phase
  reading : Phase
  read : Option Lease → Phase
  writing : Call → Phase
  written : Lease → Phase
  releasing : Phase
  ended : Phase

pub record Campaign : Type 0 where
  pub lock : LeaseLock
  pub leader : Leader
  pub renewed : Option ℕ
  pub started : ℕ
  pub phase : Phase

-- `campaign` at the instant `now`.
unfoldable pub campaign : LeaseLock → ℕ → Campaign
campaign l now = record {
  lock = l;
  leader = new standby now;
  renewed = none;
  started = now;
  phase = asleep now;
}

-- `RENEW_DEADLINE.saturating_sub(started - at)`; `started - at` is 0 where `at` is the later.
unfoldable pub budget : Option ℕ → ℕ → ℕ
budget none started = renew_deadline
budget (some at) started = renew_deadline - (started - at)

-- The head of the loop: the round starts at `now`.
unfoldable pub begin : Campaign → ℕ → Campaign
begin c now = record c { started = now; phase = reading }

-- The instant at which the round times out.
unfoldable pub deadline : Campaign → ℕ
deadline c = c.started + budget c.renewed c.started

-- The end of a round that failed, at the instant `now`; `wait` is a candidate's sleep, with its jitter.
abbrev pub failed_at : Option ℕ → Campaign → (now wait : ℕ) → Campaign
failed_at none c now wait = record c { phase = asleep (now + wait) }
failed_at (some at) c now wait =
    if leb renew_deadline (now - at)
    then record c { leader = set c.leader lost now; phase = ended }
    else record c { phase = asleep (now + retry_period) }

unfoldable pub failed : Campaign → (now wait : ℕ) → Campaign
failed c now wait = failed_at c.renewed c now wait

-- The end of a round that holds the lease.
unfoldable pub renew : Campaign → ℕ → Campaign
renew c now = record c {
  leader = if is_some c.renewed then c.leader else set c.leader leading now;
  renewed = some c.started;
  phase = asleep (now + retry_period);
}

-- The end of a round that found the lease another's.
unfoldable pub give_way : Campaign → (now wait : ℕ) → Campaign
give_way c now wait =
    if is_some c.renewed
    then record c { leader = set c.leader lost now; phase = ended }
    else record c { phase = asleep (now + wait) }

-- What follows an attempt: its result, an error, or none within the budget.
unfoldable pub after : Campaign → Option (Result Outcome) → (now wait : ℕ) → Campaign
after c (some (ok held)) now wait = renew c now
after c (some (ok (held_by _))) now wait = give_way c now wait
after c (some (ok contended)) now wait = failed c now wait
after c (some (err _)) now wait = failed c now wait
after c none now wait = failed c now wait

abbrev pub settle : Campaign → Verdict → (now wait : ℕ) → Campaign
settle c (taken_by holder) now wait = after c (some (ok (held_by holder))) now wait
settle c (write call) now wait = record c { phase = writing call }

-- The answer to the read, at the instant `now`: the round goes on to its write, or ends.
unfoldable pub proceed : Campaign → (now wall wait : ℕ) → Option Lease → Campaign
proceed c now wall wait found =
    let (l, verdict) = on_get c.lock c.started wall now found in
    settle (record c { lock = l }) verdict now wait

-- The answer to the write, at the instant `now`.
unfoldable pub conclude : Campaign → (now wait : ℕ) → Result Lease → Campaign
conclude c now wait answer =
    let (l, result) = on_write c.lock now answer in
    after (record c { lock = l }) (some result) now wait

-- `stop` cancelled, which both selects of the loop look at: the leader becomes a standby, and releases the lease.
unfoldable pub halt : Campaign → ℕ → Campaign
halt c now =
    if is_some c.renewed
    then record c { leader = set c.leader standby now; phase = releasing }
    else record c { phase = ended }
