-- ===== src/Leader/Safety.antt =====
-- What the election of src/kubernetes/controller/leader.rs guarantees at every moment.
use portail.Prelude.{ℕ, ◌+◌, ◌*◌, ◌≤◌, ◌<◌, ◌≡◌, ◌≢◌, ap, sym, ◌∙◌, true, some, [], Bytes}
use mathlib.Core.Option.{some_inj}
use portail.Leader.Role.{is_leader}
use portail.Leader.Lock.{Lease, from_secs, holder_of, spec_of}
use portail.Leader.System.{ApiServer, System, Reach, start, later}
use portail.Leader.Invariant.{IsLasting, Inv}
use portail.Leader.Invariant.Rounds.{leads_bound}
use portail.Leader.Invariant.Steps.{Step-Inv, initial-Inv}

module _ {S : Type 0} (server : ApiServer S) (skew : ℕ → ℕ) (slack : ℕ)
    (prompt : slack < from_secs 1) (identity : ℕ → Bytes)
    (distinct : (i j : ℕ) → identity i ≡ identity j → i ≡ j) (named : (i : ℕ) → identity i ≢ [])
    (name : Bytes) (store : S)
    (lasting : (cur : Lease) → server.current store ≡ some cur → IsLasting (spec_of cur)) where
  Reach-Inv :
      {s : System S}
      → Reach server skew slack name identity store s
      → Inv server skew slack identity s
  Reach-Inv start = initial-Inv server skew slack identity name store lasting
  Reach-Inv (later r step) =
      Step-Inv server skew slack identity (Reach-Inv r) distinct named prompt step

  -- Two replicas never lead at once, whatever their clocks show, when timers fire less than a second late, no two
  -- replicas share an identity, none has the empty one, a record that names a holder before the election lasts for the
  -- lease's duration, and no record written is like one that a replica has seen.
  pub one_leader :
      {s : System S}
      → Reach server skew slack name identity store s
      → (i j : ℕ) → is_leader (s.campaigns i).leader ≡ true
      → is_leader (s.campaigns j).leader ≡ true
      → i ≡ j
  one_leader reached i j lead lead' =
      let inv = Reach-Inv reached in
      let (_, _, _, _, ((cur, current, mine), _)) = (inv.local i).leads lead in
      let (_, _, _, _, ((cur', current', mine'), _)) = (inv.local j).leads lead' in
      distinct i j
        (sym mine ∙ (ap holder_of (ap spec_of (some_inj.0 (sym current ∙ current'))) ∙ mine'))

  -- In the same election a leader holds the Lease: the server's record names it. The last renewal that it counts began, on its own clock, at
  -- most twelve seconds and three delays ago, no later than the server's last write.
  pub leader_holds :
      {s : System S}
      → Reach server skew slack name identity store s
      → (i : ℕ) → is_leader (s.campaigns i).leader ≡ true
      → ((cur : Lease) × (server.current s.world.store ≡ some cur)
          × (holder_of (spec_of cur) ≡ identity i))
        × ((r : ℕ) × ((s.campaigns i).renewed ≡ some r)
            × (r ≤ s.world.landed + skew i)
            × (s.world.time + skew i ≤ r + from_secs 12 + 3 * slack))
  leader_holds reached i lead =
      let h = (Reach-Inv reached).local i in
      let (r, e, _, _, (owned, before)) = h.leads lead in
      (owned, (r, e, before, leads_bound server skew slack identity h r lead e))
