-- ===== src/Leader/Role.antt =====
-- A replica's view of the election: `Leader` of src/kubernetes/controller/leader.rs. An instant is a number of
-- nanoseconds on the replica's own clock.
use portail.Prelude.{
  ℕ, ◌+◌, Bool, true, false, ◌&&◌, not, Option, none, some, List, [], ◌∷◌, ◌++◌, map, if◌then◌else◌,
  retain, ◌==◌,
}

pub data Role : Type 0 where
  standby leading lost : Role

abbrev pub is_leading : Role → Bool
is_leading standby = false
is_leading leading = true
is_leading lost = false

-- One `gained` stream: the identity of its channel, the items sent to it, and whether its receiver is still there.
pub record Gained : Type 0 where
  pub channel : ℕ
  pub items : ℕ
  pub receiving : Bool

pub record Leader : Type 0 where
  pub role : Role
  pub streams : List Gained
  pub since : Option ℕ

-- `Leader::new` at the instant `now`.
unfoldable pub new : Role → ℕ → Leader
new role now = record {
  role = role;
  streams = [];
  since = if is_leading role then some now else none;
}

unfoldable pub is_leader : Leader → Bool
is_leader l = is_leading l.role

-- `unbounded_send(())`, which fails once the receiver is gone.
abbrev pub send : Gained → Gained
send g = if g.receiving then record g { items = g.items + 1 } else g

-- A new stream on a channel.
abbrev pub opened : (channel : ℕ) → Bool → Gained
opened channel leads =
    let stream : Gained = record { channel = channel; items = 0; receiving = true } in
    if leads then send stream else stream

-- `gained`, where `mpsc::unbounded` makes the channel: the new stream is the last of the list.
unfoldable pub gained : Leader → (channel : ℕ) → Leader
gained l channel = record l { streams = l.streams ++ opened channel (is_leader l) ∷ [] }

-- The drop of a channel's receiver.
abbrev pub hung_up : (channel : ℕ) → Gained → Gained
hung_up channel g = if g.channel == channel then record g { receiving = false } else g

unfoldable pub hang_up : Leader → (channel : ℕ) → Leader
hang_up l channel = record l { streams = map (hung_up channel) l.streams }

unfoldable pub leading_since : Leader → Option ℕ
unfolding is_leader
leading_since l = if is_leader l then l.since else none

-- `set` at the instant `now`.
unfoldable pub set : Leader → Role → ℕ → Leader
set l role now =
    if is_leading role && not (is_leading l.role)
    then record {
      role = role;
      streams = retain (λ g. g.receiving) (map send l.streams);
      since = some now;
    }
    else record l { role = role }
