-- ===== src/Leader/Gains.antt =====
-- The `gained` streams of `Leader` in src/kubernetes/controller/leader.rs over a replica's whole life.
use portail.Prelude.{
  ℕ, ◌+◌, ◌≡◌, refl, arith, Bool, true, false, ◌&&◌, not, Option, none, some, List, [], ◌∷◌, ◌++◌,
  map, retain, find, Bool-cases, inl, inr, ap, ◌∙◌, if◌then◌else◌, ◌==◌, ==_iff,
}
use mathlib.Core.Path.{subst}
use portail.Leader.Role.{
  Role, Leader, Gained, is_leading, is_leader, gained, set, send, opened, hung_up, hang_up,
}

-- What happens to a replica's view: its role is set at an instant, a stream is opened on a channel, or a channel's
-- receiver is dropped.
pub data Event : Type 0 where
  becomes : Role → ℕ → Event
  opens drops : ℕ → Event

abbrev pub after_event : Leader → Event → Leader
after_event l (becomes role now) = set l role now
after_event l (opens channel) = gained l channel
after_event l (drops channel) = hang_up l channel

unfoldable pub after_events : Leader → List Event → Leader
after_events l [] = l
after_events l (e ∷ events) = after_events (after_event l e) events

-- How often a replica comes to lead, where it leads beforehand or not.
unfoldable pub gains : Bool → List Event → ℕ
gains leads [] = 0
gains leads (becomes role _ ∷ rest) =
    (if is_leading role && not leads then 1 else 0) + gains (is_leading role) rest
gains leads (opens _ ∷ rest) = gains leads rest
gains leads (drops _ ∷ rest) = gains leads rest

-- No event drops the channel's receiver.
unfoldable pub keeps : (channel : ℕ) → List Event → Bool
keeps channel [] = true
keeps channel (becomes _ _ ∷ rest) = keeps channel rest
keeps channel (opens _ ∷ rest) = keeps channel rest
keeps channel (drops other ∷ rest) = not (other == channel) && keeps channel rest

abbrev pub stream_of : (channel : ℕ) → List Gained → Option Gained
stream_of channel gs = find (λ g. g.channel == channel) gs

abbrev items_in : Option Gained → Option ℕ
items_in none = none
items_in (some g) = some g.items

abbrev pub items_of : (channel : ℕ) → Leader → Option ℕ
items_of channel l = items_in (stream_of channel l.streams)

sent : (g : Gained) → g.receiving ≡ true → send g ≡ record g { items = g.items + 1 }
sent g e = rw e refl

sent-channel : (g : Gained) → (send g).channel ≡ g.channel
sent-channel g = ground arith

sent_receiving : (g : Gained) → (send g).receiving ≡ g.receiving
sent_receiving g = ground arith

-- A stream that receives is found again after a send to all, with its item.
stream_of-send :
    (channel : ℕ) (gs : List Gained) (g : Gained)
    → stream_of channel gs ≡ some g
    → g.receiving ≡ true
    → stream_of channel (retain (λ h. h.receiving) (map send gs)) ≡ some (send g)
stream_of-send channel [] g e r = cc
stream_of-send channel (x ∷ gs) g e r = elim (Bool-cases (x.channel == channel)) [
  | inl here ↦
      let found : x ≡ g = ground (arith, here, e) in
      let receives : (send x).receiving ≡ true =
        sent_receiving x ∙ ap (λ h. h.receiving) found ∙ r in
      let named : ((send x).channel == channel) ≡ true = rw (sent-channel x) here in
      rw (receives, named, found) refl
  | inr elsewhere ↦
      let rest = stream_of-send channel gs g (ground (arith, elsewhere, e)) r in
      let other : ((send x).channel == channel) ≡ false = rw (sent-channel x) elsewhere in
      elim (Bool-cases (send x).receiving) [
        | inl kept ↦ rw (kept, other) rest
        | inr dropped ↦ rw dropped rest
      ]
]

stream_of-append :
    (channel : ℕ) (gs more : List Gained) (g : Gained)
    → stream_of channel gs ≡ some g
    → stream_of channel (gs ++ more) ≡ some g
stream_of-append channel [] more g e = cc
stream_of-append channel (x ∷ gs) more g e = elim (Bool-cases (x.channel == channel)) [
  | inl here ↦ rw here (ground (arith, here, e))
  | inr elsewhere ↦ rw elsewhere (stream_of-append channel gs more g (ground (arith, elsewhere, e)))
]

stream_of-new :
    (channel : ℕ) (gs : List Gained) (g : Gained)
    → stream_of channel gs ≡ none
    → (g.channel == channel) ≡ true
    → stream_of channel (gs ++ g ∷ []) ≡ some g
stream_of-new channel [] g e here = rw here refl
stream_of-new channel (x ∷ gs) g e here = elim (Bool-cases (x.channel == channel)) [
  | inl there ↦ absurd (ground (arith, there, e))
  | inr elsewhere ↦ rw elsewhere (stream_of-new channel gs g (ground (arith, elsewhere, e)) here)
]

stream_of-hung_up :
    (channel other : ℕ) (gs : List Gained) (g : Gained)
    → (other == channel) ≡ false
    → stream_of channel gs ≡ some g
    → stream_of channel (map (hung_up other) gs) ≡ some g
stream_of-hung_up channel other [] g differs e = cc
stream_of-hung_up channel other (x ∷ gs) g differs e = elim (Bool-cases (x.channel == channel)) [
  | inl here ↦
      let same : x.channel ≡ channel = (==_iff x.channel channel).0 here in
      let kept : (x.channel == other) ≡ false =
        ground (arith, same, differs, ==_iff other channel, ==_iff x.channel other) in
      rw (kept, here) (ground (arith, here, e))
  | inr elsewhere ↦
      let rest = stream_of-hung_up channel other gs g differs (ground (arith, elsewhere, e)) in
      elim (Bool-cases (x.channel == other)) [
        | inl hit ↦ rw (hit, elsewhere) rest
        | inr miss ↦ rw (miss, elsewhere) rest
      ]
]

-- The channel's stream after an event: it receives, and has an item more if the replica comes to lead.
abbrev Goes : (channel n : ℕ) → Leader → Type 0
Goes channel n l =
    (g : Gained) × (stream_of channel l.streams ≡ some g) × (g.receiving ≡ true) × (g.items ≡ n)

set-Goes :
    (channel n : ℕ) (l : Leader) (role : Role) (now : ℕ)
    → Goes channel n l
    → Goes channel (n + (if is_leading role && not (is_leader l) then 1 else 0)) (set l role now)
unfolding set is_leader
set-Goes channel n l role now (g, e, r, i) =
    elim (Bool-cases (is_leading role && not (is_leading l.role))) [
      | inl gain ↦ rw gain (
        send g,
        stream_of-send channel l.streams g e r,
        sent_receiving g ∙ r,
        ground (arith, r, i),
      )
      | inr same ↦ rw same (g, e, r, omega (arith, i))
    ]

gained-Goes :
    (channel n : ℕ) (l : Leader) (other : ℕ) → Goes channel n l → Goes channel n (gained l other)
unfolding gained
gained-Goes channel n l other (g, e, r, i) =
    (g, stream_of-append channel l.streams (opened other (is_leader l) ∷ []) g e, r, i)

hang_up-Goes :
    (channel n : ℕ) (l : Leader) (other : ℕ)
    → (other == channel) ≡ false
    → Goes channel n l
    → Goes channel n (hang_up l other)
unfolding hang_up
hang_up-Goes channel n l other differs (g, e, r, i) =
    (g, stream_of-hung_up channel other l.streams g differs e, r, i)

pub is_leader-set :
    (l : Leader) (role : Role) (now : ℕ) → is_leader (set l role now) ≡ is_leading role
unfolding is_leader set
is_leader-set l role now = ground arith

is_leader-gained : (l : Leader) (channel : ℕ) → is_leader (gained l channel) ≡ is_leader l
unfolding is_leader gained
is_leader-gained l channel = refl

is_leader-hang_up : (l : Leader) (channel : ℕ) → is_leader (hang_up l channel) ≡ is_leader l
unfolding is_leader hang_up
is_leader-hang_up l channel = refl

after_events-Goes :
    (channel n : ℕ) (l : Leader) (events : List Event)
    → keeps channel events ≡ true
    → Goes channel n l
    → Goes channel (n + gains (is_leader l) events) (after_events l events)
unfolding after_events gains keeps
after_events-Goes channel n l [] kept goes = subst (λ m. Goes channel m l) (omega arith) goes
after_events-Goes channel n l (becomes role now ∷ events) kept goes =
    let more : ℕ = if is_leading role && not (is_leader l) then 1 else 0 in
    let now_leads = is_leader-set l role now in
    subst (λ m. Goes channel m (after_events (set l role now) events))
      (ap (λ b. n + more + gains b events) now_leads ∙ omega arith)
      (after_events-Goes channel (n + more) (set l role now) events kept
        (set-Goes channel n l role now goes))
after_events-Goes channel n l (opens other ∷ events) kept goes =
    subst (λ b. Goes channel (n + gains b events) (after_events (gained l other) events))
      (is_leader-gained l other)
      (after_events-Goes channel n (gained l other) events kept
        (gained-Goes channel n l other goes))
after_events-Goes channel n l (drops other ∷ events) kept goes =
    subst (λ b. Goes channel (n + gains b events) (after_events (hang_up l other) events))
      (is_leader-hang_up l other)
      (after_events-Goes channel n (hang_up l other) events (ground (arith, kept))
        (hang_up-Goes channel n l other (ground (arith, kept)) goes))

opened-channel : (channel : ℕ) (b : Bool) → ((opened channel b).channel == channel) ≡ true
opened-channel channel b = ground (arith, ==_iff channel channel)

opened_receiving : (channel : ℕ) (b : Bool) → (opened channel b).receiving ≡ true
opened_receiving channel b = ground arith

opened_items : (channel : ℕ) (b : Bool) → (opened channel b).items ≡ (if b then 1 else 0)
opened_items channel b = ground arith

Goes-items : (channel n : ℕ) (l : Leader) → Goes channel n l → items_of channel l ≡ some n
Goes-items channel n l (g, e, r, i) = ap items_in e ∙ ap some i

-- A stream opened on a new channel, whose receiver is not dropped, has received one item for each time that the replica
-- came to lead since it was opened, and one more if the replica led when it was opened, whatever other streams are opened
-- and dropped before and after it.
pub gained_once :
    (l : Leader) (channel : ℕ) (events : List Event)
    → stream_of channel l.streams ≡ none
    → keeps channel events ≡ true
    → items_of channel (after_events (gained l channel) events)
      ≡ some ((if is_leader l then 1 else 0) + gains (is_leader l) events)
unfolding gained
gained_once l channel events fresh kept =
    let leads = is_leader l in
    let stream = opened channel leads in
    let start : Goes channel (if leads then 1 else 0) (gained l channel) = (
      stream,
      stream_of-new channel l.streams stream fresh (opened-channel channel leads),
      opened_receiving channel leads,
      opened_items channel leads,
    ) in
    Goes-items channel _ (after_events (gained l channel) events) (
      subst
        (λ b.
          Goes channel ((if leads then 1 else 0) + gains b events)
            (after_events (gained l channel) events))
        (is_leader-gained l channel)
        (after_events-Goes channel (if leads then 1 else 0) (gained l channel) events kept start))
