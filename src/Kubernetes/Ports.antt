-- ===== src/Kubernetes/Ports.antt =====
-- src/kubernetes/controller/provision/ports.rs: the ports of a Service and the ports bound behind them. A `u16` is a
-- number in its range.
pub mod Derive
pub mod Draw
pub mod Targets
pub mod Allocate
use portail.Prelude.{
  ℕ, zero, suc, ◌+◌, ◌/◌, ◌%◌, ◌^◌, Bool, true, false, not, ◌&&◌, ◌||◌, Option, none, some, List,
  [], ◌∷◌, ◌++◌, map, ltb, leb, ◌==◌, if◌then◌else◌, Bytes, bytes_eq, codes, to_lower, any, retain,
  length, nat_eq, pair_eq, Eq, is_some, arith, ◌≡◌, ◌↔◌, refl,
}
use portail.Prelude.Map.{Map, get, insert}
use portail.Kubernetes.Objects.{ℤ, pos, negsuc, Listener}

abbrev pub privileged_port_max : ℕ
privileged_port_max = 1023

abbrev pub target_port_pool_base : ℕ
target_port_pool_base = 8000

abbrev pub admin_port : ℕ
admin_port = 19099

pub data Transport : Type 0 where
  tcp udp : Transport

abbrev pub transport_beq : Transport → Transport → Bool
transport_beq tcp tcp = true
transport_beq tcp udp = false
transport_beq udp tcp = false
transport_beq udp udp = true

pub transport_beq_iff : (a b : Transport) → (transport_beq a b ≡ true) ↔ (a ≡ b)
transport_beq_iff tcp tcp = ground arith
transport_beq_iff tcp udp = ground arith
transport_beq_iff udp tcp = ground arith
transport_beq_iff udp udp = ground arith

instance abbrev pub transport_eq : Eq Transport
transport_eq = record { beq = transport_beq; beq_iff = transport_beq_iff }

pub record DerivedPort : Type 0 where
  pub name : Bytes
  pub port : ℕ
  pub transport : Transport

-- `u16::try_from`.
abbrev pub u16_of : ℤ → Option ℕ
u16_of (negsuc n) = none
u16_of (pos n) = if ltb n (2 ^ 16) then some n else none

unfoldable pub listener_transport : Bytes → Transport
listener_transport protocol = if bytes_eq protocol (codes "UDP") then udp else tcp

abbrev pub protocol : Transport → Bytes
protocol tcp = codes "TCP"
protocol udp = codes "UDP"

-- The decimal form of a number of at most `f` digits, as it is printed.
abbrev decimal : ℕ → ℕ → Bytes
decimal zero n = []
decimal (suc f) n =
    let rest = decimal f (n / 10) in
    if ltb n 10 then (b'0' + n) ∷ [] else rest ++ (b'0' + n % 10) ∷ []

-- What the loop of `derive_ports` adds for a listener with a port.
abbrev pub with_port : Option ℕ → Transport → List DerivedPort → List DerivedPort
with_port none transport ports = ports
with_port (some port) transport ports =
    if any (λ p. p.port == port && transport_beq p.transport transport) ports
    then ports
    else ports
      ++ record {
        name = to_lower (protocol transport) ++ b'-' ∷ decimal 5 port;
        port = port;
        transport = transport;
      }
        ∷ []

abbrev pub derive_from : List DerivedPort → List Listener → List DerivedPort
derive_from ports [] = ports
derive_from ports (l ∷ ls) =
    derive_from (with_port (u16_of l.port) (listener_transport l.protocol) ports) ls

unfoldable pub derive_ports : List Listener → List DerivedPort
derive_ports = derive_from []

-- `BTreeSet::insert`: in ascending order, once.
unfoldable pub insert_ascending : ℕ → List ℕ → List ℕ
insert_ascending p [] = p ∷ []
insert_ascending p (q ∷ qs) =
    if p == q then q ∷ qs else if ltb p q then p ∷ q ∷ qs else q ∷ insert_ascending p qs

unfoldable pub ascending : List ℕ → List ℕ
unfolding insert_ascending
ascending [] = []
ascending (p ∷ ps) = insert_ascending p (ascending ps)

unfoldable pub contains : ℕ → List ℕ → Bool
contains p used = any (λ q. q == p) used

abbrev pub binds_itself : ℕ → Bool
binds_itself p = ltb privileged_port_max p && not (p == admin_port)

-- The local variables of `allocate_target_ports`. `used` has no order.
pub record Allocation : Type 0 where
  pub target : Map ℕ ℕ
  pub used : List ℕ

abbrev pub assign : ℕ → ℕ → Allocation → Allocation
assign p t a = record { target = insert p t a.target; used = t ∷ a.used }

unfoldable pub bind_itself : List ℕ → Allocation → Allocation
bind_itself [] a = a
bind_itself (p ∷ ps) a = bind_itself ps (if binds_itself p then assign p p a else a)

-- The existing target of a port, if it is unprivileged and free.
unfoldable pub keep : ℕ → Option ℕ → Allocation → Allocation
keep p none a = a
keep p (some t) a = if ltb privileged_port_max t && not (contains t a.used) then assign p t a else a

unfoldable pub keep_existing : Map ℕ ℕ → List ℕ → Allocation → Allocation
keep_existing existing [] a = a
keep_existing existing (p ∷ ps) a =
    keep_existing existing ps (if binds_itself p then a else keep p (get p existing) a)

-- `while used.contains(&next) { next += 1; }`, on fuel.
unfoldable pub next_free : ℕ → List ℕ → ℕ → ℕ
next_free zero used next = next
next_free (suc f) used next =
    let rest = next_free f used ((next + 1) % 2 ^ 16) in if contains next used then rest else next

-- The draws from the pool, from `next` on. A round of the search for each used port is enough.
unfoldable pub draw : List ℕ → ℕ → Allocation → Allocation
draw [] next a = a
draw (p ∷ ps) next a =
    let free = next_free (length a.used) a.used next in
    let skipped = draw ps next a in
    let drawn = draw ps ((free + 1) % 2 ^ 16) (assign p free a) in
    if binds_itself p || is_some (get p a.target) then skipped else drawn

unfoldable pub allocate_target_ports : List ℕ → Map ℕ ℕ → Map ℕ ℕ
allocate_target_ports published existing =
    let ports = ascending published in
    let bound = bind_itself ports (record { target = []; used = admin_port ∷ [] }) in
    (draw ports target_port_pool_base (keep_existing existing ports bound)).target

-- A transport's part of a map, and of the ports.
abbrev existing_of : Transport → Map (Transport × ℕ) ℕ → Map ℕ ℕ
existing_of transport [] = []
existing_of transport (b ∷ m) =
    let rest = existing_of transport m in
    if transport_beq b.0.0 transport then (b.0.1, b.1) ∷ rest else rest

abbrev published_of : Transport → List DerivedPort → List ℕ
published_of transport ports =
    map (λ p. p.port) (retain (λ p. transport_beq p.transport transport) ports)

abbrev insert_all : Transport → Map ℕ ℕ → Map (Transport × ℕ) ℕ → Map (Transport × ℕ) ℕ
insert_all transport [] bound = bound
insert_all transport (b ∷ m) bound = insert_all transport m (insert (transport, b.0) b.1 bound)

unfoldable pub bound_ports : List DerivedPort → Map (Transport × ℕ) ℕ → Map (Transport × ℕ) ℕ
bound_ports ports existing =
    let tcps = allocate_target_ports (published_of tcp ports) (existing_of tcp existing) in
    let udps = allocate_target_ports (published_of udp ports) (existing_of udp existing) in
    insert_all udp udps (insert_all tcp tcps [])
