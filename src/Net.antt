-- ===== src/Net.antt =====
-- The standard library's addresses, as far as the program looks into them: `IpAddr`, `SocketAddr`.
use portail.Prelude.{
  ℕ, ◌-◌, ◌*◌, ◌^◌, Bool, true, false, ◌&&◌, ◌≡◌, ◌↔◌, arith, ltb, leb, ◌==◌, ==_iff, if◌then◌else◌,
  Eq,
}

-- The number is the address in network order.
pub data IpAddr : Type 0 where
  v4 : ℕ → IpAddr
  v6 : ℕ → IpAddr

-- Without the flow label and the scope of a `SocketAddrV6`.
pub record SocketAddr : Type 0 where
  pub ip : IpAddr
  pub port : ℕ

-- `::ffff:a.b.c.d` is an IPv4 address.
abbrev pub to_canonical : IpAddr → IpAddr
to_canonical (v4 a) = v4 a
to_canonical (v6 a) =
    if leb (0xffff * 2 ^ 32) a && ltb a (0x10000 * 2 ^ 32) then v4 (a - 0xffff * 2 ^ 32) else v6 a

abbrev pub ip_beq : IpAddr → IpAddr → Bool
ip_beq (v4 a) (v4 b) = a == b
ip_beq (v4 a) (v6 b) = false
ip_beq (v6 a) (v4 b) = false
ip_beq (v6 a) (v6 b) = a == b

pub ip_beq_iff : (a b : IpAddr) → (ip_beq a b ≡ true) ↔ (a ≡ b)
ip_beq_iff (v4 a) (v4 b) = ground (arith, ==_iff a b)
ip_beq_iff (v4 a) (v6 b) = ground arith
ip_beq_iff (v6 a) (v4 b) = ground arith
ip_beq_iff (v6 a) (v6 b) = ground (arith, ==_iff a b)

abbrev pub socket_beq : SocketAddr → SocketAddr → Bool
socket_beq a b = ip_beq a.ip b.ip && a.port == b.port

pub socket_beq_iff : (a b : SocketAddr) → (socket_beq a b ≡ true) ↔ (a ≡ b)
socket_beq_iff a b = ground (arith, ip_beq_iff a.ip b.ip, ==_iff a.port b.port)

instance abbrev pub socket_eq : Eq SocketAddr
socket_eq = record { beq = socket_beq; beq_iff = socket_beq_iff }
