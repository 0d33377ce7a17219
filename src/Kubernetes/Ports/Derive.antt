-- ===== src/Kubernetes/Ports/Derive.antt =====
-- src/kubernetes/controller/provision/ports.rs: the ports that derive_ports lists.
use portail.Prelude.{
  ℕ, Bool, true, false, ◌&&◌, ◌||◌, Option, none, some, List, [], ◌∷◌, ◌++◌, ◌≡◌, refl, sym, ap,
  ◌∙◌, arith, ◌==◌, ==_iff, any, is_some_and, Bool-cases, inl, inr,
}
use mathlib.Core.Path.{ap₂}
use portail.Kubernetes.Objects.{Listener}
use portail.Kubernetes.Ports.{
  Transport, transport_beq, transport_beq_iff, DerivedPort, u16_of, listener_transport, with_port,
  derive_from, derive_ports,
}

-- The port is on the list for the transport.
abbrev pub has : ℕ → Transport → List DerivedPort → Bool
has p t ports = any (λ q. q.port == p && transport_beq q.transport t) ports

-- A listener's port fits 16 bits and is the port, and its protocol runs on the transport.
abbrev pub publishes : ℕ → Transport → Listener → Bool
publishes p t l =
    is_some_and (u16_of l.port) (λ q. q == p) && transport_beq (listener_transport l.protocol) t

abbrev pub IsOnce : List DerivedPort → Type 0
IsOnce [] = Unit
IsOnce (q ∷ qs) = (has q.port q.transport qs ≡ false) × IsOnce qs

has-append :
    (p : ℕ) (t : Transport) (xs : List DerivedPort) (y : DerivedPort)
    → has p t (xs ++ y ∷ []) ≡ (has p t xs || (y.port == p && transport_beq y.transport t))
has-append p t [] y = ground arith
has-append p t (x ∷ xs) y = ground (arith, has-append p t xs y)

same : (p q : ℕ) (t u : Transport) → (q == p && transport_beq u t) ≡ true → (q ≡ p) × (u ≡ t)
same p q t u h = ground (arith, ==_iff q p, transport_beq_iff u t)

has-with_port :
    (p : ℕ) (t : Transport) (o : Option ℕ) (u : Transport) (ports : List DerivedPort)
    → has p t (with_port o u ports)
      ≡ (has p t ports || (is_some_and o (λ q. q == p) && transport_beq u t))
has-with_port p t none u ports = ground arith
has-with_port p t (some q) u ports = elim (Bool-cases (has q u ports)) [
  | inr h ↦ rw h (has-append p t ports _)
  | inl h ↦ rw h (elim (Bool-cases (q == p && transport_beq u t)) [
    | inr e ↦ rw e (ground arith)
    | inl e ↦
        let (a, b) = same p q t u e in
        let there : has p t ports ≡ true = ap₂ (λ x y. has x y ports) (sym a) (sym b) ∙ h in
        rw (e, there)
  ])
]

or_assoc : (a b c : Bool) → ((a || b) || c) ≡ (a || (b || c))
or_assoc a b c = ground arith

IsOnce-append :
    (xs : List DerivedPort) (y : DerivedPort)
    → IsOnce xs
    → has y.port y.transport xs ≡ false
    → IsOnce (xs ++ y ∷ [])
IsOnce-append [] y o h = (refl, tt)
IsOnce-append (x ∷ xs) y o h =
    let apart : (y.port == x.port && transport_beq y.transport x.transport) ≡ false = ground (
      arith,
      ==_iff x.port y.port,
      ==_iff y.port x.port,
      transport_beq_iff x.transport y.transport,
      transport_beq_iff y.transport x.transport,
    ) in
    let rest : has y.port y.transport xs ≡ false = ground arith in
    (has-append x.port x.transport xs y ∙ rw (o.0, apart), IsOnce-append xs y o.1 rest)

with_port-IsOnce :
    (o : Option ℕ) (u : Transport) (ports : List DerivedPort)
    → IsOnce ports
    → IsOnce (with_port o u ports)
with_port-IsOnce none u ports d = d
with_port-IsOnce (some q) u ports d = elim (Bool-cases (has q u ports)) [
  | inl h ↦ rw h d
  | inr h ↦ rw h (IsOnce-append ports _ d h)
]

derive_from_lem :
    (ports : List DerivedPort) (ls : List Listener) (p : ℕ) (t : Transport)
    → IsOnce ports
    → (has p t (derive_from ports ls) ≡ (has p t ports || any (publishes p t) ls))
      × IsOnce (derive_from ports ls)
derive_from_lem ports [] p t d = (ground arith, d)
derive_from_lem ports (l ∷ ls) p t d =
    let next = with_port (u16_of l.port) (listener_transport l.protocol) ports in
    let (e, o) =
      derive_from_lem next ls p t
        (with_port-IsOnce (u16_of l.port) (listener_transport l.protocol) ports d) in
    (
      e
          ∙ ap (λ b. b || any (publishes p t) ls)
              (has-with_port p t (u16_of l.port) (listener_transport l.protocol) ports)
          ∙ or_assoc (has p t ports) (publishes p t l) (any (publishes p t) ls),
      o,
    )

-- A port is listed for a transport exactly when some listener publishes it there, and no port is listed twice for one.
pub derive_ports-IsOnce :
    (ls : List Listener) (p : ℕ) (t : Transport)
    → (has p t (derive_ports ls) ≡ any (publishes p t) ls) × IsOnce (derive_ports ls)
unfolding derive_ports
derive_ports-IsOnce ls p t = derive_from_lem [] ls p t tt
