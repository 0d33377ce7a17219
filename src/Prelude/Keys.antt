-- ===== src/Prelude/Keys.antt =====
-- Types whose values are compared by a Boolean test.
use Prim.Native.Nat.{ℕ}
use mathlib.Core.Path.{◌≡◌}
use mathlib.Core.Logic.{◌↔◌}
use mathlib.Core.Bool.{Bool, true, false, ◌&&◌}
use mathlib.Core.Option.{Option, none, some}
use native.Mathlib.Omega.{arith}
use portail.Prelude.Compare.{==_iff, ◌==◌}
use portail.Prelude.Strings.{Bytes, bytes_eq, bytes_eq_iff}

pub record Eq {ℓ} (A : Type ℓ) : Type ℓ where
  pub beq : A → A → Bool
  pub beq_iff : (a b : A) → (beq a b ≡ true) ↔ (a ≡ b)

instance abbrev pub nat_eq : Eq ℕ
nat_eq = record { beq = ◌==◌; beq_iff = ==_iff }

instance abbrev pub bytes_key : Eq Bytes
bytes_key = record { beq = bytes_eq; beq_iff = bytes_eq_iff }

abbrev pub option_beq {ℓ} : {A : Type ℓ} → (A → A → Bool) → Option A → Option A → Bool
option_beq p none none = true
option_beq p none (some b) = false
option_beq p (some a) none = false
option_beq p (some a) (some b) = p a b

pub option_beq_iff {ℓ} :
    {A : Type ℓ} ⦃e : Eq A⦄ (a b : Option A) → (option_beq e.beq a b ≡ true) ↔ (a ≡ b)
option_beq_iff none none = ground arith
option_beq_iff none (some b) = ground arith
option_beq_iff (some a) none = ground arith
option_beq_iff ⦃e⦄ (some a) (some b) = ground (arith, e.beq_iff a b)

abbrev pair_beq {ℓ κ} :
    {A : Type ℓ} {B : Type κ} → (A → A → Bool) → (B → B → Bool) → A × B → A × B → Bool
pair_beq p q a b = p a.0 b.0 && q a.1 b.1

pub pair_beq_iff {ℓ κ} :
    {A : Type ℓ} {B : Type κ} ⦃e : Eq A⦄ ⦃f : Eq B⦄ (a b : A × B)
    → (pair_beq e.beq f.beq a b ≡ true) ↔ (a ≡ b)
pair_beq_iff ⦃e⦄ ⦃f⦄ a b = ground (arith, e.beq_iff a.0 b.0, f.beq_iff a.1 b.1)

instance abbrev pub pair_eq {ℓ κ} : {A : Type ℓ} {B : Type κ} ⦃e : Eq A⦄ ⦃f : Eq B⦄ → Eq (A × B)
pair_eq ⦃e⦄ ⦃f⦄ = record { beq = pair_beq e.beq f.beq; beq_iff = pair_beq_iff }
