-- ===== src/Prelude/Eq.antt =====
-- Equality tests as an interface, with its instances: numbers, texts, pairs, and any type whose
-- equality is decidable.
use Prim.Native.Nat.{ℕ}
use Prim.Native.String.{String}
use mathlib.Core.Path.{◌≡◌, refl, ap}
use mathlib.Core.Logic.{◌↔◌}
use mathlib.Core.Bool.{Bool, true, false, ◌&&◌}
use mathlib.Core.Option.{Option, none, some}
use native.Mathlib.Omega.{arith}
use text.Mathlib.Text.{◌==◌ as str_eq}
use text.Mathlib.TextEquality.{eq_iff}
use tandem_interface_ai.Prelude.Tests.{nat_beq}

-- A test, and that it decides equality.
pub record Eq {ℓ} (K : Type ℓ) : Type ℓ where
  pub beq : K → K → Bool
  pub beq_iff : (x y : K) → (beq x y ≡ true) ↔ (x ≡ y)

pub nat_beq_iff : (a b : ℕ) → (nat_beq a b ≡ true) ↔ (a ≡ b)
nat_beq_iff a b = (λ h. ground arith, λ h. ground arith)

instance abbrev pub string_eq : Eq String
string_eq = record { beq_iff = eq_iff; beq = str_eq }

infix 50 ◌==◌
abbrev pub ◌==◌ {ℓ} : {K : Type ℓ} ⦃test : Eq K⦄ → K → K → Bool
◌==◌ ⦃test⦄ = test.beq

instance abbrev pub nat_eq : Eq ℕ
nat_eq = record { beq = nat_beq; beq_iff = nat_beq_iff }

-- For an enumeration whose constructors are numbered, with the way back from a number.
pub by_index {ℓ} :
    {A : Type ℓ} (index : A → ℕ) (of : ℕ → Option A)
    → ((a : A) → of (index a) ≡ some a)
    → (a b : A) → (nat_beq (index a) (index b) ≡ true) ↔ (a ≡ b)
by_index index of back a b = (
  λ h. cc (back a, back b, (nat_beq_iff (index a) (index b)).0 h),
  λ h. (nat_beq_iff (index a) (index b)).1 (ap index h),
)

module _ {ℓ} {A B : Type ℓ} ⦃e : Eq A⦄ ⦃f : Eq B⦄ where
  abbrev pair_beq : A × B → A × B → Bool
  pair_beq (a, b) (c, d) = a == c && b == d

  pub pair_beq_iff : (p q : A × B) → (pair_beq p q ≡ true) ↔ (p ≡ q)
  pair_beq_iff (a, b) (c, d) = (
    λ h. ground (arith, e.beq_iff a c, f.beq_iff b d),
    λ h. ground (arith, e.beq_iff a c, f.beq_iff b d),
  )

  instance abbrev pub pair_eq : Eq (A × B)
  pair_eq = record { beq = pair_beq; beq_iff = pair_beq_iff }

module _ {ℓ} {A : Type ℓ} ⦃e : Eq A⦄ where
  abbrev option_beq : Option A → Option A → Bool
  option_beq none none = true
  option_beq (some a) (some b) = a == b
  option_beq _ _ = false

  pub option_beq_iff : (p q : Option A) → (option_beq p q ≡ true) ↔ (p ≡ q)
  option_beq_iff none none = (λ h. refl, λ h. refl)
  option_beq_iff none (some b) = (λ h. cc, λ h. cc)
  option_beq_iff (some a) none = (λ h. cc, λ h. cc)
  option_beq_iff (some a) (some b) =
      (λ h. ap some ((e.beq_iff a b).0 h), λ h. (e.beq_iff a b).1 (cc))

  instance abbrev pub option_eq : Eq (Option A)
  option_eq = record { beq = option_beq; beq_iff = option_beq_iff }

  pub ==_refl : (a : A) → (a == a) ≡ true
  ==_refl a = (e.beq_iff a a).1 refl

  pub ==_sym : (a b : A) → (a == b) ≡ (b == a)
  ==_sym a b = ground (arith, e.beq_iff a b, e.beq_iff b a)
