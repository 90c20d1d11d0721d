-- ===== src/Policy/Allowed.antt =====
-- What the policy lets through.
use tandem_interface_ai.Prelude.{
  ◌≡◌, ◌↔◌, refl, inl, inr, arith, true, false, Option, none, some, is_some, Option-cases,
}
use tandem_interface_ai.Prelude.Eq.{◌==◌, string_eq}
use tandem_interface_ai.Prelude.Int.{ℤ, pos, negsuc, ◌≤ℤ◌}
use tandem_interface_ai.Domain.Money.{parse_money}
use tandem_interface_ai.Domain.Effects.{commit, class_eq, class_beq_iff}
use tandem_interface_ai.Domain.Capability.{CapabilityDefinition, ScopedGuardSpec}
use tandem_interface_ai.Domain.Fields.{Dynamic, Fields, get, shown_or}
use tandem_interface_ai.Policy.{max_bound, is_within, amount_allowed, validate_policy, evaluate}

-- A positive number of cents up to the bound.
abbrev pub Within : ℤ → ℤ → Type 0
Within bound amt = (pos 1 ≤ℤ amt) × (amt ≤ℤ bound)

is_within_iff : (bound amt : ℤ) → (is_within bound (some amt) ≡ true) ↔ Within bound amt
unfolding is_within
is_within_iff bound (pos n) = (λ h. ground (arith, h), λ h. ground (arith, h))
is_within_iff bound (negsuc n) = (λ h. ground (arith, h), λ h. ground (arith, h))

is_within-none : (bound : ℤ) → is_within bound none ≡ false
unfolding is_within
is_within-none bound = refl

-- What the inputs of a COMMIT must be.
pub record Allowed (c : CapabilityDefinition) (inputs : Fields) : Type 0 where
  pub amount :
      (v : Dynamic)
      → get "amount" inputs ≡ some v
      → (amt : ℤ) × (parse_money v.money ≡ some amt) × Within (max_bound c.effect.bounds) amt
  pub currency : shown_or "USD" (get "currency" inputs) ≡ "USD"
  pub guard : (g : ScopedGuardSpec) × (c.scoped_guard ≡ some g)

amount_allowed-Within :
    (bound : ℤ) (d v : Option Dynamic)
    → d ≡ v
    → amount_allowed bound d ≡ true
    → (x : Dynamic) → v ≡ some x
    → (amt : ℤ) × (parse_money x.money ≡ some amt) × Within bound amt
unfolding amount_allowed
amount_allowed-Within bound d none e h x q = absurd (ground (arith, q))
amount_allowed-Within bound d (some v) e h x q = elim (Option-cases (parse_money v.money)) [
  | inl p ↦ absurd (ground (arith, e, h, p, is_within-none bound))
  | inr (amt, p) ↦
      (amt, ground (arith, p, q), (is_within_iff bound amt).0 (ground (arith, e, h, p)))
]

Within-amount_allowed :
    (bound : ℤ) (d : Option Dynamic)
    → ((x : Dynamic) → d ≡ some x → (amt : ℤ) × (parse_money x.money ≡ some amt) × Within bound amt)
    → amount_allowed bound d ≡ true
unfolding amount_allowed
Within-amount_allowed bound none h = refl
Within-amount_allowed bound (some v) h =
    let (amt, p, w) = h v refl in ground (arith, p, (is_within_iff bound amt).1 w)

-- The three rules, as they are tested.
evaluate_tests :
    (c : CapabilityDefinition) (inputs : Fields)
    → c.effect.effect_class ≡ commit
    → evaluate c inputs ≡ none
    → (amount_allowed (max_bound c.effect.bounds) (get "amount" inputs) ≡ true)
      × (shown_or "USD" (get "currency" inputs) == "USD" ≡ true)
      × (is_some c.scoped_guard ≡ true)
unfolding evaluate validate_policy
evaluate_tests c inputs k h = ground (arith, h, class_beq_iff c.effect.effect_class commit, k)

the_guard : (g : Option ScopedGuardSpec) → is_some g ≡ true → (x : ScopedGuardSpec) × (g ≡ some x)
the_guard none h = absurd (ground arith)
the_guard (some g) h = (g, refl)

-- The policy lets a COMMIT pass exactly when its amount, where one is given, is a positive number of cents up to the capability's bound (500.00 where it has none), its currency is USD, and it has a scoped guard.
pub evaluate_allows_iff :
    (c : CapabilityDefinition) (inputs : Fields)
    → c.effect.effect_class ≡ commit
    → (evaluate c inputs ≡ none) ↔ Allowed c inputs
unfolding evaluate validate_policy
evaluate_allows_iff c inputs k = (
  λ h.
      let (x, y, z) = evaluate_tests c inputs k h in
      record {
        amount = λ v q.
            amount_allowed-Within (max_bound c.effect.bounds) (get "amount" inputs) _ refl x v q;
        currency = (string_eq.beq_iff _ _).0 y;
        guard = the_guard c.scoped_guard z;
      },
  λ a. ground (
    arith,
    k,
    class_beq_iff c.effect.effect_class commit,
    a.currency,
    a.guard,
    Within-amount_allowed (max_bound c.effect.bounds) (get "amount" inputs) a.amount,
    string_eq.beq_iff (shown_or "USD" (get "currency" inputs)) "USD",
  ),
)
