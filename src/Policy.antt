-- ===== src/Policy.antt =====
-- The policy on automated effects (tandem/policy/rules.py, tandem/policy/engine.py). The inputs'
-- values are read as texts and amounts, so that a currency that cannot be hashed (a TypeError there)
-- is one that is not permitted; the text of a refusal is left out.
pub mod Allowed
pub mod Tests
use tandem_interface_ai.Prelude.{
  ℕ, String, Bool, true, false, not, ◌&&◌, Option, none, some, is_some, if◌then◌else◌,
}
use tandem_interface_ai.Prelude.Eq.{◌==◌, string_eq}
use tandem_interface_ai.Prelude.Int.{ℤ, pos, ltb_ℤ}
use tandem_interface_ai.Domain.Money.{parse_money}
use tandem_interface_ai.Domain.Errors.{Result, ok, raised, policy_violation}
use tandem_interface_ai.Domain.Effects.{BoundsSpec, commit, class_eq}
use tandem_interface_ai.Domain.Capability.{CapabilityDefinition}
use tandem_interface_ai.Domain.Fields.{Dynamic, Fields, get, shown_or}
use tandem_interface_ai.Domain.Outcomes.{ExecutionOutcome, business_outcome, policy_denied, outcome}

-- `MAX_AUTOMATED_CREDIT_AMOUNT`, in cents
abbrev pub max_automated_credit_amount : ℤ
max_automated_credit_amount = pos 50000

abbrev pub max_bound : Option BoundsSpec → ℤ
max_bound none = max_automated_credit_amount
max_bound (some bounds) = bounds.max_amount

-- An amount that is positive and within the bound.
unfoldable pub is_within : ℤ → Option ℤ → Bool
is_within bound none = false
is_within bound (some amt) =
    if ltb_ℤ bound amt then false else if not (ltb_ℤ (pos 0) amt) then false else true

-- The first rule; an amount that is not given is not asked for.
unfoldable pub amount_allowed : ℤ → Option Dynamic → Bool
unfolding is_within
amount_allowed bound none = true
amount_allowed bound (some v) = is_within bound (parse_money v.money)

unfoldable pub validate_policy : CapabilityDefinition → Fields → Result (Unit {0})
unfolding amount_allowed
validate_policy c inputs =
    if c.effect.effect_class == commit
    then (if not (amount_allowed (max_bound c.effect.bounds) (get "amount" inputs))
        then raised policy_violation
        else if not (shown_or "USD" (get "currency" inputs) == "USD")
        then raised policy_violation
        else if not (is_some c.scoped_guard)
        then raised policy_violation
        else ok tt)
    else ok tt

-- `PolicyEngine.evaluate`
unfoldable pub evaluate : CapabilityDefinition → Fields → Option ExecutionOutcome
unfolding validate_policy
evaluate c inputs = elim (validate_policy c inputs) [
  | ok _ ↦ none
  | raised _ ↦ some (outcome business_outcome policy_denied "")
]
