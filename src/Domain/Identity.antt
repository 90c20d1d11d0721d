-- ===== src/Domain/Identity.antt =====
-- The immutable identity of an external effect (tandem/domain/identity.py).
use Prim.Native.String.{◌++◌}
use tandem_interface_ai.Prelude.{
  String, Bool, not, ◌&&◌, ◌||◌, Option, none, some, [], ◌∷◌, is_some, if◌then◌else◌,
}
use tandem_interface_ai.Prelude.Eq.{◌==◌, nat_eq, string_eq}
use tandem_interface_ai.Prelude.Substring.{contains, replace, char_count}
use tandem_interface_ai.Prelude.Int.{ℤ}
use tandem_interface_ai.Domain.Errors.{Result, ok, raised, value_error, invalid_operation}
use tandem_interface_ai.Domain.Money.{Decimal, decimal, parse_money}
use tandem_interface_ai.Domain.Fields.{Fields}
use tandem_interface_ai.Domain.Effects.{EffectIdentitySpec}
use tandem_interface_ai.Domain.Capability.{CapabilityDefinition}
use tandem_interface_ai.Domain.Values.{text, amount, Dict, end, entry}

pub record EffectIdentity : Type 0 where
  pub institution_id : String
  pub procedure_id : String
  pub case_id : String
  pub capability_id : String
  pub member_id : String
  pub account_id : String
  pub amount : ℤ
  pub currency : String
  pub business_reference : String

unfoldable pub canonical_payload : EffectIdentity → Dict
canonical_payload i = entry "account_id" (text i.account_id) (
    entry "amount" (amount i.amount) (
      entry "business_reference" (text i.business_reference) (
        entry "capability_id" (text i.capability_id) (
          entry "case_id" (text i.case_id) (
            entry "currency" (text i.currency) (
              entry "institution_id" (text i.institution_id) (
                entry "member_id" (text i.member_id)
                  (entry "procedure_id" (text i.procedure_id) end))))))))

-- The digest of the canonical JSON text, which both are parameters.
unfoldable pub idempotency_key : (Dict → String) → (String → String) → EffectIdentity → String
idempotency_key dumps sha256 i = sha256 (dumps (canonical_payload i))

infixl 5 ◌>>=◌
abbrev ◌>>=◌ : {A B : Type 0} → Option A → (A → Option B) → Option B
none >>= f = none
some a >>= f = f a

-- What the identity takes from Python's texts and numbers: `strip`, `upper`, `isalpha`, and what
-- `Decimal` reads from a text.
pub record Texts : Type 0 where
  pub strip : String → String
  pub upper : String → String
  pub is_alpha : String → Bool
  pub read_decimal : String → Option Decimal

-- The text `{{input.name}}`.
abbrev pub placeholder : String → String
placeholder name = "{{input." ++ (name ++ "}}")

-- The loop of `_render`.
unfoldable pub fill_in : String → Fields → String
unfolding replace
fill_in rendered [] = rendered
fill_in rendered ((name, v) ∷ rest) = fill_in (replace (placeholder name) v.shown rendered) rest

module _ (texts : Texts) where
  unfoldable pub render : String → Fields → Option String
  unfolding fill_in contains
  render template inputs =
      let rendered = fill_in template inputs in
      if contains rendered "{{" || contains rendered "}}" then none else some (texts.strip rendered)

  -- `require_identity_value`
  unfoldable pub require_identity_value : Option String → Option String
  require_identity_value none = none
  require_identity_value (some value) =
      if texts.strip value == "" then none else some (texts.strip value)

  -- The length of the field, and `normalize_currency`.
  unfoldable pub normalize_currency : Option String → Option String
  unfolding char_count
  normalize_currency none = none
  normalize_currency (some value) =
      let normalized = texts.upper (texts.strip value) in
      if not (char_count value == 3)
      then none
      else if not (normalized == texts.strip value) || not (texts.is_alpha normalized)
      then none
      else some normalized

  -- The construction of the model from rendered texts and the amount; `none` stands for the
  -- `ValueError` of a field that does not render or does not validate.
  unfoldable pub identity_fields : EffectIdentitySpec → Fields → Decimal → Option EffectIdentity
  identity_fields spec inputs number = do
    institution_id ← require_identity_value (render spec.institution_id inputs)
    procedure_id ← require_identity_value (render spec.procedure_id inputs)
    case_id ← require_identity_value (render spec.case_id inputs)
    capability_id ← require_identity_value (render spec.capability_id inputs)
    member_id ← require_identity_value (render spec.member_id inputs)
    account_id ← require_identity_value (render spec.account_id inputs)
    cents ← parse_money (decimal number)
    currency ← normalize_currency (render spec.currency inputs)
    business_reference ← require_identity_value (render spec.business_reference inputs)
    some (record {
      institution_id = institution_id;
      procedure_id = procedure_id;
      case_id = case_id;
      capability_id = capability_id;
      member_id = member_id;
      account_id = account_id;
      amount = cents;
      currency = currency;
      business_reference = business_reference;
    })

  abbrev pub or_value_error : Option EffectIdentity → Result EffectIdentity
  or_value_error none = raised value_error
  or_value_error (some i) = ok i

  -- The six texts that are rendered before the amount.
  unfoldable pub renders_before_amount : EffectIdentitySpec → Fields → Bool
  renders_before_amount spec inputs =
      is_some (render spec.institution_id inputs)
      && is_some (render spec.procedure_id inputs)
      && is_some (render spec.case_id inputs)
      && is_some (render spec.capability_id inputs)
      && is_some (render spec.member_id inputs)
      && is_some (render spec.account_id inputs)

  -- `Decimal(...)` of the rendered amount, then the model.
  unfoldable pub identity_of_amount :
      EffectIdentitySpec → Fields → Option String → Result EffectIdentity
  identity_of_amount spec inputs none = raised value_error
  identity_of_amount spec inputs (some written) = elim (texts.read_decimal written) [
    | none ↦ raised invalid_operation
    | some number ↦ or_value_error (identity_fields spec inputs number)
  ]

  unfoldable pub from_spec : Option EffectIdentitySpec → Fields → Result EffectIdentity
  from_spec none inputs = raised value_error
  from_spec (some spec) inputs =
      if renders_before_amount spec inputs
      then identity_of_amount spec inputs (render spec.amount inputs)
      else raised value_error

  unfoldable pub from_capability : CapabilityDefinition → Fields → Result EffectIdentity
  unfolding from_spec
  from_capability c inputs = from_spec c.effect.identity inputs
