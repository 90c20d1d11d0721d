-- ===== src/Replay/Inquiry.antt =====
-- Asking a target system whether an effect is there: execute_precheck
-- (tandem/replay/precheck.py), execute_postcheck (tandem/replay/postcheck.py) and
-- reconcile_commit_execution (tandem/replay/reconciliation.py), with the route to the target
-- (tandem/surfaces/routing.py). The target's answers are a parameter: the response to the n-th
-- request of a URL. Of an outcome, the message and the details, which are for people, are left out.
pub use tandem_interface_ai.Domain.Fields.{Dynamic, Fields, shown_or_empty, if_true}
unfoldable pub use tandem_interface_ai.Domain.Fields.{get, text_of}
pub use tandem_interface_ai.Domain.Capability.{CapabilityDefinition}
use tandem_interface_ai.Prelude.{
  ℕ, String, Bool, true, false, not, ◌&&◌, Option, none, some, List, [], ◌∷◌, is_some,
  if◌then◌else◌,
}
use tandem_interface_ai.Prelude.Eq.{◌==◌, nat_eq, string_eq, option_eq}
use tandem_interface_ai.Prelude.Int.{ℤ, int_eq}
use tandem_interface_ai.Domain.Money.{parse_money}
use tandem_interface_ai.Domain.Effects.{class_eq}
use tandem_interface_ai.Domain.Outcomes.{
  ExecutionOutcome, OutcomeCategory, OutcomeCode, success, business_outcome, hard_failure,
  completed, not_applied, confirmed_not_applied, already_applied, precheck_unavailable,
  precheck_ambiguous, precheck_invalid_response, postcheck_unavailable, postcheck_ambiguous,
  postcheck_invalid_response, category_eq, code_eq, outcome,
}

-- The request: an exception, or a status code with a body.
pub data Body : Type 0 where
  malformed : Body
  not_object : Body
  fields : Fields → Body

pub data Response : Type 0 where
  unreachable : Response
  answered : ℕ → Body → Response

-- The configured service, and the path's last part.
pub data Url : Type 0 where
  alpha_credits beta_credits chargebacks notices : String → Url

-- The fields that identify an effect, with the value that each must have.
unfoldable pub expected : CapabilityDefinition → Fields → List (String × String)
expected c inputs =
    ("institution_id", text_of "institution_id" inputs)
    ∷ ("procedure_id", "reg_e_dispute")
    ∷ ("capability_id", c.id)
    ∷ ("case_id", text_of "case_id" inputs)
    ∷ ("member_id", text_of "member_id" inputs)
    ∷ ("account_id", text_of "account_id" inputs)
    ∷ ("currency", text_of "currency" inputs)
    ∷ ("business_reference", text_of "case_id" inputs)
    ∷ []

unfoldable pub all_match : List (String × String) → Fields → Bool
all_match [] d = true
all_match ((name, value) ∷ rest) d =
    not (value == "") && text_of name d == value && all_match rest d

abbrev pub amount_in : Option Dynamic → Option ℤ
amount_in none = none
amount_in (some v) = parse_money v.money

-- Two amounts that both parse, and are equal.
abbrev pub same_amount : Option ℤ → Option ℤ → Bool
same_amount (some a) (some b) = a == b
same_amount _ _ = false

unfoldable pub amount_matches : Fields → Fields → Bool
amount_matches inputs d =
    if is_some (get "amount" inputs)
    then same_amount (amount_in (get "amount" d)) (amount_in (get "amount" inputs))
    else true

-- `not _identity_mismatch(...)`
unfoldable pub identity_matches : CapabilityDefinition → Fields → Fields → Bool
identity_matches c inputs d = all_match (expected c inputs) d && amount_matches inputs d

abbrev pub result : OutcomeCode → ExecutionOutcome
result code = outcome success code ""

abbrev pub failure : OutcomeCode → ExecutionOutcome
failure code = outcome hard_failure code ""

abbrev pub uncertain : OutcomeCode → ExecutionOutcome
uncertain code = outcome OutcomeCategory.uncertain_effect code ""

-- The target's reference of an effect that is there.
abbrev pub reference : Option Dynamic → Option Dynamic → Option Dynamic
reference (some v) w = some v
reference none w = w

unfoldable pub audit_ref_of : Fields → Option Dynamic
audit_ref_of d =
    reference (if_true (get "memo_code" d))
      (reference (if_true (get "network_ref" d)) (if_true (get "notice_id" d)))

-- The end of a check: the reference and the status must be there.
abbrev pub found :
    ExecutionOutcome → ExecutionOutcome → Option Dynamic → Option Dynamic → ExecutionOutcome
found good bad (some v) (some status) = record good { audit_ref = some v.shown }
found good bad _ _ = bad

unfoldable pub precheck_fields : CapabilityDefinition → Fields → Fields → ExecutionOutcome
precheck_fields c inputs d =
    if identity_matches c inputs d
    then found (outcome business_outcome already_applied "") (failure precheck_invalid_response)
        (audit_ref_of d) (if_true (get "status" d))
    else failure precheck_ambiguous

unfoldable pub precheck_response : CapabilityDefinition → Fields → Response → ExecutionOutcome
precheck_response c inputs unreachable = failure precheck_unavailable
precheck_response c inputs (answered status body) =
    if status == 404
    then result not_applied
    else if not (status == 200)
    then failure precheck_unavailable
    else (elim body [
      | malformed ↦ failure precheck_invalid_response
      | not_object ↦ failure precheck_invalid_response
      | fields d ↦ precheck_fields c inputs d
    ])

unfoldable pub postcheck_fields :
    Bool → String → CapabilityDefinition → Fields → Fields → ExecutionOutcome
postcheck_fields moves_money reference_field c inputs d =
    if identity_matches c inputs d
    then found (record (outcome success completed "") { money_moved = moves_money })
        (uncertain postcheck_invalid_response) (if_true (get reference_field d))
        (if_true (get "status" d))
    else uncertain postcheck_ambiguous

unfoldable pub postcheck_response :
    Bool → String → CapabilityDefinition → Fields → Response → ExecutionOutcome
postcheck_response moves_money reference_field c inputs unreachable =
    uncertain postcheck_unavailable
postcheck_response moves_money reference_field c inputs (answered status body) =
    if status == 404
    then outcome business_outcome confirmed_not_applied ""
    else if not (status == 200)
    then uncertain postcheck_unavailable
    else (elim body [
      | malformed ↦ uncertain postcheck_invalid_response
      | not_object ↦ uncertain postcheck_invalid_response
      | fields d ↦ postcheck_fields moves_money reference_field c inputs d
    ])
