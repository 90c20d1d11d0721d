-- ===== src/Replay/Checks.antt =====
-- The whole precheck, postcheck and reconciliation of a COMMIT: the route to the target, the
-- request, and the loop of inquiries (tandem/replay/precheck.py, postcheck.py, reconciliation.py;
-- tandem/surfaces/routing.py). Waiting between two inquiries is left out.
pub mod Asks
pub mod Answers
pub mod Landed
pub mod Evidence
pub mod Reconciled
use tandem_interface_ai.Prelude.{
  ℕ, zero, suc, ◌+◌, ◌-◌, String, Bool, true, false, not, ◌||◌, Option, none, some, is_some,
  nat_beq, ltb, if◌then◌else◌,
}
use tandem_interface_ai.Prelude.Substring.{contains}
use tandem_interface_ai.Prelude.Eq.{◌==◌, nat_eq, string_eq}
use tandem_interface_ai.Prelude.Int.{ℤ, pos, negsuc}
use tandem_interface_ai.Domain.Errors.{value_error}
use tandem_interface_ai.Domain.Effects.{ReconciliationSpec, commit, class_eq}
use tandem_interface_ai.Domain.Outcomes.{
  ExecutionOutcome, OutcomeCategory, OutcomeCode, success, not_applied, confirmed_applied,
  confirmed_not_applied, precheck_invalid_response, postcheck_unavailable,
  postcheck_invalid_response, submit_confirmed, after_submit_unknown, category_eq, code_eq,
  is_success, outcome,
}
use tandem_interface_ai.Ledger.Session.{Result, ok, raised}
use tandem_interface_ai.Replay.Inquiry.{
  Dynamic, Fields, get, if_true, Response, Url, alpha_credits, beta_credits, chargebacks, notices,
  CapabilityDefinition, result, failure, uncertain, precheck_response, postcheck_response,
}

-- Where a check asks, whether the effect moves money, and the field of its reference.
pub data Route : Type 0 where
  at : Url → Bool → String → Route
  unsupported : Route
  unregistered : Route

-- `str(institution_id or "alpha")`
abbrev pub institution_text : Option Dynamic → String
institution_text none = "alpha"
institution_text (some v) = v.shown

-- `max(1, spec.max_inquiry_attempts) if spec else 1`
unfoldable pub max_attempts : Option ReconciliationSpec → ℕ
max_attempts none = 1
max_attempts (some spec) = elim spec.max_inquiry_attempts [
  | pos zero ↦ 1
  | pos (suc m) ↦ suc m
  | negsuc _ ↦ 1
]

-- What the last inquiry proves.
unfoldable pub conclude : ExecutionOutcome → ExecutionOutcome
unfolding is_success
conclude o =
    if is_success o
    then record (outcome success confirmed_applied "") {
      money_moved = o.money_moved;
      audit_ref = o.audit_ref;
      execution_phase = submit_confirmed;
    }
    else if o.code == confirmed_not_applied
    then record o { execution_phase = after_submit_unknown }
    else record (outcome OutcomeCategory.uncertain_effect OutcomeCode.uncertain_effect "") {
      execution_phase = after_submit_unknown;
    }

abbrev concluded : Result ExecutionOutcome → Result ExecutionOutcome
concluded (ok o) = ok (conclude o)
concluded (raised e) = raised e

module _ (lower : String → String) where
  unfoldable pub normalize_institution_id : Option Dynamic → String
  normalize_institution_id v =
      let value = lower (institution_text (if_true v)) in
      if value == "core_bank_alpha"
      then "alpha"
      else if value == "core_bank_beta"
      then "beta"
      else value

  unfoldable pub core_bank_url_for : Option Dynamic → String → Route
  unfolding normalize_institution_id
  core_bank_url_for v case_id =
      let normalized = normalize_institution_id v in
      if normalized == "alpha"
      then at (alpha_credits case_id) true "memo_code"
      else if normalized == "beta"
      then at (beta_credits case_id) true "memo_code"
      else unsupported

  unfoldable pub route_of : CapabilityDefinition → Fields → String → Route
  unfolding core_bank_url_for
  route_of c inputs case_id =
      if c.system == "core_bank" || contains c.id "provisional_credit"
      then core_bank_url_for (get "institution_id" inputs) case_id
      else if c.system == "processor" || contains c.id "chargeback"
      then at (chargebacks case_id) false "network_ref"
      else if c.system == "documents" || contains c.id "notice"
      then at (notices case_id) false "notice_id"
      else unregistered

  module _ (fetch : Url → ℕ → Response) (c : CapabilityDefinition) (inputs : Fields) where
    precheck_at : ℕ → Route → Result ExecutionOutcome
    precheck_at n (at url moves_money reference_field) =
        ok (precheck_response c inputs (fetch url n))
    precheck_at n unsupported = raised value_error
    precheck_at n unregistered = ok (failure precheck_invalid_response)

    precheck_case : ℕ → Option Dynamic → Result ExecutionOutcome
    unfolding precheck_at
    precheck_case n none = ok (failure precheck_invalid_response)
    precheck_case n (some case_id) = precheck_at n (route_of c inputs case_id.shown)

    -- The precheck, when the next request is the n-th.
    unfoldable pub execute_precheck : ℕ → Result ExecutionOutcome
    unfolding precheck_case
    execute_precheck n =
        if not (c.effect.effect_class == commit)
        then ok (result not_applied)
        else if not (is_some c.effect.precheck)
        then ok (failure precheck_invalid_response)
        else precheck_case n (if_true (get "case_id" inputs))

    postcheck_at : ℕ → Route → Result ExecutionOutcome
    postcheck_at n (at url moves_money reference_field) =
        ok (postcheck_response moves_money reference_field c inputs (fetch url n))
    postcheck_at n unsupported = raised value_error
    postcheck_at n unregistered = ok (uncertain postcheck_invalid_response)

    postcheck_case : ℕ → Option Dynamic → Result ExecutionOutcome
    unfolding postcheck_at
    postcheck_case n none = ok (uncertain postcheck_invalid_response)
    postcheck_case n (some case_id) = postcheck_at n (route_of c inputs case_id.shown)

    unfoldable pub execute_postcheck : ℕ → Result ExecutionOutcome
    unfolding postcheck_case
    execute_postcheck n = postcheck_case n (if_true (get "case_id" inputs))

    -- The loop: up to `left` more inquiries while the last one could not be made.
    unfoldable pub inquire_again : ℕ → ℕ → Result ExecutionOutcome → Result ExecutionOutcome
    inquire_again n left (raised e) = raised e
    inquire_again n zero (ok o) = ok o
    inquire_again n (suc left) (ok o) =
        let rest = inquire_again (suc n) left (execute_postcheck n) in
        if o.code == postcheck_unavailable then rest else ok o

    unfoldable pub reconcile_commit_execution : ℕ → Result ExecutionOutcome
    unfolding max_attempts
    reconcile_commit_execution n =
        concluded
          (inquire_again (suc n) (max_attempts c.effect.reconciliation - 1) (execute_postcheck n))
