-- ===== src/Ledger/Tests/Service.antt =====
-- The reconstruction of a case after a policy violation, which is a hard failure.
use tandem_interface_ai.Prelude.{◌≡◌, refl, false, ◌||◌, none, some, [], ◌∷◌, any_of, map}
use tandem_interface_ai.Prelude.Eq.{◌==◌}
use tandem_interface_ai.Domain.Outcomes.{OutcomeCode, policy_violation, code_eq, code_value}
use tandem_interface_ai.Ledger.Models.{CapabilityExecutionRecord}
use tandem_interface_ai.Ledger.Service.{fold_executions, initial}
use tandem_interface_ai.Ledger.Service.Human.{status_of, hard_failures_do_not_count}
use tandem_interface_ai.Ledger.Tests.{case_one}

abbrev violation : CapabilityExecutionRecord
violation = record {
  id = 1;
  case_id = "DSP-1";
  capability_id = "core.post_provisional_credit";
  capability_version = "1.0.0";
  effect_class = "COMMIT";
  idempotency_key = none;
  status = "POLICY_VIOLATION";
  expected_entity = none;
  observed_entity = none;
  expected_amount = none;
  observed_amount = none;
  failure_category = some "HARD_FAILURE";
  audit_ref = none;
  money_moved = false;
  actor = "AUTOMATION";
  browser_session_id = none;
  started_at = 0;
  completed_at = some 1;
}

violation_code : map status_of (violation ∷ []) ≡ map code_value (policy_violation ∷ [])
unfolding code_value
violation_code = refl

hard_failures_do_not_count_example :
    (fold_executions (violation ∷ []) (initial case_one)).requires_human
    ≡ (initial case_one).requires_human
      || any_of (λ c. c == OutcomeCode.uncertain_effect) (policy_violation ∷ [])
hard_failures_do_not_count_example =
    hard_failures_do_not_count (policy_violation ∷ []) (violation ∷ []) (initial case_one)
      violation_code
