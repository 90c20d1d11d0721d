-- ===== src/Ledger/Executions.antt =====
-- Capability executions (start_execution, complete_execution and get_executions_for_case of
-- tandem/ledger/repository.py).
use tandem_interface_ai.Prelude.{
  ℕ, ◌+◌, String, Bool, true, false, Option, none, some, List, [], ◌∷◌, ◌++◌, length, keep_if,
}
use tandem_interface_ai.Prelude.Eq.{◌==◌, nat_eq, string_eq}
use tandem_interface_ai.Prelude.Int.{ℤ}
use tandem_interface_ai.Prelude.Table.{select_one, update_where}
use tandem_interface_ai.Domain.Values.{
  text, int, boolean, instant, optional_text, optional_amount, end, entry,
}
use tandem_interface_ai.Domain.Errors.{value_error}
use tandem_interface_ai.Domain.Money.{MoneyInput, parse_money}
use tandem_interface_ai.Ledger.Models.{CapabilityExecutionRecord}
use tandem_interface_ai.Ledger.Session.{
  Db, M, ◌>>=◌, ◌>>◌, pure, gets, modify_db, now_utc, or_raise, constrain,
}
use tandem_interface_ai.Ledger.Events.{record_event}
use tandem_interface_ai.Ledger.Cases.{find_case}

abbrev pub execution_key : CapabilityExecutionRecord → ℕ
execution_key e = e.id

-- An amount that may be `None`.
abbrev pub parse_optional : Option MoneyInput → M (Option ℤ)
parse_optional none = pure none
parse_optional (some given) = do cents ← or_raise (parse_money given) value_error; pure (some cents)

abbrev pub is_some_case : String → Db → Bool
is_some_case case_id d = elim (find_case case_id d) [ none ↦ false | some _ ↦ true ]

-- The identifier is the next one of the table, and the case must exist.
unfoldable pub start_execution :
    String
    → String
    → String
    → String
    → Option String
    → Option String
    → Option MoneyInput
    → String
    → Option String
    → M CapabilityExecutionRecord
start_execution case_id capability_id capability_version effect_class idempotency_key
      expected_entity expected_amount actor browser_session_id =
    do
      cents ← parse_optional expected_amount
      now ← now_utc
      known ← gets (λ w. is_some_case case_id w.db)
      constrain known
      next ← gets (λ w. length w.db.executions + 1)
      let execution : CapabilityExecutionRecord = record {
        id = next;
        case_id = case_id;
        capability_id = capability_id;
        capability_version = capability_version;
        effect_class = effect_class;
        idempotency_key = idempotency_key;
        status = "RUNNING";
        expected_entity = expected_entity;
        observed_entity = none;
        expected_amount = cents;
        observed_amount = none;
        failure_category = none;
        audit_ref = none;
        money_moved = false;
        actor = actor;
        browser_session_id = browser_session_id;
        started_at = now;
        completed_at = none;
      }
      modify_db (λ d. record d { executions = d.executions ++ execution ∷ [] })
      record_event case_id "CAPABILITY_EXECUTION_STARTED" capability_id actor (
          some (
            entry "execution_id" (int next) (
              entry "capability_id" (text capability_id) (
                entry "capability_version" (text capability_version) (
                  entry "effect_class" (text effect_class) (
                    entry "idempotency_key" (optional_text idempotency_key) (
                      entry "status" (text "RUNNING") (
                        entry "expected_entity" (optional_text expected_entity) (
                          entry "expected_amount" (optional_amount cents) (
                            entry "actor" (text actor) (
                              entry "browser_session_id" (optional_text browser_session_id)
                                (entry "started_at" (instant now) end))))))))))))
      pure execution

unfoldable pub complete_execution :
    ℕ
    → String
    → Option String
    → Option MoneyInput
    → Option String
    → Option String
    → Bool
    → M CapabilityExecutionRecord
complete_execution execution_id status observed_entity observed_amount failure_category audit_ref
      money_moved =
    do
      found ← gets (λ w. select_one execution_key execution_id w.db.executions)
      execution ← or_raise found value_error
      cents ← parse_optional observed_amount
      now ← now_utc
      modify_db (λ d. record d {
        executions =
            update_where execution_key execution_id (λ _. true)
              (λ e. record e {
                status = status;
                observed_entity = observed_entity;
                observed_amount = cents;
                failure_category = failure_category;
                audit_ref = audit_ref;
                money_moved = money_moved;
                completed_at = some now;
              })
              d.executions;
      })
      record_event execution.case_id "CAPABILITY_EXECUTION_COMPLETED" execution.capability_id
          execution.actor
          (some (
            entry "execution_id" (int execution_id) (
              entry "status" (text status) (
                entry "observed_entity" (optional_text observed_entity) (
                  entry "observed_amount" (optional_amount cents) (
                    entry "failure_category" (optional_text failure_category) (
                      entry "audit_ref" (optional_text audit_ref) (
                        entry "money_moved" (boolean money_moved)
                          (entry "completed_at" (instant now) end)))))))))
      pure (record execution {
        status = status;
        observed_entity = observed_entity;
        observed_amount = cents;
        failure_category = failure_category;
        audit_ref = audit_ref;
        money_moved = money_moved;
        completed_at = some now;
      })

unfoldable pub get_executions_for_case : String → Db → List CapabilityExecutionRecord
get_executions_for_case case_id d = keep_if (λ e. e.case_id == case_id) d.executions
