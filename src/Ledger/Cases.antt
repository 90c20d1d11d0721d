-- ===== src/Ledger/Cases.antt =====
-- Cases (the case operations of tandem/ledger/repository.py).
use tandem_interface_ai.Prelude.{
  ℕ, String, Bool, true, false, not, ◌||◌, Option, none, some, is_some,
}
use tandem_interface_ai.Prelude.Eq.{string_eq}
use tandem_interface_ai.Prelude.Int.{ℤ}
use tandem_interface_ai.Prelude.Table.{select_one, insert_or_ignore, update_where}
use tandem_interface_ai.Domain.Values.{text, boolean, amount, instant, end, entry}
use tandem_interface_ai.Domain.Errors.{runtime_error, value_error}
use tandem_interface_ai.Domain.Money.{MoneyInput, parse_money}
use tandem_interface_ai.Workflow.StateMachine.{RegEState, received, state_value}
use tandem_interface_ai.Ledger.Models.{ProcedureCaseRecord}
use tandem_interface_ai.Ledger.Session.{
  Db, M, ◌>>=◌, ◌>>◌, pure, gets, modify_db, now_utc, or_raise,
}
use tandem_interface_ai.Ledger.Events.{record_event}

abbrev pub case_key : ProcedureCaseRecord → String
case_key c = c.case_id

abbrev pub find_case : String → Db → Option ProcedureCaseRecord
find_case case_id d = select_one case_key case_id d.cases

unfoldable pub get_case : String → M (Option ProcedureCaseRecord)
get_case case_id = gets (λ w. find_case case_id w.db)

-- The event is recorded only by the caller whose insert won.
when_created : Bool → String → String → ℤ → String → String → ℕ → M (Unit {0})
when_created false case_id member_id cents currency procedure_name now = pure tt
when_created true case_id member_id cents currency procedure_name now = do
  record_event case_id "CASE_CREATED" "orchestrator" "AUTOMATION" (
      some (
        entry "member_id" (text member_id) (
          entry "amount" (amount cents) (
            entry "currency" (text currency) (
              entry "procedure_name" (text procedure_name) (
                entry "status" (text "RECEIVED") (
                  entry "money_moved" (boolean false)
                    (entry "opened_at" (instant now) (entry "updated_at" (instant now) end)))))))))
  pure tt

unfoldable pub create_or_get_case :
    String → String → MoneyInput → String → String → M ProcedureCaseRecord
unfolding when_created
create_or_get_case case_id member_id given currency procedure_name = do
  now ← now_utc
  cents ← or_raise (parse_money given) value_error
  before ← gets (λ w. find_case case_id w.db)
  modify_db (λ d. record d {
    cases =
        insert_or_ignore case_key
          (record {
            case_id = case_id;
            member_id = member_id;
            procedure_name = procedure_name;
            amount = cents;
            currency = currency;
            status = received;
            money_moved = false;
            opened_at = now;
            updated_at = now;
          })
          d.cases;
  })
  found ← get_case case_id
  case ← or_raise found runtime_error
  when_created (not (is_some before)) case_id member_id cents currency procedure_name now
  pure case

-- `case.money_moved or money_moved`, unless no value is given.
abbrev pub moved : Option Bool → Bool → Bool
moved none old = old
moved (some new) old = old || new

unfoldable pub update_case_status : String → RegEState → Option Bool → M ProcedureCaseRecord
update_case_status case_id status money_moved = do
  found ← get_case case_id
  case ← or_raise found value_error
  now ← now_utc
  let updated : ProcedureCaseRecord = record case {
    status = status;
    money_moved = moved money_moved case.money_moved;
    updated_at = now;
  }
  modify_db (λ d. record d {
    cases =
        update_where case_key case_id (λ _. true)
          (λ c. record c {
            status = status;
            money_moved = moved money_moved c.money_moved;
            updated_at = now;
          })
          d.cases;
  })
  record_event case_id "CASE_STATUS_UPDATED" "orchestrator" "AUTOMATION" (
      some (
        entry "status" (text (state_value updated.status)) (
          entry "money_moved" (boolean updated.money_moved)
            (entry "updated_at" (instant now) end))))
  pure updated
