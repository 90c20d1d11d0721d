-- ===== src/Ledger/Obligations.antt =====
-- Durable regulatory obligations (create_obligation, get_obligations_for_case,
-- activate_obligation, satisfy_obligation and _get_obligation of tandem/ledger/repository.py). An
-- obligation is found by its case and its type, which are unique together.
pub mod History
use tandem_interface_ai.Prelude.{
  ℕ, String, true, Option, none, some, List, [], ◌∷◌, ◌++◌, keep_if, is_some,
}
use tandem_interface_ai.Prelude.Eq.{◌==◌, string_eq, pair_eq}
use tandem_interface_ai.Prelude.Table.{select_one, update_where}
use tandem_interface_ai.Domain.Values.{text, instant, end, entry}
use tandem_interface_ai.Domain.Errors.{value_error}
use tandem_interface_ai.Ledger.Models.{
  ObligationRecord, ObligationStatus, planned, active, satisfied,
}
use tandem_interface_ai.Ledger.Session.{
  Db, M, ◌>>=◌, ◌>>◌, pure, gets, modify_db, now_utc, or_raise, constrain,
}
use tandem_interface_ai.Ledger.Events.{record_event}
use tandem_interface_ai.Ledger.Cases.{find_case}

abbrev pub obligation_key : ObligationRecord → String × String
obligation_key o = (o.case_id, o.obligation_type)

abbrev pub find_obligation : String → String → Db → Option ObligationRecord
find_obligation case_id obligation_type d =
    select_one obligation_key (case_id, obligation_type) d.obligations

create_missing : Option ObligationRecord → String → String → ℕ → M ObligationRecord
create_missing (some existing) case_id obligation_type due_at = pure existing
create_missing none case_id obligation_type due_at = do
  at ← now_utc
  let obligation : ObligationRecord = record {
    case_id = case_id;
    obligation_type = obligation_type;
    due_at = due_at;
    status = planned;
    created_at = at;
    activated_at = none;
    satisfied_at = none;
  }
  known ← gets (λ w. is_some (find_case case_id w.db))
  constrain known
  modify_db (λ d. record d { obligations = d.obligations ++ obligation ∷ [] })
  record_event case_id "OBLIGATION_CREATED" "orchestrator" "AUTOMATION" (
      some (
        entry "obligation_type" (text obligation_type) (
          entry "due_at" (instant due_at)
            (entry "status" (text "PLANNED") (entry "created_at" (instant at) end)))))
  pure obligation

unfoldable pub create_obligation : String → String → ℕ → M ObligationRecord
unfolding create_missing
create_obligation case_id obligation_type due_at = do
  existing ← gets (λ w. find_obligation case_id obligation_type w.db)
  create_missing existing case_id obligation_type due_at

unfoldable pub get_obligations_for_case : String → Db → List ObligationRecord
get_obligations_for_case case_id d = keep_if (λ o. o.case_id == case_id) d.obligations

abbrev pub activated : ℕ → ObligationRecord → ObligationRecord
activated at o = record o { status = active; activated_at = some at }

abbrev pub fulfilled : ℕ → ObligationRecord → ObligationRecord
fulfilled at o = record o { status = satisfied; satisfied_at = some at }

write_obligation : (ObligationRecord → ObligationRecord) → String → String → M (Unit {0})
write_obligation f case_id obligation_type = modify_db (λ d. record d {
  obligations = update_where obligation_key (case_id, obligation_type) (λ _. true) f d.obligations;
})

activate_found : ObligationRecord → ObligationStatus → String → String → M ObligationRecord
unfolding write_obligation
activate_found o planned case_id obligation_type = do
  at ← now_utc
  write_obligation (activated at) case_id obligation_type
  record_event case_id "OBLIGATION_ACTIVATED" "orchestrator" "AUTOMATION" (
      some (
        entry "obligation_type" (text obligation_type)
          (entry "status" (text "ACTIVE") (entry "activated_at" (instant at) end))))
  pure (activated at o)
activate_found o _ case_id obligation_type = pure o

-- Only a planned obligation is activated.
unfoldable pub activate_obligation : String → String → M ObligationRecord
unfolding activate_found
activate_obligation case_id obligation_type = do
  found ← gets (λ w. find_obligation case_id obligation_type w.db)
  o ← or_raise found value_error
  activate_found o o.status case_id obligation_type

satisfy_found : ObligationRecord → ObligationStatus → String → String → M ObligationRecord
unfolding write_obligation
satisfy_found o satisfied case_id obligation_type = pure o
satisfy_found o _ case_id obligation_type = do
  at ← now_utc
  write_obligation (fulfilled at) case_id obligation_type
  record_event case_id "OBLIGATION_SATISFIED" "orchestrator" "AUTOMATION" (
      some (
        entry "obligation_type" (text obligation_type)
          (entry "status" (text "SATISFIED") (entry "satisfied_at" (instant at) end))))
  pure (fulfilled at o)

unfoldable pub satisfy_obligation : String → String → M ObligationRecord
unfolding satisfy_found
satisfy_obligation case_id obligation_type = do
  found ← gets (λ w. find_obligation case_id obligation_type w.db)
  o ← or_raise found value_error
  satisfy_found o o.status case_id obligation_type
