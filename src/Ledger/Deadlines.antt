-- ===== src/Ledger/Deadlines.antt =====
-- Deadlines (create_deadline, resolve_deadline, get_deadlines_for_case and mark_overdue_deadlines
-- of tandem/ledger/repository.py; evaluate_deadlines of tandem/workflow/deadlines.py). A deadline
-- is found by its case and its type.
use tandem_interface_ai.Prelude.{
  ℕ, String, Bool, true, false, ◌&&◌, Option, none, some, List, [], ◌∷◌, ◌++◌, map, keep_if,
  is_some, leb, if◌then◌else◌,
}
use tandem_interface_ai.Prelude.Eq.{◌==◌, string_eq, pair_eq}
use tandem_interface_ai.Prelude.Table.{select_one, update_where}
use tandem_interface_ai.Domain.Values.{text, instant, end, entry}
use tandem_interface_ai.Ledger.Models.{DeadlineRecord, DeadlineStatus, pending, met, overdue}
use tandem_interface_ai.Ledger.Session.{
  Db, M, ◌>>=◌, ◌>>◌, pure, gets, modify_db, now_utc, or_now, constrain,
}
use tandem_interface_ai.Ledger.Events.{record_event}
use tandem_interface_ai.Ledger.Cases.{find_case}

abbrev pub deadline_key : DeadlineRecord → String × String
deadline_key d = (d.case_id, d.deadline_type)

abbrev pub is_pending : DeadlineRecord → Bool
is_pending d = elim d.status [ pending ↦ true | _ ↦ false ]

abbrev pub is_met : DeadlineRecord → Bool
is_met d = elim d.status [ met ↦ true | _ ↦ false ]

abbrev pub find_deadline : String → String → Db → Option DeadlineRecord
find_deadline case_id deadline_type d = select_one deadline_key (case_id, deadline_type) d.deadlines

create_missing : Option DeadlineRecord → String → String → ℕ → M DeadlineRecord
create_missing (some existing) case_id deadline_type due_at = pure existing
create_missing none case_id deadline_type due_at = do
  let deadline : DeadlineRecord = record {
    case_id = case_id;
    deadline_type = deadline_type;
    due_at = due_at;
    status = pending;
    resolved_at = none;
  }
  known ← gets (λ w. is_some (find_case case_id w.db))
  constrain known
  modify_db (λ d. record d { deadlines = d.deadlines ++ deadline ∷ [] })
  record_event case_id "DEADLINE_CREATED" "orchestrator" "AUTOMATION" (
      some (
        entry "deadline_type" (text deadline_type)
          (entry "due_at" (instant due_at) (entry "status" (text "PENDING") end))))
  pure deadline

unfoldable pub create_deadline : String → String → ℕ → M DeadlineRecord
unfolding create_missing
create_deadline case_id deadline_type due_at = do
  existing ← gets (λ w. find_deadline case_id deadline_type w.db)
  create_missing existing case_id deadline_type due_at

-- What the resolution of a deadline writes, whether it was pending or overdue.
abbrev pub resolved : ℕ → DeadlineRecord → DeadlineRecord
resolved at d = record d { status = met; resolved_at = some at }

resolve_found : Option DeadlineRecord → String → String → M (Option DeadlineRecord)
resolve_found none case_id deadline_type = pure none
resolve_found (some d) case_id deadline_type = if is_met d then pure none else (do
  at ← now_utc
  modify_db (λ x. record x {
    deadlines =
        update_where deadline_key (case_id, deadline_type) (λ _. true) (resolved at) x.deadlines;
  })
  record_event case_id "DEADLINE_RESOLVED" "orchestrator" "AUTOMATION" (
      some (
        entry "deadline_type" (text deadline_type)
          (entry "status" (text "MET") (entry "resolved_at" (instant at) end))))
  pure (some (resolved at d)))

unfoldable pub resolve_deadline : String → String → M (Option DeadlineRecord)
unfolding resolve_found
resolve_deadline case_id deadline_type = do
  found ← gets (λ w. find_deadline case_id deadline_type w.db)
  resolve_found found case_id deadline_type

unfoldable pub get_deadlines_for_case : String → Db → List DeadlineRecord
get_deadlines_for_case case_id d = keep_if (λ x. x.case_id == case_id) d.deadlines

-- `evaluate_deadlines`, for one due date: OVERDUE from the due instant on.
abbrev pub evaluate_deadline : ℕ → ℕ → DeadlineStatus
evaluate_deadline due_at reference = if leb due_at reference then overdue else pending

-- A pending deadline of the case that has lapsed at the reference.
abbrev pub has_lapsed : String → ℕ → DeadlineRecord → Bool
has_lapsed case_id reference d =
    d.case_id == case_id
    && is_pending d
    && (elim (evaluate_deadline d.due_at reference) [ overdue ↦ true | _ ↦ false ])

abbrev pub mark_overdue : DeadlineRecord → DeadlineRecord
mark_overdue d = record d { status = overdue }

-- One event for each lapsed deadline.
record_overdue : String → List DeadlineRecord → M (Unit {0})
record_overdue case_id [] = pure tt
record_overdue case_id (d ∷ rest) = do
  record_event case_id "DEADLINE_OVERDUE" "orchestrator" "AUTOMATION"
      (some (entry "deadline_type" (text d.deadline_type) (entry "due_at" (instant d.due_at) end)))
  record_overdue case_id rest

unfoldable pub mark_overdue_deadlines : String → Option ℕ → M (List DeadlineRecord)
unfolding record_overdue
mark_overdue_deadlines case_id now = do
  reference ← or_now now
  lapsed ← gets (λ w. keep_if (has_lapsed case_id reference) w.db.deadlines)
  modify_db (λ d. record d {
    deadlines = map (λ x. if has_lapsed case_id reference x then mark_overdue x else x) d.deadlines;
  })
  record_overdue case_id lapsed
  pure (map mark_overdue lapsed)
