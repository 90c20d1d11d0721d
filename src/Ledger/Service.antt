-- ===== src/Ledger/Service.antt =====
-- The reconstruction of a case from the ledger (tandem/ledger/service.py).
pub mod Human
use tandem_interface_ai.Prelude.{
  ℕ, String, Bool, true, false, not, ◌||◌, Option, none, some, List, [], ◌∷◌, ◌++◌, length, keep_if,
  is_some, if◌then◌else◌,
}
use tandem_interface_ai.Prelude.Eq.{◌==◌, string_eq}
use tandem_interface_ai.Prelude.Int.{ℤ}
use tandem_interface_ai.Prelude.Substring.{contains}
use tandem_interface_ai.Domain.Errors.{value_error}
use tandem_interface_ai.Workflow.StateMachine.{RegEState, needs_human, uncertain_effect, state_eq}
use tandem_interface_ai.Ledger.Models.{
  ProcedureCaseRecord, CapabilityExecutionRecord, DeadlineRecord, LeaseRecord,
}
use tandem_interface_ai.Ledger.Session.{M, ◌>>=◌, ◌>>◌, pure, gets, or_raise}
use tandem_interface_ai.Ledger.Events.{get_events_for_case}
use tandem_interface_ai.Ledger.Cases.{get_case}
use tandem_interface_ai.Ledger.Executions.{get_executions_for_case}
use tandem_interface_ai.Ledger.Deadlines.{is_met, get_deadlines_for_case, mark_overdue_deadlines}
use tandem_interface_ai.Ledger.Leases.{get_lease}

pub record CaseStateSnapshot : Type 0 where
  pub case_id : String
  pub member_id : String
  pub amount : ℤ
  pub status : RegEState
  pub money_moved : Bool
  pub completed_capabilities : List String
  pub successful_executions : List CapabilityExecutionRecord
  pub latest_memo_ref : Option String
  pub processor_ref : Option String
  pub pending_deadlines : List DeadlineRecord
  pub lease_owner : Option String
  pub requires_human : Bool
  pub events_count : ℕ

-- The variables of the loop over the executions.
pub record Progress : Type 0 where
  pub completed_caps : List String
  pub successful_execs : List CapabilityExecutionRecord
  pub money_moved : Bool
  pub latest_memo_ref : Option String
  pub processor_ref : Option String
  pub requires_human : Bool

abbrev pub is_successful : String → Bool
is_successful s =
    s == "SUCCESS" || s == "COMPLETED" || s == "CONFIRMED_APPLIED" || s == "ALREADY_APPLIED"

abbrev pub asks_for_human : String → Bool
asks_for_human s = s == "HARD_FAILURE" || s == "UNCERTAIN_EFFECT"

-- The references that an audit reference sets.
abbrev pub note_reference : String → Progress → Progress
note_reference ref p =
    if contains ref "MC-"
    then record p { latest_memo_ref = some ref }
    else if contains ref "VISA-DISP-" || contains ref "CB-"
    then record p { processor_ref = some ref }
    else p

-- An audit reference that is `None` or empty is skipped.
abbrev pub note_audit : Option String → Progress → Progress
note_audit none p = p
note_audit (some String.[]) p = p
note_audit (some ref) p = note_reference ref p

-- One turn of the loop.
unfoldable pub fold_execution : CapabilityExecutionRecord → Progress → Progress
fold_execution e p =
    if is_successful e.status
    then note_audit e.audit_ref (record p {
      completed_caps = p.completed_caps ++ e.capability_id ∷ [];
      successful_execs = p.successful_execs ++ e ∷ [];
      money_moved = p.money_moved || e.money_moved;
    })
    else if asks_for_human e.status
    then record p { requires_human = true }
    else p

unfoldable pub fold_executions : List CapabilityExecutionRecord → Progress → Progress
unfolding fold_execution
fold_executions [] p = p
fold_executions (e ∷ es) p = fold_executions es (fold_execution e p)

abbrev pub initial : ProcedureCaseRecord → Progress
initial c = record {
  completed_caps = [];
  successful_execs = [];
  money_moved = c.money_moved;
  latest_memo_ref = none;
  processor_ref = none;
  requires_human = false;
}

-- `lease.owner if lease and not lease.released_at else None`
abbrev pub owner_of : Option LeaseRecord → Option String
owner_of none = none
owner_of (some l) = if is_some l.released_at then none else some l.owner_id

unfoldable pub snapshot :
    ProcedureCaseRecord
    → Progress
    → List DeadlineRecord
    → Option LeaseRecord
    → ℕ
    → CaseStateSnapshot
snapshot c p deadlines lease events_count = record {
  case_id = c.case_id;
  member_id = c.member_id;
  amount = c.amount;
  status = c.status;
  money_moved = p.money_moved;
  completed_capabilities = p.completed_caps;
  successful_executions = p.successful_execs;
  latest_memo_ref = p.latest_memo_ref;
  processor_ref = p.processor_ref;
  pending_deadlines = keep_if (λ d. not (is_met d)) deadlines;
  lease_owner = owner_of lease;
  requires_human = p.requires_human || (c.status == needs_human || c.status == uncertain_effect);
  events_count = events_count;
}

unfoldable pub reconstruct_case_state : String → M CaseStateSnapshot
unfolding snapshot fold_executions
reconstruct_case_state case_id = do
  found ← get_case case_id
  c ← or_raise found value_error
  executions ← gets (λ w. get_executions_for_case case_id w.db)
  mark_overdue_deadlines case_id none
  deadlines ← gets (λ w. get_deadlines_for_case case_id w.db)
  lease ← gets (λ w. get_lease case_id w.db)
  events ← gets (λ w. get_events_for_case case_id w.db)
  pure (snapshot c (fold_executions executions (initial c)) deadlines lease (length events))
