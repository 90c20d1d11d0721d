-- ===== src/Workflow/Progress.antt =====
-- How the procedure moves a case: `RegEWorkflow.transition` and `_ensure_reached`
-- (tandem/workflow/reg_e.py).
pub mod Follows
use tandem_interface_ai.Prelude.{
  ℕ, zero, suc, String, Bool, true, false, not, Option, none, some, List, [], ◌∷◌, leb,
  if◌then◌else◌,
}
use tandem_interface_ai.Prelude.Eq.{◌==◌}
use tandem_interface_ai.Domain.Values.{text, end, entry}
use tandem_interface_ai.Domain.Errors.{value_error}
use tandem_interface_ai.Workflow.StateMachine.{
  RegEState, received, member_verified, transaction_verified, duplicate_checked, chargeback_filed,
  provisional_credit_posted, notice_pending, notice_sent, waiting_resolution, state_eq, state_value,
  can_transition,
}
use tandem_interface_ai.Ledger.Models.{ProcedureCaseRecord}
use tandem_interface_ai.Ledger.Session.{M, ◌>>=◌, ◌>>◌, pure, raise, commit}
use tandem_interface_ai.Ledger.Events.{record_event}
use tandem_interface_ai.Ledger.Cases.{get_case, update_case_status}

abbrev pub happy_path : List RegEState
happy_path =
    received ∷ member_verified ∷ transaction_verified ∷ duplicate_checked ∷ chargeback_filed
    ∷ provisional_credit_posted ∷ notice_pending ∷ notice_sent ∷ waiting_resolution ∷ []

-- The state of a case; one that is not there is received.
abbrev pub state_of : Option ProcedureCaseRecord → RegEState
state_of none = received
state_of (some c) = c.status

abbrev pub is_given : Option Bool → Bool
is_given (some true) = true
is_given _ = false

-- The same state again only notes that money moved.
unfoldable pub note_money : Bool → String → RegEState → M (Unit {0})
note_money false case_id state = pure tt
note_money true case_id state = do update_case_status case_id state (some true); commit

unfoldable pub move_case : RegEState → String → RegEState → Option Bool → M (Unit {0})
move_case current case_id new_state money_moved = do
  update_case_status case_id new_state money_moved
  record_event case_id "STATE_TRANSITION" "orchestrator" "AUTOMATION" (
      some
        (entry "from" (text (state_value current)) (entry "to" (text (state_value new_state)) end)))
  commit

unfoldable pub transition_from : RegEState → String → RegEState → Option Bool → M (Unit {0})
transition_from current case_id new_state money_moved =
    if current == new_state
    then note_money (is_given money_moved) case_id new_state
    else if not (can_transition current new_state)
    then raise value_error
    else move_case current case_id new_state money_moved

unfoldable pub transition : String → RegEState → Option Bool → M (Unit {0})
transition case_id new_state money_moved = do
  found ← get_case case_id
  transition_from (state_of found) case_id new_state money_moved

abbrev pub next_index : Option ℕ → Option ℕ
next_index none = none
next_index (some n) = some (suc n)

-- `path.index(state)`, where it is there.
unfoldable pub index_in : List RegEState → RegEState → Option ℕ
index_in [] s = none
index_in (x ∷ path) s = if x == s then some 0 else next_index (index_in path s)

-- On the happy path, at the milestone or past it.
abbrev pub is_past : Option ℕ → Option ℕ → Bool
is_past (some current) (some milestone) = leb milestone current
is_past _ _ = false

unfoldable pub ensure_reached : String → RegEState → Option Bool → M (Unit {0})
unfolding index_in
ensure_reached case_id milestone money_moved = do
  found ← get_case case_id
  (if is_past (index_in happy_path (state_of found)) (index_in happy_path milestone)
      then pure tt
      else if can_transition (state_of found) milestone
      then transition case_id milestone money_moved
      else pure tt)

-- A step of the procedure that moves a case.
pub data Step : Type 0 where
  reach : RegEState → Option Bool → Step
  ensure : RegEState → Option Bool → Step

unfoldable pub take : String → Step → M (Unit {0})
take case_id (reach s money_moved) = transition case_id s money_moved
take case_id (ensure s money_moved) = ensure_reached case_id s money_moved

-- Steps one after another, until one raises.
unfoldable pub take_all : String → List Step → M (Unit {0})
take_all case_id [] = pure tt
take_all case_id (step ∷ rest) = take case_id step >> take_all case_id rest
