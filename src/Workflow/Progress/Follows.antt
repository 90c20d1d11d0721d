-- ===== src/Workflow/Progress/Follows.antt =====
-- The stored states of a case follow the state machine.
use tandem_interface_ai.Prelude.{String, ◌≡◌, ◌⊎◌, true}
use tandem_interface_ai.Workflow.StateMachine.{RegEState, can_transition}
use tandem_interface_ai.Ledger.Session.{World}
use tandem_interface_ai.Ledger.Cases.{find_case}
use tandem_interface_ai.Workflow.Progress.{state_of}

abbrev pub state_in : String → World → RegEState
state_in case_id w = state_of (find_case case_id w.db)

-- The state stays, or is moved to one that the state machine permits.
abbrev Moves : String → World → World → Type 0
Moves case_id w w' =
    (state_in case_id w' ≡ state_in case_id w)
    ⊎ (can_transition (state_in case_id w) (state_in case_id w') ≡ true)
