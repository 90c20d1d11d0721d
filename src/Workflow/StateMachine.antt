-- ===== src/Workflow/StateMachine.antt =====
-- The finite state machine of a Regulation E dispute (tandem/workflow/state_machine.py).
pub mod Paths
use tandem_interface_ai.Prelude.{
  ℕ, String, ◌≡◌, refl, ◌↔◌, Bool, true, Option, some, List, [], ◌∷◌, nat_beq, get_elem?, any_of,
  if◌then◌else◌,
}
use tandem_interface_ai.Prelude.Eq.{Eq, ◌==◌, by_index}

pub data RegEState : Type 0 where
  received member_verified transaction_verified duplicate_checked : RegEState
  chargeback_filed provisional_credit_posted notice_pending notice_sent : RegEState
  waiting_resolution resolved needs_human uncertain_effect : RegEState
  failed : RegEState

-- A number for each constructor, by which constructors are compared.
abbrev state_index : RegEState → ℕ
state_index received = 0
state_index member_verified = 1
state_index transaction_verified = 2
state_index duplicate_checked = 3
state_index chargeback_filed = 4
state_index provisional_credit_posted = 5
state_index notice_pending = 6
state_index notice_sent = 7
state_index waiting_resolution = 8
state_index resolved = 9
state_index needs_human = 10
state_index uncertain_effect = 11
state_index failed = 12

state_of : ℕ → Option RegEState
state_of n =
    get_elem?
      (received ∷ member_verified ∷ transaction_verified ∷ duplicate_checked ∷ chargeback_filed
        ∷ provisional_credit_posted ∷ notice_pending ∷ notice_sent ∷ waiting_resolution ∷ resolved
        ∷ needs_human ∷ uncertain_effect ∷ failed ∷ [])
      n

state_of-index : (a : RegEState) → state_of (state_index a) ≡ some a
unfolding state_of
state_of-index received = refl
state_of-index member_verified = refl
state_of-index transaction_verified = refl
state_of-index duplicate_checked = refl
state_of-index chargeback_filed = refl
state_of-index provisional_credit_posted = refl
state_of-index notice_pending = refl
state_of-index notice_sent = refl
state_of-index waiting_resolution = refl
state_of-index resolved = refl
state_of-index needs_human = refl
state_of-index uncertain_effect = refl
state_of-index failed = refl

pub state_beq_iff : (a b : RegEState) → (nat_beq (state_index a) (state_index b) ≡ true) ↔ (a ≡ b)
state_beq_iff = by_index state_index state_of state_of-index

instance abbrev pub state_eq : Eq RegEState
state_eq = record { beq = λ a b. nat_beq (state_index a) (state_index b); beq_iff = state_beq_iff }

-- The text that is stored for each.
unfoldable pub state_value : RegEState → String
state_value received = "RECEIVED"
state_value member_verified = "MEMBER_VERIFIED"
state_value transaction_verified = "TRANSACTION_VERIFIED"
state_value duplicate_checked = "DUPLICATE_CHECKED"
state_value chargeback_filed = "CHARGEBACK_FILED"
state_value provisional_credit_posted = "PROVISIONAL_CREDIT_POSTED"
state_value notice_pending = "NOTICE_PENDING"
state_value notice_sent = "NOTICE_SENT"
state_value waiting_resolution = "WAITING_RESOLUTION"
state_value resolved = "RESOLVED"
state_value needs_human = "NEEDS_HUMAN"
state_value uncertain_effect = "UNCERTAIN_EFFECT"
state_value failed = "FAILED"

unfoldable pub valid_transitions : RegEState → List RegEState
valid_transitions received = member_verified ∷ failed ∷ needs_human ∷ []
valid_transitions member_verified = transaction_verified ∷ failed ∷ needs_human ∷ []
valid_transitions transaction_verified = duplicate_checked ∷ failed ∷ needs_human ∷ []
valid_transitions duplicate_checked =
    chargeback_filed ∷ provisional_credit_posted ∷ resolved ∷ needs_human ∷ failed ∷ []
valid_transitions chargeback_filed =
    provisional_credit_posted ∷ needs_human ∷ uncertain_effect ∷ failed ∷ []
valid_transitions provisional_credit_posted =
    notice_pending ∷ notice_sent ∷ needs_human ∷ uncertain_effect ∷ failed ∷ []
valid_transitions notice_pending = notice_sent ∷ needs_human ∷ failed ∷ []
valid_transitions notice_sent = waiting_resolution ∷ resolved ∷ []
valid_transitions waiting_resolution = resolved ∷ needs_human ∷ []
valid_transitions resolved = []
valid_transitions needs_human =
    member_verified ∷ transaction_verified ∷ duplicate_checked ∷ chargeback_filed
    ∷ provisional_credit_posted ∷ notice_pending ∷ notice_sent ∷ waiting_resolution ∷ resolved
    ∷ failed ∷ []
valid_transitions uncertain_effect = needs_human ∷ resolved ∷ failed ∷ []
valid_transitions failed = []

unfoldable pub can_transition : RegEState → RegEState → Bool
unfolding valid_transitions
can_transition current target =
    if current == target then true else any_of (λ s. s == target) (valid_transitions current)
