-- ===== src/Ledger/Models.antt =====
-- The rows of the ledger (tandem/ledger/models.py). Instants are microseconds since an epoch in
-- UTC, amounts are whole cents; a row's surrogate `id` is its position in the table, and is kept
-- only where the program uses it.
use tandem_interface_ai.Prelude.{ℕ, String, Bool, Option}
use tandem_interface_ai.Prelude.Int.{ℤ}
use tandem_interface_ai.Domain.Effects.{EffectClaimStatus}
use tandem_interface_ai.Workflow.StateMachine.{RegEState}

-- The program writes only the values of `RegEState` to `status`.
pub record ProcedureCaseRecord : Type 0 where
  pub case_id : String
  pub member_id : String
  pub procedure_name : String
  pub amount : ℤ
  pub currency : String
  pub status : RegEState
  pub money_moved : Bool
  pub opened_at : ℕ
  pub updated_at : ℕ

pub record ProcedureEventRecord : Type 0 where
  pub event_id : String
  pub case_id : String
  pub sequence : ℕ
  pub event_type : String
  pub step_name : String
  pub actor : String
  pub payload : Option String
  pub timestamp : ℕ
  pub created_at : String
  pub previous_event_hash : String
  pub event_hash : String

pub record EventStreamHeadRecord : Type 0 where
  pub case_id : String
  pub last_sequence : ℕ
  pub last_event_hash : String

pub record CapabilityExecutionRecord : Type 0 where
  pub id : ℕ
  pub case_id : String
  pub capability_id : String
  pub capability_version : String
  pub effect_class : String
  pub idempotency_key : Option String
  pub status : String
  pub expected_entity : Option String
  pub observed_entity : Option String
  pub expected_amount : Option ℤ
  pub observed_amount : Option ℤ
  pub failure_category : Option String
  pub audit_ref : Option String
  pub money_moved : Bool
  pub actor : String
  pub browser_session_id : Option String
  pub started_at : ℕ
  pub completed_at : Option ℕ

pub data IntentStatus : Type 0 where
  staged committed : IntentStatus

pub record EffectIntentRecord : Type 0 where
  pub case_id : String
  pub idempotency_key : String
  pub capability_id : String
  pub intent_status : IntentStatus
  pub created_at : ℕ

pub record EffectClaimRecord : Type 0 where
  pub idempotency_key : String
  pub institution_id : String
  pub procedure_id : String
  pub case_id : String
  pub capability_id : String
  pub member_id : String
  pub account_id : String
  pub amount : ℤ
  pub currency : String
  pub business_reference : String
  pub status : EffectClaimStatus
  pub owner_id : String
  pub fencing_token : ℕ
  pub claimed_at : ℕ
  pub heartbeat_at : ℕ
  pub expires_at : ℕ
  pub updated_at : ℕ

pub data DeadlineStatus : Type 0 where
  pending met overdue : DeadlineStatus

pub record DeadlineRecord : Type 0 where
  pub case_id : String
  pub deadline_type : String
  pub due_at : ℕ
  pub status : DeadlineStatus
  pub resolved_at : Option ℕ

pub data ObligationStatus : Type 0 where
  planned active satisfied : ObligationStatus

pub record ObligationRecord : Type 0 where
  pub case_id : String
  pub obligation_type : String
  pub due_at : ℕ
  pub status : ObligationStatus
  pub created_at : ℕ
  pub activated_at : Option ℕ
  pub satisfied_at : Option ℕ

pub record LeaseRecord : Type 0 where
  pub case_id : String
  pub resource_id : String
  pub owner_type : String
  pub owner_id : String
  pub fencing_token : ℕ
  pub version : ℕ
  pub acquired_at : ℕ
  pub heartbeat_at : ℕ
  pub expires_at : ℕ
  pub released_at : Option ℕ

pub record BrowserSessionRecord : Type 0 where
  pub session_id : String
  pub case_id : String
  pub status : String
  pub current_url : String
  pub created_at : ℕ
  pub updated_at : ℕ
  pub closed_at : Option ℕ

pub record HumanHandoffRecord : Type 0 where
  pub case_id : String
  pub reason : String
  pub operator_id : String
  pub action_taken : String
  pub started_at : ℕ
  pub completed_at : Option ℕ
