-- ===== src/Domain/Outcomes.antt =====
-- The outcome taxonomy (tandem/domain/outcomes.py) and the caller-facing result union
-- (tandem/domain/result_contract.py).
pub mod Results
use tandem_interface_ai.Prelude.{
  ℕ, String, ◌≡◌, refl, ◌↔◌, Bool, true, false, ◌||◌, Option, none, some, [], ◌∷◌, nat_beq,
  get_elem?,
}
use tandem_interface_ai.Prelude.Eq.{Eq, ◌==◌, by_index}
use tandem_interface_ai.Domain.Values.{Dict, end}

pub data OutcomeCategory : Type 0 where
  success business_outcome recoverable_failure hard_failure uncertain_effect needs_human :
      OutcomeCategory

pub data ExecutionPhase : Type 0 where
  before_submit submit_initiated submit_confirmed after_submit_unknown : ExecutionPhase

pub data OutcomeCode : Type 0 where
  completed confirmed_applied not_applied confirmed_not_applied : OutcomeCode
  member_not_found already_applied already_claimed duplicate_dispute : OutcomeCode
  transaction_not_found policy_denied : OutcomeCode
  session_expired page_drift network_timeout temporary_unavailable : OutcomeCode
  entity_binding_mismatch amount_mismatch : OutcomeCode
  precheck_unavailable precheck_ambiguous precheck_invalid_response : OutcomeCode
  postcheck_uncertain postcheck_unavailable postcheck_ambiguous : OutcomeCode
  postcheck_invalid_response policy_violation target_ledger_divergence : OutcomeCode
  target_reconciliation_unavailable lease_fenced : OutcomeCode
  possibly_applied uncertain_effect : OutcomeCode
  compliance_interstitial human_intervention_required : OutcomeCode

-- A number for each constructor, by which constructors are compared.
abbrev category_index : OutcomeCategory → ℕ
category_index success = 0
category_index business_outcome = 1
category_index recoverable_failure = 2
category_index hard_failure = 3
category_index OutcomeCategory.uncertain_effect = 4
category_index needs_human = 5

category_of : ℕ → Option OutcomeCategory
category_of n =
    get_elem?
      (success ∷ business_outcome ∷ recoverable_failure ∷ hard_failure
        ∷ OutcomeCategory.uncertain_effect ∷ needs_human ∷ [])
      n

category_of-index : (a : OutcomeCategory) → category_of (category_index a) ≡ some a
unfolding category_of
category_of-index success = refl
category_of-index business_outcome = refl
category_of-index recoverable_failure = refl
category_of-index hard_failure = refl
category_of-index OutcomeCategory.uncertain_effect = refl
category_of-index needs_human = refl

pub category_beq_iff :
    (a b : OutcomeCategory) → (nat_beq (category_index a) (category_index b) ≡ true) ↔ (a ≡ b)
category_beq_iff = by_index category_index category_of category_of-index

instance abbrev pub category_eq : Eq OutcomeCategory
category_eq = record {
  beq = λ a b. nat_beq (category_index a) (category_index b);
  beq_iff = category_beq_iff;
}

-- A number for each constructor, by which constructors are compared.
abbrev phase_index : ExecutionPhase → ℕ
phase_index before_submit = 0
phase_index submit_initiated = 1
phase_index submit_confirmed = 2
phase_index after_submit_unknown = 3

phase_of : ℕ → Option ExecutionPhase
phase_of n =
    get_elem? (before_submit ∷ submit_initiated ∷ submit_confirmed ∷ after_submit_unknown ∷ []) n

phase_of-index : (a : ExecutionPhase) → phase_of (phase_index a) ≡ some a
unfolding phase_of
phase_of-index before_submit = refl
phase_of-index submit_initiated = refl
phase_of-index submit_confirmed = refl
phase_of-index after_submit_unknown = refl

pub phase_beq_iff :
    (a b : ExecutionPhase) → (nat_beq (phase_index a) (phase_index b) ≡ true) ↔ (a ≡ b)
phase_beq_iff = by_index phase_index phase_of phase_of-index

instance abbrev pub phase_eq : Eq ExecutionPhase
phase_eq = record { beq = λ a b. nat_beq (phase_index a) (phase_index b); beq_iff = phase_beq_iff }

-- A number for each constructor, by which constructors are compared.
abbrev code_index : OutcomeCode → ℕ
code_index completed = 0
code_index confirmed_applied = 1
code_index not_applied = 2
code_index confirmed_not_applied = 3
code_index member_not_found = 4
code_index already_applied = 5
code_index already_claimed = 6
code_index duplicate_dispute = 7
code_index transaction_not_found = 8
code_index policy_denied = 9
code_index session_expired = 10
code_index page_drift = 11
code_index network_timeout = 12
code_index temporary_unavailable = 13
code_index entity_binding_mismatch = 14
code_index amount_mismatch = 15
code_index precheck_unavailable = 16
code_index precheck_ambiguous = 17
code_index precheck_invalid_response = 18
code_index postcheck_uncertain = 19
code_index postcheck_unavailable = 20
code_index postcheck_ambiguous = 21
code_index postcheck_invalid_response = 22
code_index policy_violation = 23
code_index target_ledger_divergence = 24
code_index target_reconciliation_unavailable = 25
code_index lease_fenced = 26
code_index possibly_applied = 27
code_index OutcomeCode.uncertain_effect = 28
code_index compliance_interstitial = 29
code_index human_intervention_required = 30

code_of : ℕ → Option OutcomeCode
code_of n =
    get_elem?
      (completed ∷ confirmed_applied ∷ not_applied ∷ confirmed_not_applied ∷ member_not_found
        ∷ already_applied ∷ already_claimed ∷ duplicate_dispute ∷ transaction_not_found
        ∷ policy_denied ∷ session_expired ∷ page_drift ∷ network_timeout ∷ temporary_unavailable
        ∷ entity_binding_mismatch ∷ amount_mismatch ∷ precheck_unavailable ∷ precheck_ambiguous
        ∷ precheck_invalid_response ∷ postcheck_uncertain ∷ postcheck_unavailable
        ∷ postcheck_ambiguous ∷ postcheck_invalid_response ∷ policy_violation
        ∷ target_ledger_divergence ∷ target_reconciliation_unavailable ∷ lease_fenced
        ∷ possibly_applied ∷ OutcomeCode.uncertain_effect ∷ compliance_interstitial
        ∷ human_intervention_required ∷ [])
      n

code_of-index : (a : OutcomeCode) → code_of (code_index a) ≡ some a
unfolding code_of
code_of-index completed = refl
code_of-index confirmed_applied = refl
code_of-index not_applied = refl
code_of-index confirmed_not_applied = refl
code_of-index member_not_found = refl
code_of-index already_applied = refl
code_of-index already_claimed = refl
code_of-index duplicate_dispute = refl
code_of-index transaction_not_found = refl
code_of-index policy_denied = refl
code_of-index session_expired = refl
code_of-index page_drift = refl
code_of-index network_timeout = refl
code_of-index temporary_unavailable = refl
code_of-index entity_binding_mismatch = refl
code_of-index amount_mismatch = refl
code_of-index precheck_unavailable = refl
code_of-index precheck_ambiguous = refl
code_of-index precheck_invalid_response = refl
code_of-index postcheck_uncertain = refl
code_of-index postcheck_unavailable = refl
code_of-index postcheck_ambiguous = refl
code_of-index postcheck_invalid_response = refl
code_of-index policy_violation = refl
code_of-index target_ledger_divergence = refl
code_of-index target_reconciliation_unavailable = refl
code_of-index lease_fenced = refl
code_of-index possibly_applied = refl
code_of-index OutcomeCode.uncertain_effect = refl
code_of-index compliance_interstitial = refl
code_of-index human_intervention_required = refl

pub code_beq_iff : (a b : OutcomeCode) → (nat_beq (code_index a) (code_index b) ≡ true) ↔ (a ≡ b)
code_beq_iff = by_index code_index code_of code_of-index

instance abbrev pub code_eq : Eq OutcomeCode
code_eq = record { beq = λ a b. nat_beq (code_index a) (code_index b); beq_iff = code_beq_iff }

-- The text that is stored for each.
unfoldable pub category_value : OutcomeCategory → String
category_value success = "SUCCESS"
category_value business_outcome = "BUSINESS_OUTCOME"
category_value recoverable_failure = "RECOVERABLE_FAILURE"
category_value hard_failure = "HARD_FAILURE"
category_value OutcomeCategory.uncertain_effect = "UNCERTAIN_EFFECT"
category_value needs_human = "NEEDS_HUMAN"

-- The text that is stored for each.
unfoldable pub code_value : OutcomeCode → String
code_value completed = "COMPLETED"
code_value confirmed_applied = "CONFIRMED_APPLIED"
code_value not_applied = "NOT_APPLIED"
code_value confirmed_not_applied = "CONFIRMED_NOT_APPLIED"
code_value member_not_found = "MEMBER_NOT_FOUND"
code_value already_applied = "ALREADY_APPLIED"
code_value already_claimed = "ALREADY_CLAIMED"
code_value duplicate_dispute = "DUPLICATE_DISPUTE"
code_value transaction_not_found = "TRANSACTION_NOT_FOUND"
code_value policy_denied = "POLICY_DENIED"
code_value session_expired = "SESSION_EXPIRED"
code_value page_drift = "PAGE_DRIFT"
code_value network_timeout = "NETWORK_TIMEOUT"
code_value temporary_unavailable = "TEMPORARY_UNAVAILABLE"
code_value entity_binding_mismatch = "ENTITY_BINDING_MISMATCH"
code_value amount_mismatch = "AMOUNT_MISMATCH"
code_value precheck_unavailable = "PRECHECK_UNAVAILABLE"
code_value precheck_ambiguous = "PRECHECK_AMBIGUOUS"
code_value precheck_invalid_response = "PRECHECK_INVALID_RESPONSE"
code_value postcheck_uncertain = "POSTCHECK_UNCERTAIN"
code_value postcheck_unavailable = "POSTCHECK_UNAVAILABLE"
code_value postcheck_ambiguous = "POSTCHECK_AMBIGUOUS"
code_value postcheck_invalid_response = "POSTCHECK_INVALID_RESPONSE"
code_value policy_violation = "POLICY_VIOLATION"
code_value target_ledger_divergence = "TARGET_LEDGER_DIVERGENCE"
code_value target_reconciliation_unavailable = "TARGET_RECONCILIATION_UNAVAILABLE"
code_value lease_fenced = "LEASE_FENCED"
code_value possibly_applied = "POSSIBLY_APPLIED"
code_value OutcomeCode.uncertain_effect = "UNCERTAIN_EFFECT"
code_value compliance_interstitial = "COMPLIANCE_INTERSTITIAL"
code_value human_intervention_required = "HUMAN_INTERVENTION_REQUIRED"

pub record ExecutionOutcome : Type 0 where
  pub category : OutcomeCategory
  pub code : OutcomeCode
  pub message : String
  pub details : Dict
  pub money_moved : Bool
  pub audit_ref : Option String
  pub execution_phase : ExecutionPhase
  pub outputs : Dict
  pub failed_step : Option String
  pub expected : Option String
  pub observed : Option String
  pub evidence : Option String

-- An outcome with the model's defaults.
abbrev pub outcome : OutcomeCategory → OutcomeCode → String → ExecutionOutcome
outcome category code message = record {
  category = category;
  code = code;
  message = message;
  details = end;
  money_moved = false;
  audit_ref = none;
  execution_phase = before_submit;
  outputs = end;
  failed_step = none;
  expected = none;
  observed = none;
  evidence = none;
}

unfoldable pub is_success : ExecutionOutcome → Bool
is_success o = o.category == success

unfoldable pub is_business_terminal : ExecutionOutcome → Bool
is_business_terminal o = o.category == business_outcome

unfoldable pub is_retryable : ExecutionOutcome → Bool
is_retryable o = o.category == recoverable_failure

unfoldable pub requires_human : ExecutionOutcome → Bool
requires_human o =
    o.category == needs_human
    || (o.category == hard_failure || o.category == OutcomeCategory.uncertain_effect)
