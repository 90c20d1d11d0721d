-- ===== src/Replay/CrashRecovery.antt =====
-- Recovery of the claims of workers that died (tandem/replay/crash_recovery.py). Whether a process is
-- dead, which the operating system says, and the capability of a file are parameters; the targets'
-- answers are as in the checks, one request for each claim.
pub mod Owner
pub mod Evidenced
use tandem_interface_ai.Prelude.{
  ℕ, zero, suc, String, Bool, true, false, not, ◌&&◌, ◌||◌, Option, none, some, List, [], ◌∷◌,
  any_of, is_some, if◌then◌else◌,
}
use tandem_interface_ai.Prelude.Eq.{◌==◌, string_eq}
use tandem_interface_ai.Prelude.Int.{ℤ}
use tandem_interface_ai.Domain.Values.{boolean, optional_text, end, entry}
use tandem_interface_ai.Domain.Errors.{Result}
use tandem_interface_ai.Domain.Money.{decimal}
use tandem_interface_ai.Domain.Effects.{
  claimed, applying, applied, failed_retryable, claim_status_eq,
}
use tandem_interface_ai.Domain.Capability.{CapabilityDefinition}
use tandem_interface_ai.Domain.Fields.{Fields, text_value}
use tandem_interface_ai.Domain.Outcomes.{
  ExecutionOutcome, OutcomeCode, needs_human, already_claimed, already_applied, not_applied,
  target_reconciliation_unavailable, code_eq, outcome,
}
use tandem_interface_ai.Workflow.StateMachine.{provisional_credit_posted}
use tandem_interface_ai.Ledger.Models.{EffectClaimRecord, LeaseRecord, CapabilityExecutionRecord}
use tandem_interface_ai.Ledger.Session.{Db, M, ◌>>=◌, ◌>>◌, pure, lift, gets}
use tandem_interface_ai.Ledger.Events.{record_event}
use tandem_interface_ai.Ledger.Cases.{update_case_status}
use tandem_interface_ai.Ledger.Claims.{get_effect_claims_for_case, transition_effect_claim}
use tandem_interface_ai.Ledger.Intents.{stage_intent, mark_intent_committed}
use tandem_interface_ai.Ledger.Leases.{get_lease, release_lease}
use tandem_interface_ai.Ledger.Executions.{
  start_execution, complete_execution, get_executions_for_case,
}
use tandem_interface_ai.Replay.CrashRecovery.Owner.{Processes, local_owner_is_dead}
use tandem_interface_ai.Replay.Inquiry.{Response, Url}
use tandem_interface_ai.Replay.Checks.{execute_precheck}
use tandem_interface_ai.Replay.Engine.{amount_value, decimal_of}

-- `_needs_human`
abbrev pub for_human : OutcomeCode → ExecutionOutcome
for_human code = outcome needs_human code ""

abbrev pub credit_id : String
credit_id = "core.post_provisional_credit"

-- The capabilities that have a file.
abbrev pub has_file : String → Bool
has_file id = id == credit_id || id == "processor.file_chargeback" || id == "docs.send_notice"

abbrev pub in_progress : EffectClaimRecord → Bool
in_progress r = r.status == claimed || r.status == applying

-- An execution of the capability that succeeded.
abbrev pub has_succeeded : String → CapabilityExecutionRecord → Bool
has_succeeded id item =
    item.capability_id == id
    && (item.status == "SUCCESS" || item.status == "COMPLETED" || item.status == "ALREADY_APPLIED")

-- What recovery takes from outside: dead processes, the capability of an identifier that has a file,
-- the printing of an amount, lower case, and the targets' answers.
pub record Outside : Type 0 where
  pub processes : Processes
  pub load : String → Result CapabilityDefinition
  pub show_decimal : ℤ → String
  pub lower : String → String
  pub fetch : Url → ℕ → Response

unfoldable pub inputs_of : Outside → EffectClaimRecord → Fields
inputs_of x r =
    ("institution_id", text_value r.institution_id none)
    ∷ ("member_id", text_value r.member_id none)
    ∷ ("account_id", text_value r.account_id none)
    ∷ ("case_id", text_value r.case_id none)
    ∷ ("amount", amount_value x.show_decimal r.amount)
    ∷ ("currency", text_value r.currency none)
    ∷ []

module _ (x : Outside) (case_id : String) (r : EffectClaimRecord) where
  -- An effect that no execution of the case reports gets one.
  unfoldable pub report_execution : Bool → Option String → M (Unit {0})
  report_execution true audit_ref = pure tt
  report_execution false audit_ref = do
    run ←
        start_execution case_id r.capability_id "1.0.0" "COMMIT" (some r.idempotency_key)
          (some r.member_id) (some (decimal (decimal_of r.amount))) "AUTOMATION" none
    complete_execution run.id "COMPLETED" (some r.member_id) (some (decimal (decimal_of r.amount)))
        none audit_ref (r.capability_id == credit_id)
    pure tt

  unfoldable pub report_credit : Bool → M (Unit {0})
  report_credit false = pure tt
  report_credit true = do update_case_status case_id provisional_credit_posted (some true); pure tt

  -- The target has the effect, and the claim was settled.
  unfoldable pub report_applied : Option String → M (Option ExecutionOutcome)
  report_applied audit_ref = do
    reported ←
        gets (λ w. any_of (has_succeeded r.capability_id) (get_executions_for_case case_id w.db))
    report_execution reported audit_ref
    stage_intent case_id r.idempotency_key r.capability_id
    mark_intent_committed r.idempotency_key
    report_credit (r.capability_id == credit_id)
    record_event case_id "CRASH_RECOVERY_CONFIRMED_APPLIED" r.capability_id "AUTOMATION"
        (some (entry "audit_ref" (optional_text audit_ref) end))
    pure none

  unfoldable pub confirm_applied : Option String → M (Option ExecutionOutcome)
  confirm_applied audit_ref = do
    moved ←
        transition_effect_claim r.idempotency_key r.owner_id r.fencing_token
          (claimed ∷ applying ∷ []) applied none
    (if moved
        then report_applied audit_ref
        else pure (some (for_human target_reconciliation_unavailable)))

  unfoldable pub report_absent : M (Option ExecutionOutcome)
  report_absent = do
    record_event case_id "CRASH_RECOVERY_CONFIRMED_ABSENT" r.capability_id "AUTOMATION"
        (some (entry "safe_to_retry" (boolean true) end))
    pure none

  unfoldable pub confirm_absent : M (Option ExecutionOutcome)
  confirm_absent = do
    moved ←
        transition_effect_claim r.idempotency_key r.owner_id r.fencing_token
          (claimed ∷ applying ∷ []) failed_retryable none
    (if moved then report_absent else pure (some (for_human target_reconciliation_unavailable)))

  -- What the target's answer means for the claim.
  unfoldable pub resolve : ExecutionOutcome → M (Option ExecutionOutcome)
  resolve target =
      if target.code == already_applied
      then confirm_applied target.audit_ref
      else if target.code == not_applied
      then confirm_absent
      else pure (some (for_human target_reconciliation_unavailable))

  -- One round of the loop, with the n-th request.
  unfoldable pub recover_claim : ℕ → M (Option ExecutionOutcome)
  recover_claim n =
      if not (in_progress r)
      then pure none
      else if not (local_owner_is_dead x.processes r.owner_id)
      then pure (some (for_human already_claimed))
      else if not (has_file r.capability_id)
      then pure (some (for_human target_reconciliation_unavailable))
      else (lift (x.load r.capability_id) >>= λ c.
          (lift (execute_precheck x.lower x.fetch c (inputs_of x r) n) >>= λ o. resolve o))

abbrev stop_or : M (Option ExecutionOutcome) → Option ExecutionOutcome → M (Option ExecutionOutcome)
stop_or rest (some o) = pure (some o)
stop_or rest none = rest

unfoldable pub recover_claims :
    Outside → String → ℕ → List EffectClaimRecord → M (Option ExecutionOutcome)
recover_claims x case_id n [] = pure none
recover_claims x case_id n (r ∷ rest) =
    recover_claim x case_id r n >>= stop_or (recover_claims x case_id (suc n) rest)

-- A lease that a dead worker holds is released.
unfoldable pub release_dead : Outside → String → Option LeaseRecord → M (Unit {0})
release_dead x case_id none = pure tt
release_dead x case_id (some l) =
    if not (is_some l.released_at) && local_owner_is_dead x.processes l.owner_id
    then (release_lease case_id (some l.owner_id) (some l.fencing_token) none >>= λ _. pure tt)
    else pure tt

unfoldable pub recover_dead_effect_claims : Outside → String → M (Option ExecutionOutcome)
recover_dead_effect_claims x case_id = do
  lease ← gets (λ w. get_lease case_id w.db)
  release_dead x case_id lease
  claims ← gets (λ w. get_effect_claims_for_case case_id w.db)
  recover_claims x case_id 0 claims
