-- ===== src/Replay/Settlement.antt =====
-- How the outcome of a COMMIT settles its claim (settle_claim_status of tandem/replay/engine.py).
use tandem_interface_ai.Prelude.{not, ◌||◌, if◌then◌else◌}
use tandem_interface_ai.Prelude.Eq.{◌==◌}
use tandem_interface_ai.Domain.Effects.{
  EffectClaimStatus, applied, uncertain, failed_retryable, failed_permanent,
}
use tandem_interface_ai.Domain.Outcomes.{
  ExecutionOutcome, OutcomeCategory, confirmed_not_applied, before_submit, recoverable_failure,
  needs_human, category_eq, code_eq, phase_eq, is_success,
}

unfoldable pub settle_claim_status : ExecutionOutcome → EffectClaimStatus
unfolding is_success
settle_claim_status o =
    if is_success o
    then applied
    else if o.category == OutcomeCategory.uncertain_effect
    then uncertain
    else if o.code == confirmed_not_applied
    then failed_retryable
    else if not (o.execution_phase == before_submit)
    then uncertain
    else if o.category == recoverable_failure || o.category == needs_human
    then failed_retryable
    else failed_permanent
