-- ===== src/Domain/Effects/Contract.antt =====
-- The safety contract of COMMIT capabilities.
use tandem_interface_ai.Prelude.{◌≡◌, ◌&&◌, not, Bool, none, some, arith, is_some, if◌then◌else◌}
use tandem_interface_ai.Prelude.Eq.{◌==◌}
use tandem_interface_ai.Domain.Effects.{
  commit, EffectSpec, is_text, class_eq, validate_commit_safety_contract,
}

abbrev pub declares_all : EffectSpec → Bool
declares_all e =
    is_text e.idempotency_key
    && is_some e.identity
    && is_some e.precheck
    && is_some e.postcheck
    && is_some e.reconciliation
    && is_some e.bounds

-- A specification is refused exactly when it is a COMMIT that leaves out one of: an idempotency
-- key that is not empty, an identity, a precheck, a postcheck, a reconciliation, bounds. Every
-- other one is accepted unchanged.
pub validate_commit_safety_contract_lem :
    (e : EffectSpec)
    → validate_commit_safety_contract e
      ≡ (if e.effect_class == commit && not (declares_all e) then none else some e)
unfolding validate_commit_safety_contract
validate_commit_safety_contract_lem e = ground arith
