-- ===== src/Replay/Engine/Admit.antt =====
-- The first half of `EffectEngine.execute_capability`: policy, claim, precheck and intent. It ends
-- before anything is done to the target.
use Prim.Native.String.{◌++◌}
use tandem_interface_ai.Prelude.Substring.{replace}
use tandem_interface_ai.Prelude.{
  ℕ, String, false, not, ◌*◌, Option, none, some, [], ◌∷◌, if◌then◌else◌,
}
use tandem_interface_ai.Prelude.Eq.{◌==◌, string_eq}
use tandem_interface_ai.Domain.Values.{text, int, optional_text, end, entry}
use tandem_interface_ai.Domain.Errors.{value_error}
use tandem_interface_ai.Domain.Effects.{
  claimed, applied, failed_retryable, class_value, claim_status_value,
}
use tandem_interface_ai.Domain.Capability.{CapabilityDefinition}
use tandem_interface_ai.Domain.Identity.{EffectIdentity, placeholder}
use tandem_interface_ai.Domain.Fields.{Fields}
use tandem_interface_ai.Domain.Outcomes.{
  ExecutionOutcome, business_outcome, already_applied, not_applied, code_eq, code_value, outcome,
}
use tandem_interface_ai.Policy.{evaluate}
use tandem_interface_ai.Ledger.Session.{M, ◌>>=◌, ◌>>◌, pure, raise, lift, get_env, commit}
use tandem_interface_ai.Ledger.Events.{record_event}
use tandem_interface_ai.Ledger.Claims.{
  EffectClaim, ClaimAnswer, held, rejected, key_of, claim_effect, transition_effect_claim,
}
use tandem_interface_ai.Ledger.Intents.{stage_intent}
use tandem_interface_ai.Ledger.Executions.{start_execution, complete_execution}
use tandem_interface_ai.Replay.Checks.{execute_precheck}
use tandem_interface_ai.Replay.Engine.{Platform, EffectEngine, Admitted, finished, fenced, unfenced}

-- Five minutes: the default duration of a claim and of a lease.
abbrev pub default_ttl : ℕ
default_ttl = 300 * 1000000

abbrev pub answer_text : ClaimAnswer → String
answer_text (held status) = claim_status_value status
answer_text (rejected code) = code_value code

-- `render_template` (tandem/replay/executor.py), its loop over the inputs.
unfoldable pub render_template : String → Fields → String
unfolding replace
render_template result [] = result
render_template result ((name, v) ∷ rest) =
    render_template
      (replace ("{{" ++ (name ++ "}}")) v.shown (replace (placeholder name) v.shown result)) rest

module _ (p : Platform) (e : EffectEngine) (c : CapabilityDefinition) (case_id : String)
    (inputs : Fields) where
  -- The precheck makes the first request of the run.
  abbrev pub target_precheck : M ExecutionOutcome
  target_precheck = lift (execute_precheck p.lower p.fetch c inputs 0)

  -- The rejection of a claim is put on record.
  unfoldable pub record_rejection : String → EffectClaim → M (Unit {0})
  record_rejection key claim = if claim.acquired then pure tt else (do
    record_event case_id "EFFECT_CLAIM_REJECTED" c.id "AUTOMATION" (
        some (
          entry "idempotency_key" (text key) (
            entry "owner_id" (text claim.owner_id) (
              entry "fencing_token" (int claim.fencing_token)
                (entry "status" (text (answer_text claim.status)) end)))))
    pure tt)

  -- A rejected claim of an applied effect is confirmed by the target, where it can be.
  unfoldable pub rejected_outcome : ClaimAnswer → M ExecutionOutcome
  rejected_outcome (held status) = raise value_error
  rejected_outcome (rejected code) =
      if code == already_applied
      then (do
        confirmed ← target_precheck
        pure (
            if confirmed.code == already_applied
            then confirmed
            else outcome business_outcome code ""))
      else pure (outcome business_outcome code "")

  -- The target already has the effect: the claim is settled without an action.
  unfoldable pub settle_found : String → ℕ → ExecutionOutcome → M Admitted
  settle_found key token o = do
    record_event case_id "PRECHECK_ALREADY_APPLIED" c.id "AUTOMATION"
        (some (entry "memo" (optional_text o.audit_ref) (entry "message" (text o.message) end)))
    run ←
        start_execution case_id c.id c.version (class_value c.effect.effect_class) (some key) none
          none "AUTOMATION" none
    complete_execution run.id (code_value already_applied) none none none o.audit_ref false
    transition_effect_claim key e.owner_id token (claimed ∷ []) applied none
    commit
    pure (finished o)

  -- The precheck gives no proof: the claim is given back.
  unfoldable pub halt_unproved : String → ℕ → ExecutionOutcome → M Admitted
  halt_unproved key token o = do
    transition_effect_claim key e.owner_id token (claimed ∷ []) failed_retryable none
    record_event case_id "PRECHECK_HALTED" c.id "AUTOMATION"
        (some (entry "code" (text (code_value o.code)) (entry "message" (text o.message) end)))
    commit
    pure (finished o)

  unfoldable pub stage_and_commit : String → ℕ → M Admitted
  stage_and_commit key token = do
    stage_intent case_id key c.id
    record_event case_id "EFFECT_INTENT_STAGED" c.id "AUTOMATION"
        (some (entry "idempotency_key" (text key) end))
    commit
    pure (fenced key token)

  unfoldable pub after_precheck : String → ℕ → ExecutionOutcome → M Admitted
  after_precheck key token o =
      if o.code == already_applied
      then settle_found key token o
      else if not (o.code == not_applied)
      then halt_unproved key token o
      else stage_and_commit key token

  unfoldable pub after_claim : String → EffectClaim → M Admitted
  after_claim key claim =
      if claim.acquired
      then (target_precheck >>= λ o. after_precheck key claim.fencing_token o)
      else (rejected_outcome claim.status >>= λ o. pure (finished o))

  unfoldable pub admit_commit : EffectIdentity → M Admitted
  admit_commit i = do
    env ← get_env
    let key = key_of env i
    claim ← claim_effect i e.owner_id none default_ttl
    record_rejection key claim
    commit
    after_claim key claim

  -- Without a COMMIT the key only labels the execution.
  abbrev pub label : Option String → Option String
  label none = none
  label (some template) = if template == "" then none else some (render_template template inputs)

  unfoldable pub deny : ExecutionOutcome → M Admitted
  deny o = do
    record_event case_id "POLICY_DENIED" c.id "AUTOMATION"
        (some (entry "message" (text o.message) end))
    pure (finished o)

  unfoldable pub admit : Option EffectIdentity → M Admitted
  admit identity = elim (evaluate c inputs) [
    | some o ↦ deny o
    | none ↦ elim identity [
      | none ↦ pure (unfenced (label c.effect.idempotency_key))
      | some i ↦ admit_commit i
    ]
  ]
