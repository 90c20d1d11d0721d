-- ===== src/Replay/Engine/Act.antt =====
-- The second half of `EffectEngine.execute_capability`: the lease, the action, its reconciliation and
-- its settlement; and the whole run.
use tandem_interface_ai.Prelude.{
  ℕ, String, Bool, true, false, not, ◌&&◌, ◌||◌, Option, none, some, [], ◌∷◌, if◌then◌else◌,
}
use tandem_interface_ai.Prelude.Eq.{◌==◌}
use tandem_interface_ai.Prelude.Int.{ℤ}
use tandem_interface_ai.Domain.Values.{Dict, text, optional_text, amount, end, entry}
use tandem_interface_ai.Domain.Errors.{Error, value_error, runtime_error}
use tandem_interface_ai.Domain.Money.{MoneyInput, decimal, parse_money}
use tandem_interface_ai.Domain.Effects.{
  claimed, applying, class_eq, class_value, commit as commit_class,
}
use tandem_interface_ai.Domain.Capability.{CapabilityDefinition}
use tandem_interface_ai.Domain.Fields.{Dynamic, Fields, get, shown_or}
use tandem_interface_ai.Domain.Outcomes.{
  ExecutionOutcome, OutcomeCategory, recoverable_failure, hard_failure, needs_human,
  possibly_applied, confirmed_applied, network_timeout, after_submit_unknown, category_eq, code_eq,
  phase_eq, category_value, code_value, is_success, outcome,
}
use tandem_interface_ai.Workflow.StateMachine.{RegEState, provisional_credit_posted, failed}
use tandem_interface_ai.Ledger.Session.{
  M, ◌>>=◌, ◌>>◌, pure, raise_if, lift, attempt, or_raise, commit,
}
use tandem_interface_ai.Ledger.Events.{record_event}
use tandem_interface_ai.Ledger.Cases.{create_or_get_case, update_case_status}
use tandem_interface_ai.Ledger.Claims.{transition_effect_claim}
use tandem_interface_ai.Ledger.Intents.{mark_intent_committed}
use tandem_interface_ai.Ledger.Leases.{acquire_lease, heartbeat_lease, release_lease}
use tandem_interface_ai.Ledger.Executions.{start_execution, complete_execution}
use tandem_interface_ai.Replay.Checks.{reconcile_commit_execution}
use tandem_interface_ai.Replay.Http.{execute_http_commit}
use tandem_interface_ai.Replay.Settlement.{settle_claim_status}
use tandem_interface_ai.Replay.Engine.{
  Platform, EffectEngine, Admitted, finished, fenced, unfenced, Bound, bound, unbound, is_http,
  decimal_of, amount_input, complete_inputs, bind_account, identity_of,
}
use tandem_interface_ai.Replay.Engine.Admit.{default_ttl, admit}

abbrev key_of_admitted : Admitted → Option String
key_of_admitted (finished o) = none
key_of_admitted (fenced key token) = some key
key_of_admitted (unfenced key) = key

abbrev moved_amount : Bool → ℤ → Option MoneyInput
moved_amount true cents = some (decimal (decimal_of cents))
moved_amount false cents = none

abbrev shown_option : Option Dynamic → Option String
shown_option none = none
shown_option (some v) = some v.shown

module _ (p : Platform) (e : EffectEngine) (c : CapabilityDefinition) (case_id : String)
    (inputs : Fields) where
  unfoldable pub maintain_action_lease : ℕ → M (Unit {0})
  maintain_action_lease token = do heartbeat_lease case_id e.owner_id token none default_ttl; commit

  -- The run of the steps. The postcheck of the HTTP executor makes the second request of the run.
  unfoldable pub perform : ℕ → M ExecutionOutcome
  unfolding maintain_action_lease
  perform token =
      if is_http c
      then (maintain_action_lease token
          >> lift (execute_http_commit p.texts p.lower p.post p.fetch c inputs 1))
      else p.browser (maintain_action_lease token) c inputs

  abbrev pub reconcile : M ExecutionOutcome
  reconcile = lift (reconcile_commit_execution p.lower p.fetch c inputs 2)

  -- Whether an outcome leaves open what the target has.
  abbrev pub is_open : ExecutionOutcome → Bool
  is_open o = o.code == possibly_applied || o.execution_phase == after_submit_unknown

  unfoldable pub reconcile_if_open : ExecutionOutcome → M ExecutionOutcome
  reconcile_if_open o =
      if c.effect.effect_class == commit_class && is_open o then reconcile else pure o

  -- A reconciliation raises only where there is no core bank to ask, before its first request, so
  -- that a second one starts with the same request.
  unfoldable pub on_exception : Error → M ExecutionOutcome
  on_exception x =
      if c.effect.effect_class == commit_class
      then reconcile
      else pure (outcome recoverable_failure network_timeout "")

  -- The action, with what follows an exception or an open outcome.
  unfoldable pub execute : ℕ → M ExecutionOutcome
  unfolding perform
  execute token = attempt (perform token >>= reconcile_if_open) on_exception

  unfoldable pub record_money : ℤ → ExecutionOutcome → M (Unit {0})
  record_money cents o =
      if o.money_moved
      then (do
        update_case_status case_id provisional_credit_posted (some true)
        record_event case_id "MONEY_MOVED" c.id "AUTOMATION"
            (some (entry "amount" (amount cents) (entry "ref" (optional_text o.audit_ref) end)))
        pure tt)
      else pure tt

  unfoldable pub record_reconciled : ExecutionOutcome → M (Unit {0})
  record_reconciled o =
      if o.code == confirmed_applied
      then (do
        record_event case_id "EFFECT_RECONCILED" c.id "AUTOMATION"
            (some (entry "audit_ref" (optional_text o.audit_ref) end))
        pure tt)
      else pure tt

  abbrev pub coded : ExecutionOutcome → Dict
  coded o = entry "code" (text (code_value o.code)) (entry "message" (text o.message) end)

  abbrev pub escalate : RegEState → String → Dict → M (Unit {0})
  escalate status event_type payload = do
    update_case_status case_id status none
    record_event case_id event_type c.id "AUTOMATION" (some payload)
    pure tt

  unfoldable pub record_escalation : ExecutionOutcome → M (Unit {0})
  record_escalation o =
      if o.category == OutcomeCategory.uncertain_effect
      then escalate RegEState.uncertain_effect "UNCERTAIN_EFFECT_ESCALATION"
          (entry "message" (text o.message) end)
      else if o.category == needs_human
      then escalate RegEState.needs_human "HUMAN_HANDOFF_REQUIRED" (coded o)
      else if o.category == hard_failure
      then escalate failed "HARD_FAILURE" (coded o)
      else pure tt

  unfoldable pub commit_intent : String → ExecutionOutcome → M (Unit {0})
  commit_intent key o = if is_success o then mark_intent_committed key else pure tt

  unfoldable pub settle : Admitted → ExecutionOutcome → M (Unit {0})
  settle (finished _) o = pure tt
  settle (unfenced _) o = pure tt
  settle (fenced key token) o = do
    settled ←
        transition_effect_claim key e.owner_id token (applying ∷ []) (settle_claim_status o) none
    raise_if (not settled) runtime_error
    commit_intent key o

  unfoldable pub enter_applying : Admitted → M (Unit {0})
  enter_applying (finished _) = pure tt
  enter_applying (unfenced _) = pure tt
  enter_applying (fenced key token) = do
    entered ← transition_effect_claim key e.owner_id token (claimed ∷ []) applying none
    raise_if (not entered) runtime_error

  unfoldable pub conclude_run : ℕ → ℕ → ℤ → Admitted → ExecutionOutcome → M ExecutionOutcome
  conclude_run execution_id lease_token cents admitted o = do
    complete_execution execution_id (code_value o.code) (shown_option (get "member_id" inputs))
        (moved_amount o.money_moved cents)
        (if is_success o then none else some (category_value o.category)) o.audit_ref o.money_moved
    record_money cents o
    record_reconciled o
    record_escalation o
    settle admitted o
    release_lease case_id (some e.owner_id) (some lease_token) none
    commit
    pure o

  unfoldable pub act : String → ℤ → Admitted → M ExecutionOutcome
  act member_id cents admitted = do
    lease ← acquire_lease case_id e.owner_id (some "AUTOMATION") none default_ttl none
    enter_applying admitted
    run ←
        start_execution case_id c.id c.version (class_value c.effect.effect_class)
          (key_of_admitted admitted) (some member_id) (some (decimal (decimal_of cents)))
          "AUTOMATION" e.browser_session_id
    commit
    o ← execute lease.fencing_token
    conclude_run run.id lease.fencing_token cents admitted o

  unfoldable pub act_if_admitted : String → ℤ → Admitted → M ExecutionOutcome
  act_if_admitted member_id cents (finished o) = pure o
  act_if_admitted member_id cents (fenced key token) = act member_id cents (fenced key token)
  act_if_admitted member_id cents (unfenced key) = act member_id cents (unfenced key)

-- The run, once its inputs are complete.
unfoldable pub run_bound :
    Platform
    → EffectEngine
    → CapabilityDefinition
    → String
    → String
    → ℤ
    → Bound
    → M ExecutionOutcome
run_bound p e c case_id member_id cents (unbound o) = pure o
run_bound p e c case_id member_id cents (bound inputs) = do
  identity ← lift (identity_of p c inputs)
  create_or_get_case case_id member_id (decimal (decimal_of cents))
      (shown_or "USD" (get "currency" inputs)) "reg_e_dispute"
  admitted ← admit p e c case_id inputs identity
  act_if_admitted p e c case_id inputs member_id cents admitted

unfoldable pub execute_capability :
    Platform → EffectEngine → CapabilityDefinition → Fields → M ExecutionOutcome
execute_capability p e c inputs = do
  let member_id = shown_or "UNKNOWN_MEMBER" (get "member_id" inputs)
  cents ← or_raise (parse_money (amount_input (get "amount" inputs))) value_error
  run_bound p e c (shown_or "UNKNOWN_CASE" (get "case_id" inputs)) member_id cents
      (bind_account p c member_id (complete_inputs p e c cents inputs))
