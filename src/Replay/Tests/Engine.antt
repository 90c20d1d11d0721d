-- ===== src/Replay/Tests/Engine.antt =====
-- Runs of the engine over the core bank: a credit that is posted, and one that somebody holds.
use Prim.Native.String.{◌++◌}
use tandem_interface_ai.Prelude.{ℕ, zero, suc, String, ◌≡◌, refl, true, false, none, some, [], ◌∷◌}
use tandem_interface_ai.Prelude.Eq.{string_eq}
use tandem_interface_ai.Prelude.Int.{pos}
use tandem_interface_ai.Prelude.Table.{
  KeysUnique, select_one, insert_or_ignore, update_where, rowcount,
}
use tandem_interface_ai.Domain.Money.{decimal, finite, parse_money, quantize, round_half_even}
use tandem_interface_ai.Domain.Effects.{applied, class_value, claim_status_value}
use tandem_interface_ai.Domain.Capability.{
  CapabilityDefinition, ScopedGuardSpec, StepDefinition, submit,
}
use tandem_interface_ai.Domain.Fields.{Fields}
use tandem_interface_ai.Domain.Identity.{Texts}
use tandem_interface_ai.Domain.Outcomes.{
  ExecutionOutcome, success, completed, outcome, is_success, code_value, category_value,
}
use tandem_interface_ai.Ledger.Session.{World, ok, ◌>>=◌, ◌>>◌, pure}
use tandem_interface_ai.Ledger.Claims.{claim_key, key_of, get_effect_claim}
use tandem_interface_ai.Ledger.Claims.Exclusive.{is_claimable}
use tandem_interface_ai.Ledger.Tests.{start, effect, with_claim}
use tandem_interface_ai.Replay.Inquiry.{unreachable, answered, malformed}
use tandem_interface_ai.Replay.Settlement.{settle_claim_status}
use tandem_interface_ai.Replay.Engine.{Platform, EffectEngine, fenced}
use tandem_interface_ai.Prelude.Substring.{contains}
use tandem_interface_ai.Policy.{evaluate, validate_policy, amount_allowed, is_within}
use tandem_interface_ai.Domain.Identity.{idempotency_key, canonical_payload}
use tandem_interface_ai.Ledger.Events.{record_event}
use tandem_interface_ai.Ledger.Intents.{
  stage_intent, stage_new, mark_intent_committed, commit_staged,
}
use tandem_interface_ai.Ledger.Claims.{
  claim_effect, try_reclaim, finish_claim, record_claimed, transition_effect_claim,
  record_transitioned,
}
use tandem_interface_ai.Replay.Inquiry.{get, precheck_response}
use tandem_interface_ai.Replay.Checks.{
  execute_precheck, route_of, core_bank_url_for, normalize_institution_id,
}
use tandem_interface_ai.Replay.Engine.Admit.{
  admit, admit_commit, record_rejection, after_claim, after_precheck, stage_and_commit,
}
use tandem_interface_ai.Replay.Engine.Act.{
  act, act_if_admitted, enter_applying, execute, perform, maintain_action_lease, reconcile_if_open,
  conclude_run, record_money, record_reconciled, record_escalation, settle, commit_intent,
}
use tandem_interface_ai.Replay.Engine.Quiet.{bind-Quiet}
use tandem_interface_ai.Ledger.Cases.{get_case, update_case_status}
use tandem_interface_ai.Ledger.Executions.{start_execution, complete_execution}
use tandem_interface_ai.Ledger.Leases.{
  acquire_lease, insert_or_contend, announce, record_acquired, heartbeat_lease, release_lease,
  release_found, record_released, normalized_type,
}
use tandem_interface_ai.Replay.Engine.Fenced.{admit-Authorized}
use tandem_interface_ai.Replay.Engine.Settled.{Stands, act_settles}
use tandem_interface_ai.Replay.Engine.Untouched.{with_executors, busy_effect_untouched}
use tandem_interface_ai.Replay.Tests.{credit, inputs, absent, same}

-- Identifiers that differ.
abbrev unary : ℕ → String
unary zero = "event"
unary (suc n) = "-" ++ unary n

abbrev ready : World
ready = record start { env = record start.env { uuid = unary } }

abbrev posted : ExecutionOutcome
posted = record (outcome success completed "") { money_moved = true; audit_ref = some "MC-7001" }

abbrev plain_texts : Texts
plain_texts = record {
  strip = same;
  upper = same;
  is_alpha = λ _. true;
  read_decimal = λ _. some (finite false 34000 2);
}

abbrev platform : Platform
platform = record {
  texts = plain_texts;
  lower = same;
  show_decimal = λ _. "340.00";
  fetch = absent;
  member = λ _ _. unreachable;
  post = λ _ _. answered 200 malformed;
  browser = λ renew c i. renew >> pure posted;
}

abbrev engine : EffectEngine
engine = record { owner_id = "A"; institution = none; browser_session_id = none }

abbrev guard : ScopedGuardSpec
guard = record {
  guard_id = "primary_commit_guard";
  container_selector = "form";
  expected_member_template = "{{input.member_id}}";
  expected_account_template = "{{input.account_id}}";
  expected_amount_template = "{{input.amount}}";
  expected_currency_template = "{{input.currency}}";
  expected_case_template = "{{input.case_id}}";
  expected_institution_template = "{{input.institution_id}}";
}

abbrev press : StepDefinition
press = record {
  step_id = "s1";
  action = submit;
  semantic_target = "Post";
  guard_ref = some "primary_commit_guard";
}

abbrev guarded_credit : CapabilityDefinition
guarded_credit = record credit { scoped_guard = some guard; steps = press ∷ [] }

abbrev full_inputs : Fields
full_inputs =
    ("amount", record { shown = "340.00"; truthy = true; money = decimal (finite false 34000 2) })
    ∷ inputs

abbrev key : String
key = "CHK-8830142-01"

abbrev admitted : World
admitted = (admit platform engine guarded_credit "DSP-1" full_inputs (some effect) ready).1

admit_runs :
    admit platform engine guarded_credit "DSP-1" full_inputs (some effect) ready
    ≡ (ok (fenced key 1), admitted)
unfolding admit evaluate validate_policy amount_allowed is_within get parse_money quantize
    round_half_even admit_commit claim_effect select_one insert_or_ignore update_where rowcount
    idempotency_key canonical_payload try_reclaim finish_claim record_claimed record_event
    record_rejection after_claim execute_precheck route_of core_bank_url_for
    normalize_institution_id contains precheck_response after_precheck stage_and_commit stage_intent
    stage_new claim_status_value
admit_runs = refl

busy_claim :
    is_claimable (get_effect_claim (key_of (with_claim applied).env effect) (with_claim applied).db)
    ≡ false
unfolding select_one idempotency_key canonical_payload
busy_claim = refl

unique_applied : KeysUnique claim_key (with_claim applied).db.claims
unfolding select_one
unique_applied = (refl, tt)

busy_effect_untouched_example :
    (admit platform engine guarded_credit "DSP-1" full_inputs (some effect)
        >>= act_if_admitted platform engine guarded_credit "DSP-1" full_inputs "8830142"
            (pos 34000))
      (with_claim applied)
    ≡ (admit
            (with_executors (λ _ _. unreachable) (λ m c i. pure posted) platform)
            engine
            guarded_credit
            "DSP-1"
            full_inputs
            (some effect)
          >>= act_if_admitted
              (with_executors (λ _ _. unreachable) (λ m c i. pure posted) platform)
              engine
              guarded_credit
              "DSP-1"
              full_inputs
              "8830142"
              (pos 34000))
        (with_claim applied)
busy_effect_untouched_example =
    busy_effect_untouched platform engine guarded_credit "DSP-1" full_inputs (λ _ _. unreachable)
      (λ m c i. pure posted) "8830142" (pos 34000) effect (with_claim applied) unique_applied
      busy_claim

abbrev acted : World
acted =
    (act platform engine guarded_credit "DSP-1" full_inputs "8830142" (pos 34000) (fenced key 1)
      admitted).1

act_runs :
    act platform engine guarded_credit "DSP-1" full_inputs "8830142"
      (pos 34000)
      (fenced key 1)
      admitted
    ≡ (ok posted, acted)
unfolding act admit evaluate validate_policy amount_allowed is_within get parse_money quantize
    round_half_even admit_commit claim_effect select_one insert_or_ignore update_where rowcount
    idempotency_key canonical_payload try_reclaim finish_claim record_claimed record_event
    record_rejection after_claim execute_precheck route_of core_bank_url_for
    normalize_institution_id contains precheck_response after_precheck stage_and_commit stage_intent
    stage_new claim_status_value acquire_lease insert_or_contend announce record_acquired
    enter_applying transition_effect_claim record_transitioned start_execution execute perform
    maintain_action_lease heartbeat_lease reconcile_if_open conclude_run complete_execution
    record_money update_case_status get_case record_reconciled record_escalation settle
    settle_claim_status is_success commit_intent mark_intent_committed commit_staged release_lease
    release_found record_released code_value category_value class_value normalized_type
act_runs = refl

admitted_unique : KeysUnique claim_key admitted.db.claims
admitted_unique =
    (admit-Authorized platform engine guarded_credit "DSP-1" full_inputs (some effect) ready key 1
      admitted tt refl admit_runs).2.unique

act_settles_example :
    Stands engine key 1 (settle_claim_status posted) acted × (acted.durable ≡ acted.db)
act_settles_example =
    act_settles platform engine guarded_credit "DSP-1" full_inputs
      (λ m quiet w. bind-Quiet m (λ _. pure posted) quiet (λ _ v. refl) w) "8830142" (pos 34000) key
      1 admitted posted acted admitted_unique act_runs
