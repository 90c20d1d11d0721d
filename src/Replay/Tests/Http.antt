-- ===== src/Replay/Tests/Http.antt =====
-- A notice that is sent over HTTP, and a session that has expired.
use tandem_interface_ai.Prelude.{
  ◌≡◌, ◌⊎◌, refl, ap, arith, not, if◌then◌else◌, true, false, Option, none, some, [], ◌∷◌,
}
use tandem_interface_ai.Prelude.Eq.{==_refl, option_eq}
use tandem_interface_ai.Prelude.Int.{pos, int_eq}
use tandem_interface_ai.Prelude.Substring.{contains, char_count, replace, replace_from}
use tandem_interface_ai.Domain.Money.{finite, parse_money, quantize, round_half_even}
use tandem_interface_ai.Domain.Effects.{EffectIdentitySpec, failed_retryable}
use tandem_interface_ai.Domain.Errors.{ok, raised, amount_mismatch}
use tandem_interface_ai.Domain.Values.{get as lookup, Dict, end}
use tandem_interface_ai.Domain.Capability.{
  CapabilityDefinition, ScopedGuardSpec, StepDefinition, http_post, action_eq,
}
use tandem_interface_ai.Domain.Identity.{
  EffectIdentity, Texts, canonical_payload, fill_in, render, require_identity_value,
  normalize_currency, identity_fields, renders_before_amount, identity_of_amount, from_spec,
  from_capability,
}
use tandem_interface_ai.Domain.Fields.{Fields, get}
use tandem_interface_ai.Domain.Outcomes.{
  ExecutionOutcome, recoverable_failure, session_expired, outcome, is_success,
}
use tandem_interface_ai.Ledger.Tests.{effect}
use tandem_interface_ai.Replay.Inquiry.{Body, answered, malformed, Url}
use tandem_interface_ai.Replay.Checks.Answers.{Denies}
use tandem_interface_ai.Replay.Checks.Asks.{Asks}
use tandem_interface_ai.Replay.Settlement.{settle_claim_status}
use tandem_interface_ai.Replay.Http.{
  PostUrl, notices_send, send, prepare_request, execute_http_commit, is_guarded_post, build_request,
  verify_request_identity_guard, guard_outcome, all_bound, after_response,
}
use tandem_interface_ai.Replay.Http.Guarded.{
  Carries, sent_request-Carries, sent_retryable_only_if_refused,
}
use tandem_interface_ai.Replay.Tests.{word, credit, credit_effect, inputs, absent, same}

abbrev texts : Texts
texts = record {
  strip = same;
  upper = same;
  is_alpha = λ _. true;
  read_decimal = λ _. some (finite false 34000 2);
}

abbrev templates : EffectIdentitySpec
templates = record {
  institution_id = "{{input.institution_id}}";
  procedure_id = "reg_e_dispute";
  case_id = "{{input.case_id}}";
  capability_id = "documents.send_notice";
  member_id = "{{input.member_id}}";
  account_id = "{{input.account_id}}";
  amount = "{{input.amount}}";
  currency = "{{input.currency}}";
  business_reference = "{{input.case_id}}";
}

abbrev guard : ScopedGuardSpec
guard = record {
  guard_id = "http_guard";
  container_selector = "request";
  expected_member_template = "{{input.member_id}}";
  expected_account_template = "{{input.account_id}}";
  expected_amount_template = "{{input.amount}}";
  expected_currency_template = "{{input.currency}}";
  expected_case_template = "{{input.case_id}}";
  expected_institution_template = "{{input.institution_id}}";
}

abbrev step : StepDefinition
step = record {
  step_id = "s1";
  action = http_post;
  semantic_target = "notices";
  guard_ref = some "http_guard";
}

abbrev notice : CapabilityDefinition
notice = record credit {
  id = "documents.send_notice";
  system = "documents";
  effect = record credit_effect { identity = some templates };
  scoped_guard = some guard;
  steps = step ∷ [];
}

abbrev notice_inputs : Fields
notice_inputs =
    ("amount", word "340.00")
    ∷ ("notice_type", word "PROVISIONAL")
    ∷ ("deadline_due_at", word "2026-11-30")
    ∷ inputs

abbrev identity : EffectIdentity
identity = record effect { capability_id = "documents.send_notice"; account_id = "CHK-1" }

abbrev sent_in : Option (PostUrl × Dict) → Dict
sent_in none = end
sent_in (some (url, d)) = d

abbrev payload : Dict
payload = sent_in (build_request notice notice_inputs identity)

guard_passes : verify_request_identity_guard payload identity ≡ ok tt
unfolding verify_request_identity_guard all_bound lookup canonical_payload build_request get
guard_passes =
    ap (λ b. if not b then raised amount_mismatch else ok tt) (==_refl (some (pos 34000)))

prepared : prepare_request texts notice notice_inputs ≡ ok (send notices_send payload)
unfolding prepare_request is_guarded_post from_capability from_spec renders_before_amount render
    fill_in replace replace_from contains char_count identity_of_amount identity_fields
    require_identity_value normalize_currency parse_money quantize round_half_even build_request get
prepared = ap (guard_outcome notices_send payload) guard_passes

sent_request-Carries_example :
    (is_guarded_post (some guard) (step ∷ []) ≡ true)
    × ((i : EffectIdentity) × (from_capability texts notice notice_inputs ≡ ok i)
        × Carries i payload)
sent_request-Carries_example =
    sent_request-Carries texts notice notice_inputs notices_send payload prepared

abbrev expired : ExecutionOutcome
expired = outcome recoverable_failure session_expired ""

expired_runs :
    execute_http_commit texts same (λ _ _. answered 401 malformed) absent notice notice_inputs 0
    ≡ ok expired
unfolding execute_http_commit after_response
expired_runs = ground (arith, prepared)

expired_retryable : settle_claim_status expired ≡ failed_retryable
unfolding settle_claim_status is_success
expired_retryable = refl

sent_retryable_only_if_refused_example :
    ((b : Body) × (answered 401 malformed ≡ answered 401 b))
    ⊎ ((url : Url) × Asks same notice notice_inputs url × Denies (absent url 0))
sent_retryable_only_if_refused_example =
    sent_retryable_only_if_refused texts same (λ _ _. answered 401 malformed) absent notice
      notice_inputs 0 notices_send payload expired prepared expired_runs expired_retryable
