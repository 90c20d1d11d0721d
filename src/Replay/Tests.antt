-- ===== src/Replay/Tests.antt =====
-- Checks and reconciliations against a target that answers in a fixed way.
pub mod Engine
pub mod Http
pub mod Recovery
use tandem_interface_ai.Prelude.{
  arith, ℕ, zero, suc, ◌+◌, ◌≤◌, ◌<◌, String, ◌≡◌, ◌≢◌, ◌⊎◌, refl, true, none, some, [], ◌∷◌,
}
use tandem_interface_ai.Prelude.Int.{pos}
use tandem_interface_ai.Prelude.Substring.{contains}
use tandem_interface_ai.Domain.Values.{end}
use tandem_interface_ai.Domain.Money.{other}
use tandem_interface_ai.Domain.Effects.{
  EffectSpec, commit, class_eq, failed_retryable, applied, uncertain,
}
use tandem_interface_ai.Domain.Outcomes.{
  ExecutionOutcome, OutcomeCategory, OutcomeCode, success, business_outcome, confirmed_applied,
  not_applied, already_applied, confirmed_not_applied, recoverable_failure, network_timeout,
  before_submit, submit_confirmed, after_submit_unknown, outcome, is_success,
}
use tandem_interface_ai.Ledger.Session.{ok}
use tandem_interface_ai.Replay.Inquiry.{
  Dynamic, Fields, get, text_of, malformed, fields, Response, answered, unreachable, Url,
  alpha_credits, CapabilityDefinition, expected, all_match, amount_matches, identity_matches,
  audit_ref_of, precheck_fields, precheck_response, postcheck_fields, postcheck_response,
}
use tandem_interface_ai.Replay.Checks.Landed.{landed_is_settled}
use tandem_interface_ai.Replay.Checks.{
  at, normalize_institution_id, core_bank_url_for, route_of, execute_precheck, execute_postcheck,
  max_attempts, inquire_again, conclude, reconcile_commit_execution,
}
use tandem_interface_ai.Replay.Checks.Answers.{Shows, Denies}
use tandem_interface_ai.Replay.Checks.Asks.{Asks}
use tandem_interface_ai.Replay.Checks.Evidence.{
  precheck_authorizes_only_absent, precheck_applied_has_identity,
}
use tandem_interface_ai.Replay.Checks.Reconciled.{
  reconcile_confirmed_has_evidence, never_blindly_retried, reconcile_settles,
}
use tandem_interface_ai.Replay.Settlement.{settle_claim_status}

abbrev pub word : String → Dynamic
word s = record { shown = s; truthy = true; money = other none }

abbrev pub credit_effect : EffectSpec
credit_effect = record {
  effect_class = commit;
  identity = none;
  idempotency_key = some "key";
  precheck = some (record { capability = "find"; params = end; if_found = "ALREADY_APPLIED" });
  postcheck = none;
  reconciliation = some (record { strategy = "inquiry"; max_inquiry_attempts = pos 3 });
  compensation = none;
  bounds = none;
}

abbrev pub credit : CapabilityDefinition
credit = record {
  id = "core.post_provisional_credit";
  version = "1.0.0";
  schema_version = 1;
  system = "core_bank";
  effect = credit_effect;
  scoped_guard = none;
  steps = [];
  supported_surfaces = "core_bank" ∷ [];
}

abbrev pub inputs : Fields
inputs =
    ("institution_id", word "alpha")
    ∷ ("case_id", word "DSP-1")
    ∷ ("member_id", word "8830142")
    ∷ ("account_id", word "CHK-1")
    ∷ ("currency", word "USD")
    ∷ []

-- What the target answers when the effect is there.
abbrev landed : Fields
landed =
    ("institution_id", word "alpha")
    ∷ ("procedure_id", word "reg_e_dispute")
    ∷ ("capability_id", word "core.post_provisional_credit")
    ∷ ("case_id", word "DSP-1")
    ∷ ("member_id", word "8830142")
    ∷ ("account_id", word "CHK-1")
    ∷ ("currency", word "USD")
    ∷ ("business_reference", word "DSP-1")
    ∷ ("memo_code", word "MC-7001")
    ∷ ("status", word "POSTED")
    ∷ []

abbrev pub same : String → String
same s = s

-- The target never has the effect.
abbrev pub absent : Url → ℕ → Response
absent url n = answered 404 malformed

-- The target has the effect, and cannot be reached at first.
abbrev slow : Url → ℕ → Response
slow url zero = unreachable
slow url (suc n) = answered 200 (fields landed)

abbrev denied_verdict : ExecutionOutcome
denied_verdict = record (outcome business_outcome confirmed_not_applied "") {
  execution_phase = after_submit_unknown;
}

abbrev confirmed_verdict : ExecutionOutcome
confirmed_verdict = record (outcome success confirmed_applied "") {
  money_moved = true;
  audit_ref = some "MC-7001";
  execution_phase = submit_confirmed;
}

absent_runs : reconcile_commit_execution same absent credit inputs 0 ≡ ok denied_verdict
unfolding reconcile_commit_execution execute_postcheck route_of core_bank_url_for
    normalize_institution_id get contains postcheck_response max_attempts inquire_again conclude
    is_success
absent_runs = refl

absent_settles : settle_claim_status denied_verdict ≡ failed_retryable
unfolding settle_claim_status is_success
absent_settles = refl

never_blindly_retried_example :
    (m : ℕ) × (0 ≤ m)
    × (m < 0 + 3)
    × (url : Url) × Asks same credit inputs url
    × Denies (absent url m)
unfolding max_attempts
never_blindly_retried_example =
    never_blindly_retried same absent credit inputs 0 denied_verdict absent_runs absent_settles

slow_runs : reconcile_commit_execution same slow credit inputs 0 ≡ ok confirmed_verdict
unfolding reconcile_commit_execution execute_postcheck route_of core_bank_url_for
    normalize_institution_id get contains postcheck_response postcheck_fields identity_matches
    expected all_match amount_matches text_of max_attempts inquire_again conclude is_success
slow_runs = refl

reconcile_confirmed_has_evidence_example :
    (m : ℕ) × (0 ≤ m)
    × (m < 0 + 3)
    × (url : Url) × Asks same credit inputs url
    × Shows credit inputs (slow url m)
unfolding max_attempts
reconcile_confirmed_has_evidence_example =
    reconcile_confirmed_has_evidence same slow credit inputs 0 confirmed_verdict slow_runs refl

reconcile_settles_example :
    (m : ℕ) × (0 ≤ m)
    × (m < 0 + 3)
    × (x : ExecutionOutcome) × (execute_postcheck same absent credit inputs m ≡ ok x)
    × (((x.category ≡ success)
          × (confirmed_not_applied ≡ confirmed_applied)
          × (settle_claim_status denied_verdict ≡ applied))
        ⊎ ((x.code ≡ confirmed_not_applied)
            × (confirmed_not_applied ≡ confirmed_not_applied)
            × (settle_claim_status denied_verdict ≡ failed_retryable))
        ⊎ ((x.category ≢ success)
            × (x.code ≢ confirmed_not_applied)
            × (confirmed_not_applied ≡ OutcomeCode.uncertain_effect)
            × (settle_claim_status denied_verdict ≡ uncertain)))
unfolding max_attempts
reconcile_settles_example = reconcile_settles same absent credit inputs 0 denied_verdict absent_runs

credit_route : route_of same credit inputs "DSP-1" ≡ at (alpha_credits "DSP-1") true "memo_code"
unfolding route_of core_bank_url_for normalize_institution_id get contains
credit_route = refl

landed_matches : identity_matches credit inputs landed ≡ true
unfolding identity_matches expected all_match amount_matches text_of get
landed_matches = refl

-- The target is out of reach for one inquiry.
slow_at_first : (j : ℕ) → j < 1 → slow (alpha_credits "DSP-1") (0 + j) ≡ unreachable
slow_at_first zero h = refl
slow_at_first (suc j) h = absurd (omega (arith, h))

landed_is_settled_example :
    (o : ExecutionOutcome) × (reconcile_commit_execution same slow credit inputs 0 ≡ ok o)
    × (o.code ≡ confirmed_applied)
    × (o.audit_ref ≡ some "MC-7001")
    × (settle_claim_status o ≡ applied)
unfolding get max_attempts
landed_is_settled_example =
    landed_is_settled same slow credit inputs (word "DSP-1") (alpha_credits "DSP-1") true
      "memo_code" refl credit_route 0 1 landed (word "MC-7001") (word "POSTED") (omega arith)
      slow_at_first refl landed_matches refl refl

absent_precheck : execute_precheck same absent credit inputs 0 ≡ ok (outcome success not_applied "")
unfolding execute_precheck route_of core_bank_url_for normalize_institution_id get contains
    precheck_response
absent_precheck = refl

precheck_authorizes_only_absent_example :
    (url : Url) × Asks same credit inputs url × Denies (absent url 0)
precheck_authorizes_only_absent_example =
    precheck_authorizes_only_absent credit inputs same absent 0 (outcome success not_applied "")
      refl absent_precheck refl

abbrev found_verdict : ExecutionOutcome
found_verdict = record (outcome business_outcome already_applied "") { audit_ref = some "MC-7001" }

landed_precheck : execute_precheck same slow credit inputs 1 ≡ ok found_verdict
unfolding execute_precheck route_of core_bank_url_for normalize_institution_id get contains
    precheck_response precheck_fields identity_matches expected all_match amount_matches text_of
    audit_ref_of
landed_precheck = refl

precheck_applied_has_identity_example :
    (url : Url) × Asks same credit inputs url × Shows credit inputs (slow url 1)
precheck_applied_has_identity_example =
    precheck_applied_has_identity credit inputs same slow 1 found_verdict landed_precheck refl
