-- ===== src/Policy/Tests.antt =====
-- A credit that the policy allows, and a capability that is loaded.
use tandem_interface_ai.Prelude.{String, ◌≡◌, ◌↔◌, refl, true, false, none, some, [], ◌∷◌}
use tandem_interface_ai.Prelude.Substring.{char_count}
use tandem_interface_ai.Domain.Money.{decimal, finite}
use tandem_interface_ai.Domain.Effects.{
  EffectSpec, EffectIdentitySpec, commit, validate_commit_safety_contract, missing_metadata,
}
use tandem_interface_ai.Domain.Effects.Contract.{declares_all}
use tandem_interface_ai.Domain.Values.{end}
use tandem_interface_ai.Prelude.Int.{pos}
use tandem_interface_ai.Domain.Capability.{
  CapabilityDefinition, ScopedGuardSpec, navigate, submit, actuations, is_guarded_commit,
  guard_is_named, model_validate, validate_capability_safety, navigates_home, load_capability,
}
use tandem_interface_ai.Domain.Capability.Safety.{Guarded, loaded_commit-Guarded}
use tandem_interface_ai.Domain.Fields.{Fields}
use tandem_interface_ai.Policy.{evaluate}
use tandem_interface_ai.Policy.Allowed.{Allowed, evaluate_allows_iff}

abbrev guard : ScopedGuardSpec
guard = record {
  guard_id = "primary_commit_guard";
  container_selector = "form";
  expected_member_template = "{{input.member_id}}";
  expected_account_template = "{{input.account_id}}";
  expected_amount_template = "{{input.amount}}";
  expected_currency_template = "{{input.currency}}";
  expected_case_template = "{{input.case_id}}";
  expected_institution_template = "{{input.institution_id}}";
}

abbrev credit_effect : EffectSpec
credit_effect = record {
  effect_class = commit;
  identity = none;
  idempotency_key = none;
  precheck = none;
  postcheck = none;
  reconciliation = none;
  compensation = none;
  bounds = none;
}

abbrev surface : String
surface = "surface://core_bank/home"

abbrev credit : CapabilityDefinition
credit = record {
  id = "core.post_provisional_credit";
  version = "1.0.0";
  schema_version = 1;
  system = "core_bank";
  effect = credit_effect;
  scoped_guard = some guard;
  steps =
      record { step_id = "s1"; action = navigate; semantic_target = surface; guard_ref = none }
      ∷ record {
        step_id = "s2";
        action = submit;
        semantic_target = "Post";
        guard_ref = some "primary_commit_guard";
      }
      ∷ [];
  supported_surfaces = "core_bank" ∷ [];
}

abbrev inputs : Fields
inputs =
    ("amount", record { shown = "340.00"; truthy = true; money = decimal (finite false 34000 2) })
    ∷ []

evaluate_allows_iff_example : (evaluate credit inputs ≡ none) ↔ Allowed credit inputs
evaluate_allows_iff_example = evaluate_allows_iff credit inputs refl

abbrev digest : String
digest = "0123456789abcdef0123456789abcdef0123456789abcdef0123456789abcdef"

abbrev templates : EffectIdentitySpec
templates = record {
  institution_id = "{{input.institution_id}}";
  procedure_id = "reg_e_dispute";
  case_id = "{{input.case_id}}";
  capability_id = "core.post_provisional_credit";
  member_id = "{{input.member_id}}";
  account_id = "{{input.account_id}}";
  amount = "{{input.amount}}";
  currency = "{{input.currency}}";
  business_reference = "{{input.case_id}}";
}

-- The credit with the whole contract of a COMMIT.
abbrev complete : CapabilityDefinition
complete = record credit {
  effect = record credit_effect {
    identity = some templates;
    idempotency_key = some "CHK-{{input.member_id}}";
    precheck = some (record { capability = "find"; params = end; if_found = "ALREADY_APPLIED" });
    postcheck = some (record { capability = "find"; params = end; expected_status = "POSTED" });
    reconciliation = some (record { strategy = "inquiry"; max_inquiry_attempts = pos 2 });
    bounds = some (record { max_amount = pos 50000; currency = "USD" });
  };
}

loads : load_capability (λ _. digest) (λ _. surface) digest complete ≡ some complete
unfolding load_capability char_count model_validate validate_commit_safety_contract missing_metadata
    validate_capability_safety is_guarded_commit actuations navigates_home
loads = refl

loaded_commit-Guarded_example :
    (complete ≡ complete)
    × (char_count digest ≡ 64)
    × (digest ≡ digest)
    × (complete.schema_version ≡ 1)
    × Guarded complete
    × (guard_is_named complete.scoped_guard ≡ true)
    × (declares_all complete.effect ≡ true)
    × (navigates_home (λ _. surface) complete ≡ true)
loaded_commit-Guarded_example =
    loaded_commit-Guarded (λ _. digest) (λ _. surface) digest complete complete loads refl
