-- ===== src/Domain/Capability.antt =====
-- Capability artifacts (tandem/domain/capability.py), by the fields that the modelled code reads, and
-- the checks on loading one. Its digest is a parameter.
pub mod Safety
use tandem_interface_ai.Prelude.{
  ℕ, String, ◌≡◌, refl, ◌↔◌, Bool, true, false, not, ◌&&◌, ◌||◌, Option, none, some, List, [], ◌∷◌,
  ◌++◌, nat_beq, get_elem?, is_some, keep_if, any_of, if◌then◌else◌,
}
use tandem_interface_ai.Prelude.Eq.{Eq, ◌==◌, by_index, nat_eq, string_eq, option_eq}
use tandem_interface_ai.Prelude.Substring.{char_count}
use tandem_interface_ai.Domain.Effects.{
  EffectSpec, commit, class_eq, validate_commit_safety_contract,
}

pub data StepAction : Type 0 where
  navigate click fill assert_container submit http_post : StepAction

-- A number for each constructor, by which constructors are compared.
abbrev action_index : StepAction → ℕ
action_index navigate = 0
action_index click = 1
action_index fill = 2
action_index assert_container = 3
action_index submit = 4
action_index http_post = 5

action_of : ℕ → Option StepAction
action_of n = get_elem? (navigate ∷ click ∷ fill ∷ assert_container ∷ submit ∷ http_post ∷ []) n

action_of-index : (a : StepAction) → action_of (action_index a) ≡ some a
unfolding action_of
action_of-index navigate = refl
action_of-index click = refl
action_of-index fill = refl
action_of-index assert_container = refl
action_of-index submit = refl
action_of-index http_post = refl

pub action_beq_iff :
    (a b : StepAction) → (nat_beq (action_index a) (action_index b) ≡ true) ↔ (a ≡ b)
action_beq_iff = by_index action_index action_of action_of-index

instance abbrev pub action_eq : Eq StepAction
action_eq = record {
  beq = λ a b. nat_beq (action_index a) (action_index b);
  beq_iff = action_beq_iff;
}

pub record StepDefinition : Type 0 where
  pub step_id : String
  pub action : StepAction
  pub semantic_target : String
  pub guard_ref : Option String

-- The templates of the values that the guard expects.
pub record ScopedGuardSpec : Type 0 where
  pub guard_id : String
  pub container_selector : String
  pub expected_member_template : String
  pub expected_account_template : String
  pub expected_amount_template : String
  pub expected_currency_template : String
  pub expected_case_template : String
  pub expected_institution_template : String

pub record CapabilityDefinition : Type 0 where
  pub id : String
  pub version : String
  pub schema_version : ℕ
  pub system : String
  pub effect : EffectSpec
  pub scoped_guard : Option ScopedGuardSpec
  pub steps : List StepDefinition
  pub supported_surfaces : List String

-- A step that acts on the target.
abbrev pub is_actuation : StepDefinition → Bool
is_actuation s = s.action == submit || s.action == http_post

unfoldable pub actuations : CapabilityDefinition → List StepDefinition
actuations c = keep_if is_actuation c.steps

-- Every actuation names the guard.
abbrev pub all_guarded : String → List StepDefinition → Bool
all_guarded guard_id steps = not (any_of (λ s. not (s.guard_ref == some guard_id)) steps)

-- The guard of a COMMIT, and its steps.
unfoldable pub is_guarded_commit : Option ScopedGuardSpec → List StepDefinition → Bool
is_guarded_commit none acts = false
is_guarded_commit (some guard) [] = false
is_guarded_commit (some guard) (act ∷ acts) = all_guarded guard.guard_id (act ∷ acts)

-- `none` stands for the `ValueError`.
unfoldable pub validate_capability_safety : CapabilityDefinition → Option CapabilityDefinition
unfolding is_guarded_commit
validate_capability_safety c =
    if not (c.schema_version == 1)
    then none
    else if c.effect.effect_class == commit
    then (if is_guarded_commit c.scoped_guard (actuations c) then some c else none)
    else some c

-- The identifier of a guard is not empty (`min_length=1`).
abbrev pub guard_is_named : Option ScopedGuardSpec → Bool
guard_is_named none = true
guard_is_named (some guard) = not (guard.guard_id == "")

-- `CapabilityDefinition.model_validate` on an artifact whose fields have their types: the guard and
-- the effect are validated before the whole.
unfoldable pub model_validate : CapabilityDefinition → Option CapabilityDefinition
model_validate c =
    elim (if guard_is_named c.scoped_guard
      then validate_commit_safety_contract c.effect
      else none) [ none ↦ none | some effect ↦ validate_capability_safety c ]

-- Every navigation goes to the home of the capability's own surface.
unfoldable pub navigates_home : (String → String) → CapabilityDefinition → Bool
navigates_home home c =
    not (any_of (λ s. s.action == navigate && not (s.semantic_target == home c.system)) c.steps)

-- The checks of `load_capability_from_yaml` on a parsed artifact and the digest that it declares:
-- its validation, its digest, its surface and its navigation. `home` is the text of a surface's home.
unfoldable pub load_capability :
    (CapabilityDefinition → String)
    → (String → String)
    → String
    → CapabilityDefinition
    → Option CapabilityDefinition
unfolding navigates_home char_count
load_capability compute_hash home declared_hash artifact =
    elim (if char_count declared_hash == 64 then model_validate artifact else none) [
      | none ↦ none
      | some cap ↦
          if not (declared_hash == compute_hash cap)
          then none
          else if not (any_of (λ s. s == cap.system) cap.supported_surfaces)
          then none
          else if navigates_home home cap
          then some cap
          else none
    ]
