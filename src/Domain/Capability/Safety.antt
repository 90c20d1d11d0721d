-- ===== src/Domain/Capability/Safety.antt =====
-- What a loaded capability is.
use tandem_interface_ai.Prelude.{
  String, ◌≡◌, ◌≢◌, refl, sym, ap, ◌∙◌, arith, Bool, true, false, not, Option, none, some, List, [],
  ◌∷◌, All, any_of, inl, inr, Bool-cases, if◌then◌else◌,
}
use tandem_interface_ai.Prelude.Eq.{◌==◌, nat_eq, string_eq, option_eq}
use tandem_interface_ai.Prelude.Substring.{char_count}
use tandem_interface_ai.Domain.Effects.{
  commit, class_eq, class_beq_iff, EffectSpec, validate_commit_safety_contract,
}
use tandem_interface_ai.Domain.Effects.Contract.{declares_all, validate_commit_safety_contract_lem}
use tandem_interface_ai.Domain.Capability.{
  StepDefinition, ScopedGuardSpec, CapabilityDefinition, actuations, all_guarded, is_guarded_commit,
  guard_is_named, model_validate, validate_capability_safety, navigates_home, load_capability,
}

all_guarded-All :
    (guard_id : String) (steps : List StepDefinition)
    → all_guarded guard_id steps ≡ true
    → All (λ s. s.guard_ref ≡ some guard_id) steps
all_guarded-All guard_id [] h = tt
all_guarded-All guard_id (s ∷ rest) h = elim (Bool-cases (s.guard_ref == some guard_id)) [
  | inl y ↦ ((option_eq.beq_iff _ _).0 y, all_guarded-All guard_id rest (ground (arith, h, y)))
  | inr y ↦ absurd (ground (arith, h, y))
]

-- A COMMIT whose steps that act on the target, one at least, all name its guard.
pub record Guarded (c : CapabilityDefinition) : Type 0 where
  pub guard : ScopedGuardSpec
  pub there : c.scoped_guard ≡ some guard
  pub acts : actuations c ≢ []
  pub guarded : All (λ s. s.guard_ref ≡ some guard.guard_id) (actuations c)

guarded_commit :
    (g : Option ScopedGuardSpec) (acts : List StepDefinition)
    → is_guarded_commit g acts ≡ true
    → (guard : ScopedGuardSpec) × (g ≡ some guard)
      × (acts ≢ [])
      × All (λ s. s.guard_ref ≡ some guard.guard_id) acts
unfolding is_guarded_commit
guarded_commit none acts h = absurd (ground (arith, h))
guarded_commit (some g) [] h = absurd (ground (arith, h))
guarded_commit (some g) (s ∷ acts) h =
    (g, refl, λ e. ground (arith, e), all_guarded-All g.guard_id (s ∷ acts) h)

three_tests :
    (a b g : Bool) (x d : CapabilityDefinition)
    → (if not a then none else if b then (if g then some x else none) else some x) ≡ some d
    → b ≡ true
    → (x ≡ d) × (a ≡ true) × (g ≡ true)
three_tests true true true x d h k = (ground (arith, h), refl, refl)
three_tests true true false x d h k = absurd (ground (arith, h))
three_tests true false g x d h k = absurd (ground (arith, k))
three_tests false b g x d h k = absurd (ground (arith, h))

validated :
    (c d : CapabilityDefinition)
    → validate_capability_safety c ≡ some d
    → c.effect.effect_class ≡ commit
    → (c ≡ d) × (c.schema_version ≡ 1) × (is_guarded_commit c.scoped_guard (actuations c) ≡ true)
unfolding validate_capability_safety
validated c d h k =
    let (same, version, guarded) = three_tests _ _ _ c d h ((class_beq_iff _ _).1 k) in
    (same, (nat_eq.beq_iff _ _).0 version, guarded)

contract_kept :
    (e : EffectSpec)
    → validate_commit_safety_contract e ≢ none
    → e.effect_class ≡ commit
    → declares_all e ≡ true
contract_kept e h k =
    ground
      (arith, h, validate_commit_safety_contract_lem e, (class_beq_iff e.effect_class commit).1 k)

-- The validation of the guard and of the effect, before that of the whole.
two_validations :
    (a : Bool) (e : Option EffectSpec) (v : Option CapabilityDefinition) (d : CapabilityDefinition)
    → (elim (if a then e else none) as (λ _. Option CapabilityDefinition) [
      | none ↦ none
      | some _ ↦ v
    ])
      ≡ some d
    → (a ≡ true) × (e ≢ none) × (v ≡ some d)
two_validations false e v d h = absurd (ground (arith, h))
two_validations true none v d h = absurd (ground (arith, h))
two_validations true (some e) v d h = (refl, (λ q. ground (arith, q)), h)

model_validated :
    (c d : CapabilityDefinition)
    → model_validate c ≡ some d
    → c.effect.effect_class ≡ commit
    → (guard_is_named c.scoped_guard ≡ true)
      × (declares_all c.effect ≡ true)
      × (validate_capability_safety c ≡ some d)
unfolding model_validate
model_validated c d h k =
    let (name, effect, valid) = two_validations _ _ _ d h in
    (name, contract_kept c.effect effect k, valid)

-- The checks after the validation.
last_tests :
    (l : Bool) (v : Option CapabilityDefinition) (same listed home : CapabilityDefinition → Bool)
    (d : CapabilityDefinition)
    → (elim (if l then v else none) as (λ _. Option CapabilityDefinition) [
      | none ↦ none
      | some cap ↦
          if not (same cap)
          then none
          else if not (listed cap)
          then none
          else if home cap
          then some cap
          else none
    ])
      ≡ some d
    → (l ≡ true) × (v ≡ some d) × (same d ≡ true) × (listed d ≡ true) × (home d ≡ true)
last_tests false v same listed home d h = absurd (ground (arith, h))
last_tests true none same listed home d h = absurd (ground (arith, h))
last_tests true (some c) same listed home d h = elim (Bool-cases (same c)) [
  | inr x ↦ absurd (ground (arith, h, x))
  | inl x ↦ elim (Bool-cases (listed c)) [
    | inr y ↦ absurd (ground (arith, h, x, y))
    | inl y ↦ elim (Bool-cases (home c)) [
      | inr z ↦ absurd (ground (arith, h, x, y, z))
      | inl z ↦
          let is : c ≡ d = ground (arith, h, x, y, z) in
          (refl, ap some is, ap same (sym is) ∙ x, ap listed (sym is) ∙ y, ap home (sym is) ∙ z)
    ]
  ]
]

-- A COMMIT that is loaded is the artifact itself, its declared digest has 64 characters and is the artifact's own, its schema version is 1, its effect declares an idempotency key, an identity, a precheck, a postcheck, a reconciliation and bounds, every step that acts on the target names its guard, whose identifier is not empty, there is such a step, and every navigation goes to the home of its own surface.
pub loaded_commit-Guarded :
    (compute_hash : CapabilityDefinition → String) (home : String → String) (declared_hash : String)
    (c d : CapabilityDefinition)
    → load_capability compute_hash home declared_hash c ≡ some d
    → c.effect.effect_class ≡ commit
    → (c ≡ d)
      × (char_count declared_hash ≡ 64)
      × (declared_hash ≡ compute_hash d)
      × (d.schema_version ≡ 1)
      × Guarded d
      × (guard_is_named d.scoped_guard ≡ true)
      × (declares_all d.effect ≡ true)
      × (navigates_home home d ≡ true)
unfolding load_capability
loaded_commit-Guarded compute_hash home declared_hash c d h k =
    let (len, v, hash, listed, nav) =
      last_tests (char_count declared_hash == 64) (model_validate c)
        (λ cap. declared_hash == compute_hash cap)
        (λ cap. any_of (λ s. s == cap.system) cap.supported_surfaces) (navigates_home home) d h in
    let (name, complete, valid) = model_validated c d v k in
    let (is, version, guarded) = validated c d valid k in
    let (guard, there, acts, names) =
      guarded_commit d.scoped_guard (actuations d) (rw is at guarded) in
    (
      is,
      (nat_eq.beq_iff _ _).0 len,
      (string_eq.beq_iff _ _).0 hash,
      rw is at version,
      record { guard = guard; there = there; acts = acts; guarded = names },
      rw is at name,
      rw is at complete,
      nav,
    )
